-- ===== src/Containers/Iterator.antt =====
-- `ContainerIterator` and the methods of `Container` that loop with it (src/container.cpp,
-- src/container.h). `n` is the number of rounds; `none` says that there were more.
use infernum_data_pack.Base.{
  ℕ, zero, suc, ◌%◌, Bool, true, false, not, ◌==◌, ◌&&◌, List, [], ◌∷◌, ◌++◌, Option, none, some,
  length, if◌then◌else◌,
}
use infernum_data_pack.Containers.{Kinds, Store, word, is_nil}

-- `cur` is what is left of the list of the first container of `over`.
pub record ContainerIterator : Type 0 where
  pub over : List ℕ
  pub cur : List ℕ

abbrev pub has_next : ContainerIterator → Bool
has_next it = not (is_nil it.over)

unfoldable pub contains : ℕ → List ℕ → Bool
contains x [] = false
contains x (y ∷ ys) = if y == x then true else contains x ys

module _ (k : Kinds) (s : Store) where
  abbrev pub from_front : List ℕ → ContainerIterator
  from_front [] = record { over = []; cur = [] }
  from_front (p ∷ over) = record { over = p ∷ over; cur = s.itemlist p }

  abbrev pub pop_front : List ℕ → List ℕ
  pop_front [] = []
  pop_front (p ∷ over) = over

  unfoldable pub iterator : ℕ → ContainerIterator
  iterator c = if is_nil (s.itemlist c) then from_front [] else from_front (c ∷ [])

  abbrev pub queued : ℕ → List ℕ → List ℕ
  queued i over = if k.is_container i && not (is_nil (s.itemlist i)) then over ++ i ∷ [] else over

  abbrev pub settle : List ℕ → List ℕ → ContainerIterator
  settle over [] = from_front (pop_front over)
  settle over (i ∷ rest) = record { over = over; cur = i ∷ rest }

  -- The code reads `*cur`: nothing comes of a `cur` at the end, which does not happen.
  unfoldable pub advance : List ℕ → List ℕ → ContainerIterator
  advance over [] = record { over = over; cur = [] }
  advance over (i ∷ rest) = settle (queued i over) rest

  abbrev pub after : List ℕ → Option (List ℕ) → Option (List ℕ)
  after [] o = o
  after (i ∷ rest) none = none
  after (i ∷ rest) (some xs) = some (i ∷ xs)

  -- The items that the loop sees, in order.
  unfoldable pub visit : ℕ → ContainerIterator → Option (List ℕ)
  visit zero it = if has_next it then none else some []
  visit (suc n) it =
      let rest = visit n (advance it.over it.cur) in
      if has_next it then after it.cur rest else some []

  abbrev counted : Option (List ℕ) → Option ℕ
  counted none = none
  counted (some xs) = some (length xs % word)

  abbrev found : ℕ → Option (List ℕ) → Option Bool
  found x none = none
  found x (some xs) = some (contains x xs)

  unfoldable pub get_item_holding_count : ℕ → ℕ → Option ℕ
  get_item_holding_count n c = counted (visit n (iterator c))

  unfoldable pub is_holding_item : ℕ → ℕ → ℕ → Option Bool
  is_holding_item n c x = found x (visit n (iterator c))
