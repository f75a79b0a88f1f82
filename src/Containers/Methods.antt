-- ===== src/Containers/Methods.antt =====
-- The methods of `Container` that change what it holds (src/container.cpp). `n` is the number of
-- containers that `updateItemWeight` may climb through; `none` says that there were more.
use infernum_data_pack.Base.{
  ℕ, zero, suc, ◌+◌, ◌-◌, ◌%◌, Bool, false, not, List, [], ◌∷◌, ◌++◌, Option, none, some, ◌==◌,
  ◌&&◌, leb, get_elem?, if◌then◌else◌,
}
use infernum_data_pack.Containers.{
  Parent, nowhere, in_container, Thing, item, creature, Kinds, Store, word, negative, set_parent,
  set_itemlist, set_total_weight, set_item_count, set_id, set_sub_type, is_stackable, get_weight,
}

-- The index of a slot; `INDEX_WHEREEVER` is −1.
pub data Index : Type 0 where
  wherever : Index
  at : ℕ → Index

-- `index >= static_cast<int32_t>(capacity())`
abbrev pub is_beyond : ℕ → Index → Bool
is_beyond size wherever = false
is_beyond size (at i) = leb size i

-- What the parent's method does, where the parent is a container.
abbrev pub in_parent : (ℕ → Option Store) → Store → Parent → Option Store
in_parent f s (in_container p) = f p
in_parent f s _ = some s

unfoldable pub update_item_weight : ℕ → ℕ → ℕ → Store → Option Store
update_item_weight zero c d s = none
update_item_weight (suc n) c d s =
    let t = set_total_weight c ((s.total_weight c + d) % word) s in
    in_parent (λ p. update_item_weight n p d t) t (s.parent c)

abbrev pub one_further : Option ℕ → Option ℕ
one_further none = none
one_further (some i) = some (suc i)

-- `getThingIndex`, with `none` for −1.
unfoldable pub index_of : ℕ → List ℕ → Option ℕ
index_of x [] = none
index_of x (y ∷ ys) = if y == x then some 0 else one_further (index_of x ys)

unfoldable pub get_thing_index : ℕ → Thing → Store → Option ℕ
get_thing_index c creature s = none
get_thing_index c (item x) s = index_of x (s.itemlist c)

abbrev pub get_item_by_index : ℕ → ℕ → Store → Option ℕ
get_item_by_index c i s = get_elem? (s.itemlist c) i

-- `erase(begin() + index)`
unfoldable pub erase_at : ℕ → List ℕ → List ℕ
erase_at i [] = []
erase_at zero (x ∷ xs) = xs
erase_at (suc i) (x ∷ xs) = x ∷ erase_at i xs

unfoldable pub put_at : ℕ → ℕ → List ℕ → List ℕ
put_at i x [] = []
put_at zero x (y ∷ ys) = x ∷ ys
put_at (suc i) x (y ∷ ys) = y ∷ put_at i x ys

-- The item count that is left: the difference wraps as a `uint32_t` and is read as an `int32_t`.
abbrev pub count_left : ℕ → ℕ → ℕ
count_left have amount =
    let d = (have + word - amount % word) % word in if leb 2147483648 d then 0 else d

module _ (k : Kinds) (n : ℕ) (c : ℕ) where
  abbrev pub placed : List ℕ → ℕ → Store → Store
  placed xs x s = set_itemlist c xs (set_parent x (in_container c) s)

  -- An item is put into the list and its weight is added.
  abbrev pub add : List ℕ → ℕ → Store → Option Store
  add xs x s = let t = placed xs x s in update_item_weight n c (get_weight k t x) t

  unfoldable pub internal_add_thing : Thing → Store → Option Store
  internal_add_thing creature s = some s
  internal_add_thing (item x) s = add (x ∷ s.itemlist c) x s

  unfoldable pub add_thing : Index → Thing → Store → Option Store
  add_thing i thing s = if is_beyond (k.capacity c) i then some s else internal_add_thing thing s

  unfoldable pub add_item_back : ℕ → Store → Option Store
  add_item_back x s = add (s.itemlist c ++ x ∷ []) x s

  abbrev pub reweigh : ℕ → Store → Store → Option Store
  reweigh x s t = update_item_weight n c (negative (get_weight k s x) + get_weight k t x) t

  unfoldable pub update_found : Thing → ℕ → ℕ → Store → Option ℕ → Option Store
  update_found (item x) new amount s (some i) =
      reweigh x s (set_sub_type k x (amount % 65536) (set_id x new s))
  update_found _ new amount s _ = some s

  unfoldable pub update_thing : Thing → ℕ → ℕ → Store → Option Store
  update_thing thing new amount s = update_found thing new amount s (get_thing_index c thing s)

  abbrev pub detach : ℕ → Option Store → Option Store
  detach x none = none
  detach x (some s) = some (set_parent x nowhere s)

  unfoldable pub replace_found : ℕ → Thing → Store → Option ℕ → Option Store
  replace_found i (item x) s (some y) =
      let t = placed (put_at i x (s.itemlist c)) x s in
      detach y (update_item_weight n c (negative (get_weight k t y) + get_weight k t x) t)
  replace_found i _ s _ = some s

  unfoldable pub replace_thing : ℕ → Thing → Store → Option Store
  replace_thing i thing s = replace_found i thing s (get_item_by_index c i s)

  abbrev pub take_out : ℕ → ℕ → Option Store → Option Store
  take_out i x none = none
  take_out i x (some s) =
      let t = set_parent x nowhere s in some (set_itemlist c (erase_at i (t.itemlist c)) t)

  unfoldable pub remove_found : Thing → ℕ → Store → Option ℕ → Option Store
  remove_found (item x) amount s (some i) =
      if is_stackable k s x && not (amount == s.count x)
      then reweigh x s (set_item_count x (count_left (s.count x) amount) s)
      else take_out i x (update_item_weight n c (negative (get_weight k s x)) s)
  remove_found _ amount s _ = some s

  unfoldable pub remove_thing : Thing → ℕ → Store → Option Store
  remove_thing thing amount s = remove_found thing amount s (get_thing_index c thing s)
