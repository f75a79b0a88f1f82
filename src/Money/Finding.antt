-- ===== src/Money/Finding.antt =====
-- What `removeMoney` finds and returns (src/game.cpp).
use infernum_data_pack.Base.{
  ℕ, ◌+◌, ◌%◌, ◌≤◌, ◌≡◌, refl, List, [], ◌∷◌, All, Option, none, some, ◌==◌, ltb, if◌then◌else◌,
  arith, Bool-cases, inl, inr,
}
use infernum_data_pack.Containers.{Kinds, Store, Thing, item, creature}
use infernum_data_pack.Containers.Sums.{sum_of, sum_of-append}
use infernum_data_pack.Money.{
  get_worth, long_word, Search, emplace, find_item, find_items, find_things,
}
use infernum_data_pack.Money.Once.{is_item, entries_of}
use infernum_data_pack.Money.Paying.{IsEntry, sum_of_entries}

-- The items among the things.
unfoldable pub items_of : List (Option Thing) → List ℕ
items_of [] = []
items_of (some (item x) ∷ things) = x ∷ items_of things
items_of (some creature ∷ things) = items_of things
items_of (none ∷ things) = items_of things

module _ (k : Kinds) (s : Store) where
  -- What an item is worth by itself, and whether it is a container.
  abbrev pub own_worth : ℕ → ℕ
  own_worth x = if k.is_container x then 0 else get_worth s x

  abbrev pub one_container : ℕ → ℕ
  one_container x = if k.is_container x then 1 else 0

  -- Whether the item is found, as the item `y`.
  abbrev pub own_entry : ℕ → ℕ → ℕ
  own_entry y x = if k.is_container x then 0 else if get_worth s x == 0 then 0 else is_item y x

  pub own_entry-is_item : (y x : ℕ) → own_entry y x ≤ is_item y x
  own_entry-is_item y x = ground arith

  pub things_items :
      (things : List (Option Thing)) (a : Search)
      → find_things k s things a ≡ find_items k s (items_of things) a
  unfolding find_things find_items items_of
  things_items [] a = refl
  things_items (some (item x) ∷ things) a = things_items things (find_item k s x a)
  things_items (some creature ∷ things) a = things_items things a
  things_items (none ∷ things) a = things_items things a

  -- What was found is what `moneyCount` says.
  pub record IsFound (a : Search) : Type 0 where
    pub entries : All (IsEntry s) a.money_map
    pub counted : a.money_count ≡ sum_of_entries s k a.money_map % long_word

  emplace_sum :
      (e : ℕ × ℕ) (es : List (ℕ × ℕ))
      → sum_of_entries s k (emplace e es) ≡ e.0 + sum_of_entries s k es
  unfolding sum_of_entries emplace
  emplace_sum e [] = refl
  emplace_sum e (f ∷ es) = elim (Bool-cases (ltb e.0 f.0)) [
    | inl h ↦ simp h refl
    | inr h ↦ simp h (omega (arith, emplace_sum e es))
  ]

  emplace_entries :
      (e : ℕ × ℕ) (es : List (ℕ × ℕ))
      → IsEntry s e
      → All (IsEntry s) es
      → All (IsEntry s) (emplace e es)
  unfolding emplace
  emplace_entries e [] h a = (h, tt)
  emplace_entries e (f ∷ es) h a = elim (Bool-cases (ltb e.0 f.0)) [
    | inl g ↦ simp g (h, a)
    | inr g ↦ simp g (a.0, emplace_entries e es h a.1)
  ]

  find_item-IsFound : (x : ℕ) (a : Search) → IsFound a → IsFound (find_item k s x a)
  unfolding find_item IsEntry
  find_item-IsFound x a h = elim (Bool-cases (k.is_container x)) [
    | inl e ↦ simp e (record { entries = h.entries; counted = h.counted })
    | inr e ↦ elim (Bool-cases (get_worth s x == 0)) [
      | inl f ↦ simp (e, f) h
      | inr f ↦
          simp (e, f)
            (record {
              entries =
                  emplace_entries (get_worth s x, x) a.money_map (refl, ground (arith, f))
                    h.entries;
              counted = omega (arith, h.counted, emplace_sum (get_worth s x, x) a.money_map);
            })
    ]
  ]

  find_item_sum :
      (x : ℕ) (a : Search)
      → sum_of_entries s k (find_item k s x a).money_map
        ≡ sum_of_entries s k a.money_map + own_worth x
  unfolding find_item
  find_item_sum x a = elim (Bool-cases (k.is_container x)) [
    | inl e ↦ simp e (omega arith)
    | inr e ↦ elim (Bool-cases (get_worth s x == 0)) [
      | inl f ↦ simp (e, f) (ground (arith, f))
      | inr f ↦ simp (e, f) (omega (arith, emplace_sum (get_worth s x, x) a.money_map))
    ]
  ]

  entries_of-emplace :
      (y : ℕ) (e : ℕ × ℕ) (es : List (ℕ × ℕ))
      → entries_of y (emplace e es) ≡ is_item y e.1 + entries_of y es
  unfolding entries_of emplace
  entries_of-emplace y e [] = refl
  entries_of-emplace y e (f ∷ es) = elim (Bool-cases (ltb e.0 f.0)) [
    | inl h ↦ simp h refl
    | inr h ↦ simp h (omega (arith, entries_of-emplace y e es))
  ]

  entries_of-find_item :
      (y x : ℕ) (a : Search)
      → entries_of y (find_item k s x a).money_map ≡ entries_of y a.money_map + own_entry y x
  unfolding find_item
  entries_of-find_item y x a = elim (Bool-cases (k.is_container x)) [
    | inl e ↦ simp e (omega arith)
    | inr e ↦ elim (Bool-cases (get_worth s x == 0)) [
      | inl f ↦ simp (e, f) (omega arith)
      | inr f ↦ simp (e, f) (omega (arith, entries_of-emplace y (get_worth s x, x) a.money_map))
    ]
  ]

  pub entries_of-find_items :
      (y : ℕ) (xs : List ℕ) (a : Search)
      → entries_of y (find_items k s xs a).money_map
        ≡ entries_of y a.money_map + sum_of (own_entry y) xs
  unfolding find_items sum_of
  entries_of-find_items y [] a = omega arith
  entries_of-find_items y (x ∷ xs) a =
      omega (arith, entries_of-find_items y xs (find_item k s x a), entries_of-find_item y x a)

  find_item_containers :
      (h : ℕ → ℕ) (x : ℕ) (a : Search)
      → sum_of h (find_item k s x a).containers
        ≡ sum_of h a.containers + (if k.is_container x then h x else 0)
  unfolding find_item
  find_item_containers h x a = elim (Bool-cases (k.is_container x)) [
    | inl e ↦ simp e (omega (arith, sum_of-append h a.containers x))
    | inr e ↦ elim (Bool-cases (get_worth s x == 0)) [
      | inl f ↦ simp (e, f) (omega arith)
      | inr f ↦ simp (e, f) (omega arith)
    ]
  ]

  pub find_items-IsFound : (xs : List ℕ) (a : Search) → IsFound a → IsFound (find_items k s xs a)
  unfolding find_items
  find_items-IsFound [] a h = h
  find_items-IsFound (x ∷ xs) a h = find_items-IsFound xs _ (find_item-IsFound x a h)

  pub find_items_sum :
      (xs : List ℕ) (a : Search)
      → sum_of_entries s k (find_items k s xs a).money_map
        ≡ sum_of_entries s k a.money_map + sum_of own_worth xs
  unfolding find_items sum_of
  find_items_sum [] a = omega arith
  find_items_sum (x ∷ xs) a =
      omega (arith, find_items_sum xs (find_item k s x a), find_item_sum x a)

  pub find_items_containers :
      (h : ℕ → ℕ) (xs : List ℕ) (a : Search)
      → sum_of h (find_items k s xs a).containers
        ≡ sum_of h a.containers + sum_of (λ x. if k.is_container x then h x else 0) xs
  unfolding find_items sum_of
  find_items_containers h [] a = omega arith
  find_items_containers h (x ∷ xs) a =
      omega (arith, find_items_containers h xs (find_item k s x a), find_item_containers h x a)
