-- ===== src/Containers/Adding.antt =====
-- `Container::addThing`, `internalAddThing` and `addItemBack` (src/container.cpp).
use infernum_data_pack.Base.{
  ℕ, ◌+◌, ◌%◌, ◌≤◌, ◌≡◌, ◌≢◌, ◌⊎◌, refl, sym, ap, subst, ◌∙◌, Bool, true, false, ◌==◌, List, [],
  ◌∷◌, ◌++◌, if◌then◌else◌, arith, ==_ne, ==_self, ==→eq, Bool-cases, inl, inr,
}
use infernum_data_pack.Containers.{
  Kinds, Store, Thing, item, creature, word, get_weight, item_weight,
}
use infernum_data_pack.Containers.Methods.{
  placed, add, internal_add_thing, add_thing, add_item_back, Index, is_beyond,
}
use infernum_data_pack.Containers.Sums.{sum_of, times, sum_of-append}
use infernum_data_pack.Containers.Nesting.{
  held_in, is_inside, Above, Listed, Rooted, within, Rooted_apart, Rooted_moved, Rooted_up,
  same_container, Listed-of,
}
use infernum_data_pack.Containers.Balance.{load, Typed, held_outside}
use infernum_data_pack.Containers.Intact.{IsIntact, IsFree, Leaves, settled, total_fits, unchanged}

pub same_or_not : (x i : ℕ) → (i ≡ x) ⊎ (i ≢ x)
same_or_not x i = elim (Bool-cases (i == x)) [
  | inl e ↦ inl (==→eq i x e)
  | inr e ↦ inr (λ f. ground (arith, e, f))
]

module _ (k : Kinds) (c x : ℕ) (xs : List ℕ) (s : Store) where
  abbrev filled : Store
  filled = placed k 0 c xs x s

  filled_sum : (ys : List ℕ) → sum_of (get_weight k filled) ys ≡ sum_of (get_weight k s) ys
  unfolding get_weight item_weight
  filled_sum ys = refl

  module _ (n : ℕ) (sound : IsIntact k n s) (holds : k.is_container c ≡ true)
      (free : is_inside (s.parent x) ≡ false) (apart : ¬ Above s.parent x c)
      (sums : (w : ℕ → ℕ) → sum_of w xs ≡ w x + sum_of w (s.itemlist c)) where
    Listed-before : (i : ℕ) → Listed s.parent s.itemlist i
    Listed-before i = Listed-of s.parent s.itemlist n i (sound.rooted i)

    not_listed : (i : ℕ) → (x == i) ≡ true → (j : ℕ) → times i (s.itemlist j) ≡ 0
    not_listed i e j =
        Listed-before i j
        ∙ held_outside (s.parent i) j
            (subst (λ z. is_inside (s.parent z) ≡ false) (==→eq x i e) free)

    filled-Listed : (i : ℕ) → Listed filled.parent filled.itemlist i
    filled-Listed i j =
        let times_now : times i xs ≡ (if x == i then 1 else 0) + times i (s.itemlist c) =
          sums (λ y. if y == i then 1 else 0) in
        elim (Bool-cases (c == j)) [
          | inl e ↦ elim (Bool-cases (x == i)) [
            | inl f ↦ simp (e, f) (now (x == i) _ _ f (not_listed i f c) times_now)
            | inr f ↦
                simp (e, f)
                  (as_before (x == i) _ _ _ f
                    (Listed-before i c ∙ ap (held_in (s.parent i)) (==→eq c j e)) times_now)
          ]
          | inr e ↦ elim (Bool-cases (x == i)) [
            | inl f ↦ simp (e, f) (not_listed i f j)
            | inr f ↦ simp (e, f) (Listed-before i j)
          ]
        ]
      where
        now : (b : Bool) (t u : ℕ) → b ≡ true → u ≡ 0 → t ≡ (if b then 1 else 0) + u → t ≡ 1
        now b t u f g e = ground (arith, f, g, e)

        as_before :
            (b : Bool) (t u h : ℕ) → b ≡ false → u ≡ h → t ≡ (if b then 1 else 0) + u → t ≡ h
        as_before b t u h f g e = ground (arith, f, g, e)

    filled_rooted_c : Rooted filled.parent filled.itemlist n c
    filled_rooted_c =
        Rooted_apart s.parent filled.parent s.itemlist filled.itemlist (λ i. i ≡ x)
          (λ i h. simp (==_ne x i (λ e. h (sym e))) refl) (λ i h. filled-Listed i) n c
          (sound.rooted c) (λ y e a. apart (subst (λ z. Above s.parent z c) e a))

    filled_rooted : (i : ℕ) → Rooted filled.parent filled.itemlist (n + n) i
    filled_rooted i =
        Rooted_moved s.parent filled.parent s.itemlist filled.itemlist (λ i. i ≡ x)
          (λ i h. simp (==_ne x i (λ e. h (sym e))) refl) (λ i h. filled-Listed i) n (same_or_not x)
          (λ y e l h.
            within l y c (filled-Listed y) (simp (ap (◌==◌ x) e ∙ ==_self x) refl)
              (Rooted_up filled.parent filled.itemlist n c l filled_rooted_c h))
          n i (n + n) (sound.rooted i) (omega arith)

    filled-Typed : Typed k filled.parent
    filled-Typed i p e = elim (Bool-cases (x == i)) [
      | inl f ↦ subst (λ q. k.is_container q ≡ true) (same_container c p (simp f at e)) holds
      | inr f ↦ sound.typed i p (simp f at e)
    ]

    filled_balanced :
        (j : ℕ)
        → (filled.total_weight j + (if c == j then get_weight k filled x else 0)) % word
          ≡ load k filled j % word
    filled_balanced j = elim (Bool-cases (c == j)) [
      | inl e ↦ simp e (
          omega (
            arith,
            sound.weighs j,
            sums (get_weight k filled),
            filled_sum (s.itemlist j),
            ap (λ q. sum_of (get_weight k filled) (s.itemlist q)) (==→eq c j e),
          ))
      | inr e ↦ simp e (omega (arith, sound.weighs j, filled_sum (s.itemlist j)))
    ]

    pub add-Leaves : (m : ℕ) → n ≤ m → Leaves k (n + n) (add k m c xs x s)
    add-Leaves m h =
        settled k (n + n) m c (get_weight k filled x) filled holds
          (Rooted_up filled.parent filled.itemlist n c m filled_rooted_c h) filled_rooted
          filled-Typed (total_fits k n s sound) filled_balanced

module _ (k : Kinds) (n m c : ℕ) (s : Store) (sound : IsIntact k n s)
    (holds : k.is_container c ≡ true) (enough : n ≤ m) where
  sum_of_front : (x : ℕ) (xs : List ℕ) (w : ℕ → ℕ) → sum_of w (x ∷ xs) ≡ w x + sum_of w xs
  unfolding sum_of
  sum_of_front x xs w = refl

  pub internal_add_thing-Leaves :
      (thing : Thing)
      → IsFree s.parent c thing
      → Leaves k (n + n) (internal_add_thing k m c thing s)
  unfolding IsFree internal_add_thing
  internal_add_thing-Leaves (item x) f =
      add-Leaves k c x (x ∷ s.itemlist c) s n sound holds f.0 f.1 (sum_of_front x (s.itemlist c)) m
        enough
  internal_add_thing-Leaves creature f = unchanged k n s sound

  pub add_thing-Leaves :
      (i : Index) (thing : Thing)
      → IsFree s.parent c thing
      → Leaves k (n + n) (add_thing k m c i thing s)
  unfolding add_thing
  add_thing-Leaves i thing f = elim (Bool-cases (is_beyond (k.capacity c) i)) [
    | inl e ↦ simp e (unchanged k n s sound)
    | inr e ↦ simp e (internal_add_thing-Leaves thing f)
  ]

  pub add_item_back-Leaves :
      (x : ℕ) → IsFree s.parent c (item x) → Leaves k (n + n) (add_item_back k m c x s)
  unfolding IsFree add_item_back
  add_item_back-Leaves x f =
      add-Leaves k c x (s.itemlist c ++ x ∷ []) s n sound holds f.0 f.1
        (λ w. sum_of-append w (s.itemlist c) x) m enough
