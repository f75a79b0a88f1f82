-- ===== src/Containers/Replacing.antt =====
-- `Container::replaceThing` (src/container.cpp).
use mathlib.Core.Bool.{true≢false}
use infernum_data_pack.Base.{
  ℕ, zero, suc, ◌+◌, ◌%◌, ◌<◌, ◌≤◌, ◌≡◌, ◌≢◌, ◌⊎◌, refl, sym, ap, subst, ◌∙◌, true, false, ◌==◌,
  List, [], ◌∷◌, some, if◌then◌else◌, arith, ==_ne, ==_self, ==→eq, Bool-cases, Option-cases, inl,
  inr, get_elem?, none_ne_some, some_injective,
}
use infernum_data_pack.Containers.{
  Parent, nowhere, in_container, Kinds, Store, Thing, item, creature, word, negative, set_parent,
  get_weight, item_weight,
}
use infernum_data_pack.Containers.Methods.{
  update_item_weight, placed, put_at, detach, replace_found, replace_thing,
}
use infernum_data_pack.Containers.Sums.{sum_of, times, sum_of-put_at}
use infernum_data_pack.Containers.Nesting.{
  held_in, is_inside, Above, Listed, Rooted, outside, within, Rooted_apart, Rooted_moved, Rooted_up,
  same_container, Listed-of, not_inside_own,
}
use infernum_data_pack.Containers.Balance.{
  load, Typed, held_outside, Reweighed, update_item_weight-Reweighed,
}
use infernum_data_pack.Containers.Intact.{IsIntact, IsFree, Leaves, total_fits, unchanged}
use infernum_data_pack.Containers.Adding.{same_or_not}
use infernum_data_pack.Containers.Changing.{held_by}

stands_in : (x i : ℕ) (xs : List ℕ) → get_elem? xs i ≡ some x → 0 < times x xs
unfolding sum_of
stands_in x i [] e = absurd (none_ne_some e)
stands_in x zero (y ∷ xs) e = simp (ap (λ z. z == x) (some_injective e) ∙ ==_self x) (omega arith)
stands_in x (suc i) (y ∷ xs) e = omega (arith, stands_in x i xs e)

-- Item `x` takes the place of item `y` in the list of `c`.
module _ (k : Kinds) (n m c : ℕ) (s : Store) (sound : IsIntact k n s) (enough : n ≤ m) (x y i : ℕ)
    (holds : k.is_container c ≡ true) (found : get_elem? (s.itemlist c) i ≡ some y)
    (free : is_inside (s.parent x) ≡ false) (apart : ¬ Above s.parent x c) where
  Listed-before : (j : ℕ) → Listed s.parent s.itemlist j
  Listed-before j = Listed-of s.parent s.itemlist n j (sound.rooted j)

  parent_found : s.parent y ≡ in_container c
  parent_found =
      held_by (s.parent y) c (omega (arith, Listed-before y c, stands_in y i (s.itemlist c) found))

  differ : x ≢ y
  differ e = ground (arith, free, ap (λ z. is_inside (s.parent z)) e, ap is_inside parent_found)

  abbrev swapped : Store
  swapped = placed k m c (put_at i x (s.itemlist c)) x s

  abbrev swap : ℕ
  swap = negative (get_weight k swapped y) + get_weight k swapped x

  abbrev left : (ℕ → ℕ) → Store
  left weights = set_parent y nowhere (record swapped { total_weight = weights })

  swapped_times :
      (j : ℕ)
      → times j (put_at i x (s.itemlist c)) + (if y == j then 1 else 0)
        ≡ times j (s.itemlist c) + (if x == j then 1 else 0)
  swapped_times j = sum_of-put_at (λ z. if z == j then 1 else 0) i x y (s.itemlist c) found

  unlisted : (q : ℕ) → times x (s.itemlist q) ≡ 0
  unlisted q = Listed-before x q ∙ held_outside (s.parent x) q free

  held_once : (q : ℕ) → times y (s.itemlist q) ≡ (if c == q then 1 else 0)
  held_once q = Listed-before y q ∙ ap (λ p. held_in p q) parent_found

  moved_to : (w : ℕ → ℕ) (j : ℕ) → j ≢ x → j ≢ y → (left w).parent j ≡ s.parent j
  moved_to w j f g = simp (==_ne y j (λ e. g (sym e)), ==_ne x j (λ e. f (sym e))) refl

  Listed-other : (j : ℕ) → j ≢ x → j ≢ y → Listed s.parent swapped.itemlist j
  Listed-other j f g q = elim (Bool-cases (c == q)) [
    | inl e ↦ simp e (
        omega (
          arith,
          simp (==_ne y j (λ e. g (sym e)), ==_ne x j (λ e. f (sym e))) at (swapped_times j),
          Listed-before j c,
          ap (held_in (s.parent j)) (==→eq c q e),
        ))
    | inr e ↦ simp e (Listed-before j q)
  ]

  listed_x : (q : ℕ) → times x (swapped.itemlist q) ≡ (if c == q then 1 else 0)
  listed_x q = elim (Bool-cases (c == q)) [
    | inl e ↦ simp e (
        omega (
          arith,
          simp (==_self x, ==_ne y x (λ e. differ (sym e))) at (swapped_times x),
          unlisted c,
        ))
    | inr e ↦ simp e (unlisted q)
  ]

  listed_y : (q : ℕ) → times y (swapped.itemlist q) ≡ 0
  listed_y q = elim (Bool-cases (c == q)) [
    | inl e ↦ simp e (
        omega (
          arith,
          simp (==_self y, ==_ne x y differ) at (swapped_times y),
          simp (==_self c) at (held_once c),
        ))
    | inr e ↦ simp e (simp e at (held_once q))
  ]

  abbrev Moved : ℕ → Type 0
  Moved j = (j ≡ x) ⊎ (j ≡ y)

  moved? : (j : ℕ) → Moved j ⊎ ¬ Moved j
  moved? j = elim (same_or_not x j) [
    | inl e ↦ inl (inl e)
    | inr e ↦ elim (same_or_not y j) [
      | inl f ↦ inl (inr f)
      | inr f ↦ inr (λ q. elim q [ inl u ↦ e u | inr u ↦ f u ])
    ]
  ]

  not_above : (j : ℕ) → Moved j → ¬ Above s.parent j c
  not_above j (inl e) a = apart (subst (λ z. Above s.parent z c) e a)
  not_above j (inr e) a =
      not_inside_own s.parent s.itemlist n c y (sound.rooted c) parent_found
        (subst (λ z. Above s.parent z c) e a)

  swapped_kept : (j : ℕ) → ¬ Moved j → swapped.parent j ≡ s.parent j
  swapped_kept j q = simp (==_ne x j (λ e. q (inl (sym e)))) refl

  left_kept : (w : ℕ → ℕ) (j : ℕ) → ¬ Moved j → (left w).parent j ≡ s.parent j
  left_kept w j q = moved_to w j (λ e. q (inl e)) (λ e. q (inr e))

  kept-Listed :
      (parents : ℕ → Parent)
      → ((j : ℕ) → ¬ Moved j → parents j ≡ s.parent j)
      → (j : ℕ) → ¬ Moved j
      → Listed parents swapped.itemlist j
  kept-Listed parents same j q r =
      Listed-other j (λ e. q (inl e)) (λ e. q (inr e)) r ∙ ap (λ p. held_in p r) (sym (same j q))

  kept_rooted :
      (parents : ℕ → Parent)
      → ((j : ℕ) → ¬ Moved j → parents j ≡ s.parent j)
      → Rooted parents swapped.itemlist n c
  kept_rooted parents same =
      Rooted_apart s.parent parents s.itemlist swapped.itemlist Moved same
        (kept-Listed parents same) n c (sound.rooted c) not_above

  module _ (w : ℕ → ℕ) where
    left_at_x : (left w).parent x ≡ in_container c
    left_at_x = simp (==_ne y x (λ e. differ (sym e)), ==_self x) refl

    left_at_y : (left w).parent y ≡ nowhere
    left_at_y = simp (==_self y) refl

    left_moved :
        (j : ℕ) → Moved j → (l : ℕ) → n ≤ l → Rooted (left w).parent swapped.itemlist (suc l) j
    left_moved j (inl e) l h = subst (Rooted (left w).parent swapped.itemlist (suc l)) (sym e) (
        within l x c (λ q. listed_x q ∙ sym (ap (λ p. held_in p q) left_at_x)) left_at_x
          (Rooted_up (left w).parent swapped.itemlist n c l
            (kept_rooted (left w).parent (left_kept w)) h))
    left_moved j (inr e) l h = subst (Rooted (left w).parent swapped.itemlist (suc l)) (sym e) (
        outside l y (λ q. listed_y q ∙ sym (ap (λ p. held_in p q) left_at_y))
          (ap is_inside left_at_y))

    left_rooted : (j : ℕ) → Rooted (left w).parent (left w).itemlist (n + n) j
    left_rooted j =
        Rooted_moved s.parent (left w).parent s.itemlist swapped.itemlist Moved (left_kept w)
          (kept-Listed (left w).parent (left_kept w)) n moved? left_moved n j (n + n)
          (sound.rooted j) (omega arith)

    left_sum :
        (ys : List ℕ)
        → sum_of (get_weight k (left w)) ys
          ≡ sum_of (get_weight k (record swapped { total_weight = w })) ys
    unfolding get_weight item_weight
    left_sum ys = refl

    left-Typed : Typed k (left w).parent
    left-Typed j p e = elim (moved? j) [
      | inl (inl f) ↦
          subst (λ q. k.is_container q ≡ true)
            (same_container c p (sym left_at_x ∙ ap (left w).parent (sym f) ∙ e)) holds
      | inl (inr f) ↦ absurd (
          true≢false (
            sym (ap is_inside e)
            ∙ ap (λ z. is_inside ((left w).parent z)) f
            ∙ ap is_inside left_at_y))
      | inr q ↦ sound.typed j p (sym (left_kept w j q) ∙ e)
    ]

  swapped-Typed : Typed k swapped.parent
  swapped-Typed j p e = elim (Bool-cases (x == j)) [
    | inl f ↦ subst (λ q. k.is_container q ≡ true) (same_container c p (simp f at e)) holds
    | inr f ↦ sound.typed j p (simp f at e)
  ]

  swapped_sum : (ys : List ℕ) → sum_of (get_weight k swapped) ys ≡ sum_of (get_weight k s) ys
  unfolding get_weight item_weight
  swapped_sum ys = refl

  swapped_balanced :
      (j : ℕ)
      → (swapped.total_weight j + (if c == j then swap else 0)) % word
        ≡ (load k swapped j + 0) % word
  swapped_balanced j = elim (Bool-cases (c == j)) [
    | inl e ↦ simp e (
        omega (
          arith,
          sound.weighs j,
          swapped_sum (s.itemlist j),
          sum_of-put_at (get_weight k swapped) i x y (s.itemlist c) found,
          ap (λ q. sum_of (get_weight k swapped) (s.itemlist q)) (==→eq c j e),
        ))
    | inr e ↦ simp e (omega (arith, sound.weighs j, swapped_sum (s.itemlist j)))
  ]

  heavier : Reweighed k m c swap swapped (λ j. if c == j then swap else 0) (λ j. 0)
  heavier =
      update_item_weight-Reweighed k m c swap swapped _ _
        (Rooted_up swapped.parent swapped.itemlist n c m (kept_rooted swapped.parent swapped_kept)
          enough)
        holds swapped-Typed swapped_balanced

  pub detach-Leaves : Leaves k (n + n) (detach k m c y (update_item_weight m c swap swapped))
  detach-Leaves = record {
    store = left heavier.weights;
    returned = ap (detach k m c y) heavier.runs;
    intact = record {
      rooted = left_rooted heavier.weights;
      typed = left-Typed heavier.weights;
      weighs = λ j. omega (
        arith,
        heavier.balanced j,
        heavier.fits (total_fits k n s sound) j,
        left_sum heavier.weights (swapped.itemlist j),
      );
    };
  }

module _ (k : Kinds) (n m c : ℕ) (s : Store) (sound : IsIntact k n s)
    (holds : k.is_container c ≡ true) (enough : n ≤ m) where
  pub replace_thing-Leaves :
      (i : ℕ) (thing : Thing)
      → IsFree s.parent c thing
      → Leaves k (n + n) (replace_thing k m c i thing s)
  unfolding IsFree replace_thing replace_found
  replace_thing-Leaves i creature f = unchanged k n s sound
  replace_thing-Leaves i (item x) f = elim (Option-cases (get_elem? (s.itemlist c) i)) [
    | inl e ↦ rw e (unchanged k n s sound)
    | inr (y, e) ↦ rw e (detach-Leaves k n m c s sound enough x y i holds e f.0 f.1)
  ]
