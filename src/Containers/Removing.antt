-- ===== src/Containers/Removing.antt =====
-- `Container::updateThing` and `removeThing` (src/container.cpp).
use infernum_data_pack.Base.{
  ℕ, ◌+◌, ◌%◌, ◌≤◌, ◌≡◌, refl, sym, ap, subst, ◌∙◌, true, not, ◌==◌, ◌&&◌, List, some,
  if◌then◌else◌, arith, ==_ne, ==_self, ==→eq, Bool-cases, Option-cases, inl, inr,
}
use infernum_data_pack.Containers.{
  nowhere, Kinds, Store, Thing, item, creature, word, negative, write, is_stackable, get_weight,
  item_weight,
}
use infernum_data_pack.Containers.Methods.{
  update_item_weight, index_of, get_thing_index, update_found, update_thing, count_left,
  remove_found, remove_thing, take_out, erase_at,
}
use infernum_data_pack.Containers.Sums.{sum_of, times, sum_of-erase_at}
use infernum_data_pack.Containers.Nesting.{
  held_in, is_inside, Listed, Rooted, outside, Rooted_moved, not_inside_own,
}
use infernum_data_pack.Containers.Balance.{load, Typed, Reweighed, update_item_weight-Reweighed}
use infernum_data_pack.Containers.Intact.{IsIntact, Leaves, total_fits, unchanged}
use infernum_data_pack.Containers.Adding.{same_or_not}
use infernum_data_pack.Containers.Changing.{
  Listed-before, rooted_c, parent_found, set_item_count-Leaves, set_sub_type-Leaves,
}

module _ (k : Kinds) (n m c : ℕ) (s : Store) (sound : IsIntact k n s) (enough : n ≤ m) where
  module _ (x i : ℕ) (found : index_of x (s.itemlist c) ≡ some i) where
    module _ (weights : ℕ → ℕ) where
      abbrev released : Store
      released = record s {
        total_weight = weights;
        parent = write s.parent x nowhere;
        itemlist = write s.itemlist c (erase_at i (s.itemlist c));
      }

      held_once : (q : ℕ) → times x (s.itemlist q) ≡ (if c == q then 1 else 0)
      held_once q =
          Listed-before k n m c s sound enough x q
          ∙ ap (λ p. held_in p q) (parent_found k n m c s sound enough x i found)

      held_also :
          (j : ℕ) → (x == j) ≡ true → (q : ℕ) → times j (s.itemlist q) ≡ (if c == q then 1 else 0)
      held_also j f q =
          subst (λ z. times z (s.itemlist q) ≡ (if c == q then 1 else 0)) (==→eq x j f)
            (held_once q)

      released-Listed : (j : ℕ) → Listed released.parent released.itemlist j
      released-Listed j q =
          let erased = sum_of-erase_at (λ y. if y == j then 1 else 0) i x (s.itemlist c) found in
          let old = Listed-before k n m c s sound enough j in
          elim (Bool-cases (c == q)) [
            | inl e ↦ elim (Bool-cases (x == j)) [
              | inl f ↦
                  simp (e, f)
                    (omega (arith, simp f at erased, simp (==_self c) at (held_also j f c)))
              | inr f ↦
                  simp (e, f)
                    (omega
                      (arith, simp f at erased, old c, ap (held_in (s.parent j)) (==→eq c q e)))
            ]
            | inr e ↦ elim (Bool-cases (x == j)) [
              | inl f ↦ simp (e, f) (simp e at (held_also j f q))
              | inr f ↦ simp (e, f) (old q)
            ]
          ]

      released_rooted : (j : ℕ) → Rooted released.parent released.itemlist (n + n) j
      released_rooted j =
          Rooted_moved s.parent released.parent s.itemlist released.itemlist (λ y. y ≡ x)
            (λ y h. simp (==_ne x y (λ e. h (sym e))) refl) (λ y h. released-Listed y) n
            (same_or_not x)
            (λ y e l h. outside l y (released-Listed y) (simp (ap (◌==◌ x) e ∙ ==_self x) refl)) n j
            (n + n) (sound.rooted j) (omega arith)

      released-Typed : Typed k released.parent
      released-Typed y p e = elim (Bool-cases (x == y)) [
        | inl f ↦ absurd (ground (arith, (ap is_inside (simp f at e))))
        | inr f ↦ sound.typed y p (simp f at e)
      ]

      released_sum :
          (ys : List ℕ)
          → sum_of (get_weight k released) ys
            ≡ sum_of (get_weight k (record s { total_weight = weights })) ys
      unfolding get_weight item_weight
      released_sum ys = refl

    abbrev gone : ℕ
    gone = negative (get_weight k s x)

    lighter : Reweighed k m c gone s (λ j. 0) (λ j. 0)
    lighter =
        update_item_weight-Reweighed k m c gone s _ _ (rooted_c k n m c s sound enough)
          (sound.typed x c (parent_found k n m c s sound enough x i found)) sound.typed
          (λ j. omega (arith, sound.weighs j))

    released_same : get_weight k (released lighter.weights) x ≡ get_weight k s x
    unfolding get_weight item_weight
    released_same =
        let own = parent_found k n m c s sound enough x i found in
        rw (lighter.elsewhere x (not_inside_own s.parent s.itemlist n c x (sound.rooted c) own))
          refl

    released_weighs : (j : ℕ) → lighter.weights j ≡ load k (released lighter.weights) j % word
    released_weighs j =
        let fits = lighter.fits (total_fits k n s sound) j in
        elim (Bool-cases (c == j)) [
          | inl e ↦ simp e (
              omega (
                arith,
                fits,
                simp e at (lighter.balanced j),
                released_same,
                released_sum lighter.weights (s.itemlist j),
                sum_of-erase_at (get_weight k (released lighter.weights)) i x (s.itemlist c) found,
                ap (λ q. sum_of (get_weight k (released lighter.weights)) (s.itemlist q))
                    (==→eq c j e),
              ))
          | inr e ↦ simp e (
              omega (
                arith,
                fits,
                simp e at (lighter.balanced j),
                released_sum lighter.weights (s.itemlist j),
              ))
        ]

    pub take_out-Leaves : Leaves k (n + n) (take_out k m c i x (update_item_weight m c gone s))
    take_out-Leaves = record {
      store = released lighter.weights;
      returned = ap (take_out k m c i x) lighter.runs;
      intact = record {
        rooted = released_rooted lighter.weights;
        typed = released-Typed lighter.weights;
        weighs = released_weighs;
      };
    }

  removed_if :
      (x i amount : ℕ)
      → index_of x (s.itemlist c) ≡ some i
      → Leaves k (n + n) (remove_found k m c (item x) amount s (some i))
  unfolding remove_found
  removed_if x i amount f = elim (Bool-cases (is_stackable k s x && not (amount == s.count x))) [
    | inl e ↦
        simp e (set_item_count-Leaves k n m c s sound enough x i f (count_left (s.count x) amount))
    | inr e ↦ simp e (take_out-Leaves x i f)
  ]

  -- On enough fuel `removeThing` returns, whatever the thing and the count, and the store that it leaves
  -- is intact.
  pub remove_thing-Leaves :
      (thing : Thing) (amount : ℕ) → Leaves k (n + n) (remove_thing k m c thing amount s)
  unfolding remove_thing remove_found get_thing_index
  remove_thing-Leaves creature amount = unchanged k n s sound
  remove_thing-Leaves (item x) amount = elim (Option-cases (index_of x (s.itemlist c))) [
    | inl e ↦ rw e (unchanged k n s sound)
    | inr (i, e) ↦ rw e (removed_if x i amount e)
  ]

  pub update_thing-Leaves :
      (thing : Thing) (new amount : ℕ) → Leaves k (n + n) (update_thing k m c thing new amount s)
  unfolding update_thing update_found get_thing_index
  update_thing-Leaves creature new amount = unchanged k n s sound
  update_thing-Leaves (item x) new amount = elim (Option-cases (index_of x (s.itemlist c))) [
    | inl e ↦ rw e (unchanged k n s sound)
    | inr (i, e) ↦ rw e (set_sub_type-Leaves k n m c s sound enough x i e new (amount % 65536))
  ]
