-- ===== src/Containers/Changing.antt =====
-- A change of what an item weighs by itself, as `Container::updateThing` and `removeThing` make it
-- (src/container.cpp).
use infernum_data_pack.Base.{
  ℕ, ◌+◌, ◌%◌, ◌<◌, ◌≤◌, ◌≡◌, ◌≢◌, refl, sym, ap, ◌∙◌, ◌==◌, some, if◌then◌else◌, arith, ==_ne,
  ==_self, ==→eq, Bool-cases, inl, inr,
}
use infernum_data_pack.Containers.{
  Parent, nowhere, in_container, on_tile, carried_by, Kinds, Store, word, negative, write,
  set_item_count, set_sub_type, set_id, get_weight, item_weight,
}
use infernum_data_pack.Containers.Methods.{reweigh, index_of}
use infernum_data_pack.Containers.Sums.{sum_of, times, sum_of_same, sum_of_changed, sum_of-erase_at}
use infernum_data_pack.Containers.Nesting.{held_in, Listed, Rooted, Rooted_up, Listed-of}
use infernum_data_pack.Containers.Intact.{IsIntact, Leaves, settled, total_fits}

pub held_by : (q : Parent) (c : ℕ) → 0 < held_in q c → q ≡ in_container c
held_by nowhere c h = absurd (omega arith)
held_by (in_container p) c h = elim (Bool-cases (p == c)) [
  | inl e ↦ ap in_container (==→eq p c e)
  | inr e ↦ absurd (ground (arith, h, e))
]
held_by on_tile c h = absurd (omega arith)
held_by (carried_by p) c h = absurd (omega arith)

module _ (k : Kinds) (n m c : ℕ) (s : Store) (sound : IsIntact k n s) (enough : n ≤ m) where
  pub Listed-before : (i : ℕ) → Listed s.parent s.itemlist i
  Listed-before i = Listed-of s.parent s.itemlist n i (sound.rooted i)

  pub rooted_c : Rooted s.parent s.itemlist m c
  rooted_c = Rooted_up s.parent s.itemlist n c m (sound.rooted c) enough

  module _ (x i : ℕ) (found : index_of x (s.itemlist c) ≡ some i) where
    pub parent_found : s.parent x ≡ in_container c
    parent_found = held_by (s.parent x) c (
        omega (
          arith,
          Listed-before x c,
          sum_of-erase_at (λ y. if y == x then 1 else 0) i x (s.itemlist c) found,
          once,
        ))
      where
        once : ◌≡◌ {A = ℕ} (if x == x then 1 else 0) 1
        once = simp (==_self x) refl

    -- The item gets another ID, count, fluid or number of charges.
    module _ (ids counts fluids uses : ℕ → ℕ) (same_id : (j : ℕ) → j ≢ x → ids j ≡ s.id j)
        (same_count : (j : ℕ) → j ≢ x → counts j ≡ s.count j) where
      abbrev revalued : Store
      revalued = record s { id = ids; count = counts; fluid_type = fluids; charges = uses }

      revalued_other : (j : ℕ) → j ≢ x → get_weight k revalued j ≡ get_weight k s j
      unfolding get_weight item_weight
      revalued_other j h = simp (same_id j h, same_count j h) refl

      abbrev change : ℕ
      change = negative (get_weight k s x) + get_weight k revalued x

      held_once : (j : ℕ) → times x (s.itemlist j) ≡ (if c == j then 1 else 0)
      held_once j = Listed-before x j ∙ ap (λ q. held_in q j) parent_found

      revalued_balanced :
          (j : ℕ)
          → (s.total_weight j + (if c == j then change else 0)) % word
            ≡ sum_of (get_weight k revalued) (s.itemlist j) % word
      revalued_balanced j = elim (Bool-cases (c == j)) [
        | inl e ↦ simp e (
            omega (
              arith,
              sound.weighs j,
              sum_of_changed (get_weight k revalued) (get_weight k s) x change revalued_other
                  (omega arith) (s.itemlist j) (simp e at (held_once j)),
            ))
        | inr e ↦ simp e (
            omega (
              arith,
              sound.weighs j,
              sum_of_same (get_weight k revalued) (get_weight k s) x change revalued_other
                  (s.itemlist j) (simp e at (held_once j)),
            ))
      ]

      pub reweigh-Leaves : Leaves k (n + n) (reweigh k m c x s revalued)
      reweigh-Leaves =
          settled k (n + n) m c change revalued (sound.typed x c parent_found) rooted_c
            (λ j. Rooted_up s.parent s.itemlist n j (n + n) (sound.rooted j) (omega arith))
            sound.typed (total_fits k n s sound) revalued_balanced

    write_other : {A : Type 0} (f : ℕ → A) (v : A) (j : ℕ) → j ≢ x → write f x v j ≡ f j
    write_other f v j h = simp (==_ne x j (λ e. h (sym e))) refl

    pub set_item_count-Leaves :
        (new : ℕ) → Leaves k (n + n) (reweigh k m c x s (set_item_count x new s))
    set_item_count-Leaves new =
        reweigh-Leaves s.id _ s.fluid_type s.charges (λ j h. refl) (write_other s.count (new % 256))

    pub set_sub_type-Leaves :
        (new amount : ℕ)
        → Leaves k (n + n) (reweigh k m c x s (set_sub_type k x amount (set_id x new s)))
    unfolding set_sub_type
    set_sub_type-Leaves new amount =
        let t = set_id x new s in
        let ids = write_other s.id new in
        let counted =
          reweigh-Leaves t.id (set_item_count x amount t).count s.fluid_type s.charges ids
            (write_other s.count (amount % 256)) in
        elim (Bool-cases (k.is_fluid (t.id x))) [
          | inl e ↦ simp e (
              reweigh-Leaves t.id s.count (write s.fluid_type x amount) s.charges ids (λ j h. refl))
          | inr e ↦ elim (Bool-cases (k.stackable (t.id x))) [
            | inl f ↦ simp (e, f) counted
            | inr f ↦ elim (Bool-cases (k.has_charges (t.id x))) [
              | inl g ↦
                  simp (e, f, g)
                    (reweigh-Leaves t.id s.count s.fluid_type (write s.charges x amount) ids
                      (λ j h. refl))
              | inr g ↦ simp (e, f, g) counted
            ]
          ]
        ]
