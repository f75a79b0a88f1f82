-- ===== src/Containers/Under.antt =====
-- What lies in a container, directly or in other containers (src/container.cpp).
use mathlib.Core.Bool.{true≢false}
use infernum_data_pack.Base.{
  ℕ, zero, suc, ◌+◌, ◌%◌, ◌<◌, ◌≤◌, ◌≡◌, refl, sym, ap, ◌∙◌, false, List, [], ◌∷◌, arith, ==_self,
  Bool-cases, inl, inr,
}
use infernum_data_pack.Containers.{
  Parent, in_container, Kinds, Store, word, get_weight, item_weight,
}
use infernum_data_pack.Containers.Sums.{sum_of, times}
use infernum_data_pack.Containers.Nesting.{Rooted, Listed-of, parent_Rooted}
use infernum_data_pack.Containers.Changing.{held_by}
use infernum_data_pack.Containers.Intact.{IsIntact}

module _ (v w : ℕ → ℕ) where
  pub sum_of_equal :
      (xs : List ℕ) → ((j : ℕ) → 0 < times j xs → v j ≡ w j) → sum_of v xs ≡ sum_of w xs
  unfolding sum_of
  sum_of_equal [] h = refl
  sum_of_equal (x ∷ xs) h =
      omega
        (arith, h x (simp (==_self x) (omega arith)), sum_of_equal xs (λ j p. h j (omega arith)))

  pub sum_of_congruent :
      (xs : List ℕ)
      → ((j : ℕ) → 0 < times j xs → v j % word ≡ w j % word)
      → sum_of v xs % word ≡ sum_of w xs % word
  unfolding sum_of
  sum_of_congruent [] h = refl
  sum_of_congruent (x ∷ xs) h =
      omega (
        arith,
        h x (simp (==_self x) (omega arith)),
        sum_of_congruent xs (λ j p. h j (omega arith)),
      )

-- At least so many containers lie around an item.
data Deep (parent : ℕ → Parent) : ℕ → ℕ → Type 0 where
  any : (c : ℕ) → Deep parent 0 c
  deeper : (e c p : ℕ) → parent c ≡ in_container p → Deep parent e p → Deep parent (suc e) c

module _ (s : Store) where
  -- The sum of `f` over all that lies in `c`, at most `m` containers deep.
  unfoldable pub under : ℕ → (ℕ → ℕ) → ℕ → ℕ
  under zero f c = 0
  under (suc m) f c = sum_of (λ j. f j + under m f j) (s.itemlist c)

  Deep-less : (n e c : ℕ) → Rooted s.parent s.itemlist n c → Deep s.parent e c → e < n
  Deep-less zero e c r d = elim r [ ]
  Deep-less (suc n) _ _ r (any c) = omega arith
  Deep-less (suc n) _ _ r (deeper e c p h d) =
      omega (arith, Deep-less n e p (parent_Rooted s.parent s.itemlist n c p r h) d)

  module _ (k : Kinds) (n : ℕ) (sound : IsIntact k n s) where
    parent_of : (j c : ℕ) → 0 < times j (s.itemlist c) → s.parent j ≡ in_container c
    parent_of j c h =
        held_by (s.parent j) c
          (omega (arith, h, Listed-of s.parent s.itemlist n j (sound.rooted j) c))

    under-Deep :
        (f : ℕ → ℕ) (m e c : ℕ) → Deep s.parent e c → n ≤ e + m → under (suc m) f c ≡ under m f c
    unfolding under
    under-Deep f zero e c d h = absurd (omega (arith, Deep-less n e c (sound.rooted c) d))
    under-Deep f (suc m) e c d h = sum_of_equal _ _ (s.itemlist c) (λ j p.
        ap (λ v. f j + v)
          (under-Deep f m (suc e) j (deeper e j c (parent_of j c p) d) (omega arith)))

    pub under_all :
        (f : ℕ → ℕ) (c : ℕ) → under n f c ≡ sum_of (λ j. f j + under n f j) (s.itemlist c)
    unfolding under
    under_all f c = sym (under-Deep f n 0 c (any c) (omega arith))

    weight_parts :
        (j v : ℕ)
        → s.total_weight j ≡ v % word
        → (k.is_container j ≡ false → v ≡ 0)
        → get_weight k s j % word ≡ (item_weight k s j + v) % word
    unfolding get_weight
    weight_parts j v e h = elim (Bool-cases (k.is_container j)) [
      | inl f ↦ simp f (omega (arith, e))
      | inr f ↦ simp f (omega (arith, h f))
    ]

    nothing_in : (j : ℕ) (xs : List ℕ) → s.itemlist j ≡ xs → k.is_container j ≡ false → xs ≡ []
    unfolding sum_of
    nothing_in j [] e h = refl
    nothing_in j (x ∷ xs) e h =
        let listed : 0 < times x (s.itemlist j) = rw e (simp (==_self x) (omega arith)) in
        absurd (true≢false (sym (sound.typed x j (parent_of x j listed)) ∙ h))

    pub under_empty : (f : ℕ → ℕ) (m j : ℕ) → s.itemlist j ≡ [] → under m f j ≡ 0
    unfolding under sum_of
    under_empty f zero j e = refl
    under_empty f (suc m) j e = rw e refl

    pub under_nothing : (f : ℕ → ℕ) (m j : ℕ) → k.is_container j ≡ false → under m f j ≡ 0
    under_nothing f m j h = under_empty f m j (nothing_in j (s.itemlist j) refl h)

    weight-Deep :
        (m e c : ℕ)
        → Deep s.parent e c
        → n ≤ e + m
        → s.total_weight c ≡ under m (item_weight k s) c % word
    unfolding under
    weight-Deep zero e c d h = absurd (omega (arith, Deep-less n e c (sound.rooted c) d))
    weight-Deep (suc m) e c d h =
        sound.weighs c
        ∙ sum_of_congruent _ _ (s.itemlist c) (λ j p.
          weight_parts j (under m (item_weight k s) j)
            (weight-Deep m (suc e) j (deeper e j c (parent_of j c p) d) (omega arith))
            (λ f. under_nothing (item_weight k s) m j f))

    -- A container's total is what all that lies in it weighs by itself.
    pub total_weight-under : (c : ℕ) → s.total_weight c ≡ under n (item_weight k s) c % word
    total_weight-under c = weight-Deep n 0 c (any c) (omega arith)

    unique-Deep :
        (f S : ℕ → ℕ)
        → ((c : ℕ) → sum_of (λ j. f j + S j) (s.itemlist c) ≡ S c)
        → (m e c : ℕ) → Deep s.parent e c
        → n ≤ e + m
        → under m f c ≡ S c
    unfolding under
    unique-Deep f S fixed zero e c d h = absurd (omega (arith, Deep-less n e c (sound.rooted c) d))
    unique-Deep f S fixed (suc m) e c d h =
        sum_of_equal _ _ (s.itemlist c) (λ j p.
          ap (λ v. f j + v)
            (unique-Deep f S fixed m (suc e) j (deeper e j c (parent_of j c p) d) (omega arith)))
        ∙ fixed c

    -- Only one sum counts the items of each container and what lies in them.
    pub under_unique :
        (f S : ℕ → ℕ)
        → ((c : ℕ) → sum_of (λ j. f j + S j) (s.itemlist c) ≡ S c)
        → (c : ℕ) → under n f c ≡ S c
    under_unique f S fixed c = unique-Deep f S fixed n 0 c (any c) (omega arith)
