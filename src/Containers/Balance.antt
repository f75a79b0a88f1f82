-- ===== src/Containers/Balance.antt =====
-- `Container::updateItemWeight` (src/container.cpp): what a change of weight does to the containers.
use infernum_data_pack.Base.{
  ℕ, zero, suc, ◌+◌, ◌%◌, ◌<◌, ◌≡◌, ◌≢◌, refl, sym, ap, subst, ◌∙◌, true, false, ◌==◌, Option, some,
  if◌then◌else◌, arith, ==_ne, ==_self, ==→eq, Bool-cases, inl, inr,
}
use infernum_data_pack.Containers.{
  Parent, nowhere, in_container, on_tile, carried_by, Kinds, Store, word, set_total_weight,
  item_weight, get_weight,
}
use infernum_data_pack.Containers.Methods.{in_parent, update_item_weight}
use infernum_data_pack.Containers.Sums.{sum_of, times, sum_of_same, sum_of_changed}
use infernum_data_pack.Containers.Nesting.{
  root_cases, held_in, is_inside, Above, here, inside, Listed, Rooted,
}

in_parent_outside :
    (f : ℕ → Option Store) (s : Store) (q : Parent) → is_inside q ≡ false → in_parent f s q ≡ some s
in_parent_outside f s nowhere e = refl
in_parent_outside f s (in_container p) e = absurd (ground (arith, e))
in_parent_outside f s on_tile e = refl
in_parent_outside f s (carried_by p) e = refl

pub held_outside : (q : Parent) (c : ℕ) → is_inside q ≡ false → held_in q c ≡ 0
held_outside nowhere c e = refl
held_outside (in_container p) c e = absurd (ground (arith, e))
held_outside on_tile c e = refl
held_outside (carried_by p) c e = refl

module _ (k : Kinds) where
  -- What the items in the list of a container weigh.
  abbrev pub load : Store → ℕ → ℕ
  load s c = sum_of (get_weight k s) (s.itemlist c)

  -- Every container's total is what its items weigh, but for `a` and `b`.
  abbrev pub Balanced : Store → (ℕ → ℕ) → (ℕ → ℕ) → Type 0
  Balanced s a b = (c : ℕ) → (s.total_weight c + a c) % word ≡ (load s c + b c) % word

  -- Only containers have items.
  abbrev pub Typed : (ℕ → Parent) → Type 0
  Typed parent = (i p : ℕ) → parent i ≡ in_container p → k.is_container p ≡ true

  module _ (c d : ℕ) (s : Store) where
    abbrev heavier : Store
    heavier = set_total_weight c ((s.total_weight c + d) % word) s

    heavier_other : (i : ℕ) → i ≢ c → get_weight k heavier i ≡ get_weight k s i
    unfolding get_weight item_weight
    heavier_other i h = simp (==_ne c i (λ e. h (sym e))) refl

    heavier_item : item_weight k heavier c ≡ item_weight k s c
    unfolding item_weight
    heavier_item = refl

    heavier_at :
        k.is_container c ≡ true → get_weight k heavier c % word ≡ (get_weight k s c + d) % word
    unfolding get_weight
    heavier_at h = simp (h, ==_self c) (rw heavier_item (omega arith))

    heavier_total : (j : ℕ) → j ≢ c → heavier.total_weight j ≡ s.total_weight j
    heavier_total j h = simp (==_ne c j (λ e. h (sym e))) refl

    heavier_fits : ((j : ℕ) → s.total_weight j < word) → (j : ℕ) → heavier.total_weight j < word
    heavier_fits h j = elim (Bool-cases (c == j)) [
      | inl e ↦ simp e (omega arith)
      | inr e ↦ simp e (h j)
    ]

    heavier_sum :
        (j y : ℕ)
        → (heavier.total_weight j + y) % word
          ≡ (s.total_weight j + (if c == j then d else 0) + y) % word
    heavier_sum j y = elim (Bool-cases (c == j)) [
      | inl e ↦
          simp e (at_c (s.total_weight c) (s.total_weight j) (ap s.total_weight (==→eq c j e)))
      | inr e ↦ simp e (omega arith)
    ]
      where
        at_c : (v w : ℕ) → v ≡ w → ((v + d) % word + y) % word ≡ (w + d + y) % word
        at_c v w e = omega arith

    heavier-load_same : (j : ℕ) → times c (s.itemlist j) ≡ 0 → load heavier j ≡ load s j
    heavier-load_same j =
        sum_of_same (get_weight k heavier) (get_weight k s) c d heavier_other (s.itemlist j)

    heavier-load :
        k.is_container c ≡ true
        → (p j : ℕ) → times c (s.itemlist j) ≡ held_in (in_container p) j
        → load heavier j % word ≡ (load s j + (if p == j then d else 0)) % word
    heavier-load h p j l = elim (Bool-cases (p == j)) [
      | inl e ↦ simp e (
          sum_of_changed (get_weight k heavier) (get_weight k s) c d heavier_other (heavier_at h)
            (s.itemlist j) (simp e at l))
      | inr e ↦ simp e (omega (arith, heavier-load_same j (simp e at l)))
    ]

  -- What `update_item_weight` does: only totals change.
  pub record Reweighed (n c d : ℕ) (s : Store) (a b : ℕ → ℕ) : Type 0 where
    pub weights : ℕ → ℕ
    pub runs : update_item_weight n c d s ≡ some (record s { total_weight = weights })
    pub balanced :
        Balanced (record s { total_weight = weights }) a (λ j. b j + (if c == j then d else 0))
    pub elsewhere : (j : ℕ) → ¬ Above s.parent j c → weights j ≡ s.total_weight j
    pub fits : ((j : ℕ) → s.total_weight j < word) → (j : ℕ) → weights j < word

  climbed :
      (n c p d : ℕ) (s : Store) (a b : ℕ → ℕ)
      → k.is_container c ≡ true
      → Listed s.parent s.itemlist c
      → s.parent c ≡ in_container p
      → Reweighed n p d
          (heavier c d s)
          (λ j. a j + (if p == j then d else 0))
          (λ j. b j + (if c == j then d else 0))
      → Reweighed (suc n) c d s a b
  unfolding update_item_weight
  climbed n c p d s a b h l e r = record {
    weights = r.weights;
    runs = rw e r.runs;
    balanced = λ j. omega (arith, r.balanced j);
    elsewhere = λ j out.
        r.elsewhere j (λ u. out (inside c p e u))
        ∙ heavier_total c d s j (λ f. out (subst (λ i. Above s.parent j i) f here));
    fits = λ f. r.fits (heavier_fits c d s f);
  }

  stopped :
      (n c d : ℕ) (s : Store) (a b : ℕ → ℕ)
      → Listed s.parent s.itemlist c
      → is_inside (s.parent c) ≡ false
      → Balanced s a b
      → Reweighed (suc n) c d s a b
  unfolding update_item_weight
  stopped n c d s a b l e bal = record {
    weights = (heavier c d s).total_weight;
    runs = in_parent_outside _ _ (s.parent c) e;
    balanced = λ j. omega (
      arith,
      bal j,
      heavier_sum c d s j (a j),
      heavier-load_same c d s j (l j ∙ held_outside (s.parent c) j e),
    );
    elsewhere = λ j out. heavier_total c d s j (λ f. out (subst (λ i. Above s.parent j i) f here));
    fits = heavier_fits c d s;
  }

  -- On enough fuel `update_item_weight` returns, and adds `d` to what the list of `c` weighs.
  pub update_item_weight-Reweighed :
      (n c d : ℕ) (s : Store) (a b : ℕ → ℕ)
      → Rooted s.parent s.itemlist n c
      → k.is_container c ≡ true
      → Typed s.parent
      → Balanced s a b
      → Reweighed n c d s a b
  update_item_weight-Reweighed zero c d s a b r h t bal = elim r [ ]
  update_item_weight-Reweighed (suc n) c d s a b r h t bal =
      elim (root_cases s.parent s.itemlist n c r) [
        | inl (l, e) ↦ stopped n c d s a b l e bal
        | inr (l, (p, e, up)) ↦ climbed n c p d s a b h l e (
            update_item_weight-Reweighed n p d (heavier c d s) _ _ up (t c p e) t (λ j. omega (
              arith,
              bal j,
              heavier_sum c d s j (a j + (if p == j then d else 0)),
              heavier-load c d s h p j (l j ∙ ap (λ q. held_in q j) e),
            )))
      ]
