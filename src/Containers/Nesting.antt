-- ===== src/Containers/Nesting.antt =====
-- How containers lie in containers (src/container.cpp).
use mathlib.Core.Bool.{true≢false}
use infernum_data_pack.Base.{
  ℕ, zero, suc, ◌≤◌, ◌≡◌, sym, ap, subst, ◌∙◌, Bool, true, false, ◌==◌, if◌then◌else◌, List, ◌+◌,
  ◌⊎◌, inl, inr, arith,
}
use infernum_data_pack.Containers.{Parent, in_container}
use infernum_data_pack.Containers.Sums.{times}

-- How often an item with this parent has to stand in the list of `c`.
abbrev pub held_in : Parent → ℕ → ℕ
held_in (in_container p) c = if p == c then 1 else 0
held_in _ c = 0

abbrev pub is_inside : Parent → Bool
is_inside (in_container p) = true
is_inside _ = false

pub same_container : (p q : ℕ) → in_container p ≡ in_container q → p ≡ q
same_container p q e = ap (λ v. elim v [ in_container r ↦ r | _ ↦ 0 ]) e

module _ (parent : ℕ → Parent) where
  -- Item `x` is `i`, or a container that `i` lies in.
  pub data Above (x : ℕ) : ℕ → Type 0 where
    here : Above x x
    inside : (i p : ℕ) → parent i ≡ in_container p → Above x p → Above x i

  module _ (itemlist : ℕ → List ℕ) where
    -- Item `i` stands once in the list of the container that is its parent, and in no other list.
    abbrev pub Listed : ℕ → Type 0
    Listed i = (c : ℕ) → times i (itemlist c) ≡ held_in (parent i) c

    -- The parents of `i` end, outside of any container, after fewer than `n` containers.
    pub data Rooted : ℕ → ℕ → Type 0 where
      outside : (n i : ℕ) → Listed i → is_inside (parent i) ≡ false → Rooted (suc n) i
      within : (n i p : ℕ) → Listed i → parent i ≡ in_container p → Rooted n p → Rooted (suc n) i

-- The parents of the items in `Q` change.
module _ (parent parent' : ℕ → Parent) (itemlist itemlist' : ℕ → List ℕ) (Q : ℕ → Type 0)
    (same : (i : ℕ) → ¬ Q i → parent' i ≡ parent i)
    (listed : (i : ℕ) → ¬ Q i → Listed parent' itemlist' i) where
  -- What is inside none of them stays as it is.
  pub Rooted_apart :
      (n i : ℕ)
      → Rooted parent itemlist n i
      → ((x : ℕ) → Q x → ¬ Above parent x i)
      → Rooted parent' itemlist' n i
  Rooted_apart _ _ (outside n i l e) out =
      let apart : ¬ Q i = λ q. out i q here in
      outside n i (listed i apart) (ap is_inside (same i apart) ∙ e)
  Rooted_apart _ _ (within n i p l e r) out =
      let apart : ¬ Q i = λ q. out i q here in
      within n i p (listed i apart) (same i apart ∙ e)
        (Rooted_apart n p r (λ x q a. out x q (inside i p e a)))

  -- Everything stays rooted where they are rooted again, `m` containers deep.
  module _ (m : ℕ) (decide : (i : ℕ) → Q i ⊎ ¬ Q i)
      (moved : (x : ℕ) → Q x → (l : ℕ) → m ≤ l → Rooted parent' itemlist' (suc l) x) where
    pub Rooted_moved :
        (n i l : ℕ) → Rooted parent itemlist n i → n + m ≤ l → Rooted parent' itemlist' l i
    Rooted_moved _ _ zero (outside n i k e) h = absurd (omega arith)
    Rooted_moved _ _ zero (within n i p k e r) h = absurd (omega arith)
    Rooted_moved _ _ (suc l) (outside n i k e) h = elim (decide i) [
      | inl q ↦ moved i q l (omega arith)
      | inr q ↦ outside l i (listed i q) (ap is_inside (same i q) ∙ e)
    ]
    Rooted_moved _ _ (suc l) (within n i p k e r) h =
        let up = Rooted_moved n p l r (omega arith) in
        elim (decide i) [
          | inl q ↦ moved i q l (omega arith)
          | inr q ↦ within l i p (listed i q) (same i q ∙ e) up
        ]

module _ (parent : ℕ → Parent) (itemlist : ℕ → List ℕ) where
  pub Rooted_up : (n i m : ℕ) → Rooted parent itemlist n i → n ≤ m → Rooted parent itemlist m i
  Rooted_up _ _ zero (outside n i l e) h = absurd (omega arith)
  Rooted_up _ _ zero (within n i p l e r) h = absurd (omega arith)
  Rooted_up _ _ (suc m) (outside n i l e) h = outside m i l e
  Rooted_up _ _ (suc m) (within n i p l e r) h = within m i p l e (Rooted_up n p m r (omega arith))

  pub parent_Rooted :
      (n i c : ℕ)
      → Rooted parent itemlist (suc n) i
      → parent i ≡ in_container c
      → Rooted parent itemlist n c
  parent_Rooted _ _ c (outside n i l e) f = absurd (true≢false (sym (ap is_inside f) ∙ e))
  parent_Rooted _ _ c (within n i p l e r) f =
      subst (λ q. Rooted parent itemlist n q) (same_container p c (sym e ∙ f)) r

  Above-Rooted :
      (x n i : ℕ) → Rooted parent itemlist n i → Above parent x i → Rooted parent itemlist n x
  Above-Rooted x n i r here = r
  Above-Rooted x zero i r (inside _ p e a) = elim r [ ]
  Above-Rooted x (suc n) i r (inside _ p e a) =
      Rooted_up n x (suc n) (Above-Rooted x n p (parent_Rooted n i p r e) a) (omega arith)

  -- A container is not inside an item that it holds.
  pub not_inside_own :
      (n c x : ℕ) → Rooted parent itemlist n c → parent x ≡ in_container c → ¬ Above parent x c
  not_inside_own zero c x r e a = elim r [ ]
  not_inside_own (suc n) c x r e a =
      not_inside_own n c x (parent_Rooted n x c (Above-Rooted x (suc n) c r a) e) e a

  pub root_cases :
      (n i : ℕ)
      → Rooted parent itemlist (suc n) i
      → (Listed parent itemlist i × (is_inside (parent i) ≡ false))
        ⊎ (Listed parent itemlist i
            × ((p : ℕ) × (parent i ≡ in_container p) × Rooted parent itemlist n p))
  root_cases _ _ (outside n i l e) = inl (l, e)
  root_cases _ _ (within n i p l e r) = inr (l, (p, e, r))

  pub Listed-of : (n i : ℕ) → Rooted parent itemlist n i → Listed parent itemlist i
  Listed-of _ _ (outside n i l e) = l
  Listed-of _ _ (within n i p l e r) = l
