-- ===== src/Trade/Offers.antt =====
-- The items on offer, `Game::tradeItems` (src/game.cpp).
use infernum_data_pack.Base.{
  none_ne_some, some_injective, ℕ, ◌≡◌, ◌≢◌, inl, inr, refl, sym, ap, ◌∙◌, Bool, true, false, List,
  [], ◌∷◌, Option, none, some, ◌==◌, if◌then◌else◌, arith, Bool-cases, ==→eq, ==_self, ==_ne,
}
use infernum_data_pack.Trade.{find, erase, put, release, write}

find-erase :
    (i j : ℕ) (es : List (ℕ × ℕ)) → find i (erase j es) ≡ (if j == i then none else find i es)
unfolding find erase
find-erase i j [] = ground arith
find-erase i j (e ∷ es) = elim (Bool-cases (e.0 == j)) [
  | inl h ↦ simp h (
      find-erase i j es
      ∙ elsewhere (j == i) (e.0 == i) (some e.1) (find i es)
          (λ k. ap (λ n. n == i) (sym (==→eq e.0 j h)) ∙ k))
  | inr h ↦ simp h (
      ap (λ o. if e.0 == i then some e.1 else o) (find-erase i j es)
      ∙ swapped (j == i) (e.0 == i) (some e.1) (find i es) (λ k l. ground (arith, h, k, l)))
]
  where
    elsewhere :
        (a b : Bool) (o p : Option ℕ)
        → (b ≡ true → a ≡ true)
        → (if a then none else p) ≡ (if a then none else if b then o else p)
    elsewhere true b o p h = refl
    elsewhere false false o p h = refl
    elsewhere false true o p h = absurd (false_true (h refl))
      where
        false_true : false ≢ true
        false_true k = ground arith

    swapped :
        (a b : Bool) (o p : Option ℕ)
        → (a ≡ true → b ≡ true → ⊥)
        → (if b then o else if a then none else p) ≡ (if a then none else if b then o else p)
    swapped false b o p h = refl
    swapped true false o p h = refl
    swapped true true o p h = absurd (h refl refl)

-- The list holds exactly the players' items.
pub record Offered (item : ℕ → Option ℕ) (es : List (ℕ × ℕ)) : Type 0 where
  pub held : (p i : ℕ) → item p ≡ some i → find i es ≡ some p
  pub listed : (p i : ℕ) → find i es ≡ some p → item p ≡ some i

written_off :
    (item : ℕ → Option ℕ) (p r i : ℕ) → write item p none r ≡ some i → (p ≢ r) × (item r ≡ some i)
written_off item p r i h = elim (Bool-cases (p == r)) [
  | inl e ↦ absurd (none_ne_some (simp e at h))
  | inr e ↦ ((λ k. ground (arith, e, k)), simp e at h)
]

find-release :
    (o : Option ℕ) (i p : ℕ) (es : List (ℕ × ℕ))
    → find i (release o es) ≡ some p
    → (o ≢ some i) × (find i es ≡ some p)
unfolding release
find-release none i p es h = ((λ e. none_ne_some e), h)
find-release (some j) i p es h = elim (Bool-cases (j == i)) [
  | inl e ↦ absurd (none_ne_some (simp e at (sym (find-erase i j es) ∙ h)))
  | inr e ↦ ((λ k. ground (arith, e, some_injective k)), simp e at (sym (find-erase i j es) ∙ h))
]

release_others :
    (o : Option ℕ) (i : ℕ) (es : List (ℕ × ℕ)) → o ≢ some i → find i (release o es) ≡ find i es
unfolding release
release_others none i es n = refl
release_others (some j) i es n = find-erase i j es ∙ simp (==_ne j i (λ e. n (ap some e))) refl

-- A player takes an offer back.
pub release-Offered :
    (item : ℕ → Option ℕ) (p : ℕ) (es : List (ℕ × ℕ))
    → Offered item es
    → Offered (write item p none) (release (item p) es)
release-Offered item p es h = record {
  held = λ r i e.
      (let w = written_off item p r i e in
        release_others (item p) i es
          (λ k. w.0 (some_injective (sym (h.held p i k) ∙ h.held r i w.1)))
        ∙ h.held r i w.1);
  listed = λ r i e.
      (let w = find-release (item p) i r es e in
        let own = h.listed r i w.1 in simp (==_ne p r (λ k. w.0 (ap item k ∙ own))) own);
}

find-put :
    (k i p : ℕ) (es : List (ℕ × ℕ)) → find k (put i p es) ≡ (if i == k then some p else find k es)
unfolding find
find-put k i p es = elim (Bool-cases (i == k)) [
  | inl e ↦ simp e refl
  | inr e ↦ simp e (find-erase k i es ∙ simp e refl)
]

-- A player who had none makes an offer that nobody else has.
pub put-Offered :
    (item : ℕ → Option ℕ) (p i : ℕ) (es : List (ℕ × ℕ))
    → Offered item es
    → item p ≡ none
    → find i es ≡ none
    → Offered (write item p (some i)) (put i p es)
put-Offered item p i es h free new = record {
  held = λ r k e. elim (Bool-cases (p == r)) [
    | inl a ↦
        (let b = some_injective (simp a at e) in
          find-put k i p es
          ∙ (ap (λ n. if n == k then some p else find k es) b
              ∙ simp (==_self k) (ap some (==→eq p r a))))
    | inr a ↦
        (let own = h.held r k (simp a at e) in
          find-put k i p es
          ∙ (simp (==_ne i k (λ b. none_ne_some (sym new ∙ (ap (λ n. find n es) b ∙ own)))) own))
  ];
  listed = λ r k e. elim (Bool-cases (i == k)) [
    | inl a ↦
        (let b = some_injective (simp a at (sym (find-put k i p es) ∙ e)) in
          ap (λ n. write item p (some i) n) (sym b) ∙ (simp (==_self p) (ap some (==→eq i k a))))
    | inr a ↦
        (let own = h.listed r k (simp a at (sym (find-put k i p es) ∙ e)) in
          simp (==_ne p r (λ b. none_ne_some (sym free ∙ (ap item b ∙ own)))) own)
  ];
}

-- Only what the players' items are matters.
pub same-Offered :
    (item other : ℕ → Option ℕ) (es : List (ℕ × ℕ))
    → ((p : ℕ) → other p ≡ item p)
    → Offered item es
    → Offered other es
same-Offered item other es e h = record {
  held = λ p i k. h.held p i (sym (e p) ∙ k);
  listed = λ p i k. e p ∙ h.listed p i k;
}
