-- ===== src/Trade/Partners.antt =====
-- Who trades with whom: each partner points back (src/game.cpp).
use infernum_data_pack.Base.{
  none_ne_some, some_injective, ℕ, ◌≡◌, ◌≢◌, ◌⊎◌, inl, inr, refl, sym, ap, ◌∙◌, subst, Bool, true,
  false, not, Option, none, some, ◌==◌, ◌&&◌, arith, Bool-cases, ==→eq, ==_self, ==_ne,
}
use infernum_data_pack.Trade.{
  TradeState, trade_none, trade_initiated, trade_accept, trade_acknowledge, trade_transfer, Trader,
  idle, write, is_accept, is_acknowledge,
}

abbrev pub is_offer : Option ℕ → Bool
is_offer none = false
is_offer (some i) = true

-- What the state of a player in a trade demands: who asked first has an item on offer, who was asked has
-- none yet and was asked by the other, and not both have accepted.
unfoldable pub state_fits : TradeState → Option ℕ → TradeState → Bool
state_fits trade_none o s = false
state_fits trade_initiated o s = is_offer o
state_fits trade_accept o s = not (is_accept s)
state_fits trade_acknowledge o s = not (is_offer o) && not (is_acknowledge s)
state_fits trade_transfer o s = false

unfoldable pub links : Trader → Trader → Bool
unfolding state_fits
links t u = state_fits t.trade_state t.trade_item u.trade_state

-- A player without a partner is idle; a partner is somebody else, who points back.
unfoldable pub FitsAt : (ℕ → Trader) → ℕ → Option ℕ → Type 0
FitsAt f p none = f p ≡ idle
FitsAt f p (some q) = (p ≢ q) × ((f q).trade_partner ≡ some p) × (links (f p) (f q) ≡ true)

unfoldable pub Fits : (ℕ → Trader) → Type 0
unfolding FitsAt
Fits f = (p : ℕ) → FitsAt f p ((f p).trade_partner)

-- Two players who trade with each other.
pub record Joined (p q : ℕ) (t u : Trader) : Type 0 where
  pub to : t.trade_partner ≡ some q
  pub back : u.trade_partner ≡ some p
  pub here : links t u ≡ true
  pub there : links u t ≡ true

-- A player with no partner, or with that one.
abbrev pub Free : (ℕ → Trader) → ℕ → ℕ → Type 0
Free f p q = ((f p).trade_partner ≡ none) ⊎ ((f p).trade_partner ≡ some q)

-- A third player has neither of the two as partner.
third : (f : ℕ → Trader) (p q r s : ℕ) → Free f p q → q ≢ r → (f s).trade_partner ≡ some r → p ≢ s
third f p q r s (inl e) n h k = none_ne_some (sym e ∙ (ap (λ i. (f i).trade_partner) k ∙ h))
third f p q r s (inr e) n h k = n (some_injective (sym e ∙ (ap (λ i. (f i).trade_partner) k ∙ h)))

module _ (f g : ℕ → Trader) (p q : ℕ) (t u : Trader) (gp : g p ≡ t) (gq : g q ≡ u)
    (same : (r : ℕ) → p ≢ r → q ≢ r → g r ≡ f r) where
  still_fits :
      (r : ℕ) (o : Option ℕ) → p ≢ r → q ≢ r → Free f p q → Free f q p → FitsAt f r o → FitsAt g r o
  unfolding FitsAt
  still_fits r none np nq a b h = same r np nq ∙ h
  still_fits r (some s) np nq a b h =
      let sp = third f p q r s a nq h.1 in
      let sq = third f q p r s b np h.1 in rw (same r np nq, same s sp sq) h

  fits_idle : (r : ℕ) → g r ≡ idle → FitsAt g r ((g r).trade_partner)
  unfolding FitsAt
  fits_idle r h = subst (λ o. FitsAt g r o) (sym (ap (λ i. i.trade_partner) h)) h

  fits_joined :
      (r s : ℕ) (a b : Trader)
      → g r ≡ a
      → g s ≡ b
      → r ≢ s
      → a.trade_partner ≡ some s
      → b.trade_partner ≡ some r
      → links a b ≡ true
      → FitsAt g r ((g r).trade_partner)
  unfolding FitsAt
  fits_joined r s a b ga gb n to back l =
      subst (λ o. FitsAt g r o) (sym (ap (λ i. i.trade_partner) ga ∙ to))
        (n, ap (λ i. i.trade_partner) gb ∙ back, rw (ga, gb) l)

  -- Two players who traded with nobody else become idle, or join each other.
  pub change-Fits :
      Fits f → p ≢ q → Free f p q → Free f q p → ((t ≡ idle) × (u ≡ idle)) ⊎ Joined p q t u → Fits g
  unfolding Fits
  change-Fits h n a b k r = elim (Bool-cases (p == r)) [
    | inl e ↦ subst (λ i. FitsAt g i ((g i).trade_partner)) (==→eq p r e) (at_first k)
    | inr np ↦ elim (Bool-cases (q == r)) [
      | inl e ↦ subst (λ i. FitsAt g i ((g i).trade_partner)) (==→eq q r e) (at_second k)
      | inr nq ↦
          subst (λ o. FitsAt g r o) (sym (ap (λ i. i.trade_partner) (same r (ne p np) (ne q nq))))
            (still_fits r ((f r).trade_partner) (ne p np) (ne q nq) a b (h r))
    ]
  ]
    where
      ne : (i : ℕ) → (i == r) ≡ false → i ≢ r
      ne i e k = ground arith

      at_first : ((t ≡ idle) × (u ≡ idle)) ⊎ Joined p q t u → FitsAt g p ((g p).trade_partner)
      at_first (inl i) = fits_idle p (gp ∙ i.0)
      at_first (inr j) = fits_joined p q t u gp gq n j.to j.back j.here

      at_second : ((t ≡ idle) × (u ≡ idle)) ⊎ Joined p q t u → FitsAt g q ((g q).trade_partner)
      at_second (inl i) = fits_idle q (gq ∙ i.1)
      at_second (inr j) = fits_joined q p u t gq gp (λ e. n (sym e)) j.back j.to j.there

-- What two writes leave.
pub write_first {ℓ} :
    {A : Type ℓ} (f : ℕ → A) (p q : ℕ) (t u : A) → p ≢ q → write (write f p t) q u p ≡ t
write_first f p q t u n = simp (==_ne q p (λ e. n (sym e)), ==_self p) refl

pub write_second {ℓ} : {A : Type ℓ} (f : ℕ → A) (p q : ℕ) (t u : A) → write (write f p t) q u q ≡ u
write_second f p q t u = simp (==_self q) refl

pub write_third {ℓ} :
    {A : Type ℓ} (f : ℕ → A) (p q r : ℕ) (t u : A) → p ≢ r → q ≢ r → write (write f p t) q u r ≡ f r
write_third f p q r t u n k = simp (==_ne q r k, ==_ne p r n) refl

pub write-Fits :
    (f : ℕ → Trader) (p q : ℕ) (t u : Trader)
    → Fits f
    → p ≢ q
    → Free f p q
    → Free f q p
    → ((t ≡ idle) × (u ≡ idle)) ⊎ Joined p q t u
    → Fits (write (write f p t) q u)
write-Fits f p q t u h n =
    change-Fits f (write (write f p t) q u) p q t u (write_first f p q t u n)
      (write_second f p q t u) (λ r. write_third f p q r t u) h n
