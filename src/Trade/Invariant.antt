-- ===== src/Trade/Invariant.antt =====
-- What holds of all trades between two commands (src/game.cpp).
use infernum_data_pack.Base.{
  ℕ, ◌≡◌, ◌≢◌, inl, inr, refl, sym, ap, ◌∙◌, subst, fun_ext, Bool, true, false, Option, none, some,
  ◌==◌, ◌||◌, if◌then◌else◌, arith, Bool-cases, Option-cases, ==→eq, ==_ne,
}
use infernum_data_pack.Trade.{
  Trader, Market, idle, write, release, is_transfer, close_with, internal_close_trade,
}
use infernum_data_pack.Trade.Offers.{Offered, release-Offered, same-Offered}
use infernum_data_pack.Trade.Partners.{
  links, FitsAt, Fits, Free, change-Fits, write_first, write_second, write_third,
}

-- The partners fit each other, and `tradeItems` holds exactly the items that the players offer.
pub record IsSound (m : Market) : Type 0 where
  pub fits : Fits m.traders
  pub offered : Offered (λ p. (m.traders p).trade_item) m.trade_items

-- Two partners become idle, and their items are off the list.
pub closed :
    (m : Market) (p q : ℕ) (g : ℕ → Trader)
    → IsSound m
    → p ≢ q
    → Free m.traders p q
    → Free m.traders q p
    → g p ≡ idle
    → g q ≡ idle
    → ((r : ℕ) → p ≢ r → q ≢ r → g r ≡ m.traders r)
    → IsSound (record {
      traders = g;
      trade_items =
          release (m.traders q).trade_item (release (m.traders p).trade_item m.trade_items);
    })
closed m p q g h n a b gp gq same = record {
  fits = change-Fits m.traders g p q idle idle gp gq same h.fits n a b (inl (refl, refl));
  offered =
      let f = m.traders in
      let item : ℕ → Option ℕ = λ r. (f r).trade_item in
      let first = release-Offered item p m.trade_items h.offered in
      let second = release-Offered (write item p none) q _ first in
      let as_it_was : write item p none q ≡ item q = simp (==_ne p q n) refl in
      same-Offered (write (write item p none) q none) (λ r. (g r).trade_item) _ without
        (subst
          (λ o.
            Offered (write (write item p none) q none) (release o (release (item p) m.trade_items)))
          as_it_was second);
}
  where
    without :
        (r : ℕ) → (g r).trade_item ≡ write (write (λ i. (m.traders i).trade_item) p none) q none r
    without r = elim (Bool-cases (q == r)) [
      | inl e ↦ simp e (ap (λ i. (g i).trade_item) (sym (==→eq q r e)) ∙ ap (λ i. i.trade_item) gq)
      | inr e ↦ simp e (elim (Bool-cases (p == r)) [
        | inl k ↦
            simp k (ap (λ i. (g i).trade_item) (sym (==→eq p r k)) ∙ ap (λ i. i.trade_item) gp)
        | inr k ↦ simp k (
            ap (λ i. i.trade_item) (same r (λ j. ground (arith, k, j)) (λ j. ground (arith, e, j))))
      ])
    ]

-- The two facts on a partner.
pub partner_facts :
    (m : Market) (p q : ℕ)
    → IsSound m
    → (m.traders p).trade_partner ≡ some q
    → (p ≢ q) × ((m.traders q).trade_partner ≡ some p) × (links (m.traders p) (m.traders q) ≡ true)
unfolding Fits FitsAt
partner_facts m p q h e = subst (λ o. FitsAt m.traders p o) e (h.fits p)

pub no_partner :
    (m : Market) (p : ℕ) → IsSound m → (m.traders p).trade_partner ≡ none → m.traders p ≡ idle
unfolding Fits FitsAt
no_partner m p h e = subst (λ o. FitsAt m.traders p o) e (h.fits p)

write_self : (f : ℕ → Trader) (p : ℕ) (t : Trader) → f p ≡ t → write f p t ≡ f
write_self f p t e = fun_ext (λ r. elim (Bool-cases (p == r)) [
  | inl k ↦ simp k (sym e ∙ ap f (==→eq p r k))
  | inr k ↦ simp k refl
])

close_alone : (p : ℕ) (m : Market) → m.traders p ≡ idle → internal_close_trade p m ≡ m
unfolding internal_close_trade close_with release
close_alone p m e =
    ap (close_with p m) (ap (λ t. t.trade_partner) e)
    ∙ simp e (
        ap (λ f. record { traders = f; trade_items = m.trade_items })
          (write_self m.traders p idle e))

pub close_joined :
    (p q : ℕ) (m : Market)
    → (m.traders p).trade_partner ≡ some q
    → internal_close_trade p m ≡ (
        if is_transfer (m.traders q).trade_state || is_transfer (m.traders p).trade_state
        then m
        else record {
          traders = write (write m.traders p idle) q idle;
          trade_items =
              release (m.traders q).trade_item (release (m.traders p).trade_item m.trade_items);
        })
unfolding internal_close_trade close_with
close_joined p q m e = ap (close_with p m) e

pub if-IsSound : (b : Bool) (m n : Market) → IsSound m → IsSound n → IsSound (if b then m else n)
if-IsSound true m n h k = h
if-IsSound false m n h k = k

pub internal_close_trade-IsSound :
    (p : ℕ) (m : Market) → IsSound m → IsSound (internal_close_trade p m)
internal_close_trade-IsSound p m h = elim (Option-cases ((m.traders p).trade_partner)) [
  | inl e ↦ subst IsSound (sym (close_alone p m (no_partner m p h e))) h
  | inr (q, e) ↦
      (let k = partner_facts m p q h e in
        subst IsSound (sym (close_joined p q m e)) (
          if-IsSound _ m _ h (
            closed m p q (write (write m.traders p idle) q idle) h k.0 (inr e) (inr k.1)
              (write_first m.traders p q idle idle k.0) (write_second m.traders p q idle idle)
              (λ r. write_third m.traders p q r idle idle))))
]
