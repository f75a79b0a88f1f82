-- ===== src/Trade/Starting.antt =====
-- When a trade may start (src/game.cpp).
use infernum_data_pack.Base.{
  none_ne_some, ℕ, ◌≡◌, inl, inr, refl, sym, ap, ◌∙◌, Bool, true, false, not, Option, none, some,
  ◌&&◌, if◌then◌else◌, arith, Bool-cases, Option-cases, ==→eq,
}
use infernum_data_pack.Trade.{
  TradeState, trade_none, trade_initiated, trade_accept, trade_acknowledge, trade_transfer, Market,
  idle, is_none, is_acknowledge, is_player,
}
use infernum_data_pack.Trade.Partners.{state_fits, links, Joined, Free}
use infernum_data_pack.Trade.Invariant.{IsSound, partner_facts, no_partner}

-- Starting a trade.
after_start :
    (s : TradeState) (o : Option ℕ)
    → state_fits s o trade_acknowledge ≡ true
    → state_fits s o trade_initiated ≡ true
unfolding state_fits
after_start trade_none o h = h
after_start trade_initiated o h = h
after_start trade_accept o h = refl
after_start trade_acknowledge o h = ground (arith, h)
after_start trade_transfer o h = h

-- Who was asked has nothing on offer.
pub acknowledge_offers_nothing :
    (o : Option ℕ) (s : TradeState) → state_fits trade_acknowledge o s ≡ true → o ≡ none
unfolding state_fits
acknowledge_offers_nothing none s h = refl
acknowledge_offers_nothing (some i) s h = ground (arith, h)

-- The states of who asks and who is asked, once the guards of `internalStartTrade` let the trade through.
pub record Startable (m : Market) (p q : ℕ) : Type 0 where
  pub asks : Free m.traders p q
  pub asked : Free m.traders q p
  pub nothing : (m.traders p).trade_item ≡ none
  pub joins :
      (i : ℕ)
      → Joined p q
          (record { trade_state = trade_initiated; trade_partner = some q; trade_item = some i })
          (if is_none (m.traders q).trade_state
            then record (m.traders q) { trade_state = trade_acknowledge; trade_partner = some p }
            else m.traders q)

-- Nobody in a trade is in the state of no trade.
pub in_trade :
    (s : TradeState) (o : Option ℕ) (r : TradeState) → state_fits s o r ≡ true → is_none s ≡ false
unfolding state_fits
in_trade trade_none o r h = ground (arith, h)
in_trade trade_initiated o r h = refl
in_trade trade_accept o r h = refl
in_trade trade_acknowledge o r h = refl
in_trade trade_transfer o r h = refl

acknowledged : (s : TradeState) → is_acknowledge s ≡ true → s ≡ trade_acknowledge
acknowledged trade_none h = ground (arith, h)
acknowledged trade_initiated h = ground (arith, h)
acknowledged trade_accept h = ground (arith, h)
acknowledged trade_acknowledge h = refl
acknowledged trade_transfer h = ground (arith, h)

pub is_player_lem : (o : Option ℕ) (q : ℕ) → is_player o q ≡ true → o ≡ some q
is_player_lem none q h = ground (arith, h)
is_player_lem (some i) q h = ap some (==→eq i q h)

idle_if_none :
    (m : Market) (p : ℕ) → IsSound m → is_none (m.traders p).trade_state ≡ true → m.traders p ≡ idle
unfolding links
idle_if_none m p h e = elim (Option-cases ((m.traders p).trade_partner)) [
  | inl k ↦ no_partner m p h k
  | inr (q, k) ↦ absurd (
      both (
        in_trade ((m.traders p).trade_state) ((m.traders p).trade_item) ((m.traders q).trade_state)
          (partner_facts m p q h k).2))
]
  where
    both : is_none (m.traders p).trade_state ≡ false → ⊥
    both f = ground (arith, e, f)

-- The first who asks.
start_fresh : (m : Market) (p q : ℕ) → m.traders p ≡ idle → m.traders q ≡ idle → Startable m p q
unfolding links state_fits
start_fresh m p q t u = record {
  asks = inl (ap (λ i. i.trade_partner) t);
  asked = inl (ap (λ i. i.trade_partner) u);
  nothing = ap (λ i. i.trade_item) t;
  joins = λ i. rw u (record { to = refl; back = refl; here = refl; there = refl });
}

-- Who was asked answers with an offer.
start_answer :
    (m : Market) (p q : ℕ)
    → IsSound m
    → is_acknowledge (m.traders p).trade_state ≡ true
    → (m.traders p).trade_partner ≡ some q
    → Startable m p q
unfolding links
start_answer m p q h a e =
    let k = partner_facts m p q h e in
    let k' = partner_facts m q p h k.1 in
    let t = m.traders p in
    let u = m.traders q in
    let s = acknowledged t.trade_state a in
    let running = in_trade u.trade_state u.trade_item t.trade_state k'.2 in
    record {
      asks = inr e;
      asked = inr k.1;
      nothing =
          acknowledge_offers_nothing t.trade_item u.trade_state
            (ap (λ r. state_fits r t.trade_item u.trade_state) (sym s) ∙ k.2);
      joins = λ i. simp running (record {
        to = refl;
        back = k.1;
        here = unfold state_fits in refl;
        there =
            after_start u.trade_state u.trade_item
              (ap (λ r. state_fits u.trade_state u.trade_item r) (sym s) ∙ k'.2);
      });
    }

pub startable :
    (m : Market) (p q : ℕ)
    → IsSound m
    → (not (is_none (m.traders p).trade_state)
        && not
            (is_acknowledge (m.traders p).trade_state && is_player (m.traders p).trade_partner q))
      ≡ false
    → (not (is_none (m.traders q).trade_state) && not (is_player (m.traders q).trade_partner p))
      ≡ false
    → Startable m p q
startable m p q h a b = elim (Bool-cases (is_none (m.traders p).trade_state)) [
  | inl e ↦
      (let t = idle_if_none m p h e in
        elim (Bool-cases (is_none (m.traders q).trade_state)) [
          | inl f ↦ start_fresh m p q t (idle_if_none m q h f)
          | inr f ↦ absurd (
              none_ne_some (
                sym (ap (λ i. i.trade_partner) t)
                ∙ (partner_facts m q p h (is_player_lem _ p (second _ _ f b))).1))
        ])
  | inr e ↦ start_answer m p q h (both _ _ _ e a).0 (is_player_lem _ q (both _ _ _ e a).1)
]
  where
    second : (x y : Bool) → x ≡ false → (not x && not y) ≡ false → y ≡ true
    second x y e k = ground (arith, e, k)

    both : (x y z : Bool) → x ≡ false → (not x && not (y && z)) ≡ false → (y ≡ true) × (z ≡ true)
    both x y z e k = (ground (arith, e, k), ground (arith, e, k))
