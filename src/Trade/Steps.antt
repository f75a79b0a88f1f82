-- ===== src/Trade/Steps.antt =====
-- Every command keeps the trades sound (src/game.cpp).
use infernum_data_pack.Base.{
  ℕ, ◌+◌, ◌≡◌, ◌≢◌, inl, inr, refl, sym, ap, ◌∙◌, subst, Bool, true, false, List, [], ◌∷◌, Option,
  none, some, ◌==◌, ◌&&◌, ltb, if◌then◌else◌, arith, Bool-cases, ==→eq, ==_self, ==_ne,
}
use infernum_data_pack.Position.{are_in_range}
use infernum_data_pack.Trade.{
  TradeState, trade_none, trade_initiated, trade_accept, trade_acknowledge, trade_transfer, Market,
  idle, write, find, is_none, is_accept, is_transfer, internal_start_trade, internal_close_trade,
  Moves, may_accept, set_trade_state, accept_with, accept_trade,
}
use infernum_data_pack.Trade.Commands.{Surroundings, clashes, is_being_traded, request_item}
use infernum_data_pack.Trade.Offers.{put-Offered, same-Offered}
use infernum_data_pack.Trade.Partners.{
  state_fits, links, change-Fits, write-Fits, write_first, write_second, write_third,
}
use infernum_data_pack.Trade.Invariant.{IsSound, closed, partner_facts, close_joined}
use infernum_data_pack.Trade.Starting.{startable}

-- What a command answers does not matter for what it leaves.
pub record Leaves {ℓ} {R : Type ℓ} (r : R × Market) : Type 0 where
  pub sound : IsSound r.1

if-Leaves {ℓ} :
    {R : Type ℓ} (b : Bool) (r s : R × Market)
    → (b ≡ true → Leaves r)
    → (b ≡ false → Leaves s)
    → Leaves (if b then r else s)
if-Leaves true r s h k = h refl
if-Leaves false r s h k = k refl

offers :
    (p q i : ℕ) (m : Market) (r : ℕ)
    → p ≢ q
    → (write
        (write m.traders p
          (record { trade_state = trade_initiated; trade_partner = some q; trade_item = some i }))
        q
        (if is_none (m.traders q).trade_state
          then record (m.traders q) { trade_state = trade_acknowledge; trade_partner = some p }
          else m.traders q)
        r).trade_item
      ≡ write (λ r. (m.traders r).trade_item) p (some i) r
offers p q i m r n = elim (Bool-cases (q == r)) [
  | inr e ↦ simp e (elim (Bool-cases (p == r)) [ inl k ↦ simp k refl | inr k ↦ simp k refl ])
  | inl e ↦
      simp (e, ==_ne p r (λ k. n (k ∙ sym (==→eq q r e))))
        (kept (is_none (m.traders q).trade_state)
          ∙ ap (λ j. (m.traders j).trade_item) (==→eq q r e))
]
  where
    kept :
        (b : Bool)
        → (if b
            then record (m.traders q) { trade_state = trade_acknowledge; trade_partner = some p }
            else m.traders q).trade_item
          ≡ (m.traders q).trade_item
    kept true = refl
    kept false = refl

internal_start_trade-IsSound :
    (p q i : ℕ) (m : Market)
    → IsSound m
    → p ≢ q
    → find i m.trade_items ≡ none
    → Leaves (internal_start_trade p q i m)
unfolding internal_start_trade
internal_start_trade-IsSound p q i m h n new =
    if-Leaves _ _ _ (λ a. record { sound = h })
      (λ a.
        if-Leaves _ _ _ (λ b. record { sound = h })
          (λ b.
            let s = startable m p q h a b in
            record {
              sound = record {
                fits = write-Fits m.traders p q _ _ h.fits n s.asks s.asked (inr (s.joins i));
                offered =
                    same-Offered (write (λ r. (m.traders r).trade_item) p (some i)) _ _
                      (λ r. offers p q i m r n)
                      (put-Offered (λ r. (m.traders r).trade_item) p i m.trade_items h.offered
                        s.nothing new);
              };
            }))

-- One partner accepts, and the other has not.
accepted_fits :
    (s : TradeState) (o : Option ℕ) (r : TradeState)
    → state_fits s o r ≡ true
    → is_accept s ≡ false
    → state_fits s o trade_accept ≡ true
unfolding state_fits
accepted_fits trade_none o r h a = h
accepted_fits trade_initiated o r h a = h
accepted_fits trade_accept o r h a = ground (arith, a)
accepted_fits trade_acknowledge o r h a = ground (arith, h)
accepted_fits trade_transfer o r h a = h

abbrev accepted : ℕ → Market → Market
accepted p m = record m { traders = write m.traders p (set_trade_state trade_accept (m.traders p)) }

accepted-IsSound :
    (p q : ℕ) (m : Market)
    → IsSound m
    → (m.traders p).trade_partner ≡ some q
    → is_accept (m.traders q).trade_state ≡ false
    → IsSound (accepted p m)
unfolding links
accepted-IsSound p q m h e a =
    let k = partner_facts m p q h e in
    let t = m.traders p in
    let u = m.traders q in
    record {
      fits =
          change-Fits m.traders (accepted p m).traders p q (set_trade_state trade_accept t) u
            (simp (==_self p) refl) (simp (==_ne p q k.0) refl) (λ r n l. simp (==_ne p r n) refl)
            h.fits k.0 (inr e) (inr k.1)
            (inr (record {
              to = e;
              back = k.1;
              here = unfold state_fits in rw a refl;
              there =
                  accepted_fits u.trade_state u.trade_item t.trade_state
                    (partner_facts m q p h k.1).2 a;
            }));
      offered =
          same-Offered (λ r. (m.traders r).trade_item) _ _
            (λ r. elim (Bool-cases (p == r)) [
              | inl b ↦ simp b (ap (λ i. (m.traders i).trade_item) (==→eq p r b))
              | inr b ↦ simp b refl
            ])
            h.offered;
    }

accept_is_no_transfer : (s : TradeState) → is_accept s ≡ true → is_transfer s ≡ false
accept_is_no_transfer trade_none h = refl
accept_is_no_transfer trade_initiated h = refl
accept_is_no_transfer trade_accept h = refl
accept_is_no_transfer trade_acknowledge h = refl
accept_is_no_transfer trade_transfer h = ground (arith, h)

-- Both have accepted and the script refuses.
cancelled-IsSound :
    (p q : ℕ) (m : Market)
    → IsSound m
    → (m.traders p).trade_partner ≡ some q
    → is_accept (m.traders q).trade_state ≡ true
    → IsSound (internal_close_trade p (accepted p m))
cancelled-IsSound p q m h e a =
    let k = partner_facts m p q h e in
    let n = accept_is_no_transfer (m.traders q).trade_state a in
    let g = write (write (accepted p m).traders p idle) q idle in
    subst IsSound (sym (close_joined p q (accepted p m) (simp (==_self p) e))) (
      simp (==_ne p q k.0, ==_self p, n)
        (closed m p q g h k.0 (inr e) (inr k.1)
          (write_first (accepted p m).traders p q idle idle k.0)
          (write_second (accepted p m).traders p q idle idle)
          (λ r b c.
            write_third (accepted p m).traders p q r idle idle b c ∙ simp (==_ne p r b) refl)))

accept_with-IsSound :
    (reachable agreed : Bool) (g : Moves) (p : ℕ) (m : Market)
    → IsSound m
    → (o : Option ℕ) → (m.traders p).trade_partner ≡ o
    → Leaves (accept_with reachable agreed g p m o)
unfolding accept_with
accept_with-IsSound reachable agreed g p m h none e = record { sound = h }
accept_with-IsSound reachable agreed g p m h (some q) e =
    let k = partner_facts m p q h e in
    let after =
      closed m p q (write (write m.traders p idle) q idle) h k.0 (inr e) (inr k.1)
        (write_first m.traders p q idle idle k.0) (write_second m.traders p q idle idle)
        (λ r. write_third m.traders p q r idle idle) in
    elim (Bool-cases reachable) [
      | inr b ↦ simp b (record { sound = h })
      | inl b ↦ elim (Bool-cases (is_accept (m.traders q).trade_state)) [
        | inr c ↦ simp (b, c) (record { sound = accepted-IsSound p q m h e c })
        | inl c ↦ elim (Bool-cases agreed) [
          | inr d ↦ simp (b, c, d) (record { sound = cancelled-IsSound p q m h e c })
          | inl d ↦ simp (b, c, d) (record { sound = after })
        ]
      ]
    ]

pub accept_trade-IsSound :
    (reachable agreed : Bool) (g : Moves) (p : ℕ) (m : Market)
    → IsSound m
    → Leaves (accept_trade reachable agreed g p m)
unfolding accept_trade
accept_trade-IsSound reachable agreed g p m h =
    elim (Bool-cases (may_accept (m.traders p).trade_state)) [
      | inl a ↦
          simp a (accept_with-IsSound reachable agreed g p m h ((m.traders p).trade_partner) refl)
      | inr a ↦ simp a (record { sound = h })
    ]

-- The guard on an item: it is not on offer already.
no_clash : (g : Surroundings) (i j : ℕ) → clashes g i j ≡ false → (j == i) ≡ false
no_clash g i j h = ground (arith, h)

is_being_traded-find :
    (g : Surroundings) (i : ℕ) (es : List (ℕ × ℕ))
    → is_being_traded g i es ≡ false
    → find i es ≡ none
unfolding is_being_traded find
is_being_traded-find g i [] h = refl
is_being_traded-find g i (e ∷ es) h = elim (Bool-cases (clashes g i e.0)) [
  | inl k ↦ absurd (false_true (sym h ∙ simp k refl))
  | inr k ↦ simp (no_clash g i e.0 k) (is_being_traded-find g i es (simp k at h))
]
  where
    false_true : false ≡ true → ⊥
    false_true q = ground arith

pub request_item-IsSound :
    (g : Surroundings) (p q i : ℕ) (m : Market)
    → IsSound m
    → p ≢ q
    → Leaves (request_item g p q i m)
unfolding request_item
request_item-IsSound g p q i m h n =
    elim (Bool-cases (are_in_range 1 1 (g.item_position i) (g.position p))) [
      | inr a ↦ simp a (record { sound = h })
      | inl a ↦ elim (Bool-cases (is_being_traded g i m.trade_items)) [
        | inl b ↦ simp (a, b) (record { sound = h })
        | inr b ↦ elim (Bool-cases (g.is_container i && ltb 100 (g.item_holding_count i + 1))) [
          | inl c ↦ simp (a, b, c) (record { sound = h })
          | inr c ↦ elim (Bool-cases (g.agrees p q i)) [
            | inr d ↦ simp (a, b, c, d) (record { sound = h })
            | inl d ↦
                simp (a, b, c, d)
                  (record {
                    sound =
                        (internal_start_trade-IsSound p q i m h n
                          (is_being_traded-find g i m.trade_items b)).sound;
                  })
          ]
        ]
      ]
    ]
