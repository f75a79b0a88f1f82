-- ===== src/Trade/Consent.antt =====
-- When items change hands (src/game.cpp).
use infernum_data_pack.Base.{
  ℕ, ◌≡◌, ◌≢◌, refl, Bool, true, false, Option, none, some, arith, Bool-cases, inl, inr,
}
use infernum_data_pack.Trade.{
  Market, idle, is_accept, may_accept, Moves, is_success, AcceptReply, exchanged, accept_with,
  accept_trade,
}
use infernum_data_pack.Trade.Partners.{write_first, write_second}

abbrev pub is_exchange : AcceptReply → Bool
is_exchange (exchanged i j) = true
is_exchange _ = false

-- Both partners have accepted and have an item on offer, the script agrees, each has room for the other's
-- item and the items can be taken and given, and both are idle afterwards.
pub record Consent (reachable agreed : Bool) (g : Moves) (p : ℕ) (m n : Market) : Type 0 where
  pub partner : ℕ
  pub is_partner : (m.traders p).trade_partner ≡ some partner
  pub asked : may_accept (m.traders p).trade_state ≡ true
  pub accepted : is_accept (m.traders partner).trade_state ≡ true
  pub in_sight : reachable ≡ true
  pub script : agreed ≡ true
  pub possible :
      is_success g p partner (m.traders p).trade_item (m.traders partner).trade_item ≡ true
  pub first_idle : p ≢ partner → n.traders p ≡ idle
  pub second_idle : n.traders partner ≡ idle

never : {A : Type 0} → false ≡ true → A
never e = absurd (ground arith)

accept_with-Consent :
    (reachable agreed : Bool) (g : Moves) (p : ℕ) (m : Market) (o : Option ℕ)
    → may_accept (m.traders p).trade_state ≡ true
    → (m.traders p).trade_partner ≡ o
    → is_exchange (accept_with reachable agreed g p m o).0 ≡ true
    → Consent reachable agreed g p m (accept_with reachable agreed g p m o).1
unfolding accept_with
accept_with-Consent reachable agreed g p m none a e h = never h
accept_with-Consent reachable agreed g p m (some q) a e h = elim (Bool-cases reachable) [
  | inr b ↦ never (simp b at h)
  | inl b ↦ elim (Bool-cases (is_accept (m.traders q).trade_state)) [
    | inr c ↦ never (simp (b, c) at h)
    | inl c ↦ elim (Bool-cases agreed) [
      | inr d ↦ never (simp (b, c, d) at h)
      | inl d ↦
          elim (Bool-cases (is_success g p q (m.traders p).trade_item (m.traders q).trade_item)) [
            | inr f ↦ never (simp (b, c, d, f) at h)
            | inl f ↦
                simp (b, c, d)
                  (record {
                    partner = q;
                    is_partner = e;
                    asked = a;
                    accepted = c;
                    in_sight = refl;
                    script = refl;
                    possible = f;
                    first_idle = λ n. write_first m.traders p q idle idle n;
                    second_idle = write_second m.traders p q idle idle;
                  })
          ]
    ]
  ]
]

-- Items change hands only if the player may accept, the partner has accepted already, they see each
-- other, the script agrees and both can take the other's item; then both are idle.
pub accept_trade-Consent :
    (reachable agreed : Bool) (g : Moves) (p : ℕ) (m : Market)
    → is_exchange (accept_trade reachable agreed g p m).0 ≡ true
    → Consent reachable agreed g p m (accept_trade reachable agreed g p m).1
unfolding accept_trade
accept_trade-Consent reachable agreed g p m h =
    elim (Bool-cases (may_accept (m.traders p).trade_state)) [
      | inr a ↦ never (simp a at h)
      | inl a ↦ simp a (accept_with-Consent reachable agreed g p m _ a refl (simp a at h))
    ]
