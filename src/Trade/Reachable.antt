-- ===== src/Trade/Reachable.antt =====
-- The markets that the commands lead to (src/game.cpp).
use infernum_data_pack.Base.{
  ℕ, ◌≡◌, ◌≢◌, refl, sym, Bool, false, not, List, [], Option, none, some, ◌==◌, ◌||◌, ltb, arith,
  Bool-cases, inl, inr,
}
use infernum_data_pack.Position.{are_in_range_3d}
use infernum_data_pack.Trade.{Market, idle, find, Moves}
use infernum_data_pack.Trade.Commands.{
  Surroundings, request_thing, player_request_trade, player_accept_trade, player_close_trade,
  check_offer, check_trade_state,
}
use infernum_data_pack.Trade.Partners.{Fits, FitsAt}
use infernum_data_pack.Trade.Invariant.{IsSound, if-IsSound, internal_close_trade-IsSound}
use infernum_data_pack.Trade.Steps.{Leaves, accept_trade-IsSound, request_item-IsSound}

request_thing-Leaves :
    (g : Surroundings) (p q sprite : ℕ) (m : Market)
    → IsSound m
    → p ≢ q
    → (o : Option ℕ) → Leaves (request_thing g p q sprite m o)
unfolding request_thing
request_thing-Leaves g p q sprite m h n none = record { sound = h }
request_thing-Leaves g p q sprite m h n (some i) =
    elim (Bool-cases
      (not (g.client_id i == sprite) || not (g.is_pickupable i) || g.has_unique_id i)) [
        | inl a ↦ simp a (record { sound = h })
        | inr a ↦ elim (Bool-cases (ltb (g.item_position i).z (g.position p).z)) [
          | inl b ↦ simp (a, b) (record { sound = h })
          | inr b ↦ elim (Bool-cases (ltb (g.position p).z (g.item_position i).z)) [
            | inl c ↦ simp (a, b, c) (record { sound = h })
            | inr c ↦ simp (a, b, c) (request_item-IsSound g p q i m h n)
          ]
        ]
      ]

request-Leaves :
    (g : Surroundings) (p q sprite : ℕ) (m : Market)
    → IsSound m
    → Leaves (player_request_trade g p q sprite m)
unfolding player_request_trade
request-Leaves g p q sprite m h = elim (Bool-cases (g.is_online p)) [
  | inr a ↦ simp a (record { sound = h })
  | inl a ↦ elim (Bool-cases (not (g.is_online q) || q == p)) [
    | inl b ↦ simp (a, b) (record { sound = h })
    | inr b ↦ elim (Bool-cases (are_in_range_3d 2 2 0 (g.position q) (g.position p))) [
      | inr c ↦ simp (a, b, c) (record { sound = h })
      | inl c ↦ elim (Bool-cases (g.can_throw (g.position q) (g.position p))) [
        | inr d ↦ simp (a, b, c, d) (record { sound = h })
        | inl d ↦
            simp (a, b, c, d)
              (request_thing-Leaves g p q sprite m h
                (λ k. others (not (g.is_online q)) q p b (sym k)) (g.thing))
      ]
    ]
  ]
]
  where
    others : (x : Bool) (i j : ℕ) → (x || i == j) ≡ false → i ≢ j
    others x i j e k = ground (arith, e, k)

accept-Leaves :
    (is_online : ℕ → Bool) (reachable agreed : Bool) (g : Moves) (p : ℕ) (m : Market)
    → IsSound m
    → Leaves (player_accept_trade is_online reachable agreed g p m)
unfolding player_accept_trade
accept-Leaves is_online reachable agreed g p m h = elim (Bool-cases (is_online p)) [
  | inr a ↦ simp a (record { sound = h })
  | inl a ↦ simp a (accept_trade-IsSound reachable agreed g p m h)
]

close-IsSound :
    (is_online : ℕ → Bool) (p : ℕ) (m : Market)
    → IsSound m
    → IsSound (player_close_trade is_online p m)
unfolding player_close_trade
close-IsSound is_online p m h = elim (Bool-cases (is_online p)) [
  | inr a ↦ simp a h
  | inl a ↦ simp a (internal_close_trade-IsSound p m h)
]

check-IsSound :
    (p item : ℕ) (parents : List ℕ) (m : Market)
    → IsSound m
    → IsSound (check_trade_state p item parents m)
unfolding check_trade_state
check-IsSound p item parents m h = offered ((m.traders p).trade_item)
  where
    offered : (o : Option ℕ) → IsSound (check_offer p item parents m o)
    offered none = h
    offered (some i) = if-IsSound _ m _ h (if-IsSound _ _ m (internal_close_trade-IsSound p m h) h)

-- The commands and events that touch trades, in any surroundings.
pub data Step (m : Market) : Market → Type 0 where
  request : (g : Surroundings) (p q sprite : ℕ) → Step m (player_request_trade g p q sprite m).1
  accept :
      (is_online : ℕ → Bool) (reachable agreed : Bool) (g : Moves) (p : ℕ)
      → Step m (player_accept_trade is_online reachable agreed g p m).1
  close : (is_online : ℕ → Bool) (p : ℕ) → Step m (player_close_trade is_online p m)
  item_goes : (p item : ℕ) (parents : List ℕ) → Step m (check_trade_state p item parents m)

-- At the start nobody trades.
abbrev pub opening : Market
opening = record { traders = λ p. idle; trade_items = [] }

pub data Reachable : Market → Type 0 where
  opened : Reachable opening
  stepped : {m n : Market} → Reachable m → Step m n → Reachable n

opening-IsSound : IsSound opening
unfolding Fits FitsAt find
opening-IsSound = record {
  fits = λ p. refl;
  offered = record { held = λ p i e. ground arith; listed = λ p i e. ground arith };
}

-- However the players ask, answer, accept and close, and whatever items go, the trades stay sound:
-- partners are two different players who point at each other; who has asked and not yet accepted has an
-- item on offer, who was asked has none; the two never have both accepted, nor is one in the middle of a
-- transfer; and `tradeItems` holds exactly the items that players have on offer, each under its one owner.
pub Reachable-IsSound : {m : Market} → Reachable m → IsSound m
Reachable-IsSound opened = opening-IsSound
Reachable-IsSound (stepped r s) = step_sound (Reachable-IsSound r) s
  where
    step_sound : {m n : Market} → IsSound m → Step m n → IsSound n
    step_sound {m = m} h (request g p q sprite) = (request-Leaves g p q sprite m h).sound
    step_sound {m = m} h (accept is_online reachable agreed g p) =
        (accept-Leaves is_online reachable agreed g p m h).sound
    step_sound {m = m} h (close is_online p) = close-IsSound is_online p m h
    step_sound {m = m} h (item_goes p item parents) = check-IsSound p item parents m h
