-- ===== src/Trade.antt =====
-- Trades between two players: `internalStartTrade`, `playerAcceptTrade` and `internalCloseTrade` of
-- src/game.cpp, with the players' fields `tradeState`, `tradePartner` and `tradeItem` of src/player.h.
-- Players and items are known by numbers. What is sent to the clients is left out.
pub mod Commands
pub mod Offers
pub mod Partners
pub mod Invariant
pub mod Starting
pub mod Steps
pub mod Reachable
pub mod Consent
use infernum_data_pack.Base.{
  ℕ, Bool, true, false, not, List, [], ◌∷◌, Option, none, some, ◌==◌, ◌&&◌, ◌||◌, if◌then◌else◌,
}

-- `tradestate_t`
pub data TradeState : Type 0 where
  trade_none : TradeState
  trade_initiated : TradeState
  trade_accept : TradeState
  trade_acknowledge : TradeState
  trade_transfer : TradeState

pub record Trader : Type 0 where
  pub trade_state : TradeState
  pub trade_partner : Option ℕ
  pub trade_item : Option ℕ

-- The players, and `Game::tradeItems`: the items on offer and who offers them.
pub record Market : Type 0 where
  pub traders : ℕ → Trader
  pub trade_items : List (ℕ × ℕ)

abbrev pub idle : Trader
idle = record { trade_state = trade_none; trade_partner = none; trade_item = none }

abbrev pub write {ℓ} : {A : Type ℓ} → (ℕ → A) → ℕ → A → ℕ → A
write f p v q = if p == q then v else f q

-- Operations of `std::map`.
unfoldable pub find : ℕ → List (ℕ × ℕ) → Option ℕ
find i [] = none
find i (e ∷ es) = if e.0 == i then some e.1 else find i es

unfoldable pub erase : ℕ → List (ℕ × ℕ) → List (ℕ × ℕ)
erase i [] = []
erase i (e ∷ es) = let rest = erase i es in if e.0 == i then rest else e ∷ rest

abbrev pub put : ℕ → ℕ → List (ℕ × ℕ) → List (ℕ × ℕ)
put i p es = (i, p) ∷ erase i es

abbrev pub is_none : TradeState → Bool
is_none trade_none = true
is_none _ = false

abbrev pub is_accept : TradeState → Bool
is_accept trade_accept = true
is_accept _ = false

abbrev pub is_acknowledge : TradeState → Bool
is_acknowledge trade_acknowledge = true
is_acknowledge _ = false

abbrev pub is_transfer : TradeState → Bool
is_transfer trade_transfer = true
is_transfer _ = false

-- Whether the pointer is to player `q`.
abbrev pub is_player : Option ℕ → ℕ → Bool
is_player none q = false
is_player (some p) q = p == q

-- What `internalStartTrade` answers.
pub data StartReply : Type 0 where
  you_are_already_trading : StartReply
  this_player_is_already_trading : StartReply
  started : StartReply

unfoldable pub internal_start_trade : ℕ → ℕ → ℕ → Market → StartReply × Market
internal_start_trade player partner item m =
    let t = m.traders player in
    let u = m.traders partner in
    if not (is_none t.trade_state)
      && not (is_acknowledge t.trade_state && is_player t.trade_partner partner)
    then (you_are_already_trading, m)
    else if not (is_none u.trade_state) && not (is_player u.trade_partner player)
    then (this_player_is_already_trading, m)
    else (
      started,
      record {
        traders =
            write
              (write m.traders player (record {
                trade_state = trade_initiated;
                trade_partner = some partner;
                trade_item = some item;
              }))
              partner
              (if is_none u.trade_state
                then record u { trade_state = trade_acknowledge; trade_partner = some player }
                else u);
        trade_items = put item player m.trade_items;
      },
    )

-- An item that is on offer is taken off the offers.
unfoldable pub release : Option ℕ → List (ℕ × ℕ) → List (ℕ × ℕ)
unfolding erase
release none es = es
release (some i) es = erase i es

-- The rest of `internalCloseTrade`, by the player's partner
unfoldable pub close_with : ℕ → Market → Option ℕ → Market
unfolding release
close_with player m none =
    let t = m.traders player in
    if is_transfer t.trade_state then m else record {
      traders = write m.traders player idle;
      trade_items = release t.trade_item m.trade_items;
    }
close_with player m (some partner) =
    let t = m.traders player in
    let u = m.traders partner in
    if is_transfer u.trade_state || is_transfer t.trade_state then m else record {
      traders = write (write m.traders player idle) partner idle;
      trade_items = release u.trade_item (release t.trade_item m.trade_items);
    }

unfoldable pub internal_close_trade : ℕ → Market → Market
unfolding close_with
internal_close_trade player m = close_with player m ((m.traders player).trade_partner)

-- What the game answers while the items change hands: the tests with `internalAddItem`, which refuses
-- a null item itself, then `internalRemoveItem` and `internalMoveItem`.
pub record Moves : Type 0 where
  pub can_add : ℕ → ℕ → Bool
  pub can_remove : ℕ → Bool
  pub moves : ℕ → ℕ → Bool

abbrev pub is_some_and : Option ℕ → (ℕ → Bool) → Bool
is_some_and none f = false
is_some_and (some i) f = f i

-- `isSuccess`, for the items of the player and of the partner
unfoldable pub is_success : Moves → ℕ → ℕ → Option ℕ → Option ℕ → Bool
is_success g player partner item1 item2 = is_some_and item1 (λ i. is_some_and item2 (λ j.
    g.can_add partner i
    && g.can_add player j
    && g.can_remove i
    && g.can_remove j
    && g.moves partner i))

pub data AcceptReply : Type 0 where
  ignored : AcceptReply
  creature_is_not_reachable : AcceptReply
  waiting : AcceptReply
  cancelled : AcceptReply
  failed : AcceptReply
  exchanged : Option ℕ → Option ℕ → AcceptReply

abbrev pub set_trade_state : TradeState → Trader → Trader
set_trade_state s t = record t { trade_state = s }

-- The states in which a player may accept.
abbrev pub may_accept : TradeState → Bool
may_accept trade_acknowledge = true
may_accept trade_initiated = true
may_accept _ = false

-- The rest of `playerAcceptTrade`, by the player's partner. While the items move, both traders are in
-- `TRADE_TRANSFER`.
unfoldable pub accept_with : Bool → Bool → Moves → ℕ → Market → Option ℕ → AcceptReply × Market
unfolding internal_close_trade release is_success
accept_with reachable agreed g player m none = (ignored, m)
accept_with reachable agreed g player m (some partner) =
    let t = m.traders player in
    let u = m.traders partner in
    let accepted = record m { traders = write m.traders player (set_trade_state trade_accept t) } in
    if not reachable
    then (creature_is_not_reachable, m)
    else if not (is_accept u.trade_state)
    then (waiting, accepted)
    else if not agreed
    then (cancelled, internal_close_trade player accepted)
    else (
      (if is_success g player partner t.trade_item u.trade_item
          then exchanged t.trade_item u.trade_item
          else failed),
      record {
        traders = write (write m.traders player idle) partner idle;
        trade_items = release u.trade_item (release t.trade_item m.trade_items);
      },
    )

-- `playerAcceptTrade` of a player in the game. `reachable` is `canThrowObjectTo`, `agreed` the answer of
-- `eventPlayerOnTradeAccept`.
unfoldable pub accept_trade : Bool → Bool → Moves → ℕ → Market → AcceptReply × Market
unfolding accept_with
accept_trade reachable agreed g player m =
    if may_accept (m.traders player).trade_state
    then accept_with reachable agreed g player m ((m.traders player).trade_partner)
    else (ignored, m)
