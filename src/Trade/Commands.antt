-- ===== src/Trade/Commands.antt =====
-- The commands that lead to a trade: `playerRequestTrade`, `playerAcceptTrade` and `playerCloseTrade` of
-- src/game.cpp and `Player::checkTradeState` of src/player.cpp.
use infernum_data_pack.Base.{
  ℕ, ◌+◌, Bool, true, false, not, List, [], ◌∷◌, Option, none, some, ◌==◌, ◌&&◌, ◌||◌, ltb,
  if◌then◌else◌,
}
use infernum_data_pack.Position.{Position, are_in_range, are_in_range_3d}
use infernum_data_pack.Trade.{
  Market, is_transfer, StartReply, internal_start_trade, internal_close_trade, Moves, AcceptReply,
  ignored, accept_trade,
}

-- What the commands ask of the game: the players, their places, and the items.
pub record Surroundings : Type 0 where
  pub is_online : ℕ → Bool
  pub position : ℕ → Position
  -- `canThrowObjectTo`
  pub can_throw : Position → Position → Bool
  -- `internalGetThing` at the place and stack position of the request
  pub thing : Option ℕ
  pub client_id : ℕ → ℕ
  pub is_pickupable : ℕ → Bool
  pub has_unique_id : ℕ → Bool
  pub item_position : ℕ → Position
  -- `getPathTo` the place of the request
  pub has_path : Bool
  -- `getContainer`, `isHoldingItem` and `getItemHoldingCount`
  pub is_container : ℕ → Bool
  pub is_holding : ℕ → ℕ → Bool
  pub item_holding_count : ℕ → ℕ
  -- `eventPlayerOnTradeRequest`
  pub agrees : ℕ → ℕ → ℕ → Bool

-- What `playerRequestTrade` answers; `walking` when the player walks first and asks again.
pub data RequestReply : Type 0 where
  nothing_said : RequestReply
  sorry_not_possible : RequestReply
  move_closer : RequestReply
  not_reachable : RequestReply
  not_possible : RequestReply
  first_go_upstairs : RequestReply
  first_go_downstairs : RequestReply
  walking : RequestReply
  there_is_no_way : RequestReply
  already_being_traded : RequestReply
  more_than_100_items : RequestReply
  answered : StartReply → RequestReply

-- One round of the loops over `tradeItems`.
abbrev pub clashes : Surroundings → ℕ → ℕ → Bool
clashes g item other =
    item == other
    || (g.is_container item && g.is_holding item other)
    || (g.is_container other && g.is_holding other item)

unfoldable pub is_being_traded : Surroundings → ℕ → List (ℕ × ℕ) → Bool
is_being_traded g item [] = false
is_being_traded g item (e ∷ es) = if clashes g item e.0 then true else is_being_traded g item es

-- From the walk to the item on.
unfoldable pub request_item : Surroundings → ℕ → ℕ → ℕ → Market → RequestReply × Market
unfolding is_being_traded internal_start_trade
request_item g player partner item m =
    if not (are_in_range 1 1 (g.item_position item) (g.position player))
    then ((if g.has_path then walking else there_is_no_way), m)
    else if is_being_traded g item m.trade_items
    then (already_being_traded, m)
    else if g.is_container item && ltb 100 (g.item_holding_count item + 1)
    then (more_than_100_items, m)
    else if not (g.agrees player partner item)
    then (nothing_said, m)
    else (let r = internal_start_trade player partner item m in (answered r.0, r.1))

-- From the thing on, that stands at the place of the request
unfoldable pub request_thing : Surroundings → ℕ → ℕ → ℕ → Market → Option ℕ → RequestReply × Market
unfolding request_item
request_thing g player partner sprite m none = (not_possible, m)
request_thing g player partner sprite m (some item) =
    if not (g.client_id item == sprite) || not (g.is_pickupable item) || g.has_unique_id item
    then (not_possible, m)
    else if ltb (g.item_position item).z (g.position player).z
    then (first_go_upstairs, m)
    else if ltb (g.position player).z (g.item_position item).z
    then (first_go_downstairs, m)
    else request_item g player partner item m

unfoldable pub player_request_trade : Surroundings → ℕ → ℕ → ℕ → Market → RequestReply × Market
unfolding request_thing
player_request_trade g player partner sprite m =
    if not (g.is_online player)
    then (nothing_said, m)
    else if not (g.is_online partner) || partner == player
    then (sorry_not_possible, m)
    else if not (are_in_range_3d 2 2 0 (g.position partner) (g.position player))
    then (move_closer, m)
    else if not (g.can_throw (g.position partner) (g.position player))
    then (not_reachable, m)
    else request_thing g player partner sprite m g.thing

unfoldable pub player_accept_trade :
    (ℕ → Bool) → Bool → Bool → Moves → ℕ → Market → AcceptReply × Market
unfolding accept_trade
player_accept_trade is_online reachable agreed g player m =
    if not (is_online player) then (ignored, m) else accept_trade reachable agreed g player m

unfoldable pub player_close_trade : (ℕ → Bool) → ℕ → Market → Market
unfolding internal_close_trade
player_close_trade is_online player m =
    if not (is_online player) then m else internal_close_trade player m

-- `checkTradeState` of an item that goes; `parents` are the containers that it lies in.
unfoldable pub stands_in : ℕ → List ℕ → Bool
stands_in item [] = false
stands_in item (c ∷ cs) = if c == item then true else stands_in item cs

unfoldable pub check_offer : ℕ → ℕ → List ℕ → Market → Option ℕ → Market
unfolding internal_close_trade stands_in
check_offer player item parents m none = m
check_offer player item parents m (some offer) =
    if is_transfer (m.traders player).trade_state
    then m
    else if offer == item || stands_in offer parents
    then internal_close_trade player m
    else m

unfoldable pub check_trade_state : ℕ → ℕ → List ℕ → Market → Market
unfolding check_offer
check_trade_state player item parents m =
    check_offer player item parents m ((m.traders player).trade_item)
