-- ===== src/Tests/World.antt =====
-- The map, what is shown of it, trades and levels (src/map.cpp, src/protocolgame.cpp, src/game.cpp,
-- src/player.cpp).
use infernum_data_pack.Base.{
  ℕ, ◌+◌, ◌≡◌, inl, inr, refl, Bool, true, false, List, [], ◌∷◌, Option, none, some, arith, length,
  ◌==◌, ◌&&◌, if◌then◌else◌,
}
use infernum_data_pack.Position.{Position}
use infernum_data_pack.WorldMap.{QTree, missing, node, levels, get_tile, set_tile, tile_or}
use infernum_data_pack.WorldMap.Leaves.{HasDepth, branch, nothing}
use infernum_data_pack.WorldMap.Writes.{get_tile-set_tile, set_tile-HasDepth}
use infernum_data_pack.View.{
  get_map_description, floors_seen, can_see, is_known, check_creature_as_known,
}
use infernum_data_pack.View.Skips.{read_places, window_places, read_places-get_map_description}
use infernum_data_pack.View.Window.{Inside, reads_tile, get_map_description-can_see}
use infernum_data_pack.View.Known.{
  distinct, KnownSet, client_knows, check_creature_as_known-client_knows,
}
use infernum_data_pack.Trade.{Market, trade_initiated, trade_accept, Moves, accept_trade}
use infernum_data_pack.Trade.Commands.{Surroundings, player_request_trade}
use infernum_data_pack.Trade.Invariant.{IsSound}
use infernum_data_pack.Trade.Reachable.{opened, stepped, request, opening, Reachable-IsSound}
use infernum_data_pack.Trade.Consent.{Consent, accept_trade-Consent}
use infernum_data_pack.Experience.{
  get_exp_for_level, Vocation, Player, add_experience, remove_experience,
}
use infernum_data_pack.Experience.Levels.{
  Settled, Deserved, Earned, add_experience-Settled, remove_experience-Earned,
}

-- The map before anything is loaded: a root with four null pointers.
abbrev root : QTree ℕ
root = node (λ i j. missing)

root-HasDepth : HasDepth levels root
root-HasDepth = branch 12 _ (λ i j. nothing 12)

get_tile-set_tile_example :
    get_tile 1000 990 7 (set_tile (λ a b. a + b) 1000 990 7 5 root)
    ≡ some (tile_or (λ a b. a + b) (get_tile 1000 990 7 root) 5)
get_tile-set_tile_example =
    get_tile-set_tile (λ a b. a + b) 1000 990 7 1000 990 7 5 root root-HasDepth (omega arith)
      (omega arith) (omega arith) (omega arith) (omega arith) (omega arith)

set_tile-HasDepth_example : HasDepth levels (set_tile (λ a b. a + b) 1000 990 7 5 root)
set_tile-HasDepth_example = set_tile-HasDepth (λ a b. a + b) 1000 990 7 5 root root-HasDepth

-- Tile 9 stands at (101, 100) on the floor 7.
abbrev lonely : ℕ → ℕ → ℕ → Option ℕ
lonely x y z = if x == 101 && y == 100 && z == 7 then some 9 else none

read_places-get_map_description_example :
    read_places
      (length (window_places lonely 100 100 7 2 2 (floors_seen 7)))
      0
      (get_map_description lonely 100 100 7 2 2)
    ≡ window_places lonely 100 100 7 2 2 (floors_seen 7)
read_places-get_map_description_example = read_places-get_map_description lonely 100 100 7 2 2

abbrev town : Position
town = record { x = 1000; y = 1000; z = 9 }

town-Inside : Inside town
town-Inside = record {
  west = omega arith;
  east = omega arith;
  north = omega arith;
  south = omega arith;
  depth = omega arith;
}

get_map_description-can_see_example : reads_tile town 1009 994 10 ≡ can_see town 1009 994 10
get_map_description-can_see_example =
    get_map_description-can_see town 1009 994 10 town-Inside (omega arith)

abbrev three_known : List ℕ
three_known = 11 ∷ 12 ∷ 13 ∷ []

three_known-KnownSet : KnownSet three_known
unfolding is_known distinct
three_known-KnownSet = record { once = refl; size = omega arith; no_zero = refl }

abbrev sees_all : ℕ → Bool
sees_all i = true

check_creature_as_known-client_knows_example :
    is_known 12 (check_creature_as_known sees_all 14 three_known).known_creature_set
    ≡ client_knows
        (check_creature_as_known sees_all 14 three_known)
        14
        (λ i. is_known i three_known)
        12
check_creature_as_known-client_knows_example =
    check_creature_as_known-client_knows sees_all 14 three_known three_known-KnownSet refl 12

-- Player 1 offers item 50 to player 2.
abbrev around : Surroundings
around = record {
  is_online = λ p. true;
  position = λ p. town;
  can_throw = λ a b. true;
  thing = some 50;
  client_id = λ i. 2000;
  is_pickupable = λ i. true;
  has_unique_id = λ i. false;
  item_position = λ i. town;
  has_path = true;
  is_container = λ i. false;
  is_holding = λ i j. false;
  item_holding_count = λ i. 0;
  agrees = λ p q i. true;
}

Reachable-IsSound_example : IsSound (player_request_trade around 1 2 2000 opening).1
Reachable-IsSound_example = Reachable-IsSound (stepped opened (request around 1 2 2000))

-- Player 2 has accepted, and player 1 is asked.
abbrev agreed_market : Market
agreed_market = record {
  traders = λ p.
      if p == 1
      then record { trade_state = trade_initiated; trade_partner = some 2; trade_item = some 50 }
      else record { trade_state = trade_accept; trade_partner = some 1; trade_item = some 60 };
  trade_items = (50, 1) ∷ (60, 2) ∷ [];
}

abbrev can_all : Moves
can_all = record { can_add = λ p i. true; can_remove = λ i. true; moves = λ p i. true }

accept_trade-Consent_example :
    Consent true true can_all 1 agreed_market (accept_trade true true can_all 1 agreed_market).1
unfolding accept_trade
accept_trade-Consent_example = accept_trade-Consent true true can_all 1 agreed_market refl

abbrev knight : Vocation
knight = record { hp_gain = 15; mana_gain = 5; cap_gain = 2500 }

abbrev beginner : Player
beginner = record {
  level = 8;
  experience = 4200;
  level_percent = 0;
  health = 185;
  health_max = 185;
  mana = 90;
  mana_max = 90;
  capacity = 47000;
}

beginner-Settled : Settled beginner
unfolding Settled get_exp_for_level
beginner-Settled = inl (omega arith)

beginner-Earned : Earned beginner
unfolding Earned get_exp_for_level
beginner-Earned = inr (omega arith)

add_experience-Settled_example :
    (q : Player) × (add_experience knight (λ e. 0) (λ e. e) 5000 beginner ≡ some q)
    × Settled q
    × Deserved beginner.level q
add_experience-Settled_example =
    add_experience-Settled knight (λ e. 0) (λ e. e) 5000 beginner beginner-Settled

remove_experience-Earned_example : Earned (remove_experience knight (λ e. e) 3000 beginner)
remove_experience-Earned_example =
    remove_experience-Earned knight (λ e. e) 3000 beginner beginner-Earned
