-- ===== src/Party.antt =====
-- src/party.cpp and src/party.h, with the players' halves in src/player.cpp. Players and parties are
-- known by numbers; `me` is the party that the methods belong to. What is sent to the clients is left
-- out, and the answers of the script events are arguments.
pub mod Roster
pub mod Invariant
pub mod Commands
pub mod Agreement
use infernum_data_pack.Base.{
  ℕ, zero, suc, ◌+◌, ◌-◌, ◌*◌, ◌/◌, Bool, true, false, not, List, [], ◌∷◌, ◌++◌, Option, none, some,
  length, ltb, leb, ◌==◌, ◌&&◌, ◌||◌, if◌then◌else◌, max,
}
use infernum_data_pack.Position.{Position, are_in_range_3d}

pub record Party : Type 0 where
  pub leader : ℕ
  pub member_list : List ℕ
  pub invite_list : List ℕ
  pub ticks_map : List (ℕ × ℕ)
  pub shared_exp_active : Bool
  pub shared_exp_enabled : Bool
  -- `false` from `delete this` on.
  pub alive : Bool

-- The party and what the players know of parties: `Player::party` and `Player::invitePartyList`.
pub record World : Type 0 where
  pub party : Party
  pub open party use *
  pub party_of : ℕ → Option ℕ
  pub invitations : ℕ → List ℕ

-- What the shared experience depends on besides the party.
pub record Surroundings : Type 0 where
  pub level : ℕ → ℕ
  pub position : ℕ → Position
  -- `PlayerFlag_NotGainInFight`
  pub not_gain_in_fight : ℕ → Bool
  pub now : ℕ
  pub pz_locked : ℕ

unfoldable pub holds : ℕ → List ℕ → Bool
holds p [] = false
holds p (q ∷ qs) = if q == p then true else holds p qs

-- `std::find` and `erase`: the first occurrence goes.
unfoldable pub erase : ℕ → List ℕ → List ℕ
erase p [] = []
erase p (q ∷ qs) = if q == p then qs else q ∷ erase p qs

-- `std::list::remove`: every occurrence goes.
unfoldable pub remove_all : ℕ → List ℕ → List ℕ
remove_all p [] = []
remove_all p (q ∷ qs) = let rest = remove_all p qs in if q == p then rest else q ∷ rest

abbrev pub write {ℓ} : {A : Type ℓ} → (ℕ → A) → ℕ → A → ℕ → A
write f p v q = if p == q then v else f q

abbrev pub is_nil {ℓ} : {A : Type ℓ} → List A → Bool
is_nil [] = true
is_nil (x ∷ xs) = false

-- `getParty() == this`
unfoldable pub is_in : ℕ → Option ℕ → Bool
is_in me none = false
is_in me (some q) = q == me

unfoldable pub set_party : ℕ → Option ℕ → World → World
set_party p v w = record w { party_of = write w.party_of p v }

unfoldable pub add_party_invitation : ℕ → ℕ → World → World
unfolding holds
add_party_invitation me p w =
    if holds me (w.invitations p)
    then w
    else record w { invitations = write w.invitations p (me ∷ w.invitations p) }

unfoldable pub remove_party_invitation : ℕ → ℕ → World → World
unfolding remove_all
remove_party_invitation me p w = record w {
  invitations = write w.invitations p (remove_all me (w.invitations p));
}

unfoldable pub is_empty : Party → Bool
is_empty q = is_nil q.member_list && is_nil q.invite_list

unfoldable pub is_player_invited : ℕ → Party → Bool
unfolding holds
is_player_invited p q = holds p q.invite_list

-- `Party::Party`
unfoldable pub new_party : ℕ → ℕ → World → World
unfolding set_party
new_party me leader w = set_party leader (some me) (record w {
  party = record {
    leader = leader;
    member_list = [];
    invite_list = [];
    ticks_map = [];
    shared_exp_active = false;
    shared_exp_enabled = false;
    alive = true;
  };
})

unfoldable pub find_ticks : ℕ → List (ℕ × ℕ) → Option ℕ
find_ticks p [] = none
find_ticks p ((q, t) ∷ ts) = if q == p then some t else find_ticks p ts

unfoldable pub erase_ticks : ℕ → List (ℕ × ℕ) → List (ℕ × ℕ)
erase_ticks p [] = []
erase_ticks p ((q, t) ∷ ts) = if q == p then ts else (q, t) ∷ erase_ticks p ts

unfoldable pub assign_ticks : ℕ → ℕ → List (ℕ × ℕ) → List (ℕ × ℕ)
assign_ticks p t [] = (p, t) ∷ []
assign_ticks p t ((q, u) ∷ ts) = if q == p then (q, t) ∷ ts else (q, u) ∷ assign_ticks p t ts

unfoldable pub highest_level : (ℕ → ℕ) → ℕ → List ℕ → ℕ
highest_level level h [] = h
highest_level level h (p ∷ ps) = highest_level level (if ltb h (level p) then level p else h) ps

-- `ceil((float)highestLevel * 2 / 3)`, which a `float` computes exactly for the levels of the game.
abbrev pub min_level : ℕ → ℕ
min_level h = (h * 2 + 2) / 3

-- `timeDiff` is unsigned: a tick that lies in the future makes it large.
unfoldable pub is_recent : Surroundings → Option ℕ → Bool
is_recent e none = false
is_recent e (some t) = if ltb e.now t then false else leb (e.now - t) e.pz_locked

unfoldable pub can_use_shared_experience : Surroundings → Party → ℕ → Bool
unfolding highest_level is_recent find_ticks are_in_range_3d
can_use_shared_experience e q p =
    if is_nil q.member_list
    then false
    else if ltb (e.level p) (min_level (highest_level e.level (e.level q.leader) q.member_list))
    then false
    else if not (are_in_range_3d 30 30 1 (e.position q.leader) (e.position p))
    then false
    else if not (e.not_gain_in_fight p)
    then is_recent e (find_ticks p q.ticks_map)
    else true

unfoldable pub all_can_use : Surroundings → Party → List ℕ → Bool
unfolding can_use_shared_experience
all_can_use e q [] = true
all_can_use e q (p ∷ ps) = can_use_shared_experience e q p && all_can_use e q ps

unfoldable pub can_enable_shared_experience : Surroundings → Party → Bool
unfolding can_use_shared_experience all_can_use
can_enable_shared_experience e q =
    can_use_shared_experience e q q.leader && all_can_use e q q.member_list

unfoldable pub update_shared_experience : Surroundings → Party → Party
unfolding can_enable_shared_experience
update_shared_experience e q =
    if q.shared_exp_active
    then record q { shared_exp_enabled = can_enable_shared_experience e q }
    else q

unfoldable pub set_shared_experience : Surroundings → ℕ → Bool → Party → Party × Bool
unfolding can_enable_shared_experience
set_shared_experience e p active q =
    if not (q.leader == p)
    then (q, false)
    else if (if q.shared_exp_active then active else not active)
    then (q, true)
    else (let q' = record q { shared_exp_active = active } in
        if active
        then (record q' { shared_exp_enabled = can_enable_shared_experience e q' }, true)
        else (q', true))

unfoldable pub update_player_ticks : Surroundings → ℕ → ℕ → Party → Party
unfolding update_shared_experience assign_ticks
update_player_ticks e p points q =
    if not (points == 0) && not (e.not_gain_in_fight p)
    then update_shared_experience e (record q { ticks_map = assign_ticks p e.now q.ticks_map })
    else q

abbrev is_found {ℓ} : {A : Type ℓ} → Option A → Bool
is_found none = false
is_found (some a) = true

unfoldable pub clear_player_points : Surroundings → ℕ → Party → Party
unfolding update_shared_experience erase_ticks find_ticks
clear_player_points e p q =
    if is_found (find_ticks p q.ticks_map)
    then update_shared_experience e (record q { ticks_map = erase_ticks p q.ticks_map })
    else q
