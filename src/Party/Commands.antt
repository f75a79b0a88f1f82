-- ===== src/Party/Commands.antt =====
-- The commands of the players that reach a party: the handlers of src/game.cpp that call src/party.cpp.
-- A command that turns out to be about another party than `me` leaves `me` and what points to it alone.
use infernum_data_pack.Base.{
  ℕ, Bool, true, false, not, Option, none, some, ◌==◌, ◌&&◌, ◌||◌, if◌then◌else◌,
}
use infernum_data_pack.Party.{
  World, Surroundings, is_in, is_player_invited, add_party_invitation, set_party, new_party,
  set_shared_experience,
}
use infernum_data_pack.Party.Roster.{
  invite_player, join_party, remove_invite, pass_party_leadership, leave_party,
}

-- The answers of the script events.
pub record Answers : Type 0 where
  pub may_join : Bool
  pub may_leave : Bool
  pub may_disband : Bool

abbrev pub has_party : Option ℕ → Bool
has_party none = false
has_party (some q) = true

-- `Player::isInviting`, of a player `p` whose party is `me`.
unfoldable pub is_inviting : ℕ → ℕ → ℕ → World → Bool
unfolding is_in is_player_invited
is_inviting me p q w = is_in me (w.party_of p) && w.leader == p && is_player_invited q w.party

-- `Player::isPartner`, of a player `p` whose party is `me`.
unfoldable pub is_partner : ℕ → ℕ → ℕ → World → Bool
unfolding is_in
is_partner me p q w = is_in me (w.party_of p) && not (q == p) && is_in me (w.party_of q)

-- The end of `playerInviteToParty`: `new Party(player)` is the object `fresh`.
unfoldable pub invite_as : ℕ → ℕ → ℕ → ℕ → World → Option ℕ → World
unfolding new_party invite_player add_party_invitation set_party
invite_as me fresh p q w none =
    if fresh == me
    then (invite_player me q (new_party me p w)).0
    else add_party_invitation fresh q (set_party p (some fresh) w)
invite_as me fresh p q w (some r) =
    if not (r == me) then w else if not (w.leader == p) then w else (invite_player me q w).0

-- `known` says for which identifiers `getPlayerByID` finds a player.
unfoldable pub player_invite_to_party : ℕ → ℕ → (ℕ → Bool) → ℕ → ℕ → World → World
unfolding is_inviting invite_as
player_invite_to_party me fresh known p q w =
    if p == q
    then w
    else if not (known p)
    then w
    else if not (known q) || is_inviting me q p w
    then w
    else if has_party (w.party_of q)
    then w
    else invite_as me fresh p q w (w.party_of p)

unfoldable pub player_join_party : ℕ → Surroundings → (ℕ → Bool) → Answers → ℕ → ℕ → World → World
unfolding is_inviting join_party
player_join_party me e known answers p leader w =
    if not (known p)
    then w
    else if not (known leader) || not (is_inviting me leader p w)
    then w
    else if has_party (w.party_of p)
    then w
    else (join_party me e (answers.may_join) p w).0

unfoldable pub player_revoke_party_invitation : ℕ → (ℕ → Bool) → Answers → ℕ → ℕ → World → World
unfolding is_in is_inviting remove_invite
player_revoke_party_invitation me known answers p q w =
    if not (known p)
    then w
    else if not (is_in me (w.party_of p)) || not (w.leader == p)
    then w
    else if not (known q) || not (is_inviting me p q w)
    then w
    else (remove_invite me (answers.may_disband) q w).0

unfoldable pub player_pass_party_leadership : ℕ → Surroundings → (ℕ → Bool) → ℕ → ℕ → World → World
unfolding is_in is_partner pass_party_leadership
player_pass_party_leadership me e known p q w =
    if not (known p)
    then w
    else if not (is_in me (w.party_of p)) || not (w.leader == p)
    then w
    else if not (known q) || not (is_partner me p q w)
    then w
    else (pass_party_leadership me e q w).0

-- `in_fight` is `hasCondition(CONDITION_INFIGHT)`.
unfoldable pub player_leave_party :
    ℕ → Surroundings → (ℕ → Bool) → (ℕ → Bool) → Answers → ℕ → World → World
unfolding is_in leave_party
player_leave_party me e known in_fight answers p w =
    if not (known p)
    then w
    else if not (is_in me (w.party_of p)) || in_fight p
    then w
    else (leave_party me e (answers.may_leave) (answers.may_disband) p w).0

-- `protected` is `getZone() == ZONE_PROTECTION`.
unfoldable pub player_enable_shared_party_experience :
    ℕ → Surroundings → (ℕ → Bool) → (ℕ → Bool) → (ℕ → Bool) → ℕ → Bool → World → World
unfolding is_in set_shared_experience
player_enable_shared_party_experience me e known in_fight protected p active w =
    if not (known p)
    then w
    else if not (is_in me (w.party_of p)) || (in_fight p && not (protected p))
    then w
    else record w { party = (set_shared_experience e p active w.party).0 }

pub data Command : Type 0 where
  invite : (fresh p q : ℕ) → Command
  join : (p leader : ℕ) → Command
  revoke : (p q : ℕ) → Command
  pass : (p q : ℕ) → Command
  leave : (p : ℕ) → Command
  share : (p : ℕ) → (active : Bool) → Command

-- What the commands of one moment depend on besides the party.
pub record Moment : Type 0 where
  pub surroundings : Surroundings
  pub known : ℕ → Bool
  pub in_fight : ℕ → Bool
  pub protected : ℕ → Bool
  pub answers : Answers

abbrev pub run_command : ℕ → Moment → Command → World → World
run_command me m (invite fresh p q) = player_invite_to_party me fresh (m.known) p q
run_command me m (join p l) = player_join_party me (m.surroundings) (m.known) (m.answers) p l
run_command me m (revoke p q) = player_revoke_party_invitation me (m.known) (m.answers) p q
run_command me m (pass p q) = player_pass_party_leadership me (m.surroundings) (m.known) p q
run_command me m (leave p) =
    player_leave_party me (m.surroundings) (m.known) (m.in_fight) (m.answers) p
run_command me m (share p active) =
    player_enable_shared_party_experience me (m.surroundings) (m.known) (m.in_fight) (m.protected) p
      active
