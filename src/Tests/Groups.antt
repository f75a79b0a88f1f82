-- ===== src/Tests/Groups.antt =====
-- A party that a player founds by inviting another one (src/game.cpp, src/party.cpp).
use infernum_data_pack.Base.{
  ℕ, ◌≡◌, ◌≢◌, ◌↔◌, ◌⊎◌, refl, subst, inl, inr, some, ◌==◌, ==→eq, Bool-cases, true, false, [],
  none, arith,
}
use infernum_data_pack.Party.{World, is_in, holds, new_party, set_party}
use infernum_data_pack.Party.Commands.{
  Moment, invite, join, run_command, player_join_party, player_invite_to_party, invite_as,
}
use infernum_data_pack.Party.Roster.{join_party, invite_player}
use infernum_data_pack.Party.Invariant.{Gone, Agrees}
use infernum_data_pack.Party.Agreement.{
  run_command-Agrees, Reachable, begin, next, elsewhere, Reachable-membership,
}
use infernum_data_pack.Party.Invariant.Lists.{times}

abbrev moment : Moment
moment = record {
  surroundings = record {
    level = λ p. 20;
    position = λ p. record { x = 100; y = 100; z = 7 };
    not_gain_in_fight = λ p. false;
    now = 0;
    pz_locked = 60000;
  };
  known = λ p. true;
  in_fight = λ p. false;
  protected = λ p. false;
  answers = record { may_join = true; may_leave = true; may_disband = true };
}

-- No party yet.
abbrev world : World
world = record {
  party = record {
    leader = 0;
    member_list = [];
    invite_list = [];
    ticks_map = [];
    shared_exp_active = false;
    shared_exp_enabled = false;
    alive = false;
  };
  party_of = λ p. none;
  invitations = λ p. [];
}

world-Gone : (p : ℕ) → Gone 1 world p
unfolding is_in holds
world-Gone p = record { outside = refl; uninvited = refl }

world-Agrees : Agrees 1 world
world-Agrees = inr (refl, world-Gone)

run_command-Agrees_example : Agrees 1 (run_command 1 moment (invite 1 10 11) world)
run_command-Agrees_example =
    run_command-Agrees 1 moment (invite 1 10 11) world refl (λ h. absurd (ground (arith, h)))
      world-Agrees

abbrev founded : World
founded = new_party 1 10 world

-- The leader invites player 11, who joins; then player 12 comes into party 5.
abbrev invited : World
invited = run_command 1 moment (invite 2 10 11) founded

abbrev joined : World
joined = run_command 1 moment (join 11 10) invited

abbrev busy : World
busy = set_party 12 (some 5) joined

joined-Reachable : Reachable 1 joined
joined-Reachable = next moment (join 11 10) invited refl tt (
    next moment (invite 2 10 11) founded refl (λ h e. omega (arith, e)) (begin 10 world world-Gone))

strangers : (p : ℕ) → is_in 1 (busy.party_of p) ≡ is_in 1 (joined.party_of p)
unfolding set_party is_in player_join_party player_invite_to_party join_party invite_as
    invite_player new_party
strangers p = elim (Bool-cases (12 == p)) [
  | inl e ↦ subst (λ q. is_in 1 (busy.party_of q) ≡ is_in 1 (joined.party_of q)) (==→eq 12 p e) refl
  | inr e ↦ simp e refl
]

same_party : busy.party ≡ joined.party
unfolding set_party
same_party = refl

same_invitations : (p : ℕ) → holds 1 (busy.invitations p) ≡ holds 1 (joined.invitations p)
unfolding set_party
same_invitations p = refl

busy-Reachable : Reachable 1 busy
busy-Reachable =
    elsewhere joined busy
      (record {
        same_party = same_party;
        same_members = strangers;
        same_invitations = same_invitations;
      })
      joined-Reachable

Reachable-membership_example : (is_in 1 (busy.party_of 11) ≡ true) ↔ (
    (busy.alive ≡ true)
    × (((busy.leader ≡ 11) × (times 11 busy.member_list ≡ 0))
        ⊎ ((busy.leader ≢ 11) × (times 11 busy.member_list ≡ 1))))
Reachable-membership_example = Reachable-membership 1 11 busy busy-Reachable

-- The player who was invited is in the party.
eleven_is_member : is_in 1 (busy.party_of 11) ≡ true
unfolding set_party is_in player_join_party player_invite_to_party join_party invite_as
    invite_player new_party
eleven_is_member = refl
