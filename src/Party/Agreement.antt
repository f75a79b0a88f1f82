-- ===== src/Party/Agreement.antt =====
-- Every command of a player keeps the party and the players in agreement (src/game.cpp, src/party.cpp).
pub mod Leaving
pub mod Membership
pub mod Handlers
use infernum_data_pack.Base.{ℕ, ◌≡◌, ◌≢◌, ◌↔◌, ◌⊎◌, inl, inr, true, ◌∙◌, arith}
use infernum_data_pack.Party.{World, is_in, holds, new_party}
use infernum_data_pack.Party.Commands.{
  Command, Moment, invite, join, revoke, pass, leave, share, run_command,
}
use infernum_data_pack.Party.Invariant.{Gone, Agrees}
use infernum_data_pack.Party.Invariant.Lists.{times}
use infernum_data_pack.Party.Invariant.Steps.{new_party-Agrees}
use infernum_data_pack.Party.Agreement.Handlers.{
  player_join_party-Agrees, player_revoke_party_invitation-Agrees,
  player_pass_party_leadership-Agrees, player_leave_party-Agrees, player_invite_to_party-Agrees,
  player_share-Agrees,
}

-- `new Party` gives no address that a party has.
abbrev pub IsFreshIn : ℕ → World → Command → Type 0
IsFreshIn me w (invite fresh p q) = w.alive ≡ true → fresh ≢ me
IsFreshIn me w (join p leader) = Unit
IsFreshIn me w (revoke p q) = Unit
IsFreshIn me w (pass p q) = Unit
IsFreshIn me w (leave p) = Unit
IsFreshIn me w (share p active) = Unit

-- Any command of any player, members and strangers alike, leaves the party and the players in agreement
-- when they were: every member and no one else points to a live party, every invitation stands on both
-- sides, and when the party is disbanded nothing points to it. The script must not veto the disbanding,
-- and a new party must not get the address of the live one.
pub run_command-Agrees :
    (me : ℕ) (m : Moment) (c : Command) (w : World)
    → m.answers.may_disband ≡ true
    → IsFreshIn me w c
    → Agrees me w
    → Agrees me (run_command me m c w)
run_command-Agrees me m (invite fresh p q) w allowed new a =
    player_invite_to_party-Agrees me fresh (m.known) p q w new a
run_command-Agrees me m (join p leader) w allowed new a =
    player_join_party-Agrees me (m.surroundings) (m.known) (m.answers) p leader w a
run_command-Agrees me m (revoke p q) w allowed new a =
    player_revoke_party_invitation-Agrees me (m.known) (m.answers) p q w allowed a
run_command-Agrees me m (pass p q) w allowed new a =
    player_pass_party_leadership-Agrees me (m.surroundings) (m.known) p q w a
run_command-Agrees me m (leave p) w allowed new a =
    player_leave_party-Agrees me (m.surroundings) (m.known) (m.in_fight) (m.answers) p w allowed a
run_command-Agrees me m (share p active) w allowed new a =
    player_share-Agrees me (m.surroundings) (m.known) (m.in_fight) (m.protected) p active w a

-- What happens to other parties: who is in `me` and who is invited to it stays.
pub record IsElsewhere (me : ℕ) (w v : World) : Type 0 where
  pub same_party : v.party ≡ w.party
  pub same_members : (p : ℕ) → is_in me (v.party_of p) ≡ is_in me (w.party_of p)
  pub same_invitations : (p : ℕ) → holds me (v.invitations p) ≡ holds me (w.invitations p)

elsewhere-Agrees : (me : ℕ) (w v : World) → IsElsewhere me w v → Agrees me w → Agrees me v
elsewhere-Agrees me w v same (inl (alive, a)) = inl (
  rw same.same_party alive,
  λ p. record {
    once = rw same.same_party (a p).once;
    apart = rw same.same_party (a p).apart;
    belongs = rw (same.same_members p, same.same_party) (a p).belongs;
    invited_once = rw same.same_party (a p).invited_once;
    invited = rw (same.same_invitations p, same.same_party) (a p).invited;
  },
)
elsewhere-Agrees me w v same (inr (dead, g)) = inr (
  rw same.same_party dead,
  λ p. record {
    outside = same.same_members p ∙ (g p).outside;
    uninvited = same.same_invitations p ∙ (g p).uninvited;
  },
)

-- The worlds that a party comes to after its founding. One command follows the other, and between them
-- anything may happen to other parties. The script does not veto the disbanding, and a new party does
-- not get the address of the live one.
pub data Reachable (me : ℕ) : World → Type 0 where
  begin : (leader : ℕ) (w : World) → ((p : ℕ) → Gone me w p) → Reachable me (new_party me leader w)
  next :
      (m : Moment) (c : Command) (w : World)
      → m.answers.may_disband ≡ true
      → IsFreshIn me w c
      → Reachable me w
      → Reachable me (run_command me m c w)
  elsewhere : (w v : World) → IsElsewhere me w v → Reachable me w → Reachable me v

-- From its founding on, after any number of commands, the party and the players agree.
pub Reachable-Agrees : (me : ℕ) (w : World) → Reachable me w → Agrees me w
Reachable-Agrees me _ (begin leader w gone) = new_party-Agrees me leader w gone
Reachable-Agrees me _ (next m c w allowed new before) =
    run_command-Agrees me m c w allowed new (Reachable-Agrees me w before)
Reachable-Agrees me _ (elsewhere w v same before) =
    elsewhere-Agrees me w v same (Reachable-Agrees me w before)

-- From the founding of a party on, after any number of commands, between which players may join and leave
-- other parties, a player points to the party exactly when it is alive and has him as its leader or once in
-- its member list, and not both; so nobody points to a party that was disbanded. No script vetoes the
-- disbanding, and a new party does not get the address of the live one.
pub Reachable-membership :
    (me p : ℕ) (w : World)
    → Reachable me w
    → (is_in me (w.party_of p) ≡ true) ↔ (
        (w.alive ≡ true)
        × (((w.leader ≡ p) × (times p w.member_list ≡ 0))
            ⊎ ((w.leader ≢ p) × (times p w.member_list ≡ 1))))
Reachable-membership me p w r = elim (Reachable-Agrees me w r) [
  | inl (alive, a) ↦ (
    λ h. (alive, ground (arith, h, (a p).once, (a p).apart, (a p).belongs)),
    λ h. ground (arith, h.1, (a p).belongs),
  )
  | inr (dead, g) ↦
      (λ h. absurd (ground (arith, h, (g p).outside)), λ h. absurd (ground (arith, h.0, dead)))
]
