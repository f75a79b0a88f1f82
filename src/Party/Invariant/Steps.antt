-- ===== src/Party/Invariant/Steps.antt =====
-- Each method of src/party.cpp keeps the party and its players in agreement.
use infernum_data_pack.Base.{
  ℕ, ◌≡◌, refl, ap, ◌∙◌, inl, Bool, true, false, not, none, arith, ◌==◌, ◌||◌, ◌&&◌, ltb,
  if◌then◌else◌,
}
use infernum_data_pack.Party.{
  Party, World, Surroundings, holds, is_in, set_party, remove_party_invitation,
  update_shared_experience, clear_player_points, new_party,
}
use infernum_data_pack.Party.Roster.{
  withdraw_all, release_all, disband, pass_party_leadership, drop_member, join_party,
  withdraw_invite, invite_player,
}
use infernum_data_pack.Party.Invariant.{At, Gone, Agrees}
use infernum_data_pack.Party.Invariant.Lists.{
  times, holds-times, times-erase, times-append_one, holds-remove_all, withdraw_all_fields,
  withdraw_all-invitations, release_all_fields, release_all-party_of,
}

-- Two parties with the same people.
abbrev SamePeople : Party → Party → Type 0
SamePeople q r =
    (q.leader ≡ r.leader)
    × (q.member_list ≡ r.member_list)
    × (q.invite_list ≡ r.invite_list)
    × (q.alive ≡ r.alive)

update_people : (e : Surroundings) (q : Party) → SamePeople (update_shared_experience e q) q
unfolding update_shared_experience
update_people e q = ground arith

clear_people : (e : Surroundings) (p : ℕ) (q : Party) → SamePeople (clear_player_points e p q) q
unfolding clear_player_points
clear_people e p q = ground arith

-- A new party, founded by a player who was in none and when nobody knew of it.
pub new_party-Agrees :
    (me leader : ℕ) (w : World) → ((p : ℕ) → Gone me w p) → Agrees me (new_party me leader w)
unfolding new_party is_in times
new_party-Agrees me leader w gone = inl (
  refl,
  λ p. record {
    once = omega arith;
    apart = ground arith;
    belongs = ground (arith, (gone p).outside);
    invited_once = omega arith;
    invited = (gone p).uninvited;
  },
)

pub invite_player-At :
    (me q p : ℕ) (w : World) → At me w p → At me w q → At me (invite_player me q w).0 p
unfolding invite_player holds
invite_player-At me q p w a b = record {
  once = ground (arith, a);
  apart = ground (arith, a);
  belongs = ground (arith, a);
  invited_once =
      ground
        (arith, a.invited_once, times-append_one p q w.invite_list, holds-times q w.invite_list);
  invited = ground (
    arith,
    a.invited,
    b.invited,
    times-append_one p q w.invite_list,
    holds-times q w.invite_list,
  );
}

pub join_party-At :
    (me q p : ℕ) (e : Surroundings) (may_join : Bool) (w : World)
    → At me w p
    → At me w q
    → is_in me (w.party_of q) ≡ false
    → At me (join_party me e may_join q w).0 p
unfolding join_party set_party remove_party_invitation update_shared_experience is_in
join_party-At me q p e may_join w a b out = record {
  once = ground (arith, a.once, b.belongs, out, times-append_one p q w.member_list);
  apart = ground (arith, a.apart, b.belongs, out, times-append_one p q w.member_list);
  belongs = ground (arith, a.belongs, b.belongs, out, times-append_one p q w.member_list);
  invited_once = ground (arith, a.invited_once, times-erase p q w.invite_list);
  invited = ground (
    arith,
    a.invited,
    a.invited_once,
    b.invited,
    times-erase p q w.invite_list,
    holds-times q w.invite_list,
    holds-remove_all me me (w.invitations q),
  );
}

pub withdraw_invite-At : (me q p : ℕ) (w : World) → At me w p → At me (withdraw_invite me q w) p
unfolding withdraw_invite remove_party_invitation
withdraw_invite-At me q p w a = record {
  once = ground (arith, a.once);
  apart = ground (arith, a.apart);
  belongs = ground (arith, a.belongs);
  invited_once = ground (arith, a.invited_once, times-erase p q w.invite_list);
  invited = ground (
    arith,
    a.invited,
    a.invited_once,
    times-erase p q w.invite_list,
    holds-times q w.invite_list,
    holds-remove_all me me (w.invitations q),
  );
}

-- Whoever points to the party or is invited by it stands in one of its lists.
pub record Covered (me : ℕ) (w : World) (p : ℕ) : Type 0 where
  pub pointing :
      (is_in me (w.party_of p) && not (w.leader == p || ltb 0 (times p w.member_list))) ≡ false
  pub inviting : (holds me (w.invitations p) && not (ltb 0 (times p w.invite_list))) ≡ false

pub At-Covered : (me p : ℕ) (w : World) → At me w p → Covered me w p
At-Covered me p w a = record {
  pointing = ground (arith, a.belongs);
  inviting = ground (arith, a.invited);
}

pub disband-Gone : (me p : ℕ) (w : World) → Covered me w p → Gone me (disband me true w) p
unfolding disband set_party is_in
disband-Gone me p w a = record {
  outside = ground (arith, a.pointing, outside);
  uninvited = ground (arith, a.inviting, uninvited);
}
  where
    w1 : World
    w1 = set_party w.leader none w

    w2 : World
    w2 = withdraw_all me w.invite_list w1

    kept : w2.party_of p ≡ w1.party_of p
    kept = ap (λ f. f p) (withdraw_all_fields me w.invite_list w1).1

    outside :
        (release_all w.member_list w2).party_of p
        ≡ (if ltb 0 (times p w.member_list) then none else w1.party_of p)
    outside =
        release_all-party_of p w.member_list w2 ∙ ground (arith, holds-times p w.member_list, kept)

    uninvited :
        holds me ((release_all w.member_list w2).invitations p)
        ≡ (if ltb 0 (times p w.invite_list) then false else holds me (w.invitations p))
    uninvited =
        ap (λ f. holds me (f p)) (release_all_fields w.member_list w2).1
        ∙ (withdraw_all-invitations me p w.invite_list w1
            ∙ ground (arith, holds-times p w.invite_list))

pub pass_party_leadership-At :
    (me q p : ℕ) (e : Surroundings) (w : World)
    → At me w p
    → At me w q
    → At me w w.leader
    → At me (pass_party_leadership me e q w).0 p
unfolding pass_party_leadership is_in update_shared_experience times
pass_party_leadership-At me q p e w a b c = record {
  once = ground (arith, a.once, a.apart, b.apart, b.belongs, times-erase p q w.member_list);
  apart =
      ground (arith, a.once, a.apart, b.once, b.apart, b.belongs, times-erase p q w.member_list);
  belongs = ground (arith, a.once, a.belongs, b.apart, b.belongs, times-erase p q w.member_list);
  invited_once = ground (arith, a.invited_once);
  invited = ground (arith, a.invited);
}

pub drop_member-At :
    (me q p : ℕ) (e : Surroundings) (w : World)
    → At me w p
    → (w.leader == q) ≡ false
    → At me (drop_member e q w) p
unfolding drop_member set_party is_in update_shared_experience clear_player_points
drop_member-At me q p e w a other = record {
  once = ground (arith, a.once, times-erase p q w.member_list);
  apart = ground (arith, a.once, a.apart, times-erase p q w.member_list);
  belongs = ground (arith, a.once, a.apart, a.belongs, other, times-erase p q w.member_list);
  invited_once = ground (arith, a.invited_once);
  invited = ground (arith, a.invited);
}

pub drop_member-Covered :
    (me q p : ℕ) (e : Surroundings) (w : World) → At me w p → Covered me (drop_member e q w) p
unfolding drop_member set_party is_in update_shared_experience clear_player_points
drop_member-Covered me q p e w a = record {
  pointing = ground (arith, a.once, a.apart, a.belongs, times-erase p q w.member_list);
  inviting = ground (arith, a.invited);
}
