-- ===== src/Party/Roster.antt =====
-- The methods of src/party.cpp that change who belongs to a party.
use infernum_data_pack.Base.{
  ℕ, Bool, true, false, not, List, [], ◌∷◌, ◌++◌, none, some, ◌==◌, ◌&&◌, ◌||◌, if◌then◌else◌,
}
use infernum_data_pack.Party.{
  World, Surroundings, holds, erase, is_nil, is_in, set_party, add_party_invitation,
  remove_party_invitation, is_empty, is_player_invited, update_shared_experience,
  clear_player_points,
}

-- The loops of `disband` over the invitees and over the members.
unfoldable pub withdraw_all : ℕ → List ℕ → World → World
unfolding remove_party_invitation
withdraw_all me [] w = w
withdraw_all me (p ∷ ps) w = withdraw_all me ps (remove_party_invitation me p w)

unfoldable pub release_all : List ℕ → World → World
unfolding set_party
release_all [] w = w
release_all (p ∷ ps) w = release_all ps (set_party p none w)

-- `disband`; `allowed` is the answer of `eventPartyOnDisband`. The pointers of the object do not matter
-- once it is deleted.
unfoldable pub disband : ℕ → Bool → World → World
unfolding set_party withdraw_all release_all
disband me allowed w =
    if allowed
    then (let w1 = set_party w.leader none w in
        let w2 = withdraw_all me w.invite_list w1 in
        let w3 = release_all w.member_list w2 in
        record w3 {
          party = record (w3.party) { invite_list = []; member_list = []; alive = false };
        })
    else w

unfoldable pub pass_party_leadership : ℕ → Surroundings → ℕ → World → World × Bool
unfolding is_in erase update_shared_experience
pass_party_leadership me e p w =
    if w.leader == p || not (is_in me (w.party_of p)) then (w, false) else (
      record w {
        party =
            update_shared_experience e
              (record (w.party) { leader = p; member_list = w.leader ∷ erase p w.member_list });
      },
      true,
    )

-- Whether `leaveParty` finds no new leader, and the world after it may have found one.
unfoldable pub succession : ℕ → Surroundings → ℕ → World → List ℕ → World × Bool
unfolding pass_party_leadership
succession me e p w [] = (w, w.leader == p)
succession me e p w (m ∷ ms) =
    if w.leader == p
    then (if is_nil ms && is_nil w.invite_list
        then (w, true)
        else ((pass_party_leadership me e m w).0, false))
    else (w, false)

-- The part of `leaveParty` between the succession and the disbanding.
unfoldable pub drop_member : Surroundings → ℕ → World → World
unfolding set_party erase update_shared_experience clear_player_points
drop_member e p w =
    let w1 =
      set_party p none
        (record w { party = record (w.party) { member_list = erase p w.member_list } }) in
    record w1 { party = clear_player_points e p (update_shared_experience e w1.party) }

-- `leaveParty`; `may_leave` and `may_disband` are the answers of the two script events.
unfoldable pub leave_party : ℕ → Surroundings → Bool → Bool → ℕ → World → World × Bool
unfolding is_in succession drop_member disband is_empty
leave_party me e may_leave may_disband p w =
    if not (is_in me (w.party_of p)) && not (w.leader == p)
    then (w, false)
    else if not may_leave
    then (w, false)
    else (let (w1, missing_leader) = succession me e p w w.member_list in
        let w2 = drop_member e p w1 in
        (if missing_leader || is_empty w2.party then disband me may_disband w2 else w2, true))

-- `joinParty`; `may_join` is the answer of the script event.
unfoldable pub join_party : ℕ → Surroundings → Bool → ℕ → World → World × Bool
unfolding holds erase set_party remove_party_invitation update_shared_experience
join_party me e may_join p w =
    if not may_join
    then (w, false)
    else if not (holds p w.invite_list)
    then (w, false)
    else (let w1 =
          set_party p (some me)
            (record w { party = record (w.party) { invite_list = erase p w.invite_list } }) in
        let w2 =
          remove_party_invitation me p
            (record w1 { party = record (w1.party) { member_list = w1.member_list ++ p ∷ [] } }) in
        (record w2 { party = update_shared_experience e w2.party }, true))

-- The part of `removeInvite` before the test for an empty party.
unfoldable pub withdraw_invite : ℕ → ℕ → World → World
unfolding erase remove_party_invitation
withdraw_invite me p w =
    remove_party_invitation me p
      (record w { party = record (w.party) { invite_list = erase p w.invite_list } })

-- `removeInvite` with its default argument, as `revokeInvitation` calls it.
unfoldable pub remove_invite : ℕ → Bool → ℕ → World → World × Bool
unfolding holds is_empty
remove_invite me may_disband p w =
    if not (holds p w.invite_list)
    then (w, false)
    else (let w1 = withdraw_invite me p w in
        (if is_empty w1.party then disband me may_disband w1 else w1, true))

unfoldable pub invite_player : ℕ → ℕ → World → World × Bool
unfolding is_player_invited add_party_invitation
invite_player me p w = if is_player_invited p w.party then (w, false) else (
  add_party_invitation me p
      (record w { party = record (w.party) { invite_list = w.invite_list ++ p ∷ [] } }),
  true,
)
