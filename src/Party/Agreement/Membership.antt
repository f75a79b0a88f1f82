-- ===== src/Party/Agreement/Membership.antt =====
-- Joining, inviting, founding and what a pointer to a party means (src/party.cpp, src/player.cpp).
use infernum_data_pack.Base.{
  ℕ, ◌≡◌, ◌≢◌, refl, inl, inr, Bool, true, false, not, Option, none, some, arith, ◌==◌, ◌||◌,
  Bool-cases,
}
use infernum_data_pack.Party.{
  World, Surroundings, set_shared_experience, remove_party_invitation, is_in, set_party, holds,
  add_party_invitation, is_empty, new_party, update_shared_experience,
}
use infernum_data_pack.Party.Roster.{invite_player, join_party, remove_invite, withdraw_invite}
use infernum_data_pack.Party.Commands.{has_party, is_inviting}
use infernum_data_pack.Party.Invariant.{At, Agrees}
use infernum_data_pack.Party.Invariant.Steps.{
  new_party-Agrees, invite_player-At, withdraw_invite-At, disband-Gone, At-Covered,
}
use infernum_data_pack.Party.Agreement.Leaving.{disband-alive, if_Agrees}

-- The people and the pointers decide; who shares the experience does not matter.
pub keep_people :
    (me : ℕ) (w : World) (e : Surroundings) (p : ℕ) (active : Bool)
    → Agrees me w
    → Agrees me (record w { party = (set_shared_experience e p active w.party).0 })
unfolding set_shared_experience
keep_people me w e p active (inl (alive, a)) = inl (
  ground (arith, alive),
  λ q. record {
    once = ground (arith, (a q).once);
    apart = ground (arith, (a q).apart);
    belongs = ground (arith, (a q).belongs);
    invited_once = ground (arith, (a q).invited_once);
    invited = ground (arith, (a q).invited);
  },
)
keep_people me w e p active (inr (gone, g)) =
    inr (ground (arith, gone), λ q. record { outside = (g q).outside; uninvited = (g q).uninvited })

-- A player whose pointer says so belongs to a party that is alive.
pub in_alive :
    (me p : ℕ) (w : World)
    → Agrees me w
    → is_in me (w.party_of p) ≡ true
    → (w.alive ≡ true) × ((q : ℕ) → At me w q)
in_alive me p w (inl a) h = a
in_alive me p w (inr (dead, g)) h = absurd (ground (arith, (g p).outside, h))

pub is_inviting-is_in :
    (me p q : ℕ) (w : World) → not (is_inviting me p q w) ≡ false → is_in me (w.party_of p) ≡ true
unfolding is_inviting
is_inviting-is_in me p q w h = ground (arith, h)

pub in_alive_unless :
    (me p : ℕ) (w : World) (b : Bool)
    → Agrees me w
    → (not (is_in me (w.party_of p)) || b) ≡ false
    → (w.alive ≡ true) × ((q : ℕ) → At me w q)
in_alive_unless me p w b a h = in_alive me p w a (ground (arith, h))

new_party-alive : (me p : ℕ) (w : World) → (new_party me p w).alive ≡ true
unfolding new_party set_party
new_party-alive me p w = refl

pub join_party-alive :
    (me p : ℕ) (e : Surroundings) (may_join : Bool) (w : World)
    → (join_party me e may_join p w).0.alive ≡ w.alive
unfolding join_party set_party remove_party_invitation update_shared_experience
join_party-alive me p e may_join w = ground arith

pub outside : (me : ℕ) (o : Option ℕ) → has_party o ≡ false → is_in me o ≡ false
unfolding is_in
outside me none h = refl
outside me (some q) h = absurd (ground (arith, h))

pub remove_invite-Agrees :
    (me p : ℕ) (w : World)
    → w.alive ≡ true
    → ((q : ℕ) → At me w q)
    → Agrees me (remove_invite me true p w).0
unfolding remove_invite
remove_invite-Agrees me p w alive a = elim (Bool-cases (not (holds p w.invite_list))) [
  | inl h ↦ simp h (inl (alive, a))
  | inr h ↦ simp h (
      if_Agrees me (is_empty ((withdraw_invite me p w).party)) _ _
        (λ _. inr (disband-alive me w1, λ q. disband-Gone me q w1 (At-Covered me q w1 (a1 q))))
        (λ _. inl (unfold withdraw_invite remove_party_invitation in alive, a1)))
]
  where
    w1 : World
    w1 = withdraw_invite me p w

    a1 : (q : ℕ) → At me w1 q
    a1 q = withdraw_invite-At me p q w (a q)

pub invite_player-Agrees :
    (me p : ℕ) (w : World)
    → w.alive ≡ true
    → ((q : ℕ) → At me w q)
    → Agrees me (invite_player me p w).0
invite_player-Agrees me p w alive a = inl (
  unfold invite_player add_party_invitation in ground (arith, alive),
  λ q. invite_player-At me p q w (a q) (a p),
)

-- `new Party(player)` at an address where no party is.
pub founded :
    (me q p : ℕ) (w : World)
    → (w.alive ≢ true)
    → Agrees me w
    → Agrees me (invite_player me q (new_party me p w)).0
founded me q p w dead (inl (alive, a)) = absurd (dead alive)
founded me q p w dead (inr (gone, g)) = elim (new_party-Agrees me p w g) [
  | inl (alive, a) ↦ invite_player-Agrees me q (new_party me p w) alive a
  | inr (dead, h) ↦ absurd (ground (arith, dead, new_party-alive me p w))
]

-- A party of another address does not show.
pub elsewhere :
    (me fresh p q : ℕ) (w : World)
    → (fresh == me) ≡ false
    → w.party_of p ≡ none
    → Agrees me w
    → Agrees me (add_party_invitation fresh q (set_party p (some fresh) w))
unfolding add_party_invitation set_party is_in holds
elsewhere me fresh p q w other free (inl (alive, a)) = inl (
  ground (arith, alive),
  λ r. record {
    once = ground (arith, (a r).once);
    apart = ground (arith, (a r).apart);
    belongs = ground (arith, (a r).belongs, (a p).belongs, free, other);
    invited_once = ground (arith, (a r).invited_once);
    invited = ground (arith, (a r).invited, other);
  },
)
elsewhere me fresh p q w other free (inr (gone, g)) = inr (
  ground (arith, gone),
  λ r. record {
    outside = ground (arith, (g r).outside, other);
    uninvited = ground (arith, (g r).uninvited, other);
  },
)
