-- ===== src/Party/Agreement/Leaving.antt =====
-- Leaving a party and disbanding it (src/party.cpp).
use infernum_data_pack.Base.{
  ℕ, ◌≡◌, refl, ap, ◌∙◌, inl, inr, Bool, true, false, not, List, [], ◌∷◌, arith, ◌==◌, ◌||◌, ◌&&◌,
  if◌then◌else◌, Bool-cases,
}
use infernum_data_pack.Party.{
  World, Surroundings, is_in, is_nil, set_party, is_empty, update_shared_experience,
  clear_player_points,
}
use infernum_data_pack.Party.Roster.{
  disband, drop_member, succession, leave_party, pass_party_leadership,
}
use infernum_data_pack.Party.Invariant.{At, Agrees}
use infernum_data_pack.Party.Invariant.Lists.{times}
use infernum_data_pack.Party.Invariant.Steps.{
  disband-Gone, pass_party_leadership-At, drop_member-At, drop_member-Covered,
}

drop_member-alive : (e : Surroundings) (p : ℕ) (w : World) → (drop_member e p w).alive ≡ w.alive
unfolding drop_member set_party update_shared_experience clear_player_points
drop_member-alive e p w = ground arith

pub disband-alive : (me : ℕ) (w : World) → (disband me true w).alive ≡ false
unfolding disband
disband-alive me w = refl

-- A member who leads no longer, or never did, is dropped.
drop_follower :
    (me p : ℕ) (e : Surroundings) (w : World)
    → w.alive ≡ true
    → ((q : ℕ) → At me w q)
    → (w.leader == p) ≡ false
    → Agrees me (drop_member e p w)
drop_follower me p e w alive a other =
    inl (drop_member-alive e p w ∙ alive, λ q. drop_member-At me p q e w (a q) other)

drop_and_disband :
    (me p : ℕ) (e : Surroundings) (w : World)
    → ((q : ℕ) → At me w q)
    → Agrees me (disband me true (drop_member e p w))
drop_and_disband me p e w a = inr (
  disband-alive me (drop_member e p w),
  λ q. disband-Gone me q (drop_member e p w) (drop_member-Covered me p q e w (a q)),
)

-- What `leaveParty` knows when it drops the player.
abbrev Succeeded : ℕ → ℕ → World × Bool → Type 0
Succeeded me p r =
    (r.0.alive ≡ true) × ((q : ℕ) → At me (r.0) q) × ((r.1 || not (r.0.leader == p)) ≡ true)

pub pass_party_leadership-alive :
    (me p : ℕ) (e : Surroundings) (w : World) → (pass_party_leadership me e p w).0.alive ≡ w.alive
unfolding pass_party_leadership update_shared_experience
pass_party_leadership-alive me p e w = ground arith

-- The first member of the list can take the lead.
pass_to_first :
    (me p m : ℕ) (ms : List ℕ) (e : Surroundings) (w : World)
    → w.alive ≡ true
    → ((q : ℕ) → At me w q)
    → w.member_list ≡ m ∷ ms
    → (w.leader == p) ≡ true
    → Succeeded me p ((pass_party_leadership me e m w).0, false)
unfolding pass_party_leadership update_shared_experience times is_in
pass_to_first me p m ms e w alive a first leads = (
  pass_party_leadership-alive me m e w ∙ alive,
  λ q. pass_party_leadership-At me m q e w (a q) (a m) (a w.leader),
  ground (arith, (a m).apart, (a m).belongs, first, leads, ap (times m) first),
)

succession-Succeeded :
    (me p : ℕ) (e : Surroundings) (w : World) (ms : List ℕ)
    → w.alive ≡ true
    → ((q : ℕ) → At me w q)
    → w.member_list ≡ ms
    → Succeeded me p (succession me e p w ms)
unfolding succession
succession-Succeeded me p e w [] alive a first = (alive, a, ground arith)
succession-Succeeded me p e w (m ∷ ms) alive a first = elim (Bool-cases (w.leader == p)) [
  | inr other ↦ simp other (alive, a, ground (arith, other))
  | inl leads ↦ elim (Bool-cases (is_nil ms && is_nil w.invite_list)) [
    | inl alone ↦ simp (leads, alone) (alive, a, refl)
    | inr more ↦ simp (leads, more) (pass_to_first me p m ms e w alive a first leads)
  ]
]

pub if_Agrees :
    (me : ℕ) (b : Bool) (x y : World)
    → (b ≡ true → Agrees me x)
    → (b ≡ false → Agrees me y)
    → Agrees me (if b then x else y)
if_Agrees me true x y f g = f refl
if_Agrees me false x y f g = g refl

close_party-Agrees :
    (me p : ℕ) (e : Surroundings) (r : World × Bool)
    → Succeeded me p r
    → Agrees me (
        if r.1 || is_empty ((drop_member e p (r.0)).party)
        then disband me true (drop_member e p (r.0))
        else drop_member e p (r.0))
close_party-Agrees me p e r s =
    if_Agrees me _ _ _ (λ h. drop_and_disband me p e (r.0) (s.1))
      (λ h. drop_follower me p e (r.0) (s.0) (s.1) (ground (arith, h, s.2)))

pub leave_party-Agrees :
    (me p : ℕ) (e : Surroundings) (may_leave : Bool) (w : World)
    → w.alive ≡ true
    → ((q : ℕ) → At me w q)
    → Agrees me (leave_party me e may_leave true p w).0
unfolding leave_party
leave_party-Agrees me p e may_leave w alive a =
    elim (Bool-cases (not (is_in me (w.party_of p)) && not (w.leader == p))) [
      | inl h ↦ simp h (inl (alive, a))
      | inr h ↦ elim (Bool-cases may_leave) [
        | inr stays ↦ simp (h, stays) (inl (alive, a))
        | inl goes ↦
            simp (h, goes)
              (close_party-Agrees me p e (succession me e p w w.member_list)
                (succession-Succeeded me p e w w.member_list alive a refl))
      ]
    ]
