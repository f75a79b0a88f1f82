-- ===== src/Party/Agreement/Handlers.antt =====
-- The handlers of src/game.cpp, one by one.
use infernum_data_pack.Base.{
  ℕ, ◌≡◌, ◌≢◌, refl, ap, ◌∙◌, inl, inr, Bool, true, false, not, Option, none, some, arith, ◌==◌,
  ◌||◌, ◌&&◌, ==→eq, Bool-cases,
}
use infernum_data_pack.Party.{World, Surroundings, is_in}
use infernum_data_pack.Party.Roster.{
  leave_party, pass_party_leadership, invite_player, join_party, remove_invite,
}
use infernum_data_pack.Party.Commands.{
  Answers, has_party, is_inviting, is_partner, invite_as, player_invite_to_party, player_join_party,
  player_revoke_party_invitation, player_pass_party_leadership, player_leave_party,
  player_enable_shared_party_experience,
}
use infernum_data_pack.Party.Invariant.{At, Agrees}
use infernum_data_pack.Party.Invariant.Steps.{join_party-At, pass_party_leadership-At}
use infernum_data_pack.Party.Agreement.Leaving.{pass_party_leadership-alive, leave_party-Agrees}
use infernum_data_pack.Party.Agreement.Membership.{
  keep_people, in_alive, is_inviting-is_in, in_alive_unless, join_party-alive, outside,
  remove_invite-Agrees, invite_player-Agrees, founded, elsewhere,
}

pub player_join_party-Agrees :
    (me : ℕ) (e : Surroundings) (known : ℕ → Bool) (answers : Answers) (p leader : ℕ) (w : World)
    → Agrees me w
    → Agrees me (player_join_party me e known answers p leader w)
unfolding player_join_party
player_join_party-Agrees me e known answers p leader w a = elim (Bool-cases (not (known p))) [
  | inl k ↦ simp k a
  | inr k ↦ elim (Bool-cases (not (known leader) || not (is_inviting me leader p w))) [
    | inl h ↦ simp (k, h) a
    | inr h ↦ elim (Bool-cases (has_party (w.party_of p))) [
      | inl free ↦ simp (k, h, free) a
      | inr free ↦ simp (k, h, free) (joined h free)
    ]
  ]
]
  where
    joined :
        (not (known leader) || not (is_inviting me leader p w)) ≡ false
        → has_party (w.party_of p) ≡ false
        → Agrees me (join_party me e (answers.may_join) p w).0
    joined h free =
        let (alive, a') =
          in_alive me leader w a (is_inviting-is_in me leader p w (ground (arith, h))) in
        inl (
          join_party-alive me p e (answers.may_join) w ∙ alive,
          λ q.
              join_party-At me p q e (answers.may_join) w (a' q) (a' p)
                (outside me (w.party_of p) free),
        )

pub player_revoke_party_invitation-Agrees :
    (me : ℕ) (known : ℕ → Bool) (answers : Answers) (p q : ℕ) (w : World)
    → answers.may_disband ≡ true
    → Agrees me w
    → Agrees me (player_revoke_party_invitation me known answers p q w)
unfolding player_revoke_party_invitation
player_revoke_party_invitation-Agrees me known answers p q w allowed a =
    elim (Bool-cases (not (known p))) [
      | inl k ↦ simp k a
      | inr k ↦ elim (Bool-cases (not (is_in me (w.party_of p)) || not (w.leader == p))) [
        | inl h ↦ simp (k, h) a
        | inr h ↦ elim (Bool-cases (not (known q) || not (is_inviting me p q w))) [
          | inl i ↦ simp (k, h, i) a
          | inr i ↦ simp (k, h, i) (revoked (in_alive_unless me p w (not (w.leader == p)) a h))
        ]
      ]
    ]
  where
    revoked :
        (w.alive ≡ true) × ((r : ℕ) → At me w r)
        → Agrees me (remove_invite me (answers.may_disband) q w).0
    revoked (alive, b) = simp allowed (remove_invite-Agrees me q w alive b)

pub player_pass_party_leadership-Agrees :
    (me : ℕ) (e : Surroundings) (known : ℕ → Bool) (p q : ℕ) (w : World)
    → Agrees me w
    → Agrees me (player_pass_party_leadership me e known p q w)
unfolding player_pass_party_leadership
player_pass_party_leadership-Agrees me e known p q w a = elim (Bool-cases (not (known p))) [
  | inl k ↦ simp k a
  | inr k ↦ elim (Bool-cases (not (is_in me (w.party_of p)) || not (w.leader == p))) [
    | inl h ↦ simp (k, h) a
    | inr h ↦ elim (Bool-cases (not (known q) || not (is_partner me p q w))) [
      | inl i ↦ simp (k, h, i) a
      | inr i ↦ simp (k, h, i) (passed (in_alive_unless me p w (not (w.leader == p)) a h))
    ]
  ]
]
  where
    passed : (w.alive ≡ true) × ((r : ℕ) → At me w r) → Agrees me (pass_party_leadership me e q w).0
    passed (alive, b) = inl (
      pass_party_leadership-alive me q e w ∙ alive,
      λ r. pass_party_leadership-At me q r e w (b r) (b q) (b w.leader),
    )

pub player_leave_party-Agrees :
    (me : ℕ) (e : Surroundings) (known in_fight : ℕ → Bool) (answers : Answers) (p : ℕ) (w : World)
    → answers.may_disband ≡ true
    → Agrees me w
    → Agrees me (player_leave_party me e known in_fight answers p w)
unfolding player_leave_party
player_leave_party-Agrees me e known in_fight answers p w allowed a =
    elim (Bool-cases (not (known p))) [
      | inl k ↦ simp k a
      | inr k ↦ elim (Bool-cases (not (is_in me (w.party_of p)) || in_fight p)) [
        | inl h ↦ simp (k, h) a
        | inr h ↦ simp (k, h) (left (in_alive_unless me p w (in_fight p) a h))
      ]
    ]
  where
    left :
        (w.alive ≡ true) × ((r : ℕ) → At me w r)
        → Agrees me (leave_party me e (answers.may_leave) (answers.may_disband) p w).0
    left (alive, b) = simp allowed (leave_party-Agrees me p e (answers.may_leave) w alive b)

is_me : (me r : ℕ) → not (r == me) ≡ false → is_in me (some r) ≡ true
unfolding is_in
is_me me r h = ground (arith, h)

invite_as-Agrees :
    (me fresh p q : ℕ) (w : World) (o : Option ℕ)
    → w.party_of p ≡ o
    → (w.alive ≡ true → fresh ≢ me)
    → Agrees me w
    → Agrees me (invite_as me fresh p q w o)
unfolding invite_as
invite_as-Agrees me fresh p q w (some r) e new a = elim (Bool-cases (not (r == me))) [
  | inl h ↦ simp h a
  | inr h ↦ elim (Bool-cases (not (w.leader == p))) [
    | inl i ↦ simp (h, i) a
    | inr i ↦ simp (h, i) (invited (in_alive me p w a (ap (is_in me) e ∙ is_me me r h)))
  ]
]
  where
    invited : (w.alive ≡ true) × ((r : ℕ) → At me w r) → Agrees me (invite_player me q w).0
    invited (alive, b) = invite_player-Agrees me q w alive b
invite_as-Agrees me fresh p q w none e new a = elim (Bool-cases (fresh == me)) [
  | inl h ↦ simp h (founded me q p w (λ l. new l (==→eq fresh me h)) a)
  | inr h ↦ simp h (elsewhere me fresh p q w h e a)
]

pub player_invite_to_party-Agrees :
    (me fresh : ℕ) (known : ℕ → Bool) (p q : ℕ) (w : World)
    → (w.alive ≡ true → fresh ≢ me)
    → Agrees me w
    → Agrees me (player_invite_to_party me fresh known p q w)
unfolding player_invite_to_party
player_invite_to_party-Agrees me fresh known p q w new a = elim (Bool-cases (p == q)) [
  | inl h ↦ simp h a
  | inr h ↦ elim (Bool-cases (not (known p))) [
    | inl k ↦ simp (h, k) a
    | inr k ↦ elim (Bool-cases (not (known q) || is_inviting me q p w)) [
      | inl i ↦ simp (h, k, i) a
      | inr i ↦ elim (Bool-cases (has_party (w.party_of q))) [
        | inl x ↦ simp (h, k, i, x) a
        | inr x ↦ simp (h, k, i, x) (invite_as-Agrees me fresh p q w (w.party_of p) refl new a)
      ]
    ]
  ]
]

pub player_share-Agrees :
    (me : ℕ) (e : Surroundings) (known in_fight protected : ℕ → Bool) (p : ℕ) (active : Bool)
    (w : World)
    → Agrees me w
    → Agrees me (player_enable_shared_party_experience me e known in_fight protected p active w)
unfolding player_enable_shared_party_experience
player_share-Agrees me e known in_fight protected p active w a = elim (Bool-cases (not (known p))) [
  | inl k ↦ simp k a
  | inr k ↦ elim (Bool-cases (not (is_in me (w.party_of p)) || (in_fight p && not (protected p)))) [
    | inl h ↦ simp (k, h) a
    | inr h ↦ simp (k, h) (keep_people me w e p active a)
  ]
]
