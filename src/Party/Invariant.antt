-- ===== src/Party/Invariant.antt =====
-- The party and its players agree on who belongs to it (src/party.cpp).
pub mod Lists
pub mod Steps
use infernum_data_pack.Base.{ℕ, ◌≤◌, ◌≡◌, ◌⊎◌, true, false, ◌==◌, ◌||◌, ltb, if◌then◌else◌}
use infernum_data_pack.Party.{World, holds, is_in}
use infernum_data_pack.Party.Invariant.Lists.{times}

-- What holds of one player `p` while the party exists.
pub record At (me : ℕ) (w : World) (p : ℕ) : Type 0 where
  -- A member stands in the list once, and the leader does not.
  pub once : times p w.member_list ≤ 1
  pub apart : (if w.leader == p then times p w.member_list else 0) ≡ 0
  -- The player's own pointer says whether he is the leader or a member.
  pub belongs : is_in me (w.party_of p) ≡ (w.leader == p || ltb 0 (times p w.member_list))
  -- The player's own list says whether he is invited.
  pub invited_once : times p w.invite_list ≤ 1
  pub invited : holds me (w.invitations p) ≡ ltb 0 (times p w.invite_list)

-- What holds of one player when the party is gone: nothing of his points to it.
pub record Gone (me : ℕ) (w : World) (p : ℕ) : Type 0 where
  pub outside : is_in me (w.party_of p) ≡ false
  pub uninvited : holds me (w.invitations p) ≡ false

-- The party and all the players agree: no pointer and no invitation is one-sided, and none dangles.
abbrev pub Agrees : ℕ → World → Type 0
Agrees me w =
    ((w.alive ≡ true) × ((p : ℕ) → At me w p)) ⊎ ((w.alive ≡ false) × ((p : ℕ) → Gone me w p))
