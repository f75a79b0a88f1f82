-- ===== src/Party/Invariant/Lists.antt =====
-- How often a number stands in a list, under the list operations of src/party.cpp.
use infernum_data_pack.Base.{
  ℕ, ◌+◌, ◌-◌, ◌≡◌, refl, ◌∙◌, false, List, [], ◌∷◌, ◌++◌, none, arith, ◌==◌, ltb, if◌then◌else◌,
}
use infernum_data_pack.Party.{World, holds, erase, remove_all, remove_party_invitation, set_party}
use infernum_data_pack.Party.Roster.{withdraw_all, release_all}

unfoldable pub times : ℕ → List ℕ → ℕ
times p [] = 0
times p (q ∷ qs) = let rest = times p qs in if q == p then rest + 1 else rest

pub holds-times : (p : ℕ) (qs : List ℕ) → holds p qs ≡ ltb 0 (times p qs)
unfolding holds times
holds-times p [] = refl
holds-times p (q ∷ qs) = ground (arith, holds-times p qs)

pub times-erase :
    (p q : ℕ) (qs : List ℕ) → times p (erase q qs) ≡ (if q == p then times p qs - 1 else times p qs)
unfolding times erase
times-erase p q [] = ground arith
times-erase p q (r ∷ qs) = ground (arith, times-erase p q qs)

pub times-append : (p : ℕ) (qs rs : List ℕ) → times p (qs ++ rs) ≡ times p qs + times p rs
unfolding times
times-append p [] rs = omega arith
times-append p (q ∷ qs) rs = ground (arith, times-append p qs rs)

pub times-append_one :
    (p q : ℕ) (qs : List ℕ)
    → times p (qs ++ q ∷ []) ≡ (if q == p then times p qs + 1 else times p qs)
times-append_one p q qs = ground (arith, times-append p qs (q ∷ []), one)
  where
    one : times p (q ∷ []) ≡ (if q == p then 1 else 0)
    one = unfold times in ground arith

pub holds-remove_all :
    (p q : ℕ) (qs : List ℕ) → holds p (remove_all q qs) ≡ (if q == p then false else holds p qs)
unfolding holds remove_all
holds-remove_all p q [] = ground arith
holds-remove_all p q (r ∷ qs) = ground (arith, holds-remove_all p q qs)

-- The loops of `disband`: each touches one field of the players in its list.
pub withdraw_all_fields :
    (me : ℕ) (ps : List ℕ) (w : World)
    → ((withdraw_all me ps w).party ≡ w.party) × ((withdraw_all me ps w).party_of ≡ w.party_of)
unfolding withdraw_all
withdraw_all_fields me [] w = (refl, refl)
withdraw_all_fields me (q ∷ ps) w = withdraw_all_fields me ps (remove_party_invitation me q w)

pub withdraw_all-invitations :
    (me p : ℕ) (ps : List ℕ) (w : World)
    → holds me ((withdraw_all me ps w).invitations p)
      ≡ (if holds p ps then false else holds me (w.invitations p))
unfolding withdraw_all
withdraw_all-invitations me p [] w = unfold holds in refl
withdraw_all-invitations me p (q ∷ ps) w =
    withdraw_all-invitations me p ps (remove_party_invitation me q w)
    ∙ unfold remove_party_invitation holds in
      ground (arith, holds-remove_all me me (w.invitations q))

pub release_all_fields :
    (ps : List ℕ) (w : World)
    → ((release_all ps w).party ≡ w.party) × ((release_all ps w).invitations ≡ w.invitations)
unfolding release_all
release_all_fields [] w = (refl, refl)
release_all_fields (q ∷ ps) w = release_all_fields ps (set_party q none w)

pub release_all-party_of :
    (p : ℕ) (ps : List ℕ) (w : World)
    → (release_all ps w).party_of p ≡ (if holds p ps then none else w.party_of p)
unfolding release_all
release_all-party_of p [] w = unfold holds in refl
release_all-party_of p (q ∷ ps) w =
    release_all-party_of p ps (set_party q none w) ∙ unfold set_party holds in ground arith
