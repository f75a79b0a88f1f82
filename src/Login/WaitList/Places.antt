-- ===== src/Login/WaitList/Places.antt =====
-- How often a player stands in the queues of src/waitlist.cpp.
use infernum_data_pack.Base.{
  ℕ, ◌+◌, ◌≤◌, ◌≡◌, refl, ◌∙◌, inl, inr, List, [], ◌∷◌, ◌++◌, arith, Bool-cases, ◌==◌,
  if◌then◌else◌,
}
use infernum_data_pack.Login.WaitList.{
  Wait, WaitListInfo, at_end, cleanup_list, is_over, find_wait, find_from, set_timeout, erase,
}

-- How many entries a player has.
abbrev pub entries : ℕ → List Wait → ℕ
entries g [] = 0
entries g (w ∷ ws) = let rest = entries g ws in if w.player_guid == g then rest + 1 else rest

abbrev pub places : ℕ → WaitListInfo → ℕ
places g info = entries g info.priority_wait_list + entries g info.wait_list

-- Nobody stands in the queues twice.
abbrev pub IsQueue : WaitListInfo → Type 0
IsQueue info = (g : ℕ) → places g info ≤ 1

pub entries-cleanup_list : (g t : ℕ) (ws : List Wait) → entries g (cleanup_list t ws) ≤ entries g ws
unfolding cleanup_list
entries-cleanup_list g t [] = omega arith
entries-cleanup_list g t (w ∷ ws) = elim (Bool-cases (is_over t w)) [
  | inl e ↦ rw e (ground (arith, entries-cleanup_list g t ws))
  | inr e ↦ rw e (ground (arith, entries-cleanup_list g t ws))
]

pub entries-erase : (g h : ℕ) (ws : List Wait) → entries g (erase h ws) ≤ entries g ws
unfolding erase
entries-erase g h [] = omega arith
entries-erase g h (w ∷ ws) = ground (arith, entries-erase g h ws)

pub entries-set_timeout :
    (g h t : ℕ) (ws : List Wait) → entries g (set_timeout h t ws) ≡ entries g ws
unfolding set_timeout
entries-set_timeout g h t [] = refl
entries-set_timeout g h t (w ∷ ws) = ground (arith, entries-set_timeout g h t ws)

entries-append : (g : ℕ) (ws vs : List Wait) → entries g (ws ++ vs) ≡ entries g ws + entries g vs
entries-append g [] vs = omega arith
entries-append g (w ∷ ws) vs = ground (arith, entries-append g ws vs)

-- Whoever `findClient` does not find has no entry.
find_wait_absent : (g s s' : ℕ) (ws : List Wait) → find_wait g s ws ≡ at_end s' → entries g ws ≡ 0
unfolding find_wait
find_wait_absent g s s' [] e = refl
find_wait_absent g s s' (w ∷ ws) e = ground (arith, find_wait_absent g (s + 1) s' ws)

pub find_from_absent :
    (g s s' : ℕ) (ps ws : List Wait)
    → find_from g s ps ws ≡ at_end s'
    → (entries g ps ≡ 0) × (entries g ws ≡ 0)
unfolding find_from
find_from_absent g s s' [] ws e = (refl, find_wait_absent g s s' ws e)
find_from_absent g s s' (p ∷ ps) ws e = ground (arith, find_from_absent g (s + 1) s' ps ws)

pub entries-joined :
    (g : ℕ) (ws : List Wait) (w : Wait)
    → entries g (ws ++ w ∷ []) ≡ entries g ws + (if w.player_guid == g then 1 else 0)
entries-joined g ws w = entries-append g ws (w ∷ []) ∙ ground arith
