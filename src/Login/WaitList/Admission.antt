-- ===== src/Login/WaitList/Admission.antt =====
-- Who `clientLogin` of src/waitlist.cpp lets in.
use infernum_data_pack.Base.{
  ℕ, ◌+◌, ◌<◌, ◌≤◌, ◌≡◌, ◌⊎◌, inl, inr, true, List, [], ◌∷◌, arith, Bool-cases, ◌==◌,
}
use infernum_data_pack.Login.WaitList.{
  Wait, WaitListInfo, Player, Found, in_priority, in_wait, at_end, admitted, find_wait, find_from,
  find_client, settle, cleaned, is_exempt, client_login,
}

-- Slots count from `low`.
abbrev SlotsFrom : ℕ → Found → Type 0
SlotsFrom low (in_priority slot) = low ≤ slot
SlotsFrom low (in_wait slot) = low ≤ slot
SlotsFrom low (at_end slot) = low ≤ slot

SlotsFrom-mono : (f : Found) (a b : ℕ) → a ≤ b → SlotsFrom b f → SlotsFrom a f
SlotsFrom-mono (in_priority s) a b h k = omega arith
SlotsFrom-mono (in_wait s) a b h k = omega arith
SlotsFrom-mono (at_end s) a b h k = omega arith

find_wait_slots : (g s : ℕ) (ws : List Wait) → SlotsFrom s (find_wait g s ws)
unfolding find_wait
find_wait_slots g s [] = omega arith
find_wait_slots g s (w ∷ ws) = elim (Bool-cases (w.player_guid == g)) [
  | inl e ↦ rw e (omega arith)
  | inr e ↦ rw e (SlotsFrom-mono _ s (s + 1) (omega arith) (find_wait_slots g (s + 1) ws))
]

find_from_slots : (g s : ℕ) (ps ws : List Wait) → SlotsFrom s (find_from g s ps ws)
unfolding find_from
find_from_slots g s [] ws = find_wait_slots g s ws
find_from_slots g s (p ∷ ps) ws = elim (Bool-cases (p.player_guid == g)) [
  | inl e ↦ rw e (omega arith)
  | inr e ↦ rw e (SlotsFrom-mono _ s (s + 1) (omega arith) (find_from_slots g (s + 1) ps ws))
]

settle_admits :
    (max_players online now : ℕ) (player : Player) (info info' : WaitListInfo) (f : Found)
    → SlotsFrom 1 f
    → settle max_players online now player info f ≡ admitted info'
    → online < max_players
unfolding settle
settle_admits m o now player info info' (in_priority s) h e = ground arith
settle_admits m o now player info info' (in_wait s) h e = ground arith
settle_admits m o now player info info' (at_end s) h e = cc

-- A player who is let in is exempt from the queue, or the server has no limit, or it has a free place;
-- a full server lets nobody else in.
pub client_login_admits :
    (max_players online t u now : ℕ) (player : Player) (info info' : WaitListInfo)
    → client_login max_players online t u now player info ≡ admitted info'
    → (is_exempt player ≡ true) ⊎ (max_players ≡ 0) ⊎ (online < max_players)
unfolding client_login
client_login_admits m o t u now player info info' h =
    let slots : SlotsFrom 1 (find_client player.guid (cleaned t u info)) =
      unfold find_client in find_from_slots player.guid 1 _ _ in
    ground (
      arith,
      settle_admits m o now player (cleaned t u info) info'
          (find_client player.guid (cleaned t u info)) slots,
    )
