-- ===== src/Login/WaitList/Order.antt =====
-- Places in the queues of src/waitlist.cpp.
use mathlib.Core.Bool.{true≢false}
use infernum_data_pack.Base.{
  Bool, true, ap, ℕ, ◌+◌, ◌≤◌, ◌≡◌, refl, inl, inr, false, List, [], ◌∷◌, ◌++◌, arith, length,
  Bool-cases, ltb, leb, ◌==◌, if◌then◌else◌, ◌&&◌, ◌||◌,
}
use infernum_data_pack.Login.WaitList.{
  Wait, WaitListInfo, Player, Found, in_priority, in_wait, at_end, Outcome, admitted, waits,
  by_other_list, find_wait, find_from, find_client, enqueue, is_empty, deadline, settle, cleaned,
  is_exempt, client_login, get_client_slot,
}
use infernum_data_pack.Login.WaitList.Places.{
  entries, places, IsQueue, entries-cleanup_list, entries-erase, entries-set_timeout,
  entries-joined, find_from_absent,
}

enqueue-IsQueue :
    (now s' : ℕ) (player : Player) (info : WaitListInfo)
    → find_client player.guid info ≡ at_end s'
    → IsQueue info
    → IsQueue (enqueue now player info)
unfolding enqueue find_client
enqueue-IsQueue now s' player info e q g =
    let (none_first, none_second) = find_from_absent player.guid 1 s' _ _ e in
    elim (Bool-cases player.is_premium) [
      | inl b ↦
          rw (b, entries-joined g info.priority_wait_list _)
            (ground (arith, q g, none_first, none_second))
      | inr b ↦
          rw (b, entries-joined g info.wait_list _) (ground (arith, q g, none_first, none_second))
    ]

cleaned-IsQueue : (t u : ℕ) (info : WaitListInfo) → IsQueue info → IsQueue (cleaned t u info)
unfolding cleaned
cleaned-IsQueue t u info q g = omega (
  arith,
  q g,
  entries-cleanup_list g t info.priority_wait_list,
  entries-cleanup_list g u info.wait_list,
)

-- What an outcome leaves behind.
abbrev pub left_behind : Outcome → WaitListInfo
left_behind (admitted info) = info
left_behind (waits info) = info
left_behind (by_other_list info) = info

-- Whether the player may enter.
abbrev pub is_admitted : Outcome → Bool
is_admitted (admitted info) = true
is_admitted (waits info) = false
is_admitted (by_other_list info) = true

-- Nobody stands there twice, and whoever has to wait stands there.
unfoldable pub IsSettled : ℕ → Outcome → Type 0
IsSettled guid o =
    IsQueue (left_behind o) × (is_admitted o ≡ false → places guid (left_behind o) ≡ 1)

abbrev is_end : Found → Bool
is_end (in_priority slot) = false
is_end (in_wait slot) = false
is_end (at_end slot) = true

find_wait_present :
    (g s : ℕ) (ws : List Wait) → is_end (find_wait g s ws) ≡ false → 1 ≤ entries g ws
unfolding find_wait
find_wait_present g s [] e = absurd (ground (arith, e))
find_wait_present g s (w ∷ ws) e = ground (arith, find_wait_present g (s + 1) ws)

find_from_present :
    (g s : ℕ) (ps ws : List Wait)
    → is_end (find_from g s ps ws) ≡ false
    → 1 ≤ entries g ps + entries g ws
unfolding find_from
find_from_present g s [] ws e = omega (arith, find_wait_present g s ws e)
find_from_present g s (p ∷ ps) ws e = ground (arith, find_from_present g (s + 1) ps ws)

-- Whoever `findClient` finds has an entry.
find_client_present :
    (g : ℕ) (info : WaitListInfo) → is_end (find_client g info) ≡ false → 1 ≤ places g info
unfolding find_client
find_client_present g info e = find_from_present g 1 info.priority_wait_list info.wait_list e

enqueue_present :
    (now : ℕ) (player : Player) (info : WaitListInfo)
    → 1 ≤ places player.guid (enqueue now player info)
unfolding enqueue
enqueue_present now player info = elim (Bool-cases player.is_premium) [
  | inl b ↦ rw (b, entries-joined player.guid info.priority_wait_list _) (ground arith)
  | inr b ↦ rw (b, entries-joined player.guid info.wait_list _) (ground arith)
]

settle-IsSettled :
    (max_players online now : ℕ) (player : Player) (info : WaitListInfo) (f : Found)
    → find_client player.guid info ≡ f
    → IsQueue info
    → IsSettled player.guid (settle max_players online now player info f)
unfolding settle IsSettled
settle-IsSettled m o now player info (in_wait s) e q =
    let there = find_client_present player.guid info (ap is_end e) in
    let set = entries-set_timeout player.guid player.guid (deadline now s) info.wait_list in
    elim (Bool-cases (leb (o + s) m)) [
      | inl b ↦ rw b (
        λ g. omega (arith, q g, entries-erase g player.guid info.wait_list),
        λ h. absurd (true≢false h),
      )
      | inr b ↦ rw b (
        λ g. omega (arith, q g, entries-set_timeout g player.guid _ info.wait_list),
        λ h. omega (arith, q player.guid, there, set),
      )
    ]
settle-IsSettled m o now player info (in_priority s) e q =
    let there = find_client_present player.guid info (ap is_end e) in
    let set =
      entries-set_timeout player.guid player.guid (deadline now s) info.priority_wait_list in
    elim (Bool-cases (leb (o + s) m)) [
      | inl b ↦ rw b (
        λ g. omega (arith, q g, entries-erase g player.guid info.priority_wait_list),
        λ h. absurd (true≢false h),
      )
      | inr b ↦ rw b (
        λ g. omega (arith, q g, entries-set_timeout g player.guid _ info.priority_wait_list),
        λ h. omega (arith, q player.guid, there, set),
      )
    ]
settle-IsSettled m o now player info (at_end s) e q =
    let joined = enqueue-IsQueue now s player info e q in
    (joined, λ h. omega (arith, joined player.guid, enqueue_present now player info))

-- No login attempt leaves a player in the queues twice, whichever branch it takes, and whoever is not
-- admitted stands in them exactly once. Nobody stood in them twice before. Where a player is admitted from
-- the priority queue, the queues are taken to be those without his entry, although the code erases it
-- through the other list.
pub client_login-IsSettled :
    (max_players online t u now : ℕ) (player : Player) (info : WaitListInfo)
    → IsQueue info
    → IsSettled player.guid (client_login max_players online t u now player info)
unfolding client_login IsSettled
client_login-IsSettled m o t u now player info q = elim (Bool-cases (is_exempt player)) [
  | inl b ↦ rw b (q, λ h. absurd (true≢false h))
  | inr b ↦
      elim (Bool-cases
        (m == 0 || (is_empty info.priority_wait_list && (is_empty info.wait_list && ltb o m)))) [
          | inl c ↦ rw (b, c) (q, λ h. absurd (true≢false h))
          | inr c ↦
              rw (b, c)
                (settle-IsSettled m o now player (cleaned t u info) _ refl
                  (cleaned-IsQueue t u info q))
        ]
]

find_wait_last :
    (g s s' : ℕ) (w : Wait) (ws : List Wait)
    → find_wait g s ws ≡ at_end s'
    → w.player_guid ≡ g
    → find_wait g s (ws ++ w ∷ []) ≡ in_wait (s + length ws)
unfolding find_wait
find_wait_last g s s' w [] e h = ground arith
find_wait_last g s s' w (v ∷ vs) e h = ground (arith, find_wait_last g (s + 1) s' w vs)

find_from_wait_last :
    (g s s' : ℕ) (w : Wait) (ps ws : List Wait)
    → find_from g s ps ws ≡ at_end s'
    → w.player_guid ≡ g
    → find_from g s ps (ws ++ w ∷ []) ≡ in_wait (s + length ps + length ws)
unfolding find_from
find_from_wait_last g s s' w [] ws e h = ground (arith, find_wait_last g s s' w ws e h)
find_from_wait_last g s s' w (v ∷ vs) ws e h =
    ground (arith, find_from_wait_last g (s + 1) s' w vs ws)

find_from_priority_last :
    (g s s' : ℕ) (w : Wait) (ps ws : List Wait)
    → find_from g s ps ws ≡ at_end s'
    → w.player_guid ≡ g
    → find_from g s (ps ++ w ∷ []) ws ≡ in_priority (s + length ps)
unfolding find_from
find_from_priority_last g s s' w [] ws e h = ground arith
find_from_priority_last g s s' w (v ∷ vs) ws e h =
    ground (arith, find_from_priority_last g (s + 1) s' w vs ws)

-- A player who joins stands behind all who wait with the same right: a premium player behind the
-- priority queue and in front of the other, anyone else behind both. `getClientSlot` then gives the
-- number of players up to and including him.
pub get_client_slot-enqueue :
    (now s' : ℕ) (player : Player) (info : WaitListInfo)
    → find_client player.guid info ≡ at_end s'
    → get_client_slot player.guid (enqueue now player info) ≡ (
        if player.is_premium
        then length info.priority_wait_list + 1
        else length info.priority_wait_list + length info.wait_list + 1)
unfolding get_client_slot enqueue
get_client_slot-enqueue now s' player info e = elim (Bool-cases player.is_premium) [
  | inl b ↦
      let w : Wait = record {
        timeout = deadline now (length info.priority_wait_list + 1);
        player_guid = player.guid;
      } in
      rw
        (
          b,
          find_from_priority_last player.guid 1 s' w info.priority_wait_list info.wait_list e refl,
        )
        (omega arith)
  | inr b ↦
      let w : Wait = record {
        timeout = deadline now (length info.priority_wait_list + length info.wait_list + 1);
        player_guid = player.guid;
      } in
      rw (b, find_from_wait_last player.guid 1 s' w info.priority_wait_list info.wait_list e refl)
        (omega arith)
]
