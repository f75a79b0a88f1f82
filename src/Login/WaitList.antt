-- ===== src/Login/WaitList.antt =====
-- src/waitlist.cpp: the two queues of players in front of a full server. Times are milliseconds.
pub mod Cleanup
pub mod Admission
pub mod Places
pub mod Order
use infernum_data_pack.Base.{
  ℕ, suc, ◌+◌, ◌-◌, ◌*◌, ◌%◌, Bool, true, false, List, [], ◌∷◌, ◌++◌, length, ltb, leb, ◌==◌, ◌||◌,
  ◌&&◌, if◌then◌else◌,
}

pub record Wait : Type 0 where
  pub timeout : ℕ  -- size_t
  pub player_guid : ℕ  -- uint32_t

pub record WaitListInfo : Type 0 where
  pub priority_wait_list : List Wait
  pub wait_list : List Wait

-- What the functions ask of a player.
pub record Player : Type 0 where
  pub guid : ℕ
  pub can_always_login : Bool
  pub account_type : ℕ
  pub is_premium : Bool

-- `ACCOUNT_TYPE_GAMEMASTER` of src/enums.h.
abbrev pub account_type_gamemaster : ℕ
account_type_gamemaster = 4

-- `(it->timeout - time) <= 0`: the difference of a `size_t` and an `int64_t` is a `size_t`.
unfoldable pub is_over : ℕ → Wait → Bool
is_over time w = leb ((w.timeout + 18446744073709551616 - time) % 18446744073709551616) 0

unfoldable pub cleanup_list : ℕ → List Wait → List Wait
unfolding is_over
cleanup_list time [] = []
cleanup_list time (w ∷ ws) =
    let rest = cleanup_list time ws in if is_over time w then rest else w ∷ rest

unfoldable pub get_time : ℕ → ℕ
get_time slot =
    if ltb slot 5
    then 5
    else if ltb slot 10
    then 10
    else if ltb slot 20
    then 20
    else if ltb slot 50
    then 60
    else 120

unfoldable pub get_timeout : ℕ → ℕ
unfolding get_time
get_timeout slot = get_time slot + 15

-- The iterator and the slot that `findClient` returns: an entry of either list, or the end.
pub data Found : Type 0 where
  in_priority in_wait at_end : ℕ → Found

unfoldable pub find_wait : ℕ → ℕ → List Wait → Found
find_wait guid slot [] = at_end slot
find_wait guid slot (w ∷ ws) =
    if w.player_guid == guid then in_wait slot else find_wait guid (slot + 1) ws

unfoldable pub find_from : ℕ → ℕ → List Wait → List Wait → Found
unfolding find_wait
find_from guid slot [] waiting = find_wait guid slot waiting
find_from guid slot (w ∷ ws) waiting =
    if w.player_guid == guid then in_priority slot else find_from guid (slot + 1) ws waiting

unfoldable pub find_client : ℕ → WaitListInfo → Found
unfolding find_from
find_client guid info = find_from guid 1 info.priority_wait_list info.wait_list

-- `it->timeout = …` and `list.erase(it)` for the entry that `findClient` stopped at.
unfoldable pub set_timeout : ℕ → ℕ → List Wait → List Wait
set_timeout guid t [] = []
set_timeout guid t (w ∷ ws) =
    if w.player_guid == guid then record w { timeout = t } ∷ ws else w ∷ set_timeout guid t ws

unfoldable pub erase : ℕ → List Wait → List Wait
erase guid [] = []
erase guid (w ∷ ws) = if w.player_guid == guid then ws else w ∷ erase guid ws

-- `by_other_list` is the outcome of `waitList.erase(it)` with an iterator of the other list, of which the
-- language says nothing: its queues are those of an implementation that unlinks the entry where it
-- stands, as list nodes that know their neighbours allow, while the list's counts are not modelled.
pub data Outcome : Type 0 where
  admitted waits by_other_list : WaitListInfo → Outcome

abbrev pub is_empty : List Wait → Bool
is_empty [] = true
is_empty (w ∷ ws) = false

unfoldable pub deadline : ℕ → ℕ → ℕ
unfolding get_timeout
deadline now slot = now + get_timeout slot * 1000

unfoldable pub enqueue : ℕ → Player → WaitListInfo → WaitListInfo
enqueue now player info =
    let slot = length priority_wait_list in
    if player.is_premium
    then record info {
      priority_wait_list =
          priority_wait_list
          ++ record { timeout = deadline now (slot + 1); player_guid = player.guid } ∷ [];
    }
    else record info {
      wait_list =
          wait_list
          ++ record {
            timeout = deadline now (slot + length wait_list + 1);
            player_guid = player.guid;
          }
            ∷ [];
    }
  where
    open info use {priority_wait_list, wait_list}

-- What `clientLogin` does with the result of `findClient`.
unfoldable pub settle : ℕ → ℕ → ℕ → Player → WaitListInfo → Found → Outcome
settle max_players online now player info (in_wait slot) =
    if leb (online + slot) max_players
    then admitted (record info { wait_list = erase player.guid info.wait_list })
    else waits
        (record info { wait_list = set_timeout player.guid (deadline now slot) info.wait_list })
settle max_players online now player info (in_priority slot) =
    if leb (online + slot) max_players
    then by_other_list
        (record info { priority_wait_list = erase player.guid info.priority_wait_list })
    else waits (record info {
      priority_wait_list = set_timeout player.guid (deadline now slot) info.priority_wait_list;
    })
settle max_players online now player info (at_end slot) = waits (enqueue now player info)

unfoldable pub cleaned : ℕ → ℕ → WaitListInfo → WaitListInfo
unfolding cleanup_list
cleaned t u info = record {
  priority_wait_list = cleanup_list t info.priority_wait_list;
  wait_list = cleanup_list u info.wait_list;
}

unfoldable pub is_exempt : Player → Bool
is_exempt player = player.can_always_login || leb account_type_gamemaster player.account_type

-- `t`, `u` and `now` are the clock at the two calls of `cleanupList` and at the last one.
unfoldable pub client_login : ℕ → ℕ → ℕ → ℕ → ℕ → Player → WaitListInfo → Outcome
client_login max_players online t u now player info =
    if is_exempt player
    then admitted info
    else if max_players == 0
        || (is_empty info.priority_wait_list && (is_empty info.wait_list && ltb online max_players))
    then admitted info
    else settle max_players online now player (cleaned t u info)
        (find_client player.guid (cleaned t u info))

unfoldable pub slot_of : Found → ℕ
slot_of (in_priority slot) = slot
slot_of (in_wait slot) = slot
slot_of (at_end slot) = 0

unfoldable pub get_client_slot : ℕ → WaitListInfo → ℕ
unfolding slot_of find_client
get_client_slot guid info = slot_of (find_client guid info)
