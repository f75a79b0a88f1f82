-- ===== src/Tests/Queues.antt =====
-- The gate of the server: bans, the waiting list, and the timed events (src/ban.cpp, src/waitlist.cpp,
-- src/scheduler.cpp).
use infernum_data_pack.Base.{ℕ, ◌≡◌, ◌↔◌, refl, true, false, [], ◌∷◌, some, arith}
use infernum_data_pack.Login.Ban.{ConnectBlock, IpConnectMap, find, accept_connection}
use infernum_data_pack.Login.Ban.Throttle.{IsRefused, accept_connection-IsRefused}
use infernum_data_pack.Login.WaitList.{
  WaitListInfo, Player, at_end, admitted, by_other_list, settle, erase, cleanup_list, find_client,
  enqueue, get_client_slot, client_login, cleaned, is_exempt, find_wait, find_from, is_over,
}
use infernum_data_pack.Login.WaitList.Cleanup.{cleanup_list_keeps}
use infernum_data_pack.Login.WaitList.Places.{IsQueue}
use infernum_data_pack.Login.WaitList.Order.{
  IsSettled, client_login-IsSettled, get_client_slot-enqueue,
}
use infernum_data_pack.Tasks.{
  Task, run, Dispatcher, Scheduler, thread_state_running, add_event, stop_event,
}
use infernum_data_pack.Tasks.Order.{IsOrdered, add_event-IsOrdered}
use infernum_data_pack.Tasks.Turns.{turn, add, only_tasks, turns, play, Contains, play-Contains}
use infernum_data_pack.Tasks.Stopped.{is_dispatched, timeouts, stop_event_silences}

abbrev blocked : ConnectBlock
blocked = record { last_attempt = 1000; block_time = 9000; count = 5 }

abbrev one_blocked : IpConnectMap
one_blocked = (7, blocked) ∷ []

accept_connection-IsRefused_example :
    ((accept_connection 2000 7 one_blocked).1 ≡ false)
    ↔ ((b : ConnectBlock) × (find 7 one_blocked ≡ some b) × IsRefused 2000 b)
accept_connection-IsRefused_example = accept_connection-IsRefused 2000 7 one_blocked

blocked_is_found : find 7 one_blocked ≡ some blocked
unfolding find
blocked_is_found = refl

abbrev premium : Player
premium = record { guid = 3; can_always_login = false; account_type = 1; is_premium = true }

abbrev one_waits : WaitListInfo
one_waits = record {
  priority_wait_list = record { timeout = 90000; player_guid = 3 } ∷ [];
  wait_list = [];
}

abbrev nobody_waits : WaitListInfo
nobody_waits = record { priority_wait_list = []; wait_list = [] }

one_waits-IsQueue : IsQueue one_waits
one_waits-IsQueue g = ground arith

client_login-IsSettled_example : IsSettled 3 (client_login 100 100 0 0 0 premium one_waits)
client_login-IsSettled_example =
    client_login-IsSettled 100 100 0 0 0 premium one_waits one_waits-IsQueue

is_new : find_client 3 nobody_waits ≡ at_end 1
unfolding find_client find_from find_wait
is_new = refl

get_client_slot-enqueue_example : get_client_slot 3 (enqueue 0 premium nobody_waits) ≡ 1
get_client_slot-enqueue_example = get_client_slot-enqueue 0 1 premium nobody_waits is_new

unlimited : client_login 0 50 0 0 0 premium nobody_waits ≡ admitted nobody_waits
unfolding client_login is_exempt
unlimited = refl

cleanup_list_keeps_example :
    cleanup_list 90000 (record { timeout = 1000; player_guid = 3 } ∷ [])
    ≡ record { timeout = 1000; player_guid = 3 } ∷ []
cleanup_list_keeps_example =
    cleanup_list_keeps 90000 (record { timeout = 1000; player_guid = 3 } ∷ []) (omega arith)
      ((omega arith, λ e. omega (arith, e)), tt)

-- There is room for the premium player who waits first: he is admitted, by the other list.
first_is_admitted : client_login 100 50 0 0 0 premium one_waits ≡ by_other_list nobody_waits
unfolding client_login is_exempt settle erase find_client find_from find_wait cleaned cleanup_list
    is_over
first_is_admitted = refl

abbrev event : Task
event = record { expiration = 500; event_id = 4; func = 1 }

abbrev dispatcher : Dispatcher
dispatcher = record { state = thread_state_running; task_list = []; dispatcher_cycle = 0 }

abbrev scheduler : Scheduler
scheduler = record {
  state = thread_state_running;
  last_event_id = 4;
  event_list = event ∷ [];
  event_ids = 4 ∷ [];
}

scheduler-IsOrdered : IsOrdered scheduler.event_list
unfolding IsOrdered
scheduler-IsOrdered = (tt, tt)

none_dispatched : is_dispatched 4 dispatcher.task_list ≡ false
unfolding is_dispatched
none_dispatched = refl

add_event-IsOrdered_example :
    IsOrdered
      (add_event (record { expiration = 100; event_id = 0; func = 2 }) scheduler).0.event_list
add_event-IsOrdered_example =
    add_event-IsOrdered (record { expiration = 100; event_id = 0; func = 2 }) scheduler
      scheduler-IsOrdered

stop_event_silences_example :
    is_dispatched 4 (timeouts 3 (stop_event 4 scheduler).0 dispatcher).1.task_list ≡ false
stop_event_silences_example =
    stop_event_silences 3 4 scheduler dispatcher (λ e. omega (arith, e)) none_dispatched

abbrev errand : ℕ → Task
errand f = record { expiration = 0; event_id = 0; func = f }

abbrev busy : Dispatcher
busy = record {
  state = thread_state_running;
  task_list = run (errand 1) ∷ run (errand 2) ∷ [];
  dispatcher_cycle = 0;
}

play-Contains_example : Contains (errand 2) (play (turn 10 ∷ add (errand 3) ∷ turn 20 ∷ []) busy)
unfolding only_tasks turns
play-Contains_example =
    play-Contains (turn 10 ∷ add (errand 3) ∷ turn 20 ∷ []) (errand 2) (run (errand 1) ∷ []) [] busy
      refl refl refl (omega arith)
