-- ===== src/Tasks.antt =====
-- src/tasks.cpp and src/tasks.h: the dispatcher's queue, and src/scheduler.cpp and src/scheduler.h: the
-- timed events that end there. A lock is held over each function here, so that calls come one by one;
-- time is a number of milliseconds.
pub mod Order
pub mod Stopped
pub mod Turns
use infernum_data_pack.Base.{
  ℕ, ◌+◌, ◌%◌, Bool, true, false, List, [], ◌∷◌, ◌++◌, Option, none, some, ◌==◌, ltb, if◌then◌else◌,
}

pub data ThreadState : Type 0 where
  thread_state_running thread_state_closing thread_state_terminated : ThreadState

-- A `Task`, or a `SchedulerTask` with its `eventId`; `func` names the function that it runs.
pub record Task : Type 0 where
  -- `SYSTEM_TIME_ZERO` for a task that does not expire.
  pub expiration : ℕ
  pub event_id : ℕ
  pub func : ℕ

-- What the dispatcher's queue holds: a task, or the one that `shutdown` puts there.
pub data Job : Type 0 where
  run : Task → Job
  terminate : Job

pub record Dispatcher : Type 0 where
  pub state : ThreadState
  pub task_list : List Job
  pub dispatcher_cycle : ℕ

unfoldable pub has_expired : ℕ → Task → Bool
has_expired now t = if t.expiration == 0 then false else ltb (t.expiration) now

unfoldable pub set_dont_expire : Task → Task
set_dont_expire t = record t { expiration = 0 }

abbrev pub is_running : ThreadState → Bool
is_running thread_state_running = true
is_running thread_state_closing = false
is_running thread_state_terminated = false

unfoldable pub add_task : Task → Bool → Dispatcher → Dispatcher
add_task t push_front d =
    if is_running (d.state)
    then record d {
      task_list = if push_front then run t ∷ d.task_list else d.task_list ++ run t ∷ [];
    }
    else d

unfoldable pub shutdown_dispatcher : Dispatcher → Dispatcher
shutdown_dispatcher d = record d { task_list = d.task_list ++ terminate ∷ [] }

-- One turn of the loop of `Dispatcher::threadMain` on the queue, which the thread enters as long as its
-- state is not terminated: what it runs, and the dispatcher afterwards.
unfoldable pub take_job : ℕ → Dispatcher → List Job → Dispatcher × Option Task
unfolding has_expired
take_job now d [] = (d, none)
take_job now d (run t ∷ js) =
    if has_expired now t
    then (record d { task_list = js }, none)
    else (record d { task_list = js; dispatcher_cycle = d.dispatcher_cycle + 1 }, some t)
take_job now d (terminate ∷ js) = (
  record d {
    task_list = js;
    dispatcher_cycle = d.dispatcher_cycle + 1;
    state = thread_state_terminated;
  },
  none,
)

pub record Scheduler : Type 0 where
  pub state : ThreadState
  pub last_event_id : ℕ
  -- The priority queue, its top first; the `expiration` of a task is its cycle.
  pub event_list : List Task
  pub event_ids : List ℕ

unfoldable pub is_active : ℕ → List ℕ → Bool
is_active id [] = false
is_active id (i ∷ is) = if i == id then true else is_active id is

-- `erase` of an `unordered_set`, which holds an identifier at most once.
unfoldable pub deactivate : ℕ → List ℕ → List ℕ
deactivate id [] = []
deactivate id (i ∷ is) = let rest = deactivate id is in if i == id then rest else i ∷ rest

unfoldable pub activate : ℕ → List ℕ → List ℕ
unfolding is_active
activate id is = if is_active id is then is else id ∷ is

-- `push`: in front of the events of a later cycle.
unfoldable pub push_event : Task → List Task → List Task
push_event t [] = t ∷ []
push_event t (u ∷ us) =
    let rest = push_event t us in if ltb (t.expiration) (u.expiration) then t ∷ u ∷ us else u ∷ rest

-- `++lastEventId`, which skips zero when the 32 bits are used up.
unfoldable pub next_event_id : ℕ → ℕ
next_event_id i = if (i + 1) % 4294967296 == 0 then 1 else (i + 1) % 4294967296

-- `addEvent` once the task has its identifier.
unfoldable pub insert_event : Task → Scheduler → Scheduler × ℕ
unfolding activate push_event
insert_event t s = (
  record s {
    event_ids = activate (t.event_id) s.event_ids;
    event_list = push_event t s.event_list;
  },
  t.event_id,
)

unfoldable pub add_event : Task → Scheduler → Scheduler × ℕ
unfolding insert_event next_event_id
add_event t s =
    if is_running (s.state)
    then (if t.event_id == 0
        then (let id = next_event_id s.last_event_id in
            insert_event (record t { event_id = id }) (record s { last_event_id = id }))
        else insert_event t s)
    else (s, 0)

unfoldable pub stop_event : ℕ → Scheduler → Scheduler × Bool
unfolding is_active deactivate
stop_event id s =
    if id == 0
    then (s, false)
    else if is_active id s.event_ids
    then (record s { event_ids = deactivate id s.event_ids }, true)
    else (s, false)

-- The timeout of `Scheduler::threadMain` on the queue.
unfoldable pub on_timeout : Scheduler → Dispatcher → List Task → Scheduler × Dispatcher
unfolding is_active deactivate add_task set_dont_expire
on_timeout s d [] = (s, d)
on_timeout s d (t ∷ ts) =
    if is_active (t.event_id) s.event_ids
    then (
      record s { event_list = ts; event_ids = deactivate (t.event_id) s.event_ids },
      add_task (set_dont_expire t) true d,
    )
    else (record s { event_list = ts }, d)

unfoldable pub shutdown_scheduler : Scheduler → Scheduler
shutdown_scheduler s = record s { state = thread_state_terminated; event_list = []; event_ids = [] }
