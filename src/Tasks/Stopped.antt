-- ===== src/Tasks/Stopped.antt =====
-- A stopped event does not run (src/scheduler.cpp).
use infernum_data_pack.Base.{
  ℕ, zero, suc, ◌≡◌, ◌≢◌, sym, ap, ◌∙◌, ==→eq, Bool, true, false, List, [], ◌∷◌, arith, ◌==◌,
  if◌then◌else◌, Bool-cases, inl, inr,
}
use infernum_data_pack.Tasks.{
  Job, run, terminate, Task, Dispatcher, Scheduler, is_active, deactivate, stop_event, on_timeout,
  add_task, set_dont_expire,
}

-- Whether the dispatcher has the task of an event.
unfoldable pub is_dispatched : ℕ → List Job → Bool
is_dispatched id [] = false
is_dispatched id (run t ∷ js) = if t.event_id == id then true else is_dispatched id js
is_dispatched id (terminate ∷ js) = is_dispatched id js

-- `n` timeouts of the scheduler.
unfoldable pub timeouts : ℕ → Scheduler → Dispatcher → Scheduler × Dispatcher
unfolding on_timeout
timeouts zero s d = (s, d)
timeouts (suc n) s d = let (s', d') = on_timeout s d s.event_list in timeouts n s' d'

is_active-deactivate :
    (i j : ℕ) (is : List ℕ)
    → is_active i (deactivate j is) ≡ (if j == i then false else is_active i is)
unfolding is_active deactivate
is_active-deactivate i j [] = ground arith
is_active-deactivate i j (k ∷ is) = ground (arith, is_active-deactivate i j is)

-- An event that is not active stays so, and is not dispatched.
pub record IsSilent (id : ℕ) (s : Scheduler) (d : Dispatcher) : Type 0 where
  pub inactive : is_active id s.event_ids ≡ false
  pub absent : is_dispatched id d.task_list ≡ false

conflict : true ≢ false
conflict h = ground arith

differ : (i j : ℕ) (is : List ℕ) → is_active i is ≡ true → is_active j is ≡ false → (i == j) ≡ false
differ i j is h k = elim (Bool-cases (i == j)) [
  | inr e ↦ e
  | inl e ↦ absurd (conflict (sym h ∙ (ap (λ x. is_active x is) (==→eq i j e) ∙ k)))
]

add_task-absent :
    (id : ℕ) (t : Task) (d : Dispatcher)
    → (t.event_id == id) ≡ false
    → is_dispatched id d.task_list ≡ false
    → is_dispatched id (add_task (set_dont_expire t) true d).task_list ≡ false
unfolding add_task set_dont_expire is_dispatched
add_task-absent id t d h a = ground (arith, h, a)

on_timeout-IsSilent :
    (id : ℕ) (s : Scheduler) (d : Dispatcher) (ts : List Task)
    → IsSilent id s d
    → let r = on_timeout s d ts in IsSilent id r.0 r.1
unfolding on_timeout
on_timeout-IsSilent id s d [] q = q
on_timeout-IsSilent id s d (t ∷ ts) q = elim (Bool-cases (is_active (t.event_id) s.event_ids)) [
  | inr h ↦ simp h (record { inactive = q.inactive; absent = q.absent })
  | inl h ↦ simp h (record {
    inactive = ground (arith, q.inactive, is_active-deactivate id (t.event_id) s.event_ids);
    absent = add_task-absent id t d (differ (t.event_id) id s.event_ids h q.inactive) q.absent;
  })
]

timeouts-IsSilent :
    (n id : ℕ) (s : Scheduler) (d : Dispatcher)
    → IsSilent id s d
    → let r = timeouts n s d in IsSilent id r.0 r.1
unfolding timeouts
timeouts-IsSilent zero id s d q = q
timeouts-IsSilent (suc n) id s d q =
    let r = on_timeout s d s.event_list in
    timeouts-IsSilent n id r.0 r.1 (on_timeout-IsSilent id s d s.event_list q)

-- An event that is stopped before its time never gets to the dispatcher, however many timeouts the
-- scheduler has: not when it was waiting, and not when it had been stopped before. Its identifier is not
-- zero, and the dispatcher does not have it yet.
pub stop_event_silences :
    (n id : ℕ) (s : Scheduler) (d : Dispatcher)
    → id ≢ 0
    → is_dispatched id d.task_list ≡ false
    → is_dispatched id (timeouts n (stop_event id s).0 d).1.task_list ≡ false
stop_event_silences n id s d h a =
    (timeouts-IsSilent n id (stop_event id s).0 d record {
      inactive = unfold stop_event in ground (arith, h, is_active-deactivate id id s.event_ids);
      absent = a;
    }).absent
