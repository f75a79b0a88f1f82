-- ===== src/Tasks/Order.antt =====
-- The scheduler's queue is ordered by time (src/scheduler.cpp).
use infernum_data_pack.Base.{ℕ, ◌≤◌, List, [], ◌∷◌, All, arith, ltb, ◌==◌, Bool-cases, inl, inr}
use infernum_data_pack.Tasks.{
  Task, Scheduler, push_event, insert_event, add_event, next_event_id, is_running,
}

-- Each event is due no later than those behind it.
unfoldable pub IsOrdered : List Task → Type 0
IsOrdered [] = Unit
IsOrdered (t ∷ ts) = All (λ u. t.expiration ≤ u.expiration) ts × IsOrdered ts

module _ (m : ℕ) where
  later :
      (t : Task) (ts : List Task)
      → m ≤ t.expiration
      → All (λ u. m ≤ u.expiration) ts
      → All (λ u. m ≤ u.expiration) (push_event t ts)
  unfolding push_event
  later t [] h a = (h, tt)
  later t (u ∷ us) h a = elim (Bool-cases (ltb (t.expiration) (u.expiration))) [
    | inl e ↦ simp e (h, a)
    | inr e ↦ simp e (a.0, later t us h a.1)
  ]

earlier :
    (a b : ℕ) (ts : List Task)
    → a ≤ b
    → All (λ u. b ≤ u.expiration) ts
    → All (λ u. a ≤ u.expiration) ts
earlier a b [] h l = tt
earlier a b (t ∷ ts) h l = (omega (arith, l.0), earlier a b ts h l.1)

push_event-IsOrdered : (t : Task) (ts : List Task) → IsOrdered ts → IsOrdered (push_event t ts)
unfolding push_event IsOrdered
push_event-IsOrdered t [] o = (tt, tt)
push_event-IsOrdered t (u ∷ us) o = elim (Bool-cases (ltb (t.expiration) (u.expiration))) [
  | inl e ↦
      simp e
        ((ground (arith, e), earlier (t.expiration) (u.expiration) us (ground (arith, e)) o.0), o)
  | inr e ↦
      simp e (later (u.expiration) t us (ground (arith, e)) o.0, push_event-IsOrdered t us o.1)
]

-- Adding an event keeps the queue ordered by the time at which its events are due, so that the one the
-- scheduler waits for is due first.
pub add_event-IsOrdered :
    (t : Task) (s : Scheduler) → IsOrdered s.event_list → IsOrdered (add_event t s).0.event_list
unfolding add_event insert_event
add_event-IsOrdered t s o = elim (Bool-cases (is_running (s.state))) [
  | inr h ↦ simp h o
  | inl h ↦ elim (Bool-cases (t.event_id == 0)) [
    | inl e ↦
        simp (h, e)
          (push_event-IsOrdered (record t { event_id = next_event_id s.last_event_id }) s.event_list
            o)
    | inr e ↦ simp (h, e) (push_event-IsOrdered t s.event_list o)
  ]
]
