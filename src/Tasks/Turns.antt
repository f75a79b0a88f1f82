-- ===== src/Tasks/Turns.antt =====
-- Every task of the dispatcher's queue gets its turn (src/tasks.cpp).
use infernum_data_pack.Base.{
  ℕ, suc, ◌+◌, ◌<◌, ◌≡◌, ◌⊎◌, inl, inr, refl, sym, ap, ◌∙◌, subst, Bool, true, false, List, [], ◌∷◌,
  ◌++◌, append_assoc, Option, none, some, length, arith, Bool-cases,
}
use infernum_data_pack.Tasks.{
  Task, Job, run, terminate, Dispatcher, add_task, is_running, take_job, has_expired,
}

-- What happens to the queue: the thread, which is not terminated, takes a job at a time, or a caller adds a
-- task at the end.
pub data Event : Type 0 where
  turn : ℕ → Event
  add : Task → Event

abbrev pub ran : Option Task → List Task
ran none = []
ran (some t) = t ∷ []

-- The tasks that run, in order.
unfoldable pub play : List Event → Dispatcher → List Task
unfolding take_job add_task
play [] d = []
play (turn now ∷ es) d = let r = take_job now d d.task_list in ran r.1 ++ play es r.0
play (add t ∷ es) d = play es (add_task t false d)

unfoldable pub turns : List Event → ℕ
turns [] = 0
turns (turn now ∷ es) = suc (turns es)
turns (add t ∷ es) = turns es

-- No shutdown stands among the jobs.
unfoldable pub only_tasks : List Job → Bool
only_tasks [] = true
only_tasks (run t ∷ js) = only_tasks js
only_tasks (terminate ∷ js) = false

unfoldable pub Contains : Task → List Task → Type 0
Contains t [] = ⊥
Contains t (u ∷ us) = (u ≡ t) ⊎ Contains t us

not_expired : (now : ℕ) (t : Task) → t.expiration ≡ 0 → has_expired now t ≡ false
unfolding has_expired
not_expired now t x = rw x refl

-- A task that does not expire runs, once the thread has taken as many jobs as stand before it and one
-- more, whatever tasks are added behind meanwhile, if no shutdown stands before it.
pub play-Contains :
    (es : List Event) (t : Task) (js ks : List Job) (d : Dispatcher)
    → d.task_list ≡ js ++ run t ∷ ks
    → only_tasks js ≡ true
    → t.expiration ≡ 0
    → length js < turns es
    → Contains t (play es d)
unfolding play turns only_tasks add_task take_job Contains
play-Contains [] t js ks d q o x h = absurd (omega (arith, h))
play-Contains (add u ∷ es) t js ks d q o x h = elim (Bool-cases (is_running d.state)) [
  | inl r ↦ simp r (
      play-Contains es t js (ks ++ (run u ∷ [])) _
        (ap (λ l. l ++ (run u ∷ [])) q ∙ append_assoc js (run t ∷ ks) (run u ∷ [])) o x h)
  | inr r ↦ simp r (play-Contains es t js ks d q o x h)
]
play-Contains (turn now ∷ es) t [] ks d q o x h =
    subst (λ l. Contains t (ran (take_job now d l).1 ++ play es (take_job now d l).0)) (sym q)
      (simp (not_expired now t x) (inl refl))
play-Contains (turn now ∷ es) t (run u ∷ js) ks d q o x h =
    subst (λ l. Contains t (ran (take_job now d l).1 ++ play es (take_job now d l).0)) (sym q)
      (elim (Bool-cases (has_expired now u)) [
        | inl e ↦ simp e (
            play-Contains es t js ks (record d { task_list = js ++ (run t ∷ ks) }) refl o x
              (omega (arith, h)))
        | inr e ↦ simp e (
            inr (
              play-Contains es t js ks
                (record d {
                  task_list = js ++ (run t ∷ ks);
                  dispatcher_cycle = d.dispatcher_cycle + 1;
                })
                refl o x (omega (arith, h))))
      ])
play-Contains (turn now ∷ es) t (terminate ∷ js) ks d q o x h = absurd (ground (arith, o))
