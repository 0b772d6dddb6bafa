-- ===== src/Scheduler/Stops.antt =====
-- What `stopping` of cxk/scheduler.cpp says while a fiber has come back and is not queued again yet.
use cxkframework.Prelude.{
  ℕ, ap, false, ==_of, ◌≡◌, refl, sym, ◌∙◌, subst, true, none, some, List, [], ◌∷◌, ◌++◌, arith,
}
use cxkframework.Scheduler.{
  FiberAndThread, Scheduler, schedule_no_lock, Ran, ran_task, come_back, settle, settle_by,
  ran_fiber, is_over, no_tasks, stopping, ready,
}
use cxkframework.Scheduler.Reach.{Reachable, step, ends, with_ran, Reachable-IsSound}

abbrev pub own : ℕ → Ran
own f = record { by_cb = false; in_fiber = f }

ran_own :
    (s : Scheduler) (t : FiberAndThread) (f fresh : ℕ)
    → t.fiber ≡ some f
    → is_over (s.state f) ≡ false
    → ran_task t fresh s ≡ some (own f)
unfolding ran_task ran_fiber
ran_own s t f fresh task alive = ap (λ o. ran_fiber o t.cb fresh s) task ∙ rw alive refl

-- A fiber that came back READY is queued again.
settle-ready :
    (s : Scheduler) (f : ℕ)
    → (settle (own f) (come_back (some (own f)) ready s)).fibers
      ≡ s.fibers ++ (record { fiber = some f; cb = none; thread = none } ∷ [])
unfolding settle come_back settle_by schedule_no_lock
settle-ready s f = rw (==_of f f refl) refl

-- What `stopping` says before and after it is queued.
stopping_back :
    (s : Scheduler) (f : ℕ)
    → s.fibers ≡ []
    → s.active_thread_count ≡ 1
    → s.is_stopping ≡ true
    → s.is_auto_stop ≡ true
    → stopping (come_back (some (own f)) ready s) ≡ true
unfolding stopping come_back
stopping_back s f empty active stops auto_stop = rw stops (rw auto_stop (rw empty (rw active refl)))

stopping-queued :
    (s : Scheduler) (t : FiberAndThread) (ts : List FiberAndThread)
    → s.fibers ≡ t ∷ ts
    → stopping s ≡ false
unfolding stopping
stopping-queued s t ts queue =
    let some_task : no_tasks s.fibers ≡ false = ap no_tasks queue in ground arith

-- In a reachable scheduler with an empty queue and both flags set, where one task is taken, that of
-- a fiber which is not over: when the fiber comes back READY, the scheduler that is then reached
-- says that it can stop; when the fiber is queued again, the next step, it says that it cannot.
pub stopping-settle :
    (s : Scheduler) (t : FiberAndThread) (f fresh : ℕ) (back : List Ran)
    → Reachable s (t ∷ []) back
    → s.fibers ≡ []
    → s.is_stopping ≡ true
    → s.is_auto_stop ≡ true
    → t.fiber ≡ some f
    → is_over (s.state f) ≡ false
    → Reachable (come_back (ran_task t fresh s) ready s) [] (own f ∷ back)
      × (stopping (come_back (ran_task t fresh s) ready s) ≡ true)
      × (stopping (settle (own f) (come_back (ran_task t fresh s) ready s)) ≡ false)
stopping-settle s t f fresh back r empty stops auto_stop task alive =
    let active : s.active_thread_count ≡ 1 = (Reachable-IsSound s (t ∷ []) back r).active in
    let same = ran_own s t f fresh task alive in
    let queue =
      settle-ready s f
      ∙ ap (λ q. q ++ (record { fiber = some f; cb = none; thread = none } ∷ [])) empty in
    (
      subst (λ o. Reachable (come_back (ran_task t fresh s) ready s) [] (with_ran o back)) same
          (step s (come_back (ran_task t fresh s) ready s) (t ∷ []) [] back
            (with_ran (ran_task t fresh s) back) r (ends t fresh ready s [] [] back)),
      subst (λ o. stopping (come_back o ready s) ≡ true) (sym same)
          (stopping_back s f empty active stops auto_stop),
      subst (λ o. stopping (settle (own f) (come_back o ready s)) ≡ false) (sym same)
          (stopping-queued _ _ [] queue),
    )
