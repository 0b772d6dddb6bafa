-- ===== src/Scheduler/Reach.antt =====
-- The queue of cxk/scheduler.cpp and its counter, under any sequence of the threads' steps.
use cxkframework.Prelude.{
  ℕ, ◌%◌, ◌^◌, ◌<◌, ◌≡◌, refl, sym, ◌∙◌, subst, true, Bool, Option, none, some, List, [], ◌∷◌, ◌++◌,
  length, length-append, All, arith,
}
use cxkframework.Scheduler.{
  FiberAndThread, Scheduler, schedule_no_lock, schedule_all, pick, put_state, Ran, ran_task,
  come_back, settle, no_tasks, stopping, State,
}
use cxkframework.Scheduler.Pick.{is_task}
use cxkframework.Scheduler.Moves.{
  schedule_lem, schedule_all_lem, come_back_lem, settle_lem, took_task, took_no_task, pick_lem,
}

-- the fiber that came back, beside the others
abbrev pub with_ran : Option Ran → List Ran → List Ran
with_ran none back = back
with_ran (some r) back = r ∷ back

-- One step of a thread, where the first list has the tasks that were taken and whose run has not
-- ended, and the second one the fibers that came back and of which nothing was done yet.
pub data Step
    : Scheduler
      → List FiberAndThread
      → List Ran
      → Scheduler
      → List FiberAndThread
      → List Ran
      → Type 0 where
  schedules :
      (t : FiberAndThread) (s : Scheduler) (run : List FiberAndThread) (back : List Ran)
      → Step s run back (schedule_no_lock t s).1 run back
  schedules_all :
      (ts : List FiberAndThread) (s : Scheduler) (run : List FiberAndThread) (back : List Ran)
      → Step s run back (schedule_all ts s).1 run back
  picks :
      (me : ℕ) (tickle : Bool) (t : FiberAndThread) (s s' : Scheduler) (run : List FiberAndThread)
      (back : List Ran)
      → pick me s ≡ some (tickle, (some t, s'))
      → Step s run back s' (t ∷ run) back
  finds_none :
      (me : ℕ) (tickle : Bool) (s s' : Scheduler) (run : List FiberAndThread) (back : List Ran)
      → pick me s ≡ some (tickle, (none, s'))
      → Step s run back s' run back
  ends :
      (t : FiberAndThread) (fresh : ℕ) (after : State) (s : Scheduler) (xs ys : List FiberAndThread)
      (back : List Ran)
      → Step s
          (xs ++ (t ∷ ys))
          back
          (come_back (ran_task t fresh s) after s)
          (xs ++ ys)
          (with_ran (ran_task t fresh s) back)
  settles :
      (r : Ran) (s : Scheduler) (run : List FiberAndThread) (xs ys : List Ran)
      → Step s run (xs ++ (r ∷ ys)) (settle r s) run (xs ++ ys)
  -- `start` and `stop` set the flags
  sets :
      (auto_stop stops : Bool) (s : Scheduler) (run : List FiberAndThread) (back : List Ran)
      → Step s run back (record s { is_auto_stop = auto_stop; is_stopping = stops }) run back
  -- a fiber changes its state while it runs, or elsewhere
  changes :
      (f : ℕ) (st : State) (s : Scheduler) (run : List FiberAndThread) (back : List Ran)
      → Step s run back (put_state f st s) run back

-- from a scheduler without tasks
pub data Reachable : Scheduler → List FiberAndThread → List Ran → Type 0 where
  start :
      (auto_stop stops : Bool) (state : ℕ → State)
      → Reachable
          (record {
            fibers = [];
            active_thread_count = 0;
            is_auto_stop = auto_stop;
            is_stopping = stops;
            state = state;
          })
          []
          []
  step :
      (s s' : Scheduler) (run run' : List FiberAndThread) (back back' : List Ran)
      → Reachable s run back
      → Step s run back s' run' back'
      → Reachable s' run' back'

-- Each task in the queue is one, and the counter is the number of tasks that were taken.
pub record IsSound (s : Scheduler) (run : List FiberAndThread) : Type 0 where
  pub tasks : All (λ t. is_task t ≡ true) s.fibers
  pub active : s.active_thread_count ≡ length run % 2 ^ 64

same_pick : {A : Type 0} {o : Option A} {a b : A} → o ≡ some a → o ≡ some b → a ≡ b
same_pick p q = cc

Step-IsSound :
    (s s' : Scheduler) (run run' : List FiberAndThread) (back back' : List Ran)
    → Step s run back s' run' back'
    → IsSound s run
    → IsSound s' run'
Step-IsSound _ _ _ _ _ _ (schedules t s run back) v =
    let m = schedule_lem t s v.tasks in record { tasks = m.tasks; active = m.active ∙ v.active }
Step-IsSound _ _ _ _ _ _ (schedules_all ts s run back) v =
    let m = schedule_all_lem ts s v.tasks in
    record { tasks = m.tasks; active = m.active ∙ v.active }
Step-IsSound _ _ _ _ _ _ (picks me tickle t s s' run back e) v =
    let (r, p, a) = pick_lem me s v.tasks in
    let (queue, count) = took_task s s' r tickle t (same_pick p e) in
    record {
      tasks = subst (All (λ t. is_task t ≡ true)) (sym queue) a;
      active = let before = v.active in omega (arith, count);
    }
Step-IsSound _ _ _ _ _ _ (finds_none me tickle s s' run back e) v =
    let (r, p, a) = pick_lem me s v.tasks in
    let (queue, count) = took_no_task s s' r tickle (same_pick p e) in
    record { tasks = subst (All (λ t. is_task t ≡ true)) (sym queue) a; active = count ∙ v.active }
Step-IsSound _ _ _ _ _ _ (ends t fresh after s xs ys back) v =
    let m = come_back_lem (ran_task t fresh s) after s v.tasks in
    record {
      tasks = m.tasks;
      active =
          let before = v.active in
          omega (arith, m.active, length-append xs (t ∷ ys), length-append xs ys);
    }
Step-IsSound _ _ _ _ _ _ (settles r s run xs ys) v =
    let m = settle_lem r s v.tasks in record { tasks = m.tasks; active = m.active ∙ v.active }
Step-IsSound _ _ _ _ _ _ (sets auto_stop stops s run back) v = record {
  tasks = v.tasks;
  active = v.active;
}
Step-IsSound _ _ _ _ _ _ (changes f st s run back) v = record { tasks = v.tasks; active = v.active }

-- In each reachable scheduler every task of the queue is one, and the counter is the number of tasks
-- that were taken and not finished, modulo 2 ^ 64.
pub Reachable-IsSound :
    (s : Scheduler) (run : List FiberAndThread) (back : List Ran)
    → Reachable s run back
    → IsSound s run
Reachable-IsSound s run back (start auto_stop stops state) = record { tasks = tt; active = refl }
Reachable-IsSound s run back (step s0 _ run0 _ back0 _ r st) =
    Step-IsSound s0 s run0 run back0 back st (Reachable-IsSound s0 run0 back0 r)

no_tasks-none : (ts : List FiberAndThread) → no_tasks ts ≡ true → ts ≡ []
no_tasks-none [] h = refl
no_tasks-none (t ∷ ts) h = cc

length_zero : (ts : List FiberAndThread) → length ts ≡ 0 → ts ≡ []
length_zero [] h = refl
length_zero (t ∷ ts) h = ground arith

-- In a scheduler that any sequence of schedules, takes, ends of runs, steps after a run, changes of
-- a fiber and settings of the two flags reaches from an empty one, with fewer than 2 ^ 64 tasks
-- that were taken and whose run has not ended: if stopping returns true, then the queue is empty,
-- and no task is taken whose run has not ended. Fibers that came back and of which nothing was done
-- yet may be left.
pub stopping_lem :
    (s : Scheduler) (run : List FiberAndThread) (back : List Ran)
    → Reachable s run back
    → length run < 2 ^ 64
    → stopping s ≡ true
    → (s.fibers ≡ []) × (run ≡ [])
unfolding stopping
stopping_lem s run back r short h =
    let active = (Reachable-IsSound s run back r).active in
    let idle : s.active_thread_count ≡ 0 = ground arith in
    (no_tasks-none s.fibers (ground arith), length_zero run (omega arith))
