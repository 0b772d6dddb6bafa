-- ===== src/Scheduler.antt =====
-- `Scheduler` of cxk/scheduler.cpp and cxk/scheduler.h: the queue of tasks, the choice of a task for a
-- thread, and what is done after it ran. A fiber and a callback are numbers, `none` is a null pointer
-- or the thread -1; the states of the fibers stand beside the scheduler, since others share them.
use cxkframework.Prelude.{
  ℕ, zero, suc, ◌+◌, ◌-◌, ◌%◌, ◌^◌, true, false, Bool, not, ◌&&◌, ◌||◌, Option, none, some, List,
  [], ◌∷◌, ◌++◌, ◌==◌, if◌then◌else◌, and_then,
}
pub mod Pick
pub mod Moves
pub mod Reach
pub mod Stops
pub mod Turns
mod Tests

-- `Fiber::State`
pub data State : Type 0 where
  init hold exec term ready except : State

pub record FiberAndThread : Type 0 where
  pub fiber : Option ℕ
  pub cb : Option ℕ
  pub thread : Option ℕ

pub record Scheduler : Type 0 where
  pub fibers : List FiberAndThread
  pub active_thread_count : ℕ
  pub is_auto_stop : Bool
  pub is_stopping : Bool
  pub state : ℕ → State

abbrev pub is_set : Option ℕ → Bool
is_set none = false
is_set (some a) = true

abbrev pub is_exec : State → Bool
is_exec exec = true
is_exec _ = false

-- TERM or EXCEPT
abbrev pub is_over : State → Bool
is_over term = true
is_over except = true
is_over _ = false

abbrev pub no_tasks : List FiberAndThread → Bool
no_tasks [] = true
no_tasks (t ∷ ts) = false

-- `scheduleNoLock`: whether another thread is to be woken
unfoldable pub schedule_no_lock : FiberAndThread → Scheduler → Bool × Scheduler
schedule_no_lock t s = (
  no_tasks s.fibers,
  if is_set t.fiber || is_set t.cb then record s { fibers = s.fibers ++ (t ∷ []) } else s,
)

-- `schedule` of several tasks, for any thread
unfoldable pub schedule_all : List FiberAndThread → Scheduler → Bool × Scheduler
unfolding schedule_no_lock
schedule_all [] s = (false, s)
schedule_all (t ∷ ts) s =
    let later = schedule_all ts (schedule_no_lock (record t { thread = none }) s).1 in
    ((schedule_no_lock (record t { thread = none }) s).0 || later.0, later.1)

-- the thread of a task is another one than `me`
abbrev pub elsewhere : ℕ → FiberAndThread → Bool
elsewhere me t = elim t.thread [ none ↦ false | some n ↦ not (n == me) ]

-- the fiber of a task runs
abbrev pub runs : (ℕ → State) → FiberAndThread → Bool
runs state t = elim t.fiber [ none ↦ false | some f ↦ is_exec (state f) ]

-- What the loop finds: `tickle_me`, the task if there is one, and the queue without it.
abbrev pub Picked : Type 0
Picked = Bool × (Option FiberAndThread × List FiberAndThread)

abbrev pub passing : Bool → FiberAndThread → Option Picked → Option Picked
passing tickle t none = none
passing tickle t (some (b, (o, ts))) = some (tickle || b, (o, t ∷ ts))

-- The loop of `run` over the queue, on the thread `me`; `none` is its assertion.
unfoldable pub pick_loop : ℕ → (ℕ → State) → List FiberAndThread → Option Picked
pick_loop me state [] = some (false, (none, []))
pick_loop me state (t ∷ ts) =
    let later = pick_loop me state ts in
    if elsewhere me t
    then passing true t later
    else (if not (is_set t.fiber) && not (is_set t.cb)
        then none
        else (if runs state t
            then passing false t later
            else some (not (no_tasks ts), (some t, ts))))

-- `m_activeThreadCount`, which counts the threads that have a task
abbrev pub active_up : ℕ → ℕ
active_up n = (n + 1) % 2 ^ 64

abbrev pub active_down : ℕ → ℕ
active_down n = (n + (2 ^ 64 - 1)) % 2 ^ 64

abbrev pub took : Scheduler → Picked → Bool × (Option FiberAndThread × Scheduler)
took s (tickle, (none, ts)) = (tickle, (none, record s { fibers = ts }))
took s (tickle, (some t, ts)) = (
  tickle,
  (some t, record s { fibers = ts; active_thread_count = active_up s.active_thread_count }),
)

unfoldable pub pick : ℕ → Scheduler → Option (Bool × (Option FiberAndThread × Scheduler))
unfolding pick_loop
pick me s = and_then (pick_loop me s.state s.fibers) (λ r. some (took s r))

abbrev pub put_state : ℕ → State → Scheduler → Scheduler
put_state f st s = record s { state = λ g. if g == f then st else s.state g }

-- The fiber that a task was run in: its own, or `cb_fiber`, which is then to be reset.
pub record Ran : Type 0 where
  pub by_cb : Bool
  pub in_fiber : ℕ

-- The branches of `run` for the callback of a task, and for its fiber, where `fresh` is the fiber
-- that a callback runs in; `none` is a task that has nothing to run. The test of the state stands at
-- the end of the run.
unfoldable pub ran_cb : Option ℕ → ℕ → Option Ran
ran_cb none fresh = none
ran_cb (some c) fresh = some (record { by_cb = true; in_fiber = fresh })

unfoldable pub ran_fiber : Option ℕ → Option ℕ → ℕ → Scheduler → Option Ran
ran_fiber none cb fresh s = ran_cb cb fresh
ran_fiber (some f) cb fresh s =
    if not (is_over (s.state f))
    then some (record { by_cb = false; in_fiber = f })
    else ran_cb cb fresh

unfoldable pub ran_task : FiberAndThread → ℕ → Scheduler → Option Ran
unfolding ran_fiber ran_cb
ran_task t fresh s = ran_fiber t.fiber t.cb fresh s

-- `swapIn` comes back, with the fiber in the state `after`, and the counter goes down. No lock is
-- held from here to `settle`.
unfoldable pub come_back : Option Ran → State → Scheduler → Scheduler
come_back none after s = record s { active_thread_count = active_down s.active_thread_count }
come_back (some r) after s =
    put_state r.in_fiber after
      (record s { active_thread_count = active_down s.active_thread_count })

-- What is done then, by the state of the fiber: it is queued again, for any thread, or put on hold;
-- a `cb_fiber` that is over is reset, which brings it to INIT.
unfoldable pub settle_by : State → Ran → Scheduler → Scheduler
unfolding schedule_no_lock
settle_by ready r s =
    (schedule_no_lock (record { fiber = some r.in_fiber; cb = none; thread = none }) s).1
settle_by term r s = if r.by_cb then put_state r.in_fiber init s else s
settle_by except r s = if r.by_cb then put_state r.in_fiber init s else s
settle_by init r s = put_state r.in_fiber hold s
settle_by hold r s = put_state r.in_fiber hold s
settle_by exec r s = put_state r.in_fiber hold s

unfoldable pub settle : Ran → Scheduler → Scheduler
unfolding settle_by
settle r s = settle_by (s.state r.in_fiber) r s

unfoldable pub stopping : Scheduler → Bool
stopping s = s.is_stopping && s.is_auto_stop && no_tasks s.fibers && (s.active_thread_count == 0)
