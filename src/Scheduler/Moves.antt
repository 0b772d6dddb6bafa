-- ===== src/Scheduler/Moves.antt =====
-- What each operation of cxk/scheduler.cpp does to the queue and to the counter of tasks.
use cxkframework.Prelude.{
  ℕ, ◌≡◌, refl, sym, ap, ◌∙◌, subst, true, false, Bool, Option, none, some, List, [], ◌∷◌, ◌++◌,
  if◌then◌else◌, All, All-append, All-split, Bool-cases, inl, inr, and_then,
}
use cxkframework.Scheduler.{
  State, init, hold, exec, term, ready, except, FiberAndThread, Scheduler, schedule_no_lock,
  schedule_all, Picked, took, pick, active_up, active_down, put_state, Ran, come_back, settle_by,
  settle,
}
use cxkframework.Scheduler.Pick.{is_task, Choice, nothing, first, pick_loop_lem}

-- what an operation does to the queue and the counter
pub record Moves (s s' : Scheduler) (n : ℕ) : Type 0 where
  pub tasks : All (λ t. is_task t ≡ true) s'.fibers
  pub active : s'.active_thread_count ≡ n

pub schedule_lem :
    (t : FiberAndThread) (s : Scheduler)
    → All (λ t. is_task t ≡ true) s.fibers
    → Moves s (schedule_no_lock t s).1 s.active_thread_count
unfolding schedule_no_lock
schedule_lem t s a = elim (Bool-cases (is_task t)) [
  | inl good ↦
      subst (λ q. Moves s q s.active_thread_count)
        (sym (ap (λ b. if b then record s { fibers = s.fibers ++ (t ∷ []) } else s) good))
        (record {
          tasks = All-append (λ t. is_task t ≡ true) s.fibers (t ∷ []) a (good, tt);
          active = refl;
        })
  | inr bad ↦
      subst (λ q. Moves s q s.active_thread_count)
        (sym (ap (λ b. if b then record s { fibers = s.fibers ++ (t ∷ []) } else s) bad))
        (record { tasks = a; active = refl })
]

pub schedule_all_lem :
    (ts : List FiberAndThread) (s : Scheduler)
    → All (λ t. is_task t ≡ true) s.fibers
    → Moves s (schedule_all ts s).1 s.active_thread_count
unfolding schedule_all
schedule_all_lem [] s a = record { tasks = a; active = refl }
schedule_all_lem (t ∷ ts) s a =
    let one = schedule_lem (record t { thread = none }) s a in
    let rest = schedule_all_lem ts (schedule_no_lock (record t { thread = none }) s).1 one.tasks in
    record { tasks = rest.tasks; active = rest.active ∙ one.active }

pub come_back_lem :
    (r : Option Ran) (after : State) (s : Scheduler)
    → All (λ t. is_task t ≡ true) s.fibers
    → Moves s (come_back r after s) (active_down s.active_thread_count)
unfolding come_back
come_back_lem none after s a = record { tasks = a; active = refl }
come_back_lem (some r) after s a = record { tasks = a; active = refl }

reset_if :
    (b : Bool) (f : ℕ) (s : Scheduler)
    → All (λ t. is_task t ≡ true) s.fibers
    → Moves s (if b then put_state f init s else s) s.active_thread_count
reset_if true f s a = record { tasks = a; active = refl }
reset_if false f s a = record { tasks = a; active = refl }

settle_by_lem :
    (st : State) (r : Ran) (s : Scheduler)
    → All (λ t. is_task t ≡ true) s.fibers
    → Moves s (settle_by st r s) s.active_thread_count
unfolding settle_by schedule_no_lock
settle_by_lem ready r s a = record {
  tasks = All-append (λ t. is_task t ≡ true) s.fibers (_ ∷ []) a (refl, tt);
  active = refl;
}
settle_by_lem term r s a = reset_if r.by_cb r.in_fiber s a
settle_by_lem except r s a = reset_if r.by_cb r.in_fiber s a
settle_by_lem init r s a = record { tasks = a; active = refl }
settle_by_lem hold r s a = record { tasks = a; active = refl }
settle_by_lem exec r s a = record { tasks = a; active = refl }

pub settle_lem :
    (r : Ran) (s : Scheduler)
    → All (λ t. is_task t ≡ true) s.fibers
    → Moves s (settle r s) s.active_thread_count
unfolding settle
settle_lem r s a = settle_by_lem (s.state r.in_fiber) r s a

Choice-All :
    (me : ℕ) (state : ℕ → State) (ts : List FiberAndThread) (r : Picked)
    → All (λ t. is_task t ≡ true) ts
    → Choice me state ts r
    → All (λ t. is_task t ≡ true) r.1.1
Choice-All me state _ _ a (nothing ts n) = a
Choice-All me state _ _ a (first before after t n f) =
    let (front, back) = All-split (λ t. is_task t ≡ true) before (t ∷ after) a in
    All-append (λ t. is_task t ≡ true) before after front back.1

pub took_task :
    (s s' : Scheduler) (r : Picked) (tickle : Bool) (t : FiberAndThread)
    → took s r ≡ (tickle, (some t, s'))
    → (s'.fibers ≡ r.1.1) × (s'.active_thread_count ≡ active_up s.active_thread_count)
took_task s s' (b, (none, ts)) tickle t e = cc
took_task s s' (b, (some x, ts)) tickle t e =
    (sym (ap (λ p. p.1.1.fibers) e), sym (ap (λ p. p.1.1.active_thread_count) e))

pub took_no_task :
    (s s' : Scheduler) (r : Picked) (tickle : Bool)
    → took s r ≡ (tickle, (none, s'))
    → (s'.fibers ≡ r.1.1) × (s'.active_thread_count ≡ s.active_thread_count)
took_no_task s s' (b, (none, ts)) tickle e =
    (sym (ap (λ p. p.1.1.fibers) e), sym (ap (λ p. p.1.1.active_thread_count) e))
took_no_task s s' (b, (some x, ts)) tickle e = cc

pub pick_lem :
    (me : ℕ) (s : Scheduler)
    → All (λ t. is_task t ≡ true) s.fibers
    → (r : Picked) × (pick me s ≡ some (took s r)) × All (λ t. is_task t ≡ true) r.1.1
unfolding pick
pick_lem me s a =
    let (r, e, c) = pick_loop_lem me s.state s.fibers a in
    (r, ap (λ o. and_then o (λ r. some (took s r))) e, Choice-All me s.state s.fibers r a c)
