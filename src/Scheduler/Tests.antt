-- ===== src/Scheduler/Tests.antt =====
-- Runs of cxk/scheduler.cpp on concrete queues.
use cxkframework.Prelude.{
  ℕ, ◌≡◌, ◌==◌, if◌then◌else◌, refl, true, false, none, some, List, [], ◌∷◌, ◌++◌, get_elem?, arith,
}
use cxkframework.Scheduler.{
  State, hold, exec, term, FiberAndThread, Scheduler, Picked, pick_loop, pick, schedule_no_lock,
  stopping, ready, Ran, ran_task, come_back, settle, settle_by,
}
use cxkframework.Scheduler.Pick.{Choice, pick_loop_lem}
use cxkframework.Scheduler.Reach.{
  Reachable, start, step, schedules, picks, ends, settles, stopping_lem,
}
use cxkframework.Scheduler.Stops.{own, stopping-settle}
use cxkframework.Scheduler.Turns.{turns, turns_lem}

-- the fiber 1 runs, the others are on hold
abbrev one_runs : ℕ → State
one_runs f = if f == 1 then exec else hold

abbrev for_other : FiberAndThread
for_other = record { fiber = some 2; cb = none; thread = some 8 }

abbrev running : FiberAndThread
running = record { fiber = some 1; cb = none; thread = none }

abbrev call_4 : FiberAndThread
call_4 = record { fiber = none; cb = some 4; thread = none }

abbrev call_5 : FiberAndThread
call_5 = record { fiber = none; cb = some 5; thread = some 7 }

abbrev queue : List FiberAndThread
queue = for_other ∷ running ∷ call_4 ∷ call_5 ∷ []

takes_call_4 :
    pick_loop 7 one_runs queue ≡ some (true, (some call_4, for_other ∷ running ∷ call_5 ∷ []))
unfolding pick_loop
takes_call_4 = refl

takes_both : turns 3 7 one_runs queue ≡ call_4 ∷ call_5 ∷ []
unfolding turns pick_loop
takes_both = refl

pick_loop_lem_example :
    (r : Picked) × (pick_loop 7 one_runs queue ≡ some r) × Choice 7 one_runs queue r
pick_loop_lem_example = pick_loop_lem 7 one_runs queue (refl, (refl, (refl, (refl, tt))))

turns_lem_example :
    (j : ℕ) × (get_elem?
        (turns 4 7 one_runs ((for_other ∷ running ∷ call_4 ∷ []) ++ (call_5 ∷ [])))
        j
      ≡ some call_5)
turns_lem_example =
    turns_lem 7 one_runs call_5 (for_other ∷ running ∷ call_4 ∷ []) [] 4 (refl, (refl, (refl, tt)))
      refl refl (omega arith)

abbrev no_run : List FiberAndThread
no_run = []

abbrev fresh : Scheduler
fresh = record {
  fibers = [];
  active_thread_count = 0;
  is_auto_stop = true;
  is_stopping = true;
  state = one_runs;
}

abbrev queued : Scheduler
unfolding schedule_no_lock
queued = (schedule_no_lock call_4 fresh).1

abbrev taken : Scheduler
taken = record fresh { active_thread_count = 1 }

abbrev none_back : List Ran
none_back = []

abbrev ran_4 : Ran
ran_4 = record { by_cb = true; in_fiber = 9 }

abbrev came : Scheduler
unfolding come_back
came = come_back (some ran_4) term taken

abbrev done : Scheduler
unfolding settle settle_by come_back
done = settle ran_4 came

-- The callback 4 was queued and taken.
reaches_taken : Reachable taken (call_4 ∷ []) none_back
unfolding schedule_no_lock pick
reaches_taken =
    step queued taken [] (call_4 ∷ []) [] []
      (step fresh queued [] [] [] [] (start true true one_runs) (schedules call_4 fresh [] []))
      (picks 7 false call_4 queued taken [] [] refl)

-- It was run, and its fiber was reset.
reaches_done : Reachable done no_run none_back
unfolding come_back ran_task settle settle_by
reaches_done =
    step came done [] [] (ran_4 ∷ []) []
      (step taken came (call_4 ∷ []) [] [] (ran_4 ∷ []) reaches_taken
        (ends call_4 9 term taken [] [] []))
      (settles ran_4 came [] [] [])

stopping_lem_example : (done.fibers ≡ []) × (no_run ≡ [])
unfolding come_back settle settle_by stopping
stopping_lem_example = stopping_lem done no_run none_back reaches_done (omega arith) refl

abbrev on_hold : FiberAndThread
on_hold = record { fiber = some 2; cb = none; thread = none }

abbrev holding : Scheduler
unfolding schedule_no_lock
holding = (schedule_no_lock on_hold fresh).1

-- The fiber 2 was queued and taken.
reaches_held : Reachable taken (on_hold ∷ []) none_back
unfolding schedule_no_lock pick
reaches_held =
    step holding taken [] (on_hold ∷ []) [] []
      (step fresh holding [] [] [] [] (start true true one_runs) (schedules on_hold fresh [] []))
      (picks 7 false on_hold holding taken [] [] refl)

stopping-settle_example :
    Reachable (come_back (ran_task on_hold 9 taken) ready taken) [] (own 2 ∷ [])
    × (stopping (come_back (ran_task on_hold 9 taken) ready taken) ≡ true)
    × (stopping (settle (own 2) (come_back (ran_task on_hold 9 taken) ready taken)) ≡ false)
stopping-settle_example =
    stopping-settle taken on_hold 2 9 none_back reaches_held refl refl refl refl refl
