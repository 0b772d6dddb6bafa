-- ===== src/Scheduler/Pick.antt =====
-- The task that a thread of cxk/scheduler.cpp takes from the queue.
use cxkframework.Prelude.{
  ℕ, ◌≡◌, refl, ap, subst, true, false, Bool, not, ◌&&◌, ◌||◌, Option, none, some, List, [], ◌∷◌,
  ◌++◌, All, arith, Bool-cases, inl, inr,
}
use cxkframework.Scheduler.{
  State, FiberAndThread, is_set, no_tasks, elsewhere, runs, Picked, passing, pick_loop,
}

-- A task has a fiber or a callback.
abbrev pub is_task : FiberAndThread → Bool
is_task t = is_set t.fiber || is_set t.cb

-- The thread can take the task.
abbrev pub is_free : ℕ → (ℕ → State) → FiberAndThread → Bool
is_free me state t = not (elsewhere me t) && not (runs state t)

abbrev pub any_elsewhere : ℕ → List FiberAndThread → Bool
any_elsewhere me [] = false
any_elsewhere me (t ∷ ts) = elsewhere me t || any_elsewhere me ts

-- The first task that the thread can take, out of a queue; or none can be taken.
pub data Choice (me : ℕ) (state : ℕ → State) : List FiberAndThread → Picked → Type 0 where
  nothing :
      (ts : List FiberAndThread)
      → All (λ t. is_free me state t ≡ false) ts
      → Choice me state ts (any_elsewhere me ts, (none, ts))
  first :
      (before after : List FiberAndThread) (t : FiberAndThread)
      → All (λ t. is_free me state t ≡ false) before
      → is_free me state t ≡ true
      → Choice me state
          (before ++ (t ∷ after))
          (any_elsewhere me before || not (no_tasks after), (some t, before ++ after))

||_assoc : (a b c : Bool) → ((a || b) || c) ≡ (a || (b || c))
||_assoc true b c = refl
||_assoc false b c = refl

passes :
    (me : ℕ) (state : ℕ → State) (t : FiberAndThread) (ts : List FiberAndThread) (r : Picked)
    → is_free me state t ≡ false
    → Choice me state ts r
    → Choice me state (t ∷ ts) (elsewhere me t || r.0, (r.1.0, t ∷ r.1.1))
passes me state t _ _ h (nothing ts a) = nothing (t ∷ ts) (h, a)
passes me state t _ _ h (first before after x a f) =
    subst (λ b. Choice me state (t ∷ (before ++ (x ∷ after))) (b, (some x, t ∷ (before ++ after))))
      (||_assoc (elsewhere me t) (any_elsewhere me before) (not (no_tasks after)))
      (first (t ∷ before) after x (h, a) f)

-- Where each task of the queue has a fiber or a callback, the loop of run ends without its
-- assertion: it takes the first task that is for this thread, or for any, and whose fiber does not
-- run, and leaves the others in their order; or it takes none, if there is no such task. It wakes
-- another thread if it passed a task of another thread, or took one that was not the last.
pub pick_loop_lem :
    (me : ℕ) (state : ℕ → State) (ts : List FiberAndThread)
    → All (λ t. is_task t ≡ true) ts
    → (r : Picked) × (pick_loop me state ts ≡ some r) × Choice me state ts r
unfolding pick_loop
pick_loop_lem me state [] a = ((false, (none, [])), refl, nothing [] tt)
pick_loop_lem me state (t ∷ ts) (h, a) =
    let (r, e, c) = pick_loop_lem me state ts a in
    let later = pick_loop me state ts in
    let taken : Option Picked = some (not (no_tasks ts), (some t, ts)) in
    let useful : (not (is_set t.fiber) && not (is_set t.cb)) ≡ false = ground arith in
    elim (Bool-cases (elsewhere me t)) [
      | inl away ↦ (
        (true || r.0, (r.1.0, t ∷ r.1.1)),
        rw away (ap (passing true t) e),
        subst (λ b. Choice me state (t ∷ ts) (b || r.0, (r.1.0, t ∷ r.1.1))) away
            (passes me state t ts r (ap (λ b. not b && not (runs state t)) away) c),
      )
      | inr here ↦ elim (Bool-cases (runs state t)) [
        | inl busy ↦ (
          (false || r.0, (r.1.0, t ∷ r.1.1)),
          rw here (rw useful (rw busy (ap (passing false t) e))),
          subst (λ b. Choice me state (t ∷ ts) (b || r.0, (r.1.0, t ∷ r.1.1))) here
              (passes me state t ts r (ground arith) c),
        )
        | inr idle ↦ (
          (not (no_tasks ts), (some t, ts)),
          rw here (rw useful (rw idle refl)),
          first [] ts t tt (ground arith),
        )
      ]
    ]
