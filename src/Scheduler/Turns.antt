-- ===== src/Scheduler/Turns.antt =====
-- A thread of cxk/scheduler.cpp that takes one task after another comes to each that it can take.
use cxkframework.Prelude.{
  ℕ, zero, suc, ◌<◌, ◌≡◌, refl, ap, ◌∙◌, true, false, Bool, not, ◌&&◌, ◌||◌, Option, none, some,
  List, [], ◌∷◌, ◌++◌, if◌then◌else◌, length, get_elem?, All, arith, Bool-cases, inl, inr,
}
use cxkframework.Scheduler.{
  State, FiberAndThread, is_set, no_tasks, elsewhere, runs, Picked, passing, pick_loop,
}
use cxkframework.Scheduler.Pick.{is_task, is_free}

-- What a pick takes of a queue in which the thread can take `t`: the task itself, or one before it.
pub data Nears (before : List FiberAndThread) (t : FiberAndThread) (after : List FiberAndThread)
    : Picked → Type 0 where
  arrives : (b : Bool) (rest : List FiberAndThread) → Nears before t after (b, (some t, rest))
  closer :
      (b : Bool) (x : FiberAndThread) (left : List FiberAndThread)
      → length left < length before
      → All (λ t. is_task t ≡ true) left
      → Nears before t after (b, (some x, left ++ (t ∷ after)))

passed :
    (tickle : Bool) (q t : FiberAndThread) (before after : List FiberAndThread) (r : Picked)
    → is_task q ≡ true
    → Nears before t after r
    → Nears (q ∷ before) t after (tickle || r.0, (r.1.0, q ∷ r.1.1))
passed tickle q t before after _ g (arrives b rest) = arrives (tickle || b) (q ∷ rest)
passed tickle q t before after _ g (closer b x left l a) =
    closer (tickle || b) x (q ∷ left) (omega arith) (g, a)

module _ (me : ℕ) (state : ℕ → State) (t : FiberAndThread) (after : List FiberAndThread)
    (good : is_task t ≡ true) (free : is_free me state t ≡ true) where
  -- One round: what the loop does with a task in front.
  front :
      (q : FiberAndThread) (ts : List FiberAndThread)
      → is_task q ≡ true
      → pick_loop me state (q ∷ ts) ≡ (
          if elsewhere me q
          then passing true q (pick_loop me state ts)
          else (if runs state q
              then passing false q (pick_loop me state ts)
              else some (not (no_tasks ts), (some q, ts))))
  unfolding pick_loop
  front q ts g =
      let useful : (not (is_set q.fiber) && not (is_set q.cb)) ≡ false = ground arith in
      rw useful refl

  nears :
      (before : List FiberAndThread)
      → All (λ t. is_task t ≡ true) before
      → (r : Picked) × (pick_loop me state (before ++ (t ∷ after)) ≡ some r)
        × Nears before t after r
  nears [] a =
      let here : elsewhere me t ≡ false = ground arith in
      let idle : runs state t ≡ false = ground arith in
      (
        (not (no_tasks after), (some t, after)),
        front t after good ∙ rw here (rw idle refl),
        arrives (not (no_tasks after)) after,
      )
  nears (q ∷ before) (g, a) =
      let (r, e, n) = nears before a in
      let rest = before ++ (t ∷ after) in
      elim (Bool-cases (elsewhere me q)) [
        | inl away ↦ (
          (true || r.0, (r.1.0, q ∷ r.1.1)),
          front q rest g ∙ rw away (ap (passing true q) e),
          passed true q t before after r g n,
        )
        | inr here ↦ elim (Bool-cases (runs state q)) [
          | inl busy ↦ (
            (false || r.0, (r.1.0, q ∷ r.1.1)),
            front q rest g ∙ rw here (rw busy (ap (passing false q) e)),
            passed false q t before after r g n,
          )
          | inr idle ↦ (
            (not (no_tasks rest), (some q, rest)),
            front q rest g ∙ rw here (rw idle refl),
            closer (not (no_tasks rest)) q before (omega arith) a,
          )
        ]
      ]

-- The tasks that a thread takes in `n` rounds, while no fiber changes its state and none is queued.
abbrev pub taken_of :
    (List FiberAndThread → List FiberAndThread) → Option Picked → List FiberAndThread
taken_of next none = []
taken_of next (some (b, (none, ts))) = []
taken_of next (some (b, (some t, ts))) = t ∷ next ts

unfoldable pub turns : ℕ → ℕ → (ℕ → State) → List FiberAndThread → List FiberAndThread
turns zero me state ts = []
turns (suc n) me state ts = taken_of (turns n me state) (pick_loop me state ts)

-- One round of `turns`, where the rounds after it come to the task in any queue that has it nearer to
-- the front.
round :
    (next : List FiberAndThread → List FiberAndThread) (t : FiberAndThread)
    (before after : List FiberAndThread) (r : Picked)
    → Nears before t after r
    → ((left : List FiberAndThread)
        → All (λ t. is_task t ≡ true) left
        → length left < length before
        → (j : ℕ) × (get_elem? (next (left ++ (t ∷ after))) j ≡ some t))
    → (j : ℕ) × (get_elem? (taken_of next (some r)) j ≡ some t)
round next t before after _ (arrives b rest) k = (0, refl)
round next t before after _ (closer b x left l a) k = let (j, e) = k left a l in (suc j, e)

-- A thread that can take a task takes it within one round more than there are tasks before it in
-- the queue, where each of these is a task, no fiber changes its state, and nothing is added.
pub turns_lem :
    (me : ℕ) (state : ℕ → State) (t : FiberAndThread) (before after : List FiberAndThread) (n : ℕ)
    → All (λ t. is_task t ≡ true) before
    → is_task t ≡ true
    → is_free me state t ≡ true
    → length before < n
    → (j : ℕ) × (get_elem? (turns n me state (before ++ (t ∷ after))) j ≡ some t)
unfolding turns
turns_lem me state t before after zero a g f l = absurd (omega arith)
turns_lem me state t before after (suc n) a g f l =
    let (r, e, near) = nears me state t after g f before a in
    let (j, p) =
      round (turns n me state) t before after r near
        (λ left a' l'. turns_lem me state t left after n a' g f (omega arith)) in
    (j, ap (λ o. get_elem? (taken_of (turns n me state) o) j) e ∙ p)
