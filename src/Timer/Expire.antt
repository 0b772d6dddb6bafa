-- ===== src/Timer/Expire.antt =====
-- `listExpiredCb` of cxk/timer.cpp: the callbacks it hands out and the timers it puts back.
use cxkframework.Prelude.{
  ℕ, ◌+◌, ◌≡◌, ◌≤◌, refl, ap, ◌∙◌, sym, true, false, Bool, not, ◌&&◌, Option, some, List, [], ◌∷◌,
  ltb, if◌then◌else◌, arith, inl, inr, Bool-cases, All,
}
use cxkframework.Timer.{
  Timer, TimerManager, armed, fire_loop, take_front, take_expired, expired, list_locked,
  list_expired_cb, has_timer, is_empty, detect_clock_rollover,
}
use cxkframework.Timer.Order.{has, IsSorted}
use cxkframework.Timer.Invariant.{IsPending, IsValid}
use cxkframework.Timer.Fire.{fired, sorted-IsDistinct, callbacks, Fired, fire_loop_lem}
use cxkframework.Timer.Due.{is_due, due, has-keep, keep-IsSorted, expired_lem, none_due, later_too}

and_true : (u : Bool) → (u && true) ≡ u
and_true true = refl
and_true false = refl

was_in : (i d : Bool) → (i && d) ≡ true → i ≡ true
was_in true d e = refl
was_in false d e = absurd cc

split_member :
    (inside on late : Bool) → inside ≡ on → (inside && not late) ≡ (on && not (inside && late))
split_member true true true e = refl
split_member true true false e = refl
split_member false false late e = refl
split_member true false late e = absurd cc
split_member false true late e = absurd cc

all_member : (inside on : Bool) → inside ≡ on → false ≡ (on && not inside)
all_member true true e = refl
all_member false false e = refl
all_member true false e = absurd cc
all_member false true e = absurd cc

module _ (now : ℕ) (m : TimerManager) (ts : List ℕ) (v : IsPending m.heap [] ts) where
  in_heap : (x : ℕ) → has x ts ≡ armed (m.heap x).cb
  unfolding has
  in_heap x = v.member x ∙ and_true (armed (m.heap x).cb)

  IsPending-due : IsPending m.heap (due now m.heap ts).0 (due now m.heap ts).1
  unfolding due
  IsPending-due = record {
    sorted = keep-IsSorted m.heap (λ b. not (is_due now m.heap b)) ts v.sorted;
    member = λ x.
        has-keep (λ b. not (is_due now m.heap b)) ts x
        ∙ (split_member (has x ts) (armed (m.heap x).cb) (is_due now m.heap x) (in_heap x)
            ∙ ap (λ u. armed (m.heap x).cb && not u) (sym (has-keep (is_due now m.heap) ts x)));
  }

  IsPending-all : IsPending m.heap ts []
  unfolding IsSorted has
  IsPending-all = record {
    sorted = tt;
    member = λ x. all_member (has x ts) (armed (m.heap x).cb) (in_heap x);
  }

  take_due : Fired now (due now m.heap ts).0 m.heap (take_front now (due now m.heap ts) m)
  unfolding due take_front fire_loop
  take_due =
      fire_loop_lem now (due now m.heap ts).0 (record m { timers = (due now m.heap ts).1 })
        (sorted-IsDistinct m.heap (due now m.heap ts).0
          (keep-IsSorted m.heap (is_due now m.heap) ts v.sorted))
        IsPending-due
        (λ x i.
          sym (in_heap x)
          ∙ was_in (has x ts) (is_due now m.heap x) (sym (has-keep (is_due now m.heap) ts x) ∙ i))

  take_all : Fired now ts m.heap (take_front now (ts, []) m)
  unfolding take_front fire_loop
  take_all =
      fire_loop_lem now ts (record m { timers = [] }) (sorted-IsDistinct m.heap ts v.sorted)
        IsPending-all (λ x i. sym (in_heap x) ∙ i)

  nothing_due :
      All (λ b. now + 1 ≤ (m.heap b).next) ts
      → IsValid m
      → Fired now (due now m.heap ts).0 m.heap ([], m)
  unfolding has
  nothing_due late valid =
      let empty : (due now m.heap ts).0 ≡ [] =
        ap (λ (w : List ℕ × List ℕ). w.0) (none_due m.heap now ts late) in
      record {
        called = sym (ap (callbacks m.heap) empty);
        valid = valid;
        timer = λ x.
            sym
              (ap (λ bs. if has x bs then fired now (m.heap x) else m.heap x) empty ∙ not_there x);
      }
    where
      not_there : (x : ℕ) → (if has x [] then fired now (m.heap x) else m.heap x) ≡ m.heap x
      not_there x = refl

-- A run returns, with what it does to `front`.
unfoldable pub Outcome : ℕ → List ℕ → (ℕ → Timer) → Option (List (Option ℕ) × TimerManager) → Type 0
Outcome now front h result =
    (out : List (Option ℕ) × TimerManager) × (result ≡ some out) × Fired now front h out

take_expired_lem :
    (now key a : ℕ) (bs : List ℕ) (m : TimerManager)
    → IsPending m.heap [] (a ∷ bs)
    → IsValid m
    → Outcome now (due now m.heap (a ∷ bs)).0 m.heap (take_expired now key m (a ∷ bs))
unfolding Outcome take_expired IsSorted
take_expired_lem now key a bs m p v = elim (Bool-cases (ltb now (m.heap a).next)) [
  | inl late ↦
      let first : now + 1 ≤ (m.heap a).next = ground arith in
      (
        ([], m),
        ap
            (λ u.
              if u then some ([], m) else some (take_front now (expired m.heap now key (a ∷ bs)) m))
            late,
        nothing_due now m (a ∷ bs) p (first, later_too m.heap now a bs (now + 1) first p.sorted.0)
            v,
      )
  | inr early ↦ (
    take_front now (due now m.heap (a ∷ bs)) m,
    ap (λ u. if u then some ([], m) else some (take_front now (expired m.heap now key (a ∷ bs)) m))
          early
        ∙ ap (λ w. some (take_front now w m)) (expired_lem m.heap now key (a ∷ bs) p.sorted),
    take_due now m (a ∷ bs) p,
  )
]

take_expired_some :
    (now key : ℕ) (ts : List ℕ) (m : TimerManager)
    → not (is_empty ts) ≡ true
    → IsPending m.heap [] ts
    → IsValid m
    → Outcome now (due now m.heap ts).0 m.heap (take_expired now key m ts)
take_expired_some now key [] m e p v = absurd cc
take_expired_some now key (a ∷ bs) m e p v = take_expired_lem now key a bs m p v

-- The first test finds a timer; then the clock decides.
module _ (now key : ℕ) (others : TimerManager → TimerManager) (m : TimerManager) (t : Bool)
    (first : has_timer m ≡ true) (clock : (detect_clock_rollover now (others m)).0 ≡ t) where
  under_lock :
      let m1 : TimerManager = record (others m) { previous_time = now } in
      list_expired_cb now key others m ≡ (
        if t
        then some (take_front now ((others m).timers, []) m1)
        else take_expired now key m1 (others m).timers)
  unfolding list_expired_cb list_locked detect_clock_rollover
  under_lock =
      let m1 : TimerManager = record (others m) { previous_time = now } in
      ap (λ u. if u then list_locked now key (others m) else some ([], m)) first
      ∙ ap
          (λ u.
            if u
            then some (take_front now ((others m).timers, []) m1)
            else take_expired now key m1 (others m).timers)
          clock

-- If the set is not empty at the first test of listExpiredCb, the manager that other threads leave
-- is valid and its set not empty, and the clock has not gone back by an hour, then listExpiredCb
-- hands out, in the order of the set, the callbacks of exactly the timers with next at most now,
-- wherever the new timer of lower_bound is allocated; the manager stays valid, each of these timers
-- is set to now + ms if it recurs and loses its callback if not, and no other timer changes.
pub list_expired_cb_due :
    (now key : ℕ) (others : TimerManager → TimerManager) (m : TimerManager)
    → has_timer m ≡ true
    → has_timer (others m) ≡ true
    → IsValid (others m)
    → (detect_clock_rollover now (others m)).0 ≡ false
    → Outcome now
        (due now (others m).heap (others m).timers).0
        (others m).heap
        (list_expired_cb now key others m)
unfolding has_timer Outcome
list_expired_cb_due now key others m first still v forward =
    let m1 : TimerManager = record (others m) { previous_time = now } in
    let (out, e, f) = take_expired_some now key (others m).timers m1 still v v in
    (out, under_lock now key others m false first forward ∙ e, f)

-- If the set is not empty at the first test of listExpiredCb, the manager that other threads leave
-- is valid, and the clock has gone back by more than an hour, then listExpiredCb hands out the
-- callbacks of all timers in the order of the set; the manager stays valid, each timer is set to
-- now + ms if it recurs and loses its callback if not.
pub list_expired_cb_rollover :
    (now key : ℕ) (others : TimerManager → TimerManager) (m : TimerManager)
    → has_timer m ≡ true
    → IsValid (others m)
    → (detect_clock_rollover now (others m)).0 ≡ true
    → Outcome now (others m).timers (others m).heap (list_expired_cb now key others m)
unfolding has_timer Outcome
list_expired_cb_rollover now key others m first v back =
    let m1 : TimerManager = record (others m) { previous_time = now } in
    (
      take_front now ((others m).timers, []) m1,
      under_lock now key others m true first back,
      take_all now m1 (others m).timers v,
    )
