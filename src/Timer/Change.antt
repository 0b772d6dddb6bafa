-- ===== src/Timer/Change.antt =====
-- The operations of cxk/timer.cpp on one timer, `cancel`, `refresh`, `reset` and `addTimer`, against
-- the invariant.
use cxkframework.Prelude.{
  ℕ, ◌+◌, ◌-◌, ◌%◌, ◌^◌, ◌≡◌, refl, ap, ◌∙◌, sym, true, false, Bool, not, ◌&&◌, ◌||◌, none, some,
  List, [], ◌∷◌, ◌==◌, if◌then◌else◌, inl, inr, Bool-cases, ℕ_discrete, ==_of,
}
use cxkframework.Timer.{
  start_of, Timer, TimerManager, armed, put, insert, erase, cancel, refresh, reset, rearm, restart,
  add_locked, add_timer,
}
use cxkframework.Timer.Order.{has, without, erase_lem, has-without, has-insert, ==_no}
use cxkframework.Timer.Invariant.{
  IsPending, IsValid, put-same, keep-IsSorted, settle_in, settle_out, taken, absent, in_set,
  not_in_set,
}

already_out :
    (x a : ℕ) (ts : List ℕ) → has a ts ≡ false → has x ts ≡ (if x == a then false else has x ts)
already_out x a ts out = elim (ℕ_discrete x a) [
  | yes e ↦ rw (==_of x a e) (ap (λ u. has u ts) e ∙ out)
  | no n ↦ rw (==_no x a n) refl
]

back_in :
    (x a : ℕ) (ts : List ℕ)
    → has a ts ≡ true
    → (if x == a then true else (if x == a then false else has x ts)) ≡ has x ts
back_in x a ts m = elim (ℕ_discrete x a) [
  | yes e ↦ rw (==_of x a e) (sym (ap (λ u. has u ts) e ∙ m))
  | no n ↦ rw (==_no x a n) refl
]

-- On a valid manager, where a timer is in the set exactly when it has a callback, cancel finds the
-- timer that it erases; it returns whether the timer had a callback, leaves a valid manager, and
-- the set then lacks this timer and no other.
pub cancel_lem :
    (a : ℕ) (m : TimerManager)
    → IsValid m
    → (m' : TimerManager) × (cancel a m ≡ some (armed (m.heap a).cb, m'))
      × IsValid m'
      × ((x : ℕ) → has x m'.timers ≡ (if x == a then false else has x m.timers))
unfolding cancel
cancel_lem a m v = elim (Bool-cases (armed (m.heap a).cb)) [
  | inl on ↦
      let t : Timer = record (m.heap a) { cb = none } in
      let found : erase (put a t m.heap) a m.timers ≡ some (without a m.timers) =
        erase_lem (put a t m.heap) a m.timers (keep-IsSorted m.heap a t m.timers refl v.sorted)
          (in_set m.heap a m.timers v on) in
      (
        record m { timers = without a m.timers; heap = put a t m.heap },
        rw on (rw found refl),
        settle_out m.heap a t [] (without a m.timers) (taken m.heap a m.timers v) refl,
        has-without a m.timers,
      )
  | inr off ↦
      (m, rw off refl, v, λ x. already_out x a m.timers (not_in_set m.heap a m.timers v off))
]

-- On a valid manager refresh returns whether the timer has a callback and leaves a valid manager
-- with the same timers in the set; a timer with a callback is then due at now + ms, modulo 2 ^ 64,
-- and one without keeps its time.
pub refresh_lem :
    (now a : ℕ) (m : TimerManager)
    → IsValid m
    → (m' : TimerManager) × (refresh now a m ≡ (armed (m.heap a).cb, m'))
      × IsValid m'
      × ((x : ℕ) → has x m'.timers ≡ has x m.timers)
      × ((m'.heap a).next
          ≡ (if armed (m.heap a).cb then (now + (m.heap a).ms) % 2 ^ 64 else (m.heap a).next))
unfolding refresh rearm has
refresh_lem now a m v = elim (Bool-cases (armed (m.heap a).cb)) [
  | inl on ↦
      let t : Timer = record (m.heap a) { next = (now + (m.heap a).ms) % 2 ^ 64 } in
      let h : ℕ → Timer = put a t m.heap in
      let inside : has a m.timers ≡ true = in_set m.heap a m.timers v on in
      let found : erase m.heap a m.timers ≡ some (without a m.timers) =
        erase_lem m.heap a m.timers v.sorted inside in
      (
        record m { timers = insert h a (without a m.timers); heap = h },
        rw on (rw found refl),
        settle_in m.heap a t [] (without a m.timers) (taken m.heap a m.timers v) on refl,
        λ x.
            has-insert h a (without a m.timers) x
            ∙ (ap (λ u. if x == a then true else u) (has-without a m.timers x)
                ∙ back_in x a m.timers inside),
        ap (λ (u : Timer). u.next) (put-same m.heap a t) ∙ rw on refl,
      )
  | inr off ↦ (m, rw off refl, v, λ x. refl, rw off refl)
]

-- The end of `addTimer` with the lock puts a pending timer into the set.
add_locked-IsValid :
    (a : ℕ) (t : Timer) (m : TimerManager) (ts : List ℕ)
    → armed t.cb ≡ true
    → IsPending m.heap (a ∷ []) ts
    → IsValid (add_locked a (record m { timers = ts; heap = put a t m.heap })).1
unfolding add_locked has
add_locked-IsValid a t m ts on p = settle_in m.heap a t [] ts p on refl

-- On a valid manager addTimer with a callback, at an address that holds no timer with a callback,
-- leaves a valid manager; the set gains this timer and no other, and it is due at now + ms, modulo
-- 2 ^ 64.
pub add_timer_lem :
    (now a ms cb : ℕ) (recurring : Bool) (m : TimerManager)
    → IsValid m
    → armed (m.heap a).cb ≡ false
    → let m' : TimerManager = (add_timer now a ms (some cb) recurring m).1 in
      IsValid m'
      × ((x : ℕ) → has x m'.timers ≡ (if x == a then true else has x m.timers))
      × ((m'.heap a).next ≡ (now + ms) % 2 ^ 64)
unfolding add_timer add_locked
add_timer_lem now a ms cb recurring m v free =
    let t : Timer = record {
      recurring = recurring;
      ms = ms;
      next = (now + ms) % 2 ^ 64;
      cb = some cb;
    } in
    (
      add_locked-IsValid a t m m.timers refl (absent m.heap a m.timers v free),
      has-insert (put a t m.heap) a m.timers,
      ap (λ (u : Timer). u.next) (put-same m.heap a t),
    )

-- The end of `reset` of a timer in the set.
restart_lem :
    (start ms a : ℕ) (m : TimerManager)
    → IsValid m
    → armed (m.heap a).cb ≡ true
    → let m' : TimerManager = (restart start ms a m (without a m.timers)).1 in
      IsValid m'
      × ((x : ℕ) → has x m'.timers ≡ has x m.timers)
      × ((m'.heap a).next ≡ (start + ms) % 2 ^ 64)
unfolding restart add_locked
restart_lem start ms a m v on =
    let t : Timer = record (m.heap a) { ms = ms; next = (start + ms) % 2 ^ 64 } in
    (
      add_locked-IsValid a t m (without a m.timers) on (taken m.heap a m.timers v),
      λ x.
          has-insert (put a t m.heap) a (without a m.timers) x
          ∙ (ap (λ u. if x == a then true else u) (has-without a m.timers x)
              ∙ back_in x a m.timers (in_set m.heap a m.timers v on)),
      ap (λ (u : Timer). u.next) (put-same m.heap a t),
    )

-- On a valid manager reset returns true if it has nothing to change or the timer has a callback,
-- and false otherwise; it leaves a valid manager with the same timers in the set, and a timer that
-- is reset is then due at start + ms, modulo 2 ^ 64, where start is now or its old time less its
-- old interval; otherwise its time stays.
pub reset_lem :
    (now ms a : ℕ) (from_now : Bool) (m : TimerManager)
    → IsValid m
    → let out : Bool × (Bool × TimerManager) = reset now ms from_now a m in
      (out.0 ≡ ((ms == (m.heap a).ms) && not from_now || armed (m.heap a).cb))
      × IsValid out.1.1
      × ((x : ℕ) → has x out.1.1.timers ≡ has x m.timers)
      × ((out.1.1.heap a).next ≡ (
          if not ((ms == (m.heap a).ms) && not from_now) && armed (m.heap a).cb
          then (start_of now from_now (m.heap a) + ms) % 2 ^ 64
          else (m.heap a).next))
unfolding reset start_of
reset_lem now ms a from_now m v = elim (Bool-cases ((ms == (m.heap a).ms) && not from_now)) [
  | inl early ↦ rw early (refl, v, λ x. refl, refl)
  | inr late ↦ elim (Bool-cases (armed (m.heap a).cb)) [
    | inl on ↦
        let start : ℕ =
          if from_now then now else ((m.heap a).next + 2 ^ 64 - (m.heap a).ms) % 2 ^ 64 in
        let found : erase m.heap a m.timers ≡ some (without a m.timers) =
          erase_lem m.heap a m.timers v.sorted (in_set m.heap a m.timers v on) in
        let w = restart_lem start ms a m v on in rw late (rw on (rw found (refl, w.0, w.1, w.2)))
    | inr off ↦ rw late (rw off (refl, v, λ x. refl, refl))
  ]
]
