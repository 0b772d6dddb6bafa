-- ===== src/Timer.antt =====
-- The timers of cxk/timer.cpp and cxk/timer.h. The objects live in `heap` under their addresses, as
-- the set and the callers share them; `m_timers` is the list of the addresses in the order of the set.
-- A callback is a number, and an address without a timer has none. Times are of 64 bits.
use cxkframework.Prelude.{
  ℕ, ◌+◌, ◌-◌, ◌*◌, ◌%◌, ◌^◌, true, false, Bool, not, ◌&&◌, ◌||◌, Option, none, some, List, [], ◌∷◌,
  ◌++◌, leb, ltb, ◌==◌, if◌then◌else◌, and_then,
}
pub mod Order
pub mod Due
pub mod Fire
pub mod Wait
pub mod Expire
pub mod Invariant
pub mod Change
mod Tests

pub record Timer : Type 0 where
  pub recurring : Bool
  pub ms : ℕ
  pub next : ℕ
  pub cb : Option ℕ

pub record TimerManager : Type 0 where
  pub tickled : Bool
  pub timers : List ℕ
  pub previous_time : ℕ
  pub heap : ℕ → Timer

-- `if(m_cb)`
abbrev pub armed : Option ℕ → Bool
armed none = false
armed (some cb) = true

-- a change of the object at an address
unfoldable pub put : ℕ → Timer → (ℕ → Timer) → ℕ → Timer
put a t h x = if x == a then t else h x

-- `Timer::Comparetor` on two timers that are not null, each as its time and its address
unfoldable pub less : ℕ → ℕ → ℕ → ℕ → Bool
less next_l l next_r r =
    if ltb next_l next_r then true else (if ltb next_r next_l then false else ltb l r)

unfoldable pub before : (ℕ → Timer) → ℕ → ℕ → Bool
unfolding less
before h l r = less (h l).next l (h r).next r

-- `std::set::insert`: an equivalent element stays
unfoldable pub insert : (ℕ → Timer) → ℕ → List ℕ → List ℕ
unfolding before
insert h a [] = a ∷ []
insert h a (b ∷ bs) =
    let later = b ∷ insert h a bs in
    if before h a b then a ∷ b ∷ bs else (if before h b a then later else b ∷ bs)

abbrev pub put_back : ℕ → Option (List ℕ) → Option (List ℕ)
put_back b none = none
put_back b (some bs) = some (b ∷ bs)

-- `m_timers.erase(m_timers.find(val))`; `none` where `find` returns `end()`
unfoldable pub erase : (ℕ → Timer) → ℕ → List ℕ → Option (List ℕ)
unfolding before
erase h a [] = none
erase h a (b ∷ bs) =
    let later = put_back b (erase h a bs) in
    if before h b a then later else (if before h a b then none else some bs)

-- `Timer::cancel`; `none` is the erasure of `end()`
unfoldable pub cancel : ℕ → TimerManager → Option (Bool × TimerManager)
unfolding put erase
cancel a m =
    if armed (m.heap a).cb
    then (let h = put a (record (m.heap a) { cb = none }) m.heap in
        and_then (erase h a m.timers) (λ ts. some (true, record m { timers = ts; heap = h })))
    else some (false, m)

-- the end of `refresh`, where the timer was found
abbrev pub rearm : ℕ → ℕ → TimerManager → List ℕ → Bool × TimerManager
unfolding put insert
rearm now a m ts =
    let h = put a (record (m.heap a) { next = (now + (m.heap a).ms) % 2 ^ 64 }) m.heap in
    (true, record m { timers = insert h a ts; heap = h })

-- `if(it == m_timers.end()) return …`, and the rest with the element erased
abbrev pub found_or : {A : Type 0} → Option (List ℕ) → A → (List ℕ → A) → A
found_or none missing found = missing
found_or (some ts) missing found = found ts

-- `Timer::refresh` at the time `now`
unfoldable pub refresh : ℕ → ℕ → TimerManager → Bool × TimerManager
unfolding rearm erase
refresh now a m =
    if armed (m.heap a).cb
    then found_or (erase m.heap a m.timers) (false, m) (rearm now a m)
    else (false, m)

abbrev is_front : ℕ → List ℕ → Bool
is_front a [] = false
is_front a (b ∷ bs) = a == b

-- `addTimer(val, lock)`, with whether it calls `onTimerInsertedAtFront`
unfoldable pub add_locked : ℕ → TimerManager → Bool × TimerManager
unfolding insert
add_locked a m =
    let ts = insert m.heap a m.timers in
    let at_front = is_front a ts && not m.tickled in
    (at_front, record m { timers = ts; tickled = at_front || m.tickled })

-- `addTimer(ms, cb, recurring)`, where `new` returns the address `a`
unfoldable pub add_timer : ℕ → ℕ → ℕ → Option ℕ → Bool → TimerManager → Bool × TimerManager
unfolding put add_locked
add_timer now a ms cb recurring m =
    let t : Timer = record {
      recurring = recurring;
      ms = ms;
      next = (now + ms) % 2 ^ 64;
      cb = cb;
    } in
    add_locked a (record m { heap = put a t m.heap })

-- the end of `reset`: the new interval, and the time from `start`
unfoldable pub restart : ℕ → ℕ → ℕ → TimerManager → List ℕ → Bool × TimerManager
unfolding put add_locked
restart start ms a m ts =
    let t : Timer = record (m.heap a) { ms = ms; next = (start + ms) % 2 ^ 64 } in
    add_locked a (record m { timers = ts; heap = put a t m.heap })

-- the time from which `reset` counts
unfoldable pub start_of : ℕ → Bool → Timer → ℕ
start_of now from_now t = if from_now then now else (t.next + 2 ^ 64 - t.ms) % 2 ^ 64

-- `Timer::reset`: what it returns, and whether it calls `onTimerInsertedAtFront`
unfoldable pub reset : ℕ → ℕ → Bool → ℕ → TimerManager → Bool × (Bool × TimerManager)
unfolding erase start_of restart
reset now ms from_now a m =
    let t = m.heap a in
    let start = start_of now from_now t in
    if (ms == t.ms) && not from_now
    then (true, (false, m))
    else (if armed t.cb
        then found_or (erase m.heap a m.timers) (false, (false, m))
            (λ ts. (true, restart start ms a m ts))
        else (false, (false, m)))

abbrev pub is_empty : List ℕ → Bool
is_empty [] = true
is_empty (a ∷ bs) = false

-- `hasTimer`
unfoldable pub has_timer : TimerManager → Bool
has_timer m = not (is_empty m.timers)

abbrev pub wait : ℕ → (ℕ → Timer) → List ℕ → ℕ
wait now h [] = 2 ^ 64 - 1
wait now h (a ∷ bs) = if leb (h a).next now then 0 else (h a).next - now

-- `getNextTimer`
unfoldable pub get_next_timer : ℕ → TimerManager → ℕ × TimerManager
get_next_timer now m = (wait now m.heap m.timers, record m { tickled = false })

-- `detectClockRollover`
unfoldable pub detect_clock_rollover : ℕ → TimerManager → Bool × TimerManager
detect_clock_rollover now m = (
  ltb now m.previous_time && ltb now ((m.previous_time + 2 ^ 64 - 60 * 60 * 1000) % 2 ^ 64),
  record m { previous_time = now },
)

abbrev pub join : ℕ → List ℕ × List ℕ → List ℕ × List ℕ
join b (front, rest) = (b ∷ front, rest)

-- `while(it != m_timers.end() && (*it)->m_next == now_ms) ++it`: what lies before `it` and behind it
unfoldable pub skip_equal : (ℕ → Timer) → ℕ → List ℕ → List ℕ × List ℕ
skip_equal h now [] = ([], [])
skip_equal h now (b ∷ bs) =
    let later = join b (skip_equal h now bs) in if (h b).next == now then later else ([], b ∷ bs)

-- from `lower_bound` of a new timer for `now` with the address `key`, on to the end of that loop
unfoldable pub expired : (ℕ → Timer) → ℕ → ℕ → List ℕ → List ℕ × List ℕ
unfolding less skip_equal
expired h now key [] = ([], [])
expired h now key (b ∷ bs) =
    let later = join b (expired h now key bs) in
    if less (h b).next b now key then later else skip_equal h now (b ∷ bs)

-- `if(timer->m_recurring)` in the last loop of `listExpiredCb`
abbrev pub put_again : Bool → ℕ → ℕ → TimerManager → TimerManager
unfolding put insert
put_again true now a m =
    let h = put a (record (m.heap a) { next = (now + (m.heap a).ms) % 2 ^ 64 }) m.heap in
    record m { timers = insert h a m.timers; heap = h }
put_again false now a m = record m { heap = put a (record (m.heap a) { cb = none }) m.heap }

-- one round of that loop
unfoldable pub fire : ℕ → ℕ → TimerManager → TimerManager
unfolding put_again
fire now a m = put_again (m.heap a).recurring now a m

abbrev pub collect : Option ℕ → List (Option ℕ) × TimerManager → List (Option ℕ) × TimerManager
collect cb (cbs, m) = (cb ∷ cbs, m)

unfoldable pub fire_loop : ℕ → List ℕ → TimerManager → List (Option ℕ) × TimerManager
unfolding fire
fire_loop now [] m = ([], m)
fire_loop now (a ∷ bs) m = collect (m.heap a).cb (fire_loop now bs (fire now a m))

unfoldable pub take_front : ℕ → List ℕ × List ℕ → TimerManager → List (Option ℕ) × TimerManager
unfolding fire_loop
take_front now (front, rest) m = fire_loop now front (record m { timers = rest })

-- `listExpiredCb` after the check of the clock, without a rollover. `none` is `*m_timers.begin()` on
-- an empty set.
unfoldable pub take_expired :
    ℕ → ℕ → TimerManager → List ℕ → Option (List (Option ℕ) × TimerManager)
unfolding expired take_front
take_expired now key m [] = none
take_expired now key m (a ∷ bs) =
    if ltb now (m.heap a).next
    then some ([], m)
    else some (take_front now (expired m.heap now key (a ∷ bs)) m)

-- what it does under the write lock; after a rollover every timer has expired
unfoldable pub list_locked : ℕ → ℕ → TimerManager → Option (List (Option ℕ) × TimerManager)
unfolding detect_clock_rollover take_front take_expired
list_locked now key m =
    let (rollover, m1) = detect_clock_rollover now m in
    if rollover then some (take_front now (m1.timers, []) m1) else take_expired now key m1 m1.timers

-- `listExpiredCb`; `others` is what other threads do between the two locks
unfoldable pub list_expired_cb :
    ℕ → ℕ → (TimerManager → TimerManager) → TimerManager → Option (List (Option ℕ) × TimerManager)
unfolding has_timer list_locked
list_expired_cb now key others m =
    if has_timer m then list_locked now key (others m) else some ([], m)
