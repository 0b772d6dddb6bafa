-- ===== src/Timer/Tests.antt =====
-- Runs of the timers on concrete managers, and the theorems at concrete inputs.
use cxkframework.Prelude.{
  ℕ, ◌+◌, ◌-◌, ◌%◌, ◌^◌, ◌≤◌, ◌≡◌, refl, true, false, none, some, [], ◌==◌, if◌then◌else◌, All,
}
use cxkframework.Timer.{
  Timer, TimerManager, armed, cancel, refresh, add_timer, get_next_timer, has_timer,
  list_expired_cb, detect_clock_rollover,
}
use cxkframework.Timer.Order.{has, IsSorted}
use cxkframework.Timer.Invariant.{IsValid}
use cxkframework.Timer.Change.{cancel_lem, refresh_lem, add_timer_lem}
use cxkframework.Timer.Due.{due}
use cxkframework.Timer.Wait.{get_next_timer_lem}
use cxkframework.Timer.Expire.{Outcome, list_expired_cb_due}

abbrev unused : Timer
unused = record { recurring = false; ms = 0; next = 0; cb = none }

abbrev nobody : TimerManager
nobody = record { tickled = false; timers = []; previous_time = 0; heap = λ _. unused }

nobody-IsValid : IsValid nobody
unfolding has IsSorted
nobody-IsValid = record { sorted = tt; member = λ x. refl }

-- One timer of 50 ms at the address 8, started at 1000.
abbrev one : TimerManager
one = (add_timer 1000 8 50 (some 7) true nobody).1

free_8 : armed (nobody.heap 8).cb ≡ false
free_8 = refl

one-IsValid : IsValid one
one-IsValid = (add_timer_lem 1000 8 50 7 true nobody nobody-IsValid free_8).0

armed_8 : armed (one.heap 8).cb ≡ true
unfolding add_timer
armed_8 = refl

one_has : has_timer one ≡ true
unfolding add_timer has_timer
one_has = refl

add_timer_lem_example :
    IsValid one
    × ((x : ℕ) → has x one.timers ≡ (if x == 8 then true else has x nobody.timers))
    × ((one.heap 8).next ≡ (1000 + 50) % 2 ^ 64)
add_timer_lem_example = add_timer_lem 1000 8 50 7 true nobody nobody-IsValid free_8

cancel_lem_example :
    (m' : TimerManager) × (cancel 8 one ≡ some (armed (one.heap 8).cb, m'))
    × IsValid m'
    × ((x : ℕ) → has x m'.timers ≡ (if x == 8 then false else has x one.timers))
cancel_lem_example = cancel_lem 8 one one-IsValid

refresh_lem_example :
    (m' : TimerManager) × (refresh 1020 8 one ≡ (armed (one.heap 8).cb, m'))
    × IsValid m'
    × ((x : ℕ) → has x m'.timers ≡ has x one.timers)
    × ((m'.heap 8).next
        ≡ (if armed (one.heap 8).cb then (1020 + (one.heap 8).ms) % 2 ^ 64 else (one.heap 8).next))
refresh_lem_example = refresh_lem 1020 8 one one-IsValid

get_next_timer_lem_example :
    let delay : ℕ = (get_next_timer 1030 one).0 in
    All (λ x. delay ≤ (one.heap x).next - 1030) one.timers
    × ((y : ℕ) × (has y one.timers ≡ true) × (delay ≡ (one.heap y).next - 1030))
get_next_timer_lem_example = get_next_timer_lem 1030 one one-IsValid one_has

next_run : (get_next_timer 1030 one).0 ≡ 20
unfolding get_next_timer add_timer
next_run = refl

forward : (detect_clock_rollover 1050 one).0 ≡ false
unfolding detect_clock_rollover add_timer
forward = refl

list_expired_cb_due_example :
    Outcome 1050 (due 1050 one.heap one.timers).0 one.heap (list_expired_cb 1050 16 (λ m. m) one)
list_expired_cb_due_example =
    list_expired_cb_due 1050 16 (λ m. m) one one_has one_has one-IsValid forward

-- A clock that stood at 2 hours.
abbrev late : TimerManager
late = record one { previous_time = 7200000 }

back : (detect_clock_rollover 1000 late).0 ≡ true
unfolding detect_clock_rollover
back = refl

late-IsValid : IsValid late
late-IsValid = one-IsValid

late_has : has_timer late ≡ true
unfolding has_timer add_timer
late_has = refl
