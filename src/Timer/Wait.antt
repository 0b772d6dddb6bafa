-- ===== src/Timer/Wait.antt =====
-- `getNextTimer` of cxk/timer.cpp.
use cxkframework.Prelude.{ℕ, ◌-◌, ◌≤◌, ◌≡◌, sym, true, not, List, [], ◌∷◌, arith, All, subst}
use cxkframework.Timer.{Timer, TimerManager, wait, get_next_timer, has_timer, is_empty}
use cxkframework.Timer.Order.{has, has-front, IsSorted}
use cxkframework.Timer.Invariant.{IsValid}
use cxkframework.Timer.Due.{later_too}

wait_first :
    (now : ℕ) (h : ℕ → Timer) (a : ℕ) (bs : List ℕ) → wait now h (a ∷ bs) ≡ (h a).next - now
wait_first now h a bs = ground arith

least :
    (now t : ℕ) (h : ℕ → Timer) (bs : List ℕ)
    → All (λ c. t ≤ (h c).next) bs
    → All (λ c. t - now ≤ (h c).next - now) bs
least now t h [] ps = tt
least now t h (b ∷ bs) (p, ps) = (omega arith, least now t h bs ps)

-- The first timer of a sorted set is the one that expires first.
wait_lem :
    (now : ℕ) (h : ℕ → Timer) (ts : List ℕ)
    → IsSorted h ts
    → not (is_empty ts) ≡ true
    → All (λ x. wait now h ts ≤ (h x).next - now) ts
      × ((y : ℕ) × (has y ts ≡ true) × (wait now h ts ≡ (h y).next - now))
unfolding IsSorted
wait_lem now h [] s e = absurd cc
wait_lem now h (a ∷ bs) (s, ss) e = (
  subst (λ t. All (λ x. t ≤ (h x).next - now) (a ∷ bs)) (sym (wait_first now h a bs))
      (least now (h a).next h (a ∷ bs)
        (omega arith, later_too h now a bs (h a).next (omega arith) s)),
  (a, has-front a bs, wait_first now h a bs),
)

-- On a valid manager with a timer in the set, getNextTimer is the least time to wait for a timer of
-- the set, 0 for one that is due: it is at most the wait for each of them, and it is the wait for
-- one of them.
pub get_next_timer_lem :
    (now : ℕ) (m : TimerManager)
    → IsValid m
    → has_timer m ≡ true
    → let delay : ℕ = (get_next_timer now m).0 in
      All (λ x. delay ≤ (m.heap x).next - now) m.timers
      × ((y : ℕ) × (has y m.timers ≡ true) × (delay ≡ (m.heap y).next - now))
unfolding get_next_timer has_timer
get_next_timer_lem now m v e = wait_lem now m.heap m.timers v.sorted e
