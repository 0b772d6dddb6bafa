-- ===== src/Timer/Fire.antt =====
-- The last loop of `listExpiredCb` of cxk/timer.cpp: it hands out the callbacks of the expired timers
-- and puts the recurring ones back.
use cxkframework.Prelude.{
  ℕ, ◌+◌, ◌%◌, ◌^◌, ◌≡◌, ◌≢◌, refl, ap, ◌∙◌, sym, true, false, Bool, Option, none, List, [], ◌∷◌,
  if◌then◌else◌, inl, inr, Bool-cases, ℕ_discrete, map, ==_of,
}
use cxkframework.Timer.{Timer, TimerManager, armed, put, fire, put_again, fire_loop, before}
use cxkframework.Timer.Order.{has, IsSorted, ==_no, before_irrefl, has-All, has-later}
use cxkframework.Timer.Invariant.{
  IsPending, IsValid, put-same, put-other, settle_in, settle_out, not_both, has-front,
}

-- What the loop makes of an expired timer.
abbrev pub again : Bool → ℕ → Timer → Timer
again true now t = record t { next = (now + t.ms) % 2 ^ 64 }
again false now t = record t { cb = none }

unfoldable pub fired : ℕ → Timer → Timer
fired now t = again t.recurring now t

-- no address twice
unfoldable pub IsDistinct : List ℕ → Type 0
IsDistinct [] = Unit {0}
IsDistinct (a ∷ bs) = (has a bs ≡ false) × IsDistinct bs

pub sorted-IsDistinct : (h : ℕ → Timer) (bs : List ℕ) → IsSorted h bs → IsDistinct bs
unfolding IsSorted IsDistinct
sorted-IsDistinct h [] s = tt
sorted-IsDistinct h (a ∷ bs) (s, ss) = (
  elim (Bool-cases (has a bs)) [
    | inl m ↦
        absurd (
          not_both (before h a a) (has-All (λ b. before h a b ≡ true) bs a s m) (before_irrefl h a))
    | inr out ↦ out
  ],
  sorted-IsDistinct h bs ss,
)

abbrev pub callbacks : (ℕ → Timer) → List ℕ → List (Option ℕ)
callbacks h bs = map (λ a. (h a).cb) bs

callbacks_agree :
    (h h' : ℕ → Timer) (bs : List ℕ)
    → ((x : ℕ) → has x bs ≡ true → h x ≡ h' x)
    → callbacks h bs ≡ callbacks h' bs
unfolding has
callbacks_agree h h' [] same = refl
callbacks_agree h h' (b ∷ bs) same =
    let here : h b ≡ h' b = same b (has-front b bs) in
    let later : callbacks h bs ≡ callbacks h' bs =
      callbacks_agree h h' bs (λ x m. same x (has-later b bs x m)) in
    ap (λ (t : Timer). t.cb ∷ callbacks h bs) here ∙ ap (λ t. (h' b).cb ∷ t) later

put_again-heap :
    (t : Bool) (now a : ℕ) (m : TimerManager)
    → (put_again t now a m).heap ≡ put a (again t now (m.heap a)) m.heap
unfolding put_again
put_again-heap true now a m = refl
put_again-heap false now a m = refl

put_again-IsPending :
    (t : Bool) (now a : ℕ) (bs : List ℕ) (m : TimerManager)
    → IsPending m.heap (a ∷ bs) m.timers
    → has a bs ≡ false
    → armed (m.heap a).cb ≡ true
    → IsPending (put_again t now a m).heap bs (put_again t now a m).timers
unfolding put_again
put_again-IsPending true now a bs m p apart on =
    settle_in m.heap a (again true now (m.heap a)) bs m.timers p on apart
put_again-IsPending false now a bs m p apart on =
    settle_out m.heap a (again false now (m.heap a)) bs m.timers p refl

-- What the loop over the expired timers does.
pub record Fired (now : ℕ) (front : List ℕ) (h : ℕ → Timer) (out : List (Option ℕ) × TimerManager)
    : Type 0 where
  pub called : out.0 ≡ callbacks h front
  pub valid : IsValid out.1
  pub timer : (x : ℕ) → out.1.heap x ≡ (if has x front then fired now (h x) else h x)

pub fire_loop_lem :
    (now : ℕ) (front : List ℕ) (m : TimerManager)
    → IsDistinct front
    → IsPending m.heap front m.timers
    → ((x : ℕ) → has x front ≡ true → armed (m.heap x).cb ≡ true)
    → Fired now front m.heap (fire_loop now front m)
unfolding fire_loop fire fired IsDistinct has
fire_loop_lem now [] m d p on = record { called = refl; valid = p; timer = λ x. refl }
fire_loop_lem now (a ∷ bs) m (apart, d) p on =
    let m1 : TimerManager = fire now a m in
    let changed : m1.heap ≡ put a (fired now (m.heap a)) m.heap =
      put_again-heap (m.heap a).recurring now a m in
    let pending : IsPending m1.heap bs m1.timers =
      put_again-IsPending (m.heap a).recurring now a bs m p apart (on a (has-front a bs)) in
    let same : (x : ℕ) → x ≢ a → m1.heap x ≡ m.heap x =
      λ x n. ap (λ (h : ℕ → Timer). h x) changed ∙ put-other m.heap a (fired now (m.heap a)) x n in
    let other : (x : ℕ) → has x bs ≡ true → x ≢ a =
      λ x i e. not_both (has x bs) i (ap (λ u. has u bs) e ∙ apart) in
    let rest : Fired now bs m1.heap (fire_loop now bs m1) =
      fire_loop_lem now bs m1 d pending
        (λ x i. ap (λ (t : Timer). armed t.cb) (same x (other x i)) ∙ on x (has-later a bs x i)) in
    record {
      called =
          ap (λ t. (m.heap a).cb ∷ t)
            (rest.called ∙ callbacks_agree m1.heap m.heap bs (λ x i. same x (other x i)));
      valid = rest.valid;
      timer = λ x. rest.timer x ∙ elim (ℕ_discrete x a) [
        | yes e ↦
            let gone : has x bs ≡ false = ap (λ u. has u bs) e ∙ apart in
            let now_fired : m1.heap x ≡ fired now (m.heap x) =
              ap m1.heap e
              ∙ (ap (λ (h : ℕ → Timer). h a) changed
                  ∙ (put-same m.heap a (fired now (m.heap a))
                      ∙ sym (ap (λ u. fired now (m.heap u)) e))) in
            rw (==_of x a e)
              (ap (λ u. if u then fired now (m1.heap x) else m1.heap x) gone ∙ now_fired)
        | no n ↦
            rw (==_no x a n) (ap (λ (t : Timer). if has x bs then fired now t else t) (same x n))
      ];
    }
