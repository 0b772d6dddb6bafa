-- ===== src/IoManager/Reach.antt =====
-- The managers of cxk/iomanager.cpp that its operations reach from the constructor, one after another.
use cxkframework.Prelude.{
  ℕ, zero, suc, ◌-◌, ◌*◌, ◌%◌, ◌^◌, ◌≤◌, ◌<◌, ◌≡◌, ◌≢◌, refl, sym, subst, true, false, Bool, ◌||◌,
  Option, some, List, [], ◌∷◌, length, get_elem?, All, arith, ltb, leb, ◌==◌,
}
use cxkframework.IoManager.{
  Event, Mask, EpollOp, FdContext, IoManager, no_mask, has_event, new_manager, add_event, del_event,
}
use cxkframework.IoManager.Loop.{
  cancel_event, cancel_all, handle_all, EpollEvent, epoll_timeout, io_stopping,
}
use cxkframework.IoManager.Counts.{pending}
use cxkframework.IoManager.Invariant.{IsValid, events_at, events_of, new_manager-IsValid}
use cxkframework.IoManager.Steps.{Left, accepted, del_event_lem, cancel_event_lem}
use cxkframework.IoManager.Fires.{cancels, cancel_all_lem}
use cxkframework.IoManager.Rounds.{InTable, EmptiedIf-IsValid, handle_all_lem}
use cxkframework.IoManager.Adds.{Added, admitted, add_event_lem}

-- One operation, with an `epoll_ctl` that may be another one each time. An event is added where it
-- does not wait, and the events of `epoll_wait` belong to the table.
pub data Step : IoManager → IoManager → Type 0 where
  adds :
      (ctl : EpollOp → ℕ → Mask → ℕ) (s current fd : ℕ) (e : Event) (cb : Option ℕ)
      (m m' : IoManager) (r : Bool)
      → has_event e (events_at fd m) ≡ false
      → e ≢ Event.no_event
      → add_event ctl (some s) current fd e cb m m ≡ some (r, m')
      → Step m m'
  dels :
      (ctl : EpollOp → ℕ → Mask → ℕ) (fd : ℕ) (e : Event) (m m' : IoManager) (r : Bool)
      → del_event ctl fd e m ≡ some (r, m')
      → Step m m'
  cancels_one :
      (ctl : EpollOp → ℕ → Mask → ℕ) (fd : ℕ) (e : Event) (m m' : IoManager) (r : Bool)
      → cancel_event ctl fd e m ≡ some (r, m')
      → Step m m'
  cancels_each :
      (ctl : EpollOp → ℕ → Mask → ℕ) (fd : ℕ) (m m' : IoManager) (r : Bool)
      → cancel_all ctl fd m ≡ some (r, m')
      → Step m m'
  polls :
      (ctl : EpollOp → ℕ → Mask → ℕ) (evs : List EpollEvent) (m m' : IoManager)
      → All (InTable (length m.fd_contexts)) evs
      → handle_all ctl (length evs) 0 evs m ≡ some m'
      → Step m m'

pub data Reachable : IoManager → Type 0 where
  start : Reachable new_manager
  step : (m m' : IoManager) → Reachable m → Step m m' → Reachable m'

Left-IsValid :
    (b : Bool) (fd : ℕ) (e : Event) (n : ℕ) (m m' : IoManager)
    → IsValid m
    → Left b fd e n m m'
    → IsValid m'
Left-IsValid true fd e n m m' v (t, _) = t.valid
Left-IsValid false fd e n m m' v eq = subst IsValid (sym eq) v

Added-IsValid : (b : Bool) (fd : ℕ) (e : Event) (m m' : IoManager) → Added b fd e m m' → IsValid m'
Added-IsValid true fd e m m' p = p.valid
Added-IsValid false fd e m m' (v, _) = v

-- Two results of one run are one.
same_result :
    {o : Option (Bool × IoManager)} {b r : Bool} {m1 m' : IoManager}
    → o ≡ some (b, m1)
    → o ≡ some (r, m')
    → m1 ≡ m'
same_result p q = cc

same_manager : {o : Option IoManager} {m1 m' : IoManager} → o ≡ some m1 → o ≡ some m' → m1 ≡ m'
same_manager p q = cc

Step-IsValid : (m m' : IoManager) → Step m m' → IsValid m → IsValid m'
Step-IsValid m m' (adds ctl s current fd e cb _ _ r h n eq) v =
    let (m1, e1, a) = add_event_lem ctl s current fd e cb m v h n in
    subst IsValid (same_result e1 eq)
      (Added-IsValid (admitted ctl fd e (events_at fd m)) fd e m m1 a)
Step-IsValid m m' (dels ctl fd e _ _ r eq) v =
    let (m1, e1, a) = del_event_lem ctl fd e m v in
    subst IsValid (same_result e1 eq) (Left-IsValid (accepted ctl fd e m) fd e 0 m m1 v a)
Step-IsValid m m' (cancels_one ctl fd e _ _ r eq) v =
    let (m1, e1, a) = cancel_event_lem ctl fd e m v in
    subst IsValid (same_result e1 eq) (Left-IsValid (accepted ctl fd e m) fd e 1 m m1 v a)
Step-IsValid m m' (cancels_each ctl fd _ _ r eq) v =
    let (m1, e1, a) = cancel_all_lem ctl fd m v in
    subst IsValid (same_result e1 eq)
      (EmptiedIf-IsValid (cancels ctl fd (events_at fd m)) fd no_mask m m1 v a)
Step-IsValid m m' (polls ctl evs _ _ a eq) v =
    let (m1, e1, v1) = handle_all_lem ctl (length evs) 0 evs m v (omega arith) a in
    subst IsValid (same_manager e1 eq) v1

-- In every manager that addEvent, delEvent, cancelEvent, cancelAll and the loop over the events of
-- epoll_wait reach from the constructor, run one after another, where an event is only added that
-- does not wait: a context has a scheduler and either a callback or a fiber exactly where its event
-- is set, and is empty where not; m_appendingEventCount is the number of events set, modulo 2 ^ 64;
-- and the table has at least 32 contexts.
pub Reachable-IsValid : (m : IoManager) → Reachable m → IsValid m
Reachable-IsValid m start = new_manager-IsValid
Reachable-IsValid m (step m0 _ r s) = Step-IsValid m0 m s (Reachable-IsValid m0 r)

pending-bound : (cs : List FdContext) → pending cs ≤ 2 * length cs
unfolding pending
pending-bound [] = omega arith
pending-bound (c ∷ cs) = ground (arith, pending-bound cs)

pending_none : (cs : List FdContext) (j : ℕ) → pending cs ≡ 0 → events_of (get_elem? cs j) ≡ no_mask
unfolding pending
pending_none [] j h = refl
pending_none (c ∷ cs) zero h = ground arith
pending_none (c ∷ cs) (suc j) h = pending_none cs j (omega arith)

-- In a manager that the operations reach, with fewer than 2 ^ 63 contexts, stopping is true only if
-- no event waits at any descriptor.
pub io_stopping_lem :
    (timeout : ℕ) (idle : Bool) (m : IoManager) (j : ℕ)
    → Reachable m
    → length m.fd_contexts < 2 ^ 63
    → io_stopping timeout idle m ≡ true
    → events_at j m ≡ no_mask
unfolding io_stopping
io_stopping_lem timeout idle m j r short h =
    let v = Reachable-IsValid m r in
    let none_left : m.appending ≡ 0 = ground arith in
    pending_none m.fd_contexts j (omega (arith, pending-bound m.fd_contexts, v.counted))

-- The limit that epoll_wait gets is at most 3000 if there is no timer or the low 32 bits of the
-- time to the next timer are below 2 ^ 31, and only then.
pub epoll_timeout_lem :
    (next : ℕ)
    → leb (epoll_timeout next) 3000 ≡ ((next == 2 ^ 64 - 1) || ltb (next % 2 ^ 32) (2 ^ 31))
unfolding epoll_timeout
epoll_timeout_lem next = ground arith
