-- ===== src/IoManager/Adds.antt =====
-- `addEvent` of cxk/iomanager.cpp, with no other thread in between.
use cxkframework.Prelude.{
  ℕ, ◌*◌, ◌/◌, ◌≤◌, ◌<◌, ◌≡◌, ◌≢◌, refl, sym, ap, ◌∙◌, subst, true, false, Bool, Option, none, some,
  if◌then◌else◌, length, get_elem?, get_elem?-set, get_elem?-set_other, get_elem?-some,
  get_elem?_lt, arith, Bool-cases, inl, inr, set, ltb, ◌==◌, and_then, All-get_elem?,
}
use cxkframework.IoManager.{
  Event, no_event, Mask, FdContext, IoManager, EpollOp, ctl_add, ctl_mod, has_event, with_event,
  is_none, asking, put_fd, one_up, arm, add_at, add_event, context_resize,
}
use cxkframework.IoManager.Counts.{count}
use cxkframework.IoManager.Context.{fits, arm_lem, count-with}
use cxkframework.IoManager.Invariant.{
  IsValid, IsWhole, more-IsWhole, events_of, events_at, context_resize-IsWhole,
  context_resize-events, length-context_resize, context_resize-rest,
}
use cxkframework.IoManager.Steps.{asked_at}

-- An event that is on.
pub record PutOn (fd : ℕ) (e : Event) (m m' : IoManager) : Type 0 where
  pub valid : IsValid m'
  pub one_more : events_at fd m' ≡ with_event e (events_at fd m)
  pub others : (j : ℕ) → j ≢ fd → events_at j m' ≡ events_at j m
  pub asks : m'.asked fd ≡ events_at fd m'

-- whether `epoll_ctl` takes the change
abbrev pub admitted : (EpollOp → ℕ → Mask → ℕ) → ℕ → Event → Mask → Bool
admitted ctl fd e k = ctl (if is_none k then ctl_add else ctl_mod) fd (with_event e k) == 0

-- what `addEvent` leaves: a manager in which the event waits, or no event is new
abbrev pub Added : Bool → ℕ → Event → IoManager → IoManager → Type 0
Added true fd e m m' = PutOn fd e m m'
Added false fd e m m' = IsValid m' × ((j : ℕ) → events_at j m' ≡ events_at j m)

module _ (ctl : EpollOp → ℕ → Mask → ℕ) (s current fd : ℕ) (e : Event) (cb : Option ℕ) where
  -- `addEvent` after the test, with the result of `epoll_ctl`
  abbrev change : FdContext → IoManager → Bool → Option (Bool × IoManager)
  change c m taken =
      if taken
      then and_then (arm (some s) current e cb c) (λ c'. some (
        true,
        record (asking fd (with_event e c.events) (put_fd fd c' m)) {
          appending = one_up m.appending;
        },
      ))
      else some (false, m)

  change_lem :
      (taken : Bool) (c : FdContext) (m : IoManager)
      → IsValid m
      → get_elem? m.fd_contexts fd ≡ some c
      → has_event e c.events ≡ false
      → e ≢ no_event
      → (m' : IoManager) × (change c m taken ≡ some (taken, m')) × Added taken fd e m m'
  change_lem false c m v there h n = (m, refl, (v, λ j. refl))
  change_lem true c m v there h n =
      let f : fits c ≡ true =
        All-get_elem? (λ c. fits c ≡ true) m.fd_contexts fd v.contexts there in
      let (c', eq, f', same) = arm_lem s current e cb c f h n in
      let here : events_of (get_elem? (set m.fd_contexts fd c') fd) ≡ c'.events =
        ap events_of (get_elem?-set m.fd_contexts fd c' (get_elem?-some m.fd_contexts fd there)) in
      let put = put_fd fd c' m in
      (
        record (asking fd (with_event e c.events) put) { appending = one_up m.appending },
        ap
            (λ o. and_then o (λ c'. some (
              true,
              record (asking fd (with_event e c.events) (put_fd fd c' m)) {
                appending = one_up m.appending;
              },
            )))
            eq,
        record {
          valid = more-IsWhole v fd c c' there f' (ap count same ∙ count-with e c.events h n);
          one_more = here ∙ same ∙ ap (λ o. with_event e (events_of o)) (sym there);
          others = λ j d. ap events_of (get_elem?-set_other m.fd_contexts fd j c' (λ q. d (sym q)));
          asks = asked_at fd (with_event e c.events) put ∙ sym same ∙ sym here;
        },
      )

  add_at_lem :
      (m : IoManager)
      → IsValid m
      → fd < length m.fd_contexts
      → has_event e (events_at fd m) ≡ false
      → e ≢ no_event
      → (m' : IoManager) × (add_at ctl (some s) current fd e cb m
          ≡ some (admitted ctl fd e (events_at fd m), m'))
        × Added (admitted ctl fd e (events_at fd m)) fd e m m'
  unfolding add_at
  add_at_lem m v l h n =
      let (c, there) = get_elem?_lt m.fd_contexts fd l in
      let same : events_at fd m ≡ c.events = ap events_of there in
      let off : has_event e c.events ≡ false = sym (ap (has_event e) same) ∙ h in
      let (m', eq, a) = change_lem (admitted ctl fd e (events_at fd m)) c m v there off n in
      (
        m',
        ap (λ o. and_then o (at_once m)) there
            ∙ ap (λ b. if b then none else change c m (admitted ctl fd e c.events)) off
            ∙ ap (λ k. change c m (admitted ctl fd e k)) (sym same)
            ∙ eq,
        a,
      )
    where
      at_once : IoManager → FdContext → Option (Bool × IoManager)
      at_once m c = if has_event e c.events then none else change c m (admitted ctl fd e c.events)

Added-same :
    (b : Bool) (fd : ℕ) (e : Event) (m1 m m' : IoManager)
    → ((j : ℕ) → events_at j m1 ≡ events_at j m)
    → Added b fd e m1 m'
    → Added b fd e m m'
Added-same true fd e m1 m m' same p = record {
  valid = p.valid;
  one_more = p.one_more ∙ ap (with_event e) (same fd);
  others = λ j n. p.others j n ∙ same j;
  asks = p.asks;
}
Added-same false fd e m1 m m' same (v, k) = (v, λ j. k j ∙ same j)

-- On a valid manager, addEvent for READ or WRITE where this event does not wait, on a thread with a
-- scheduler and with no other thread in between, returns whether epoll_ctl takes the change; if so
-- the manager stays valid, the event waits, also where the table had to grow, no other descriptor
-- changes, and epoll_ctl was last asked for the events that then wait; if not, the manager is valid
-- and the same events wait as before.
pub add_event_lem :
    (ctl : EpollOp → ℕ → Mask → ℕ) (s current fd : ℕ) (e : Event) (cb : Option ℕ) (m : IoManager)
    → IsValid m
    → has_event e (events_at fd m) ≡ false
    → e ≢ no_event
    → (m' : IoManager) × (add_event ctl (some s) current fd e cb m m
        ≡ some (admitted ctl fd e (events_at fd m), m'))
      × Added (admitted ctl fd e (events_at fd m)) fd e m m'
unfolding add_event
add_event_lem ctl s current fd e cb m v h n = elim (Bool-cases (ltb fd (length m.fd_contexts))) [
  | inl inside ↦
      let (m', eq, a) = add_at_lem ctl s current fd e cb m v (ground arith) h n in
      (m', ap branches inside ∙ eq, a)
  | inr outside ↦
      let small : length m.fd_contexts ≤ fd = ground arith in
      let fits_in : length m.fd_contexts ≤ fd * 3 / 2 = omega arith in
      let same = context_resize-events (fd * 3 / 2) m fits_in in
      let (m', eq, a) =
        add_at_lem ctl s current fd e cb larger (larger-IsValid fits_in) (in_larger small)
          (ap (has_event e) (same fd) ∙ h) n in
      (
        m',
        ap branches outside ∙ eq ∙ ap (λ k. some (admitted ctl fd e k, m')) (same fd),
        Added-same (admitted ctl fd e (events_at fd m)) fd e larger m m' same
            (subst (λ k. Added (admitted ctl fd e k) fd e larger m') (same fd) a),
      )
]
  where
    larger : IoManager
    larger = context_resize (fd * 3 / 2) m

    branches : Bool → Option (Bool × IoManager)
    branches b =
        if b
        then add_at ctl (some s) current fd e cb m
        else add_at ctl (some s) current fd e cb larger

    larger-IsValid : length m.fd_contexts ≤ fd * 3 / 2 → IsValid larger
    larger-IsValid f =
        subst (λ n. IsWhole larger.fd_contexts n) (sym (context_resize-rest (fd * 3 / 2) m).0)
          (context_resize-IsWhole (fd * 3 / 2) m f v)

    in_larger : length m.fd_contexts ≤ fd → fd < length larger.fd_contexts
    in_larger small = omega (arith, length-context_resize (fd * 3 / 2) m, v.large)
