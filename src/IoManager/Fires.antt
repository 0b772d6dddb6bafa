-- ===== src/IoManager/Fires.antt =====
-- `cancelAll` of cxk/iomanager.cpp and the body of the loop of `idel`, which trigger both events.
use cxkframework.Prelude.{
  ℕ, [], ◌++◌, ◌+◌, ◌≤◌, ◌<◌, ◌≡◌, ◌≢◌, refl, sym, ap, ◌∙◌, subst, true, false, Bool, Option, none,
  some, if◌then◌else◌, length, get_elem?-none, get_elem?_lt, arith, Bool-cases, inl, inr, ltb, leb,
  ltb→lt, ◌==◌, and_then,
}
use cxkframework.IoManager.{
  Event, no_event, read_event, write_event, Mask, FdContext, IoManager, EpollOp, ctl_mod, ctl_del,
  no_mask, has_event, without_event, is_none, asking,
}
use cxkframework.IoManager.Loop.{
  fire_event, fire_if, fire_both, cancel_all, all_fired, handle_context, meet, minus,
}
use cxkframework.IoManager.Counts.{count, bit}
use cxkframework.IoManager.Context.{owed_for}
use cxkframework.IoManager.Invariant.{IsValid, events_of, events_at}
use cxkframework.IoManager.Steps.{
  TookOff, HandsOut, owed_of, owed_at, fire_event-HandsOut, fire_event_lem, asked_at,
}

without_event-absent : (e : Event) (k : Mask) → has_event e k ≡ false → without_event e k ≡ k
without_event-absent no_event k h = refl
without_event-absent read_event k h = ground arith
without_event-absent write_event k h = ground arith

-- A descriptor whose events are all off, each with its task handed out to its scheduler, that of the
-- read event first.
pub record Emptied (fd : ℕ) (m m' : IoManager) : Type 0 where
  pub valid : IsValid m'
  pub no_events : events_at fd m' ≡ no_mask
  pub others : (j : ℕ) → j ≢ fd → events_at j m' ≡ events_at j m
  pub handed_out : length m'.scheduled ≡ count (events_at fd m) + length m.scheduled
  pub same_size : length m'.fd_contexts ≡ length m.fd_contexts
  pub tasks : m'.scheduled ≡ owed_at write_event fd m ++ (owed_at read_event fd m ++ m.scheduled)

asking-Emptied :
    (fd : ℕ) (k : Mask) (m m' : IoManager) → Emptied fd m m' → Emptied fd m (asking fd k m')
asking-Emptied fd k m m' t = record {
  valid = t.valid;
  no_events = t.no_events;
  others = t.others;
  handed_out = t.handed_out;
  same_size = t.same_size;
  tasks = t.tasks;
}

owed_for-off : (e : Event) (c : FdContext) → has_event e c.events ≡ false → owed_for e c ≡ []
owed_for-off no_event c h = refl
owed_for-off read_event c h = rw h refl
owed_for-off write_event c h = rw h refl

fire_if_lem :
    (fd : ℕ) (e : Event) (m : IoManager)
    → IsValid m
    → fd < length m.fd_contexts
    → (m' : IoManager) × (fire_if fd e m ≡ some m')
      × TookOff fd e (bit (has_event e (events_at fd m))) m m'
      × HandsOut fd e m m'
unfolding fire_if
fire_if_lem fd e m v l =
    let (c, there) = get_elem?_lt m.fd_contexts fd l in
    let same : events_at fd m ≡ c.events = ap events_of there in
    elim (Bool-cases (has_event e c.events)) [
      | inl waits ↦
          let (m', eq, t) = fire_event_lem fd e c m v there waits in
          (
            m',
            rw there (ap (λ b. if b then fire_event fd e c m else some m) waits ∙ eq),
            subst (λ n. TookOff fd e n m m')
                (sym (ap (λ k. bit (has_event e k)) same ∙ ap bit waits)) t,
            fire_event-HandsOut fd e c m v there waits m' eq,
          )
      | inr off ↦ (
        m,
        rw there (ap (λ b. if b then fire_event fd e c m else some m) off),
        subst (λ n. TookOff fd e n m m) (sym (ap (λ k. bit (has_event e k)) same ∙ ap bit off))
            (record {
              valid = v;
              one_less =
                  sym (without_event-absent e (events_at fd m) (ap (has_event e) same ∙ off));
              others = λ j n. refl;
              handed_out = omega arith;
              same_size = refl;
            }),
        record {
          exact = sym (ap (λ l. l ++ m.scheduled) (ap (owed_of e) there ∙ owed_for-off e c off));
          write_same = λ q. refl;
        },
      )
    ]

fire_both_lem :
    (fd : ℕ) (m : IoManager)
    → IsValid m
    → fd < length m.fd_contexts
    → (m' : IoManager) × (fire_both fd m ≡ some m') × Emptied fd m m'
unfolding fire_both
fire_both_lem fd m v l =
    let (m1, e1, t1, h1) = fire_if_lem fd read_event m v l in
    let (m2, e2, t2, h2) =
      fire_if_lem fd write_event m1 t1.valid (subst (λ n. fd < n) (sym t1.same_size) l) in
    (
      m2,
      ap (λ o. and_then o (λ m'. fire_if fd write_event m')) e1 ∙ e2,
      record {
        valid = t2.valid;
        no_events = t2.one_less ∙ ap (without_event write_event) t1.one_less;
        others = λ j n. t2.others j n ∙ t1.others j n;
        handed_out =
            let waiting = ap (λ k. bit (has_event write_event k)) t1.one_less in
            omega (arith, t1.handed_out, t2.handed_out);
        same_size = t2.same_size ∙ t1.same_size;
        tasks =
            h2.exact
            ∙ ap (λ l. l ++ m1.scheduled) (h1.write_same refl)
            ∙ ap (λ l. owed_at write_event fd m ++ l) h1.exact;
      },
    )

-- What is left where the call of `epoll_ctl` is made and taken, and where it is not.
abbrev pub EmptiedIf : Bool → ℕ → Mask → IoManager → IoManager → Type 0
EmptiedIf true fd k m m' = Emptied fd m m' × (m'.asked fd ≡ k)
EmptiedIf false fd k m m' = m' ≡ m

abbrev pub cancels : (EpollOp → ℕ → Mask → ℕ) → ℕ → Mask → Bool
cancels ctl fd k = if is_none k then false else ctl ctl_del fd no_mask == 0

all_fired_lem :
    (fd : ℕ) (m : IoManager)
    → fd < length m.fd_contexts
    → events_at fd m ≡ no_mask
    → all_fired fd m ≡ some (true, asking fd no_mask m)
unfolding all_fired
all_fired_lem fd m l h =
    let (c, there) = get_elem?_lt m.fd_contexts fd l in
    let off : c.events ≡ no_mask = sym (ap events_of there) ∙ h in
    rw there (ap (λ k. if is_none k then some (true, asking fd no_mask m) else none) off)

module _ (ctl : EpollOp → ℕ → Mask → ℕ) (fd : ℕ) (m : IoManager) (v : IsValid m) where
  Cancels : Bool → Type 0
  Cancels b = (m' : IoManager) × (cancel_all ctl fd m ≡ some (b, m')) × EmptiedIf b fd no_mask m m'

  -- `cancelAll` from the context on
  abbrev emptied_by : Mask → Option (Bool × IoManager)
  emptied_by k =
      if is_none k
      then some (false, m)
      else (if ctl ctl_del fd no_mask == 0
          then and_then (fire_both fd m) (λ m'. all_fired fd m')
          else some (false, m))

  cancels_there : fd < length m.fd_contexts → cancel_all ctl fd m ≡ emptied_by (events_at fd m)
  unfolding cancel_all
  cancels_there l =
      let (c, there) = get_elem?_lt m.fd_contexts fd l in
      let inside : leb (length m.fd_contexts) fd ≡ false = ground arith in rw inside (rw there refl)

  cancels_not : length m.fd_contexts ≤ fd → cancel_all ctl fd m ≡ some (false, m)
  unfolding cancel_all
  cancels_not h =
      let outside : leb (length m.fd_contexts) fd ≡ true = ground arith in rw outside refl

  -- the two tests of `cancelAll`, and what it leaves
  emptied :
      (nothing taken : Bool)
      → fd < length m.fd_contexts
      → (m' : IoManager) × ((if nothing
            then some (false, m)
            else (if taken
                then and_then (fire_both fd m) (λ m'. all_fired fd m')
                else some (false, m)))
          ≡ some (if nothing then false else taken, m'))
        × EmptiedIf (if nothing then false else taken) fd no_mask m m'
  emptied true taken l = (m, refl, refl)
  emptied false false l = (m, refl, refl)
  emptied false true l =
      let (m1, e1, t) = fire_both_lem fd m v l in
      (
        asking fd no_mask m1,
        ap (λ o. and_then o (λ m'. all_fired fd m')) e1
            ∙ all_fired_lem fd m1 (subst (λ n. fd < n) (sym t.same_size) l) t.no_events,
        (asking-Emptied fd no_mask m m1 t, asked_at fd no_mask m1),
      )

  -- cancelAll returns whether an event waits at a descriptor of the table and epoll_ctl takes the change;
  -- if so, none waits there afterwards, and each one that did has its task handed to a scheduler; if not,
  -- the manager is unchanged.
  pub cancel_all_lem :
      (m' : IoManager) × (cancel_all ctl fd m ≡ some (cancels ctl fd (events_at fd m), m'))
      × EmptiedIf (cancels ctl fd (events_at fd m)) fd no_mask m m'
  unfolding Cancels
  cancel_all_lem = elim (Bool-cases (ltb fd (length m.fd_contexts))) [
    | inr outside ↦
        subst Cancels
          (sym (
            ap (λ o. cancels ctl fd (events_of o))
              (get_elem?-none m.fd_contexts fd (ground arith))))
          (m, cancels_not (ground arith), refl)
    | inl inside ↦
        let l = ltb→lt fd (length m.fd_contexts) inside in
        let (m', e, t) = emptied (is_none (events_at fd m)) (ctl ctl_del fd no_mask == 0) l in
        (m', cancels_there l ∙ e, t)
  ]

abbrev pub handles : (EpollOp → ℕ → Mask → ℕ) → Mask → ℕ → Mask → Bool
handles ctl real fd k =
    if is_none (meet k real)
    then false
    else ctl (if is_none (minus k real) then ctl_del else ctl_mod) fd (minus k real) == 0

module _ (ctl : EpollOp → ℕ → Mask → ℕ) (real : Mask) (fd : ℕ) (m : IoManager) (v : IsValid m)
    (l : fd < length m.fd_contexts) where
  -- the two tests of the body, and what it leaves
  handled :
      (nothing taken : Bool) (k : Mask)
      → (m' : IoManager) × ((if nothing
            then some m
            else (if taken
                then and_then (fire_both fd m) (λ m'. some (asking fd k m'))
                else some m))
          ≡ some m')
        × EmptiedIf (if nothing then false else taken) fd k m m'
  handled true taken k = (m, refl, refl)
  handled false false k = (m, refl, refl)
  handled false true k =
      let (m1, e1, t) = fire_both_lem fd m v l in
      (
        asking fd k m1,
        ap (λ o. and_then o (λ m'. some (asking fd k m'))) e1,
        (asking-Emptied fd k m m1 t, asked_at fd k m1),
      )

  -- On a valid manager the body of the loop of idel, for a context of the table, returns normally.
  -- If one of the events that are ready waits and epoll_ctl takes the change, then all events of
  -- the context are off, also those that are not ready; the callback of each one that waited, or
  -- else its fiber, was handed to the scheduler of its event, that of the read event first, and
  -- nothing else was; the manager stays valid and no other descriptor changes, while epoll_ctl was
  -- last asked for the events that are not ready. Otherwise the manager is unchanged.
  pub handle_context_lem :
      (m' : IoManager) × (handle_context ctl real fd m ≡ some m')
      × EmptiedIf (handles ctl real fd (events_at fd m)) fd (minus (events_at fd m) real) m m'
  unfolding handle_context
  handle_context_lem =
      let (c, there) = get_elem?_lt m.fd_contexts fd l in
      let k = events_at fd m in
      let (m', e, t) =
        handled (is_none (meet k real))
          (ctl (if is_none (minus k real) then ctl_del else ctl_mod) fd (minus k real) == 0)
          (minus k real) in
      (m', ap (λ o. and_then o body) there ∙ ap body_of (sym (ap events_of there)) ∙ e, t)
    where
      body_of : Mask → Option IoManager
      body_of k =
          if is_none (meet k real)
          then some m
          else (if ctl (if is_none (minus k real) then ctl_del else ctl_mod) fd (minus k real) == 0
              then and_then (fire_both fd m) (λ m'. some (asking fd (minus k real) m'))
              else some m)

      body : FdContext → Option IoManager
      body c = body_of c.events
