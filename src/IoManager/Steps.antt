-- ===== src/IoManager/Steps.antt =====
-- Each operation of cxk/iomanager.cpp on a valid manager.
use cxkframework.Prelude.{
  ℕ, ◌+◌, ◌≡◌, ◌≢◌, inl, inr, refl, sym, ap, ◌∙◌, subst, true, false, Bool, ◌&&◌, Option, none,
  some, List, [], ◌++◌, if◌then◌else◌, length, get_elem?, get_elem?-set, get_elem?-set_other,
  get_elem?-none, get_elem?_lt, get_elem?-some, set, arith, length-append, length-set, Bool-cases,
  leb, ◌==◌, and_then, All-get_elem?, ==_of,
}
use cxkframework.IoManager.{
  Event, no_event, read_event, write_event, Mask, FdContext, IoManager, EpollOp, ctl_mod, ctl_del,
  Task, no_mask, has_event, without_event, is_none, one_down, put_fd, asking, take_off, del_event,
  getcontext, put_context, reset_context,
}
use cxkframework.IoManager.Loop.{fire_event, cancel_event}
use cxkframework.IoManager.Counts.{count}
use cxkframework.IoManager.Context.{
  fits, owed_for, trigger_event_lem, disarmed, disarmed-fits, count-without,
}
use cxkframework.IoManager.Invariant.{IsValid, less-IsWhole, events_of, events_at}

same_result : {A : Type 0} {o : Option A} {a b : A} → o ≡ some a → o ≡ some b → a ≡ b
same_result p q = cc

-- An event that is off, and how many tasks were scheduled.
pub record TookOff (fd : ℕ) (e : Event) (tasks : ℕ) (m m' : IoManager) : Type 0 where
  pub valid : IsValid m'
  pub one_less : events_at fd m' ≡ without_event e (events_at fd m)
  pub others : (j : ℕ) → j ≢ fd → events_at j m' ≡ events_at j m
  pub handed_out : length m'.scheduled ≡ tasks + length m.scheduled
  pub same_size : length m'.fd_contexts ≡ length m.fd_contexts

abbrev pub owed_of : Event → Option FdContext → List (ℕ × Task)
owed_of e none = []
owed_of e (some c) = owed_for e c

-- what is to be handed out for an event, if it waits at a descriptor
abbrev pub owed_at : Event → ℕ → IoManager → List (ℕ × Task)
owed_at e fd m = owed_of e (get_elem? m.fd_contexts fd)

-- The tasks that an event which is triggered hands out; the other event keeps its own.
pub record HandsOut (fd : ℕ) (e : Event) (m m' : IoManager) : Type 0 where
  pub exact : m'.scheduled ≡ owed_at e fd m ++ m.scheduled
  pub write_same : e ≡ read_event → owed_at write_event fd m' ≡ owed_at write_event fd m

module _ (fd : ℕ) (e : Event) (c : FdContext) (m : IoManager) (v : IsValid m)
    (there : get_elem? m.fd_contexts fd ≡ some c) (h : has_event e c.events ≡ true) where
  fitting : fits c ≡ true
  fitting = All-get_elem? (λ c. fits c ≡ true) m.fd_contexts fd v.contexts there

  put_fd-events : (c' : FdContext) → events_of (get_elem? (set m.fd_contexts fd c') fd) ≡ c'.events
  put_fd-events c' =
      ap events_of (get_elem?-set m.fd_contexts fd c' (get_elem?-some m.fd_contexts fd there))

  took_off :
      (c' : FdContext) (out : List (ℕ × Task))
      → fits c' ≡ true
      → c'.events ≡ without_event e c.events
      → TookOff fd e (length out) m (record (put_fd fd c' m) {
        appending = one_down m.appending;
        scheduled = out ++ m.scheduled;
      })
  took_off c' out f same = record {
    valid =
        less-IsWhole v fd c c' there f (ap (λ m. count m + 1) same ∙ count-without e c.events h);
    one_less = put_fd-events c' ∙ same ∙ ap (λ o. without_event e (events_of o)) (sym there);
    others = λ j n. ap events_of (get_elem?-set_other m.fd_contexts fd j c' (λ eq. n (sym eq)));
    handed_out = length-append out m.scheduled;
    same_size = length-set m.fd_contexts fd c';
  }

  pub fire_event_lem : (m' : IoManager) × (fire_event fd e c m ≡ some m') × TookOff fd e 1 m m'
  unfolding fire_event
  fire_event_lem =
      let (r, eq, d) = trigger_event_lem e c fitting h in
      (
        record (put_fd fd r.1 m) {
          appending = one_down m.appending;
          scheduled = r.0 ++ m.scheduled;
        },
        ap
            (λ o. and_then o (λ r. some (record (put_fd fd r.1 m) {
              appending = one_down m.appending;
              scheduled = r.0 ++ m.scheduled;
            })))
            eq,
        subst
            (λ n. TookOff fd e n m (record (put_fd fd r.1 m) {
              appending = one_down m.appending;
              scheduled = r.0 ++ m.scheduled;
            }))
            d.one_task (took_off r.1 r.0 d.whole d.one_less),
      )

  pub fire_event-HandsOut : (m' : IoManager) → fire_event fd e c m ≡ some m' → HandsOut fd e m m'
  unfolding fire_event
  fire_event-HandsOut m' fired =
      let (r, eq, d) = trigger_event_lem e c fitting h in
      let same : record (put_fd fd r.1 m) {
        appending = one_down m.appending;
        scheduled = r.0 ++ m.scheduled;
      }
          ≡ m' =
        same_result
          (ap
            (λ o. and_then o (λ r. some (record (put_fd fd r.1 m) {
              appending = one_down m.appending;
              scheduled = r.0 ++ m.scheduled;
            })))
            eq)
          fired in
      subst (λ t. HandsOut fd e m t) same
        (record {
          exact = ap (λ l. l ++ m.scheduled) (d.exact ∙ ap (owed_of e) (sym there));
          write_same = λ q.
              ap (owed_of write_event)
                (get_elem?-set m.fd_contexts fd r.1 (get_elem?-some m.fd_contexts fd there))
              ∙ d.write_same q
              ∙ ap (owed_of write_event) (sym there);
        })

-- Whether `delEvent` and `cancelEvent` find the event, and `epoll_ctl` takes the change.
abbrev pub accepted : (EpollOp → ℕ → Mask → ℕ) → ℕ → Event → IoManager → Bool
accepted ctl fd e m =
    has_event e (events_at fd m)
    && (ctl (if is_none (without_event e (events_at fd m)) then ctl_del else ctl_mod) fd
          (without_event e (events_at fd m))
        == 0)

-- what an operation leaves, by its result
abbrev pub Left : Bool → ℕ → Event → ℕ → IoManager → IoManager → Type 0
Left true fd e tasks m m' = TookOff fd e tasks m m' × (m'.asked fd ≡ events_at fd m')
Left false fd e tasks m m' = m' ≡ m

asking-TookOff :
    (fd : ℕ) (e : Event) (tasks : ℕ) (k : Mask) (m m' : IoManager)
    → TookOff fd e tasks m m'
    → TookOff fd e tasks m (asking fd k m')
asking-TookOff fd e tasks k m m' t = record {
  valid = t.valid;
  one_less = t.one_less;
  others = t.others;
  handed_out = t.handed_out;
  same_size = t.same_size;
}

pub asked_at : (fd : ℕ) (k : Mask) (m : IoManager) → (asking fd k m).asked fd ≡ k
asked_at fd k m = rw (==_of fd fd refl) refl

accepts : (EpollOp → ℕ → Mask → ℕ) → ℕ → Event → Mask → Bool
accepts ctl fd e k =
    has_event e k
    && (ctl (if is_none (without_event e k) then ctl_del else ctl_mod) fd (without_event e k) == 0)

accepts_none :
    (ctl : EpollOp → ℕ → Mask → ℕ) (fd : ℕ) (e : Event) → accepts ctl fd e no_mask ≡ false
unfolding accepts
accepts_none ctl fd no_event = refl
accepts_none ctl fd read_event = refl
accepts_none ctl fd write_event = refl

module _ (ctl : EpollOp → ℕ → Mask → ℕ) (fd : ℕ) (e : Event) (m : IoManager) (tasks : ℕ)
    (rest : FdContext → Option IoManager) where
  TakesOff : Bool → Type 0
  TakesOff b = (m' : IoManager) × (take_off ctl fd e rest m ≡ some (b, m')) × Left b fd e tasks m m'

  take_off_there :
      (c : FdContext)
      → leb (length m.fd_contexts) fd ≡ false
      → get_elem? m.fd_contexts fd ≡ some c
      → (has_event e c.events ≡ true
          → (m' : IoManager) × (rest c ≡ some m') × TookOff fd e tasks m m')
      → TakesOff (accepts ctl fd e c.events)
  unfolding take_off accepts TakesOff
  take_off_there c large there r = elim (Bool-cases (has_event e c.events)) [
    | inr off ↦
        subst TakesOff {x = false} (sym (rw off refl)) (m, rw large (rw there (rw off refl)), refl)
    | inl waits ↦
        elim (Bool-cases (
          ctl (if is_none (without_event e c.events) then ctl_del else ctl_mod) fd
            (without_event e c.events)
          == 0)) [
            | inr refused ↦
                subst TakesOff {x = false} (sym (rw waits (rw refused refl)))
                  (m, rw large (rw there (rw waits (rw refused refl))), refl)
            | inl taken ↦
                let (m', eq, t) = r waits in
                subst TakesOff {x = true} (sym (rw waits (rw taken refl))) (
                  asking fd (without_event e c.events) m',
                  rw large (rw there (rw waits (rw taken (rw eq refl)))),
                  (
                    asking-TookOff fd e tasks (without_event e c.events) m m' t,
                    asked_at fd (without_event e c.events) m'
                        ∙ ap (λ o. without_event e (events_of o)) (sym there)
                        ∙ sym t.one_less,
                  ),
                )
          ]
  ]

  take_off_lem :
      ((c : FdContext)
        → get_elem? m.fd_contexts fd ≡ some c
        → has_event e c.events ≡ true
        → (m' : IoManager) × (rest c ≡ some m') × TookOff fd e tasks m m')
      → TakesOff (accepted ctl fd e m)
  unfolding take_off accepts TakesOff
  take_off_lem r = elim (Bool-cases (leb (length m.fd_contexts) fd)) [
    | inl small ↦
        subst TakesOff
          (sym (
            ap (λ o. accepts ctl fd e (events_of o))
              (get_elem?-none m.fd_contexts fd (ground arith))
            ∙ accepts_none ctl fd e))
          (m, rw small refl, refl)
    | inr large ↦
        let (c, there) = get_elem?_lt m.fd_contexts fd (ground arith) in
        subst TakesOff (ap (λ o. accepts ctl fd e (events_of o)) (sym there))
          (take_off_there c large there (r c there))
  ]

-- what `delEvent` does after `epoll_ctl`
abbrev del_rest : ℕ → Event → IoManager → FdContext → Option IoManager
del_rest fd e m c = and_then (getcontext e c) (λ x.
    some
      (record (put_fd fd
        (put_context e (reset_context x) (record c { events = without_event e c.events })) m) {
          appending = one_down m.appending;
        }))

abbrev removed : ℕ → Event → FdContext → IoManager → IoManager
removed fd e c m = record (put_fd fd (disarmed e c) m) { appending = one_down m.appending }

del_rest_lem :
    (fd : ℕ) (e : Event) (m : IoManager)
    → IsValid m
    → (c : FdContext) → get_elem? m.fd_contexts fd ≡ some c
    → has_event e c.events ≡ true
    → (m' : IoManager) × (del_rest fd e m c ≡ some m') × TookOff fd e 0 m m'
unfolding getcontext reset_context
del_rest_lem fd e m v c there h =
    let (f, same) = disarmed-fits e c (fitting fd e c m v there h) in
    (removed fd e c m, gone e h, took_off fd e c m v there h (disarmed e c) [] f same)
  where
    gone : (e : Event) → has_event e c.events ≡ true → del_rest fd e m c ≡ some (removed fd e c m)
    gone no_event h = cc
    gone read_event h = refl
    gone write_event h = refl

module _ (ctl : EpollOp → ℕ → Mask → ℕ) (fd : ℕ) (e : Event) (m : IoManager) where
  -- On a valid manager delEvent returns whether the event waits and epoll_ctl takes the change; if so the
  -- manager stays valid, the event no longer waits, and no task was handed to a scheduler; if not, the
  -- manager is unchanged.
  pub del_event_lem :
      IsValid m
      → (m' : IoManager) × (del_event ctl fd e m ≡ some (accepted ctl fd e m, m'))
        × Left (accepted ctl fd e m) fd e 0 m m'
  unfolding del_event TakesOff
  del_event_lem v = take_off_lem ctl fd e m 0 (del_rest fd e m) (del_rest_lem fd e m v)

  -- On a valid manager cancelEvent returns whether the event waits and epoll_ctl takes the change;
  -- if so the manager stays valid, the event no longer waits, one task was handed to a scheduler,
  -- no other descriptor changes, and epoll_ctl was last asked for the events that are left; if not,
  -- the manager is unchanged.
  pub cancel_event_lem :
      IsValid m
      → (m' : IoManager) × (cancel_event ctl fd e m ≡ some (accepted ctl fd e m, m'))
        × Left (accepted ctl fd e m) fd e 1 m m'
  unfolding cancel_event TakesOff
  cancel_event_lem v =
      take_off_lem ctl fd e m 1 (λ c. fire_event fd e c m)
        (λ c there h. fire_event_lem fd e c m v there h)
