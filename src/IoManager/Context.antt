-- ===== src/IoManager/Context.antt =====
-- One context of cxk/iomanager.cpp: what stands in it, and what `triggerEvent` and `addEvent` do to it.
use cxkframework.Prelude.{
  ℕ, ◌+◌, ◌≡◌, refl, sym, ap, ◌∙◌, ◌≢◌, true, false, Bool, not, ◌&&◌, Option, none, some, List, [],
  ◌∷◌, if◌then◌else◌, length, arith, Option-cases, inl, inr,
}
use cxkframework.IoManager.{
  Event, no_event, read_event, write_event, Mask, FdContext, EventContext, Task, fiber_task,
  cb_task, no_context, has_event, with_event, without_event, is_unused, filled, getcontext,
  put_context, schedule_context, trigger_event, arm,
}
use cxkframework.IoManager.Counts.{count}

abbrev pub is_some : Option ℕ → Bool
is_some none = false
is_some (some a) = true

-- A context that waits has a scheduler, and a callback or a fiber, but not both; another is empty.
abbrev pub fits_one : Bool → EventContext → Bool
fits_one true x =
    is_some x.scheduler && (if is_some x.cb then not (is_some x.fiber) else is_some x.fiber)
fits_one false x = is_unused x

abbrev pub fits : FdContext → Bool
fits c = fits_one c.events.reads c.read && fits_one c.events.writes c.write

-- The scheduler and the task of a context that waits: its callback, or else its fiber.
abbrev pub owed : EventContext → List (ℕ × Task)
owed x = elim x.scheduler [
  | none ↦ []
  | some s ↦ elim x.cb [
    | some f ↦ (s, cb_task f) ∷ []
    | none ↦ elim x.fiber [ some f ↦ (s, fiber_task f) ∷ [] | none ↦ [] ]
  ]
]

-- the task of an event, if it waits
abbrev pub owed_for : Event → FdContext → List (ℕ × Task)
owed_for no_event c = []
owed_for read_event c = if c.events.reads then owed c.read else []
owed_for write_event c = if c.events.writes then owed c.write else []

-- What `triggerEvent` hands out and leaves.
pub record DidTrigger (e : Event) (c : FdContext) (r : List (ℕ × Task) × FdContext) : Type 0 where
  pub whole : fits r.1 ≡ true
  pub one_less : r.1.events ≡ without_event e c.events
  pub one_task : length r.0 ≡ 1
  pub exact : r.0 ≡ owed_for e c
  pub write_same : e ≡ read_event → owed_for write_event r.1 ≡ owed_for write_event c

schedule_context-owed :
    (s : ℕ) (x : EventContext) → x.scheduler ≡ some s → (schedule_context s x).0 ≡ owed x
unfolding schedule_context
schedule_context-owed s x e = elim (Option-cases x.cb) [
  | inr (f, there) ↦ rw e (rw there refl)
  | inl no_cb ↦ elim (Option-cases x.fiber) [
    | inr (f, there) ↦ rw e (rw no_cb (rw there refl))
    | inl no_fiber ↦ rw e (rw no_cb (rw no_fiber refl))
  ]
]

module _ (c : FdContext) (f : fits c ≡ true) where
  trigger_read :
      (s : ℕ)
      → c.read.scheduler ≡ some s
      → c.events.reads ≡ true
      → DidTrigger read_event c (
        (schedule_context s c.read).0,
        record c {
          events = without_event read_event c.events;
          read = (schedule_context s c.read).1;
        },
      )
  unfolding schedule_context
  trigger_read s e h = record {
    whole = ground arith;
    one_less = refl;
    one_task = ground arith;
    exact = schedule_context-owed s c.read e ∙ sym (ap (λ b. if b then owed c.read else []) h);
    write_same = λ _. refl;
  }

  trigger_write :
      (s : ℕ)
      → c.write.scheduler ≡ some s
      → c.events.writes ≡ true
      → DidTrigger write_event c (
        (schedule_context s c.write).0,
        record c {
          events = without_event write_event c.events;
          write = (schedule_context s c.write).1;
        },
      )
  unfolding schedule_context
  trigger_write s e h = record {
    whole = ground arith;
    one_less = refl;
    one_task = ground arith;
    exact = schedule_context-owed s c.write e ∙ sym (ap (λ b. if b then owed c.write else []) h);
    write_same = λ q. cc;
  }

pub trigger_event_lem :
    (e : Event) (c : FdContext)
    → fits c ≡ true
    → has_event e c.events ≡ true
    → (r : List (ℕ × Task) × FdContext) × (trigger_event e c ≡ some r) × DidTrigger e c r
unfolding trigger_event getcontext put_context
trigger_event_lem no_event c f h = cc
trigger_event_lem read_event c f h = elim (Option-cases c.read.scheduler) [
  | inl missing ↦ ground arith
  | inr (s, there) ↦ (
    (
      (schedule_context s c.read).0,
      record c { events = without_event read_event c.events; read = (schedule_context s c.read).1 },
    ),
    rw h (rw there refl),
    trigger_read c f s there h,
  )
]
trigger_event_lem write_event c f h = elim (Option-cases c.write.scheduler) [
  | inl missing ↦ ground arith
  | inr (s, there) ↦ (
    (
      (schedule_context s c.write).0,
      record c {
        events = without_event write_event c.events;
        write = (schedule_context s c.write).1;
      },
    ),
    rw h (rw there refl),
    trigger_write c f s there h,
  )
]

-- `delEvent` empties the context of the event.
abbrev pub disarmed : Event → FdContext → FdContext
disarmed e c = put_context e no_context (record c { events = without_event e c.events })

pub disarmed-fits :
    (e : Event) (c : FdContext)
    → fits c ≡ true
    → (fits (disarmed e c) ≡ true) × ((disarmed e c).events ≡ without_event e c.events)
unfolding put_context
disarmed-fits no_event c f = (f, refl)
disarmed-fits read_event c f = (ground arith, refl)
disarmed-fits write_event c f = (ground arith, refl)

-- `addEvent` fills it.
pub arm_lem :
    (s current : ℕ) (e : Event) (cb : Option ℕ) (c : FdContext)
    → fits c ≡ true
    → has_event e c.events ≡ false
    → e ≢ no_event
    → (c' : FdContext) × (arm (some s) current e cb c ≡ some c')
      × (fits c' ≡ true)
      × (c'.events ≡ with_event e c.events)
unfolding arm getcontext put_context
arm_lem s current no_event cb c f h n = elim (n refl) [ ]
arm_lem s current read_event cb c f h n = (
  record c { events = with_event read_event c.events; read = filled (some s) current cb },
  ground arith,
  ground arith,
  refl,
)
arm_lem s current write_event cb c f h n = (
  record c { events = with_event write_event c.events; write = filled (some s) current cb },
  ground arith,
  ground arith,
  refl,
)

pub count-without :
    (e : Event) (m : Mask) → has_event e m ≡ true → count (without_event e m) + 1 ≡ count m
count-without no_event m h = cc
count-without read_event m h = ground arith
count-without write_event m h = ground arith

pub count-with :
    (e : Event) (m : Mask)
    → has_event e m ≡ false
    → e ≢ no_event
    → count (with_event e m) ≡ count m + 1
count-with no_event m h n = elim (n refl) [ ]
count-with read_event m h n = ground arith
count-with write_event m h n = ground arith
