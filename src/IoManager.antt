-- ===== src/IoManager.antt =====
-- `IOManager` of cxk/iomanager.cpp and cxk/iomanager.h: the contexts of the file descriptors, and what
-- waits in them. `ctl` is `epoll_ctl`, which returns 0 if it succeeds; `none` is an assertion, a null
-- scheduler or a context that is not in the table.
use cxkframework.Prelude.{
  ℕ, zero, suc, ◌+◌, ◌-◌, ◌*◌, ◌/◌, ◌%◌, ◌^◌, true, false, Bool, not, ◌&&◌, ◌||◌, Option, none,
  some, List, [], ◌∷◌, ◌++◌, ltb, leb, ◌==◌, if◌then◌else◌, and_then, length, take, drop, get_elem?,
  set,
}
pub mod Loop
pub mod Counts
pub mod Context
pub mod Invariant
pub mod Steps
pub mod Fires
pub mod Rounds
pub mod Adds
pub mod Race
pub mod Reach
mod Tests

-- `Event`, of which a caller passes one; a set of them is a `Mask`.
pub data Event : Type 0 where
  no_event : Event
  read_event : Event
  write_event : Event

pub record Mask : Type 0 where
  pub reads : Bool
  pub writes : Bool

abbrev pub no_mask : Mask
no_mask = record { reads = false; writes = false }

-- `events & event`
abbrev pub has_event : Event → Mask → Bool
has_event no_event m = false
has_event read_event m = m.reads
has_event write_event m = m.writes

-- `events | event`
abbrev pub with_event : Event → Mask → Mask
with_event no_event m = m
with_event read_event m = record m { reads = true }
with_event write_event m = record m { writes = true }

-- `events & ~event`
abbrev pub without_event : Event → Mask → Mask
without_event no_event m = m
without_event read_event m = record m { reads = false }
without_event write_event m = record m { writes = false }

abbrev pub is_none : Mask → Bool
is_none m = not m.reads && not m.writes

-- what is given to `schedule`
pub data Task : Type 0 where
  fiber_task : ℕ → Task
  cb_task : ℕ → Task

pub record EventContext : Type 0 where
  pub scheduler : Option ℕ
  pub fiber : Option ℕ
  pub cb : Option ℕ

abbrev pub no_context : EventContext
no_context = record { scheduler = none; fiber = none; cb = none }

pub record FdContext : Type 0 where
  pub fd : ℕ
  pub read : EventContext
  pub write : EventContext
  pub events : Mask

pub data EpollOp : Type 0 where
  ctl_add : EpollOp
  ctl_mod : EpollOp
  ctl_del : EpollOp

-- `dropped` has the contexts that are no longer in the table: they are not deleted, and `epoll` still
-- points to them. `scheduled` has the calls of `schedule` with their scheduler, the last one first; `asked` has what
-- the last `epoll_ctl` that succeeded asked for.
pub record IoManager : Type 0 where
  pub fd_contexts : List FdContext
  pub dropped : List FdContext
  pub appending : ℕ
  pub scheduled : List (ℕ × Task)
  pub asked : ℕ → Mask

unfoldable pub getcontext : Event → FdContext → Option EventContext
getcontext no_event c = none
getcontext read_event c = some c.read
getcontext write_event c = some c.write

-- an assignment through the reference that `getcontext` returns
unfoldable pub put_context : Event → EventContext → FdContext → FdContext
put_context no_event x c = c
put_context read_event x c = record c { read = x }
put_context write_event x c = record c { write = x }

unfoldable pub reset_context : EventContext → EventContext
reset_context x = no_context

-- the task that `schedule` takes out of a context; an empty one is not queued
unfoldable pub schedule_context : ℕ → EventContext → List (ℕ × Task) × EventContext
schedule_context s x = elim x.cb [
  | some f ↦ ((s, cb_task f) ∷ [], record x { cb = none; scheduler = none })
  | none ↦ (
    elim x.fiber [ some f ↦ (s, fiber_task f) ∷ [] | none ↦ [] ],
    record x { fiber = none; scheduler = none },
  )
]

unfoldable pub trigger_event : Event → FdContext → Option (List (ℕ × Task) × FdContext)
unfolding getcontext put_context schedule_context
trigger_event e c =
    if has_event e c.events
    then and_then (getcontext e c) (λ x. and_then x.scheduler (λ s. some (
      (schedule_context s x).0,
      put_context e (schedule_context s x).1 (record c { events = without_event e c.events }),
    )))
    else none

-- new contexts from a descriptor on
unfoldable pub new_contexts : ℕ → ℕ → List FdContext
new_contexts zero fd = []
new_contexts (suc n) fd =
    record { fd = fd; read = no_context; write = no_context; events = no_mask }
    ∷ new_contexts n (fd + 1)

unfoldable pub context_resize : ℕ → IoManager → IoManager
unfolding new_contexts
context_resize size m = record m {
  fd_contexts =
      take size m.fd_contexts ++ new_contexts (size - length m.fd_contexts) (length m.fd_contexts);
  dropped = drop size m.fd_contexts ++ m.dropped;
}

unfoldable pub new_manager : IoManager
unfolding context_resize
new_manager =
    context_resize 32 (record {
      fd_contexts = [];
      dropped = [];
      appending = 0;
      scheduled = [];
      asked = λ _. no_mask;
    })

-- `++` and `--` of the counter
abbrev pub one_up : ℕ → ℕ
one_up n = (n + 1) % 2 ^ 64

abbrev pub one_down : ℕ → ℕ
one_down n = (n + (2 ^ 64 - 1)) % 2 ^ 64

abbrev pub put_fd : ℕ → FdContext → IoManager → IoManager
put_fd fd c m = record m { fd_contexts = set m.fd_contexts fd c }

abbrev pub asking : ℕ → Mask → IoManager → IoManager
asking fd e m = record m { asked = λ j. if j == fd then e else m.asked j }

abbrev pub is_unused : EventContext → Bool
is_unused x = elim x.scheduler [
  | some s ↦ false
  | none ↦ elim x.cb [ some f ↦ false | none ↦ elim x.fiber [ some f ↦ false | none ↦ true ] ]
]

-- `cb` is null for the current fiber
abbrev pub filled : Option ℕ → ℕ → Option ℕ → EventContext
filled here current none = record { scheduler = here; fiber = some current; cb = none }
filled here current (some f) = record { scheduler = here; fiber = none; cb = some f }

-- What stands after `epoll_ctl` in `addEvent`. Its last assertion, that the current fiber is in EXEC,
-- holds of a fiber that runs.
unfoldable pub arm : Option ℕ → ℕ → Event → Option ℕ → FdContext → Option FdContext
unfolding getcontext put_context
arm here current e cb c = and_then (getcontext e c) (λ x.
    if is_unused x
    then some (put_context e (filled here current cb) (record c { events = with_event e c.events }))
    else none)

module _ (ctl : EpollOp → ℕ → Mask → ℕ) where
  -- `addEvent` from the lock of the context on; `here` and `current` are the scheduler and the fiber
  -- that run
  unfoldable pub add_at :
      Option ℕ → ℕ → ℕ → Event → Option ℕ → IoManager → Option (Bool × IoManager)
  add_at here current fd e cb m = and_then (get_elem? m.fd_contexts fd) (λ c.
      if has_event e c.events
      then none
      else (if ctl (if is_none c.events then ctl_add else ctl_mod) fd (with_event e c.events) == 0
          then and_then (arm here current e cb c) (λ c'. some (
            true,
            record (asking fd (with_event e c.events) (put_fd fd c' m)) {
              appending = one_up m.appending;
            },
          ))
          else some (false, m)))

  -- `m0` is the manager at the first lock, `m` what other threads leave for the next one.
  unfoldable pub add_event :
      Option ℕ → ℕ → ℕ → Event → Option ℕ → IoManager → IoManager → Option (Bool × IoManager)
  add_event here current fd e cb m0 m =
      if ltb fd (length m0.fd_contexts)
      then add_at here current fd e cb m
      else add_at here current fd e cb (context_resize (fd * 3 / 2) m)

  -- The guards that `delEvent` and `cancelEvent` share, the call, and the rest.
  unfoldable pub take_off :
      ℕ → Event → (FdContext → Option IoManager) → IoManager → Option (Bool × IoManager)
  take_off fd e rest m =
      if leb (length m.fd_contexts) fd
      then some (false, m)
      else and_then (get_elem? m.fd_contexts fd) (λ c.
        if has_event e c.events
        then (if ctl (if is_none (without_event e c.events) then ctl_del else ctl_mod) fd
                (without_event e c.events)
              == 0
            then and_then (rest c) (λ m'. some (true, asking fd (without_event e c.events) m'))
            else some (false, m))
        else some (false, m))

  unfoldable pub del_event : ℕ → Event → IoManager → Option (Bool × IoManager)
  unfolding take_off getcontext put_context reset_context
  del_event fd e m =
      take_off fd e
        (λ c. and_then (getcontext e c) (λ x.
          some
            (record (put_fd fd
              (put_context e (reset_context x) (record c { events = without_event e c.events }))
              m) { appending = one_down m.appending })))
        m
