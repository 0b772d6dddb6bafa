-- ===== src/IoManager/Loop.antt =====
-- What cxk/iomanager.cpp does with the contexts that are triggered: `cancelEvent`, `cancelAll` and
-- the loop of `idel` over the events that `epoll_wait` returns.
use cxkframework.Prelude.{
  ℕ, zero, suc, ◌+◌, ◌-◌, ◌%◌, ◌^◌, true, false, Bool, not, ◌&&◌, Option, none, some, List, [], ◌∷◌,
  ◌++◌, ltb, leb, ◌==◌, if◌then◌else◌, and_then, length, get_elem?, set,
}
use cxkframework.IoManager.{
  Event, read_event, write_event, Mask, no_mask, has_event, is_none, FdContext, EpollOp, ctl_mod,
  ctl_del, IoManager, trigger_event, one_down, put_fd, asking, take_off,
}

-- `triggerEvent` and `--m_appendingEventCount`
unfoldable pub fire_event : ℕ → Event → FdContext → IoManager → Option IoManager
unfolding trigger_event
fire_event fd e c m = and_then (trigger_event e c) (λ r.
    some (record (put_fd fd r.1 m) {
      appending = one_down m.appending;
      scheduled = r.0 ++ m.scheduled;
    }))

unfoldable pub fire_if : ℕ → Event → IoManager → Option IoManager
fire_if fd e m =
    and_then (get_elem? m.fd_contexts fd)
      (λ c. if has_event e c.events then fire_event fd e c m else some m)

unfoldable pub fire_both : ℕ → IoManager → Option IoManager
fire_both fd m = and_then (fire_if fd read_event m) (λ m'. fire_if fd write_event m')

-- the same two tests for a context that was dropped from the table
unfoldable pub fire_dropped : ℕ → Event → IoManager → Option IoManager
unfolding trigger_event
fire_dropped k e m = and_then (get_elem? m.dropped k) (λ c.
    if has_event e c.events
    then and_then (trigger_event e c) (λ r. some (record m {
      dropped = set m.dropped k r.1;
      appending = one_down m.appending;
      scheduled = r.0 ++ m.scheduled;
    }))
    else some m)

-- Where `event.data.ptr` points: to the context of a descriptor in the table, or to one that was
-- dropped from it.
pub data Place : Type 0 where
  in_table : ℕ → Place
  left_over : ℕ → Place

-- The events that `epoll_wait` reports: `broken` stands for EPOLLERR and EPOLLHUP; one without a
-- context is that of the pipe.
pub record EpollEvent : Type 0 where
  pub readable : Bool
  pub writable : Bool
  pub broken : Bool
  pub context : Option Place

-- `event.data.fd == m_tickleFds[0]`, and what is done with a context
abbrev pub on_context {ℓ} : {A : Type ℓ} → Option Place → A → (Place → A) → A
on_context none pipe f = pipe
on_context (some p) pipe f = f p

-- `real_events`
abbrev pub ready : EpollEvent → Mask
ready ev = record { reads = ev.readable; writes = ev.writable }

abbrev pub meet : Mask → Mask → Mask
meet a b = record { reads = a.reads && b.reads; writes = a.writes && b.writes }

-- `a & ~b`
abbrev pub minus : Mask → Mask → Mask
minus a b = record { reads = a.reads && not b.reads; writes = a.writes && not b.writes }

-- `events->events |= EPOLLIN | EPOLLOUT`, which is the first event of the array
unfoldable pub widen_first : List EpollEvent → List EpollEvent
widen_first [] = []
widen_first (ev ∷ evs) = record ev { readable = true; writable = true } ∷ evs

-- `next_timeout` as the `int` that `epoll_wait` takes, a pattern of 32 bits
unfoldable pub epoll_timeout : ℕ → ℕ
epoll_timeout next =
    if next == 2 ^ 64 - 1
    then 3000
    else if ltb 3000 (next % 2 ^ 32) && ltb (next % 2 ^ 32) (2 ^ 31)
    then 3000
    else next % 2 ^ 32

-- `IOManager::stopping`, given the next timer and `Scheduler::stopping`
unfoldable pub io_stopping : ℕ → Bool → IoManager → Bool
io_stopping timeout idle m = (timeout == 2 ^ 64 - 1) && (m.appending == 0) && idle

-- the end of `cancelAll`, with its assertion
unfoldable pub all_fired : ℕ → IoManager → Option (Bool × IoManager)
all_fired fd m =
    and_then (get_elem? m.fd_contexts fd)
      (λ c. if is_none c.events then some (true, asking fd no_mask m) else none)

module _ (ctl : EpollOp → ℕ → Mask → ℕ) where
  unfoldable pub cancel_event : ℕ → Event → IoManager → Option (Bool × IoManager)
  unfolding take_off fire_event
  cancel_event fd e m = take_off ctl fd e (λ c. fire_event fd e c m) m

  unfoldable pub cancel_all : ℕ → IoManager → Option (Bool × IoManager)
  cancel_all fd m =
      if leb (length m.fd_contexts) fd
      then some (false, m)
      else and_then (get_elem? m.fd_contexts fd) (λ c.
        if is_none c.events
        then some (false, m)
        else (if ctl ctl_del fd no_mask == 0
            then and_then (fire_both fd m) (λ m'. all_fired fd m')
            else some (false, m)))

  -- The body of the loop, from the context on.
  unfoldable pub handle_context : Mask → ℕ → IoManager → Option IoManager
  handle_context real fd m = and_then (get_elem? m.fd_contexts fd) (λ c.
      if is_none (meet c.events real)
      then some m
      else (if ctl (if is_none (minus c.events real) then ctl_del else ctl_mod) fd
              (minus c.events real)
            == 0
          then and_then (fire_both fd m) (λ m'. some (asking fd (minus c.events real) m'))
          else some m))

  -- The same for a context that was dropped, which says itself which descriptor it is of.
  unfoldable pub handle_dropped : Mask → ℕ → IoManager → Option IoManager
  handle_dropped real k m = and_then (get_elem? m.dropped k) (λ c.
      if is_none (meet c.events real)
      then some m
      else (if ctl (if is_none (minus c.events real) then ctl_del else ctl_mod) c.fd
              (minus c.events real)
            == 0
          then and_then (fire_dropped k read_event m) (λ m1.
            and_then (fire_dropped k write_event m1)
              (λ m2. some (asking c.fd (minus c.events real) m2)))
          else some m))

  unfoldable pub handle_at : Mask → Place → IoManager → Option IoManager
  handle_at real (in_table fd) m = handle_context real fd m
  handle_at real (left_over k) m = handle_dropped real k m

  -- One round of the loop: the array, in which the first event may change, and the manager. What
  -- is written to an event after it is read is left out.
  unfoldable pub handle_one : ℕ → List EpollEvent → IoManager → Option (List EpollEvent × IoManager)
  handle_one i evs m = and_then (get_elem? evs i) (λ ev. on_context ev.context (some (evs, m)) (λ p.
      let seen = if ev.broken then widen_first evs else evs in
      and_then (get_elem? seen i)
        (λ now. and_then (handle_at (ready now) p m) (λ m'. some (seen, m')))))

  -- The loop from the index `i` on, with `n` events to come.
  unfoldable pub handle_all : ℕ → ℕ → List EpollEvent → IoManager → Option IoManager
  handle_all zero i evs m = some m
  handle_all (suc n) i evs m = and_then (handle_one i evs m) (λ r. handle_all n (i + 1) r.0 r.1)
