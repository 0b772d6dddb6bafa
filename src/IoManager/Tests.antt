-- ===== src/IoManager/Tests.antt =====
-- Runs of cxk/iomanager.cpp, and the theorems at concrete managers.
use cxkframework.Prelude.{
  ℕ, get_elem?, ◌*◌, ◌/◌, ◌-◌, ◌%◌, ◌^◌, ◌<◌, ◌≡◌, ◌||◌, refl, ap, ◌∙◌, true, false, Bool, Option,
  none, some, [], ◌∷◌, ◌==◌, arith, length, ltb, leb,
}
use cxkframework.IoManager.{
  read_event, write_event, Mask, no_mask, EpollOp, IoManager, has_event, with_event, new_manager,
  FdContext, no_context, add_event, context_resize, new_contexts, add_at, arm, getcontext,
  put_context,
}
use cxkframework.IoManager.Loop.{
  in_table, EpollEvent, cancel_event, handle_context, handle_one, handle_all, widen_first, minus,
  epoll_timeout, io_stopping,
}
use cxkframework.IoManager.Invariant.{IsValid, events_at, new_manager-IsValid}
use cxkframework.IoManager.Steps.{Left, accepted, cancel_event_lem}
use cxkframework.IoManager.Fires.{EmptiedIf, handles, handle_context_lem}
use cxkframework.IoManager.Rounds.{handle_all_lem, handle_one-lost}
use cxkframework.IoManager.Adds.{PutOn, add_event_lem}
use cxkframework.IoManager.Race.{add_event-race}
use cxkframework.IoManager.Reach.{
  start, step, adds, Reachable-IsValid, io_stopping_lem, epoll_timeout_lem,
}

abbrev both : Mask
both = record { reads = true; writes = true }

abbrev only_reads : Mask
only_reads = record { reads = true; writes = false }

-- an `epoll_ctl` that always succeeds
abbrev succeeds : EpollOp → ℕ → Mask → ℕ
succeeds op fd e = 0

-- The read event of the descriptor 5 waits for the callback 70.
reading :
    (m : IoManager) × (add_event succeeds (some 1) 9 5 read_event (some 70) new_manager new_manager
      ≡ some (true, m))
    × PutOn 5 read_event new_manager m
unfolding new_manager context_resize new_contexts
reading =
    add_event_lem succeeds 1 9 5 read_event (some 70) new_manager new_manager-IsValid refl (λ e. cc)

reads_5 : events_at 5 reading.0 ≡ only_reads
unfolding new_manager context_resize new_contexts
reads_5 = reading.2.one_more

-- The descriptor 5 waits for both.
waiting :
    (m : IoManager) × (add_event succeeds (some 1) 9 5 write_event none reading.0 reading.0
      ≡ some (true, m))
    × PutOn 5 write_event reading.0 m
waiting =
    add_event_lem succeeds 1 9 5 write_event none reading.0 reading.2.valid
      (ap (has_event write_event) reads_5) (λ e. cc)

both_5 : events_at 5 waiting.0 ≡ both
both_5 = waiting.2.one_more ∙ ap (with_event write_event) reads_5

add_event_lem_example :
    (m : IoManager) × (add_event succeeds (some 1) 9 40 read_event none new_manager new_manager
      ≡ some (true, m))
    × PutOn 40 read_event new_manager m
unfolding new_manager context_resize new_contexts
add_event_lem_example =
    add_event_lem succeeds 1 9 40 read_event none new_manager new_manager-IsValid refl (λ e. cc)

cancel_event_lem_example :
    (m : IoManager) × (cancel_event succeeds 5 read_event waiting.0
      ≡ some (accepted succeeds 5 read_event waiting.0, m))
    × Left (accepted succeeds 5 read_event waiting.0) 5 read_event 1 waiting.0 m
cancel_event_lem_example = cancel_event_lem succeeds 5 read_event waiting.0 waiting.2.valid

table_has_5 : 5 < length waiting.0.fd_contexts
table_has_5 = omega (arith, waiting.2.valid.large)

-- Only reading is ready.
handle_context_lem_example :
    (m : IoManager) × (handle_context succeeds only_reads 5 waiting.0 ≡ some m)
    × EmptiedIf
        (handles succeeds only_reads 5 (events_at 5 waiting.0))
        5
        (minus (events_at 5 waiting.0) only_reads)
        waiting.0
        m
handle_context_lem_example =
    handle_context_lem succeeds only_reads 5 waiting.0 waiting.2.valid table_has_5

abbrev pipe_event : EpollEvent
pipe_event = record { readable = true; writable = false; broken = false; context = none }

abbrev hung_up : EpollEvent
hung_up = record { readable = false; writable = false; broken = true; context = some (in_table 5) }

handle_all_lem_example :
    (m : IoManager) × (handle_all succeeds 2 0 (pipe_event ∷ hung_up ∷ []) waiting.0 ≡ some m)
    × IsValid m
handle_all_lem_example =
    handle_all_lem succeeds 2 0 (pipe_event ∷ hung_up ∷ []) waiting.0 waiting.2.valid (omega arith)
      (tt, (table_has_5, tt))

handle_one-lost_example :
    handle_one succeeds 1 (pipe_event ∷ hung_up ∷ []) waiting.0
    ≡ some (widen_first (pipe_event ∷ hung_up ∷ []), waiting.0)
handle_one-lost_example =
    handle_one-lost succeeds 0 5 hung_up (pipe_event ∷ hung_up ∷ []) waiting.0 refl refl table_has_5
      refl refl

-- The manager that another thread has grown to 100 contexts.
abbrev grown : IoManager
unfolding context_resize new_contexts
grown =
    context_resize 100 (record {
      fd_contexts = [];
      dropped = [];
      appending = 0;
      scheduled = [];
      asked = λ _. no_mask;
    })

abbrev result_of : Option (Bool × IoManager) → Bool × IoManager
result_of none = (false, grown)
result_of (some out) = out

-- An event waits at the descriptor 80.
abbrev busy : IoManager
busy = (result_of (add_event succeeds (some 2) 8 80 read_event none grown grown)).1

-- `addEvent` for the descriptor 40 saw the small table.
abbrev raced : Bool × IoManager
raced = result_of (add_event succeeds (some 1) 9 40 read_event none new_manager busy)

raced_returns : add_event succeeds (some 1) 9 40 read_event none new_manager busy ≡ some raced
unfolding add_event add_at arm new_manager grown context_resize new_contexts getcontext put_context
raced_returns = refl

-- what stands at the descriptor 80
abbrev left_at_80 : FdContext
left_at_80 = record {
  fd = 80;
  read = record { scheduler = some 2; fiber = some 8; cb = none };
  write = no_context;
  events = only_reads;
}

add_event-race_example :
    (get_elem? raced.1.dropped (80 - 40 * 3 / 2) ≡ some left_at_80)
    × (raced.1.asked 80 ≡ only_reads)
    × (cancel_event succeeds 80 read_event raced.1 ≡ some (false, raced.1))
unfolding add_event add_at arm getcontext put_context new_manager grown context_resize new_contexts
add_event-race_example =
    add_event-race succeeds (some 1) 9 40 read_event none new_manager busy raced 80 left_at_80
      read_event (omega arith) (omega arith) (omega arith) refl raced_returns

not_yet : has_event read_event (events_at 5 new_manager) ≡ false
unfolding new_manager context_resize new_contexts
not_yet = refl

Reachable-IsValid_example : IsValid reading.0
Reachable-IsValid_example = Reachable-IsValid reading.0 (
    step new_manager reading.0 start (
      adds succeeds 1 9 5 read_event (some 70) new_manager reading.0 true not_yet (λ e. cc)
        reading.1))

io_stopping_lem_example : events_at 5 new_manager ≡ no_mask
unfolding new_manager context_resize new_contexts io_stopping
io_stopping_lem_example = io_stopping_lem (2 ^ 64 - 1) true new_manager 5 start (omega arith) refl

epoll_timeout_lem_example :
    leb (epoll_timeout (2 ^ 31)) 3000 ≡ ((2 ^ 31 == 2 ^ 64 - 1) || ltb (2 ^ 31 % 2 ^ 32) (2 ^ 31))
epoll_timeout_lem_example = epoll_timeout_lem (2 ^ 31)
