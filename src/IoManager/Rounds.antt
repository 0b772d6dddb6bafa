-- ===== src/IoManager/Rounds.antt =====
-- The loop of `idel` in cxk/iomanager.cpp over the events that `epoll_wait` returns.
use cxkframework.Prelude.{
  ℕ, zero, suc, ◌+◌, ◌≤◌, ◌<◌, ◌≡◌, refl, sym, ap, ◌∙◌, subst, true, false, Bool, Option, some,
  List, [], ◌∷◌, if◌then◌else◌, length, get_elem?, get_elem?_lt, arith, Option-cases, inl, inr,
  and_then, All, All-get_elem?,
}
use cxkframework.IoManager.{Mask, IoManager, EpollOp, no_mask, is_none}
use cxkframework.IoManager.Loop.{
  handle_context, handle_at, Place, in_table, left_over, handle_all, handle_one, on_context, meet,
  minus, ready, EpollEvent, widen_first,
}
use cxkframework.IoManager.Invariant.{IsValid, events_at}
use cxkframework.IoManager.Fires.{EmptiedIf, handles, handle_context_lem}

abbrev pub InRange : ℕ → Place → Type 0
InRange size (in_table fd) = fd < size
InRange size (left_over k) = false ≡ true

-- What the loop of `idel` needs of an event: its context is in the table.
abbrev pub InTable : ℕ → EpollEvent → Type 0
InTable size ev = on_context ev.context (Unit {0}) (λ p. InRange size p)

widen_first-InTable :
    (size : ℕ) (evs : List EpollEvent)
    → All (InTable size) evs
    → All (InTable size) (widen_first evs)
unfolding widen_first
widen_first-InTable size [] a = a
widen_first-InTable size (ev ∷ evs) a = a

length-widen_first : (evs : List EpollEvent) → length (widen_first evs) ≡ length evs
unfolding widen_first
length-widen_first [] = refl
length-widen_first (ev ∷ evs) = refl

EmptiedIf-size :
    (b : Bool) (fd : ℕ) (k : Mask) (m m' : IoManager)
    → EmptiedIf b fd k m m'
    → length m'.fd_contexts ≡ length m.fd_contexts
EmptiedIf-size true fd k m m' (t, _) = t.same_size
EmptiedIf-size false fd k m m' e = ap (λ m. length m.fd_contexts) e

pub EmptiedIf-IsValid :
    (b : Bool) (fd : ℕ) (k : Mask) (m m' : IoManager)
    → IsValid m
    → EmptiedIf b fd k m m'
    → IsValid m'
EmptiedIf-IsValid true fd k m m' v (t, _) = t.valid
EmptiedIf-IsValid false fd k m m' v e = subst IsValid (sym e) v

-- what a round keeps
record Kept (evs : List EpollEvent) (r : List EpollEvent × IoManager) : Type 0 where
  valid : IsValid r.1
  same_length : length r.0 ≡ length evs
  in_table : All (InTable (length r.1.fd_contexts)) r.0

abbrev with_array : List EpollEvent → IoManager → Option (List EpollEvent × IoManager)
with_array evs m = some (evs, m)

abbrev round_of :
    (EpollOp → ℕ → Mask → ℕ)
    → Place
    → List EpollEvent
    → IoManager
    → EpollEvent
    → Option (List EpollEvent × IoManager)
round_of ctl p evs m now = and_then (handle_at ctl (ready now) p m) (with_array evs)

abbrev seen : Bool → List EpollEvent → List EpollEvent
seen b evs = if b then widen_first evs else evs

length-seen : (b : Bool) (evs : List EpollEvent) → length (seen b evs) ≡ length evs
length-seen true evs = length-widen_first evs
length-seen false evs = refl

seen-InTable :
    (b : Bool) (size : ℕ) (evs : List EpollEvent)
    → All (InTable size) evs
    → All (InTable size) (seen b evs)
seen-InTable true size evs a = widen_first-InTable size evs a
seen-InTable false size evs a = a

module _ (ctl : EpollOp → ℕ → Mask → ℕ) where
  handle_place :
      (i : ℕ) (p : Place) (evs : List EpollEvent) (m : IoManager)
      → IsValid m
      → i < length evs
      → InRange (length m.fd_contexts) p
      → All (InTable (length m.fd_contexts)) evs
      → (m' : IoManager) × (and_then (get_elem? evs i) (round_of ctl p evs m) ≡ some (evs, m'))
        × Kept evs (evs, m')
  unfolding handle_at
  handle_place i (left_over k) evs m v h l a = cc
  handle_place i (in_table fd) evs m v h l a =
      let (now, there) = get_elem?_lt evs i h in
      let (m', e, t) = handle_context_lem ctl (ready now) fd m v l in
      let b = handles ctl (ready now) fd (events_at fd m) in
      (
        m',
        ap (λ o. and_then o (round_of ctl (in_table fd) evs m)) there
            ∙ ap (λ o. and_then o (with_array evs)) e,
        record {
          valid = EmptiedIf-IsValid b fd (minus (events_at fd m) (ready now)) m m' v t;
          same_length = refl;
          in_table =
              subst (λ n. All (InTable n) evs)
                (sym (EmptiedIf-size b fd (minus (events_at fd m) (ready now)) m m' t)) a;
        },
      )

  handle_one_lem :
      (i : ℕ) (evs : List EpollEvent) (m : IoManager)
      → IsValid m
      → i < length evs
      → All (InTable (length m.fd_contexts)) evs
      → (r : List EpollEvent × IoManager) × (handle_one ctl i evs m ≡ some r) × Kept evs r
  unfolding handle_one
  handle_one_lem i evs m v h a =
      let (ev, there) = get_elem?_lt evs i h in
      let size = length m.fd_contexts in
      let now = seen ev.broken evs in
      elim (Option-cases ev.context) [
        | inl pipe ↦ (
          (evs, m),
          ap (λ o. and_then o (whole i)) there
              ∙ ap (λ o. on_context o (some (evs, m)) (rest i ev)) pipe,
          record { valid = v; same_length = refl; in_table = a },
        )
        | inr (p, c) ↦
            let l : InRange size p =
              subst (λ o. on_context o (Unit {0}) (λ p. InRange size p)) c
                (All-get_elem? (InTable size) evs i a there) in
            let (m', e, k) =
              handle_place i p now m v (subst (λ n. i < n) (sym (length-seen ev.broken evs)) h) l
                (seen-InTable ev.broken size evs a) in
            (
              (now, m'),
              ap (λ o. and_then o (whole i)) there
                  ∙ ap (λ o. on_context o (some (evs, m)) (rest i ev)) c
                  ∙ e,
              record {
                valid = k.valid;
                same_length = length-seen ev.broken evs;
                in_table = k.in_table;
              },
            )
      ]
    where
      rest : ℕ → EpollEvent → Place → Option (List EpollEvent × IoManager)
      rest i ev p =
          and_then (get_elem? (seen ev.broken evs) i) (round_of ctl p (seen ev.broken evs) m)

      whole : ℕ → EpollEvent → Option (List EpollEvent × IoManager)
      whole i ev = on_context ev.context (some (evs, m)) (rest i ev)

  -- On a valid manager the loop of idel over n events of the array from the index i on, whose
  -- contexts are in the table, returns normally and leaves a valid manager.
  pub handle_all_lem :
      (n i : ℕ) (evs : List EpollEvent) (m : IoManager)
      → IsValid m
      → i + n ≤ length evs
      → All (InTable (length m.fd_contexts)) evs
      → (m' : IoManager) × (handle_all ctl n i evs m ≡ some m') × IsValid m'
  unfolding handle_all
  handle_all_lem zero i evs m v h a = (m, refl, v)
  handle_all_lem (suc n) i evs m v h a =
      let (r, e, k) = handle_one_lem i evs m v (omega arith) a in
      let (m', e', v') =
        handle_all_lem n (i + 1) r.0 r.1 k.valid
          (subst (λ t. i + 1 + n ≤ t) (sym k.same_length) (omega arith)) k.in_table in
      (m', ap (λ o. and_then o (λ r. handle_all ctl n (i + 1) r.0 r.1)) e ∙ e', v')

later-widen_first :
    (evs : List EpollEvent) (i : ℕ) → get_elem? (widen_first evs) (suc i) ≡ get_elem? evs (suc i)
unfolding widen_first
later-widen_first [] i = refl
later-widen_first (ev ∷ evs) i = refl

module _ (ctl : EpollOp → ℕ → Mask → ℕ) where
  handle_context-nothing :
      (fd : ℕ) (m : IoManager)
      → fd < length m.fd_contexts
      → handle_context ctl no_mask fd m ≡ some m
  unfolding handle_context
  handle_context-nothing fd m l =
      let (c, there) = get_elem?_lt m.fd_contexts fd l in
      let nothing : is_none (meet c.events no_mask) ≡ true = ground arith in
      rw there (rw nothing refl)

  -- An event after the first that reports an error or a hang-up and neither input nor output, for a
  -- context of the table, leaves the manager unchanged, so that nothing that waits is woken; only
  -- the first event of the array changes.
  pub handle_one-lost :
      (i fd : ℕ) (ev : EpollEvent) (evs : List EpollEvent) (m : IoManager)
      → get_elem? evs (suc i) ≡ some ev
      → ev.context ≡ some (in_table fd)
      → fd < length m.fd_contexts
      → ev.broken ≡ true
      → ready ev ≡ no_mask
      → handle_one ctl (suc i) evs m ≡ some (widen_first evs, m)
  unfolding handle_one handle_at
  handle_one-lost i fd ev evs m there c l b quiet = rw there (
      rw c (
        rw b (
          ap (λ o. and_then o (round_of ctl (in_table fd) (widen_first evs) m))
            (later-widen_first evs i ∙ there)
          ∙ ap (λ k. and_then (handle_context ctl k fd m) (with_array (widen_first evs))) quiet
          ∙ ap (λ o. and_then o (with_array (widen_first evs))) (handle_context-nothing fd m l))))
