-- ===== src/IoManager/Race.antt =====
-- `addEvent` of cxk/iomanager.cpp where another thread has grown the table meanwhile.
use cxkframework.Prelude.{
  ℕ, zero, suc, List, [], ◌∷◌, ◌++◌, ◌-◌, ◌+◌, get_elem?-append, drop, leb, length-set, ◌*◌, ◌/◌,
  ◌≤◌, ◌<◌, ◌≡◌, ◌≢◌, refl, sym, ap, ◌∙◌, true, false, Bool, Option, none, some, if◌then◌else◌,
  length, get_elem?, get_elem?-some, arith, Option-cases, inl, inr, ltb, ◌==◌, and_then,
}
use cxkframework.IoManager.{
  Event, Mask, FdContext, IoManager, EpollOp, ctl_add, ctl_mod, has_event, with_event, is_none,
  asking, put_fd, one_up, arm, add_at, add_event, take_off, context_resize,
}
use cxkframework.IoManager.Loop.{cancel_event}
use cxkframework.IoManager.Invariant.{length-context_resize, context_resize-rest}

dropped_by :
    (size : ℕ) (m : IoManager)
    → (context_resize size m).dropped ≡ drop size m.fd_contexts ++ m.dropped
unfolding context_resize
dropped_by size m = refl

get_elem?-drop :
    {A : Type 0} (n : ℕ) (xs ys : List A) (i j : ℕ) (x : A)
    → j ≡ n + i
    → get_elem? xs j ≡ some x
    → get_elem? (drop n xs ++ ys) i ≡ some x
get_elem?-drop n [] ys i j x l h = cc
get_elem?-drop zero (a ∷ xs) ys i j x l h =
    let here : get_elem? (a ∷ xs) i ≡ some x = ap (get_elem? (a ∷ xs)) (omega arith) ∙ h in
    get_elem?-append (a ∷ xs) ys i (get_elem?-some (a ∷ xs) i here) ∙ here
get_elem?-drop (suc n) (a ∷ xs) ys i zero x l h = absurd (omega arith)
get_elem?-drop (suc n) (a ∷ xs) ys i (suc j) x l h = get_elem?-drop n xs ys i j x (omega arith) h

cancel_event-outside :
    (ctl : EpollOp → ℕ → Mask → ℕ) (j : ℕ) (e : Event) (m : IoManager)
    → length m.fd_contexts ≤ j
    → cancel_event ctl j e m ≡ some (false, m)
unfolding cancel_event take_off
cancel_event-outside ctl j e m l =
    let outside : leb (length m.fd_contexts) j ≡ true = ground arith in rw outside refl

-- `addEvent` touches no other descriptor.
module _ (ctl : EpollOp → ℕ → Mask → ℕ) (here : Option ℕ) (current fd : ℕ) (e : Event)
    (cb : Option ℕ) where
  add_at_elsewhere :
      (m : IoManager) (out : Bool × IoManager) (j : ℕ)
      → j ≢ fd
      → add_at ctl here current fd e cb m ≡ some out
      → (out.1.dropped ≡ m.dropped)
        × (length out.1.fd_contexts ≡ length m.fd_contexts)
        × (out.1.asked j ≡ m.asked j)
  unfolding add_at
  add_at_elsewhere m out j n h = elim (Option-cases (get_elem? m.fd_contexts fd)) [
    | inl missing ↦ cc
    | inr (c, there) ↦ armed c (arm here current e cb c) (sym (rw there refl) ∙ h)
  ]
    where
      armed :
          (c : FdContext) (o : Option FdContext)
          → (if has_event e c.events
              then none
              else (if ctl
                      (if is_none c.events then ctl_add else ctl_mod)
                      fd
                      (with_event e c.events)
                    == 0
                  then and_then o (λ c'. some (
                    true,
                    record (asking fd (with_event e c.events) (put_fd fd c' m)) {
                      appending = one_up m.appending;
                    },
                  ))
                  else some (false, m)))
            ≡ some out
          → (out.1.dropped ≡ m.dropped)
            × (length out.1.fd_contexts ≡ length m.fd_contexts)
            × (out.1.asked j ≡ m.asked j)
      armed c none h = ground arith
      armed c (some c') h = let size = length-set m.fd_contexts fd c' in ground arith

  -- If addEvent finds the descriptor outside the table, other threads leave another manager before
  -- the write lock is taken, and addEvent returns, then a context that stood in that manager at a
  -- later descriptor, from 3 / 2 of its own on, has left the table as it was, with the events that
  -- wait in it; epoll is asked for the same events there as before, but cancelEvent for that
  -- descriptor returns false and changes nothing.
  pub add_event-race :
      (m0 m : IoManager) (out : Bool × IoManager) (j : ℕ) (c : FdContext) (e' : Event)
      → length m0.fd_contexts ≤ fd
      → fd < j
      → fd * 3 / 2 ≤ j
      → get_elem? m.fd_contexts j ≡ some c
      → add_event ctl here current fd e cb m0 m ≡ some out
      → (get_elem? out.1.dropped (j - fd * 3 / 2) ≡ some c)
        × (out.1.asked j ≡ m.asked j)
        × (cancel_event ctl j e' out.1 ≡ some (false, out.1))
  unfolding add_event
  add_event-race m0 m out j c e' small past far there h =
      let outside : ltb fd (length m0.fd_contexts) ≡ false = ground arith in
      let size = fd * 3 / 2 in
      let (gone, same_size, asked) =
        add_at_elsewhere (context_resize size m) out j (omega arith) (sym (rw outside refl) ∙ h) in
      (
        ap (λ cs. get_elem? cs (j - size)) (gone ∙ dropped_by size m)
            ∙ get_elem?-drop size m.fd_contexts m.dropped (j - size) j c (omega arith) there,
        asked ∙ ap (λ f. f j) (context_resize-rest size m).1,
        cancel_event-outside ctl j e' out.1
            (omega (arith, same_size, length-context_resize size m)),
      )
