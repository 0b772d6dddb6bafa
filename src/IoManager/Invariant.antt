-- ===== src/IoManager/Invariant.antt =====
-- What the contexts of cxk/iomanager.cpp and the counter m_appendingEventCount promise each other.
use cxkframework.Prelude.{
  ℕ, zero, suc, ◌+◌, ◌-◌, ◌%◌, ◌^◌, ◌≤◌, ◌≡◌, refl, sym, ap, ◌∙◌, subst, true, Option, none, some,
  List, [], ◌∷◌, ◌++◌, length, get_elem?, set, take, All, All-set, All-append, arith, length-set,
  length-append, take_of_length-le, length-take,
}
use cxkframework.IoManager.{
  Mask, FdContext, IoManager, no_mask, new_contexts, one_up, one_down, context_resize, new_manager,
}
use cxkframework.IoManager.Counts.{
  count, pending, pending-set, pending-new_contexts, pending-append,
}
use cxkframework.IoManager.Context.{fits}

-- The counter is the number of the events that wait, and the table is not small.
pub record IsWhole (cs : List FdContext) (n : ℕ) : Type 0 where
  pub contexts : All (λ c. fits c ≡ true) cs
  pub counted : n ≡ pending cs % 2 ^ 64
  pub large : 32 ≤ length cs

abbrev pub IsValid : IoManager → Type 0
IsValid m = IsWhole m.fd_contexts m.appending

module _ {cs : List FdContext} {n : ℕ} (w : IsWhole cs n) (fd : ℕ) (c c' : FdContext)
    (there : get_elem? cs fd ≡ some c) (f : fits c' ≡ true) where
  still_large : 32 ≤ length (set cs fd c')
  still_large = subst (λ k. 32 ≤ k) (sym (length-set cs fd c')) w.large

  pub less-IsWhole : count c'.events + 1 ≡ count c.events → IsWhole (set cs fd c') (one_down n)
  less-IsWhole h = record {
    contexts = All-set (λ c. fits c ≡ true) cs fd c' w.contexts f;
    counted = let e = pending-set cs fd c c' there in let k = w.counted in omega arith;
    large = still_large;
  }

  pub more-IsWhole : count c'.events ≡ count c.events + 1 → IsWhole (set cs fd c') (one_up n)
  more-IsWhole h = record {
    contexts = All-set (λ c. fits c ≡ true) cs fd c' w.contexts f;
    counted = let e = pending-set cs fd c c' there in let k = w.counted in omega arith;
    large = still_large;
  }

new_contexts-fit : (n fd : ℕ) → All (λ c. fits c ≡ true) (new_contexts n fd)
unfolding new_contexts
new_contexts-fit zero fd = tt
new_contexts-fit (suc n) fd = (refl, new_contexts-fit n (fd + 1))

length-new_contexts : (n fd : ℕ) → length (new_contexts n fd) ≡ n
unfolding new_contexts
length-new_contexts zero fd = refl
length-new_contexts (suc n) fd = ap suc (length-new_contexts n (fd + 1))

-- the events that wait at a descriptor
abbrev pub events_of : Option FdContext → Mask
events_of none = no_mask
events_of (some c) = c.events

abbrev pub events_at : ℕ → IoManager → Mask
events_at fd m = events_of (get_elem? m.fd_contexts fd)

new_contexts-events : (n fd i : ℕ) → events_of (get_elem? (new_contexts n fd) i) ≡ no_mask
unfolding new_contexts
new_contexts-events zero fd i = refl
new_contexts-events (suc n) fd zero = refl
new_contexts-events (suc n) fd (suc i) = new_contexts-events n (fd + 1) i

append-events :
    (cs : List FdContext) (n fd i : ℕ)
    → events_of (get_elem? (cs ++ new_contexts n fd) i) ≡ events_of (get_elem? cs i)
append-events [] n fd i = new_contexts-events n fd i
append-events (c ∷ cs) n fd zero = refl
append-events (c ∷ cs) n fd (suc i) = append-events cs n fd i

pub length-context_resize :
    (size : ℕ) (m : IoManager) → length (context_resize size m).fd_contexts ≡ size
unfolding context_resize
length-context_resize size m =
    let k = size - length m.fd_contexts in
    omega (
      arith,
      length-append (take size m.fd_contexts) (new_contexts k (length m.fd_contexts)),
      length-take size m.fd_contexts,
      length-new_contexts k (length m.fd_contexts),
    )

pub context_resize-rest :
    (size : ℕ) (m : IoManager)
    → ((context_resize size m).appending ≡ m.appending) × ((context_resize size m).asked ≡ m.asked)
unfolding context_resize
context_resize-rest size m = (refl, refl)

module _ (size : ℕ) (m : IoManager) (h : length m.fd_contexts ≤ size) where
  grown :
      (context_resize size m).fd_contexts
      ≡ m.fd_contexts ++ new_contexts (size - length m.fd_contexts) (length m.fd_contexts)
  unfolding context_resize
  grown =
      ap (λ t. t ++ new_contexts (size - length m.fd_contexts) (length m.fd_contexts))
        (take_of_length-le size m.fd_contexts h)

  -- A larger table is as whole, and no event is lost or made.
  pub context_resize-IsWhole : IsValid m → IsWhole (context_resize size m).fd_contexts m.appending
  context_resize-IsWhole v =
      subst (λ cs. IsWhole cs m.appending) (sym grown)
        (record {
          contexts =
              All-append (λ c. fits c ≡ true) m.fd_contexts
                (new_contexts (size - length m.fd_contexts) (length m.fd_contexts)) v.contexts
                (new_contexts-fit (size - length m.fd_contexts) (length m.fd_contexts));
          counted = v.counted ∙ ap (λ p. p % 2 ^ 64) same;
          large = omega (
            arith,
            v.large,
            length-append m.fd_contexts
                (new_contexts (size - length m.fd_contexts) (length m.fd_contexts)),
          );
        })
    where
      same :
          pending m.fd_contexts
          ≡ pending
              (m.fd_contexts ++ new_contexts (size - length m.fd_contexts) (length m.fd_contexts))
      same = omega (
        arith,
        pending-append m.fd_contexts
            (new_contexts (size - length m.fd_contexts) (length m.fd_contexts)),
        pending-new_contexts (size - length m.fd_contexts) (length m.fd_contexts),
      )

  pub context_resize-events : (i : ℕ) → events_at i (context_resize size m) ≡ events_at i m
  context_resize-events i =
      ap (λ cs. events_of (get_elem? cs i)) grown
      ∙ append-events m.fd_contexts (size - length m.fd_contexts) (length m.fd_contexts) i

pub new_manager-IsValid : IsValid new_manager
unfolding new_manager context_resize new_contexts pending
new_manager-IsValid = record {
  contexts = new_contexts-fit 32 0;
  counted = refl;
  large = omega arith;
}
