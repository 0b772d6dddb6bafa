-- ===== src/IoManager/Counts.antt =====
-- The events that wait in the contexts of cxk/iomanager.cpp.
use cxkframework.Prelude.{
  ℕ, zero, suc, ◌+◌, ◌≡◌, Bool, some, List, [], ◌∷◌, ◌++◌, if◌then◌else◌, get_elem?, set, arith,
}
use cxkframework.IoManager.{Mask, FdContext, new_contexts}

abbrev pub bit : Bool → ℕ
bit b = if b then 1 else 0

abbrev pub count : Mask → ℕ
count m = bit m.reads + bit m.writes

unfoldable pub pending : List FdContext → ℕ
pending [] = 0
pending (c ∷ cs) = count c.events + pending cs

pub pending-set :
    (cs : List FdContext) (i : ℕ) (c c' : FdContext)
    → get_elem? cs i ≡ some c
    → pending (set cs i c') + count c.events ≡ pending cs + count c'.events
unfolding pending
pending-set [] i c c' h = cc
pending-set (x ∷ cs) zero c c' h = let e : x ≡ c = cc in rw e (omega arith)
pending-set (x ∷ cs) (suc i) c c' h = omega (arith, pending-set cs i c c' h)

pub pending-new_contexts : (n fd : ℕ) → pending (new_contexts n fd) ≡ 0
unfolding pending new_contexts
pending-new_contexts zero fd = omega arith
pending-new_contexts (suc n) fd = omega (arith, pending-new_contexts n (fd + 1))

pub pending-append : (xs ys : List FdContext) → pending (xs ++ ys) ≡ pending xs + pending ys
unfolding pending
pending-append [] ys = omega arith
pending-append (x ∷ xs) ys = omega (arith, pending-append xs ys)
