-- ===== src/LoadBalance/Stats.antt =====
-- The slots of `HolderStatsSet` in cxk/stream/load_balance.cpp, one for each of the last seconds.
use cxkframework.Prelude.{
  ℕ, zero, suc, ◌+◌, ◌-◌, ◌%◌, ◌^◌, ◌≤◌, ◌<◌, ◌≡◌, refl, sym, ap, ◌∙◌, subst, true, some, List, [],
  ◌∷◌, ltb, leb, length, get_elem?, arith, Bool-cases, inl, inr, ℕ_discrete,
}
use native.Mathlib.Nat.{add-mod-mod, mod-lt, mod-le}
use cxkframework.LoadBalance.{
  HolderStats, HolderStatsSet, clear_stats, clear_at, clear_loop, init_stats, get_stats,
}

abbrev pub no_stats : HolderStats
no_stats = record { used_time = 0; total = 0; doing = 0; timeout = 0; oks = 0; errs = 0 }

length-clear_at : (i : ℕ) (ss : List HolderStats) → length (clear_at i ss) ≡ length ss
unfolding clear_at
length-clear_at i [] = refl
length-clear_at zero (s ∷ ss) = refl
length-clear_at (suc i) (s ∷ ss) = ap suc (length-clear_at i ss)

clear_at_here :
    (i : ℕ) (ss : List HolderStats) → i < length ss → get_elem? (clear_at i ss) i ≡ some no_stats
unfolding clear_at clear_stats
clear_at_here i [] h = ground arith
clear_at_here zero (s ∷ ss) h = refl
clear_at_here (suc i) (s ∷ ss) h = clear_at_here i ss (omega arith)

-- A slot that is clear stays clear.
clear_at_kept :
    (i j : ℕ) (ss : List HolderStats)
    → get_elem? ss j ≡ some no_stats
    → get_elem? (clear_at i ss) j ≡ some no_stats
unfolding clear_at clear_stats
clear_at_kept i j [] h = h
clear_at_kept zero zero (s ∷ ss) h = refl
clear_at_kept zero (suc j) (s ∷ ss) h = h
clear_at_kept (suc i) zero (s ∷ ss) h = h
clear_at_kept (suc i) (suc j) (s ∷ ss) h = clear_at_kept i j ss h

length-clear_loop :
    (n t now : ℕ) (ss : List HolderStats) → length (clear_loop n t now ss) ≡ length ss
unfolding clear_loop
length-clear_loop zero t now ss = refl
length-clear_loop (suc n) t now ss =
    let ih = length-clear_loop n ((t + 1) % 2 ^ 32) now (clear_at (t % length ss) ss) in
    let same = length-clear_at (t % length ss) ss in ground arith

clear_loop_kept :
    (n t now j : ℕ) (ss : List HolderStats)
    → get_elem? ss j ≡ some no_stats
    → get_elem? (clear_loop n t now ss) j ≡ some no_stats
unfolding clear_loop
clear_loop_kept zero t now j ss h = h
clear_loop_kept (suc n) t now j ss h =
    let ih =
      clear_loop_kept n ((t + 1) % 2 ^ 32) now j (clear_at (t % length ss) ss)
        (clear_at_kept (t % length ss) j ss h) in
    elim (Bool-cases (leb t now)) [ inl on ↦ rw on ih | inr over ↦ rw over h ]

-- Each second that the loop passes has its slot cleared.
clear_loop_lem :
    (n t now u : ℕ) (ss : List HolderStats)
    → 0 < length ss
    → now < 2 ^ 32 - 1
    → t ≤ u
    → u < t + n
    → u ≤ now
    → get_elem? (clear_loop n t now ss) (u % length ss) ≡ some no_stats
unfolding clear_loop
clear_loop_lem zero t now u ss pos small lo hi last = absurd (omega arith)
clear_loop_lem (suc n) t now u ss pos small lo hi last =
    let on : leb t now ≡ true = ground arith in
    let next : (t + 1) % 2 ^ 32 ≡ t + 1 = omega arith in
    let cleared = clear_at (t % length ss) ss in
    rw on (elim (ℕ_discrete t u) [
      | yes same ↦ clear_loop_kept n ((t + 1) % 2 ^ 32) now (u % length ss) cleared (
          subst (λ k. get_elem? cleared (k % length ss) ≡ some no_stats) same
            (clear_at_here (t % length ss) ss (mod-lt t pos)))
      | no other ↦
          subst
            (λ k. get_elem? (clear_loop n ((t + 1) % 2 ^ 32) now cleared) (u % k) ≡ some no_stats)
            (length-clear_at (t % length ss) ss)
            (clear_loop_lem n ((t + 1) % 2 ^ 32) now u cleared
              (subst (λ k. 0 < k) (sym (length-clear_at (t % length ss) ss)) pos) small
              (omega arith) (omega arith) last)
    ])

-- With at least one slot, get at a second later than the last update and before 2 ^ 32 - 1 returns
-- a slot that is cleared, whatever time has passed, and leaves the set as init does.
pub get_stats_lem :
    (now : ℕ) (s : HolderStatsSet)
    → 0 < length s.stats
    → s.last_update_time < now
    → now < 2 ^ 32 - 1
    → get_stats now s ≡ some (no_stats, init_stats now s)
unfolding get_stats init_stats
get_stats_lem now s pos newer small =
    let n = length s.stats in
    let last = s.last_update_time in
    let start = (last + 1) % 2 ^ 32 in
    let u = last + 1 + (now - last - 1) % n in
    let slots = clear_loop n start now s.stats in
    let later : ltb last now ≡ true = ground arith in
    let first : start ≡ last + 1 = omega arith in
    let low : (now - last - 1) % n < n = mod-lt (now - last - 1) pos in
    let below : (now - last - 1) % n ≤ now - last - 1 = mod-le (now - last - 1) n in
    let whole : last + 1 + (now - last - 1) ≡ now = omega arith in
    let same : u % n ≡ now % n =
      add-mod-mod (last + 1) (now - last - 1) n ∙ ap (λ t. t % n) whole in
    let cleared : get_elem? slots (u % n) ≡ some no_stats =
      clear_loop_lem n start now u s.stats pos small (omega arith) (omega arith) (omega arith) in
    let found : get_elem? slots (now % length slots) ≡ some no_stats =
      ap (λ k. get_elem? slots (now % k)) (length-clear_loop n start now s.stats)
      ∙ ap (get_elem? slots) (sym same)
      ∙ cleared in
    rw later (rw found refl)
