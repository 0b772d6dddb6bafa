-- ===== src/LoadBalance.antt =====
-- The balancers of cxk/stream/load_balance.cpp and cxk/stream/load_balance.h. An item has an identity;
-- `random` is what `rand()` returns. A null result is `none` inside of `some`; `none` outside is a
-- division by 0.
use cxkframework.Prelude.{
  ℕ, zero, suc, ◌+◌, ◌-◌, ◌/◌, ◌%◌, ◌^◌, true, false, Bool, Option, none, some, List, [], ◌∷◌, ◌++◌,
  ltb, leb, ◌==◌, if◌then◌else◌, length, get_elem?, and_then,
}
pub mod Search
pub mod Weights
pub mod Stats
mod Tests

-- `LoadBalanceItem`, with what `getWeight`, a pattern of 32 bits, and `isValid` return
pub record Item : Type 0 where
  pub id : ℕ
  pub weight : ℕ
  pub valid : Bool

pub record LoadBalance : Type 0 where
  pub items : List Item
  pub weights : List ℕ

unfoldable pub add : Item → LoadBalance → LoadBalance
add v b = record b { items = b.items ++ (v ∷ []) }

-- the loop of `del`, which compares pointers
unfoldable pub erase_item : ℕ → List Item → List Item
erase_item v [] = []
erase_item v (h ∷ hs) = let rest = erase_item v hs in if h.id == v then hs else h ∷ rest

unfoldable pub del_item : ℕ → LoadBalance → LoadBalance
del_item v b = record b { items = erase_item v b.items }

unfoldable pub set_items : List Item → LoadBalance → LoadBalance
set_items vs b = record b { items = vs }

-- what a round of `get` does with the item at an index
abbrev pub or_next : Option Item → Option Item → Option Item
or_next none later = later
or_next (some h) later = if h.valid then some h else later

-- The loop of `get` with `n` rounds to come, at the index `start + i`, a `size_t`.
unfoldable pub search : ℕ → ℕ → ℕ → List Item → Option Item
search zero i start hs = none
search (suc n) i start hs =
    or_next (get_elem? hs ((start + i) % 2 ^ 64 % length hs)) (search n (i + 1) start hs)

-- `RoundRobinLoadBalance::get`
unfoldable pub round_robin_get : ℕ → LoadBalance → Option Item
unfolding search
round_robin_get random b =
    if length b.items == 0
    then none
    else search (length b.items) 0 (random % length b.items % 2 ^ 32) b.items

-- The running sums of `initWeight`, patterns of 32 bits as the weights are.
unfoldable pub running : ℕ → List Item → List ℕ
running total [] = []
running total (h ∷ hs) = let sum = (total + h.weight) % 2 ^ 32 in sum ∷ running sum hs

abbrev pub last_or : ℕ → List ℕ → ℕ
last_or d [] = d
last_or d (w ∷ ws) = last_or w ws

-- `initWeight`: what it returns, and the balancer
unfoldable pub init_weight : LoadBalance → ℕ × LoadBalance
unfolding running
init_weight b = (last_or 0 (running 0 b.items), record b { weights = running 0 b.items })

-- `a < b` on `int32_t`
abbrev pub less_int : ℕ → ℕ → Bool
less_int a b = ltb ((a + 2 ^ 31) % 2 ^ 32) ((b + 2 ^ 31) % 2 ^ 32)

-- what a round of `std::upper_bound` does with the element in the middle
abbrev pub halve : ℕ → Option ℕ → ℕ → ℕ → ℕ → ℕ
halve v none first lower upper = first
halve v (some w) first lower upper = if less_int v w then lower else upper

-- The binary search of `std::upper_bound`, for `len` elements from `first` on; each round leaves
-- fewer, so that fuel of their number is enough.
unfoldable pub upper_loop : ℕ → ℕ → List ℕ → ℕ → ℕ → ℕ
upper_loop zero v ws first len = first
upper_loop (suc fuel) v ws first zero = first
upper_loop (suc fuel) v ws first (suc n) =
    halve v (get_elem? ws (first + suc n / 2)) first (upper_loop fuel v ws first (suc n / 2))
      (upper_loop fuel v ws (first + suc n / 2 + 1) (n - suc n / 2))

unfoldable pub upper_bound : ℕ → List ℕ → ℕ
unfolding upper_loop
upper_bound v ws = upper_loop (length ws) v ws 0 (length ws)

-- the absolute value of an `int32_t`
abbrev pub magnitude : ℕ → ℕ
magnitude t = if leb (2 ^ 31) t then 2 ^ 32 - t else t

-- `getIdx`, as the `size_t` that it is added as: the distance from `upper_bound` back to the front.
-- `rand()` is not negative, and so is its remainder by the total, whatever the sign of that is.
unfoldable pub get_idx : ℕ → List ℕ → Option ℕ
unfolding upper_bound
get_idx random [] = some (2 ^ 64 - 1)
get_idx random (w ∷ ws) =
    if last_or w ws == 0
    then none
    else some ((2 ^ 64 - upper_bound (random % magnitude (last_or w ws)) (w ∷ ws)) % 2 ^ 64)

-- `WeightLoadBalance::get` and `FairLoadBalance::get`
unfoldable pub weight_get : ℕ → LoadBalance → Option (Option Item)
unfolding get_idx search
weight_get random b =
    and_then (get_idx random b.weights)
      (λ idx. if idx == 2 ^ 64 - 1 then some none else some (search (length b.items) 0 idx b.items))

-- `HolderStats`, patterns of 32 bits
pub record HolderStats : Type 0 where
  pub used_time : ℕ
  pub total : ℕ
  pub doing : ℕ
  pub timeout : ℕ
  pub oks : ℕ
  pub errs : ℕ

-- `Atomic::addFetch` and `Atomic::subFetch` on a `uint32_t`
abbrev pub add_word : ℕ → ℕ → ℕ
add_word t v = (t + v) % 2 ^ 32

abbrev pub sub_word : ℕ → ℕ → ℕ
sub_word t v = (t + (2 ^ 32 - v % 2 ^ 32)) % 2 ^ 32

unfoldable pub inc_used_time : ℕ → HolderStats → HolderStats
inc_used_time v s = record s { used_time = add_word s.used_time v }

unfoldable pub inc_total : ℕ → HolderStats → HolderStats
inc_total v s = record s { total = add_word s.total v }

unfoldable pub inc_doing : ℕ → HolderStats → HolderStats
inc_doing v s = record s { doing = add_word s.doing v }

unfoldable pub inc_timeouts : ℕ → HolderStats → HolderStats
inc_timeouts v s = record s { timeout = add_word s.timeout v }

unfoldable pub inc_oks : ℕ → HolderStats → HolderStats
inc_oks v s = record s { oks = add_word s.oks v }

unfoldable pub inc_errs : ℕ → HolderStats → HolderStats
inc_errs v s = record s { errs = add_word s.errs 0 }

unfoldable pub dec_doing : ℕ → HolderStats → HolderStats
dec_doing v s = record s { doing = sub_word s.doing 0 }

-- `clear`, which sets each field
unfoldable pub clear_stats : HolderStats → HolderStats
clear_stats s = record { used_time = 0; total = 0; doing = 0; timeout = 0; oks = 0; errs = 0 }

pub record HolderStatsSet : Type 0 where
  pub last_update_time : ℕ
  pub stats : List HolderStats

-- `m_stats[i].clear()`
unfoldable pub clear_at : ℕ → List HolderStats → List HolderStats
unfolding clear_stats
clear_at i [] = []
clear_at zero (s ∷ ss) = clear_stats s ∷ ss
clear_at (suc i) (s ∷ ss) = s ∷ clear_at i ss

-- The loop of `init` with `n` rounds to come until `i` is the number of slots, at the second `t`.
unfoldable pub clear_loop : ℕ → ℕ → ℕ → List HolderStats → List HolderStats
unfolding clear_at
clear_loop zero t now ss = ss
clear_loop (suc n) t now ss =
    let later = clear_loop n ((t + 1) % 2 ^ 32) now (clear_at (t % length ss) ss) in
    if leb t now then later else ss

unfoldable pub init_stats : ℕ → HolderStatsSet → HolderStatsSet
unfolding clear_loop
init_stats now s =
    if ltb s.last_update_time now
    then record {
      last_update_time = now;
      stats = clear_loop (length s.stats) ((s.last_update_time + 1) % 2 ^ 32) now s.stats;
    }
    else s

-- `get`: the slot of the second, and the set
unfoldable pub get_stats : ℕ → HolderStatsSet → Option (HolderStats × HolderStatsSet)
unfolding init_stats
get_stats now s =
    let t = init_stats now s in
    and_then (get_elem? t.stats (now % length t.stats)) (λ x. some (x, t))
