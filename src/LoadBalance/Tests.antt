-- ===== src/LoadBalance/Tests.antt =====
-- The balancers of cxk/stream/load_balance.cpp on concrete items.
use cxkframework.Prelude.{
  ℕ, ◌-◌, ◌%◌, ◌^◌, ◌==◌, if◌then◌else◌, ◌≡◌, refl, true, false, none, some, [], ◌∷◌, replicate,
  arith,
}
use cxkframework.LoadBalance.{
  Item, LoadBalance, HolderStatsSet, get_idx, upper_bound, upper_loop, init_weight, round_robin_get,
  weight_get, search, running, get_stats, init_stats, inc_total, inc_errs,
}
use cxkframework.LoadBalance.Search.{Finds, round_robin_get_lem}
use cxkframework.LoadBalance.Weights.{Splits, weight_get_lem}
use cxkframework.LoadBalance.Stats.{no_stats, get_stats_lem}

abbrev broken : Item
broken = record { id = 1; weight = 10; valid = false }

abbrev good : Item
good = record { id = 2; weight = 30; valid = true }

abbrev two_items : LoadBalance
two_items = record { items = broken ∷ good ∷ []; weights = 10 ∷ 40 ∷ [] }

-- The first item is not valid, so that the next one is taken.
round_robin_run : round_robin_get 4 two_items ≡ some good
unfolding round_robin_get search
round_robin_run = refl

weights_run : (init_weight two_items).1.weights ≡ 10 ∷ 40 ∷ []
unfolding init_weight running
weights_run = refl

-- The count of errors stays as it is.
errs_run : (inc_errs 3 (inc_total 1 no_stats)).errs ≡ 0
unfolding inc_errs inc_total
errs_run = refl

round_robin_get_lem_example : Finds (two_items.items) (round_robin_get 4 two_items)
round_robin_get_lem_example = round_robin_get_lem 4 two_items (omega arith)

-- `std::upper_bound` halves what it searches, also where the sums are not sorted.
unsorted_run : upper_bound 15 (10 ∷ 40 ∷ 5 ∷ 3 ∷ 20 ∷ []) ≡ 4
unfolding upper_bound upper_loop
unsorted_run = refl

-- The second item is drawn, and null is returned.
weight_run : weight_get 15 two_items ≡ some none
unfolding weight_get get_idx upper_bound upper_loop
weight_run = refl

weight_get_lem_example :
    (k : ℕ) × Splits (15 % 40) (running 0 (broken ∷ good ∷ [])) k
    × (weight_get 15 (init_weight (record { items = broken ∷ good ∷ []; weights = [] })).1
        ≡ some (if k == 1 then none else search 2 0 ((2 ^ 64 - k) % 2 ^ 64) (broken ∷ good ∷ [])))
weight_get_lem_example =
    weight_get_lem (broken ∷ good ∷ []) 15 (omega arith) (omega arith) (omega arith)

abbrev five_slots : HolderStatsSet
five_slots = record { last_update_time = 100; stats = replicate 5 (record no_stats { total = 8 }) }

get_stats_lem_example : get_stats 203 five_slots ≡ some (no_stats, init_stats 203 five_slots)
get_stats_lem_example = get_stats_lem 203 five_slots (omega arith) (omega arith) (omega arith)
