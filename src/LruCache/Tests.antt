-- ===== src/LruCache/Tests.antt =====
-- Runs of cxk/ds/lru_cache.h, and the theorems at concrete caches.
use cxkframework.Prelude.{
  ℕ, ◌≡◌, refl, Bool, not, Option, some, List, [], ◌∷◌, ◌==◌, and_then, arith, inl, inr,
}
use cxkframework.LruCache.{LruCache, emplace_front, set, get, node_at, size, map_insert}
use cxkframework.LruCache.Keys.{iterator, IsDistinct, items, lookup}
use cxkframework.LruCache.Invariant.{IsValid, emplace_front-IsValid}
use cxkframework.LruCache.Refine.{set_items, use_item, set_lem, get_lem, returned}
use cxkframework.LruCache.Laws.{IsBounded, size-set}
use cxkframework.LruCache.Hashed.{
  HashLruCache, new_hashed, no_status, new_cache, hashed_set, hashed_get, hashed_size,
}
use cxkframework.LruCache.Hashed.Laws.{IsWhole}

abbrev bare : LruCache ℕ
unfolding new_cache
bare = new_cache 2 0 no_status

bare-IsValid : IsValid bare
unfolding new_cache iterator IsDistinct node_at
bare-IsValid = record { index = λ k. refl; counted = refl; distinct = tt; unused = λ j h. refl }

abbrev two_keys : LruCache ℕ
unfolding emplace_front
two_keys = emplace_front 8 80 (emplace_front 7 70 bare)

two_keys-IsValid : IsValid two_keys
unfolding emplace_front map_insert new_cache
two_keys-IsValid =
    emplace_front-IsValid (emplace_front 7 70 bare) 8 80
      (emplace_front-IsValid bare 7 70 bare-IsValid refl) refl

-- A third key prunes the least recent one.
set_third :
    and_then (set 9 90 two_keys) (λ out. some (items out.1.keys)) ≡ some ((9, 90) ∷ (8, 80) ∷ [])
unfolding set items bare two_keys
set_third = refl

set_lem_example :
    (out : List (ℕ × ℕ) × LruCache ℕ) × (set 9 90 two_keys ≡ some out)
    × IsValid out.1
    × (items out.1.keys ≡ set_items 2 0 9 90 (items two_keys.keys))
unfolding two_keys bare
set_lem_example = set_lem 9 90 two_keys two_keys-IsValid

get_lem_example :
    (out : Bool × (Option ℕ × LruCache ℕ)) × (get (λ v. not (v == 0)) 7 two_keys ≡ some out)
    × IsValid out.1.1
    × (out.0 ≡ returned (λ v. not (v == 0)) (lookup 7 (items two_keys.keys)))
    × (out.1.0 ≡ lookup 7 (items two_keys.keys))
    × (items out.1.1.keys ≡ use_item 7 (lookup 7 (items two_keys.keys)) (items two_keys.keys))
get_lem_example = get_lem (λ v. not (v == 0)) 7 two_keys two_keys-IsValid

size-set_example :
    (out : List (ℕ × ℕ) × LruCache ℕ) × (set 9 90 two_keys ≡ some out) × IsBounded 2 0 (size out.1)
unfolding two_keys bare IsBounded size emplace_front map_insert new_cache
size-set_example = size-set 9 90 two_keys two_keys-IsValid (inr (inl (omega arith)))

abbrev three_buckets : HashLruCache ℕ
unfolding new_hashed
three_buckets = new_hashed 3 4 0

three_buckets-IsWhole : IsWhole three_buckets
unfolding new_hashed
three_buckets-IsWhole = record {
  some_bucket = omega arith;
  all_there = refl;
  valid = (bare-IsValid, (bare-IsValid, (bare-IsValid, tt)));
}

abbrev read_and_size : Bool × (Option ℕ × HashLruCache ℕ) → Option (Option ℕ × ℕ)
read_and_size c = some (c.1.0, hashed_size c.1.1)

-- Two keys of one bucket.
hashed_run :
    and_then (hashed_set (λ k. k) 1 10 three_buckets) (λ a.
      and_then
        (hashed_set (λ k. k) 4 40 a.1)
        (λ b. and_then (hashed_get (λ k. k) (λ v. not (v == 0)) 1 b.1) (λ c. read_and_size c)))
    ≡ some (some 10, 2)
unfolding hashed_set hashed_get hashed_size new_hashed three_buckets
hashed_run = refl
