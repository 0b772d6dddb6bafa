-- ===== src/LruCache/Hashed.antt =====
-- `HashLruCache` of cxk/ds/lru_cache.h: a vector of caches that count in one `CacheStatus`. `hash` is
-- `m_hash`; `none` is a bucket that is not there.
use cxkframework.Prelude.{
  ℕ, ◌+◌, ◌-◌, ◌*◌, ◌/◌, ◌%◌, ◌^◌, true, false, Bool, Option, none, some, List, [], ◌∷◌, map,
  if◌then◌else◌, and_then, get_elem?, replicate,
}
use cxkframework.Prelude
use cxkframework.LruCache.{
  LruCache, CacheStatus, no_keys, set, get, del, exists, size, empty, clear, set_max_size,
  set_elasticity,
}
pub mod Laws

-- `m_elasticity` has no value where the constructor leaves it, since the parameter of that name
-- hides it.
pub record HashLruCache (V : Type 0) : Type 0 where
  pub datas : List (LruCache V)
  pub total_max_size : ℕ
  pub bucket : ℕ
  pub total_elasticity : Option ℕ
  pub shared : CacheStatus

abbrev pub no_status : CacheStatus
no_status = record { gets = 0; sets = 0; dels = 0; timeouts = 0; prunes = 0; hits = 0 }

-- `std::ceil(v * 1.0 / bucket)`, for numbers that a double holds
unfoldable pub per_bucket : ℕ → ℕ → ℕ
per_bucket v bucket = (v + (bucket - 1)) / bucket

-- `new LruCache(max_size, elasticity, status)`
unfoldable pub new_cache : {V : Type 0} → ℕ → ℕ → CacheStatus → LruCache V
new_cache max el s = record {
  cache = no_keys;
  keys = [];
  max_size = max;
  elasticity = el;
  status = s;
  fresh = 0;
}

unfoldable pub new_hashed : {V : Type 0} → ℕ → ℕ → ℕ → HashLruCache V
unfolding per_bucket new_cache
new_hashed bucket max el = record {
  datas = replicate bucket (new_cache (per_bucket max bucket) (per_bucket el bucket) no_status);
  total_max_size = per_bucket max bucket * bucket % 2 ^ 64;
  bucket = bucket;
  total_elasticity = none;
  shared = no_status;
}

module _ {V : Type 0} (hash : ℕ → ℕ) where
  -- `m_datas[m_hash(k) % m_bucket]`, which counts in the shared status
  unfoldable pub bucket_at : ℕ → HashLruCache V → Option (LruCache V)
  bucket_at k m =
      and_then (get_elem? m.datas (hash k % m.bucket)) (λ c. some (record c { status = m.shared }))

  unfoldable pub put_bucket : ℕ → LruCache V → HashLruCache V → HashLruCache V
  put_bucket k c m = record m {
    datas = cxkframework.Prelude.set m.datas (hash k % m.bucket) c;
    shared = c.status;
  }

  unfoldable pub hashed_set : ℕ → V → HashLruCache V → Option (List (ℕ × V) × HashLruCache V)
  unfolding bucket_at put_bucket set
  hashed_set k v m =
      and_then (bucket_at k m)
        (λ c. and_then (set k v c) (λ out. some (out.0, put_bucket k out.1 m)))

  unfoldable pub hashed_get :
      (V → Bool) → ℕ → HashLruCache V → Option (Bool × (Option V × HashLruCache V))
  unfolding bucket_at put_bucket get
  hashed_get to_bool k m =
      and_then (bucket_at k m)
        (λ c. and_then (get to_bool k c) (λ out. some (out.0, (out.1.0, put_bucket k out.1.1 m))))

  unfoldable pub hashed_del : ℕ → HashLruCache V → Option (Bool × HashLruCache V)
  unfolding bucket_at put_bucket del
  hashed_del k m = and_then (bucket_at k m) (λ c. some ((del k c).0, put_bucket k (del k c).1 m))

  unfoldable pub hashed_exists : ℕ → HashLruCache V → Option Bool
  unfolding bucket_at exists
  hashed_exists k m = and_then (bucket_at k m) (λ c. some (exists k c))

module _ {V : Type 0} where
  unfoldable pub sum_sizes : ℕ → List (LruCache V) → ℕ
  unfolding size
  sum_sizes total [] = total
  sum_sizes total (c ∷ cs) = sum_sizes ((total + size c) % 2 ^ 64) cs

  unfoldable pub hashed_size : HashLruCache V → ℕ
  unfolding sum_sizes
  hashed_size m = sum_sizes 0 m.datas

  unfoldable pub all_empty : List (LruCache V) → Bool
  unfolding empty
  all_empty [] = true
  all_empty (c ∷ cs) = if empty c then all_empty cs else false

  unfoldable pub hashed_empty : HashLruCache V → Bool
  unfolding all_empty
  hashed_empty m = all_empty m.datas

  unfoldable pub hashed_clear : HashLruCache V → HashLruCache V
  unfolding clear
  hashed_clear m = record m { datas = map clear m.datas }

  unfoldable pub hashed_set_max_size : ℕ → HashLruCache V → HashLruCache V
  unfolding per_bucket set_max_size
  hashed_set_max_size v m = record m {
    total_max_size = per_bucket v m.bucket * m.bucket % 2 ^ 64;
    datas = map (set_max_size (per_bucket v m.bucket)) m.datas;
  }

  unfoldable pub hashed_set_elasticity : ℕ → HashLruCache V → HashLruCache V
  unfolding per_bucket set_elasticity
  hashed_set_elasticity v m = record m {
    total_elasticity = some (per_bucket v m.bucket * m.bucket % 2 ^ 64);
    datas = map (set_elasticity (per_bucket v m.bucket)) m.datas;
  }
