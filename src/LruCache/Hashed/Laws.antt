-- ===== src/LruCache/Hashed/Laws.antt =====
-- What `HashLruCache` of cxk/ds/lru_cache.h keeps of its caches.
use cxkframework.Prelude.{
  ℕ, ◌%◌, ◌<◌, ◌≡◌, refl, sym, ap, ◌∙◌, subst, Bool, some, and_then, get_elem?_lt, get_elem?-set,
  All, All-get_elem?, All-set, length, length-set, arith,
}
use cxkframework.LruCache.{LruCache, get}
use cxkframework.LruCache.Invariant.{IsValid}
use cxkframework.LruCache.Refine.{set_lem, same_status}
use cxkframework.LruCache.Laws.{get-set}
use cxkframework.LruCache.Hashed.{HashLruCache, bucket_at, put_bucket, hashed_set, hashed_get}

-- A cache for each bucket, each of them valid.
pub record IsWhole {V : Type 0} (m : HashLruCache V) : Type 0 where
  pub some_bucket : 0 < m.bucket
  pub all_there : length m.datas ≡ m.bucket
  pub valid : All IsValid m.datas

mod_lt : (a b : ℕ) → 0 < b → a % b < b
mod_lt a b h = omega arith

module _ {V : Type 0} (hash : ℕ → ℕ) (m : HashLruCache V) (w : IsWhole m) (k : ℕ) where
  in_range : hash k % m.bucket < length m.datas
  in_range =
      subst (λ n. hash k % m.bucket < n) (sym w.all_there) (mod_lt (hash k) m.bucket w.some_bucket)

  put_bucket-IsWhole : (c : LruCache V) → IsValid c → IsWhole (put_bucket hash k c m)
  unfolding put_bucket
  put_bucket-IsWhole c v = record {
    some_bucket = w.some_bucket;
    all_there = length-set m.datas (hash k % m.bucket) c ∙ w.all_there;
    valid = All-set IsValid m.datas (hash k % m.bucket) c w.valid v;
  }

  bucket_at-put_bucket : (c : LruCache V) → bucket_at hash k (put_bucket hash k c m) ≡ some c
  unfolding put_bucket bucket_at
  bucket_at-put_bucket c = rw (get_elem?-set m.datas (hash k % m.bucket) c in_range) refl

module _ {V : Type 0} (hash : ℕ → ℕ) where
  -- On a hashed cache with a valid cache for each bucket and at least one bucket, get of a key that
  -- was just set succeeds and hands out the value that was set, and returns this value converted to
  -- bool; the buckets stay valid.
  pub hashed_get-set :
      (to_bool : V → Bool) (k : ℕ) (x : V) (m : HashLruCache V)
      → IsWhole m
      → (m' : HashLruCache V) × (and_then
            (hashed_set hash k x m)
            (λ out. hashed_get hash to_bool k out.1)
          ≡ some (to_bool x, (some x, m')))
        × IsWhole m'
  unfolding hashed_set hashed_get bucket_at put_bucket
  hashed_get-set to_bool k x m w =
      let (c, there) = get_elem?_lt m.datas (hash k % m.bucket) (in_range hash m w k) in
      let c1 : LruCache V = record c { status = m.shared } in
      let v : IsValid c1 =
        same_status c m.shared (All-get_elem? IsValid m.datas (hash k % m.bucket) w.valid there) in
      let (out, e, v', _) = set_lem k x c1 v in
      let (c2, e2, v2) = get-set to_bool k x c1 v in
      let read : get to_bool k out.1 ≡ some (to_bool x, (some x, c2)) =
        ap (λ r. and_then r (λ out. get to_bool k out.1)) (sym e) ∙ e2 in
      let m1 : HashLruCache V = put_bucket hash k out.1 m in
      let w1 : IsWhole m1 = put_bucket-IsWhole hash m w k out.1 v' in
      (
        put_bucket hash k c2 m1,
        rw there (rw e (rw (bucket_at-put_bucket hash m w k out.1) (rw read refl))),
        put_bucket-IsWhole hash m1 w1 k c2 v2,
      )
