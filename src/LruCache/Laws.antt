-- ===== src/LruCache/Laws.antt =====
-- What the operations of cxk/ds/lru_cache.h give one after another.
use cxkframework.Prelude.{
  ℕ, zero, suc, ◌+◌, ◌%◌, ◌^◌, ◌≤◌, ◌<◌, ◌≡◌, sym, ap, ◌∙◌, true, Bool, ◌⊎◌, Option, some, List, [],
  ◌∷◌, and_then, length, suc, arith, Bool-cases, inl, inr, subst, length-take,
}
use cxkframework.LruCache.{LruCache, set, get, size, is_some}
use cxkframework.LruCache.Keys.{items, lookup, without}
use cxkframework.LruCache.Invariant.{IsValid}
use cxkframework.LruCache.Refine.{keep_recent, set_items, set_lem, get_lem, returned, same_size}

-- the sizes that `set` keeps
unfoldable pub IsBounded : ℕ → ℕ → ℕ → Type 0
IsBounded max el n = (max ≡ 0) ⊎ ((n ≤ max) ⊎ (n < (max + el) % 2 ^ 64))

module _ {V : Type 0} where
  -- The first pair is never pruned.
  lookup-keep_recent :
      (max el k : ℕ) (x : V) (xs : List (ℕ × V))
      → lookup k (keep_recent max el ((k, x) ∷ xs)) ≡ some x
  unfolding keep_recent lookup
  lookup-keep_recent zero el k x xs = ground arith
  lookup-keep_recent (suc max) el k x xs = ground arith

  lookup-set_items :
      (max el k : ℕ) (x : V) (xs : List (ℕ × V)) → lookup k (set_items max el k x xs) ≡ some x
  unfolding set_items lookup
  lookup-set_items max el k x xs = elim (Bool-cases (is_some (lookup k xs))) [
    | inl old ↦ rw old (ground arith)
    | inr new ↦ rw new (lookup-keep_recent max el k x xs)
  ]

  -- On a cache whose map and list agree, get of a key that was just set succeeds and hands out the
  -- value that was set, whatever was pruned, and returns this value converted to bool; the cache
  -- still agrees.
  pub get-set :
      (to_bool : V → Bool) (k : ℕ) (x : V) (m : LruCache V)
      → IsValid m
      → (m' : LruCache V) × (and_then (set k x m) (λ out. get to_bool k out.1)
          ≡ some (to_bool x, (some x, m')))
        × IsValid m'
  get-set to_bool k x m v =
      let (out, e, w, kept) = set_lem k x m v in
      let there : lookup k (items out.1.keys) ≡ some x =
        ap (lookup k) kept ∙ lookup-set_items m.max_size m.elasticity k x (items m.keys) in
      let ((b, (o, m')), e', w', same, value, _) = get_lem to_bool k out.1 w in
      (
        m',
        ap (λ r. and_then r (λ out. get to_bool k out.1)) e
            ∙ e'
            ∙ ap (λ (r : Bool). some (r, (o, m'))) (same ∙ ap (returned to_bool) there)
            ∙ ap (λ (r : Option V). some (to_bool x, (r, m'))) (value ∙ there),
        w',
      )

  length-without : (k : ℕ) (xs : List (ℕ × V)) → length (without k xs) ≤ length xs
  unfolding without
  length-without k [] = omega arith
  length-without k ((j, x) ∷ xs) = ground (arith, length-without k xs)

  length-without_found :
      (k : ℕ) (xs : List (ℕ × V)) → is_some (lookup k xs) ≡ true → length (without k xs) < length xs
  unfolding without lookup
  length-without_found k [] h = cc
  length-without_found k ((j, x) ∷ xs) h =
      let ih = length-without_found k xs in ground (arith, length-without k xs)

  length-keep_recent :
      (max el : ℕ) (xs : List (ℕ × V)) → IsBounded max el (length (keep_recent max el xs))
  unfolding keep_recent IsBounded
  length-keep_recent max el xs = ground (arith, length-take max xs)

  length-set_items :
      (max el k : ℕ) (x : V) (xs : List (ℕ × V))
      → IsBounded max el (length xs)
      → IsBounded max el (length (set_items max el k x xs))
  unfolding set_items IsBounded
  length-set_items max el k x xs b = elim (Bool-cases (is_some (lookup k xs))) [
    | inl old ↦ let shorter = length-without_found k xs old in rw old (ground arith)
    | inr new ↦ rw new (length-keep_recent max el ((k, x) ∷ xs))
  ]

  -- On a cache whose map and list agree, where max_size is 0, or the size is at most max_size or
  -- less than max_size + elasticity, modulo 2 ^ 64, set succeeds and the same holds of the size
  -- after it.
  pub size-set :
      (k : ℕ) (x : V) (m : LruCache V)
      → IsValid m
      → IsBounded m.max_size m.elasticity (size m)
      → (out : List (ℕ × V) × LruCache V) × (set k x m ≡ some out)
        × IsBounded m.max_size m.elasticity (size out.1)
  unfolding size
  size-set k x m v b =
      let (out, e, w, kept) = set_lem k x m v in
      (
        out,
        e,
        subst (IsBounded m.max_size m.elasticity) (ap length (sym kept) ∙ sym (same_size out.1 w)) (
            length-set_items m.max_size m.elasticity k x (items m.keys)
              (subst (IsBounded m.max_size m.elasticity) (same_size m v) b)),
      )
