-- ===== src/LruCache/Refine.antt =====
-- The cache of cxk/ds/lru_cache.h as a list of pairs in the order of use.
use cxkframework.Prelude.{
  ℕ, ◌+◌, ◌%◌, ◌^◌, ◌≡◌, refl, sym, ap, ◌∙◌, true, false, Bool, ◌||◌, Option, none, some, List, [],
  ◌∷◌, ◌==◌, if◌then◌else◌, length, arith, Bool-cases, inl, inr, take, ltb, Option-cases, ==_of,
  subst,
}
use cxkframework.LruCache.{
  Entry, LruCache, CacheStatus, node_at, remove_node, emplace_front, found_at, is_some, map_erase,
  inc_set, inc_get, inc_del, inc_hit, inc_prune, Pruned, prune_loop, prune, count_pruned,
  get_max_allowed_size, set_old, set, get_hit, get, del,
}
use cxkframework.LruCache.Keys.{
  items, iterator, lookup, without, Located, node_at-assign, remove-assign,
}
use cxkframework.LruCache.Invariant.{
  IsValid, located, touch-IsValid, remove-IsValid, emplace_front-IsValid,
}
use cxkframework.LruCache.Prune.{DidPrune, prune_loop_lem, length-items}

-- What `prune` leaves of a list of pairs.
unfoldable pub keep_recent : {V : Type 0} → ℕ → ℕ → List (ℕ × V) → List (ℕ × V)
keep_recent max elasticity xs =
    if (max == 0) || ltb (length xs) ((max + elasticity) % 2 ^ 64) then xs else take max xs

-- `set` on the list of pairs
unfoldable pub set_items : {V : Type 0} → ℕ → ℕ → ℕ → V → List (ℕ × V) → List (ℕ × V)
unfolding keep_recent
set_items max elasticity k v xs =
    if is_some (lookup k xs)
    then (k, v) ∷ without k xs
    else keep_recent max elasticity ((k, v) ∷ xs)

-- `get` on the list of pairs
unfoldable pub use_item : {V : Type 0} → ℕ → Option V → List (ℕ × V) → List (ℕ × V)
use_item k none xs = xs
use_item k (some v) xs = (k, v) ∷ without k xs

-- what `get` returns for a value found or not
abbrev pub returned : {V : Type 0} → (V → Bool) → Option V → Bool
returned to_bool none = false
returned to_bool (some v) = to_bool v

module _ {V : Type 0} where
  absent : (k : ℕ) (ns : List (Entry V)) → iterator k ns ≡ none → lookup k (items ns) ≡ none
  unfolding iterator lookup items
  absent k [] h = refl
  absent k (n ∷ ns) h = let ih = absent k ns in ground arith

  front : (n : Entry V) (it : ℕ) (ns : List (Entry V)) → n.id ≡ it → node_at it (n ∷ ns) ≡ some n
  unfolding node_at
  front n it ns e = rw (==_of n.id it e) refl

  without_missing : (k : ℕ) (xs : List (ℕ × V)) → lookup k xs ≡ none → without k xs ≡ xs
  unfolding lookup without
  without_missing k [] h = refl
  without_missing k ((j, x) ∷ xs) h = let ih = without_missing k xs in ground arith

  pub same_status :
      (m : LruCache V) (s : CacheStatus) → IsValid m → IsValid (record m { status = s })
  same_status m s v = record {
    index = v.index;
    counted = v.counted;
    distinct = v.distinct;
    unused = v.unused;
  }

  pub same_size : (m : LruCache V) → IsValid m → m.cache.count ≡ length (items m.keys)
  same_size m v = v.counted ∙ sym (length-items m.keys)

  prune_lem :
      (m : LruCache V)
      → IsValid m
      → (out : List (ℕ × V) × LruCache V) × (prune m ≡ some out)
        × IsValid out.1
        × (items out.1.keys ≡ keep_recent m.max_size m.elasticity (items m.keys))
  unfolding prune keep_recent
  prune_lem m v =
      elim (Bool-cases ((m.max_size == 0) || ltb m.cache.count (get_max_allowed_size m))) [
        | inl small ↦ (
          ([], m),
          rw small refl,
          v,
          sym (
              rw
                (sym (ap (λ t. (m.max_size == 0) || ltb t (get_max_allowed_size m)) (same_size m v))
                  ∙ small)
                refl),
        )
        | inr large ↦ finish large (prune_loop_lem m.cache.count m v (omega arith))
      ]
    where
      finish :
          ((m.max_size == 0) || ltb m.cache.count (get_max_allowed_size m)) ≡ false
          → (out : Pruned V) × (prune_loop m.cache.count m ≡ some out) × DidPrune m out
          → (out : List (ℕ × V) × LruCache V) × (prune m ≡ some out)
            × IsValid out.1
            × (items out.1.keys ≡ keep_recent m.max_size m.elasticity (items m.keys))
      finish large ((n, (cs, m')), e, d) = (
        (cs, record m' { status = inc_prune n m'.status }),
        rw large (ap count_pruned e),
        same_status m' (inc_prune n m'.status) d.valid,
        d.kept
            ∙ sym (
                rw
                  (sym (
                      ap (λ t. (m.max_size == 0) || ltb t (get_max_allowed_size m)) (same_size m v))
                    ∙ large)
                  refl),
      )

  module _ (k it : ℕ) (m : LruCache V) (v : IsValid m) (found : m.cache.at k ≡ some it) where
    set_old_lem :
        (x : V)
        → (m' : LruCache V) × (set_old it x m ≡ some ([], m'))
          × IsValid m'
          × (items m'.keys ≡ (k, x) ∷ without k (items m.keys))
    unfolding set_old items
    set_old_lem x =
        let l : Located k it m.keys = located m v k it found in
        let n : Entry V = record l.node { value = x } in
        (
          record m { keys = n ∷ remove_node it m.keys },
          rw (node_at-assign it x m.keys l.node l.there) (rw (remove-assign it x m.keys) refl),
          touch-IsValid m v k it found n l.key l.id,
          ap (λ t. (t, x) ∷ items (remove_node it m.keys)) l.key ∙ ap (λ t. (k, x) ∷ t) l.rest,
        )

    get_hit_lem :
        (to_bool : V → Bool)
        → (x : V) × (m' : LruCache V) × (get_hit to_bool it m ≡ some (to_bool x, (some x, m')))
          × IsValid m'
          × (lookup k (items m.keys) ≡ some x)
          × (items m'.keys ≡ (k, x) ∷ without k (items m.keys))
    unfolding get_hit items
    get_hit_lem to_bool =
        let l : Located k it m.keys = located m v k it found in
        let ns : List (Entry V) = l.node ∷ remove_node it m.keys in
        (
          l.node.value,
          record m { keys = ns; status = inc_hit m.status },
          rw l.there (rw (front l.node it (remove_node it m.keys) l.id) refl),
          same_status (record m { keys = ns }) (inc_hit m.status)
              (touch-IsValid m v k it found l.node l.key l.id),
          l.value,
          ap (λ t. (t, l.node.value) ∷ items (remove_node it m.keys)) l.key
              ∙ ap (λ t. (k, l.node.value) ∷ t) l.rest,
        )

  -- On a cache whose map and list agree, set succeeds and leaves such a cache, whose pairs in the
  -- order of use are those of set on a list of pairs: an old key gets the value and comes first; a
  -- new one comes first, and unless max_size is 0 or the list is shorter than max_size +
  -- elasticity, modulo 2 ^ 64, only the first max_size pairs stay.
  pub set_lem :
      (k : ℕ) (x : V) (m : LruCache V)
      → IsValid m
      → (out : List (ℕ × V) × LruCache V) × (set k x m ≡ some out)
        × IsValid out.1
        × (items out.1.keys ≡ set_items m.max_size m.elasticity k x (items m.keys))
  unfolding set set_items items
  set_lem k x m v =
      let m1 : LruCache V = record m { status = inc_set m.status } in
      let v1 : IsValid m1 = same_status m (inc_set m.status) v in
      elim (Option-cases (m.cache.at k)) [
        | inl missing ↦
            let none_there : lookup k (items m.keys) ≡ none =
              absent k m.keys (sym (v.index k) ∙ missing) in
            let (out, e, w, kept) =
              prune_lem (emplace_front k x m1) (emplace_front-IsValid m1 k x v1 missing) in
            (
              out,
              ap (λ o. found_at o (prune (emplace_front k x m1)) (λ it. set_old it x m1)) missing
                  ∙ e,
              w,
              kept ∙ fresh_item none_there,
            )
        | inr (it, found) ↦
            let (m', e, w, kept) = set_old_lem k it m1 v1 found x in
            (
              ([], m'),
              ap (λ o. found_at o (prune (emplace_front k x m1)) (λ i. set_old i x m1)) found ∙ e,
              w,
              kept ∙ old_item (located m v k it found),
            )
      ]
    where
      fresh_item :
          lookup k (items m.keys) ≡ none
          → keep_recent m.max_size m.elasticity ((k, x) ∷ items m.keys)
            ≡ set_items m.max_size m.elasticity k x (items m.keys)
      fresh_item e = sym (rw e refl)

      old_item :
          {it : ℕ}
          → Located k it m.keys
          → (k, x) ∷ without k (items m.keys) ≡ set_items m.max_size m.elasticity k x (items m.keys)
      old_item l = sym (rw l.value refl)

  -- On a cache whose map and list agree, get succeeds and leaves such a cache; it hands out the
  -- value of the key if there is one, and the pair of the key then comes first; it returns the
  -- value, converted to bool, and false for a key that is not there.
  pub get_lem :
      (to_bool : V → Bool) (k : ℕ) (m : LruCache V)
      → IsValid m
      → (out : Bool × (Option V × LruCache V)) × (get to_bool k m ≡ some out)
        × IsValid out.1.1
        × (out.0 ≡ returned to_bool (lookup k (items m.keys)))
        × (out.1.0 ≡ lookup k (items m.keys))
        × (items out.1.1.keys ≡ use_item k (lookup k (items m.keys)) (items m.keys))
  unfolding get use_item
  get_lem to_bool k m v =
      let m1 : LruCache V = record m { status = inc_get m.status } in
      let v1 : IsValid m1 = same_status m (inc_get m.status) v in
      elim (Option-cases (m.cache.at k)) [
        | inl missing ↦
            let none_there : lookup k (items m.keys) ≡ none =
              absent k m.keys (sym (v.index k) ∙ missing) in
            (
              (false, (none, m1)),
              ap (λ o. found_at o (some (false, (none, m1))) (λ i. get_hit to_bool i m1)) missing,
              v1,
              ap (returned to_bool) (sym none_there),
              sym none_there,
              ap (λ o. use_item k o (items m.keys)) (sym none_there),
            )
        | inr (it, found) ↦
            let (x, m', e, w, value, kept) = get_hit_lem k it m1 v1 found to_bool in
            (
              (to_bool x, (some x, m')),
              ap (λ o. found_at o (some (false, (none, m1))) (λ i. get_hit to_bool i m1)) found ∙ e,
              w,
              ap (returned to_bool) (sym value),
              sym value,
              kept ∙ ap (λ o. use_item k o (items m.keys)) (sym value),
            )
      ]

  -- On a cache whose map and list agree, del returns whether the key was there, and leaves such a
  -- cache with the other pairs in their order.
  pub del_lem :
      (k : ℕ) (m : LruCache V)
      → IsValid m
      → ((del k m).0 ≡ is_some (lookup k (items m.keys)))
        × IsValid (del k m).1
        × (items (del k m).1.keys ≡ without k (items m.keys))
  unfolding del
  del_lem k m v =
      let m1 : LruCache V = record m { status = inc_del m.status } in
      let v1 : IsValid m1 = same_status m (inc_del m.status) v in
      elim (Option-cases (m.cache.at k)) [
        | inl missing ↦
            let none_there : lookup k (items m.keys) ≡ none =
              absent k m.keys (sym (v.index k) ∙ missing) in
            subst Del (sym (ap (λ o. found_at o (false, m1) (erased m1)) missing))
              (ap is_some (sym none_there), v1, sym (bare none_there))
        | inr (it, found) ↦
            let l : Located k it m.keys = located m v k it found in
            subst Del (sym (ap (λ o. found_at o (false, m1) (erased m1)) found))
              (ap is_some (sym l.value), remove-IsValid m1 v1 k it found, l.rest)
      ]
    where
      erased : LruCache V → ℕ → Bool × LruCache V
      erased m1 it =
          (true, record m1 { keys = remove_node it m1.keys; cache = map_erase k m1.cache })

      Del : Bool × LruCache V → Type 0
      Del r =
          (r.0 ≡ is_some (lookup k (items m.keys)))
          × IsValid r.1
          × (items r.1.keys ≡ without k (items m.keys))

      bare : lookup k (items m.keys) ≡ none → without k (items m.keys) ≡ items m.keys
      bare e = without_missing k (items m.keys) e
