-- ===== src/LruCache.antt =====
-- `CacheStatus` of cxk/ds/cache_status.h and `LruCache` of cxk/ds/lru_cache.h. A key is a number,
-- since the code only compares keys and hashes them. A node of the list `m_keys` has an identity, which
-- is what the iterators in `m_cache` hold; `none` is a step through an iterator without a node.
use cxkframework.Prelude.{
  ℕ, zero, suc, ◌+◌, ◌-◌, ◌%◌, ◌^◌, true, false, Bool, not, ◌&&◌, ◌||◌, Option, none, some, List,
  [], ◌∷◌, map, leb, ltb, ◌==◌, if◌then◌else◌, and_then, length,
}
pub mod Keys
pub mod Invariant
pub mod Prune
pub mod Refine
pub mod Laws
pub mod Hashed
mod Tests

-- the counters, patterns of 64 bits
pub record CacheStatus : Type 0 where
  pub gets : ℕ
  pub sets : ℕ
  pub dels : ℕ
  pub timeouts : ℕ
  pub prunes : ℕ
  pub hits : ℕ

-- `Atomic::addFetch` on an `int64_t`
abbrev pub add_fetch : ℕ → ℕ → ℕ
add_fetch t v = (t + v) % 2 ^ 64

unfoldable pub inc_get : CacheStatus → CacheStatus
inc_get c = record c { gets = add_fetch c.gets 1 }

unfoldable pub inc_set : CacheStatus → CacheStatus
inc_set c = record c { sets = add_fetch c.sets 1 }

unfoldable pub inc_del : CacheStatus → CacheStatus
inc_del c = record c { dels = add_fetch c.dels 1 }

unfoldable pub inc_prune : ℕ → CacheStatus → CacheStatus
inc_prune v c = record c { prunes = add_fetch c.prunes v }

unfoldable pub inc_hit : CacheStatus → CacheStatus
inc_hit c = record c { hits = add_fetch c.hits 1 }

unfoldable pub merge : CacheStatus → CacheStatus → CacheStatus
merge c o = record {
  gets = add_fetch c.gets o.gets;
  sets = add_fetch c.sets o.sets;
  dels = add_fetch c.dels o.dels;
  timeouts = add_fetch c.timeouts o.timeouts;
  prunes = add_fetch c.prunes o.prunes;
  hits = add_fetch c.hits o.hits;
}

-- A node of `m_keys`.
pub record Entry (V : Type 0) : Type 0 where
  pub id : ℕ
  pub key : ℕ
  pub value : V

-- An unordered map from keys to iterators: what stands at each key, and the number of elements.
pub record HashMap : Type 0 where
  pub at : ℕ → Option ℕ
  pub count : ℕ

abbrev pub is_some : {A : Type 0} → Option A → Bool
is_some none = false
is_some (some a) = true

-- `std::unordered_map::insert`, which leaves a key that is there
unfoldable pub map_insert : ℕ → ℕ → HashMap → HashMap
map_insert k it c =
    if is_some (c.at k)
    then c
    else record { at = λ j. if j == k then some it else c.at j; count = c.count + 1 }

unfoldable pub map_erase : ℕ → HashMap → HashMap
map_erase k c =
    if is_some (c.at k)
    then record { at = λ j. if j == k then none else c.at j; count = c.count - 1 }
    else c

abbrev pub no_keys : HashMap
no_keys = record { at = λ _. none; count = 0 }

-- `fresh` is the identity of the next node; `pruned` has what `m_cb` was called with, if it is set
pub record LruCache (V : Type 0) : Type 0 where
  pub cache : HashMap
  pub keys : List (Entry V)
  pub max_size : ℕ
  pub elasticity : ℕ
  pub status : CacheStatus
  pub fresh : ℕ

-- `m_cache.find(k)`, and what is done at `end()` and at an element
abbrev pub found_at : {A : Type 0} → Option ℕ → A → (ℕ → A) → A
found_at none missing found = missing
found_at (some it) missing found = found it

-- what the loop of `prune` counts, what it calls `m_cb` with, and the cache
abbrev pub Pruned : Type 0 → Type 0
Pruned V = ℕ × (List (ℕ × V) × LruCache V)

module _ {V : Type 0} where
  -- the node at an iterator
  unfoldable pub node_at : ℕ → List (Entry V) → Option (Entry V)
  node_at it [] = none
  node_at it (n ∷ ns) = if n.id == it then some n else node_at it ns

  -- `m_keys.erase(it)`
  unfoldable pub remove_node : ℕ → List (Entry V) → List (Entry V)
  remove_node it [] = []
  remove_node it (n ∷ ns) = let rest = remove_node it ns in if n.id == it then rest else n ∷ rest

  -- `m_keys.splice(m_keys.begin(), m_keys, it)`
  unfoldable pub splice_front : ℕ → List (Entry V) → Option (List (Entry V))
  unfolding node_at remove_node
  splice_front it ns = and_then (node_at it ns) (λ n. some (n ∷ remove_node it ns))

  -- `it->second->second = v`
  unfoldable pub assign : ℕ → V → List (Entry V) → List (Entry V)
  assign it v [] = []
  assign it v (n ∷ ns) = (if n.id == it then record n { value = v } else n) ∷ assign it v ns

  -- `m_keys.back()` and `m_keys.pop_back()`
  unfoldable pub back : List (Entry V) → Option (Entry V)
  back [] = none
  back (n ∷ []) = some n
  back (n ∷ n' ∷ ns) = back (n' ∷ ns)

  unfoldable pub pop_back : List (Entry V) → List (Entry V)
  pop_back [] = []
  pop_back (n ∷ []) = []
  pop_back (n ∷ n' ∷ ns) = n ∷ pop_back (n' ∷ ns)

  unfoldable pub get_max_allowed_size : LruCache V → ℕ
  get_max_allowed_size m = (m.max_size + m.elasticity) % 2 ^ 64

  abbrev pub one_more : ℕ × V → Option (Pruned V) → Option (Pruned V)
  one_more item none = none
  one_more item (some (n, (items, m))) = some (n + 1, (item ∷ items, m))

  -- the body of the loop
  unfoldable pub drop_back : Entry V → LruCache V → LruCache V
  unfolding map_erase pop_back
  drop_back b m = record m { cache = map_erase b.key m.cache; keys = pop_back m.keys }

  -- The loop of `prune`; each round takes an element, so that `fuel` of the size is enough.
  unfoldable pub prune_loop : ℕ → LruCache V → Option (Pruned V)
  unfolding back drop_back
  prune_loop zero m = some (0, ([], m))
  prune_loop (suc fuel) m =
      let later =
        and_then (back m.keys) (λ b. one_more (b.key, b.value) (prune_loop fuel (drop_back b m))) in
      if ltb m.max_size m.cache.count then later else some (0, ([], m))

  abbrev pub count_pruned : Option (Pruned V) → Option (List (ℕ × V) × LruCache V)
  count_pruned none = none
  count_pruned (some (n, (items, m))) = some (items, record m { status = inc_prune n m.status })

  unfoldable pub prune : LruCache V → Option (List (ℕ × V) × LruCache V)
  unfolding get_max_allowed_size prune_loop inc_prune
  prune m =
      if (m.max_size == 0) || ltb m.cache.count (get_max_allowed_size m)
      then some ([], m)
      else count_pruned (prune_loop m.cache.count m)

  -- `set` where the key is there, and where it is not
  unfoldable pub set_old : ℕ → V → LruCache V → Option (List (ℕ × V) × LruCache V)
  unfolding splice_front assign
  set_old it v m =
      and_then (splice_front it (assign it v m.keys)) (λ ns. some ([], record m { keys = ns }))

  unfoldable pub emplace_front : ℕ → V → LruCache V → LruCache V
  unfolding map_insert
  emplace_front k v m = record m {
    keys = record { id = m.fresh; key = k; value = v } ∷ m.keys;
    cache = map_insert k m.fresh m.cache;
    fresh = m.fresh + 1;
  }

  -- `set`, with what `m_cb` is called with
  unfoldable pub set : ℕ → V → LruCache V → Option (List (ℕ × V) × LruCache V)
  unfolding inc_set set_old emplace_front prune
  set k v m0 =
      let m = record m0 { status = inc_set m0.status } in
      found_at (m.cache.at k) (prune (emplace_front k v m)) (λ it. set_old it v m)

  -- `get` of a key that is there: the value, the cache, and the result, in which the value is
  -- converted to `bool`
  unfoldable pub get_hit : (V → Bool) → ℕ → LruCache V → Option (Bool × (Option V × LruCache V))
  unfolding splice_front node_at inc_hit
  get_hit to_bool it m = and_then (splice_front it m.keys) (λ ns. and_then (node_at it ns) (λ n.
      some (to_bool n.value, (some n.value, record m { keys = ns; status = inc_hit m.status }))))

  -- `get`: what it returns, and what it writes to its argument
  unfoldable pub get : (V → Bool) → ℕ → LruCache V → Option (Bool × (Option V × LruCache V))
  unfolding inc_get get_hit
  get to_bool k m0 =
      let m = record m0 { status = inc_get m0.status } in
      found_at (m.cache.at k) (some (false, (none, m))) (λ it. get_hit to_bool it m)

  unfoldable pub del : ℕ → LruCache V → Bool × LruCache V
  unfolding inc_del remove_node map_erase
  del k m0 =
      let m = record m0 { status = inc_del m0.status } in
      found_at (m.cache.at k) (false, m)
        (λ it. (true, record m { keys = remove_node it m.keys; cache = map_erase k m.cache }))

  unfoldable pub exists : ℕ → LruCache V → Bool
  exists k m = is_some (m.cache.at k)

  unfoldable pub size : LruCache V → ℕ
  size m = m.cache.count

  unfoldable pub empty : LruCache V → Bool
  empty m = m.cache.count == 0

  unfoldable pub clear : LruCache V → LruCache V
  clear m = record m { cache = no_keys; keys = [] }

  unfoldable pub set_max_size : ℕ → LruCache V → LruCache V
  set_max_size n m = record m { max_size = n }

  unfoldable pub set_elasticity : ℕ → LruCache V → LruCache V
  set_elasticity n m = record m { elasticity = n }
