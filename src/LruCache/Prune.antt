-- ===== src/LruCache/Prune.antt =====
-- The loop of `prune` of cxk/ds/lru_cache.h.
use cxkframework.Prelude.{
  ℕ, zero, suc, ◌+◌, ◌-◌, ◌≤◌, ◌<◌, ◌≡◌, ◌≢◌, refl, sym, ap, ◌∙◌, true, false, some, List, [], ◌∷◌,
  ◌++◌, length, arith, Bool-cases, inl, inr, take, drop, reverse, reverse-append, take-append_le,
  drop-append_le, take_of_length-le, drop_of_length-le, length-append, ltb, subst,
}
use cxkframework.LruCache.{
  Entry, LruCache, node_at, remove_node, map_erase, back, pop_back, drop_back, prune_loop, one_more,
  Pruned,
}
use cxkframework.LruCache.Keys.{items, iterator, IsDistinct, locate, Located, some-none, ==_no}
use cxkframework.LruCache.Invariant.{IsValid, remove-IsValid}

module _ {V : Type 0} where
  pub length-items : (ns : List (Entry V)) → length (items ns) ≡ length ns
  unfolding items
  length-items [] = refl
  length-items (n ∷ ns) = ap suc (length-items ns)

  -- What stands at the end of the list.
  record Last (ns : List (Entry V)) : Type 0 where
    node : Entry V
    found : back ns ≡ some node
    at : iterator node.key ns ≡ some node.id
    popped : pop_back ns ≡ remove_node node.id ns
    split : items ns ≡ items (pop_back ns) ++ (node.key, node.value) ∷ []

  last : (n : Entry V) (ns : List (Entry V)) → IsDistinct (n ∷ ns) → Last (n ∷ ns)
  unfolding back iterator pop_back remove_node items IsDistinct
  last n [] d = record {
    node = n;
    found = refl;
    at = ground arith;
    popped = ground arith;
    split = refl;
  }
  last n (n' ∷ ns) (dk, di, d) =
      let l : Last (n' ∷ ns) = last n' ns d in
      let b : Entry V = l.node in
      let loc : Located b.key b.id (n' ∷ ns) = locate b.key b.id (n' ∷ ns) d l.at in
      let other_key : n.key ≢ b.key =
        λ e. some-none (sym l.at ∙ (ap (λ k. iterator k (n' ∷ ns)) (sym e) ∙ dk)) in
      let other_id : n.id ≢ b.id =
        λ e. some-none (sym loc.there ∙ (ap (λ k. node_at k (n' ∷ ns)) (sym e) ∙ di)) in
      record {
        node = b;
        found = l.found;
        at = rw (==_no n.key b.key other_key) l.at;
        popped = rw (==_no n.id b.id other_id) (ap (λ t. n ∷ t) l.popped);
        split = ap (λ t. (n.key, n.value) ∷ t) l.split;
      }

  -- What the loop leaves: the first `max_size` pairs, and the others in the order they went.
  pub record DidPrune (m : LruCache V) (out : Pruned V) : Type 0 where
    pub valid : IsValid out.1.1
    pub kept : items out.1.1.keys ≡ take m.max_size (items m.keys)
    pub dropped : out.1.0 ≡ reverse (drop m.max_size (items m.keys))
    pub number : out.0 ≡ length m.keys - m.max_size

  last_of : (ns : List (Entry V)) → IsDistinct ns → 0 < length ns → Last ns
  last_of [] d h = absurd (omega arith)
  last_of (n ∷ ns) d h = last n ns d

  nothing_to_do :
      (m : LruCache V) → IsValid m → m.cache.count ≤ m.max_size → DidPrune m (0, ([], m))
  nothing_to_do m v small =
      let short : length (items m.keys) ≤ m.max_size =
        omega (arith, v.counted, length-items m.keys) in
      record {
        valid = v;
        kept = sym (take_of_length-le m.max_size (items m.keys) short);
        dropped = sym (ap reverse (drop_of_length-le m.max_size (items m.keys) short));
        number = omega (arith, length-items m.keys);
      }

  module _ (m : LruCache V) (v : IsValid m) (l : Last m.keys) where
    drop_back-IsValid : IsValid (drop_back l.node m)
    unfolding drop_back
    drop_back-IsValid =
        let at_key : m.cache.at l.node.key ≡ some l.node.id = v.index l.node.key ∙ l.at in
        subst (λ ks. IsValid (record m { keys = ks; cache = map_erase l.node.key m.cache }))
          (sym l.popped) (remove-IsValid m v l.node.key l.node.id at_key)

    shorter : length m.keys ≡ length (pop_back m.keys) + 1
    shorter = omega (
      arith,
      length-items m.keys,
      length-items (pop_back m.keys),
      ap length l.split,
      length-append (items (pop_back m.keys)) ((l.node.key, l.node.value) ∷ []),
    )

    one_round :
        (n : ℕ) (cs : List (ℕ × V)) (m' : LruCache V)
        → m.max_size < m.cache.count
        → DidPrune (drop_back l.node m) (n, (cs, m'))
        → DidPrune m (n + 1, ((l.node.key, l.node.value) ∷ cs, m'))
    unfolding drop_back
    one_round n cs m' big d =
        let item : List (ℕ × V) = (l.node.key, l.node.value) ∷ [] in
        let most : List (ℕ × V) = items (pop_back m.keys) in
        let fits : m.max_size ≤ length most =
          omega (arith, v.counted, shorter, length-items (pop_back m.keys)) in
        record {
          valid = d.valid;
          kept =
              d.kept
              ∙ sym (ap (take m.max_size) l.split ∙ take-append_le m.max_size most item fits);
          dropped =
              ap (λ t. (l.node.key, l.node.value) ∷ t) d.dropped
              ∙ sym (
                  ap (λ t. reverse (drop m.max_size t)) l.split
                  ∙ (ap reverse (drop-append_le m.max_size most item fits)
                      ∙ reverse-append (drop m.max_size most) item));
          number = omega (arith, d.number, shorter, v.counted);
        }

  -- The loop ends by its own test within as many rounds as there are elements.
  pub prune_loop_lem :
      (fuel : ℕ) (m : LruCache V)
      → IsValid m
      → m.cache.count ≤ fuel
      → (out : Pruned V) × (prune_loop fuel m ≡ some out) × DidPrune m out
  unfolding prune_loop
  prune_loop_lem zero m v enough = ((0, ([], m)), refl, nothing_to_do m v (omega arith))
  prune_loop_lem (suc fuel) m v enough = elim (Bool-cases (ltb m.max_size m.cache.count)) [
    | inl more ↦
        let big : m.max_size < m.cache.count = ground arith in
        let l : Last m.keys = last_of m.keys v.distinct (omega (arith, v.counted)) in
        let v1 : IsValid (drop_back l.node m) = drop_back-IsValid m v l in
        finish m v l more big (prune_loop_lem fuel (drop_back l.node m) v1 (less m v l v1 enough))
    | inr done ↦ ((0, ([], m)), stop m done, nothing_to_do m v (ground arith))
  ]
    where
      less :
          (m : LruCache V) (v : IsValid m) (l : Last m.keys)
          → IsValid (drop_back l.node m)
          → m.cache.count ≤ suc fuel
          → (drop_back l.node m).cache.count ≤ fuel
      less m v l v1 enough = omega (arith, v1.counted, shorter m v l, v.counted)

      stop :
          (m : LruCache V)
          → ltb m.max_size m.cache.count ≡ false
          → prune_loop (suc fuel) m ≡ some (0, ([], m))
      stop m done = rw done refl

      finish :
          (m : LruCache V) (v : IsValid m) (l : Last m.keys)
          → ltb m.max_size m.cache.count ≡ true
          → m.max_size < m.cache.count
          → (out : Pruned V) × (prune_loop fuel (drop_back l.node m) ≡ some out)
            × DidPrune (drop_back l.node m) out
          → (out : Pruned V) × (prune_loop (suc fuel) m ≡ some out) × DidPrune m out
      finish m v l more big ((n, (cs, m')), e, d) = (
        (n + 1, ((l.node.key, l.node.value) ∷ cs, m')),
        rw more (rw l.found (ap (one_more (l.node.key, l.node.value)) e)),
        one_round m v l n cs m' big d,
      )
