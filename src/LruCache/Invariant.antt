-- ===== src/LruCache/Invariant.antt =====
-- What the map and the list of cxk/ds/lru_cache.h promise each other.
use cxkframework.Prelude.{
  ℕ, suc, ◌≤◌, ◌≡◌, sym, ap, ◌∙◌, none, some, ◌∷◌, ◌==◌, if◌then◌else◌, length, arith,
}
use cxkframework.LruCache.{
  Entry, LruCache, node_at, remove_node, map_insert, map_erase, is_some, emplace_front,
}
use cxkframework.LruCache.Keys.{
  iterator, IsDistinct, node_at-remove, locate, Located, remove-IsDistinct, iterator-remove,
  length-remove,
}

-- The map has an iterator for each key of the list, and no other; an iterator leads to its node.
pub record IsValid {V : Type 0} (m : LruCache V) : Type 0 where
  pub index : (k : ℕ) → m.cache.at k ≡ iterator k m.keys
  pub counted : m.cache.count ≡ length m.keys
  pub distinct : IsDistinct m.keys
  pub unused : (j : ℕ) → m.fresh ≤ j → node_at j m.keys ≡ none

module _ {V : Type 0} (m : LruCache V) (v : IsValid m) (k i : ℕ)
    (found : m.cache.at k ≡ some i) where
  pub located : Located k i m.keys
  located = locate k i m.keys v.distinct (sym (v.index k) ∙ found)

  absent_after :
      (j : ℕ) → iterator j (remove_node i m.keys) ≡ (if j == k then none else iterator j m.keys)
  absent_after j = iterator-remove k i m.keys j v.distinct (sym (v.index k) ∙ found)

  shorter : length m.keys ≡ suc (length (remove_node i m.keys))
  shorter = length-remove i m.keys v.distinct (ap is_some located.there)

  -- The node comes to the front.
  pub touch-IsValid :
      (n : Entry V) → n.key ≡ k → n.id ≡ i → IsValid (record m { keys = n ∷ remove_node i m.keys })
  unfolding iterator IsDistinct node_at
  touch-IsValid n ek ei = record {
    index = λ j. ground (arith, v.index j, absent_after j, found);
    counted = omega (arith, v.counted, shorter);
    distinct = (
      ground (arith, absent_after n.key),
      ground (arith, node_at-remove i n.id m.keys),
      remove-IsDistinct i m.keys v.distinct,
    );
    unused =
        λ j h. ground (arith, v.unused i, v.unused j, node_at-remove i j m.keys, located.there);
  }

  -- The node is gone.
  pub remove-IsValid :
      IsValid (record m { keys = remove_node i m.keys; cache = map_erase k m.cache })
  unfolding map_erase
  remove-IsValid = record {
    index = λ j. ground (arith, v.index j, absent_after j, found);
    counted = ground (arith, v.counted, shorter, found);
    distinct = remove-IsDistinct i m.keys v.distinct;
    unused = λ j h. ground (arith, v.unused j, node_at-remove i j m.keys);
  }

-- A new node comes to the front.
pub emplace_front-IsValid :
    {V : Type 0} (m : LruCache V) (k : ℕ) (x : V)
    → IsValid m
    → m.cache.at k ≡ none
    → IsValid (emplace_front k x m)
unfolding emplace_front map_insert iterator node_at IsDistinct
emplace_front-IsValid m k x v missing = record {
  index = λ j. ground (arith, v.index j, missing);
  counted = ground (arith, v.counted, missing);
  distinct = (sym (v.index k) ∙ missing, v.unused m.fresh (omega arith), v.distinct);
  unused = λ j h. ground (arith, v.unused j);
}
