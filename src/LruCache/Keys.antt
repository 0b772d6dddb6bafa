-- ===== src/LruCache/Keys.antt =====
-- The list of nodes of cxk/ds/lru_cache.h, the iterators into it, and the pairs that it stands for.
use cxkframework.Prelude.{
  ℕ, suc, ◌≡◌, ◌≢◌, refl, sym, ap, ◌∙◌, true, false, Option, none, some, List, [], ◌∷◌, ◌==◌,
  if◌then◌else◌, length, arith, ℕ_discrete, Bool-cases, inl, inr, ==_of,
}
use cxkframework.LruCache.{Entry, node_at, remove_node, assign, is_some}

-- the pairs of a key and its value, in the order of use
unfoldable pub items : {V : Type 0} → List (Entry V) → List (ℕ × V)
items [] = []
items (n ∷ ns) = (n.key, n.value) ∷ items ns

-- the iterator to the node of a key
unfoldable pub iterator : {V : Type 0} → ℕ → List (Entry V) → Option ℕ
iterator k [] = none
iterator k (n ∷ ns) = if n.key == k then some n.id else iterator k ns

unfoldable pub lookup : {V : Type 0} → ℕ → List (ℕ × V) → Option V
lookup k [] = none
lookup k ((j, v) ∷ xs) = if j == k then some v else lookup k xs

unfoldable pub without : {V : Type 0} → ℕ → List (ℕ × V) → List (ℕ × V)
without k [] = []
without k ((j, v) ∷ xs) = let rest = without k xs in if j == k then rest else (j, v) ∷ rest

-- no key and no node twice
unfoldable pub IsDistinct : {V : Type 0} → List (Entry V) → Type 0
IsDistinct [] = Unit {0}
IsDistinct (n ∷ ns) = (iterator n.key ns ≡ none) × (node_at n.id ns ≡ none) × IsDistinct ns

pub some-none : {A : Type 0} {a : A} → some a ≢ none
some-none e = cc

pub ==_no : (a b : ℕ) → a ≢ b → (a == b) ≡ false
==_no a b n = ground arith

module _ {V : Type 0} where
  pub node_at-remove :
      (i j : ℕ) (ns : List (Entry V))
      → node_at j (remove_node i ns) ≡ (if j == i then none else node_at j ns)
  unfolding node_at remove_node
  node_at-remove i j [] = ground arith
  node_at-remove i j (n ∷ ns) = let ih = node_at-remove i j ns in ground arith

  -- A node that is not there is not removed.
  pub remove_absent : (i : ℕ) (ns : List (Entry V)) → node_at i ns ≡ none → remove_node i ns ≡ ns
  unfolding node_at remove_node
  remove_absent i [] h = refl
  remove_absent i (n ∷ ns) h = let ih = remove_absent i ns in ground arith

  without_absent :
      (k : ℕ) (ns : List (Entry V)) → iterator k ns ≡ none → without k (items ns) ≡ items ns
  unfolding iterator without items
  without_absent k [] h = refl
  without_absent k (n ∷ ns) h = let ih = without_absent k ns in ground arith

  iterator-node_at :
      (k i : ℕ) (ns : List (Entry V)) → iterator k ns ≡ some i → is_some (node_at i ns) ≡ true
  unfolding iterator node_at
  iterator-node_at k i [] h = cc
  iterator-node_at k i (n ∷ ns) h = let ih = iterator-node_at k i ns in ground arith

  -- What stands at the iterator of a key.
  pub record Located (k i : ℕ) (ns : List (Entry V)) : Type 0 where
    pub node : Entry V
    pub there : node_at i ns ≡ some node
    pub key : node.key ≡ k
    pub id : node.id ≡ i
    pub value : lookup k (items ns) ≡ some node.value
    pub rest : items (remove_node i ns) ≡ without k (items ns)

  pub locate :
      (k i : ℕ) (ns : List (Entry V)) → IsDistinct ns → iterator k ns ≡ some i → Located k i ns
  unfolding iterator IsDistinct items lookup without node_at remove_node
  locate k i [] d h = absurd cc
  locate k i (n ∷ ns) (dk, di, d) h = elim (ℕ_discrete n.key k) [
    | yes e ↦
        let is_n : n.id ≡ i = ground arith in
        let gone : remove_node n.id ns ≡ ns = remove_absent n.id ns di in
        let bare : without n.key (items ns) ≡ items ns = without_absent n.key ns dk in
        record {
          node = n;
          there = ground arith;
          key = e;
          id = is_n;
          value = ground arith;
          rest = here e is_n gone bare;
        }
    | no ne ↦
        let later : iterator k ns ≡ some i = ground arith in
        let l : Located k i ns = locate k i ns d later in
        let apart : n.id ≢ i =
          λ same. some-none (sym l.there ∙ (ap (λ j. node_at j ns) (sym same) ∙ di)) in
        record {
          node = l.node;
          there = ground (arith, l.there);
          key = l.key;
          id = l.id;
          value = ground (arith, l.value);
          rest = ground (arith, l.rest);
        }
  ]
    where
      here :
          n.key ≡ k
          → n.id ≡ i
          → remove_node n.id ns ≡ ns
          → without n.key (items ns) ≡ items ns
          → items (remove_node i (n ∷ ns)) ≡ without k (items (n ∷ ns))
      here e is_n gone bare = ground arith

  iterator_absent-remove :
      (k i : ℕ) (ns : List (Entry V)) → iterator k ns ≡ none → iterator k (remove_node i ns) ≡ none
  unfolding iterator remove_node
  iterator_absent-remove k i [] h = refl
  iterator_absent-remove k i (n ∷ ns) h = let ih = iterator_absent-remove k i ns in ground arith

  pub remove-IsDistinct :
      (i : ℕ) (ns : List (Entry V)) → IsDistinct ns → IsDistinct (remove_node i ns)
  unfolding IsDistinct remove_node
  remove-IsDistinct i [] d = tt
  remove-IsDistinct i (n ∷ ns) (dk, di, d) = elim (Bool-cases (n.id == i)) [
    | inl e ↦ rw e (remove-IsDistinct i ns d)
    | inr e ↦ rw e (
      iterator_absent-remove n.key i ns dk,
      node_at-remove i n.id ns ∙ rw e di,
      remove-IsDistinct i ns d,
    )
  ]

  -- The key of the removed node is gone, and no other.
  pub iterator-remove :
      (k i : ℕ) (ns : List (Entry V)) (j : ℕ)
      → IsDistinct ns
      → iterator k ns ≡ some i
      → iterator j (remove_node i ns) ≡ (if j == k then none else iterator j ns)
  unfolding iterator remove_node IsDistinct
  iterator-remove k i [] j d h = absurd cc
  iterator-remove k i (n ∷ ns) j (dk, di, d) h = elim (ℕ_discrete n.key k) [
    | yes e ↦
        let is_n : n.id ≡ i = ground arith in
        let gone : remove_node n.id ns ≡ ns = remove_absent n.id ns di in ground arith
    | no ne ↦
        let later : iterator k ns ≡ some i = ground arith in
        let l : Located k i ns = locate k i ns d later in
        let apart : n.id ≢ i =
          λ same. some-none (sym l.there ∙ (ap (λ t. node_at t ns) (sym same) ∙ di)) in
        let ih = iterator-remove k i ns j d later in ground arith
  ]

  pub length-remove :
      (i : ℕ) (ns : List (Entry V))
      → IsDistinct ns
      → is_some (node_at i ns) ≡ true
      → length ns ≡ suc (length (remove_node i ns))
  unfolding node_at remove_node IsDistinct
  length-remove i [] d h = absurd cc
  length-remove i (n ∷ ns) (dk, di, d) h = elim (ℕ_discrete n.id i) [
    | yes e ↦
        let gone : remove_node n.id ns ≡ ns = remove_absent n.id ns di in
        rw (==_of n.id i e)
          (ap (λ (t : List (Entry V)). suc (length t)) (sym gone ∙ ap (λ t. remove_node t ns) e))
    | no ne ↦
        let later : is_some (node_at i ns) ≡ true = ground arith in
        rw (==_no n.id i ne) (ap suc (length-remove i ns d later))
  ]

  pub node_at-assign :
      (i : ℕ) (v : V) (ns : List (Entry V)) (n : Entry V)
      → node_at i ns ≡ some n
      → node_at i (assign i v ns) ≡ some (record n { value = v })
  unfolding node_at assign
  node_at-assign i v [] n h = absurd cc
  node_at-assign i v (m ∷ ns) n h = let ih = node_at-assign i v ns n in ground arith

  pub remove-assign :
      (i : ℕ) (v : V) (ns : List (Entry V)) → remove_node i (assign i v ns) ≡ remove_node i ns
  unfolding remove_node assign
  remove-assign i v [] = refl
  remove-assign i v (m ∷ ns) = let ih = remove-assign i v ns in ground arith
