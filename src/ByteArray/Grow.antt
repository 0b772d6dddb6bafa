-- ===== src/ByteArray/Grow.antt =====
-- `addCapacity` and the constructor of cxk/bytearray.cpp against the invariant.
use cxkframework.Prelude.{
  ℕ, zero, suc, ◌+◌, ◌-◌, ◌*◌, ◌/◌, ◌%◌, ◌≤◌, ◌<◌, ◌≡◌, ◌⊎◌, refl, sym, ap, ◌∙◌, true, false, List,
  [], ◌∷◌, ◌++◌, append_assoc, leb, ltb, ◌==◌, if◌then◌else◌, arith, length, replicate, concat, All,
  take, length-append, length-replicate, All-append, concat-append, take-append_le, Bool-cases,
  lt→ltb, inl, inr, dec_lt,
}
use native.Mathlib.Nat.{add_assoc, mul_comm, div-add-mod, mod-lt}
use cxkframework.ByteArray.{ByteArray, new_node, create, node_count, add_nodes, add_capacity}
use cxkframework.ByteArray.Invariant.{IsValid, IsFull, memory, contents}

All-replicate : (base k : ℕ) → All (IsFull base) (replicate k (new_node base))
unfolding new_node
All-replicate base zero = tt
All-replicate base (suc k) = (length-replicate base 0, All-replicate base k)

pub create-IsValid : (base : ℕ) → 0 < base → IsValid (create base)
unfolding create
create-IsValid base h = record {
  positive = h;
  full_before = tt;
  full_after = (length-replicate base 0, tt);
  nodes = omega arith;
  rooted = omega arith;
  cur_from = omega arith;
  cur_to = omega arith;
  read_from = omega arith;
  read_to = omega arith;
}

-- What growing the buffer leaves alone.
pub record Grown (s t : ByteArray) : Type 0 where
  pub valid : IsValid t
  pub base : t.base_size ≡ s.base_size
  pub position : t.position ≡ s.position
  pub size : t.size ≡ s.size
  pub endian : t.endian ≡ s.endian
  pub larger : s.capacity ≤ t.capacity
  pub same_contents : contents t ≡ contents s

-- `memory` is `capacity` bytes long.
pub length-concat :
    (base : ℕ) (nodes : List (List ℕ))
    → All (IsFull base) nodes
    → length (concat nodes) ≡ base * length nodes
length-concat base [] f = omega arith
length-concat base (n ∷ rest) (fn, fr) =
    rw (length-append n (concat rest), length-concat base rest fr) (omega (arith, fn))

pub length-memory : (s : ByteArray) → IsValid s → length (memory s) ≡ s.capacity
length-memory s v =
    length-concat s.base_size (s.before ++ s.after)
      (All-append (IsFull s.base_size) s.before s.after v.full_before v.full_after)
    ∙ rw length-append (sym v.nodes)

contents_more :
    (s : ByteArray) (extra : List (List ℕ))
    → IsValid s
    → take s.size (concat ((s.before ++ s.after) ++ extra)) ≡ contents s
contents_more s extra v =
    rw (concat-append (s.before ++ s.after) extra) (
      take-append_le s.size (memory s) (concat extra) (omega (arith, length-memory s v, v.read_to)))

module _ (count : ℕ) (s : ByteArray) (v : IsValid s) where
  abbrev fresh : List (List ℕ)
  fresh = replicate count (new_node s.base_size)

  count_fresh : length fresh ≡ count
  count_fresh = length-replicate count (new_node s.base_size)

  nodes_more :
      s.capacity + count * s.base_size
      ≡ s.base_size * (length s.before + length s.after + length fresh)
  nodes_more = rw count_fresh (omega (arith, v.nodes))

  -- with no room left `m_cur` moves to the first new node
  add_nodes-at_end : s.position ≡ s.capacity → Grown s (add_nodes count s)
  unfolding add_nodes
  add_nodes-at_end full =
      let test : (s.capacity - s.position == 0) ≡ true = ground arith in
      rw test (record {
        valid = record {
          positive = v.positive;
          full_before = All-append (IsFull s.base_size) s.before s.after v.full_before v.full_after;
          full_after = All-replicate s.base_size count;
          nodes = rw length-append nodes_more;
          rooted = rw length-append (omega (arith, v.rooted));
          cur_from = rw length-append (omega arith);
          cur_to = rw length-append (omega arith);
          read_from = v.read_from;
          read_to = omega (arith, v.read_to);
        };
        base = refl;
        position = refl;
        size = refl;
        endian = refl;
        larger = omega arith;
        same_contents = contents_more s fresh v;
      })

  add_nodes-inside : s.position < s.capacity → Grown s (add_nodes count s)
  unfolding add_nodes
  add_nodes-inside room =
      let test : (s.capacity - s.position == 0) ≡ false = ground arith in
      rw test (record {
        valid = record {
          positive = v.positive;
          full_before = v.full_before;
          full_after =
              All-append (IsFull s.base_size) s.after fresh v.full_after
                (All-replicate s.base_size count);
          nodes = rw length-append (
              nodes_more
              ∙ ap (λ (t : ℕ). s.base_size * t)
                  (add_assoc (length s.before) (length s.after) (length fresh)));
          rooted = rw length-append (omega (arith, v.rooted));
          cur_from = v.cur_from;
          cur_to = v.cur_to;
          read_from = v.read_from;
          read_to = omega (arith, v.read_to);
        };
        base = refl;
        position = refl;
        size = refl;
        endian = refl;
        larger = omega arith;
        same_contents = rw (← append_assoc) (contents_more s fresh v);
      })

  add_nodes-Grown : Grown s (add_nodes count s)
  add_nodes-Grown = elim (dec_lt s.position s.capacity) [
    | yes room ↦ add_nodes-inside room
    | no full ↦ add_nodes-at_end (omega (arith, v.read_from, v.read_to))
  ]

  capacity-add_nodes : (add_nodes count s).capacity ≡ s.capacity + count * s.base_size
  unfolding add_nodes
  capacity-add_nodes = ground arith

Grown-refl : (s : ByteArray) → IsValid s → Grown s s
Grown-refl s v = record {
  valid = v;
  base = refl;
  position = refl;
  size = refl;
  endian = refl;
  larger = omega arith;
  same_contents = refl;
}

-- On a valid buffer addCapacity leaves a valid buffer with the same node size, position, size,
-- order and readable bytes, and at least the capacity from before.
pub add_capacity-Grown : (n : ℕ) (s : ByteArray) → IsValid s → Grown s (add_capacity n s)
unfolding add_capacity
add_capacity-Grown n s v = elim (Bool-cases (n == 0)) [
  | inl none_asked ↦ rw none_asked (Grown-refl s v)
  | inr asked ↦ elim (Bool-cases (leb n (s.capacity - s.position))) [
    | inl fits ↦ rw (asked, fits) (Grown-refl s v)
    | inr short ↦
        rw (asked, short) (add_nodes-Grown (node_count s.base_size n (s.capacity - s.position)) s v)
  ]
]

-- The bytes that are missing beyond the last node when `n` are asked for.
abbrev pub missing : ℕ → ByteArray → ℕ
missing n s = n - (s.capacity - s.position)

capacity-add_capacity :
    (n : ℕ) (s : ByteArray)
    → s.capacity - s.position < n
    → (add_capacity n s).capacity
      ≡ s.capacity + node_count s.base_size n (s.capacity - s.position) * s.base_size
unfolding add_capacity
capacity-add_capacity n s short =
    ground (arith, capacity-add_nodes (node_count s.base_size n (s.capacity - s.position)) s)

-- `addCapacity` rounds the missing bytes down to whole nodes, unless what is left over is more than
-- what the last node still has.
abbrev pub RoundsUp : ℕ → ByteArray → Type 0
RoundsUp n s =
    (missing n s % s.base_size ≡ 0) ⊎ (s.capacity - s.position < missing n s % s.base_size)

rounded_up :
    (base m old : ℕ)
    → 0 < base
    → (m % base ≡ 0) ⊎ (old < m % base)
    → m ≤ (m / base + (if ltb old (m % base) then 1 else 0)) * base
rounded_up base m old h (inl even) = omega (arith, div-add-mod m base, mul_comm (m / base) base)
rounded_up base m old h (inr more) =
    let test : ltb old (m % base) ≡ true = lt→ltb old (m % base) more in
    rw test (omega (arith, div-add-mod m base, mul_comm (m / base) base, mod-lt m h))

rounded_down :
    (base m old : ℕ)
    → 0 < m % base
    → m % base ≤ old
    → (m / base + (if ltb old (m % base) then 1 else 0)) * base < m
rounded_down base m old h le =
    let test : ltb old (m % base) ≡ false = ground arith in
    rw test (omega (arith, div-add-mod m base, mul_comm (m / base) base))

pub add_capacity-enough :
    (n : ℕ) (s : ByteArray)
    → IsValid s
    → RoundsUp n s
    → s.position + n ≤ (add_capacity n s).capacity
unfolding node_count
add_capacity-enough n s v r = elim (dec_lt (s.capacity - s.position) n) [
  | yes short ↦
      rw (capacity-add_capacity n s short)
        (omega (arith, rounded_up s.base_size (missing n s) (s.capacity - s.position) v.positive r))
  | no fits ↦ omega (arith, add_capacity-Grown n s v)
]

pub add_capacity-short :
    (n : ℕ) (s : ByteArray)
    → IsValid s
    → 0 < missing n s % s.base_size
    → missing n s % s.base_size ≤ s.capacity - s.position
    → (add_capacity n s).capacity < s.position + n
unfolding node_count
add_capacity-short n s v h le = elim (dec_lt (s.capacity - s.position) n) [
  | yes short ↦
      rw (capacity-add_capacity n s short)
        (omega (arith, rounded_down s.base_size (missing n s) (s.capacity - s.position) h le))
  | no fits ↦ absurd (omega arith)
]
