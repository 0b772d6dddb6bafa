-- ===== src/ByteArray/Seek.antt =====
-- `ByteArray::setPosition` and `clear` of cxk/bytearray.cpp.
use cxkframework.Prelude.{
  ℕ, zero, suc, none, take, ◌%◌, leb, ◌+◌, ◌-◌, ◌*◌, ◌≤◌, ◌<◌, ◌≡◌, refl, sym, ap, ◌∙◌, false, some,
  List, [], ◌∷◌, ◌++◌, max, ltb, ◌==◌, if◌then◌else◌, arith, length, concat, All, inl, inr,
  Bool-cases, lt→ltb, length-append, All-append, All-split, dec_lt,
}
use cxkframework.ByteArray.{
  ByteArray, ok, throws, Node, Walk, seek_loop, set_position, clear, get_read_size, read, read_loop,
  read_from, after_read, fault,
}
use cxkframework.ByteArray.Invariant.{IsValid, IsFull, memory}

record Found (base v : ℕ) (nodes : List Node) (w : Walk) : Type 0 where
  same_nodes : w.passed ++ w.rest ≡ nodes
  cur_from : base * length w.passed ≤ v
  cur_to : v < base * length w.passed + base

seek_loop_lem :
    (base v : ℕ) (nodes : List Node)
    → All (IsFull base) nodes
    → 0 < base
    → 0 < length nodes
    → v ≤ base * length nodes
    → (w : Walk) × (seek_loop nodes v ≡ some w) × Found base v nodes w
unfolding seek_loop
seek_loop_lem base v [] f hb some_node le = absurd (omega arith)
seek_loop_lem base v (n ∷ rest) (fn, fr) hb some_node le = elim (dec_lt (length n) v) [
  | yes more ↦ step more (seek_loop_lem base (v - length n) rest fr hb (grind arith) (omega arith))
  | no here ↦ elim (Bool-cases (v == length n)) [
    | inl at_end ↦ (
      record { bytes = []; passed = n ∷ []; rest = rest },
      ground arith,
      record { same_nodes = refl; cur_from = ground arith; cur_to = ground arith },
    )
    | inr inside ↦ (
      record { bytes = []; passed = []; rest = n ∷ rest },
      ground arith,
      record { same_nodes = refl; cur_from = omega arith; cur_to = ground arith },
    )
  ]
]
  where
    step :
        length n < v
        → ((w : Walk) × (seek_loop rest (v - length n) ≡ some w) × Found base (v - length n) rest w)
        → (w : Walk) × (seek_loop (n ∷ rest) v ≡ some w) × Found base v (n ∷ rest) w
    step more (w, e, f) = (
      record w { passed = n ∷ w.passed },
      rw (lt→ltb _ _ more, e),
      record {
        same_nodes = ap (◌∷◌ n) f.same_nodes;
        cur_from = omega (arith, f.cur_from);
        cur_to = omega (arith, f.cur_to);
      },
    )

-- What a successful `setPosition(p)` leaves behind.
pub record Moved (p : ℕ) (s t : ByteArray) : Type 0 where
  pub valid : IsValid t
  pub base : t.base_size ≡ s.base_size
  pub position : t.position ≡ p
  pub size : t.size ≡ max s.size p
  pub endian : t.endian ≡ s.endian
  pub same_memory : memory t ≡ memory s

-- On a valid buffer setPosition(p) with p at most the capacity returns normally; the buffer stays
-- valid with m_cur at the node of p, the position is p, the size grows to p if p is larger, and the
-- nodes, their bytes, the node size and the order stay.
pub set_position_lem :
    (p : ℕ) (s : ByteArray)
    → IsValid s
    → p ≤ s.capacity
    → (t : ByteArray) × (set_position p s ≡ ok tt t) × Moved p s t
unfolding set_position
set_position_lem p s v le = finish (
    seek_loop_lem s.base_size p (s.before ++ s.after) full v.positive (rw length-append v.rooted)
      (rw length-append (omega (arith, v.nodes))))
  where
    full : All (IsFull s.base_size) (s.before ++ s.after)
    full = All-append (IsFull s.base_size) s.before s.after v.full_before v.full_after

    finish :
        ((w : Walk) × (seek_loop (s.before ++ s.after) p ≡ some w)
          × Found s.base_size p (s.before ++ s.after) w)
        → (t : ByteArray) × (set_position p s ≡ ok tt t) × Moved p s t
    finish (w, e, f) =
        let inside : ltb s.capacity p ≡ false = ground arith in
        let larger : (if ltb s.size p then p else s.size) ≡ max s.size p = ground arith in
        let parts = All-split (IsFull s.base_size) w.passed w.rest (rw f.same_nodes full) in
        let counted : length s.before + length s.after ≡ length w.passed + length w.rest =
          sym (length-append s.before s.after)
          ∙ ap (length {A = Node}) (sym f.same_nodes)
          ∙ length-append w.passed w.rest in
        (
          record s { position = p; size = max s.size p; before = w.passed; after = w.rest },
          rw (inside, e, larger),
          record {
            valid = record {
              positive = v.positive;
              full_before = parts.0;
              full_after = parts.1;
              nodes = v.nodes ∙ ap (λ (t : ℕ). s.base_size * t) counted;
              rooted = omega (arith, counted, v.rooted);
              cur_from = f.cur_from;
              cur_to = f.cur_to;
              read_from = omega arith;
              read_to = omega (arith, v.read_to);
            };
            base = refl;
            position = refl;
            size = refl;
            endian = refl;
            same_memory = ap concat f.same_nodes;
          },
        )

pub set_position-throws : (p : ℕ) (s : ByteArray) → s.capacity < p → set_position p s ≡ throws s
unfolding set_position
set_position-throws p s h = rw (lt→ltb _ _ h)

-- `clear` puts the position to 0 and leaves `m_size`: all that was readable still counts as readable,
-- although the nodes behind the first are gone.
pub clear-keeps_size : (s : ByteArray) → get_read_size (clear s) ≡ s.size
unfolding clear get_read_size
clear-keeps_size s = omega arith

first_node :
    (base : ℕ) (ns : List Node)
    → 0 < length ns
    → All (IsFull base) ns
    → (root : Node) × (take 1 ns ≡ root ∷ []) × (length root ≡ base)
first_node base [] h f = absurd (omega arith)
first_node base (n ∷ ns) h f = (n, refl, f.0)

read_loop_empty : (ncap m : ℕ) → 0 < m → read_loop [] 0 ncap m ≡ none
unfolding read_loop
read_loop_empty ncap zero h = absurd (omega arith)
read_loop_empty ncap (suc m) h = refl

read_loop_short :
    (root : Node) (k : ℕ) → length root < k → read_loop (root ∷ []) 0 (length root) k ≡ none
unfolding read_loop
read_loop_short root zero l = absurd (omega arith)
read_loop_short root (suc k) l =
    let more : leb (suc k) (length root) ≡ false = ground arith in
    rw more (rw (read_loop_empty (length root) (suc k - length root) (omega arith)) refl)

-- On a valid buffer, after clear, a read of n bytes, where n is at most the size before clear and
-- more than one node has, does not throw std::out_of_range: it walks off the one node that is left,
-- through a null pointer.
pub read-clear :
    (n : ℕ) (s : ByteArray) → IsValid s → s.base_size < n → n ≤ s.size → read n (clear s) ≡ fault
unfolding read clear get_read_size read_from after_read
read-clear n s v more less =
    let (root, one, full) =
      first_node s.base_size (s.before ++ s.after)
        (omega (arith, v.rooted, length-append s.before s.after))
        (All-append (IsFull s.base_size) s.before s.after v.full_before v.full_after) in
    let readable : ltb (s.size - 0) n ≡ false = ground arith in
    let start : 0 % s.base_size ≡ 0 = omega (arith, v.positive) in
    let all : length root - 0 ≡ length root = omega arith in
    rw readable (rw one (rw start (rw all (rw (read_loop_short root n (omega arith)) refl))))
