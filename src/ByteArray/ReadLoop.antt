-- ===== src/ByteArray/ReadLoop.antt =====
-- The loop of `ByteArray::read` (cxk/bytearray.cpp) against one flat list of bytes.
use cxkframework.Prelude.{
  ℕ, zero, suc, ◌+◌, ◌-◌, ◌*◌, ◌≤◌, ◌<◌, ◌≡◌, ◌⊎◌, inl, inr, refl, sym, ap, ◌∙◌, false, some, List,
  [], ◌∷◌, ◌++◌, leb, ◌==◌, arith, length, concat, All, Bool-cases, dec_lt,
}
use cxkframework.ByteArray.{Node, Walk, pass, slice, read_loop}
use cxkframework.ByteArray.Invariant.{IsFull}
use cxkframework.ByteArray.Splice.{slice-append_in, slice-append_across}

-- What `read_loop` leaves: the bytes from `npos` on, the nodes as they were, `m_cur` moved on.
pub record Passed (base npos k : ℕ) (nodes : List Node) (w : Walk) : Type 0 where
  pub bytes_read : w.bytes ≡ slice (concat nodes) npos k
  pub same_nodes : w.passed ++ w.rest ≡ nodes
  pub cur_from : base * length w.passed ≤ npos + k
  pub cur_to : npos + k < base * length w.passed + base

read_loop_last :
    (base npos ncap k : ℕ) (n : Node) (rest : List Node)
    → IsFull base n
    → npos + ncap ≤ base
    → 0 < k
    → k ≤ ncap
    → (w : Walk) × (read_loop (n ∷ rest) npos ncap k ≡ some w) × Passed base npos k (n ∷ rest) w
unfolding read_loop
read_loop_last base npos ncap zero n rest fn hp pos le = absurd (omega arith)
read_loop_last base npos ncap (suc k) n rest fn hp pos le =
    let in_node : slice (n ++ concat rest) npos (suc k) ≡ slice n npos (suc k) =
      slice-append_in n (concat rest) npos (suc k) (omega arith) in
    elim (Bool-cases (length n == npos + suc k)) [
      | inl e ↦ (
        record { bytes = slice n npos (suc k); passed = n ∷ []; rest = rest },
        ground arith,
        record {
          bytes_read = sym in_node;
          same_nodes = refl;
          cur_from = ground arith;
          cur_to = ground arith;
        },
      )
      | inr e ↦ (
        record { bytes = slice n npos (suc k); passed = []; rest = n ∷ rest },
        ground arith,
        record {
          bytes_read = sym in_node;
          same_nodes = refl;
          cur_from = omega arith;
          cur_to = ground arith;
        },
      )
    ]

read_loop_step :
    (n : Node) (rest : List Node) (npos ncap k : ℕ)
    → leb (suc k) ncap ≡ false
    → read_loop (n ∷ rest) npos ncap (suc k)
      ≡ pass n (slice n npos ncap) (read_loop rest 0 ncap (suc k - ncap))
unfolding read_loop
read_loop_step n rest npos ncap k h = rw h

read_loop_across :
    (base npos ncap k : ℕ) (n : Node) (rest : List Node)
    → IsFull base n
    → npos + ncap ≡ base
    → ncap < suc k
    → ((w : Walk) × (read_loop rest 0 ncap (suc k - ncap) ≡ some w)
        × Passed base 0 (suc k - ncap) rest w)
    → (w : Walk) × (read_loop (n ∷ rest) npos ncap (suc k) ≡ some w)
      × Passed base npos (suc k) (n ∷ rest) w
read_loop_across base npos ncap k n rest fn split more (w, e, v) = (
  record { bytes = slice n npos ncap ++ w.bytes; passed = n ∷ w.passed; rest = w.rest },
  read_loop_step n rest npos ncap k (ground arith) ∙ rw e,
  record {
    bytes_read =
        ap (λ (t : List ℕ). slice n npos ncap ++ t) v.bytes_read
        ∙ sym (slice-append_across n (concat rest) npos ncap (suc k) (omega arith) (omega arith));
    same_nodes = ap (◌∷◌ n) v.same_nodes;
    cur_from = omega (arith, v.cur_from);
    cur_to = omega (arith, v.cur_to);
  },
)

-- From the front of a node the loop reads on to the end.
read_loop_front :
    (base k : ℕ) (nodes : List Node)
    → All (IsFull base) nodes
    → 0 < base
    → 0 < k
    → k ≤ base * length nodes
    → (w : Walk) × (read_loop nodes 0 base k ≡ some w) × Passed base 0 k nodes w
read_loop_front base k [] f hb pos room = absurd (omega arith)
read_loop_front base zero (n ∷ rest) f hb pos room = absurd (omega arith)
read_loop_front base (suc k) (n ∷ rest) (fn, fr) hb pos room = elim (dec_lt base (suc k)) [
  | yes more ↦
      read_loop_across base 0 base k n rest fn (omega arith) more
        (read_loop_front base (suc k - base) rest fr hb (omega arith) (omega arith))
  | no fits ↦ read_loop_last base 0 base (suc k) n rest fn (omega arith) pos (omega arith)
]

-- The second node after a start inside the first one.
read_loop_second :
    (base ncap k : ℕ) (nodes : List Node)
    → All (IsFull base) nodes
    → ncap ≤ base
    → 0 < k
    → k ≤ ncap
    → k ≤ base * length nodes
    → (w : Walk) × (read_loop nodes 0 ncap k ≡ some w) × Passed base 0 k nodes w
read_loop_second base ncap k [] f hn pos le room = absurd (omega arith)
read_loop_second base ncap k (n ∷ rest) (fn, fr) hn pos le room =
    read_loop_last base 0 ncap k n rest fn (omega arith) pos le

read_loop_near :
    (base npos ncap k : ℕ) (nodes : List Node)
    → All (IsFull base) nodes
    → npos + ncap ≡ base
    → 0 < k
    → npos + k ≤ base * length nodes
    → k ≤ ncap + ncap
    → (w : Walk) × (read_loop nodes npos ncap k ≡ some w) × Passed base npos k nodes w
read_loop_near base npos ncap k [] f split pos room near = absurd (omega arith)
read_loop_near base npos ncap zero (n ∷ rest) f split pos room near = absurd (omega arith)
read_loop_near base npos ncap (suc k) (n ∷ rest) (fn, fr) split pos room near =
    elim (dec_lt ncap (suc k)) [
      | yes more ↦ read_loop_across base npos ncap k n rest fn split more (
          read_loop_second base ncap (suc k - ncap) rest fr (omega arith) (omega arith)
            (omega arith) (omega arith))
      | no fits ↦ read_loop_last base npos ncap (suc k) n rest fn (omega arith) pos (omega arith)
    ]

-- `ncap` is not renewed at the next node: the loop reads the right bytes if it starts at the front
-- of a node, or needs at most as much of the second node as of the first.
pub read_loop_lem :
    (base npos ncap k : ℕ) (nodes : List Node)
    → All (IsFull base) nodes
    → npos < base
    → npos + ncap ≡ base
    → 0 < k
    → npos + k ≤ base * length nodes
    → (npos ≡ 0) ⊎ (k ≤ ncap + ncap)
    → (w : Walk) × (read_loop nodes npos ncap k ≡ some w) × Passed base npos k nodes w
read_loop_lem base npos ncap k nodes f hp split pos room (inl front) =
    let same : ncap ≡ base = omega arith in
    rw (front, same) (read_loop_front base k nodes f (omega arith) pos (omega arith))
read_loop_lem base npos ncap k nodes f hp split pos room (inr near) =
    read_loop_near base npos ncap k nodes f split pos room near

read_loop_inside :
    (npos ncap k : ℕ) (n : Node) (rest : List Node)
    → 0 < k
    → k ≤ ncap
    → (w : Walk) × (read_loop (n ∷ rest) npos ncap k ≡ some w) × (w.bytes ≡ slice n npos k)
unfolding read_loop
read_loop_inside npos ncap zero n rest pos le = absurd (omega arith)
read_loop_inside npos ncap (suc k) n rest pos le = elim (Bool-cases (length n == npos + suc k)) [
  | inl e ↦
      (record { bytes = slice n npos (suc k); passed = n ∷ []; rest = rest }, ground arith, refl)
  | inr e ↦
      (record { bytes = slice n npos (suc k); passed = []; rest = n ∷ rest }, ground arith, refl)
]

read_loop_past :
    (npos ncap k : ℕ) (n : Node) (rest : List Node) (bs : List ℕ)
    → ncap < k
    → ((w : Walk) × (read_loop rest 0 ncap (k - ncap) ≡ some w) × (w.bytes ≡ bs))
    → (w : Walk) × (read_loop (n ∷ rest) npos ncap k ≡ some w) × (w.bytes ≡ slice n npos ncap ++ bs)
read_loop_past npos ncap zero n rest bs more r = absurd (omega arith)
read_loop_past npos ncap (suc k) n rest bs more (w, e, b) = (
  record w { bytes = slice n npos ncap ++ w.bytes; passed = n ∷ w.passed },
  read_loop_step n rest npos ncap k (ground arith) ∙ rw e,
  ap (λ (t : List ℕ). slice n npos ncap ++ t) b,
)

-- Over three nodes the loop takes `ncap` bytes from the first two each, however long the second is.
pub read_loop_skips :
    (npos ncap k : ℕ) (m₁ m₂ m₃ : Node) (rest : List Node)
    → ncap + ncap < k
    → k ≤ ncap + ncap + ncap
    → (w : Walk) × (read_loop (m₁ ∷ m₂ ∷ m₃ ∷ rest) npos ncap k ≡ some w)
      × (w.bytes ≡ slice m₁ npos ncap ++ (slice m₂ 0 ncap ++ slice m₃ 0 (k - ncap - ncap)))
read_loop_skips npos ncap k m₁ m₂ m₃ rest lo hi =
    read_loop_past npos ncap k m₁ (m₂ ∷ m₃ ∷ rest) _ (omega arith) (
      read_loop_past 0 ncap (k - ncap) m₂ (m₃ ∷ rest) _ (omega arith)
        (read_loop_inside 0 ncap (k - ncap - ncap) m₃ rest (omega arith) (omega arith)))
