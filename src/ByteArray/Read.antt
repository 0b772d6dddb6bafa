-- ===== src/ByteArray/Read.antt =====
-- `ByteArray::read` of cxk/bytearray.cpp against the bytes that the buffer holds.
use cxkframework.Prelude.{
  ℕ, ◌+◌, ◌-◌, ◌*◌, ◌%◌, ◌≤◌, ◌<◌, ◌≡◌, refl, sym, ap, ◌∙◌, true, false, some, List, [], ◌∷◌, ◌++◌,
  append_assoc, ltb, arith, length, concat, All, All-append, All-split, take, length-append,
  length-take, concat-append, drop-append, ◌⊎◌, take-append-drop, drop,
}
use cxkframework.ByteArray.{ByteArray, ok, throws, Node, Walk, slice, read_loop, read}
use cxkframework.ByteArray.Invariant.{IsValid, IsFull, memory, contents}
use cxkframework.ByteArray.Grow.{length-concat, length-memory}
use cxkframework.ByteArray.Splice.{slice-append_in}
use cxkframework.ByteArray.ReadLoop.{Passed, read_loop_lem, read_loop_skips}
use cxkframework.ByteArray.Write.{position-mod}

-- The loop of `read` does not renew `ncap` at the second node; it reads right where it starts at the
-- front of a node or takes at most as much again as the first node still has.
abbrev pub InReach : ℕ → ByteArray → Type 0
InReach n s =
    (s.position % s.base_size ≡ 0)
    ⊎ (n ≤ (s.base_size - s.position % s.base_size) + (s.base_size - s.position % s.base_size))

-- What a `read` of `n` bytes leaves behind.
pub record DidRead (n : ℕ) (s t : ByteArray) : Type 0 where
  pub valid : IsValid t
  pub base : t.base_size ≡ s.base_size
  pub position : t.position ≡ s.position + n
  pub size : t.size ≡ s.size
  pub endian : t.endian ≡ s.endian
  pub same_contents : contents t ≡ contents s

slice-append_after :
    (xs ys : List ℕ) (p q k : ℕ) → q ≡ length xs + p → slice (xs ++ ys) q k ≡ slice ys p k
unfolding slice
slice-append_after xs ys p q k h = rw (drop-append q p xs ys h)

slice-contents :
    (s : ByteArray) (n : ℕ)
    → IsValid s
    → s.position + n ≤ s.size
    → slice (memory s) s.position n ≡ slice (contents s) s.position n
slice-contents s n v h =
    let whole : contents s ++ drop s.size (memory s) ≡ memory s =
      take-append-drop s.size (memory s) in
    let len : length (contents s) ≡ s.size =
      rw length-take (omega (arith, length-memory s v, v.read_to)) in
    ap (λ (t : List ℕ). slice t s.position n) (sym whole)
    ∙ slice-append_in (contents s) (drop s.size (memory s)) s.position n (omega (arith, len))

cons_of_pos : (l : List Node) → 0 < length l → (m : Node) × (rest : List Node) × (l ≡ m ∷ rest)
cons_of_pos [] h = absurd (omega arith)
cons_of_pos (m ∷ rest) h = (m, rest, refl)

module _ (n : ℕ) (s : ByteArray) (v : IsValid s) (fits : s.position + n ≤ s.size) where
  abbrev npos : ℕ
  npos = s.position - s.base_size * length s.before

  abbrev moved : Walk → ByteArray
  moved w = record s { position = s.position + n; before = s.before ++ w.passed; after = w.rest }

  read-walk :
      (w : Walk) (m : Node) (rest : List Node)
      → s.after ≡ m ∷ rest
      → length m ≡ s.base_size
      → read_loop (m ∷ rest) npos (s.base_size - npos) n ≡ some w
      → read n s ≡ ok w.bytes (moved w)
  unfolding read
  read-walk w m rest here full e =
      let enough : ltb (s.size - s.position) n ≡ false = ground arith in
      rw (enough, here, position-mod s v, full, e)

  read-bytes :
      (w : Walk) → Passed s.base_size npos n s.after w → w.bytes ≡ slice (contents s) s.position n
  read-bytes w p =
      let front : length (concat s.before) ≡ s.base_size * length s.before =
        length-concat s.base_size s.before v.full_before in
      p.bytes_read
      ∙ sym (
          slice-append_after (concat s.before) (concat s.after) npos s.position n
            (omega (arith, front, v.cur_from)))
      ∙ ap (λ (t : List ℕ). slice t s.position n) (sym (concat-append s.before s.after))
      ∙ slice-contents s n v fits

  moved-DidRead : (w : Walk) → Passed s.base_size npos n s.after w → DidRead n s (moved w)
  moved-DidRead w p =
      let same : (s.before ++ w.passed) ++ w.rest ≡ s.before ++ s.after =
        append_assoc s.before w.passed w.rest
        ∙ ap (λ (t : List Node). s.before ++ t) p.same_nodes in
      record {
        valid = record {
          positive = v.positive;
          full_before =
              All-append (IsFull s.base_size) s.before w.passed v.full_before (full_nodes p).0;
          full_after = (full_nodes p).1;
          nodes = rw length-append (v.nodes ∙ ap (λ (t : ℕ). s.base_size * t) (counted p));
          rooted = rw length-append (omega (arith, counted p, v.rooted));
          cur_from = rw length-append (omega (arith, p.cur_from, v.cur_from));
          cur_to = rw length-append (omega (arith, p.cur_to, v.cur_from));
          read_from = fits;
          read_to = v.read_to;
        };
        base = refl;
        position = refl;
        size = refl;
        endian = refl;
        same_contents = ap (λ (t : List Node). take s.size (concat t)) same;
      }
    where
      full_nodes :
          Passed s.base_size npos n s.after w
          → All (IsFull s.base_size) w.passed × All (IsFull s.base_size) w.rest
      full_nodes q = All-split (IsFull s.base_size) w.passed w.rest (rw q.same_nodes v.full_after)

      counted :
          Passed s.base_size npos n s.after w
          → length s.before + length s.after ≡ length s.before + length w.passed + length w.rest
      counted q = omega (arith, ap (length {A = Node}) q.same_nodes, length-append w.passed w.rest)

  read_some :
      0 < n
      → InReach n s
      → (t : ByteArray) × (read n s ≡ ok (slice (contents s) s.position n) t) × DidRead n s t
  read_some pos reach =
      let nodes_left : 0 < length s.after = grind (arith, v.nodes, v.read_to, v.cur_from) in
      finish (cons_of_pos s.after nodes_left) (
        read_loop_lem s.base_size npos (s.base_size - npos) n s.after v.full_after
          (omega (arith, v.cur_to, v.positive, v.cur_from)) (omega (arith, v.cur_to, v.cur_from))
          pos (omega (arith, v.nodes, v.read_to, v.cur_from)) (rw (position-mod s v) at reach))
    where
      finish :
          ((m : Node) × (rest : List Node) × (s.after ≡ m ∷ rest))
          → ((w : Walk) × (read_loop s.after npos (s.base_size - npos) n ≡ some w)
              × Passed s.base_size npos n s.after w)
          → (t : ByteArray) × (read n s ≡ ok (slice (contents s) s.position n) t) × DidRead n s t
      finish (m, rest, here) (w, e, p) =
          let d = moved-DidRead w p in
          (
            moved w,
            read-walk w m rest here (rw here at v.full_after).0 (rw here at e)
                ∙ ap (λ (bs : List ℕ). ok bs (moved w)) (read-bytes w p),
            d,
          )

-- On a valid buffer with at least n > 0 bytes left, where the position is the front of a node or n
-- is at most twice what the current node still has, read returns the n readable bytes from the
-- position on; the buffer stays valid, the position moves by n, and size, order, node size and
-- readable bytes stay.
pub read_lem :
    (n : ℕ) (s : ByteArray)
    → IsValid s
    → 0 < n
    → s.position + n ≤ s.size
    → InReach n s
    → (t : ByteArray) × (read n s ≡ ok (slice (contents s) s.position n) t) × DidRead n s t
read_lem n s v pos fits reach = read_some n s v fits pos reach

-- With too few it throws and leaves the buffer alone.
pub read-throws :
    (n : ℕ) (s : ByteArray) → IsValid s → s.size < s.position + n → read n s ≡ throws s
unfolding read
read-throws n s v short = let test : ltb (s.size - s.position) n ≡ true = ground arith in rw test

-- the bytes that `m_cur` still has from `m_position` on
abbrev pub left_in_node : ByteArray → ℕ
left_in_node s = s.base_size - s.position % s.base_size

-- On a valid buffer with n bytes left, where n is more than twice and at most three times what the
-- current node still has, read returns that many bytes of the current node, as many from the front
-- of the next node, and the rest from the front of the node after that: the later bytes of the
-- middle node are left out.
pub read_skips :
    (n : ℕ) (s : ByteArray) (m₁ m₂ m₃ : Node) (rest : List Node)
    → IsValid s
    → s.after ≡ m₁ ∷ m₂ ∷ m₃ ∷ rest
    → s.position + n ≤ s.size
    → left_in_node s + left_in_node s < n
    → n ≤ left_in_node s + left_in_node s + left_in_node s
    → (t : ByteArray) × (read n s
        ≡ ok
            (slice m₁ (s.position % s.base_size) (left_in_node s)
              ++ (slice m₂ 0 (left_in_node s) ++ slice m₃ 0 (n - left_in_node s - left_in_node s)))
            t)
read_skips n s m₁ m₂ m₃ rest v here fits lo hi =
    finish (read_loop_skips (s.position % s.base_size) (left_in_node s) n m₁ m₂ m₃ rest lo hi)
  where
    skipped : List ℕ
    skipped =
        slice m₁ (s.position % s.base_size) (left_in_node s)
        ++ (slice m₂ 0 (left_in_node s) ++ slice m₃ 0 (n - left_in_node s - left_in_node s))

    finish :
        ((w : Walk) × (read_loop (m₁ ∷ m₂ ∷ m₃ ∷ rest) (s.position % s.base_size) (left_in_node s) n
            ≡ some w)
          × (w.bytes ≡ skipped))
        → (t : ByteArray) × (read n s ≡ ok skipped t)
    finish (w, e, b) =
        let walk : read_loop (m₁ ∷ m₂ ∷ m₃ ∷ rest) npos' (s.base_size - npos') n ≡ some w =
          rw (position-mod s v) at e in
        (
          record s { position = s.position + n; before = s.before ++ w.passed; after = w.rest },
          read-walk n s v fits w m₁ (m₂ ∷ m₃ ∷ rest) here (rw here at v.full_after).0 walk
              ∙ ap
                  (λ (bs : List ℕ). ok bs (record s {
                    position = s.position + n;
                    before = s.before ++ w.passed;
                    after = w.rest;
                  }))
                  b,
        )
      where
        npos' : ℕ
        npos' = s.position - s.base_size * length s.before
