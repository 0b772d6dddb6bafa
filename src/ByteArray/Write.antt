-- ===== src/ByteArray/Write.antt =====
-- `ByteArray::write` of cxk/bytearray.cpp against the bytes that the buffer holds.
use cxkframework.Prelude.{
  ℕ, ◌+◌, ◌-◌, ◌*◌, ◌%◌, ◌≤◌, ◌<◌, ◌≡◌, refl, sym, ap, ◌∙◌, false, some, List, [], ◌∷◌, ◌++◌, max,
  append_assoc, ltb, ◌==◌, if◌then◌else◌, arith, length, concat, take, length-append, All-append,
  concat-append,
}
use native.Mathlib.Nat.{mul-add-mod_self_left, mod-eq_of_lt}
use cxkframework.ByteArray.{
  ByteArray, ok, fault, Walk, add_capacity, overwrite, node_size, write_loop, write_from, write,
}
use cxkframework.ByteArray.Invariant.{IsValid, IsFull, memory, contents}
use cxkframework.ByteArray.Grow.{
  Grown, RoundsUp, missing, length-memory, length-concat, add_capacity-Grown, add_capacity-enough,
  add_capacity-short,
}
use cxkframework.ByteArray.Splice.{overwrite-nil, overwrite-append_after, take-overwrite}
use cxkframework.ByteArray.WriteLoop.{Written, size_of_full, write_loop_lem, write_loop-none}

-- The place of `m_position` in its node.
pub position-mod :
    (s : ByteArray)
    → IsValid s
    → s.position % s.base_size ≡ s.position - s.base_size * length s.before
position-mod s v =
    let off : s.position
        ≡ s.base_size * length s.before + (s.position - s.base_size * length s.before) =
      omega (arith, v.cur_from) in
    ap (λ (t : ℕ). t % s.base_size) off
    ∙ mul-add-mod_self_left s.base_size (length s.before) _
    ∙ mod-eq_of_lt (omega (arith, v.cur_to, v.positive))

-- What a successful `write` of `bytes` at `m_position` leaves behind.
pub record Wrote (bytes : List ℕ) (s t : ByteArray) : Type 0 where
  pub valid : IsValid t
  pub base : t.base_size ≡ s.base_size
  pub position : t.position ≡ s.position + length bytes
  pub size : t.size ≡ max s.size (s.position + length bytes)
  pub endian : t.endian ≡ s.endian
  pub same_contents : contents t ≡ overwrite (contents s) s.position bytes

module _ (bytes : List ℕ) (s : ByteArray) (v : IsValid s) where
  abbrev npos : ℕ
  npos = s.position - s.base_size * length s.before

  abbrev written : Walk → ByteArray
  written w = record s {
    position = s.position + length bytes;
    size = max s.size (s.position + length bytes);
    before = s.before ++ w.passed;
    after = w.rest;
  }

  larger_size : (a b : ℕ) → (if ltb a b then b else a) ≡ max a b
  larger_size a b = ground arith

  write_from-walk :
      (w : Walk)
      → node_size s.after ≡ s.base_size
      → write_loop s.after npos (s.base_size - npos) bytes ≡ some w
      → write_from bytes s ≡ ok tt (written w)
  unfolding write_from
  write_from-walk w full e = rw (position-mod s v, full, e, larger_size)

  module _ (w : Walk) (wr : Written s.base_size npos bytes s.after w)
      (room : s.position + length bytes ≤ s.capacity) where
    memory-written : memory (written w) ≡ overwrite (memory s) s.position bytes
    memory-written =
        let front : length (concat s.before) ≡ s.base_size * length s.before =
          length-concat s.base_size s.before v.full_before in
        rw
          (
            append_assoc s.before w.passed w.rest,
            concat-append s.before (w.passed ++ w.rest),
            wr.bytes_written,
            concat-append s.before s.after,
          )
          (sym (
            overwrite-append_after (concat s.before) (concat s.after) npos s.position bytes
              (omega (arith, front, v.cur_from))))

    written-Wrote : Wrote bytes s (written w)
    written-Wrote = record {
      valid = record {
        positive = v.positive;
        full_before =
            All-append (IsFull s.base_size) s.before w.passed v.full_before wr.full_passed;
        full_after = wr.full_rest;
        nodes =
            rw length-append (v.nodes ∙ ap (λ (t : ℕ). s.base_size * t) (omega (arith, wr.kept)));
        rooted = rw length-append (omega (arith, wr.kept, v.rooted));
        cur_from = rw length-append (omega (arith, wr.cur_from, v.cur_from));
        cur_to = rw length-append (omega (arith, wr.cur_to, v.cur_from));
        read_from = omega arith;
        read_to = omega (arith, v.read_to);
      };
      base = refl;
      position = refl;
      size = refl;
      endian = refl;
      same_contents =
          ap (λ (t : List ℕ). take (max s.size (s.position + length bytes)) t) memory-written
          ∙ take-overwrite (memory s) s.size s.position bytes v.read_from
              (omega (arith, length-memory s v, v.read_to));
    }

  -- `write` where the nodes hold the bytes.
  write_from_lem :
      s.position + length bytes ≤ s.capacity
      → 0 < length bytes
      → (t : ByteArray) × (write_from bytes s ≡ ok tt t) × Wrote bytes s t
  write_from_lem room pos =
      let nodes_left : 0 < length s.after = grind (arith, v.nodes) in
      finish
        (write_loop_lem s.base_size npos bytes s.after v.full_after
          (omega (arith, v.cur_to, v.positive, v.cur_from)) (omega (arith, v.nodes, v.cur_from))
          pos)
        (size_of_full s.base_size s.after v.full_after nodes_left)
    where
      finish :
          ((w : Walk) × (write_loop s.after npos (s.base_size - npos) bytes ≡ some w)
            × Written s.base_size npos bytes s.after w)
          → node_size s.after ≡ s.base_size
          → (t : ByteArray) × (write_from bytes s ≡ ok tt t) × Wrote bytes s t
      finish (w, e, wr) full = (written w, write_from-walk w full e, written-Wrote w wr room)

  write_from-none :
      s.capacity < s.position + length bytes → 0 < length bytes → write_from bytes s ≡ fault
  unfolding write_from
  write_from-none short pos = rw (position-mod s v) (
      rw
        (write_loop-none s.base_size npos bytes s.after v.full_after
          (omega (arith, v.cur_to, v.positive, v.cur_from)) (omega (arith, v.nodes, v.cur_from))
          pos)
        refl)

write-write_from :
    (b : ℕ) (bs : List ℕ) (s : ByteArray)
    → write (b ∷ bs) s ≡ write_from (b ∷ bs) (add_capacity (length (b ∷ bs)) s)
unfolding write
write-write_from b bs s = let test : (length (b ∷ bs) == 0) ≡ false = ground arith in rw test

-- On a valid buffer, where the bytes that are missing beyond the last node are a whole number of
-- nodes or leave a rest larger than what the last node still has, write returns normally; the
-- buffer stays valid, the position moves by the number of bytes, the size grows to the new position
-- if that is larger, the order and the node size stay, and the readable bytes are the old ones
-- overwritten from the old position on.
pub write_lem :
    (bytes : List ℕ) (s : ByteArray)
    → IsValid s
    → RoundsUp (length bytes) s
    → (t : ByteArray) × (write bytes s ≡ ok tt t) × Wrote bytes s t
write_lem [] s v r = (
  s,
  unfold write in refl,
  record {
    valid = v;
    base = refl;
    position = omega arith;
    size = omega (arith, v.read_from);
    endian = refl;
    same_contents = sym (overwrite-nil (contents s) s.position);
  },
)
write_lem (b ∷ bs) s v r = rw write-write_from (
    finish (add_capacity (length (b ∷ bs)) s) (add_capacity-Grown (length (b ∷ bs)) s v)
      (add_capacity-enough (length (b ∷ bs)) s v r))
  where
    moved : (g t : ByteArray) → Grown s g → Wrote (b ∷ bs) g t → Wrote (b ∷ bs) s t
    moved g t gr wr = record {
      valid = wr.valid;
      base = wr.base ∙ gr.base;
      position = omega (arith, wr.position, gr.position);
      size = rw (← gr.size, ← gr.position) wr.size;
      endian = wr.endian ∙ gr.endian;
      same_contents = rw (← gr.position, ← gr.same_contents) wr.same_contents;
    }

    finish :
        (g : ByteArray)
        → Grown s g
        → s.position + length (b ∷ bs) ≤ g.capacity
        → (t : ByteArray) × (write_from (b ∷ bs) g ≡ ok tt t) × Wrote (b ∷ bs) s t
    finish g gr room =
        let (t, e, wr) =
          write_from_lem (b ∷ bs) g gr.valid (omega (arith, gr.position)) (omega arith) in
        (t, e, moved g t gr wr)

-- On a valid buffer, where the bytes that are missing beyond the last node leave a rest, modulo the
-- node size, that is positive and at most what the last node still has, write runs into the null
-- pointer behind the last node.
pub write-fault :
    (bytes : List ℕ) (s : ByteArray)
    → IsValid s
    → 0 < missing (length bytes) s % s.base_size
    → missing (length bytes) s % s.base_size ≤ s.capacity - s.position
    → write bytes s ≡ fault
write-fault [] s v h le = absurd (omega arith)
write-fault (b ∷ bs) s v h le =
    let gr = add_capacity-Grown (length (b ∷ bs)) s v in
    write-write_from b bs s
    ∙ write_from-none (b ∷ bs) (add_capacity (length (b ∷ bs)) s) gr.valid
        (omega (arith, gr.position, add_capacity-short (length (b ∷ bs)) s v h le)) (omega arith)
