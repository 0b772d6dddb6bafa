-- ===== src/ByteArray/WriteLoop.antt =====
-- The loop of `ByteArray::write` (cxk/bytearray.cpp) against one flat list of bytes.
use cxkframework.Prelude.{
  ℕ, ◌+◌, ◌-◌, ◌*◌, ◌≤◌, ◌<◌, ◌≡◌, inl, inr, refl, sym, ap, ◌∙◌, false, none, some, List, [], ◌∷◌,
  ◌++◌, leb, ◌==◌, arith, length, take, drop, concat, All, length-take, length-drop, Bool-cases,
  dec_lt,
}
use cxkframework.ByteArray.{Node, Walk, pass, overwrite, node_size, write_loop}
use cxkframework.ByteArray.Invariant.{IsFull}
use cxkframework.ByteArray.Splice.{length-overwrite, overwrite-append_in, overwrite-append_across}

-- What `write_loop` leaves: the bytes overwritten from `npos` on, every node as long as before, and
-- `m_cur` at the node that holds the byte after the last one written.
pub record Written (base npos : ℕ) (bs : List ℕ) (nodes : List Node) (w : Walk) : Type 0 where
  pub bytes_written : concat (w.passed ++ w.rest) ≡ overwrite (concat nodes) npos bs
  pub full_passed : All (IsFull base) w.passed
  pub full_rest : All (IsFull base) w.rest
  pub kept : length w.passed + length w.rest ≡ length nodes
  pub cur_from : base * length w.passed ≤ npos + length bs
  pub cur_to : npos + length bs < base * length w.passed + base

write_loop_last :
    (base npos : ℕ) (b : ℕ) (bs : List ℕ) (n : Node) (rest : List Node)
    → IsFull base n
    → All (IsFull base) rest
    → npos < base
    → length (b ∷ bs) ≤ base - npos
    → (w : Walk) × (write_loop (n ∷ rest) npos (base - npos) (b ∷ bs) ≡ some w)
      × Written base npos (b ∷ bs) (n ∷ rest) w
unfolding write_loop
write_loop_last base npos b bs n rest fn fr h le =
    elim (Bool-cases (length n == npos + length (b ∷ bs))) [
      | inl e ↦ (
        record { bytes = []; passed = overwrite n npos (b ∷ bs) ∷ []; rest = rest },
        ground arith,
        record {
          bytes_written = rw (overwrite-append_in n (concat rest) npos (b ∷ bs) (omega arith));
          full_passed = (length-overwrite n npos (b ∷ bs) (omega arith) ∙ fn, tt);
          full_rest = fr;
          kept = omega arith;
          cur_from = ground arith;
          cur_to = ground arith;
        },
      )
      | inr e ↦ (
        record { bytes = []; passed = []; rest = overwrite n npos (b ∷ bs) ∷ rest },
        ground arith,
        record {
          bytes_written = rw (overwrite-append_in n (concat rest) npos (b ∷ bs) (omega arith));
          full_passed = tt;
          full_rest = (length-overwrite n npos (b ∷ bs) (omega arith) ∙ fn, fr);
          kept = omega arith;
          cur_from = omega arith;
          cur_to = ground arith;
        },
      )
    ]

write_loop_more :
    (base npos : ℕ) (bs : List ℕ) (n : Node) (rest : List Node) (w : Walk)
    → IsFull base n
    → npos < base
    → base - npos ≤ length bs
    → Written base 0 (drop (base - npos) bs) rest w
    → Written base npos bs (n ∷ rest) (record {
      bytes = w.bytes;
      passed = overwrite n npos (take (base - npos) bs) ∷ w.passed;
      rest = w.rest;
    })
write_loop_more base npos bs n rest w fn hp le v =
    let room : npos + (base - npos) ≡ length n = omega arith in
    let len : length (drop (base - npos) bs) ≡ length bs - (base - npos) =
      length-drop (base - npos) bs in
    let fits : npos + length (take (base - npos) bs) ≤ length n = rw length-take (omega arith) in
    record {
      bytes_written =
          ap (λ (t : List ℕ). overwrite n npos (take (base - npos) bs) ++ t) v.bytes_written
          ∙ sym (overwrite-append_across n (concat rest) npos (base - npos) bs room le);
      full_passed = (length-overwrite n npos _ fits ∙ fn, v.full_passed);
      full_rest = v.full_rest;
      kept = omega (arith, v.kept);
      cur_from = omega (arith, v.cur_from, len);
      cur_to = omega (arith, v.cur_to, len);
    }

pub size_of_full :
    (base : ℕ) (nodes : List Node)
    → All (IsFull base) nodes
    → 0 < length nodes
    → node_size nodes ≡ base
size_of_full base [] f h = absurd (omega arith)
size_of_full base (n ∷ rest) f h = f.0

write_loop_step :
    (n : Node) (rest : List Node) (npos ncap b : ℕ) (bs : List ℕ)
    → leb (length (b ∷ bs)) ncap ≡ false
    → write_loop (n ∷ rest) npos ncap (b ∷ bs)
      ≡ pass
          (overwrite n npos (take ncap (b ∷ bs)))
          []
          (write_loop rest 0 (node_size rest) (drop ncap (b ∷ bs)))
unfolding write_loop
write_loop_step n rest npos ncap b bs h = rw h

write_loop_across :
    (base npos : ℕ) (b : ℕ) (bs : List ℕ) (n : Node) (rest : List Node)
    → IsFull base n
    → npos < base
    → base - npos < length (b ∷ bs)
    → node_size rest ≡ base
    → ((w : Walk) × (write_loop rest 0 (base - 0) (drop (base - npos) (b ∷ bs)) ≡ some w)
        × Written base 0 (drop (base - npos) (b ∷ bs)) rest w)
    → (w : Walk) × (write_loop (n ∷ rest) npos (base - npos) (b ∷ bs) ≡ some w)
      × Written base npos (b ∷ bs) (n ∷ rest) w
write_loop_across base npos b bs n rest fn hp more next (w, e, v) =
    let same : base - 0 ≡ node_size rest = omega (arith, next) in
    let e' : write_loop rest 0 (node_size rest) (drop (base - npos) (b ∷ bs)) ≡ some w =
      rw same at e in
    (
      record {
        bytes = w.bytes;
        passed = overwrite n npos (take (base - npos) (b ∷ bs)) ∷ w.passed;
        rest = w.rest;
      },
      write_loop_step n rest npos (base - npos) b bs (ground arith) ∙ rw e',
      write_loop_more base npos (b ∷ bs) n rest w fn hp (omega arith) v,
    )

-- With room enough the loop of `write` ends, and writes where it should.
pub write_loop_lem :
    (base npos : ℕ) (bs : List ℕ) (nodes : List Node)
    → All (IsFull base) nodes
    → npos < base
    → npos + length bs ≤ base * length nodes
    → 0 < length bs
    → (w : Walk) × (write_loop nodes npos (base - npos) bs ≡ some w) × Written base npos bs nodes w
write_loop_lem base npos [] nodes f hp room pos = absurd (omega arith)
write_loop_lem base npos (b ∷ bs) [] f hp room pos = absurd (omega arith)
write_loop_lem base npos (b ∷ bs) (n ∷ rest) (fn, fr) hp room pos =
    let len : length (drop (base - npos) (b ∷ bs)) ≡ length (b ∷ bs) - (base - npos) =
      length-drop (base - npos) (b ∷ bs) in
    let later = λ (more : base - npos < length (b ∷ bs)).
      write_loop_lem base 0 (drop (base - npos) (b ∷ bs)) rest fr (omega arith) (omega (arith, len))
        (omega (arith, len)) in
    elim (dec_lt (base - npos) (length (b ∷ bs))) [
      | yes more ↦
          write_loop_across base npos b bs n rest fn hp more
            (size_of_full base rest fr (more_nodes more)) (later more)
      | no fits ↦ write_loop_last base npos b bs n rest fn fr hp (omega arith)
    ]
  where
    more_nodes : base - npos < length (b ∷ bs) → 0 < length rest
    more_nodes more = grind arith

-- With too little room it runs into the null pointer.
pub write_loop-none :
    (base npos : ℕ) (bs : List ℕ) (nodes : List Node)
    → All (IsFull base) nodes
    → npos < base
    → base * length nodes < npos + length bs
    → 0 < length bs
    → write_loop nodes npos (node_size nodes - npos) bs ≡ none
unfolding write_loop
write_loop-none base npos [] nodes f hp room pos = absurd (omega arith)
write_loop-none base npos (b ∷ bs) [] f hp room pos = refl
write_loop-none base npos (b ∷ bs) (n ∷ rest) (fn, fr) hp room pos = ground (
  arith,
  length-drop (base - npos) (b ∷ bs),
  write_loop-none base 0 (drop (length n - npos) (b ∷ bs)) rest fr,
)
