-- ===== src/WebSocket/Frame.antt =====
-- The parts of a frame of cxk/http/ws_session.cpp: the header, the length and the mask, each written
-- to a stream that moves bytes and read back.
use cxkframework.Prelude.{
  ℕ, suc, ◌+◌, ◌^◌, ◌<◌, ◌≡◌, refl, sym, ap, ◌∙◌, subst, true, false, Bool, Option, List, [], ◌∷◌,
  ◌++◌, ◌==◌, if◌then◌else◌, length, arith, Bool-cases, inl, inr, append-nil,
}
use cxkframework.Prelude.Bits.{bit_xor-bit_xor}
use cxkframework.ByteArray.Fixed.{le_bytes, le_value, byteswap}
use cxkframework.ByteArray.FixedTrip.{le_bytes-byteswap, byteswap-byteswap}
use cxkframework.Stream.{Sent, read_fix_size, write_fix_size, is_positive}
use cxkframework.Stream.Pipe.{Pipe, read_fix_size_lem, write_fix_size_lem}
use cxkframework.WebSocket.{
  FrameHead, head_bytes, head_of, masked, mask_at, on_read, on_write, payload_of, write_length,
  read_length, not_sent,
}

pub length-masked : (key : List ℕ) (i : ℕ) (bs : List ℕ) → length (masked key i bs) ≡ length bs
unfolding masked
length-masked key i [] = refl
length-masked key i (b ∷ bs) = ap suc (length-masked key (i + 1) bs)

pub masked-masked : (key : List ℕ) (i : ℕ) (bs : List ℕ) → masked key i (masked key i bs) ≡ bs
unfolding masked
masked-masked key i [] = refl
masked-masked key i (b ∷ bs) =
    ap (λ t. t ∷ masked key (i + 1) (masked key (i + 1) bs)) (bit_xor-bit_xor b (mask_at key i))
    ∙ ap (λ t. b ∷ t) (masked-masked key (i + 1) bs)

abbrev pub plain_head : ℕ → Bool → ℕ → Bool → FrameHead
plain_head op f pl m = record {
  opcode = op;
  rsv3 = false;
  rsv2 = false;
  rsv1 = false;
  fin = f;
  payload = pl;
  mask = m;
}

pub head_of-head_bytes :
    (op pl : ℕ) (f m : Bool)
    → op < 16
    → pl < 128
    → head_of (head_bytes (plain_head op f pl m)) ≡ plain_head op f pl m
unfolding head_of head_bytes
head_of-head_bytes op pl f m ho hp = ground arith

-- the bytes after the header that give the length
abbrev pub length_bytes : ℕ → List ℕ
length_bytes size =
    if payload_of size == 126
    then le_bytes 2 (byteswap 2 size)
    else (if payload_of size == 127 then le_bytes 8 (byteswap 8 size) else [])

swapped : (n v : ℕ) → v < 256 ^ n → byteswap n (le_value (le_bytes n (byteswap n v))) ≡ v
unfolding byteswap
swapped n v h =
    ap (byteswap n) (ap le_value (le_bytes-byteswap n v) ∙ refl) ∙ byteswap-byteswap n v h

module _ {S : Type 0} (p : Pipe S) (close : S → S) where
  pub write_step :
      (n : ℕ) (bs : List ℕ) (s : S)
      → length bs ≡ n
      → 0 < n
      → n < 2 ^ 31
      → (s' : S) × ((leave next : S → Sent S)
          → on_write p.read p.write close leave next (write_fix_size p.write n bs s) ≡ next s')
        × (p.contents s' ≡ p.contents s ++ bs)
  write_step n bs s e pos small =
      let (s', w, c) = write_fix_size_lem p bs s (subst (λ k. k < 2 ^ 31) (sym e) small) in
      let good : is_positive (length bs) ≡ true = ground arith in
      (
        s',
        λ leave next.
            ap (λ k. on_write p.read p.write close leave next (write_fix_size p.write k bs s))
              (sym e)
            ∙ ap (on_write p.read p.write close leave next) w
            ∙ ap (λ b. if b then next s' else leave s') good,
        c,
      )

  pub read_step :
      (n : ℕ) (bs rest : List ℕ) (s : S)
      → length bs ≡ n
      → 0 < n
      → n < 2 ^ 31
      → p.contents s ≡ bs ++ rest
      → (s' : S) × ((R : Type 0) (leave : S → Option R) (next : List ℕ → S → Option R)
          → on_read p.read p.write close leave next (read_fix_size p.read n s) ≡ next bs s')
        × (p.contents s' ≡ rest)
  read_step n bs rest s e pos small h =
      let (s', r, c) = read_fix_size_lem p bs rest s (subst (λ k. k < 2 ^ 31) (sym e) small) h in
      let good : is_positive (length bs) ≡ true = ground arith in
      (
        s',
        λ R leave next.
            ap (λ k. on_read p.read p.write close leave next (read_fix_size p.read k s)) (sym e)
            ∙ ap (on_read p.read p.write close leave next) r
            ∙ ap (λ b. if b then next bs s' else leave s') good,
        c,
      )

  pub write_length_lem :
      (size : ℕ) (s : S)
      → size < 2 ^ 31
      → (s' : S) × ((next : S → Sent S) → write_length p.read p.write close size next s ≡ next s')
        × (p.contents s' ≡ p.contents s ++ length_bytes size)
  unfolding write_length
  write_length_lem size s small = elim (Bool-cases (payload_of size == 126)) [
    | inl two ↦
        let (s', w, c) =
          write_step 2 (le_bytes 2 (byteswap 2 size)) s refl (omega arith) (omega arith) in
        (s', λ next. rw two (w (not_sent p.read p.write close) next), c ∙ rw two refl)
    | inr not_two ↦ elim (Bool-cases (payload_of size == 127)) [
      | inl eight ↦
          let (s', w, c) =
            write_step 8 (le_bytes 8 (byteswap 8 size)) s refl (omega arith) (omega arith) in
          (
            s',
            λ next. rw not_two (rw eight (w (not_sent p.read p.write close) next)),
            c ∙ rw not_two (rw eight refl),
          )
      | inr none_there ↦ (
        s,
        λ next. rw not_two (rw none_there refl),
        sym (append-nil (p.contents s)) ∙ rw not_two (rw none_there refl),
      )
    ]
  ]

  pub read_length_lem :
      (size : ℕ) (rest : List ℕ) (s : S)
      → size < 2 ^ 31
      → p.contents s ≡ length_bytes size ++ rest
      → (s' : S) × ((R : Type 0) (leave : S → Option R) (next : ℕ → S → Option R)
          → read_length p.read p.write close (payload_of size) leave next s ≡ next size s')
        × (p.contents s' ≡ rest)
  unfolding read_length
  read_length_lem size rest s small h = elim (Bool-cases (payload_of size == 126)) [
    | inl two ↦
        let fits : size < 256 ^ 2 = ground arith in
        let (s', r, c) =
          read_step 2 (le_bytes 2 (byteswap 2 size)) rest s refl (omega arith) (omega arith)
            (h ∙ rw two refl) in
        (
          s',
          λ R leave next. rw two (
              r R leave (λ bs s. next (byteswap 2 (le_value bs)) s)
              ∙ ap (λ n. next n s') (swapped 2 size fits)),
          c,
        )
    | inr not_two ↦ elim (Bool-cases (payload_of size == 127)) [
      | inl eight ↦
          let (s', r, c) =
            read_step 8 (le_bytes 8 (byteswap 8 size)) rest s refl (omega arith) (omega arith)
              (h ∙ rw not_two (rw eight refl)) in
          (
            s',
            λ R leave next. rw not_two (
                rw eight (
                  r R leave (λ bs s. next (byteswap 8 (le_value bs)) s)
                  ∙ ap (λ n. next n s') (swapped 8 size (omega arith)))),
            c,
          )
      | inr none_there ↦
          let short : payload_of size ≡ size = ground arith in
          (
            s,
            λ R leave next. rw not_two (rw none_there (ap (λ n. next n s) short)),
            h ∙ rw not_two (rw none_there refl),
          )
    ]
  ]
