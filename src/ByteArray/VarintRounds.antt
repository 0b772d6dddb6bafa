-- ===== src/ByteArray/VarintRounds.antt =====
-- One round of the loop of `readUint32` and `readUint64` (cxk/bytearray.cpp) against the bytes that are
-- still to be read.
use cxkframework.Prelude.{
  ℕ, suc, ◌+◌, ◌-◌, ◌*◌, ◌%◌, ◌^◌, ◌≤◌, ◌<◌, ◌≡◌, refl, sym, ap, ◌∙◌, List, [], ◌∷◌, arith, true,
  false, length, ltb, drop, take, length-drop, drop-drop, lt→ltb, inr,
}
use cxkframework.Prelude.Bits.{bit_and, bit_or, bit_and_7f, bit_or_shifted}
use native.Mathlib.Nat.{mod-eq_of_lt, mod-lt}
use native.Mathlib.Numerals.{towards_suc}
use cxkframework.ByteArray.{ByteArray, ok, return, read, slice}
use cxkframework.ByteArray.Invariant.{IsValid, contents}
use cxkframework.ByteArray.Fixed.{read_fuint8, le_value}
use cxkframework.ByteArray.Read.{DidRead, read_lem}
use cxkframework.ByteArray.RoundTrip.{length-contents}
use cxkframework.ByteArray.Steps.{bind_ok}
use cxkframework.ByteArray.Varint.{shifted, read_varint}

-- the bytes that are still to be read
abbrev pub remaining : ByteArray → List ℕ
remaining u = drop u.position (contents u)

record Reads (b : ℕ) (tail : List ℕ) (u t : ByteArray) : Type 0 where
  byte : read_fuint8 u ≡ ok b t
  valid : IsValid t
  rest : remaining t ≡ tail

read_byte :
    (b : ℕ) (tail : List ℕ) (u : ByteArray)
    → IsValid u
    → remaining u ≡ b ∷ tail
    → (t : ByteArray) × Reads b tail u t
read_byte b tail u v here = finish (read_lem 1 u v (omega arith) fits (inr reach))
  where
    fits : u.position + 1 ≤ u.size
    fits =
        omega (
          arith,
          ap (length {A = ℕ}) here,
          length-drop u.position (contents u),
          length-contents u v,
        )

    reach : 1 ≤ (u.base_size - u.position % u.base_size) + (u.base_size - u.position % u.base_size)
    reach = omega (arith, mod-lt u.position v.positive)

    finish :
        ((t : ByteArray) × (read 1 u ≡ ok (slice (contents u) u.position 1) t) × DidRead 1 u t)
        → (t : ByteArray) × Reads b tail u t
    finish (t, e, d) =
        let one : slice (contents u) u.position 1 ≡ b ∷ [] = unfold slice in ap (take 1) here in
        (
          t,
          record {
            byte =
                unfold read_fuint8 in
                bind_ok (read 1) (λ bs. return (le_value bs))
                  (e ∙ ap (λ (bs : List ℕ). ok bs t) one)
                ∙ ap (λ (x : ℕ). ok x t) (omega arith);
            valid = d.valid;
            rest =
                (λ i. drop (d.position i) (d.same_contents i))
                ∙ sym (drop-drop u.position 1 (u.position + 1) (contents u) refl)
                ∙ ap (drop 1) here;
          },
        )

pub pow_seven : (i : ℕ) → 2 ^ (i + 7) ≡ 128 * 2 ^ i
pow_seven i = simp towards_suc (omega arith)

-- `result |= b << i` adds, where the bits of `result` end below `i` and the sum fits the word.
or-shifted :
    (w i acc b : ℕ)
    → acc < 2 ^ i
    → acc + b * 2 ^ i < 2 ^ w
    → bit_or acc (shifted w b i) ≡ acc + b * 2 ^ i
or-shifted w i acc b low fits =
    ap (λ (t : ℕ). bit_or acc t) (mod-eq_of_lt (omega arith)) ∙ bit_or_shifted i acc b low

round_last :
    (rounds w i acc b : ℕ) (u t : ByteArray)
    → read_fuint8 u ≡ ok b t
    → ltb b 0x80 ≡ true
    → read_varint (suc rounds) w i acc u ≡ ok (bit_or acc (shifted w b i)) t
unfolding read_varint
round_last rounds w i acc b u t e test = bind_ok read_fuint8 _ e ∙ rw test

round_more :
    (rounds w i acc b : ℕ) (u t : ByteArray)
    → read_fuint8 u ≡ ok b t
    → ltb b 0x80 ≡ false
    → read_varint (suc rounds) w i acc u
      ≡ read_varint rounds w (i + 7) (bit_or acc (shifted w (bit_and b 0x7f) i)) t
unfolding read_varint
round_more rounds w i acc b u t e test = bind_ok read_fuint8 _ e ∙ rw test

-- the last round, on a byte below 0x80
pub read_varint_last :
    (rounds w i acc b : ℕ) (tail : List ℕ) (u : ByteArray)
    → IsValid u
    → remaining u ≡ b ∷ tail
    → b < 128
    → acc < 2 ^ i
    → acc + b * 2 ^ i < 2 ^ w
    → (t : ByteArray) × (read_varint (suc rounds) w i acc u ≡ ok (acc + b * 2 ^ i) t)
      × IsValid t
      × (remaining t ≡ tail)
read_varint_last rounds w i acc b tail u v here small low fits =
    let (t, r) = read_byte b tail u v here in
    (
      t,
      round_last rounds w i acc b u t r.byte (lt→ltb b 128 small)
          ∙ ap (λ (x : ℕ). ok x t) (or-shifted w i acc b low fits),
      r.valid,
      r.rest,
    )

-- a round on a byte with the top bit set over the group `g`
pub read_varint_next :
    (rounds w i acc g : ℕ) (tail : List ℕ) (u : ByteArray)
    → IsValid u
    → remaining u ≡ (g + 128) ∷ tail
    → g < 128
    → acc < 2 ^ i
    → acc + g * 2 ^ i < 2 ^ w
    → (t : ByteArray) × (read_varint (suc rounds) w i acc u
        ≡ read_varint rounds w (i + 7) (acc + g * 2 ^ i) t)
      × IsValid t
      × (remaining t ≡ tail)
read_varint_next rounds w i acc g tail u v here small low fits =
    let (t, r) = read_byte (g + 128) tail u v here in
    let group : bit_and (g + 128) 0x7f ≡ g = bit_and_7f (g + 128) ∙ omega arith in
    (
      t,
      round_more rounds w i acc (g + 128) u t r.byte (ground arith)
          ∙ ap (λ (x : ℕ). read_varint rounds w (i + 7) x t)
              (ap (λ (x : ℕ). bit_or acc (shifted w x i)) group ∙ or-shifted w i acc g low fits),
      r.valid,
      r.rest,
    )
