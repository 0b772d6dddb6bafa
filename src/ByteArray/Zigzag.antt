-- ===== src/ByteArray/Zigzag.antt =====
-- The zigzag code of cxk/bytearray.cpp.
use cxkframework.Prelude.{
  ℕ, ◌+◌, ◌-◌, ◌*◌, ◌/◌, ◌%◌, ◌^◌, ◌≤◌, ◌<◌, ◌≡◌, refl, ap, ◌∙◌, true, false, leb, dec_lt, ◌⊎◌, inl,
  inr, arith,
}
use native.Mathlib.Nat.{mul-add-mod_self_left, mod-eq_of_lt}
use cxkframework.Prelude.Bits.{bit_and, bit_and_one, bit_xor_ones, bit_xor-zero}
use cxkframework.ByteArray.Varint.{
  encode_zigzag, decode_zigzag, encode_zigzag32, decode_zigzag32, encode_zigzag64, decode_zigzag64,
}

wrapped : (n y m : ℕ) → y ≡ n + m → m < n → y % n ≡ m
wrapped n y m h small =
    let e : y ≡ n * 1 + m = omega arith in
    ap (λ (t : ℕ). t % n) e ∙ mul-add-mod_self_left n 1 m ∙ mod-eq_of_lt small

-- An odd code stands for the complement of its half, an even one for its half.
decode_odd : (w q c : ℕ) → c ≡ 2 * q + 1 → q < 2 ^ w → 1 < 2 ^ w → decode_zigzag w c ≡ 2 ^ w - 1 - q
unfolding decode_zigzag
decode_odd w q c h small big =
    let half : c / 2 ≡ q = omega arith in
    let odd : bit_and c 1 ≡ 1 = bit_and_one c ∙ omega arith in
    let ones : (2 ^ w - 1) % 2 ^ w ≡ 2 ^ w - 1 = mod-eq_of_lt (omega arith) in
    rw (half, odd, ones) (bit_xor_ones w q (2 ^ w - 1) (omega arith) (omega arith))

decode_even : (w q c : ℕ) → c ≡ 2 * q → 0 < 2 ^ w → decode_zigzag w c ≡ q
unfolding decode_zigzag
decode_even w q c h pos =
    let half : c / 2 ≡ q = omega arith in
    let even : bit_and c 1 ≡ 0 = bit_and_one c ∙ omega arith in
    let none_set : (2 ^ w - 0) % 2 ^ w ≡ 0 = wrapped (2 ^ w) (2 ^ w - 0) 0 (omega arith) pos in
    rw (half, even, none_set) (bit_xor-zero q)

encode_negative :
    (w top v : ℕ)
    → top ≡ 2 ^ (w - 1)
    → top + top ≡ 2 ^ w
    → top ≤ v
    → v < 2 ^ w
    → encode_zigzag w v ≡ 2 * (2 ^ w - v - 1) + 1
unfolding encode_zigzag
encode_negative w top v half twice neg small =
    let test : leb (2 ^ (w - 1)) v ≡ true = ground arith in
    rw test (
      wrapped (2 ^ w) ((2 ^ w - v) * 2 + 2 ^ w - 1) (2 * (2 ^ w - v - 1) + 1) (omega arith)
        (omega arith))

encode_positive :
    (w top v : ℕ) → top ≡ 2 ^ (w - 1) → top + top ≡ 2 ^ w → v < top → encode_zigzag w v ≡ 2 * v
unfolding encode_zigzag
encode_positive w top v half twice small =
    let test : leb (2 ^ (w - 1)) v ≡ false = ground arith in
    rw test (mod-eq_of_lt (omega arith) ∙ omega arith)

-- Decoding undoes encoding on every pattern of `w` bits; `top` is the value of the sign bit.
zigzag_trip :
    (w top v : ℕ)
    → top ≡ 2 ^ (w - 1)
    → top + top ≡ 2 ^ w
    → 1 < 2 ^ w
    → v < 2 ^ w
    → decode_zigzag w (encode_zigzag w v) ≡ v
zigzag_trip w top v half twice big small = elim (dec_lt v top) [
  | yes positive ↦
      decode_even w v (encode_zigzag w v) (encode_positive w top v half twice positive)
        (omega arith)
  | no negative ↦
      decode_odd w (2 ^ w - v - 1) (encode_zigzag w v)
        (encode_negative w top v half twice (omega arith) small) (omega arith) big
      ∙ omega arith
]

-- `DecodeZigzag32(EncodeZigzag32(v))` is `v`, negative or not.
pub decode-encode_zigzag32 : (v : ℕ) → v < 2 ^ 32 → decode_zigzag32 (encode_zigzag32 v) ≡ v
unfolding decode_zigzag32 encode_zigzag32
decode-encode_zigzag32 v h = zigzag_trip 32 (2 ^ 31) v refl refl (omega arith) h

pub decode-encode_zigzag64 : (v : ℕ) → v < 2 ^ 64 → decode_zigzag64 (encode_zigzag64 v) ≡ v
unfolding decode_zigzag64 encode_zigzag64
decode-encode_zigzag64 v h = zigzag_trip 64 (2 ^ 63) v refl refl (omega arith) h

-- The zigzag code of a 32-bit pattern that stands for an integer of magnitude at most m, with m
-- below 2 ^ 31, is at most 2 * m.
pub encode_zigzag32_small :
    (v m : ℕ) → v < 2 ^ 32 → m < 2 ^ 31 → (v ≤ m) ⊎ (2 ^ 32 ≤ v + m) → encode_zigzag32 v ≤ 2 * m
unfolding encode_zigzag32
encode_zigzag32_small v m small bound (inl le) =
    omega (arith, encode_positive 32 (2 ^ 31) v refl refl (omega arith))
encode_zigzag32_small v m small bound (inr near) =
    omega (arith, encode_negative 32 (2 ^ 31) v refl refl (omega arith) small)

pub encode_zigzag32-lt : (v : ℕ) → encode_zigzag32 v < 2 ^ 32
unfolding encode_zigzag32 encode_zigzag
encode_zigzag32-lt v = ground arith

pub encode_zigzag64-lt : (v : ℕ) → encode_zigzag64 v < 2 ^ 64
unfolding encode_zigzag64 encode_zigzag
encode_zigzag64-lt v = ground arith
