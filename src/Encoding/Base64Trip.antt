-- ===== src/Encoding/Base64Trip.antt =====
-- The round trip through `base64encode` and `base64decode` of cxk/util/hash_util.cpp.
use cxkframework.Prelude.{
  ℕ, ◌+◌, ◌*◌, ◌/◌, ◌%◌, ◌^◌, ◌<◌, ◌≡◌, refl, ap, ◌∙◌, true, false, some, List, [], ◌∷◌, ◌==◌,
  and_then, All, Bool, arith,
}
use cxkframework.Prelude.Bits.{bit_and, bit_or, bit_and_3f, bit_and_ff, shifted_bit_or}
use cxkframework.Encoding.Base64.{
  base64, packed3, base64encode, base64_value, Group, take_char, take_chars, group_bytes,
  finish_group, no_group, is_empty, decode_group, decode_loop, base64decode, append_group,
}
use cxkframework.Encoding.Hex.{IsByte}

abbrev group : ℕ → ℕ → Group
group padding packed = record { padding = padding; packed = packed }

base64_value-base64 : (i : ℕ) → i < 64 → base64_value (base64 i) ≡ some i
unfolding base64 base64_value
base64_value-base64 i h = ground arith

base64_no_padding : (i : ℕ) → i < 64 → (base64 i == b'=') ≡ false
unfolding base64
base64_no_padding i h = ground arith

take_char-base64 :
    (i n : ℕ) → i < 64 → take_char (base64 i) (group 0 n) ≡ some (group 0 (n * 64 + i))
unfolding take_char
take_char-base64 i n h =
    rw (base64_no_padding i h)
      (rw (base64_value-base64 i h) (ap (λ t. some (group 0 t)) (shifted_bit_or 6 i n h)))

next_char :
    (c : ℕ) (cs : List ℕ) (g g' : Group)
    → take_char c g ≡ some g'
    → take_chars (c ∷ cs) g ≡ take_chars cs g'
unfolding take_chars
next_char c cs g g' h = ap (λ t. and_then t (take_chars cs)) h

next_index :
    (i n : ℕ) (cs : List ℕ)
    → i < 64
    → take_chars (base64 i ∷ cs) (group 0 n) ≡ take_chars cs (group 0 (n * 64 + i))
next_index i n cs h =
    next_char (base64 i) cs (group 0 n) (group 0 (n * 64 + i)) (take_char-base64 i n h)

first_index :
    (i : ℕ) (cs : List ℕ) → i < 64 → take_chars (base64 i ∷ cs) no_group ≡ take_chars cs (group 0 i)
first_index i cs h =
    let from_zero : 0 * 64 + i ≡ i = omega arith in
    next_index i 0 cs h ∙ ap (λ t. take_chars cs (group 0 t)) from_zero

-- The inner loop puts the indices of its characters side by side.
take_four :
    (i j k l : ℕ)
    → i < 64
    → j < 64
    → k < 64
    → l < 64
    → take_chars (base64 i ∷ base64 j ∷ base64 k ∷ base64 l ∷ []) no_group
      ≡ some (group 0 (((i * 64 + j) * 64 + k) * 64 + l))
unfolding take_chars
take_four i j k l hi hj hk hl =
    first_index i (base64 j ∷ base64 k ∷ base64 l ∷ []) hi
    ∙ (next_index j i (base64 k ∷ base64 l ∷ []) hj
        ∙ (next_index k (i * 64 + j) (base64 l ∷ []) hk
            ∙ (next_index l ((i * 64 + j) * 64 + k) [] hl)))

take_three :
    (i j k : ℕ)
    → i < 64
    → j < 64
    → k < 64
    → take_chars (base64 i ∷ base64 j ∷ base64 k ∷ b'=' ∷ []) no_group
      ≡ some (group 1 (((i * 64 + j) * 64 + k) * 64))
unfolding take_chars take_char
take_three i j k hi hj hk =
    first_index i (base64 j ∷ base64 k ∷ b'=' ∷ []) hi
    ∙ (next_index j i (base64 k ∷ b'=' ∷ []) hj ∙ next_index k (i * 64 + j) (b'=' ∷ []) hk)

take_two :
    (i j : ℕ)
    → i < 64
    → j < 64
    → take_chars (base64 i ∷ base64 j ∷ b'=' ∷ b'=' ∷ []) no_group
      ≡ some (group 2 ((i * 64 + j) * 64 * 64))
unfolding take_chars take_char
take_two i j hi hj =
    first_index i (base64 j ∷ b'=' ∷ b'=' ∷ []) hi ∙ next_index j i (b'=' ∷ b'=' ∷ []) hj

finish :
    (cs : List ℕ) (at_end : Bool) (g : Group)
    → take_chars cs no_group ≡ some g
    → decode_group cs at_end ≡ finish_group at_end g
unfolding decode_group
finish cs at_end g h = ap (λ t. and_then t (finish_group at_end)) h

packed3_lem : (a b c : ℕ) → IsByte b → IsByte c → packed3 a b c ≡ a * 65536 + b * 256 + c
unfolding packed3
packed3_lem a b c hb hc =
    ap (λ t. bit_or (t * 256) c) (shifted_bit_or 8 b a hb)
    ∙ (shifted_bit_or 8 c (a * 256 + b) hc ∙ omega arith)

three_out :
    (a b c m : ℕ)
    → IsByte a
    → IsByte b
    → IsByte c
    → m ≡ a * 65536 + b * 256 + c
    → some (bit_and (m / 2 ^ 16) 0xff ∷ bit_and (m / 2 ^ 8) 0xff ∷ bit_and m 0xff ∷ [])
      ≡ some (a ∷ b ∷ c ∷ [])
three_out a b c m ha hb hc hm =
    let first : bit_and (m / 2 ^ 16) 0xff ≡ a = omega (arith, bit_and_ff (m / 2 ^ 16)) in
    let second : bit_and (m / 2 ^ 8) 0xff ≡ b = omega (arith, bit_and_ff (m / 2 ^ 8)) in
    let third : bit_and m 0xff ≡ c = omega (arith, bit_and_ff m) in cc

two_out :
    (a b m : ℕ)
    → IsByte a
    → IsByte b
    → m ≡ a * 65536 + b * 256
    → some (bit_and (m / 2 ^ 16) 0xff ∷ bit_and (m / 2 ^ 8) 0xff ∷ []) ≡ some (a ∷ b ∷ [])
two_out a b m ha hb hm =
    let first : bit_and (m / 2 ^ 16) 0xff ≡ a = omega (arith, bit_and_ff (m / 2 ^ 16)) in
    let second : bit_and (m / 2 ^ 8) 0xff ≡ b = omega (arith, bit_and_ff (m / 2 ^ 8)) in cc

module _ (at_end : Bool) (n i j : ℕ) (hi : i ≡ n / 2 ^ 18) (hj : j ≡ n / 2 ^ 12 % 64)
    (in_range : n < 2 ^ 24) where
  -- A group of three bytes is read as those bytes.
  three_bytes :
      (a b c k l : ℕ)
      → IsByte a
      → IsByte b
      → IsByte c
      → n ≡ a * 65536 + b * 256 + c
      → k ≡ n / 2 ^ 6 % 64
      → l ≡ n % 64
      → decode_group (base64 i ∷ base64 j ∷ base64 k ∷ base64 l ∷ []) at_end ≡ some (a ∷ b ∷ c ∷ [])
  unfolding finish_group group_bytes
  three_bytes a b c k l ha hb hc hn hk hl =
      finish (base64 i ∷ base64 j ∷ base64 k ∷ base64 l ∷ []) at_end
        (group 0 (((i * 64 + j) * 64 + k) * 64 + l))
        (take_four i j k l (omega arith) (omega arith) (omega arith) (omega arith))
      ∙ three_out a b c (((i * 64 + j) * 64 + k) * 64 + l) ha hb hc (omega arith)

  two_bytes :
      (a b k : ℕ)
      → IsByte a
      → IsByte b
      → n ≡ (a * 256 + b) * 256
      → k ≡ n / 2 ^ 6 % 64
      → decode_group (base64 i ∷ base64 j ∷ base64 k ∷ b'=' ∷ []) true ≡ some (a ∷ b ∷ [])
  unfolding finish_group group_bytes
  two_bytes a b k ha hb hn hk =
      finish (base64 i ∷ base64 j ∷ base64 k ∷ b'=' ∷ []) true
        (group 1 (((i * 64 + j) * 64 + k) * 64))
        (take_three i j k (omega arith) (omega arith) (omega arith))
      ∙ two_out a b (((i * 64 + j) * 64 + k) * 64) ha hb (omega arith)

  one_byte :
      (a : ℕ)
      → IsByte a
      → n ≡ a * 256 * 256
      → decode_group (base64 i ∷ base64 j ∷ b'=' ∷ b'=' ∷ []) true ≡ some (a ∷ [])
  unfolding finish_group group_bytes
  one_byte a ha hn =
      finish (base64 i ∷ base64 j ∷ b'=' ∷ b'=' ∷ []) true (group 2 ((i * 64 + j) * 64 * 64))
        (take_two i j (omega arith) (omega arith))
      ∙ ap (λ t. some (t ∷ [])) (bit_and_ff ((i * 64 + j) * 64 * 64 / 2 ^ 16) ∙ omega arith)

decode_loop-base64encode : (bs : List ℕ) → All IsByte bs → decode_loop (base64encode bs) ≡ some bs
unfolding decode_loop base64encode
decode_loop-base64encode [] h = refl
decode_loop-base64encode (a ∷ []) (ha, h) =
    ap (λ t. append_group t (some []))
      (one_byte true (a * 256 * 256) (a * 256 * 256 / 2 ^ 18)
        (bit_and (a * 256 * 256 / 2 ^ 12) 0x3f) refl (bit_and_3f (a * 256 * 256 / 2 ^ 12))
        (omega arith) a ha refl)
decode_loop-base64encode (a ∷ b ∷ []) (ha, (hb, h)) =
    let n : ℕ = bit_or (a * 256) b * 256 in
    let n_eq : bit_or (a * 256) b * 256 ≡ (a * 256 + b) * 256 =
      ap (λ t. t * 256) (shifted_bit_or 8 b a hb) in
    ap (λ t. append_group t (some []))
      (two_bytes true n (n / 2 ^ 18) (bit_and (n / 2 ^ 12) 0x3f) refl (bit_and_3f (n / 2 ^ 12))
        (omega arith) a b (bit_and (n / 2 ^ 6) 0x3f) ha hb n_eq (bit_and_3f (n / 2 ^ 6)))
decode_loop-base64encode (a ∷ b ∷ c ∷ rest) (ha, (hb, (hc, h))) =
    let n : ℕ = packed3 a b c in
    let n_eq : packed3 a b c ≡ a * 65536 + b * 256 + c = packed3_lem a b c hb hc in
    ap (λ t. append_group t (decode_loop (base64encode rest)))
      (three_bytes (is_empty (base64encode rest)) n (n / 2 ^ 18) (bit_and (n / 2 ^ 12) 0x3f) refl
        (bit_and_3f (n / 2 ^ 12)) (omega arith) a b c (bit_and (n / 2 ^ 6) 0x3f) (bit_and n 0x3f) ha
        hb hc n_eq (bit_and_3f (n / 2 ^ 6)) (bit_and_3f n))
    ∙ ap (append_group (some (a ∷ b ∷ c ∷ []))) (decode_loop-base64encode rest h)

-- For every list of bytes, base64decode of what base64encode writes is that list.
pub base64decode-base64encode : (bs : List ℕ) → All IsByte bs → base64decode (base64encode bs) ≡ bs
unfolding base64decode
base64decode-base64encode bs h = rw (decode_loop-base64encode bs h, base64decode) refl
