-- ===== src/Encoding/Hex.antt =====
-- `hexstring_from_data` and `data_from_hexstring` of cxk/util/hash_util.cpp.
use cxkframework.Prelude.{
  ℕ, ◌+◌, ◌-◌, ◌*◌, ◌/◌, ◌%◌, ◌<◌, ◌≡◌, ◌≢◌, refl, ap, ◌∙◌, ==_of, true, false, Bool, ◌&&◌, Option,
  none, some, List, [], ◌∷◌, leb, ltb, ◌==◌, if◌then◌else◌, length, All, map, arith,
}
use cxkframework.Prelude.Bits.{bit_and, bit_or, shifted_bit_or, bit_and_0f}

-- `c > 9 ? c + 'a' - 10 : c + '0'`
unfoldable pub hex_digit : ℕ → ℕ
hex_digit c = if ltb 9 c then c + b'a' - 10 else c + b'0'

-- the two characters of a byte
unfoldable pub hexstring_from_data : List ℕ → List ℕ
unfolding hex_digit
hexstring_from_data [] = []
hexstring_from_data (b ∷ bs) =
    hex_digit (bit_and (b / 16) 0xf) ∷ hex_digit (bit_and b 0xf) ∷ hexstring_from_data bs

-- the cases of the two `switch` statements; `none` is the `default`
unfoldable pub hex_value : ℕ → Option ℕ
hex_value c =
    if leb b'a' c && leb c b'f'
    then some (c - b'a' + 10)
    else (if leb b'A' c && leb c b'F'
        then some (c - b'A' + 10)
        else (if leb b'0' c && leb c b'9' then some (c - b'0') else none))

-- `std::invalid_argument` for an odd length, and for a character that is no digit
pub data HexError : Type 0 where
  odd_length invalid_hexstring : HexError

pub data HexResult : Type 0 where
  ok : List ℕ → HexResult
  throws : HexError → HexResult

-- `byte = high << 4`, then `byte |= low`, in an `unsigned char`
unfoldable pub hex_byte : ℕ → ℕ → ℕ
hex_byte hi lo = bit_or (hi * 16 % 256) lo

abbrev byte_then : Option ℕ → Option ℕ → HexResult → HexResult
byte_then (some hi) (some lo) (ok rest) = ok (hex_byte hi lo ∷ rest)
byte_then (some hi) (some lo) (throws e) = throws e
byte_then (some hi) none rest = throws invalid_hexstring
byte_then none lo rest = throws invalid_hexstring

-- the loop over the pairs of characters
unfoldable pub data_loop : List ℕ → HexResult
unfolding hex_value hex_byte
data_loop [] = ok []
data_loop (h ∷ []) = throws odd_length
data_loop (h ∷ l ∷ rest) = byte_then (hex_value h) (hex_value l) (data_loop rest)

unfoldable pub data_from_hexstring : List ℕ → HexResult
unfolding data_loop
data_from_hexstring hexstring =
    if length hexstring % 2 == 0 then data_loop hexstring else throws odd_length

-- a value of `unsigned char`
abbrev pub IsByte : ℕ → Type 0
IsByte b = b < 256

-- a character that `data_from_hexstring` accepts
unfoldable pub IsDigit : ℕ → Type 0
unfolding hex_value
IsDigit c = hex_value c ≢ none

-- the lower-case letter of a digit
unfoldable pub lower_case : ℕ → ℕ
lower_case c = if leb b'A' c && leb c b'F' then c + 32 else c

hex_value-hex_digit : (c : ℕ) → c < 16 → hex_value (hex_digit c) ≡ some c
unfolding hex_digit hex_value
hex_value-hex_digit c h = ground arith

hex_byte_lem : (hi lo : ℕ) → hi < 16 → lo < 16 → hex_byte hi lo ≡ hi * 16 + lo
unfolding hex_byte
hex_byte_lem hi lo hh hl =
    ap (λ t. bit_or t lo) (omega arith) ∙ shifted_bit_or 4 lo hi (omega arith)

high_digit : (b : ℕ) → b < 256 → bit_and (b / 16) 0xf ≡ b / 16
high_digit b h = omega (arith, bit_and_0f (b / 16))

hex_value-lt : (c d : ℕ) → hex_value c ≡ some d → d < 16
unfolding hex_value
hex_value-lt c d h = ground arith

hex_digit-hex_value : (c d : ℕ) → hex_value c ≡ some d → hex_digit d ≡ lower_case c
unfolding hex_digit hex_value lower_case
hex_digit-hex_value c d h = ground arith

-- A byte's two characters are read as that byte.
byte_trip :
    (b : ℕ) (r : HexResult)
    → b < 256
    → byte_then
        (hex_value (hex_digit (bit_and (b / 16) 0xf)))
        (hex_value (hex_digit (bit_and b 0xf)))
        r
      ≡ byte_then (some (b / 16)) (some (b % 16)) r
byte_trip b r h =
    let hi : hex_value (hex_digit (bit_and (b / 16) 0xf)) ≡ some (b / 16) =
      ap (λ t. hex_value (hex_digit t)) (high_digit b h)
      ∙ hex_value-hex_digit (b / 16) (omega arith) in
    let lo : hex_value (hex_digit (bit_and b 0xf)) ≡ some (b % 16) =
      ap (λ t. hex_value (hex_digit t)) (bit_and_0f b)
      ∙ hex_value-hex_digit (b % 16) (omega arith) in
    ap (λ t. byte_then t (hex_value (hex_digit (bit_and b 0xf))) r) hi
    ∙ ap (λ t. byte_then (some (b / 16)) t r) lo

data_loop-hexstring : (bs : List ℕ) → All IsByte bs → data_loop (hexstring_from_data bs) ≡ ok bs
unfolding data_loop hexstring_from_data
data_loop-hexstring [] hb = refl
data_loop-hexstring (b ∷ bs) (hb, rest) =
    byte_trip b (data_loop (hexstring_from_data bs)) hb
    ∙ (ap (byte_then (some (b / 16)) (some (b % 16))) (data_loop-hexstring bs rest)
        ∙ ap (λ t. ok (t ∷ bs))
            (hex_byte_lem (b / 16) (b % 16) (omega arith) (omega arith) ∙ omega arith))

length-hexstring_from_data : (bs : List ℕ) → length (hexstring_from_data bs) ≡ length bs * 2
unfolding hexstring_from_data
length-hexstring_from_data [] = refl
length-hexstring_from_data (b ∷ bs) = omega (arith, length-hexstring_from_data bs)

-- For every list of bytes, data_from_hexstring of what hexstring_from_data writes returns that
-- list.
pub data_from_hexstring-hexstring_from_data :
    (bs : List ℕ) → All IsByte bs → data_from_hexstring (hexstring_from_data bs) ≡ ok bs
unfolding data_from_hexstring
data_from_hexstring-hexstring_from_data bs hb =
    let even : (length (hexstring_from_data bs) % 2 == 0) ≡ true =
      ==_of (length (hexstring_from_data bs) % 2) 0
        (omega (arith, length-hexstring_from_data bs)) in
    rw even (data_loop-hexstring bs hb)

-- The two characters of an accepted pair come back in lower case.
pair_back :
    (h l hi lo : ℕ)
    → hex_value h ≡ some hi
    → hex_value l ≡ some lo
    → (hex_digit (bit_and (hex_byte hi lo / 16) 0xf) ≡ lower_case h)
      × (hex_digit (bit_and (hex_byte hi lo) 0xf) ≡ lower_case l)
pair_back h l hi lo hh hl =
    let high : hi < 16 = hex_value-lt h hi hh in
    let low : lo < 16 = hex_value-lt l lo hl in
    let byte : hex_byte hi lo ≡ hi * 16 + lo = hex_byte_lem hi lo high low in
    (
      ap hex_digit (omega (arith, bit_and_0f (hex_byte hi lo / 16))) ∙ hex_digit-hex_value h hi hh,
      ap hex_digit (omega (arith, bit_and_0f (hex_byte hi lo))) ∙ hex_digit-hex_value l lo hl,
    )

byte_then-ok :
    (hi lo : Option ℕ) (r : HexResult) (bs : List ℕ)
    → byte_then hi lo r ≡ ok bs
    → (a : ℕ) × (b : ℕ) × (rest : List ℕ) × (hi ≡ some a)
      × (lo ≡ some b)
      × (r ≡ ok rest)
      × (bs ≡ hex_byte a b ∷ rest)
byte_then-ok (some a) (some b) (ok rest) bs h = (a, b, rest, refl, refl, refl, cc)
byte_then-ok (some a) (some b) (throws e) bs h = absurd cc
byte_then-ok (some a) none r bs h = absurd cc
byte_then-ok none lo r bs h = absurd cc

data_loop-back :
    (hs bs : List ℕ) → data_loop hs ≡ ok bs → hexstring_from_data bs ≡ map lower_case hs
unfolding data_loop hexstring_from_data
data_loop-back [] bs e = (let none_read : bs ≡ [] = cc in ap hexstring_from_data none_read)
data_loop-back (h ∷ []) bs e = absurd cc
data_loop-back (h ∷ l ∷ hs) bs e =
    finish (byte_then-ok (hex_value h) (hex_value l) (data_loop hs) bs e) (data_loop-back hs)
  where
    finish :
        (a : ℕ) × (b : ℕ) × (rest : List ℕ) × (hex_value h ≡ some a)
          × (hex_value l ≡ some b)
          × (data_loop hs ≡ ok rest)
          × (bs ≡ hex_byte a b ∷ rest)
        → ((rest : List ℕ) → data_loop hs ≡ ok rest → hexstring_from_data rest ≡ map lower_case hs)
        → hexstring_from_data bs ≡ lower_case h ∷ lower_case l ∷ map lower_case hs
    finish (a, b, rest, eh, el, er, eb) back =
        let (first, second) = pair_back h l a b eh el in
        let tail : hexstring_from_data rest ≡ map lower_case hs = back rest er in
        ap hexstring_from_data eb ∙ cc

even_if :
    (t : Bool) (r : HexResult) (bs : List ℕ)
    → (if t then r else throws odd_length) ≡ ok bs
    → r ≡ ok bs
even_if true r bs h = h
even_if false r bs h = absurd cc

-- Where data_from_hexstring returns bytes for a text, hexstring_from_data of these bytes is the
-- text in lower case.
pub hexstring_from_data-data_from_hexstring :
    (hs bs : List ℕ) → data_from_hexstring hs ≡ ok bs → hexstring_from_data bs ≡ map lower_case hs
unfolding data_from_hexstring
hexstring_from_data-data_from_hexstring hs bs h =
    data_loop-back hs bs (even_if (length hs % 2 == 0) (data_loop hs) bs h)
