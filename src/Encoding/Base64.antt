-- ===== src/Encoding/Base64.antt =====
-- `base64encode` and `base64decode` of cxk/util/hash_util.cpp.
use cxkframework.Prelude.{
  ℕ, ◌+◌, ◌-◌, ◌*◌, ◌/◌, ◌^◌, true, false, Bool, not, ◌&&◌, Option, none, some, List, [], ◌∷◌, ◌++◌,
  leb, ltb, and_then, ◌==◌, if◌then◌else◌,
}
use cxkframework.Prelude.Bits.{bit_and, bit_or}

-- the character at an index of the table
unfoldable pub base64 : ℕ → ℕ
base64 i =
    if ltb i 26
    then b'A' + i
    else (if ltb i 52
        then b'a' + (i - 26)
        else (if ltb i 62 then b'0' + (i - 52) else (if i == 62 then b'+' else b'/')))

-- `packed` after the first loop and the shifts that fill it up, for the one to three bytes read
unfoldable pub packed3 : ℕ → ℕ → ℕ → ℕ
packed3 a b c = bit_or (bit_or (a * 256) b * 256) c

-- One round of the outer loop of `base64encode` for each group of three bytes, the last of which may
-- have one or two.
unfoldable pub base64encode : List ℕ → List ℕ
unfolding base64 packed3
base64encode [] = []
base64encode (a ∷ []) =
    let packed = a * 256 * 256 in
    base64 (packed / 2 ^ 18) ∷ base64 (bit_and (packed / 2 ^ 12) 0x3f) ∷ b'=' ∷ b'=' ∷ []
base64encode (a ∷ b ∷ []) =
    let packed = bit_or (a * 256) b * 256 in
    base64 (packed / 2 ^ 18)
    ∷ base64 (bit_and (packed / 2 ^ 12) 0x3f)
    ∷ base64 (bit_and (packed / 2 ^ 6) 0x3f)
    ∷ b'='
    ∷ []
base64encode (a ∷ b ∷ c ∷ rest) =
    let packed = packed3 a b c in
    base64 (packed / 2 ^ 18)
    ∷ base64 (bit_and (packed / 2 ^ 12) 0x3f)
    ∷ base64 (bit_and (packed / 2 ^ 6) 0x3f)
    ∷ base64 (bit_and packed 0x3f)
    ∷ base64encode rest

-- `val`, where `none` is an invalid character
unfoldable pub base64_value : ℕ → Option ℕ
base64_value c =
    if leb b'A' c && leb c b'Z'
    then some (c - b'A')
    else (if leb b'a' c && leb c b'z'
        then some (c - b'a' + 26)
        else (if leb b'0' c && leb c b'9'
            then some (c - b'0' + 52)
            else (if c == b'+' then some 62 else (if c == b'/' then some 63 else none))))

-- `padding` and `packed` in the inner loop of `base64decode`
pub record Group : Type 0 where
  pub padding : ℕ
  pub packed : ℕ

-- one round of the inner loop; `none` is `return ""`
unfoldable pub take_char : ℕ → Group → Option Group
unfolding base64_value
take_char c g =
    if c == b'='
    then some (record { padding = g.padding + 1; packed = g.packed * 64 })
    else (if ltb 0 g.padding then none else elim (base64_value c) [
      | none ↦ none
      | some val ↦ some (record { padding = g.padding; packed = bit_or (g.packed * 64) val })
    ])

-- the inner loop over the characters of one group
unfoldable pub take_chars : List ℕ → Group → Option Group
unfolding take_char
take_chars [] g = some g
take_chars (c ∷ cs) g = and_then (take_char c g) (take_chars cs)

-- the bytes that a group writes
unfoldable pub group_bytes : Group → List ℕ
group_bytes g =
    bit_and (g.packed / 2 ^ 16) 0xff
    ∷ (if g.padding == 2
        then []
        else bit_and (g.packed / 2 ^ 8) 0xff
          ∷ (if g.padding == 0 then bit_and g.packed 0xff ∷ [] else []))

-- the checks after the inner loop, and what they write; `at_end` is `ptr == end`
unfoldable pub finish_group : Bool → Group → Option (List ℕ)
unfolding group_bytes
finish_group at_end g =
    if ltb 0 g.padding && not at_end
    then none
    else (if ltb 2 g.padding then none else some (group_bytes g))

abbrev pub no_group : Group
no_group = record { padding = 0; packed = 0 }

abbrev pub is_empty : List ℕ → Bool
is_empty [] = true
is_empty (c ∷ cs) = false

abbrev pub append_group : Option (List ℕ) → Option (List ℕ) → Option (List ℕ)
append_group (some bytes) (some rest) = some (bytes ++ rest)
append_group (some bytes) none = none
append_group none rest = none

unfoldable pub decode_group : List ℕ → Bool → Option (List ℕ)
unfolding take_chars finish_group
decode_group cs at_end = and_then (take_chars cs no_group) (finish_group at_end)

-- The outer loop. A group of fewer than four characters is `i != 4`.
unfoldable pub decode_loop : List ℕ → Option (List ℕ)
unfolding decode_group
decode_loop [] = some []
decode_loop (p ∷ q ∷ r ∷ s ∷ rest) =
    append_group (decode_group (p ∷ q ∷ r ∷ s ∷ []) (is_empty rest)) (decode_loop rest)
decode_loop (p ∷ []) = none
decode_loop (p ∷ q ∷ []) = none
decode_loop (p ∷ q ∷ r ∷ []) = none

-- `return ""` gives the empty text
unfoldable pub base64decode : List ℕ → List ℕ
unfolding decode_loop
base64decode src = elim (decode_loop src) [ none ↦ [] | some result ↦ result ]
