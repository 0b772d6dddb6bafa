-- ===== src/ByteArray/Varint.antt =====
-- The integers of variable length and the zigzag code of cxk/bytearray.cpp. An `int32_t` or `int64_t`
-- is its two's complement pattern of `w` bits.
use cxkframework.Prelude.{
  ℕ, zero, suc, ◌+◌, ◌-◌, ◌*◌, ◌/◌, ◌%◌, ◌^◌, true, false, List, [], ◌∷◌, ltb, leb, if◌then◌else◌,
}
use cxkframework.Prelude.Bits.{bit_and, bit_or, bit_xor}
use cxkframework.ByteArray.{M, ◌>>=◌, return, write}
use cxkframework.ByteArray.Fixed.{read_fuint8}

-- The bytes that the loop of `writeUint32` and `writeUint64` collects in `tmp`, for a value that
-- takes at most `fuel + 1` of them.
unfoldable pub varint_bytes : ℕ → ℕ → List ℕ
varint_bytes zero value = value % 256 ∷ []
varint_bytes (suc fuel) value =
    let rest = varint_bytes fuel (value / 128) in
    if leb 0x80 value then bit_or (bit_and value 0x7f) 0x80 % 256 ∷ rest else value % 256 ∷ []

-- `writeUint32`: `tmp` has 5 bytes
unfoldable pub write_uint32 : ℕ → M (Unit {0})
write_uint32 value = write (varint_bytes 4 value)

-- `writeUint64`: `tmp` has 10 bytes
unfoldable pub write_uint64 : ℕ → M (Unit {0})
write_uint64 value = write (varint_bytes 9 value)

-- `EncodeZigzag32` and `EncodeZigzag64`
unfoldable pub encode_zigzag : ℕ → ℕ → ℕ
encode_zigzag w v =
    if leb (2 ^ (w - 1)) v then ((2 ^ w - v) * 2 + 2 ^ w - 1) % 2 ^ w else v * 2 % 2 ^ w

unfoldable pub encode_zigzag32 : ℕ → ℕ
unfolding encode_zigzag
encode_zigzag32 = encode_zigzag 32

unfoldable pub encode_zigzag64 : ℕ → ℕ
unfolding encode_zigzag
encode_zigzag64 = encode_zigzag 64

-- `(v >> 1) ^ -(v & 1)`
unfoldable pub decode_zigzag : ℕ → ℕ → ℕ
decode_zigzag w v = bit_xor (v / 2) ((2 ^ w - bit_and v 1) % 2 ^ w)

unfoldable pub decode_zigzag32 : ℕ → ℕ
unfolding decode_zigzag
decode_zigzag32 = decode_zigzag 32

unfoldable pub decode_zigzag64 : ℕ → ℕ
unfolding decode_zigzag
decode_zigzag64 = decode_zigzag 64

unfoldable pub write_int32 : ℕ → M (Unit {0})
write_int32 value = write_uint32 (encode_zigzag32 value)

unfoldable pub write_int64 : ℕ → M (Unit {0})
write_int64 value = write_uint64 (encode_zigzag64 value)

-- `((uintW_t) b) << i`
abbrev pub shifted : ℕ → ℕ → ℕ → ℕ
shifted w b i = b * 2 ^ i % 2 ^ w

-- The loop of `readUint32` and `readUint64` with its `rounds` left, over `w` bits.
unfoldable pub read_varint : ℕ → ℕ → ℕ → ℕ → M ℕ
read_varint zero w i result = return result
read_varint (suc rounds) w i result = do
  b ← read_fuint8
  elim (ltb b 0x80) [
    | true ↦ return (bit_or result (shifted w b i))
    | false ↦ read_varint rounds w (i + 7) (bit_or result (shifted w (bit_and b 0x7f) i))
  ]

-- `for(int i = 0; i < 32; i += 7)`
unfoldable pub read_uint32 : M ℕ
unfolding read_varint
read_uint32 = read_varint 5 32 0 0

unfoldable pub read_uint64 : M ℕ
unfolding read_varint
read_uint64 = read_varint 10 64 0 0

unfoldable pub read_int32 : M ℕ
read_int32 = do v ← read_uint32; return (decode_zigzag32 v)

unfoldable pub read_int64 : M ℕ
read_int64 = do v ← read_uint64; return (decode_zigzag64 v)
