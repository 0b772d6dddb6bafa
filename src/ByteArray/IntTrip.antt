-- ===== src/ByteArray/IntTrip.antt =====
-- Reading back the signed integers of variable length (cxk/bytearray.cpp).
use cxkframework.Prelude.{ℕ, ◌+◌, ◌^◌, ◌<◌, ◌≡◌, ap, ◌∙◌, arith, length, drop}
use cxkframework.ByteArray.{ByteArray, ok, M, ◌>>=◌, ◌>>◌, return, set_position}
use cxkframework.ByteArray.Invariant.{IsValid, contents}
use cxkframework.ByteArray.Grow.{RoundsUp}
use cxkframework.ByteArray.Varint.{
  varint_bytes, encode_zigzag32, encode_zigzag64, decode_zigzag32, decode_zigzag64, write_uint32,
  write_uint64, read_uint32, read_uint64, write_int32, write_int64, read_int32, read_int64,
}
use cxkframework.ByteArray.VarintRounds.{remaining}
use cxkframework.ByteArray.VarintTrip.{read_uint32-write_uint32, read_uint64-write_uint64}
use cxkframework.ByteArray.Zigzag.{
  decode-encode_zigzag32, decode-encode_zigzag64, encode_zigzag32-lt, encode_zigzag64-lt,
}

-- A chain that ends in a reader gives the same with the decoded result.
decoded :
    (m : M (Unit {0})) (read_code : M ℕ) (decode : ℕ → ℕ) (s t : ByteArray) (c : ℕ)
    → (m >> read_code) s ≡ ok c t
    → (m >> (read_code >>= λ c. return (decode c))) s ≡ ok (decode c) t
decoded m read_code decode s t c h = ground arith

-- On a valid buffer, for a 32-bit pattern v whose encoding addCapacity makes room for, writeInt32,
-- setPosition back and readInt32 return v; the buffer stays valid, and what is then still to be
-- read is what stood behind the bytes of v.
pub read_int32-write_int32 :
    (v : ℕ) (s : ByteArray)
    → IsValid s
    → v < 2 ^ 32
    → RoundsUp (length (varint_bytes 4 (encode_zigzag32 v))) s
    → (t : ByteArray) × (((write_int32 v >> set_position s.position) >> read_int32) s ≡ ok v t)
      × IsValid t
      × (remaining t ≡ drop (s.position + length (varint_bytes 4 (encode_zigzag32 v))) (contents s))
unfolding write_int32 read_int32
read_int32-write_int32 v s valid small r =
    let c = encode_zigzag32 v in
    let (t, e, vt, rt) = read_uint32-write_uint32 c s valid (encode_zigzag32-lt v) r in
    (
      t,
      decoded (write_uint32 c >> set_position s.position) read_uint32 decode_zigzag32 s t c e
          ∙ ap (λ (x : ℕ). ok x t) (decode-encode_zigzag32 v small),
      vt,
      rt,
    )

-- On a valid buffer, for a 64-bit pattern v whose encoding addCapacity makes room for, writeInt64,
-- setPosition back and readInt64 return v; the buffer stays valid, and what is then still to be
-- read is what stood behind the bytes of v.
pub read_int64-write_int64 :
    (v : ℕ) (s : ByteArray)
    → IsValid s
    → v < 2 ^ 64
    → RoundsUp (length (varint_bytes 9 (encode_zigzag64 v))) s
    → (t : ByteArray) × (((write_int64 v >> set_position s.position) >> read_int64) s ≡ ok v t)
      × IsValid t
      × (remaining t ≡ drop (s.position + length (varint_bytes 9 (encode_zigzag64 v))) (contents s))
unfolding write_int64 read_int64
read_int64-write_int64 v s valid small r =
    let c = encode_zigzag64 v in
    let (t, e, vt, rt) = read_uint64-write_uint64 c s valid (encode_zigzag64-lt v) r in
    (
      t,
      decoded (write_uint64 c >> set_position s.position) read_uint64 decode_zigzag64 s t c e
          ∙ ap (λ (x : ℕ). ok x t) (decode-encode_zigzag64 v small),
      vt,
      rt,
    )
