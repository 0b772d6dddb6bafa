-- ===== src/ByteArray/Fixed.antt =====
-- The integers of fixed width of cxk/bytearray.cpp, with byteswap of cxk/endian.h.
-- `host` is `CXK_BYTE_ORDER`, which the build sets. A signed value is its two's complement pattern,
-- on which the signed and the unsigned methods are the same code; `n` is `sizeof(value)`.
use cxkframework.Prelude.{
  ℕ, zero, suc, ◌+◌, ◌*◌, ◌/◌, ◌%◌, Bool, true, false, List, [], ◌∷◌, if◌then◌else◌, reverse,
}
use cxkframework.ByteArray.{ok, M, Endian, little, big, ◌>>=◌, return, write, read}

-- the `n` lowest bytes of a value, lowest first, and back
abbrev pub le_bytes : ℕ → ℕ → List ℕ
le_bytes zero v = []
le_bytes (suc n) v = v % 256 ∷ le_bytes n (v / 256)

abbrev pub le_value : List ℕ → ℕ
le_value [] = 0
le_value (b ∷ bs) = b + 256 * le_value bs

-- the bytes of an object in the memory of the host
abbrev pub in_order : Endian → List ℕ → List ℕ
in_order little bs = bs
in_order big bs = reverse bs

abbrev pub same_order : Endian → Endian → Bool
same_order little little = true
same_order big big = true
same_order _ _ = false

-- `byteswap(value)`: `bswap_16`, `bswap_32`, `bswap_64`
unfoldable pub byteswap : ℕ → ℕ → ℕ
byteswap n v = le_value (reverse (le_bytes n v))

unfoldable pub write_fint8 : ℕ → M (Unit {0})
write_fint8 value = write (value % 256 ∷ [])

unfoldable pub write_fuint8 : ℕ → M (Unit {0})
write_fuint8 value = write (value % 256 ∷ [])

unfoldable pub read_fint8 : M ℕ
read_fint8 = do bytes ← read 1; return (le_value bytes)

unfoldable pub read_fuint8 : M ℕ
read_fuint8 = do bytes ← read 1; return (le_value bytes)

module _ (host : Endian) where
  -- the common body of `writeFint16` to `writeFuint64_t`
  unfoldable pub write_fixed : ℕ → ℕ → M (Unit {0})
  unfolding byteswap
  write_fixed n value s =
      let v = if same_order s.endian host then value else byteswap n value in
      write (in_order host (le_bytes n v)) s

  -- the macro `XX(type)`
  unfoldable pub read_fixed : ℕ → M ℕ
  unfolding byteswap
  read_fixed n = do
    bytes ← read n
    λ s.
        let v = le_value (in_order host bytes) in
        ok (if same_order s.endian host then v else byteswap n v) s

  unfoldable pub write_fint16 : ℕ → M (Unit {0})
  unfolding write_fixed
  write_fint16 = write_fixed 2

  unfoldable pub write_fuint16 : ℕ → M (Unit {0})
  unfolding write_fixed
  write_fuint16 = write_fixed 2

  unfoldable pub write_fint32 : ℕ → M (Unit {0})
  unfolding write_fixed
  write_fint32 = write_fixed 4

  unfoldable pub write_fuint32 : ℕ → M (Unit {0})
  unfolding write_fixed
  write_fuint32 = write_fixed 4

  unfoldable pub write_fint64 : ℕ → M (Unit {0})
  unfolding write_fixed
  write_fint64 = write_fixed 8

  unfoldable pub write_fuint64 : ℕ → M (Unit {0})
  unfolding write_fixed
  write_fuint64 = write_fixed 8

  unfoldable pub read_fint16 : M ℕ
  unfolding read_fixed
  read_fint16 = read_fixed 2

  unfoldable pub read_fuint16 : M ℕ
  unfolding read_fixed
  read_fuint16 = read_fixed 2

  unfoldable pub read_fint32 : M ℕ
  unfolding read_fixed
  read_fint32 = read_fixed 4

  unfoldable pub read_fuint32 : M ℕ
  unfolding read_fixed
  read_fuint32 = read_fixed 4

  unfoldable pub read_fint64 : M ℕ
  unfolding read_fixed
  read_fint64 = read_fixed 8

  unfoldable pub read_fuint64 : M ℕ
  unfolding read_fixed
  read_fuint64 = read_fixed 8
