-- ===== src/ByteArray/Text.antt =====
-- The strings and floats of cxk/bytearray.cpp. A string is the list of its bytes, a float its bit
-- pattern, which the code copies by `memcpy`.
use cxkframework.Prelude.{ℕ, ◌%◌, ◌^◌, List, [], length, ◌==◌, if◌then◌else◌}
use cxkframework.ByteArray.{ok, M, Endian, ◌>>=◌, ◌>>◌, write, read, read_at, get_read_size}
use cxkframework.ByteArray.Fixed.{
  write_fuint16, write_fuint32, write_fuint64, read_fuint16, read_fuint32, read_fuint64,
}

module _ (host : Endian) where
  unfoldable pub write_float : ℕ → M (Unit {0})
  unfolding write_fuint32
  write_float pattern_of_value = write_fuint32 host pattern_of_value

  unfoldable pub write_double : ℕ → M (Unit {0})
  unfolding write_fuint64
  write_double pattern_of_value = write_fuint64 host pattern_of_value

  unfoldable pub read_float : M ℕ
  unfolding read_fuint32
  read_float = read_fuint32 host

  unfoldable pub read_double : M ℕ
  unfolding read_fuint64
  read_double = read_fuint64 host

  -- the length, as it is passed to `writeFuint16_t`, and the bytes
  unfoldable pub write_string_f16 : List ℕ → M (Unit {0})
  unfolding write_fuint16
  write_string_f16 str = do write_fuint16 host (length str % 2 ^ 16); write str

  unfoldable pub write_string_f32 : List ℕ → M (Unit {0})
  unfolding write_fuint32
  write_string_f32 str = do write_fuint32 host (length str % 2 ^ 32); write str

  unfoldable pub write_string_f64 : List ℕ → M (Unit {0})
  unfolding write_fuint64
  write_string_f64 str = do write_fuint64 host (length str); write str

  unfoldable pub write_string_vint : List ℕ → M (Unit {0})
  unfolding write_fuint64
  write_string_vint str = do write_fuint64 host (length str); write str

  unfoldable pub write_string_without_length : List ℕ → M (Unit {0})
  unfolding write_fuint64
  write_string_without_length str = do write_fuint64 host (length str); write str

  unfoldable pub read_string_f16 : M (List ℕ)
  unfolding read_fuint16
  read_string_f16 = do len ← read_fuint16 host; read len

  unfoldable pub read_string_f32 : M (List ℕ)
  unfolding read_fuint32
  read_string_f32 = do len ← read_fuint32 host; read len

  unfoldable pub read_string_f64 : M (List ℕ)
  unfolding read_fuint64
  read_string_f64 = do len ← read_fuint64 host; read len

  unfoldable pub read_string_vint : M (List ℕ)
  unfolding read_fuint64
  read_string_vint = do len ← read_fuint64 host; read len

-- `toString()`: the readable bytes; an empty buffer is left alone
unfoldable pub to_string : M (List ℕ)
unfolding get_read_size read_at
to_string s = if get_read_size s == 0 then ok [] s else read_at (get_read_size s) s.position s
