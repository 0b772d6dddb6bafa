-- ===== src/ByteArray/Tests.antt =====
-- Runs of the byte buffer on concrete inputs, and the theorems at concrete inputs.
use cxkframework.Prelude.{◌+◌, ◌≡◌, refl, inl, inr, [], ◌∷◌, ◌++◌, arith, length, drop}
use cxkframework.ByteArray.{
  ByteArray, ok, fault, ◌>>◌, little, big, create, write, read, read_loop, set_position, clear,
  overwrite, slice,
}
use cxkframework.ByteArray.Fixed.{write_fixed}
use cxkframework.ByteArray.Varint.{
  varint_bytes, encode_zigzag32, write_uint32, read_uint32, write_int32, read_int32,
}
use cxkframework.ByteArray.Invariant.{IsValid, contents}
use cxkframework.ByteArray.Write.{Wrote, write_lem, write-fault}
use cxkframework.ByteArray.Read.{DidRead, read_lem, read_skips}
use cxkframework.ByteArray.Seek.{read-clear}
use cxkframework.ByteArray.RoundTrip.{read-write}
use cxkframework.ByteArray.FixedTrip.{write_fixed-encoded}
use cxkframework.ByteArray.VarintRounds.{remaining}
use cxkframework.ByteArray.VarintTrip.{read_uint32-write_uint32}
use cxkframework.ByteArray.IntTrip.{read_int32-write_int32}

-- One node of 16 bytes, at its front.
abbrev start : ByteArray
start = record {
  base_size = 16;
  position = 0;
  capacity = 16;
  size = 0;
  endian = big;
  before = [];
  after = (0 ∷ 0 ∷ 0 ∷ 0 ∷ 0 ∷ 0 ∷ 0 ∷ 0 ∷ 0 ∷ 0 ∷ 0 ∷ 0 ∷ 0 ∷ 0 ∷ 0 ∷ 0 ∷ []) ∷ [];
}

start-IsValid : IsValid start
start-IsValid = record {
  positive = omega arith;
  full_before = tt;
  full_after = (refl, tt);
  nodes = refl;
  rooted = omega arith;
  cur_from = omega arith;
  cur_to = omega arith;
  read_from = omega arith;
  read_to = omega arith;
}

-- Three nodes of 4 bytes, all readable, at the third byte.
abbrev threes : ByteArray
threes = record {
  base_size = 4;
  position = 2;
  capacity = 12;
  size = 12;
  endian = big;
  before = [];
  after = (1 ∷ 2 ∷ 3 ∷ 4 ∷ []) ∷ (5 ∷ 6 ∷ 7 ∷ 8 ∷ []) ∷ (9 ∷ 10 ∷ 11 ∷ 12 ∷ []) ∷ [];
}

threes-IsValid : IsValid threes
threes-IsValid = record {
  positive = omega arith;
  full_before = tt;
  full_after = (refl, (refl, (refl, tt)));
  nodes = refl;
  rooted = omega arith;
  cur_from = omega arith;
  cur_to = omega arith;
  read_from = omega arith;
  read_to = omega arith;
}

-- One node of 4 bytes, at its third byte: a `write` of three bytes asks for one more.
abbrev half_full : ByteArray
half_full = record {
  base_size = 4;
  position = 2;
  capacity = 4;
  size = 2;
  endian = big;
  before = [];
  after = (1 ∷ 2 ∷ 0 ∷ 0 ∷ []) ∷ [];
}

half_full-IsValid : IsValid half_full
half_full-IsValid = record {
  positive = omega arith;
  full_before = tt;
  full_after = (refl, tt);
  nodes = refl;
  rooted = omega arith;
  cur_from = omega arith;
  cur_to = omega arith;
  read_from = omega arith;
  read_to = omega arith;
}

created : create 16 ≡ start
unfolding create
created = refl

write_300 : varint_bytes 4 300 ≡ 0xac ∷ 0x02 ∷ []
unfolding varint_bytes
write_300 = refl

read_skipped :
    read 5 threes
    ≡ ok (3 ∷ 4 ∷ 5 ∷ 6 ∷ 9 ∷ []) (record threes {
      position = 7;
      before = (1 ∷ 2 ∷ 3 ∷ 4 ∷ []) ∷ (5 ∷ 6 ∷ 7 ∷ 8 ∷ []) ∷ [];
      after = (9 ∷ 10 ∷ 11 ∷ 12 ∷ []) ∷ [];
    })
unfolding read read_loop
read_skipped = refl

write_lem_example :
    (t : ByteArray) × (write (7 ∷ 8 ∷ []) half_full ≡ ok tt t) × Wrote (7 ∷ 8 ∷ []) half_full t
write_lem_example = write_lem (7 ∷ 8 ∷ []) half_full half_full-IsValid (inl refl)

write-fault_example : write (7 ∷ 8 ∷ 9 ∷ []) half_full ≡ fault
write-fault_example =
    write-fault (7 ∷ 8 ∷ 9 ∷ []) half_full half_full-IsValid (omega arith) (omega arith)

read_lem_example :
    (t : ByteArray) × (read 4 threes ≡ ok (slice (contents threes) 2 4) t) × DidRead 4 threes t
read_lem_example = read_lem 4 threes threes-IsValid (omega arith) (omega arith) (inr (omega arith))

read_skips_example :
    (t : ByteArray) × (read 5 threes
      ≡ ok
          (slice (1 ∷ 2 ∷ 3 ∷ 4 ∷ []) 2 2
            ++ (slice (5 ∷ 6 ∷ 7 ∷ 8 ∷ []) 0 2 ++ slice (9 ∷ 10 ∷ 11 ∷ 12 ∷ []) 0 1))
          t)
read_skips_example =
    read_skips 5 threes (1 ∷ 2 ∷ 3 ∷ 4 ∷ []) (5 ∷ 6 ∷ 7 ∷ 8 ∷ []) (9 ∷ 10 ∷ 11 ∷ 12 ∷ []) []
      threes-IsValid refl (omega arith) (omega arith) (omega arith)

read-clear_example : read 5 (clear threes) ≡ fault
read-clear_example = read-clear 5 threes threes-IsValid (omega arith) (omega arith)

read-write_example :
    (t : ByteArray) × (((write (7 ∷ 8 ∷ []) >> set_position 2) >> read 2) half_full
      ≡ ok (7 ∷ 8 ∷ []) t)
    × (t.position ≡ 4)
    × (contents t ≡ overwrite (1 ∷ 2 ∷ []) 2 (7 ∷ 8 ∷ []))
read-write_example =
    read-write (7 ∷ 8 ∷ []) half_full half_full-IsValid (omega arith) (inl refl) (inr (omega arith))

write_fixed-encoded_example :
    write_fixed little 4 0x01020304 start ≡ write (1 ∷ 2 ∷ 3 ∷ 4 ∷ []) start
write_fixed-encoded_example = write_fixed-encoded little 4 0x01020304 start

read_uint32-write_uint32_example :
    (t : ByteArray) × (((write_uint32 300 >> set_position 0) >> read_uint32) start ≡ ok 300 t)
    × IsValid t
    × (remaining t ≡ drop (0 + length (varint_bytes 4 300)) (contents start))
unfolding varint_bytes
read_uint32-write_uint32_example =
    read_uint32-write_uint32 300 start start-IsValid (omega arith) (inl refl)

-- -3
read_int32-write_int32_example :
    (t : ByteArray) × (((write_int32 0xffff_fffd >> set_position 0) >> read_int32) start
      ≡ ok 0xffff_fffd t)
    × IsValid t
    × (remaining t
        ≡ drop (0 + length (varint_bytes 4 (encode_zigzag32 0xffff_fffd))) (contents start))
unfolding varint_bytes encode_zigzag32
read_int32-write_int32_example =
    read_int32-write_int32 0xffff_fffd start start-IsValid (omega arith) (inl refl)
