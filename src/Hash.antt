-- ===== src/Hash.antt =====
-- The hash functions of cxk/util/hash_util.cpp. A pointer is an `Option`, the memory it points to a
-- list of bytes.
use cxkframework.Prelude.{
  ℕ, zero, suc, ◌+◌, ◌-◌, ◌*◌, ◌/◌, ◌%◌, ◌^◌, Option, none, some, List, [], ◌∷◌, ◌==◌,
  if◌then◌else◌, length, leb, ltb,
}
use cxkframework.Prelude.Bits.{bit_or, bit_xor}
pub mod Mixing
pub mod Seeds
pub mod Quick
mod Tests

-- `x * y` and `x + y` on uint32_t
abbrev pub times : ℕ → ℕ → ℕ
times x y = x * y % 2 ^ 32

abbrev pub plus : ℕ → ℕ → ℕ
plus x y = (x + y) % 2 ^ 32

-- `ROTL`
unfoldable pub rotl : ℕ → ℕ → ℕ
rotl x r = bit_or (x * 2 ^ r % 2 ^ 32) (x / 2 ^ (32 - r))

-- `h ^= h >> r`
abbrev pub xor_shift : ℕ → ℕ → ℕ
xor_shift r h = bit_xor h (h / 2 ^ r)

unfoldable pub fmix32 : ℕ → ℕ
fmix32 h = xor_shift 16 (times (xor_shift 13 (times (xor_shift 16 h) 0x85ebca6b)) 0xc2b2ae35)

-- what a block, or the tail, adds to the hash
unfoldable pub scramble : ℕ → ℕ
unfolding rotl
scramble s = times (rotl (times s 0xcc9e2d51) 15) 0x1b873593

unfoldable pub mix_block : ℕ → ℕ → ℕ
mix_block h s = plus (times (rotl (bit_xor h (scramble s)) 13) 5) 0xe6546b64

-- The switch over the last bytes, which are fewer than four.
unfoldable pub mix_tail : ℕ → List ℕ → ℕ
mix_tail h [] = h
mix_tail h (a ∷ []) = bit_xor h (scramble a)
mix_tail h (a ∷ b ∷ []) = bit_xor h (scramble (bit_or (b * 2 ^ 8) a))
mix_tail h (a ∷ b ∷ c ∷ rest) = bit_xor h (scramble (bit_or (bit_or (c * 2 ^ 16) (b * 2 ^ 8)) a))

-- The loop over the blocks, read as uint32_t, and the tail.
unfoldable pub mix : ℕ → List ℕ → ℕ
unfolding mix_block mix_tail
mix h (a ∷ b ∷ c ∷ d ∷ rest) = mix (mix_block h (a + b * 2 ^ 8 + c * 2 ^ 16 + d * 2 ^ 24)) rest
mix h bytes = mix_tail h bytes

-- `murmur3_hash` of memory. `len` is an int: from 2 ^ 31 on it is negative, there are no blocks, and
-- the tail, if there is one, is read before the memory, which `none` stands for.
unfoldable pub murmur3_hash : Option (List ℕ) → ℕ → Option ℕ
unfolding fmix32 mix
murmur3_hash none seed = some 0
murmur3_hash (some bytes) seed =
    if leb (2 ^ 31) (length bytes)
    then (if length bytes % 4 == 0 then some (fmix32 (bit_xor seed (length bytes))) else none)
    else some (fmix32 (bit_xor (mix seed bytes) (length bytes)))

-- the bytes of a text before its NUL
abbrev pub text_bytes : List ℕ → List ℕ
text_bytes [] = []
text_bytes (b ∷ bs) = if b == 0 then [] else b ∷ text_bytes bs

-- `murmur3_hash` of a text, whose length is that of the bytes before the NUL
unfoldable pub murmur3_text : Option (List ℕ) → ℕ → Option ℕ
unfolding fmix32 mix
murmur3_text none seed = some 0
murmur3_text (some str) seed =
    let len = length (text_bytes str) in
    if leb (2 ^ 31) len
    then (if len % 4 == 0 then some (fmix32 (bit_xor seed len)) else none)
    else some (fmix32 (bit_xor (mix seed (text_bytes str)) len))

abbrev pub halves : Option ℕ → Option ℕ → Option ℕ
halves (some h) (some l) = some (bit_or (h * 2 ^ 32) l)
halves _ _ = none

unfoldable pub murmur3_hash64 : Option (List ℕ) → ℕ → ℕ → Option ℕ
unfolding murmur3_hash
murmur3_hash64 ptr seed seed2 = halves (murmur3_hash ptr seed) (murmur3_hash ptr seed2)

-- a char as an unsigned int: it is signed
abbrev pub char_value : ℕ → ℕ
char_value c = if ltb c 128 then c else c + (2 ^ 32 - 256)

-- `quick_hash` of a text
unfoldable pub quick_loop : ℕ → List ℕ → ℕ
quick_loop h [] = h
quick_loop h (c ∷ cs) = if c == 0 then h else quick_loop ((31 * h + char_value c) % 2 ^ 32) cs

-- `quick_hash` of memory: the loop reads the first byte in each round, and a byte after the memory
-- is `none`.
unfoldable pub quick_memory : ℕ → List ℕ → ℕ → Option ℕ
quick_memory h bytes zero = some h
quick_memory h [] (suc size) = none
quick_memory h (c ∷ cs) (suc size) = quick_memory ((31 * h + char_value c) % 2 ^ 32) (c ∷ cs) size
