-- ===== src/Hash/Tests.antt =====
-- Hashes of cxk/util/hash_util.cpp at concrete bytes.
use cxkframework.Prelude.{ℕ, ◌+◌, ◌*◌, ◌≡◌, refl, some, List, [], ◌∷◌, arith}
use cxkframework.Hash.{
  murmur3_hash, murmur3_text, mix, mix_block, mix_tail, scramble, rotl, fmix32, quick_loop,
}
use cxkframework.Hash.Seeds.{murmur3_hash64_injective}

-- the published value for "test" and the seed 0
hash_of_test : murmur3_hash (some (b't' ∷ b'e' ∷ b's' ∷ b't' ∷ [])) 0 ≡ some 0xba6bd213
unfolding murmur3_hash mix mix_block mix_tail scramble rotl fmix32
hash_of_test = refl

-- and for "Hello, world!" with the seed 1234, up to its NUL
hash_of_text :
    murmur3_text
      (some (
        b'H' ∷ b'e' ∷ b'l' ∷ b'l' ∷ b'o' ∷ b',' ∷ b' ' ∷ b'w' ∷ b'o' ∷ b'r' ∷ b'l' ∷ b'd' ∷ b'!' ∷ 0
        ∷ 9 ∷ []))
      1234
    ≡ some 0xfaf6cdb3
unfolding murmur3_text mix mix_block mix_tail scramble rotl fmix32
hash_of_text = refl

quick_of_ab : quick_loop 0 (b'a' ∷ b'b' ∷ 0 ∷ b'c' ∷ []) ≡ 31 * b'a' + b'b'
unfolding quick_loop
quick_of_ab = refl

abbrev bytes : List ℕ
bytes = b'a' ∷ b'b' ∷ b'c' ∷ b'd' ∷ b'e' ∷ []

abbrev seed : ℕ
seed = 7

abbrev seed2 : ℕ
seed2 = 9

murmur3_hash64_injective_example : (seed ≡ seed) × (seed2 ≡ seed2)
murmur3_hash64_injective_example =
    murmur3_hash64_injective bytes (omega arith) seed seed2 seed seed2 (omega arith) (omega arith)
      (omega arith) (omega arith) refl
