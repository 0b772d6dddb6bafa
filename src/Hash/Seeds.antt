-- ===== src/Hash/Seeds.antt =====
-- The murmur3 hashes of cxk/util/hash_util.cpp for the same memory and other seeds.
use cxkframework.Prelude.{
  ℕ, ◌+◌, ◌*◌, ◌^◌, ◌<◌, ◌≡◌, refl, sym, ap, ◌∙◌, false, some, List, [], ◌∷◌, ◌++◌, All, ◌==◌,
  length, leb, arith,
}
use cxkframework.Prelude.Bits.{bit_or, bit_xor, bit_xor-lt, shifted_bit_or}
use cxkframework.Hash.{
  fmix32, scramble, mix_block, mix_tail, mix, murmur3_hash, text_bytes, murmur3_text,
  murmur3_hash64,
}
use cxkframework.Hash.Mixing.{
  xor_right, fmix32_injective, fmix32-lt, scramble-lt, mix_block-lt, mix_block_injective,
}

mix_tail-lt : (h : ℕ) (bs : List ℕ) → h < 2 ^ 32 → mix_tail h bs < 2 ^ 32
unfolding mix_tail
mix_tail-lt h [] l = l
mix_tail-lt h (a ∷ []) l = bit_xor-lt 32 h _ l (scramble-lt a)
mix_tail-lt h (a ∷ b ∷ []) l = bit_xor-lt 32 h _ l (scramble-lt (bit_or (b * 2 ^ 8) a))
mix_tail-lt h (a ∷ b ∷ c ∷ bs) l =
    bit_xor-lt 32 h _ l (scramble-lt (bit_or (bit_or (c * 2 ^ 16) (b * 2 ^ 8)) a))

mix_tail_injective : (a b : ℕ) (bs : List ℕ) → mix_tail a bs ≡ mix_tail b bs → a ≡ b
unfolding mix_tail
mix_tail_injective a b [] e = e
mix_tail_injective a b (x ∷ []) e = xor_right a b (scramble x) e
mix_tail_injective a b (x ∷ y ∷ []) e = xor_right a b (scramble (bit_or (y * 2 ^ 8) x)) e
mix_tail_injective a b (x ∷ y ∷ z ∷ bs) e =
    xor_right a b (scramble (bit_or (bit_or (z * 2 ^ 16) (y * 2 ^ 8)) x)) e

mix-lt : (h : ℕ) (bs : List ℕ) → h < 2 ^ 32 → mix h bs < 2 ^ 32
unfolding mix
mix-lt h (a ∷ b ∷ c ∷ d ∷ bs) l =
    mix-lt (mix_block h (a + b * 2 ^ 8 + c * 2 ^ 16 + d * 2 ^ 24)) bs
      (mix_block-lt h (a + b * 2 ^ 8 + c * 2 ^ 16 + d * 2 ^ 24))
mix-lt h [] l = mix_tail-lt h [] l
mix-lt h (a ∷ []) l = mix_tail-lt h (a ∷ []) l
mix-lt h (a ∷ b ∷ []) l = mix_tail-lt h (a ∷ b ∷ []) l
mix-lt h (a ∷ b ∷ c ∷ []) l = mix_tail-lt h (a ∷ b ∷ c ∷ []) l

mix_injective : (a b : ℕ) (bs : List ℕ) → a < 2 ^ 32 → b < 2 ^ 32 → mix a bs ≡ mix b bs → a ≡ b
unfolding mix
mix_injective a b (x ∷ y ∷ z ∷ w ∷ bs) la lb e =
    let s = x + y * 2 ^ 8 + z * 2 ^ 16 + w * 2 ^ 24 in
    mix_block_injective a b s la lb
      (mix_injective (mix_block a s) (mix_block b s) bs (mix_block-lt a s) (mix_block-lt b s) e)
mix_injective a b [] la lb e = mix_tail_injective a b [] e
mix_injective a b (x ∷ []) la lb e = mix_tail_injective a b (x ∷ []) e
mix_injective a b (x ∷ y ∷ []) la lb e = mix_tail_injective a b (x ∷ y ∷ []) e
mix_injective a b (x ∷ y ∷ z ∷ []) la lb e = mix_tail_injective a b (x ∷ y ∷ z ∷ []) e

some_injective : {a b : ℕ} → some a ≡ some b → a ≡ b
some_injective e = cc

module _ (bytes : List ℕ) (short : length bytes < 2 ^ 31) where
  -- the hash of memory that an int can count
  abbrev hashed : ℕ → ℕ
  hashed seed = fmix32 (bit_xor (mix seed bytes) (length bytes))

  murmur3_hash_short : (seed : ℕ) → murmur3_hash (some bytes) seed ≡ some (hashed seed)
  unfolding murmur3_hash
  murmur3_hash_short seed =
      let usual : leb (2 ^ 31) (length bytes) ≡ false = ground arith in rw usual refl

  hashed-lt : (seed : ℕ) → seed < 2 ^ 32 → hashed seed < 2 ^ 32
  hashed-lt seed l =
      fmix32-lt _
        (bit_xor-lt 32 (mix seed bytes) (length bytes) (mix-lt seed bytes l) (omega arith))

  hashed_injective : (a b : ℕ) → a < 2 ^ 32 → b < 2 ^ 32 → hashed a ≡ hashed b → a ≡ b
  hashed_injective a b la lb e = mix_injective a b bytes la lb (
      xor_right (mix a bytes) (mix b bytes) (length bytes) (
        fmix32_injective _ _
          (bit_xor-lt 32 (mix a bytes) (length bytes) (mix-lt a bytes la) (omega arith))
          (bit_xor-lt 32 (mix b bytes) (length bytes) (mix-lt b bytes lb) (omega arith)) e))

  murmur3_hash64_short :
      (a b : ℕ) → b < 2 ^ 32 → murmur3_hash64 (some bytes) a b ≡ some (hashed a * 2 ^ 32 + hashed b)
  unfolding murmur3_hash64
  murmur3_hash64_short a b lb = rw (murmur3_hash_short a) (
      rw (murmur3_hash_short b)
        (ap some (shifted_bit_or 32 (hashed b) (hashed a) (hashed-lt b lb))))

  -- Over the same memory of fewer than 2 ^ 31 bytes, two calls of murmur3_hash64 with seeds below 2
  -- ^ 32 return the same value only if both their seeds are the same.
  pub murmur3_hash64_injective :
      (a a2 b b2 : ℕ)
      → a < 2 ^ 32
      → a2 < 2 ^ 32
      → b < 2 ^ 32
      → b2 < 2 ^ 32
      → murmur3_hash64 (some bytes) a a2 ≡ murmur3_hash64 (some bytes) b b2
      → (a ≡ b) × (a2 ≡ b2)
  murmur3_hash64_injective a a2 b b2 la la2 lb lb2 e =
      let same : hashed a * 2 ^ 32 + hashed a2 ≡ hashed b * 2 ^ 32 + hashed b2 =
        some_injective (sym (murmur3_hash64_short a a2 la2) ∙ e ∙ murmur3_hash64_short b b2 lb2) in
      (
        hashed_injective a b la lb (omega (arith, same, hashed-lt a2 la2, hashed-lt b2 lb2)),
        hashed_injective a2 b2 la2 lb2 (omega (arith, same, hashed-lt a2 la2, hashed-lt b2 lb2)),
      )

text_bytes-append : (bs rest : List ℕ) → All (λ b. 0 < b) bs → text_bytes (bs ++ (0 ∷ rest)) ≡ bs
text_bytes-append [] rest a = refl
text_bytes-append (b ∷ bs) rest (pos, a) =
    let other : (b == 0) ≡ false = ground arith in
    rw other (ap (λ t. b ∷ t) (text_bytes-append bs rest a))

-- The hash of a text that ends at its first NUL is that of the memory before the NUL.
pub murmur3_text_lem :
    (bs rest : List ℕ) (seed : ℕ)
    → All (λ b. 0 < b) bs
    → murmur3_text (some (bs ++ (0 ∷ rest))) seed ≡ murmur3_hash (some bs) seed
unfolding murmur3_text murmur3_hash
murmur3_text_lem bs rest seed a = rw (text_bytes-append bs rest a) refl
