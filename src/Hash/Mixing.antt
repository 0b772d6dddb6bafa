-- ===== src/Hash/Mixing.antt =====
-- Each step of the murmur3 hash of cxk/util/hash_util.cpp loses nothing.
use cxkframework.Prelude.{
  ℕ, zero, suc, ◌+◌, ◌*◌, ◌/◌, ◌%◌, ◌^◌, ◌≤◌, ◌<◌, ◌≡◌, refl, sym, ap, ◌∙◌, subst, arith,
}
use cxkframework.Prelude.Bits.{
  bit_or, bit_xor, bit_xor-bit_xor, bit_xor-lt, shifted_bit_or, bit_xor_half,
}
use cxkframework.Hash.{times, rotl, xor_shift, fmix32, scramble, mix_block}
use native.Mathlib.Nat.{pow-suc, div-div-eq-div-mul, div-le_self}

undo : {a b c d : ℕ} (f : ℕ → ℕ) → f c ≡ a → f d ≡ b → c ≡ d → a ≡ b
undo f p q e = sym p ∙ ap f e ∙ q

times_first : (x : ℕ) → x < 2 ^ 32 → times (times x 0x85ebca6b) 0xa5cb9243 ≡ x
times_first x l = omega arith

times_second : (x : ℕ) → x < 2 ^ 32 → times (times x 0xc2b2ae35) 0x7ed1b41d ≡ x
times_second x l = omega arith

times_five : (x : ℕ) → x < 2 ^ 32 → times (times x 5) 0xcccccccd ≡ x
times_five x l = omega arith

rotl_13 : (x : ℕ) → x < 2 ^ 32 → rotl x 13 ≡ x % 2 ^ 19 * 2 ^ 13 + x / 2 ^ 19
unfolding rotl
rotl_13 x l =
    ap (λ t. bit_or t (x / 2 ^ 19)) (omega arith)
    ∙ shifted_bit_or 13 (x / 2 ^ 19) (x % 2 ^ 19) (omega arith)

pub xor_right : (a b m : ℕ) → bit_xor a m ≡ bit_xor b m → a ≡ b
xor_right a b m e = sym (bit_xor-bit_xor a m) ∙ ap (λ t. bit_xor t m) e ∙ bit_xor-bit_xor b m

half_shift : (k x : ℕ) → x / 2 ^ suc k ≡ x / 2 / 2 ^ k
half_shift k x = ap (λ t. x / t) (pow-suc 2 k ∙ omega arith) ∙ sym (div-div-eq-div-mul x 2 (2 ^ k))

-- a shift of an exclusive or
bit_xor_shift : (k a b : ℕ) → bit_xor a b / 2 ^ k ≡ bit_xor (a / 2 ^ k) (b / 2 ^ k)
bit_xor_shift zero a b =
    let first : a / 1 ≡ a = omega arith in
    let second : b / 1 ≡ b = omega arith in
    let all : bit_xor a b / 1 ≡ bit_xor a b = omega arith in rw all (rw first (rw second refl))
bit_xor_shift (suc k) a b =
    half_shift k (bit_xor a b)
    ∙ ap (λ t. t / 2 ^ k) (bit_xor_half a b)
    ∙ bit_xor_shift k (a / 2) (b / 2)
    ∙ ap (λ t. bit_xor t (b / 2 / 2 ^ k)) (sym (half_shift k a))
    ∙ ap (λ t. bit_xor (a / 2 ^ suc k) t) (sym (half_shift k b))

shift_le_half : (r x : ℕ) → 0 < r → x / 2 ^ r ≤ x / 2
shift_le_half zero x pos = absurd (omega arith)
shift_le_half (suc k) x pos =
    subst (λ t. t ≤ x / 2) (sym (half_shift k x)) (div-le_self (x / 2) (2 ^ k))

shift_below : (n r a b : ℕ) → 0 < r → a ≤ n → b ≤ n → xor_shift r a ≡ xor_shift r b → a ≡ b
shift_below zero r a b pos la lb e = omega arith
shift_below (suc n) r a b pos la lb e =
    let high : a / 2 ^ r ≡ b / 2 ^ r =
      shift_below n r (a / 2 ^ r) (b / 2 ^ r) pos (omega (arith, shift_le_half r a pos))
        (omega (arith, shift_le_half r b pos))
        (sym (bit_xor_shift r a (a / 2 ^ r))
          ∙ ap (λ t. t / 2 ^ r) e
          ∙ bit_xor_shift r b (b / 2 ^ r)) in
    xor_right a b (a / 2 ^ r) (e ∙ ap (bit_xor b) (sym high))

-- `h ^= h >> r` loses nothing.
pub xor_shift_injective : (r a b : ℕ) → 0 < r → xor_shift r a ≡ xor_shift r b → a ≡ b
xor_shift_injective r a b pos e = shift_below (a + b) r a b pos (omega arith) (omega arith) e

xor_shift-lt : (r h : ℕ) → h < 2 ^ 32 → xor_shift r h < 2 ^ 32
xor_shift-lt r h l = bit_xor-lt 32 h (h / 2 ^ r) l (omega (arith, div-le_self h (2 ^ r)))

-- the last mixing
pub fmix32_injective : (a b : ℕ) → a < 2 ^ 32 → b < 2 ^ 32 → fmix32 a ≡ fmix32 b → a ≡ b
unfolding fmix32
fmix32_injective a b la lb e = xor_shift_injective 16 a b (omega arith) (
    undo (λ t. times t 0xa5cb9243) (times_first (xor_shift 16 a) (xor_shift-lt 16 a la))
      (times_first (xor_shift 16 b) (xor_shift-lt 16 b lb))
      (xor_shift_injective 13 _ _ (omega arith) (
        undo (λ t. times t 0x7ed1b41d) (times_second _ (xor_shift-lt 13 _ (omega arith)))
          (times_second _ (xor_shift-lt 13 _ (omega arith)))
          (xor_shift_injective 16 _ _ (omega arith) e))))

pub fmix32-lt : (h : ℕ) → h < 2 ^ 32 → fmix32 h < 2 ^ 32
unfolding fmix32
fmix32-lt h l = xor_shift-lt 16 _ (omega arith)

rotl_13_injective : (a b : ℕ) → a < 2 ^ 32 → b < 2 ^ 32 → rotl a 13 ≡ rotl b 13 → a ≡ b
rotl_13_injective a b la lb e = omega (arith, rotl_13 a la, rotl_13 b lb)

rotl_13-lt : (a : ℕ) → a < 2 ^ 32 → rotl a 13 < 2 ^ 32
rotl_13-lt a l = omega (arith, rotl_13 a l)

pub scramble-lt : (s : ℕ) → scramble s < 2 ^ 32
unfolding scramble
scramble-lt s = omega arith

pub mix_block-lt : (h s : ℕ) → mix_block h s < 2 ^ 32
unfolding mix_block
mix_block-lt h s = omega arith

pub mix_block_injective :
    (a b s : ℕ) → a < 2 ^ 32 → b < 2 ^ 32 → mix_block a s ≡ mix_block b s → a ≡ b
unfolding mix_block
mix_block_injective a b s la lb e =
    let first = bit_xor-lt 32 a (scramble s) la (scramble-lt s) in
    let second = bit_xor-lt 32 b (scramble s) lb (scramble-lt s) in
    xor_right a b (scramble s) (
      rotl_13_injective _ _ first second (
        undo (λ t. times t 0xcccccccd) (times_five _ (rotl_13-lt _ first))
          (times_five _ (rotl_13-lt _ second)) (omega arith)))
