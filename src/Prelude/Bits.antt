-- ===== src/Prelude/Bits.antt =====
-- The bit operations as arithmetic, at every width: a mask of low bits, fields that do not overlap,
-- and exclusive or.
use cxkframework.Prelude.{
  ℕ, zero, suc, ◌+◌, ◌-◌, ◌*◌, ◌/◌, ◌%◌, ◌^◌, ◌≤◌, ◌<◌, min, max, ◌≡◌, refl, ap, ◌∙◌, arith,
}
use Prim.Native.Nat.{digits, bitwise, differ, bit_and-bitwise, bit_or-bitwise, bit_xor-bitwise}
pub use Prim.Native.Nat.{bit_and, bit_or, bit_xor}
use native.Mathlib.Nat.{pow-suc}

module _ (z : ℕ → ℕ) (f : ℕ → ℕ → ℕ) where
  -- More digits than the first number has change nothing.
  digits_settle : (m k a b : ℕ) → a ≤ m → m ≤ k → digits z f k a b ≡ digits z f m a b
  digits_settle zero zero a b small more = refl
  digits_settle zero (suc k) zero b small more = refl
  digits_settle zero (suc k) (suc a) b small more = absurd (omega arith)
  digits_settle (suc m) zero a b small more = absurd (omega arith)
  digits_settle (suc m) (suc k) zero b small more = refl
  digits_settle (suc m) (suc k) (suc a) b small more =
      ap (λ (t : ℕ). t * 2 + f (suc a % 2) (b % 2))
        (digits_settle m k (suc a / 2) (b / 2) (omega arith) (omega arith))

  bitwise_digit :
      (a b : ℕ) → 0 < a → bitwise z f a b ≡ bitwise z f (a / 2) (b / 2) * 2 + f (a % 2) (b % 2)
  bitwise_digit zero b h = absurd (omega arith)
  bitwise_digit (suc a) b h =
      ap (λ (t : ℕ). t * 2 + f (suc a % 2) (b % 2))
        (digits_settle (suc a / 2) a (suc a / 2) (b / 2) (omega arith) (omega arith))

or_digit : (x y : ℕ) → bit_or x y ≡ bit_or (x / 2) (y / 2) * 2 + max (x % 2) (y % 2)
or_digit (suc x) y = simp bit_or-bitwise (bitwise_digit (λ b. b) max (suc x) y (omega arith))
or_digit zero y = simp bit_or-bitwise (omega arith)

and_digit : (x y : ℕ) → bit_and x y ≡ bit_and (x / 2) (y / 2) * 2 + min (x % 2) (y % 2)
and_digit (suc x) y = simp bit_and-bitwise (bitwise_digit (λ _. 0) min (suc x) y (omega arith))
and_digit zero y = simp bit_and-bitwise (omega arith)

differ_lem : (x y : ℕ) → x < 2 → y < 2 → differ x y ≡ (x + y) % 2
differ_lem zero zero hx hy = refl
differ_lem zero (suc zero) hx hy = refl
differ_lem (suc zero) zero hx hy = refl
differ_lem (suc zero) (suc zero) hx hy = refl
differ_lem (suc (suc x)) y hx hy = absurd (omega arith)
differ_lem zero (suc (suc y)) hx hy = absurd (omega arith)
differ_lem (suc zero) (suc (suc y)) hx hy = absurd (omega arith)

xor_digit : (a b : ℕ) → bit_xor a b ≡ bit_xor (a / 2) (b / 2) * 2 + (a % 2 + b % 2) % 2
xor_digit zero b = simp bit_xor-bitwise (omega arith)
xor_digit (suc a) b =
    simp bit_xor-bitwise (bitwise_digit (λ b. b) differ (suc a) b (omega arith))
    ∙ ap (λ (t : ℕ). bit_xor (suc a / 2) (b / 2) * 2 + t)
        (differ_lem (suc a % 2) (b % 2) (omega arith) (omega arith))

and_zero_below : (k a : ℕ) → a ≤ k → bit_and a 0 ≡ 0
and_zero_below k zero h = refl
and_zero_below zero (suc a) h = absurd (omega arith)
and_zero_below (suc k) (suc a) h =
    omega (arith, and_digit (suc a) 0, and_zero_below k (suc a / 2) (omega arith))

or_zero_below : (k a : ℕ) → a ≤ k → bit_or a 0 ≡ a
or_zero_below k zero h = refl
or_zero_below zero (suc a) h = absurd (omega arith)
or_zero_below (suc k) (suc a) h =
    omega (arith, or_digit (suc a) 0, or_zero_below k (suc a / 2) (omega arith))

zero-bit_or : (b : ℕ) → bit_or 0 b ≡ b
zero-bit_or b = bit_or-bitwise 0 b

-- `v & 1`
pub bit_and_one : (v : ℕ) → bit_and v 1 ≡ v % 2
bit_and_one v = omega (arith, and_digit v 1, and_zero_below (v / 2) (v / 2) (omega arith))

-- the masks of more low bits
bit_and_03 : (v : ℕ) → bit_and v 3 ≡ v % 4
bit_and_03 v = omega (arith, and_digit v 3, bit_and_one (v / 2))

bit_and_07 : (v : ℕ) → bit_and v 7 ≡ v % 8
bit_and_07 v = omega (arith, and_digit v 7, bit_and_03 (v / 2))

pub bit_and_0f : (v : ℕ) → bit_and v 0xf ≡ v % 16
bit_and_0f v = omega (arith, and_digit v 0xf, bit_and_07 (v / 2))

bit_and_1f : (v : ℕ) → bit_and v 0x1f ≡ v % 32
bit_and_1f v = omega (arith, and_digit v 0x1f, bit_and_0f (v / 2))

pub bit_and_3f : (v : ℕ) → bit_and v 0x3f ≡ v % 64
bit_and_3f v = omega (arith, and_digit v 0x3f, bit_and_1f (v / 2))

pub bit_and_7f : (v : ℕ) → bit_and v 0x7f ≡ v % 128
bit_and_7f v = omega (arith, and_digit v 0x7f, bit_and_3f (v / 2))

pub bit_and_ff : (v : ℕ) → bit_and v 0xff ≡ v % 256
bit_and_ff v = omega (arith, and_digit v 0xff, bit_and_7f (v / 2))

-- `r | q << k`, where `r` has at most `k` bits
pub bit_or_shifted : (k r q : ℕ) → r < 2 ^ k → bit_or r (q * 2 ^ k) ≡ r + q * 2 ^ k
bit_or_shifted zero zero q h = zero-bit_or (q * 2 ^ 0) ∙ omega arith
bit_or_shifted zero (suc r) q h = absurd (omega arith)
bit_or_shifted (suc k) r q h =
    let twice : q * 2 ^ suc k ≡ 2 * (q * 2 ^ k) =
      omega (arith, ap (λ (t : ℕ). q * t) (pow-suc 2 k)) in
    rw twice (
      omega (
        arith,
        or_digit r (2 * (q * 2 ^ k)),
        pow-suc 2 k,
        bit_or_shifted k (r / 2) q (omega (arith, pow-suc 2 k)),
        ap (λ (t : ℕ). bit_or (r / 2) t) half,
      ))
  where
    half : 2 * (q * 2 ^ k) / 2 ≡ q * 2 ^ k
    half = omega arith

xor_twice_below : (k a m : ℕ) → a ≤ k → m ≤ k → bit_xor (bit_xor a m) m ≡ a
xor_twice_below zero zero zero ha hm = refl
xor_twice_below zero (suc a) m ha hm = absurd (omega arith)
xor_twice_below zero zero (suc m) ha hm = absurd (omega arith)
xor_twice_below (suc k) a m ha hm =
    let x = bit_xor a m in
    let half : x / 2 ≡ bit_xor (a / 2) (m / 2) = omega (arith, xor_digit a m) in
    omega (
      arith,
      xor_digit a m,
      xor_digit x m,
      ap (λ (t : ℕ). bit_xor t (m / 2)) half,
      xor_twice_below k (a / 2) (m / 2) (omega arith) (omega arith),
    )

pub bit_xor_half : (a b : ℕ) → bit_xor a b / 2 ≡ bit_xor (a / 2) (b / 2)
bit_xor_half a b = omega (arith, xor_digit a b)

-- Masking twice with the same mask gives the value back.
pub bit_xor-bit_xor : (a m : ℕ) → bit_xor (bit_xor a m) m ≡ a
bit_xor-bit_xor a m = xor_twice_below (a + m) a m (omega arith) (omega arith)

-- A mask of ones turns `x` into its complement.
pub bit_xor_ones : (k x m : ℕ) → m + 1 ≡ 2 ^ k → x ≤ m → bit_xor x m ≡ m - x
bit_xor_ones zero zero zero hm hx = refl
bit_xor_ones zero x (suc m) hm hx = absurd (omega arith)
bit_xor_ones zero (suc x) zero hm hx = absurd (omega arith)
bit_xor_ones (suc k) x m hm hx = omega (
  arith,
  xor_digit x m,
  pow-suc 2 k,
  bit_xor_ones k (x / 2) (m / 2) (omega (arith, pow-suc 2 k)) (omega arith),
)

pub bit_xor-zero : (x : ℕ) → bit_xor x 0 ≡ x
bit_xor-zero x = below x x (omega arith)
  where
    below : (k y : ℕ) → y ≤ k → bit_xor y 0 ≡ y
    below k zero h = refl
    below zero (suc y) h = absurd (omega arith)
    below (suc k) (suc y) h = omega (arith, xor_digit (suc y) 0, below k (suc y / 2) (omega arith))

-- A byte stays a byte.
pub bit_xor-lt : (k a b : ℕ) → a < 2 ^ k → b < 2 ^ k → bit_xor a b < 2 ^ k
bit_xor-lt zero zero zero ha hb = omega arith
bit_xor-lt zero (suc a) b ha hb = absurd (omega arith)
bit_xor-lt zero zero (suc b) ha hb = absurd (omega arith)
bit_xor-lt (suc k) a b ha hb = omega (
  arith,
  xor_digit a b,
  pow-suc 2 k,
  bit_xor-lt k (a / 2) (b / 2) (omega (arith, pow-suc 2 k)) (omega (arith, pow-suc 2 k)),
)

or_comm_below : (k a b : ℕ) → a ≤ k → b ≤ k → bit_or a b ≡ bit_or b a
or_comm_below zero zero zero ha hb = refl
or_comm_below zero (suc a) b ha hb = absurd (omega arith)
or_comm_below zero zero (suc b) ha hb = absurd (omega arith)
or_comm_below (suc k) a b ha hb =
    omega (
      arith,
      or_digit a b,
      or_digit b a,
      or_comm_below k (a / 2) (b / 2) (omega arith) (omega arith),
    )

-- `q << k | r`, where `r` has at most `k` bits
pub shifted_bit_or : (k r q : ℕ) → r < 2 ^ k → bit_or (q * 2 ^ k) r ≡ q * 2 ^ k + r
shifted_bit_or k r q h =
    or_comm_below (q * 2 ^ k + r) (q * 2 ^ k) r (omega arith) (omega arith)
    ∙ (bit_or_shifted k r q h ∙ omega arith)
