-- ===== src/ByteArray/FixedTrip.antt =====
-- The integers of fixed width, written and read back (cxk/bytearray.cpp, cxk/endian.h).
use cxkframework.Prelude.{
  subst, ℕ, zero, suc, ◌+◌, ◌*◌, ◌/◌, ◌%◌, ◌^◌, ◌<◌, ◌≡◌, refl, sym, ap, ◌∙◌, List, [], ◌∷◌, arith,
  length, All, reverse, reverse-reverse, length-reverse, All-reverse, if◌then◌else◌,
}
use native.Mathlib.Nat.{pow-suc}
use cxkframework.ByteArray.{
  ByteArray, ok, ◌>>=◌, ◌>>◌, Endian, little, big, write, read, set_position,
}
use cxkframework.ByteArray.Invariant.{IsValid}
use cxkframework.ByteArray.Grow.{RoundsUp}
use cxkframework.ByteArray.Steps.{then_ok}
use cxkframework.ByteArray.Read.{InReach}
use cxkframework.ByteArray.RoundTrip.{Rewound, write_back, read_back}
use cxkframework.ByteArray.Fixed.{
  le_bytes, le_value, in_order, same_order, byteswap, write_fixed, read_fixed,
}

abbrev pub IsByte : ℕ → Type 0
IsByte b = b < 256

pub length-le_bytes : (n v : ℕ) → length (le_bytes n v) ≡ n
length-le_bytes zero v = refl
length-le_bytes (suc n) v = ap suc (length-le_bytes n (v / 256))

le_bytes-IsByte : (n v : ℕ) → All IsByte (le_bytes n v)
le_bytes-IsByte zero v = tt
le_bytes-IsByte (suc n) v = (omega arith, le_bytes-IsByte n (v / 256))

pub le_value-le_bytes : (n v : ℕ) → v < 256 ^ n → le_value (le_bytes n v) ≡ v
le_value-le_bytes zero v h = omega arith
le_value-le_bytes (suc n) v h =
    omega (arith, le_value-le_bytes n (v / 256) (omega (arith, pow-suc 256 n)))

le_bytes-le_value : (bs : List ℕ) → All IsByte bs → le_bytes (length bs) (le_value bs) ≡ bs
le_bytes-le_value [] h = refl
le_bytes-le_value (b ∷ bs) (hb, hbs) =
    let low : (b + 256 * le_value bs) % 256 ≡ b = omega arith in
    let high : (b + 256 * le_value bs) / 256 ≡ le_value bs = omega arith in
    rw (low, high, le_bytes-le_value bs hbs)

pub le_bytes-byteswap : (n v : ℕ) → le_bytes n (byteswap n v) ≡ reverse (le_bytes n v)
unfolding byteswap
le_bytes-byteswap n v =
    let len : length (reverse (le_bytes n v)) ≡ n =
      length-reverse (le_bytes n v) ∙ length-le_bytes n v in
    ap (λ (k : ℕ). le_bytes k (byteswap n v)) (sym len)
    ∙ le_bytes-le_value (reverse (le_bytes n v)) (All-reverse IsByte _ (le_bytes-IsByte n v))

-- Swapping twice gives a value of `n` bytes back.
pub byteswap-byteswap : (n v : ℕ) → v < 256 ^ n → byteswap n (byteswap n v) ≡ v
unfolding byteswap
byteswap-byteswap n v h =
    ap (λ (bs : List ℕ). le_value (reverse bs)) (le_bytes-byteswap n v)
    ∙ ap le_value (reverse-reverse (le_bytes n v))
    ∙ le_value-le_bytes n v h

-- The bytes of a value in the buffer's order.
abbrev pub encoded : Endian → ℕ → ℕ → List ℕ
encoded e n v = in_order e (le_bytes n v)

length-encoded : (e : Endian) (n v : ℕ) → length (encoded e n v) ≡ n
length-encoded little n v = length-le_bytes n v
length-encoded big n v = length-reverse (le_bytes n v) ∙ length-le_bytes n v

stored :
    (host e : Endian) (n v : ℕ)
    → in_order host (le_bytes n (if same_order e host then v else byteswap n v)) ≡ encoded e n v
stored little little n v = refl
stored big big n v = refl
stored little big n v = le_bytes-byteswap n v
stored big little n v = ap reverse (le_bytes-byteswap n v) ∙ reverse-reverse (le_bytes n v)

-- On a host of either byte order, writing a fixed integer is writing its n lowest bytes in the
-- order that the buffer is set to.
pub write_fixed-encoded :
    (host : Endian) (n v : ℕ) (s : ByteArray)
    → write_fixed host n v s ≡ write (encoded s.endian n v) s
unfolding write_fixed
write_fixed-encoded host n v s = ap (λ (bs : List ℕ). write bs s) (stored host s.endian n v)

loaded :
    (host e : Endian) (n v : ℕ)
    → v < 256 ^ n
    → (let raw = le_value (in_order host (encoded e n v)) in
        if same_order e host then raw else byteswap n raw)
      ≡ v
unfolding byteswap
loaded little little n v h = le_value-le_bytes n v h
loaded big big n v h = rw reverse-reverse (le_value-le_bytes n v h)
loaded little big n v h = byteswap-byteswap n v h
loaded big little n v h = byteswap-byteswap n v h

read_fixed-loaded :
    (host : Endian) (n v : ℕ) (u t : ByteArray)
    → v < 256 ^ n
    → read n u ≡ ok (encoded u.endian n v) t
    → t.endian ≡ u.endian
    → read_fixed host n u ≡ ok v t
unfolding read_fixed
read_fixed-loaded host n v u t small e same =
    rw (e, ◌>>=◌)
      (ap (λ (x : ℕ). ok x t)
        (ap
            (λ (o : Endian).
              let raw = le_value (in_order host (encoded u.endian n v)) in
              if same_order o host then raw else byteswap n raw)
            same
          ∙ loaded host u.endian n v small))

-- On a valid buffer, for a value of n > 0 bytes for which addCapacity rounds up and which the loop
-- of read reaches, writing it as a fixed integer, setPosition back and reading it return the value
-- and leave the position n bytes further, on a host of either byte order and a buffer set to
-- either.
pub read_fixed-write_fixed :
    (host : Endian) (n v : ℕ) (s : ByteArray)
    → IsValid s
    → 0 < n
    → v < 256 ^ n
    → RoundsUp n s
    → InReach n s
    → (t : ByteArray) × (((write_fixed host n v >> set_position s.position) >> read_fixed host n) s
        ≡ ok v t)
      × (t.position ≡ s.position + n)
read_fixed-write_fixed host n v s valid pos small r reach =
    finish (write_back bytes s valid (rw len r))
  where
    bytes : List ℕ
    bytes = encoded s.endian n v

    len : length bytes ≡ n
    len = length-encoded s.endian n v

    finish :
        ((u : ByteArray) × ((write bytes >> set_position s.position) s ≡ ok tt u)
          × Rewound bytes s u)
        → (t : ByteArray) × (((write_fixed host n v >> set_position s.position)
                >> read_fixed host n)
              s
            ≡ ok v t)
          × (t.position ≡ s.position + n)
    finish (u, e, b) =
        let (t, f, d) = read_back bytes s u valid (omega (arith, len)) (rw len reach) b in
        let here : (write_fixed host n v >> set_position s.position) s ≡ ok tt u =
          rw (write_fixed-encoded host n v s, ◌>>=◌) e in
        (
          t,
          then_ok (write_fixed host n v >> set_position s.position) (read_fixed host n) here
              ∙ read_fixed-loaded host n v u t small
                  (subst (λ (o : Endian). read n u ≡ ok (encoded o n v) t) (sym b.endian)
                    (subst (λ (k : ℕ). read k u ≡ ok bytes t) len f))
                  d.endian,
          omega (arith, d.position, b.position, len),
        )
