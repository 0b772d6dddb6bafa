-- ===== src/ByteArray/VarintTrip.antt =====
-- Reading back the integers of variable length (cxk/bytearray.cpp).
use cxkframework.Prelude.{
  ℕ, zero, suc, ◌+◌, ◌*◌, ◌/◌, ◌%◌, ◌^◌, ◌≤◌, ◌<◌, ◌≡◌, refl, ap, ◌∙◌, List, [], ◌∷◌, ◌++◌, arith,
  true, false, length, leb, drop, take, length-take, drop-append, Bool-cases, inl, inr,
}
use cxkframework.Prelude.Bits.{bit_and, bit_or, bit_and_7f, bit_or_shifted}
use native.Mathlib.Nat.{pow-suc, div-add-mod}
use cxkframework.ByteArray.{ByteArray, ok, ◌>>◌, write, overwrite, set_position}
use cxkframework.ByteArray.Invariant.{IsValid, contents}
use cxkframework.ByteArray.Grow.{RoundsUp}
use cxkframework.ByteArray.RoundTrip.{length-contents, Rewound, write_back}
use cxkframework.ByteArray.Steps.{then_ok}
use cxkframework.ByteArray.VarintRounds.{remaining, pow_seven, read_varint_last, read_varint_next}
use cxkframework.ByteArray.Varint.{
  varint_bytes, read_varint, write_uint32, write_uint64, read_uint32, read_uint64,
}

-- What the loop stores for a value of at most `k + 1` groups of seven bits.
low_group : (v : ℕ) → bit_or (bit_and v 0x7f) 0x80 % 256 ≡ v % 128 + 128
low_group v =
    let top : bit_or (v % 128) (1 * 2 ^ 7) ≡ v % 128 + 1 * 2 ^ 7 =
      bit_or_shifted 7 (v % 128) 1 (omega arith) in
    rw bit_and_7f (omega (arith, top))

-- The loop writes 1 to `fuel + 1` bytes, all but the last with the top bit set.
pub varint_bytes-length :
    (fuel v : ℕ) → (0 < length (varint_bytes fuel v)) × (length (varint_bytes fuel v) ≤ fuel + 1)
unfolding varint_bytes
varint_bytes-length zero v = omega arith
varint_bytes-length (suc fuel) v = ground (arith, varint_bytes-length fuel (v / 128))

-- For a value of at most fuel + 1 groups of seven bits, the encoding loop ends by its own test
-- within fuel + 1 bytes: more rounds than fuel give the same bytes.
pub varint_bytes-settled :
    (fuel more v : ℕ) → fuel ≤ more → v < 128 ^ suc fuel → varint_bytes more v ≡ varint_bytes fuel v
unfolding varint_bytes
varint_bytes-settled zero zero v le h = refl
varint_bytes-settled zero (suc more) v le h =
    let test : leb 0x80 v ≡ false = ground arith in rw test
varint_bytes-settled (suc fuel) zero v le h = absurd (omega arith)
varint_bytes-settled (suc fuel) (suc more) v le h = elim (Bool-cases (leb 0x80 v)) [
  | inl on ↦ rw on (
      ap (λ (bs : List ℕ). bit_or (bit_and v 0x7f) 0x80 % 256 ∷ bs)
        (varint_bytes-settled fuel more (v / 128) (omega arith)
          (omega (arith, pow-suc 128 (suc fuel)))))
  | inr done ↦ rw done
]

varint_bytes-done : (fuel v : ℕ) → leb 0x80 v ≡ false → varint_bytes (suc fuel) v ≡ v ∷ []
unfolding varint_bytes
varint_bytes-done fuel v h = let same : v % 256 ≡ v = ground arith in rw (h, same)

varint_bytes-more :
    (fuel v : ℕ)
    → leb 0x80 v ≡ true
    → varint_bytes (suc fuel) v ≡ (v % 128 + 128) ∷ varint_bytes fuel (v / 128)
unfolding varint_bytes
varint_bytes-more fuel v h = rw (h, low_group v)

-- the lowest group of `v` and the others, both counted from bit `i` on
split_group : (acc v i : ℕ) → acc + v % 128 * 2 ^ i + v / 128 * 2 ^ (i + 7) ≡ acc + v * 2 ^ i
split_group acc v i = omega (
  arith,
  ap (λ (t : ℕ). t * 2 ^ i) (div-add-mod v 128),
  ap (λ (t : ℕ). v / 128 * t) (pow_seven i),
)

group_low : (acc v i : ℕ) → acc < 2 ^ i → acc + v % 128 * 2 ^ i < 2 ^ (i + 7)
group_low acc v i low = grind (arith, pow_seven i)

-- The loop reads back the groups that are left of `v`, counted from bit `i` on.
read_varint_lem :
    (fuel w i acc v : ℕ) (tail : List ℕ) (u : ByteArray)
    → IsValid u
    → remaining u ≡ varint_bytes fuel v ++ tail
    → v < 128 ^ suc fuel
    → acc < 2 ^ i
    → acc + v * 2 ^ i < 2 ^ w
    → (t : ByteArray) × (read_varint (suc fuel) w i acc u ≡ ok (acc + v * 2 ^ i) t)
      × IsValid t
      × (remaining t ≡ tail)
read_varint_lem zero w i acc v tail u valid here small low fits =
    let same : v % 256 ≡ v = omega arith in
    read_varint_last zero w i acc v tail u valid (unfold varint_bytes in rw same at here)
      (omega arith) low fits
read_varint_lem (suc fuel) w i acc v tail u valid here small low fits =
    elim (Bool-cases (leb 0x80 v)) [
      | inl on ↦
          let sum = split_group acc v i in
          let (t, e, vt, rt) =
            read_varint_next (suc fuel) w i acc (v % 128) (varint_bytes fuel (v / 128) ++ tail) u
              valid (rw (varint_bytes-more fuel v on) at here) (omega arith) low
              (omega (arith, sum)) in
          let (x, f, vx, rx) =
            read_varint_lem fuel w (i + 7) (acc + v % 128 * 2 ^ i) (v / 128) tail t vt rt
              (omega (arith, pow-suc 128 (suc fuel))) (group_low acc v i low)
              (omega (arith, sum)) in
          (x, e ∙ f ∙ ap (λ (r : ℕ). ok r x) sum, vx, rx)
      | inr done ↦
          read_varint_last (suc fuel) w i acc v tail u valid
            (rw (varint_bytes-done fuel v done) at here) (ground arith) low fits
    ]

drop-overwrite :
    (c bs : List ℕ) (p : ℕ)
    → p ≤ length c
    → drop p (overwrite c p bs) ≡ bs ++ drop (p + length bs) c
unfolding overwrite
drop-overwrite c bs p h =
    let len : length (take p c) ≡ p = rw length-take (omega arith) in
    drop-append p 0 (take p c) (bs ++ drop (p + length bs) c) (omega (arith, len))

-- `v` in groups, written and read back over words of `w` bits.
varint_trip :
    (fuel w v : ℕ) (s : ByteArray)
    → IsValid s
    → v < 128 ^ suc fuel
    → v < 2 ^ w
    → RoundsUp (length (varint_bytes fuel v)) s
    → (t : ByteArray) × (((write (varint_bytes fuel v) >> set_position s.position)
            >> read_varint (suc fuel) w 0 0)
          s
        ≡ ok v t)
      × IsValid t
      × (remaining t ≡ drop (s.position + length (varint_bytes fuel v)) (contents s))
varint_trip fuel w v s valid small fits r = finish (write_back bytes s valid r)
  where
    bytes : List ℕ
    bytes = varint_bytes fuel v

    finish :
        ((u : ByteArray) × ((write bytes >> set_position s.position) s ≡ ok tt u)
          × Rewound bytes s u)
        → (t : ByteArray) × (((write bytes >> set_position s.position)
                >> read_varint (suc fuel) w 0 0)
              s
            ≡ ok v t)
          × IsValid t
          × (remaining t ≡ drop (s.position + length bytes) (contents s))
    finish (u, e, b) =
        let here : remaining u ≡ bytes ++ drop (s.position + length bytes) (contents s) =
          (λ i. drop (b.position i) (b.same_contents i))
          ∙ drop-overwrite (contents s) bytes s.position
              (omega (arith, length-contents s valid, valid.read_from)) in
        let (t, f, vt, rt) =
          read_varint_lem fuel w 0 0 v (drop (s.position + length bytes) (contents s)) u b.valid
            here small (omega arith) (omega arith) in
        (
          t,
          then_ok (write bytes >> set_position s.position) (read_varint (suc fuel) w 0 0) e
              ∙ f
              ∙ ap (λ (x : ℕ). ok x t) (omega arith),
          vt,
          rt,
        )

-- A `uint32_t` comes back, and what stands behind its bytes is next to be read.
pub read_uint32-write_uint32 :
    (v : ℕ) (s : ByteArray)
    → IsValid s
    → v < 2 ^ 32
    → RoundsUp (length (varint_bytes 4 v)) s
    → (t : ByteArray) × (((write_uint32 v >> set_position s.position) >> read_uint32) s ≡ ok v t)
      × IsValid t
      × (remaining t ≡ drop (s.position + length (varint_bytes 4 v)) (contents s))
unfolding write_uint32 read_uint32
read_uint32-write_uint32 v s valid small r = varint_trip 4 32 v s valid (omega arith) small r

-- On a valid buffer, for a value v below 2 ^ 64 whose encoding addCapacity makes room for,
-- writeUint64, setPosition back and readUint64 return v; the buffer stays valid, and what is then
-- still to be read is what stood behind the bytes of v.
pub read_uint64-write_uint64 :
    (v : ℕ) (s : ByteArray)
    → IsValid s
    → v < 2 ^ 64
    → RoundsUp (length (varint_bytes 9 v)) s
    → (t : ByteArray) × (((write_uint64 v >> set_position s.position) >> read_uint64) s ≡ ok v t)
      × IsValid t
      × (remaining t ≡ drop (s.position + length (varint_bytes 9 v)) (contents s))
unfolding write_uint64 read_uint64
read_uint64-write_uint64 v s valid small r = varint_trip 9 64 v s valid (omega arith) small r
