-- ===== src/Stream/Refused.antt =====
-- `writeFixSize` of cxk/stream.cpp over a stream whose `write` fails.
use cxkframework.Prelude.{
  ℕ, zero, suc, ◌+◌, ◌-◌, ◌%◌, ◌^◌, ◌<◌, ◌≡◌, inr, refl, ap, ◌∙◌, false, Option, none, some, List,
  ltb, ◌==◌, if◌then◌else◌, length, take, drop, arith, Bool-cases, inl, true,
}
use cxkframework.Stream.{Written, write_loop, as_size, sent, refused}

module _ {S : Type 0} (write : List ℕ → S → Written × S) where
  -- the rest of the loop, as a round calls it
  abbrev next_of : ℕ → List ℕ → ℕ → ℕ → ℕ → S → Option (ℕ × S)
  next_of fuel buffer offset left n s =
      write_loop write (suc fuel) buffer ((offset + n) % 2 ^ 64)
        ((suc left + (2 ^ 64 - n)) % 2 ^ 64) s

  rewound :
      (fuel : ℕ) (buffer : List ℕ) (offset left k : ℕ) (s1 : S)
      → offset + suc left ≡ length buffer
      → length buffer < 2 ^ 63
      → 0 < k
      → k < 2 ^ 63
      → write_loop write
          (suc fuel)
          buffer
          ((offset + as_size write (refused k)) % 2 ^ 64)
          (suc (left + k))
          s1
        ≡ (if ltb offset k
            then none
            else write_loop write (suc fuel) buffer (offset - k) (suc (left + k)) s1)
  unfolding write_loop
  rewound fuel buffer offset left k s1 e small pos bound = elim (Bool-cases (ltb offset k)) [
    | inl before ↦
        let outside : ltb (length buffer)
              ((offset + as_size write (refused k)) % 2 ^ 64 + suc (left + k))
            ≡ true =
          ground arith in
        rw before (rw outside refl)
    | inr after ↦
        let back : (offset + as_size write (refused k)) % 2 ^ 64 ≡ offset - k = ground arith in
        rw after (rw back refl)
  ]

  -- In the loop of writeFixSize on memory, with fewer than 2 ^ 63 bytes of which some are left at
  -- an offset, a write that returns -k, for k from 1 to 2 ^ 63 - 1, does not end the loop: it goes
  -- on k bytes earlier with k bytes more to write, where the offset is at least k; where it is not,
  -- the next round would read before the buffer, which the model shows as none, for any fuel that
  -- has one more round.
  pub write_loop-refused :
      (fuel : ℕ) (buffer : List ℕ) (offset left k : ℕ) (s s1 : S)
      → offset + left ≡ length buffer
      → length buffer < 2 ^ 63
      → 0 < left
      → 0 < k
      → k < 2 ^ 63
      → write (take left (drop offset buffer)) s ≡ (refused k, s1)
      → write_loop write (suc (suc fuel)) buffer offset left s ≡ (
          if ltb offset k
          then none
          else write_loop write (suc fuel) buffer (offset - k) (left + k) s1)
  unfolding write_loop
  write_loop-refused fuel buffer offset zero k s s1 e small some_left pos bound w = ground arith
  write_loop-refused fuel buffer offset (suc left) k s s1 e small some_left pos bound w =
      let inside : ltb (length buffer) (offset + suc left) ≡ false = ground arith in
      let size : as_size write (refused k) ≡ 2 ^ 64 - k = omega arith in
      let longer : suc (left + k) ≡ suc left + k = omega arith in
      let failed : (as_size write (refused k) == 0) ≡ false = ground arith in
      let more_left : (suc left + (2 ^ 64 - as_size write (refused k))) % 2 ^ 64 ≡ suc (left + k) =
        omega arith in
      ap
        (λ b.
          if b
          then none
          else sent write (next_of fuel buffer offset left)
              (write (take (suc left) (drop offset buffer)) s))
        inside
      ∙ ap (sent write (next_of fuel buffer offset left)) w
      ∙ ap
          (λ b.
            if b
            then some (0, s1)
            else next_of fuel buffer offset left (as_size write (refused k)) s1)
          failed
      ∙ ap
          (λ n.
            write_loop write (suc fuel) buffer ((offset + as_size write (refused k)) % 2 ^ 64) n s1)
          more_left
      ∙ rewound fuel buffer offset left k s1 e small pos bound
      ∙ ap
          (λ n. if ltb offset k then none else write_loop write (suc fuel) buffer (offset - k) n s1)
          longer
