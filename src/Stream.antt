-- ===== src/Stream.antt =====
-- `readFixSize` and `writeFixSize` of cxk/stream.cpp over the virtual `read` and `write` of a stream,
-- whose state is `S`. An `int` that is returned is a pattern of 32 bits, the count of the loop one of
-- 64 bits; `none` is a loop that the fuel does not end, or a read outside the buffer.
use cxkframework.Prelude.{
  ℕ, zero, suc, ◌+◌, ◌-◌, ◌*◌, ◌/◌, ◌%◌, ◌^◌, true, false, Bool, not, ◌&&◌, ◌||◌, Option, none,
  some, List, [], ◌∷◌, ◌++◌, ltb, leb, ◌==◌, if◌then◌else◌, and_then, length, take, drop,
}
pub mod Pipe
pub mod Refused
pub mod OneByte
mod Tests

-- What `read` does: it returns the number of the bytes that it reads, 0 where the stream is closed,
-- or the negative of a number.
pub data Transfer : Type 0 where
  moved : List ℕ → Transfer
  broken : ℕ → Transfer

-- and what `write` returns
pub data Written : Type 0 where
  wrote : ℕ → Written
  refused : ℕ → Written

-- an `int` from a count, or from the negative of a number
abbrev pub int : ℕ → ℕ
int n = n % 2 ^ 32

abbrev pub minus_int : ℕ → ℕ
minus_int k = (2 ^ 32 - k % 2 ^ 32) % 2 ^ 32

-- `v > 0` for an `int`
abbrev pub is_positive : ℕ → Bool
is_positive v = ltb 0 v && ltb v (2 ^ 31)

-- the bytes that a loop has read, where it ends well
abbrev pub Filled : Type 0 → Type 0
Filled S = Option (Option (List ℕ) × (ℕ × S))

-- what `writeFixSize` returns, and the stream
abbrev pub Sent : Type 0 → Type 0
Sent S = Option (ℕ × S)

module _ {S : Type 0} (read : ℕ → S → Transfer × S) where
  -- The loop of `readFixSize`, from `left` bytes on: what it has read and returns, if it does not
  -- end early.
  abbrev pub more : List ℕ → Filled S → Filled S
  more bs none = none
  more bs (some (none, r)) = some (none, r)
  more bs (some (some rest, r)) = some (some (bs ++ rest), r)

  -- what a round does with the result of `read`, where `next` is the rest of the loop
  abbrev pub got : (ℕ → S → Filled S) → Transfer × S → Filled S
  got next (moved [], s) = some (none, (0, s))
  got next (moved (b ∷ bs), s) = more (b ∷ bs) (next (length (b ∷ bs)) s)
  got next (broken k, s) = some (none, (minus_int k, s))

  unfoldable pub read_loop : ℕ → ℕ → S → Filled S
  read_loop fuel zero s = some (some [], (0, s))
  read_loop zero (suc left) s = none
  read_loop (suc fuel) (suc left) s =
      got (λ n s. read_loop fuel (suc left - n) s) (read (suc left) s)

  -- what `readFixSize` returns where the loop ends well
  abbrev pub whole : ℕ → Filled S → Filled S
  whole n none = none
  whole n (some (none, r)) = some (none, r)
  whole n (some (some bs, (_, s))) = some (some bs, (int n, s))

  -- `left` is an `int64_t`: a length of 2 ^ 63 and more is negative, and nothing is read.
  unfoldable pub read_fix_size : ℕ → S → Filled S
  unfolding read_loop
  read_fix_size n s =
      if leb (2 ^ 63) n then some (some [], (int n, s)) else whole n (read_loop n n s)

module _ {S : Type 0} (write : List ℕ → S → Written × S) where
  -- a result of `write` as a `size_t`
  abbrev pub as_size : Written → ℕ
  as_size (wrote n) = n % 2 ^ 64
  as_size (refused k) = (2 ^ 64 - k % 2 ^ 64) % 2 ^ 64

  -- what a round does with the result of `write`, where `next` is the rest of the loop
  abbrev pub sent : (ℕ → S → Sent S) → Written × S → Sent S
  sent next (r, s) = if as_size r == 0 then some (0, s) else next (as_size r) s

  -- The loop of `writeFixSize` on a buffer: `offset` and `left` are unsigned, and so is the result
  -- of `write`, which is compared with 0 and added to them, whatever its sign was.
  unfoldable pub write_loop : ℕ → List ℕ → ℕ → ℕ → S → Sent S
  write_loop fuel buffer offset zero s = some (length buffer, s)
  write_loop zero buffer offset (suc left) s = none
  write_loop (suc fuel) buffer offset (suc left) s =
      if ltb (length buffer) (offset + suc left)
      then none
      else sent
          (λ n s.
            write_loop fuel buffer ((offset + n) % 2 ^ 64) ((suc left + (2 ^ 64 - n)) % 2 ^ 64) s)
          (write (take (suc left) (drop offset buffer)) s)

  -- the `int` that is returned
  abbrev pub returned : Sent S → Sent S
  returned none = none
  returned (some (n, s)) = some (int n, s)

  unfoldable pub write_fix_size : ℕ → List ℕ → S → Sent S
  unfolding write_loop
  write_fix_size fuel buffer s = returned (write_loop fuel buffer 0 (length buffer) s)
