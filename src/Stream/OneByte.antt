-- ===== src/Stream/OneByte.antt =====
-- A stream that moves one byte at a time: `read` and `write` of cxk/stream.h on a list.
use cxkframework.Prelude.{
  ℕ, suc, ◌≤◌, ◌<◌, ◌≡◌, ◌≢◌, refl, List, [], ◌∷◌, ◌++◌, length, take, arith,
}
use cxkframework.Stream.{Transfer, moved, Written, wrote}
use cxkframework.Stream.Pipe.{Pipe}

pub read_one : ℕ → List ℕ → Transfer × List ℕ
read_one n [] = (moved [], [])
read_one n (b ∷ s) = (moved (b ∷ []), s)

pub write_one : List ℕ → List ℕ → Written × List ℕ
write_one [] s = (wrote 0, s)
write_one (b ∷ bs) s = (wrote 1, s ++ (b ∷ []))

pub read_one_front :
    (n : ℕ) (s : List ℕ)
    → 0 < n
    → s ≢ []
    → (b : ℕ) × (bs s' : List ℕ) × (read_one n s ≡ (moved (b ∷ bs), s'))
      × (suc (length bs) ≤ n)
      × (s ≡ (b ∷ bs) ++ s')
unfolding read_one
read_one_front n [] pos h = elim (h refl) [ ]
read_one_front n (b ∷ s) pos h = (b, [], s, refl, omega arith, refl)

pub write_one_end :
    (b : ℕ) (bs s : List ℕ)
    → (k : ℕ) × (s' : List ℕ) × (write_one (b ∷ bs) s ≡ (wrote k, s'))
      × (0 < k)
      × (k ≤ suc (length bs))
      × (s' ≡ s ++ take k (b ∷ bs))
unfolding write_one
write_one_end b bs s = (1, s ++ (b ∷ []), refl, omega arith, omega arith, refl)

unfoldable pub one_by_one : Pipe (List ℕ)
one_by_one = record {
  read = read_one;
  write = write_one;
  contents = λ s. s;
  reads = read_one_front;
  writes = write_one_end;
}
