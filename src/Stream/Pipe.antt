-- ===== src/Stream/Pipe.antt =====
-- The loops of cxk/stream.cpp over a stream that moves bytes.
use cxkframework.Prelude.{
  ℕ, zero, suc, ◌+◌, ◌-◌, ◌%◌, ◌^◌, ◌≤◌, ◌<◌, ◌≡◌, ◌≢◌, refl, sym, ap, ◌∙◌, false, Option, none,
  some, List, [], ◌∷◌, ◌++◌, ltb, leb, ◌==◌, if◌then◌else◌, length, take, drop, arith, length-drop,
  take-append-drop, append_assoc, append-nil, take_of_length-le, drop_of_length-le, drop-drop,
}
use cxkframework.Stream.{
  Transfer, moved, Written, wrote, read_loop, read_fix_size, got, more, whole, write_loop,
  write_fix_size, returned, sent,
}

-- A stream that moves at least one byte where there is one: what `read` returns comes from the front
-- of the contents, and `write` puts a part of the buffer at the end.
pub record Pipe (S : Type 0) : Type 0 where
  pub read : ℕ → S → Transfer × S
  pub write : List ℕ → S → Written × S
  pub contents : S → List ℕ
  pub reads :
      (n : ℕ) (s : S)
      → 0 < n
      → contents s ≢ []
      → (b : ℕ) × (bs : List ℕ) × (s' : S) × (read n s ≡ (moved (b ∷ bs), s'))
        × (suc (length bs) ≤ n)
        × (contents s ≡ (b ∷ bs) ++ contents s')
  pub writes :
      (b : ℕ) (bs : List ℕ) (s : S)
      → (k : ℕ) × (s' : S) × (write (b ∷ bs) s ≡ (wrote k, s'))
        × (0 < k)
        × (k ≤ suc (length bs))
        × (contents s' ≡ contents s ++ take k (b ∷ bs))

-- Two ways to cut one list.
cut_twice :
    (xs ys zs ws : List ℕ)
    → xs ++ ys ≡ zs ++ ws
    → length xs ≤ length zs
    → (zs ≡ xs ++ drop (length xs) zs) × (ys ≡ drop (length xs) zs ++ ws)
cut_twice [] ys zs ws e h = (refl, e)
cut_twice (x ∷ xs) ys [] ws e h = ground arith
cut_twice (x ∷ xs) ys (z ∷ zs) ws e h =
    let head : x ≡ z = cc in
    let tail : xs ++ ys ≡ zs ++ ws = cc in
    let (a, b) = cut_twice xs ys zs ws tail (omega arith) in
    (ap (λ t. z ∷ t) a ∙ ap (λ t. t ∷ xs ++ drop (length xs) zs) (sym head), b)

nonempty : (xs : List ℕ) → 0 < length xs → (b : ℕ) × (bs : List ℕ) × (xs ≡ b ∷ bs)
nonempty [] h = ground arith
nonempty (x ∷ xs) h = (x, xs, refl)

module _ {S : Type 0} (p : Pipe S) where
  read_loop_lem :
      (fuel left : ℕ) (s : S) (bs rest : List ℕ)
      → left ≤ fuel
      → length bs ≡ left
      → p.contents s ≡ bs ++ rest
      → (s' : S) × (read_loop p.read fuel left s ≡ some (some bs, (0, s'))) × (p.contents s' ≡ rest)
  unfolding read_loop
  read_loop_lem fuel zero s [] rest l n h = (s, refl, h)
  read_loop_lem fuel zero s (b ∷ bs) rest l n h = ground arith
  read_loop_lem zero (suc left) s bs rest l n h = ground arith
  read_loop_lem (suc fuel) (suc left) s [] rest l n h = ground arith
  read_loop_lem (suc fuel) (suc left) s (b ∷ bs) rest l n h =
      let (c, cs, s1, e, k, split) = p.reads (suc left) s (omega arith) (λ none_left. cc) in
      let (front, back) =
        cut_twice (c ∷ cs) (p.contents s1) (b ∷ bs) rest (sym split ∙ h) (omega arith) in
      let (s2, e2, h2) =
        read_loop_lem fuel (suc left - suc (length cs)) s1 (drop (suc (length cs)) (b ∷ bs)) rest
          (omega arith) (omega (arith, length-drop (suc (length cs)) (b ∷ bs))) back in
      (
        s2,
        ap (got p.read (λ n s. read_loop p.read fuel (suc left - n) s)) e
            ∙ ap (more p.read (c ∷ cs)) e2
            ∙ ap (λ t. some (some t, (0, s2))) (sym front),
        h2,
      )

  -- Where the pipe has the bytes of `bs` first, and these are fewer than 2 ^ 31, readFixSize of as many
  -- returns their number, reads them all, and leaves the rest in the pipe.
  pub read_fix_size_lem :
      (bs rest : List ℕ) (s : S)
      → length bs < 2 ^ 31
      → p.contents s ≡ bs ++ rest
      → (s' : S) × (read_fix_size p.read (length bs) s ≡ some (some bs, (length bs, s')))
        × (p.contents s' ≡ rest)
  unfolding read_fix_size
  read_fix_size_lem bs rest s small h =
      let (s', e, r) = read_loop_lem (length bs) (length bs) s bs rest (omega arith) refl h in
      let usual : leb (2 ^ 63) (length bs) ≡ false = ground arith in
      (
        s',
        rw usual
            (ap (whole p.read (length bs)) e ∙ ap (λ n. some (some bs, (n, s'))) (omega arith)),
        r,
      )

  -- the rest of the loop, as a round calls it
  abbrev next : ℕ → List ℕ → ℕ → ℕ → ℕ → S → Option (ℕ × S)
  next fuel buffer offset left n s =
      write_loop p.write fuel buffer ((offset + n) % 2 ^ 64) ((suc left + (2 ^ 64 - n)) % 2 ^ 64) s

  write_loop_lem :
      (fuel : ℕ) (buffer : List ℕ) (offset left : ℕ) (s : S)
      → left ≤ fuel
      → offset + left ≡ length buffer
      → length buffer < 2 ^ 63
      → (s' : S) × (write_loop p.write fuel buffer offset left s ≡ some (length buffer, s'))
        × (p.contents s' ≡ p.contents s ++ drop offset buffer)
  unfolding write_loop
  write_loop_lem fuel buffer offset zero s l e h = (
    s,
    refl,
    sym (
        ap (λ t. p.contents s ++ t) (drop_of_length-le offset buffer (omega arith))
        ∙ append-nil (p.contents s)),
  )
  write_loop_lem zero buffer offset (suc left) s l e h = ground arith
  write_loop_lem (suc fuel) buffer offset (suc left) s l e h =
      let (b, bs, q) = nonempty (drop offset buffer) (omega (arith, length-drop offset buffer)) in
      let size : suc (length bs) ≡ suc left =
        omega (arith, length-drop offset buffer, ap length q) in
      let (k, s1, e1, pos, le, c) = p.writes b bs s in
      let exact : k % 2 ^ 64 ≡ k = omega arith in
      let (s2, e2, c2) =
        write_loop_lem fuel buffer ((offset + k % 2 ^ 64) % 2 ^ 64)
          ((suc left + (2 ^ 64 - k % 2 ^ 64)) % 2 ^ 64) s1 (omega arith) (omega arith) h in
      let further : (offset + k % 2 ^ 64) % 2 ^ 64 ≡ offset + k = omega arith in
      let inside : ltb (length buffer) (offset + suc left) ≡ false = ground arith in
      let not_closed : (k % 2 ^ 64 == 0) ≡ false = ground arith in
      (
        s2,
        ap
              (λ b.
                if b
                then none
                else sent p.write (next fuel buffer offset left)
                    (p.write (take (suc left) (drop offset buffer)) s))
              inside
            ∙ ap (λ t. sent p.write (next fuel buffer offset left) (p.write t s))
                (take_of_length-le (suc left) (drop offset buffer)
                    (omega (arith, length-drop offset buffer))
                  ∙ q)
            ∙ ap (sent p.write (next fuel buffer offset left)) e1
            ∙ ap (λ b. if b then some (0, s1) else next fuel buffer offset left (k % 2 ^ 64) s1)
                not_closed
            ∙ e2,
        c2
            ∙ ap (λ t. p.contents s1 ++ t)
                (ap (λ n. drop n buffer) further
                  ∙ sym (drop-drop offset k (offset + k) buffer refl)
                  ∙ ap (drop k) q)
            ∙ ap (λ t. t ++ drop k (b ∷ bs)) c
            ∙ append_assoc (p.contents s) (take k (b ∷ bs)) (drop k (b ∷ bs))
            ∙ ap (λ t. p.contents s ++ t) (take-append-drop k (b ∷ bs) ∙ sym q),
      )

module _ {S : Type 0} (p : Pipe S) where
  -- With fewer than 2 ^ 31 bytes writeFixSize returns their number, and the pipe has them after what it
  -- had.
  pub write_fix_size_lem :
      (buffer : List ℕ) (s : S)
      → length buffer < 2 ^ 31
      → (s' : S) × (write_fix_size p.write (length buffer) buffer s ≡ some (length buffer, s'))
        × (p.contents s' ≡ p.contents s ++ buffer)
  unfolding write_fix_size
  write_fix_size_lem buffer s small =
      let (s', e, c) =
        write_loop_lem p (length buffer) buffer 0 (length buffer) s (omega arith) (omega arith)
          (omega arith) in
      (s', ap (returned p.write) e ∙ ap (λ n. some (n, s')) (omega arith), c)
