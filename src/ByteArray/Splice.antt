-- ===== src/ByteArray/Splice.antt =====
-- The two `memcpy` shapes, a write into the middle of a list and a read from it, where the list is
-- cut in two as the nodes cut the buffer.
use cxkframework.Prelude.{
  max, subst, ℕ, ◌+◌, ◌-◌, ◌≤◌, ◌≡◌, sym, ap, ◌∙◌, List, [], ◌++◌, append-nil, append_assoc, arith,
  length, take, drop, length-append, length-take, length-drop, take-append, drop-append,
  take-append_le, drop-append_le, take_of_length-le, drop_of_length-le, take-append-drop, dec_lt,
}
use cxkframework.ByteArray.{overwrite, slice}

pub length-overwrite :
    (xs : List ℕ) (p : ℕ) (bs : List ℕ)
    → p + length bs ≤ length xs
    → length (overwrite xs p bs) ≡ length xs
unfolding overwrite
length-overwrite xs p bs h =
    rw (length-append, length-append, length-take, length-drop) (omega arith)

pub overwrite-nil : (xs : List ℕ) (p : ℕ) → overwrite xs p [] ≡ xs
unfolding overwrite
overwrite-nil xs p = let e : p + 0 ≡ p = omega arith in rw e (take-append-drop p xs)

-- A write that stays inside the first of two lists, and one that begins in it and goes on.
pub overwrite-append_in :
    (xs ys : List ℕ) (p : ℕ) (bs : List ℕ)
    → p + length bs ≤ length xs
    → overwrite (xs ++ ys) p bs ≡ overwrite xs p bs ++ ys
unfolding overwrite
overwrite-append_in xs ys p bs h =
    rw (take-append_le p xs ys (omega arith), drop-append_le (p + length bs) xs ys h)
      (simp append_assoc)

pub overwrite-append_across :
    (xs ys : List ℕ) (p k : ℕ) (bs : List ℕ)
    → p + k ≡ length xs
    → k ≤ length bs
    → overwrite (xs ++ ys) p bs ≡ overwrite xs p (take k bs) ++ overwrite ys 0 (drop k bs)
unfolding overwrite
overwrite-append_across xs ys p k bs h le =
    let left : take p (xs ++ ys) ≡ take p xs = take-append_le p xs ys (omega arith) in
    let right : drop (p + length bs) (xs ++ ys) ≡ drop (0 + length (drop k bs)) ys =
      drop-append (p + length bs) (0 + length (drop k bs)) xs ys (rw length-drop (omega arith)) in
    let none_left : drop (p + length (take k bs)) xs ≡ [] =
      drop_of_length-le (p + length (take k bs)) xs (rw length-take (omega arith)) in
    let whole : take k bs ++ drop k bs ≡ bs = take-append-drop k bs in
    join left right none_left whole
  where
    join :
        take p (xs ++ ys) ≡ take p xs
        → drop (p + length bs) (xs ++ ys) ≡ drop (0 + length (drop k bs)) ys
        → drop (p + length (take k bs)) xs ≡ []
        → take k bs ++ drop k bs ≡ bs
        → overwrite (xs ++ ys) p bs ≡ overwrite xs p (take k bs) ++ overwrite ys 0 (drop k bs)
    join left right none_left whole =
        rw (left, right, none_left, append-nil)
          (ap (λ (t : List ℕ). take p xs ++ (t ++ drop (0 + length (drop k bs)) ys)) (sym whole)
            ∙ simp append_assoc)

pub slice-append_in :
    (xs ys : List ℕ) (p k : ℕ) → p + k ≤ length xs → slice (xs ++ ys) p k ≡ slice xs p k
unfolding slice
slice-append_in xs ys p k h =
    rw (drop-append_le p xs ys (omega arith))
      (take-append_le k (drop p xs) ys (rw length-drop (omega arith)))

pub slice-append_across :
    (xs ys : List ℕ) (p j k : ℕ)
    → p + j ≡ length xs
    → j ≤ k
    → slice (xs ++ ys) p k ≡ slice xs p j ++ slice ys 0 (k - j)
unfolding slice
slice-append_across xs ys p j k h le =
    rw
      (
        drop-append_le p xs ys (omega arith),
        take_of_length-le j (drop p xs) (rw length-drop (omega arith)),
      )
      (take-append k (k - j) (drop p xs) ys (rw length-drop (omega arith)))

-- A write into the second of two lists, and one seen through a prefix that ends at or behind it.
pub overwrite-append_after :
    (xs ys : List ℕ) (p q : ℕ) (bs : List ℕ)
    → q ≡ length xs + p
    → overwrite (xs ++ ys) q bs ≡ xs ++ overwrite ys p bs
unfolding overwrite
overwrite-append_after xs ys p q bs h =
    rw (take-append q p xs ys h, drop-append (q + length bs) (p + length bs) xs ys (omega arith))
      (simp append_assoc)

take-overwrite_inside :
    (c d : List ℕ) (p : ℕ) (bs : List ℕ)
    → p + length bs ≤ length c
    → take (length c) (overwrite (c ++ d) p bs) ≡ overwrite c p bs
take-overwrite_inside c d p bs h =
    let same : length (overwrite c p bs) ≡ length c = length-overwrite c p bs h in
    rw (overwrite-append_in c d p bs h) (
      take-append (length c) 0 (overwrite c p bs) d (omega (arith, same))
      ∙ append-nil (overwrite c p bs))

take-overwrite_past :
    (c d : List ℕ) (p : ℕ) (bs : List ℕ)
    → p ≤ length c
    → length c ≤ p + length bs
    → take (p + length bs) (overwrite (c ++ d) p bs) ≡ overwrite c p bs
unfolding overwrite
take-overwrite_past c d p bs h past =
    let front : take p (c ++ d) ≡ take p c = take-append_le p c d h in
    let back : drop (p + length bs) c ≡ [] = drop_of_length-le (p + length bs) c past in
    let len : length (take p c) ≡ p = rw length-take (omega arith) in
    let rest : List ℕ = drop (p + length bs) (c ++ d) in
    rw (front, back)
      (take-append (p + length bs) (length bs) (take p c) (bs ++ rest) (omega (arith, len))
        ∙ ap (λ (t : List ℕ). take p c ++ t) (take-append (length bs) 0 bs rest (omega arith)))

-- The same as one law: the prefix grows where the write passes its end.
pub take-overwrite :
    (mem : List ℕ) (size p : ℕ) (bs : List ℕ)
    → p ≤ size
    → size ≤ length mem
    → take (max size (p + length bs)) (overwrite mem p bs) ≡ overwrite (take size mem) p bs
take-overwrite mem size p bs h le =
    let c = take size mem in
    let d = drop size mem in
    let len : length c ≡ size = rw length-take (omega arith) in
    let whole : c ++ d ≡ mem = take-append-drop size mem in
    elim (dec_lt size (p + length bs)) [
      | yes past ↦
          let m : max size (p + length bs) ≡ p + length bs = omega arith in
          rw m (
            subst (λ (t : List ℕ). take (p + length bs) (overwrite t p bs) ≡ overwrite c p bs) whole
              (take-overwrite_past c d p bs (omega (arith, len)) (omega (arith, len))))
      | no inside ↦
          let m : max size (p + length bs) ≡ length c = omega (arith, len) in
          rw m (
            subst (λ (t : List ℕ). take (length c) (overwrite t p bs) ≡ overwrite c p bs) whole
              (take-overwrite_inside c d p bs (omega (arith, len))))
    ]
