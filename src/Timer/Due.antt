-- ===== src/Timer/Due.antt =====
-- `lower_bound` and the loop behind it in `listExpiredCb` of cxk/timer.cpp: they part the set into the
-- timers that are due and the others.
use cxkframework.Prelude.{
  ℕ, ◌+◌, ◌≡◌, ◌≤◌, refl, ap, ◌∙◌, sym, true, false, Bool, not, ◌&&◌, List, [], ◌∷◌, ◌==◌, leb,
  if◌then◌else◌, arith, inl, inr, Bool-cases, All, ℕ_discrete, ==_of,
}
use cxkframework.Timer.{Timer, before, less, skip_equal, expired, join}
use cxkframework.Timer.Order.{IsSorted, has, ==_no}
use cxkframework.Timer.Invariant.{and_false}

-- `timer->m_next <= now`
unfoldable pub is_due : ℕ → (ℕ → Timer) → ℕ → Bool
is_due now h a = leb (h a).next now

-- the members that pass a test, in order
unfoldable pub keep : (ℕ → Bool) → List ℕ → List ℕ
keep p [] = []
keep p (b ∷ bs) = let rest = keep p bs in if p b then b ∷ rest else rest

-- the timers that are due, and the others, in order
unfoldable pub due : ℕ → (ℕ → Timer) → List ℕ → List ℕ × List ℕ
unfolding is_due keep
due now h bs = (keep (is_due now h) bs, keep (λ b. not (is_due now h b)) bs)

pub has-keep : (p : ℕ → Bool) (bs : List ℕ) (x : ℕ) → has x (keep p bs) ≡ (has x bs && p x)
unfolding keep has
has-keep p [] x = refl
has-keep p (b ∷ bs) x = elim (Bool-cases (p b)) [
  | inl on ↦ elim (ℕ_discrete x b) [
    | yes e ↦ rw on (rw (==_of x b e) (sym (ap p e ∙ on)))
    | no n ↦ rw on (rw (==_no x b n) (has-keep p bs x))
  ]
  | inr off ↦ elim (ℕ_discrete x b) [
    | yes e ↦ rw off (
        rw (==_of x b e) (
          has-keep p bs x
          ∙ (ap (λ u. has x bs && u) (ap p e ∙ off) ∙ (and_false (has x bs) ∙ sym (ap p e ∙ off)))))
    | no n ↦ rw off (rw (==_no x b n) (has-keep p bs x))
  ]
]

pub keep-All : (P : ℕ → Type 0) (p : ℕ → Bool) (bs : List ℕ) → All P bs → All P (keep p bs)
unfolding keep
keep-All P p [] ps = tt
keep-All P p (b ∷ bs) (q, qs) = elim (Bool-cases (p b)) [
  | inl on ↦ rw on (q, keep-All P p bs qs)
  | inr off ↦ rw off (keep-All P p bs qs)
]

pub keep-IsSorted :
    (h : ℕ → Timer) (p : ℕ → Bool) (bs : List ℕ) → IsSorted h bs → IsSorted h (keep p bs)
unfolding keep IsSorted
keep-IsSorted h p [] s = tt
keep-IsSorted h p (b ∷ bs) (s, ss) = elim (Bool-cases (p b)) [
  | inl on ↦ rw on (keep-All (λ c. before h b c ≡ true) p bs s, keep-IsSorted h p bs ss)
  | inr off ↦ rw off (keep-IsSorted h p bs ss)
]

module _ (h : ℕ → Timer) (now : ℕ) where
  pub none_due : (bs : List ℕ) → All (λ b. now + 1 ≤ (h b).next) bs → due now h bs ≡ ([], bs)
  unfolding due is_due keep
  none_due [] ps = refl
  none_due (b ∷ bs) (p, ps) =
      let late : leb (h b).next now ≡ false = ground arith in
      rw late (ap (λ (w : List ℕ × List ℕ). (w.0, b ∷ w.1)) (none_due bs ps))

  pub later_too :
      (b : ℕ) (bs : List ℕ) (t : ℕ)
      → t ≤ (h b).next
      → All (λ c. before h b c ≡ true) bs
      → All (λ c. t ≤ (h c).next) bs
  unfolding before less
  later_too b [] t le ps = tt
  later_too b (c ∷ bs) t le (p, ps) = (ground arith, later_too b bs t le ps)

  skip_equal_lem :
      (bs : List ℕ)
      → IsSorted h bs
      → All (λ b. now ≤ (h b).next) bs
      → skip_equal h now bs ≡ due now h bs
  unfolding skip_equal due is_due keep IsSorted
  skip_equal_lem [] s ps = refl
  skip_equal_lem (b ∷ bs) (s, ss) (p, ps) = elim (Bool-cases ((h b).next == now)) [
    | inl e ↦
        let on_time : leb (h b).next now ≡ true = ground arith in
        rw e (rw on_time (ap (join b) (skip_equal_lem bs ss ps)))
    | inr e ↦
        let late : leb (h b).next now ≡ false = ground arith in
        let others : due now h bs ≡ ([], bs) =
          none_due bs (later_too b bs (now + 1) (ground arith) s) in
        rw e (rw late (ap (λ (w : List ℕ × List ℕ). (w.0, b ∷ w.1)) (sym others)))
  ]

  less-le : (b key : ℕ) → less (h b).next b now key ≡ true → leb (h b).next now ≡ true
  unfolding less
  less-le b key e = ground arith

  not_less-le : (b key : ℕ) → less (h b).next b now key ≡ false → now ≤ (h b).next
  unfolding less
  not_less-le b key e = ground arith

  -- On a sorted set the part before the iterator holds the timers that are due, at every address that
  -- the new timer of `lower_bound` may have.
  pub expired_lem : (key : ℕ) (bs : List ℕ) → IsSorted h bs → expired h now key bs ≡ due now h bs
  unfolding expired due is_due keep IsSorted
  expired_lem key [] s = refl
  expired_lem key (b ∷ bs) (s, ss) = elim (Bool-cases (less (h b).next b now key)) [
    | inl e ↦
        let on_time : leb (h b).next now ≡ true = less-le b key e in
        rw e (rw on_time (ap (join b) (expired_lem key bs ss)))
    | inr e ↦
        let from_here : now ≤ (h b).next = not_less-le b key e in
        rw e (skip_equal_lem (b ∷ bs) (s, ss) (from_here, later_too b bs now from_here s))
  ]
