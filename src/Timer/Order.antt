-- ===== src/Timer/Order.antt =====
-- The order of the set of cxk/timer.cpp, and the set operations on sorted lists.
use cxkframework.Prelude.{
  ℕ, ◌≡◌, ◌≢◌, refl, ap, ◌∙◌, sym, true, false, Bool, some, List, [], ◌∷◌, ◌==◌, if◌then◌else◌, All,
  arith, ◌⊎◌, inl, inr, Bool-cases, ℕ_discrete, subst, ==_of,
}
use cxkframework.Timer.{Timer, less, before, insert, erase, put_back}

-- whether an address is in the list
unfoldable pub has : ℕ → List ℕ → Bool
has a [] = false
has a (b ∷ bs) = if a == b then true else has a bs

-- the list without an address
unfoldable pub without : ℕ → List ℕ → List ℕ
without a [] = []
without a (b ∷ bs) = let rest = without a bs in if a == b then rest else b ∷ rest

-- every timer comes strictly before all later ones
unfoldable pub IsSorted : (ℕ → Timer) → List ℕ → Type 0
unfolding before
IsSorted h [] = Unit {0}
IsSorted h (a ∷ bs) = All (λ b. before h a b ≡ true) bs × IsSorted h bs

pub before_irrefl : (h : ℕ → Timer) (a : ℕ) → before h a a ≡ false
unfolding before less
before_irrefl h a = ground arith

pub before_trans :
    (h : ℕ → Timer) (a b c : ℕ) → before h a b ≡ true → before h b c ≡ true → before h a c ≡ true
unfolding before less
before_trans h a b c hab hbc = ground arith

pub before_asym : (h : ℕ → Timer) (a b : ℕ) → before h a b ≡ true → before h b a ≡ false
unfolding before less
before_asym h a b hab = ground arith

pub before_total : (h : ℕ → Timer) (a b : ℕ) → before h a b ≡ false → before h b a ≡ false → a ≡ b
unfolding before less
before_total h a b hab hba = ground arith

pub has-All : (P : ℕ → Type 0) (bs : List ℕ) (x : ℕ) → All P bs → has x bs ≡ true → P x
unfolding has
has-All P [] x h m = absurd cc
has-All P (b ∷ bs) x (p, ps) m = elim (ℕ_discrete x b) [
  | yes e ↦ subst P (sym e) p
  | no n ↦ has-All P bs x ps (ground arith)
]

pub has-cases : (a b : ℕ) (bs : List ℕ) → has a (b ∷ bs) ≡ true → (a ≡ b) ⊎ (has a bs ≡ true)
unfolding has
has-cases a b bs m = elim (ℕ_discrete a b) [ yes e ↦ inl e | no n ↦ inr (ground arith) ]

has_rest : (a b : ℕ) (bs : List ℕ) → a ≢ b → has a (b ∷ bs) ≡ true → has a bs ≡ true
unfolding has
has_rest a b bs n m = ground arith

not_both : (t : Bool) → t ≡ true → t ≢ false
not_both t h h' = cc

pub ==_no : (a b : ℕ) → a ≢ b → (a == b) ≡ false
==_no a b n = ground arith

module _ (h : ℕ → Timer) where
  pub insert-All : (P : ℕ → Type 0) (a : ℕ) (bs : List ℕ) → P a → All P bs → All P (insert h a bs)
  unfolding insert
  insert-All P a [] p ps = (p, tt)
  insert-All P a (b ∷ bs) p (pb, ps) = elim (Bool-cases (before h a b)) [
    | inl e ↦ rw e (p, (pb, ps))
    | inr e ↦ elim (Bool-cases (before h b a)) [
      | inl e' ↦ rw e (rw e' (pb, insert-All P a bs p ps))
      | inr e' ↦ rw e (rw e' (pb, ps))
    ]
  ]

  All-before :
      (a b : ℕ) (bs : List ℕ)
      → before h a b ≡ true
      → All (λ c. before h b c ≡ true) bs
      → All (λ c. before h a c ≡ true) bs
  All-before a b [] e ps = tt
  All-before a b (c ∷ bs) e (p, ps) = (before_trans h a b c e p, All-before a b bs e ps)

  pub insert-IsSorted : (a : ℕ) (bs : List ℕ) → IsSorted h bs → IsSorted h (insert h a bs)
  unfolding insert IsSorted
  insert-IsSorted a [] s = (tt, tt)
  insert-IsSorted a (b ∷ bs) (s, ss) = elim (Bool-cases (before h a b)) [
    | inl e ↦ rw e ((e, All-before a b bs e s), (s, ss))
    | inr e ↦ elim (Bool-cases (before h b a)) [
      | inl e' ↦
          rw e (rw e' (insert-All (λ c. before h b c ≡ true) a bs e' s, insert-IsSorted a bs ss))
      | inr e' ↦ rw e (rw e' (s, ss))
    ]
  ]

  pub has-insert :
      (a : ℕ) (bs : List ℕ) (x : ℕ) → has x (insert h a bs) ≡ (if x == a then true else has x bs)
  unfolding insert has
  has-insert a [] x = refl
  has-insert a (b ∷ bs) x = elim (Bool-cases (before h a b)) [
    | inl e ↦ rw e refl
    | inr e ↦ elim (Bool-cases (before h b a)) [
      | inl e' ↦ rw e (rw e' (rw (has-insert a bs x) (swap (x == b) (x == a) (has x bs))))
      | inr e' ↦ rw e (rw e' (rw (before_total h a b e e') (twice (x == b) (has x bs))))
    ]
  ]
    where
      swap :
          (s t u : Bool)
          → (if s then true else (if t then true else u))
            ≡ (if t then true else (if s then true else u))
      swap true true u = refl
      swap true false u = refl
      swap false t u = refl

      twice : (s u : Bool) → (if s then true else u) ≡ (if s then true else (if s then true else u))
      twice true u = refl
      twice false u = refl

  without_none : (a : ℕ) (bs : List ℕ) → All (λ c. before h a c ≡ true) bs → without a bs ≡ bs
  unfolding without
  without_none a [] s = refl
  without_none a (c ∷ bs) (p, ps) = elim (ℕ_discrete a c) [
    | yes e ↦ absurd (not_both (before h a c) p (ap (before h a) (sym e) ∙ before_irrefl h a))
    | no n ↦ rw (==_no a c n) (ap (λ t. c ∷ t) (without_none a bs ps))
  ]

  not_before :
      (a b : ℕ) (bs : List ℕ)
      → All (λ c. before h b c ≡ true) bs
      → has a (b ∷ bs) ≡ true
      → before h a b ≡ false
  not_before a b bs s m = elim (has-cases a b bs m) [
    | inl e ↦ ap (before h a) (sym e) ∙ before_irrefl h a
    | inr e ↦ before_asym h b a (has-All (λ c. before h b c ≡ true) bs a s e)
  ]

  -- On a sorted list `find` finds every element, and `erase` takes it out.
  pub erase_lem :
      (a : ℕ) (bs : List ℕ) → IsSorted h bs → has a bs ≡ true → erase h a bs ≡ some (without a bs)
  unfolding erase IsSorted without has
  erase_lem a [] s m = absurd cc
  erase_lem a (b ∷ bs) (s, ss) m = elim (Bool-cases (before h b a)) [
    | inl e ↦
        let differ : a ≢ b =
          λ same. not_both (before h b a) e (ap (before h b) same ∙ before_irrefl h b) in
        let later : has a bs ≡ true = has_rest a b bs differ m in
        rw e (rw (==_no a b differ) (ap (put_back b) (erase_lem a bs ss later)))
    | inr e ↦
        let front : before h a b ≡ false = not_before a b bs s m in
        let same : a ≡ b = before_total h a b front e in
        let all_later : All (λ c. before h a c ≡ true) bs =
          subst (λ t. All (λ c. before h t c ≡ true) bs) (sym same) s in
        rw e (rw front (rw (==_of a b same) (ap some (sym (without_none a bs all_later)))))
  ]

-- The set of a list that has lost an address.
pub has-without :
    (a : ℕ) (bs : List ℕ) (x : ℕ) → has x (without a bs) ≡ (if x == a then false else has x bs)
unfolding without has
has-without a [] x = ground arith
has-without a (b ∷ bs) x = let rest = has-without a bs x in ground arith

pub without-All : (P : ℕ → Type 0) (a : ℕ) (bs : List ℕ) → All P bs → All P (without a bs)
unfolding without
without-All P a [] ps = tt
without-All P a (b ∷ bs) (p, ps) = elim (ℕ_discrete a b) [
  | yes e ↦ rw (==_of a b e) (without-All P a bs ps)
  | no n ↦ rw (==_no a b n) (p, without-All P a bs ps)
]

pub without-IsSorted :
    (h : ℕ → Timer) (a : ℕ) (bs : List ℕ) → IsSorted h bs → IsSorted h (without a bs)
unfolding without IsSorted
without-IsSorted h a [] s = tt
without-IsSorted h a (b ∷ bs) (s, ss) = elim (ℕ_discrete a b) [
  | yes e ↦ rw (==_of a b e) (without-IsSorted h a bs ss)
  | no n ↦
      rw (==_no a b n) (without-All (λ c. before h b c ≡ true) a bs s, without-IsSorted h a bs ss)
]

pub has-later : (b : ℕ) (bs : List ℕ) (x : ℕ) → has x bs ≡ true → has x (b ∷ bs) ≡ true
unfolding has
has-later b bs x m = ground arith

pub has-front : (b : ℕ) (bs : List ℕ) → has b (b ∷ bs) ≡ true
unfolding has
has-front b bs = ground arith

module _ (h h' : ℕ → Timer) where
  All-before-agree :
      (a : ℕ) (bs : List ℕ)
      → (h a).next ≡ (h' a).next
      → ((x : ℕ) → has x bs ≡ true → (h x).next ≡ (h' x).next)
      → All (λ b. before h a b ≡ true) bs
      → All (λ b. before h' a b ≡ true) bs
  unfolding before
  All-before-agree a [] e same ps = tt
  All-before-agree a (b ∷ bs) e same (p, ps) =
      let here : (h b).next ≡ (h' b).next = same b (has-front b bs) in
      (
        sym (ap (λ t. less t a (h' b).next b) e) ∙ (sym (ap (λ t. less (h a).next a t b) here) ∙ p),
        All-before-agree a bs e (λ x m. same x (has-later b bs x m)) ps,
      )

  -- Only the times of the timers in the list matter.
  pub IsSorted-agree :
      (bs : List ℕ)
      → ((x : ℕ) → has x bs ≡ true → (h x).next ≡ (h' x).next)
      → IsSorted h bs
      → IsSorted h' bs
  unfolding IsSorted
  IsSorted-agree [] same s = tt
  IsSorted-agree (b ∷ bs) same (s, ss) = (
    All-before-agree b bs (same b (has-front b bs)) (λ x m. same x (has-later b bs x m)) s,
    IsSorted-agree bs (λ x m. same x (has-later b bs x m)) ss,
  )
