-- ===== src/Timer/Invariant.antt =====
-- The invariant of `TimerManager` of cxk/timer.cpp, and how a change of one timer moves it.
use cxkframework.Prelude.{
  ℕ, ◌≡◌, ◌≢◌, refl, ap, ◌∙◌, sym, true, false, Bool, not, ◌&&◌, List, [], ◌∷◌, arith, ℕ_discrete,
  ==_of,
}
use cxkframework.Timer.{Timer, TimerManager, armed, put, insert}
use cxkframework.Timer.Order.{
  has, without, IsSorted, insert-IsSorted, has-insert, has-without, without-IsSorted,
  IsSorted-agree, ==_no,
}

-- The set of a manager while the timers of `front` are on their way into it or out of it.
pub record IsPending (h : ℕ → Timer) (front ts : List ℕ) : Type 0 where
  pub sorted : IsSorted h ts
  pub member : (x : ℕ) → has x ts ≡ (armed (h x).cb && not (has x front))

abbrev pub IsValid : TimerManager → Type 0
IsValid m = IsPending m.heap [] m.timers

pub not_both : (u : Bool) → u ≡ true → u ≢ false
not_both u h h' = cc

pub and_false : (u : Bool) → (u && false) ≡ false
and_false true = refl
and_false false = refl

pub has-front : (a : ℕ) (bs : List ℕ) → has a (a ∷ bs) ≡ true
unfolding has
has-front a bs = ground arith

pub has-other : (x a : ℕ) (bs : List ℕ) → x ≢ a → has x (a ∷ bs) ≡ has x bs
unfolding has
has-other x a bs n = ground arith

module _ (h : ℕ → Timer) (a : ℕ) (t : Timer) where
  pub put-same : put a t h a ≡ t
  unfolding put
  put-same = rw (==_of a a refl) refl

  pub put-other : (x : ℕ) → x ≢ a → put a t h x ≡ h x
  unfolding put
  put-other x n = rw (==_no x a n) refl

  put-IsSorted : (ts : List ℕ) → has a ts ≡ false → IsSorted h ts → IsSorted (put a t h) ts
  put-IsSorted ts out s =
      IsSorted-agree h (put a t h) ts
        (λ x m. sym (ap (λ (u : Timer). u.next) (put-other x (λ e. differ x e m)))) s
    where
      differ : (x : ℕ) → x ≡ a → has x ts ≢ true
      differ x e m = not_both (has x ts) m (ap (λ (u : ℕ). has u ts) e ∙ out)

  pub keep-IsSorted : (ts : List ℕ) → t.next ≡ (h a).next → IsSorted h ts → IsSorted (put a t h) ts
  keep-IsSorted ts e s = IsSorted-agree h (put a t h) ts (λ x m. same x) s
    where
      same : (x : ℕ) → (h x).next ≡ (put a t h x).next
      same x = elim (ℕ_discrete x a) [
        | yes same_address ↦
            ap (λ (u : ℕ). (h u).next) same_address
            ∙ (sym e ∙ sym (ap (λ (u : Timer). u.next) (ap (put a t h) same_address ∙ put-same)))
        | no n ↦ sym (ap (λ (u : Timer). u.next) (put-other x n))
      ]

  module _ (bs ts : List ℕ) (p : IsPending h (a ∷ bs) ts) where
    not_in : has a ts ≡ false
    not_in =
        p.member a
        ∙ (ap (λ u. armed (h a).cb && not u) (has-front a bs) ∙ and_false (armed (h a).cb))

    elsewhere : (x : ℕ) → x ≢ a → has x ts ≡ (armed (put a t h x).cb && not (has x bs))
    elsewhere x n =
        p.member x
        ∙ (ap (λ u. armed (h x).cb && not u) (has-other x a bs n)
            ∙ sym (ap (λ (u : Timer). armed u.cb && not (has x bs)) (put-other x n)))

    here : armed (put a t h a).cb ≡ armed t.cb
    here = ap (λ (u : Timer). armed u.cb) put-same

    -- The pending timer is settled: it goes into the set,
    pub settle_in :
        armed t.cb ≡ true → has a bs ≡ false → IsPending (put a t h) bs (insert (put a t h) a ts)
    settle_in on apart = record {
      sorted = insert-IsSorted (put a t h) a ts (put-IsSorted ts not_in p.sorted);
      member = λ x. has-insert (put a t h) a ts x ∙ elim (ℕ_discrete x a) [
        | yes e ↦
            rw (==_of x a e) (sym (ap (λ u. armed (put a t h u).cb && not (has u bs)) e ∙ in_set))
        | no n ↦ rw (==_no x a n) (elsewhere x n)
      ];
    }
      where
        in_set : (armed (put a t h a).cb && not (has a bs)) ≡ true
        in_set = rw here (rw on (rw apart refl))

    -- or it has lost its callback.
    pub settle_out : armed t.cb ≡ false → IsPending (put a t h) bs ts
    settle_out off = record {
      sorted = put-IsSorted ts not_in p.sorted;
      member = λ x. elim (ℕ_discrete x a) [
        | yes e ↦
            ap (λ u. has u ts) e
            ∙ (not_in ∙ sym (ap (λ u. armed (put a t h u).cb && not (has u bs)) e ∙ gone))
        | no n ↦ elsewhere x n
      ];
    }
      where
        gone : (armed (put a t h a).cb && not (has a bs)) ≡ false
        gone = rw here (rw off refl)

module _ (h : ℕ → Timer) (a : ℕ) (ts : List ℕ) (p : IsPending h [] ts) where
  pub in_set : armed (h a).cb ≡ true → has a ts ≡ true
  unfolding has
  in_set on = p.member a ∙ rw on refl

  -- A timer is taken out of the set,
  pub taken : IsPending h (a ∷ []) (without a ts)
  taken = record {
    sorted = without-IsSorted h a ts p.sorted;
    member = λ x. has-without a ts x ∙ elim (ℕ_discrete x a) [
      | yes e ↦ rw (==_of x a e) (
          sym (
            ap (λ u. armed (h x).cb && not u) (ap (λ u. has u (a ∷ [])) e ∙ has-front a [])
            ∙ and_false (armed (h x).cb)))
      | no n ↦
          rw (==_no x a n)
            (p.member x ∙ ap (λ u. armed (h x).cb && not u) (sym (has-other x a [] n)))
    ];
  }

  -- or it was not in it.
  pub absent : armed (h a).cb ≡ false → IsPending h (a ∷ []) ts
  unfolding has
  absent off = record { sorted = p.sorted; member = λ x. p.member x ∙ still x }
    where
      still : (x : ℕ) → (armed (h x).cb && true) ≡ (armed (h x).cb && not (has x (a ∷ [])))
      still x = elim (ℕ_discrete x a) [
        | yes e ↦ rw e (rw off refl)
        | no n ↦ ap (λ u. armed (h x).cb && not u) (sym (has-other x a [] n))
      ]

  pub not_in_set : armed (h a).cb ≡ false → has a ts ≡ false
  not_in_set off = p.member a ∙ rw off refl
