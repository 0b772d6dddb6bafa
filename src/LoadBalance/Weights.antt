-- ===== src/LoadBalance/Weights.antt =====
-- The index that `getIdx` of cxk/stream/load_balance.cpp returns.
use cxkframework.Prelude.{
  ℕ, zero, suc, ◌+◌, ◌-◌, ◌/◌, ◌%◌, ◌^◌, ◌≤◌, ◌<◌, ◌≡◌, refl, sym, ap, ◌∙◌, subst, true, false,
  Bool-cases, inl, inr, Option, none, some, List, [], ◌∷◌, ◌==◌, if◌then◌else◌, length, get_elem?,
  get_elem?_lt, arith, and_then,
}
use cxkframework.LoadBalance.{
  Item, running, last_or, init_weight, less_int, halve, upper_loop, upper_bound, magnitude, get_idx,
  weight_get, search,
}

-- the sum of the weights
abbrev pub total : List Item → ℕ
total [] = 0
total (h ∷ hs) = h.weight + total hs

-- what an index finds in running sums: all before it are at most `v`, all from it on are larger
pub record Splits (v : ℕ) (ws : List ℕ) (k : ℕ) : Type 0 where
  pub within : k ≤ length ws
  pub before : (i w : ℕ) → i < k → get_elem? ws i ≡ some w → w ≤ v
  pub beyond : (i w : ℕ) → k ≤ i → get_elem? ws i ≡ some w → v < w

some_value : {a b : ℕ} → some a ≡ some b → a ≡ b
some_value e = cc

module _ (v : ℕ) (ws : List ℕ) (less : v < 2 ^ 31)
    (small : (i w : ℕ) → get_elem? ws i ≡ some w → w < 2 ^ 31)
    (sorted : (i j a b : ℕ)
      → i ≤ j
      → get_elem? ws i ≡ some a
      → get_elem? ws j ≡ some b
      → a ≤ b) where
  upper_loop_lem :
      (fuel first len : ℕ)
      → len ≤ fuel
      → first + len ≤ length ws
      → ((i w : ℕ) → i < first → get_elem? ws i ≡ some w → w ≤ v)
      → ((i w : ℕ) → first + len ≤ i → get_elem? ws i ≡ some w → v < w)
      → Splits v ws (upper_loop fuel v ws first len)
  unfolding upper_loop
  upper_loop_lem zero first zero f l lo hi = record {
    within = omega arith;
    before = lo;
    beyond = λ i w le e. hi i w (omega arith) e;
  }
  upper_loop_lem zero first (suc n) f l lo hi = absurd (omega arith)
  upper_loop_lem (suc fuel) first zero f l lo hi = record {
    within = omega arith;
    before = lo;
    beyond = λ i w le e. hi i w (omega arith) e;
  }
  upper_loop_lem (suc fuel) first (suc n) f l lo hi =
      let mid = first + suc n / 2 in
      let (w, there) = get_elem?_lt ws mid (omega arith) in
      let lower = upper_loop fuel v ws first (suc n / 2) in
      let upper = upper_loop fuel v ws (mid + 1) (n - suc n / 2) in
      let small_w = small mid w there in
      elim (Bool-cases (less_int v w)) [
        | inl lt ↦
            let larger : v < w = ground arith in
            subst (λ o. Splits v ws (halve v o first lower upper)) (sym there)
              (subst (λ b. Splits v ws (if b then lower else upper)) (sym lt)
                (upper_loop_lem fuel first (suc n / 2) (omega arith) (omega arith) lo
                  (λ i w' le e. omega (arith, sorted mid i w w' le there e))))
        | inr ge ↦
            let smaller : w ≤ v = ground arith in
            subst (λ o. Splits v ws (halve v o first lower upper)) (sym there)
              (subst (λ b. Splits v ws (if b then lower else upper)) (sym ge)
                (upper_loop_lem fuel (mid + 1) (n - suc n / 2) (omega arith) (omega arith)
                  (λ i w' le e. omega (arith, sorted i mid w' w (omega arith) e there))
                  (λ i w' le e. hi i w' (omega arith) e)))
      ]

-- the running sums, where they do not wrap
running-within :
    (t : ℕ) (hs : List Item) (i w : ℕ)
    → t + total hs < 2 ^ 31
    → get_elem? (running t hs) i ≡ some w
    → (t ≤ w) × (w ≤ t + total hs)
unfolding running
running-within t [] i w l e = cc
running-within t (h ∷ hs) zero w l e =
    let first : (t + h.weight) % 2 ^ 32 ≡ w = some_value e in (omega arith, omega arith)
running-within t (h ∷ hs) (suc i) w l e =
    let sum : (t + h.weight) % 2 ^ 32 ≡ t + h.weight = omega arith in
    let (a, b) = running-within ((t + h.weight) % 2 ^ 32) hs i w (omega arith) e in
    (omega arith, omega arith)

running_sorted :
    (t : ℕ) (hs : List Item) (i j a b : ℕ)
    → t + total hs < 2 ^ 31
    → i ≤ j
    → get_elem? (running t hs) i ≡ some a
    → get_elem? (running t hs) j ≡ some b
    → a ≤ b
unfolding running
running_sorted t [] i j a b l le p q = cc
running_sorted t (h ∷ hs) zero zero a b l le p q =
    let same : a ≡ b = some_value (sym p ∙ q) in omega arith
running_sorted t (h ∷ hs) zero (suc j) a b l le p q =
    let first : (t + h.weight) % 2 ^ 32 ≡ a = some_value p in
    let (lo, hi) = running-within ((t + h.weight) % 2 ^ 32) hs j b (omega arith) q in omega arith
running_sorted t (h ∷ hs) (suc i) zero a b l le p q = absurd (omega arith)
running_sorted t (h ∷ hs) (suc i) (suc j) a b l le p q =
    running_sorted ((t + h.weight) % 2 ^ 32) hs i j a b (omega arith) (omega arith) p q

last_or-running :
    (t d : ℕ) (hs : List Item) → t + total hs < 2 ^ 31 → last_or t (running t hs) ≡ t + total hs
unfolding running
last_or-running t d [] l = omega arith
last_or-running t d (h ∷ hs) l =
    let sum : (t + h.weight) % 2 ^ 32 ≡ t + h.weight = omega arith in
    last_or-running ((t + h.weight) % 2 ^ 32) d hs (omega arith) ∙ omega arith

length-running : (t : ℕ) (hs : List Item) → length (running t hs) ≡ length hs
unfolding running
length-running t [] = refl
length-running t (h ∷ hs) = ap suc (length-running ((t + h.weight) % 2 ^ 32) hs)

past : {A : Type 0} (ws : List ℕ) (i w : ℕ) → length ws ≤ i → get_elem? ws i ≡ some w → A
past [] i w l e = cc
past (x ∷ ws) zero w l e = absurd (omega arith)
past (x ∷ ws) (suc i) w l e = past ws i w (omega arith) e

get_idx_at :
    (random w : ℕ) (ws : List ℕ) (t : ℕ)
    → 0 < t
    → t < 2 ^ 31
    → last_or w ws ≡ t
    → get_idx random (w ∷ ws) ≡ some ((2 ^ 64 - upper_bound (random % t) (w ∷ ws)) % 2 ^ 64)
unfolding get_idx
get_idx_at random w ws t pos l e =
    let not_zero : (t == 0) ≡ false = ground arith in
    let same : magnitude t ≡ t = ground arith in
    ap
      (λ t.
        if t == 0
        then none
        else some ((2 ^ 64 - upper_bound (random % magnitude t) (w ∷ ws)) % 2 ^ 64))
      e
    ∙ rw not_zero (ap (λ n. some ((2 ^ 64 - upper_bound (random % n) (w ∷ ws)) % 2 ^ 64)) same)

module _ (items : List Item) (random : ℕ) (some_weight : 0 < total items)
    (small : total items < 2 ^ 31) (short : length items < 2 ^ 31) where
  abbrev drawn : ℕ
  drawn = random % total items

  abbrev index : ℕ
  index = upper_bound drawn (running 0 items)

  index-Splits : Splits drawn (running 0 items) index
  unfolding upper_bound
  index-Splits =
      upper_loop_lem drawn (running 0 items) (omega arith)
        (λ i w e. let (a, b) = running-within 0 items i w (omega arith) e in omega arith)
        (λ i j a b le p q. running_sorted 0 items i j a b (omega arith) le p q)
        (length (running 0 items)) 0 (length (running 0 items)) (omega arith) (omega arith)
        (λ i w l e. absurd (omega arith)) (λ i w l e. past (running 0 items) i w (omega arith) e)

  get_idx_lem : get_idx random (running 0 items) ≡ some ((2 ^ 64 - index) % 2 ^ 64)
  unfolding running
  get_idx_lem = by_sums items some_weight small
    where
      by_sums :
          (hs : List Item)
          → 0 < total hs
          → total hs < 2 ^ 31
          → get_idx random (running 0 hs)
            ≡ some ((2 ^ 64 - upper_bound (random % total hs) (running 0 hs)) % 2 ^ 64)
      by_sums [] pos l = absurd (omega arith)
      by_sums (h ∷ hs) pos l =
          get_idx_at random ((0 + h.weight) % 2 ^ 32) (running ((0 + h.weight) % 2 ^ 32) hs)
            (total (h ∷ hs)) pos l (last_or-running 0 0 (h ∷ hs) (omega arith) ∙ omega arith)

  -- After initWeight of fewer than 2 ^ 31 items whose weights are not negative and have a sum above
  -- 0 and below 2 ^ 31, getIdx finds, by the binary search, the index k that splits the running
  -- sums: those before it are at most rand() modulo the sum, those from it on are larger. But get
  -- returns null where k is 1, and otherwise searches from the index -k, modulo 2 ^ 64, on.
  pub weight_get_lem :
      (k : ℕ) × Splits (random % total items) (running 0 items) k
      × (weight_get random (init_weight (record { items = items; weights = [] })).1
          ≡ some (if k == 1 then none else search (length items) 0 ((2 ^ 64 - k) % 2 ^ 64) items))
  unfolding weight_get init_weight
  weight_get_lem =
      let at_most : index ≤ length items =
        omega (arith, index-Splits.within, length-running 0 items) in
      (
        index,
        index-Splits,
        ap (λ o. and_then o found) get_idx_lem ∙ elim (Bool-cases (index == 1)) [
          | inl one ↦
              let last : ((2 ^ 64 - index) % 2 ^ 64 == 2 ^ 64 - 1) ≡ true = ground arith in
              rw one (rw last refl)
          | inr other ↦
              let usual : ((2 ^ 64 - index) % 2 ^ 64 == 2 ^ 64 - 1) ≡ false = ground arith in
              rw other (rw usual refl)
        ],
      )
    where
      found : ℕ → Option (Option Item)
      found idx = if idx == 2 ^ 64 - 1 then some none else some (search (length items) 0 idx items)
