-- ===== src/LoadBalance/Search.antt =====
-- The loop of `get` in cxk/stream/load_balance.cpp finds a valid item where there is one.
use cxkframework.Prelude.{
  ℕ, zero, suc, ◌+◌, ◌-◌, ◌%◌, ◌^◌, ◌≤◌, ◌<◌, ◌≡◌, ◌⊎◌, inl, inr, refl, sym, ap, ◌∙◌, subst, true,
  false, Option, none, some, List, [], ◌∷◌, ◌==◌, if◌then◌else◌, length, get_elem?, get_elem?-some,
  All, arith, Bool-cases, ℕ_discrete, leb,
}
use native.Mathlib.Nat.{mod-eq_of_lt, add-mod_right, mod-lt}
use cxkframework.LoadBalance.{Item, LoadBalance, or_next, search, round_robin_get}

-- A valid item of the list, or none where none is valid.
abbrev pub Finds : List Item → Option Item → Type 0
Finds hs none = All (λ h. h.valid ≡ false) hs
Finds hs (some h) = (h.valid ≡ true) × ((j : ℕ) × (get_elem? hs j ≡ some h))

abbrev index : ℕ → ℕ → List Item → ℕ
index start i hs = (start + i) % 2 ^ 64 % length hs

or_next-none :
    (o later : Option Item)
    → or_next o later ≡ none
    → (later ≡ none) × (All (λ h. h.valid ≡ false) (elim o [ none ↦ [] | some h ↦ h ∷ [] ]))
or_next-none none later e = (e, tt)
or_next-none (some g) later e = ground arith

or_next-some :
    (o later : Option Item) (h : Item)
    → or_next o later ≡ some h
    → ((o ≡ some h) × (h.valid ≡ true)) ⊎ (later ≡ some h)
or_next-some none later h e = inr e
or_next-some (some g) later h e = elim (Bool-cases g.valid) [
  | inl good ↦
      let same : g ≡ h = taken good in inl (ap some same, ap (λ i. i.valid) (sym same) ∙ good)
  | inr bad ↦ inr (sym (ap (λ b. if b then some g else later) bad) ∙ e)
]
  where
    taken : g.valid ≡ true → g ≡ h
    taken good =
        let both : some g ≡ some h = sym (ap (λ b. if b then some g else later) good) ∙ e in cc

-- What the loop has seen when it finds nothing.
search_misses :
    (n i start : ℕ) (hs : List Item)
    → search n i start hs ≡ none
    → (j : ℕ) → i ≤ j
    → j < i + n
    → (h : Item) → get_elem? hs (index start j hs) ≡ some h
    → h.valid ≡ false
unfolding search
search_misses zero i start hs e j lo hi h there = absurd (omega arith)
search_misses (suc n) i start hs e j lo hi h there =
    let (later, here) =
      or_next-none (get_elem? hs (index start i hs)) (search n (i + 1) start hs) e in
    elim (ℕ_discrete i j) [
      | yes same ↦
          (subst (λ o. All (λ h. h.valid ≡ false) (elim o [ none ↦ [] | some h ↦ h ∷ [] ]))
            (ap (λ k. get_elem? hs (index start k hs)) same ∙ there) here).0
      | no other ↦ search_misses n (i + 1) start hs later j (omega arith) (omega arith) h there
    ]

search_hits :
    (n i start : ℕ) (hs : List Item) (h : Item)
    → search n i start hs ≡ some h
    → (h.valid ≡ true) × ((j : ℕ) × (get_elem? hs j ≡ some h))
unfolding search
search_hits zero i start hs h e = cc
search_hits (suc n) i start hs h e =
    elim (or_next-some (get_elem? hs (index start i hs)) (search n (i + 1) start hs) h e) [
      | inl (here, good) ↦ (good, (index start i hs, here))
      | inr later ↦ search_hits n (i + 1) start hs h later
    ]

each_invalid :
    (hs : List Item)
    → ((j : ℕ) (h : Item) → get_elem? hs j ≡ some h → h.valid ≡ false)
    → All (λ h. h.valid ≡ false) hs
each_invalid [] f = tt
each_invalid (h ∷ hs) f = (f 0 h refl, each_invalid hs (λ j. f (suc j)))

-- Each index is met.
met :
    (start k n : ℕ)
    → k < n
    → n < 2 ^ 32
    → start < n
    → (i : ℕ) × (i < n) × ((start + i) % 2 ^ 64 % n ≡ k)
met start k n h small s = elim (Bool-cases (leb start k)) [
  | inl before ↦
      let e : (start + (k - start)) % 2 ^ 64 ≡ k = ground arith in
      (k - start, omega arith, ap (λ t. t % n) e ∙ mod-eq_of_lt h)
  | inr after ↦
      let past : k < start = ground arith in
      let e : (start + (k + n - start)) % 2 ^ 64 ≡ k + n = omega arith in
      (k + n - start, omega arith, ap (λ t. t % n) e ∙ add-mod_right k n ∙ mod-eq_of_lt h)
]

search_lem :
    (start : ℕ) (hs : List Item)
    → length hs < 2 ^ 32
    → start < length hs
    → (o : Option Item) → search (length hs) 0 start hs ≡ o
    → Finds hs o
search_lem start hs small s none e = each_invalid hs (λ j h there.
    let (i, lo, meets) = met start j (length hs) (get_elem?-some hs j there) small s in
    search_misses (length hs) 0 start hs e i (omega arith) (omega arith) h
      (ap (get_elem? hs) meets ∙ there))
search_lem start hs small s (some h) e = search_hits (length hs) 0 start hs h e

no_items : (hs : List Item) → length hs ≡ 0 → Finds hs none
no_items [] e = tt
no_items (h ∷ hs) e = ground arith

-- With fewer than 2 ^ 32 items, whatever rand() returns, get of the balancer by turn returns an
-- item of the list that is valid if there is one, and null only if none is valid.
pub round_robin_get_lem :
    (random : ℕ) (b : LoadBalance)
    → length b.items < 2 ^ 32
    → Finds b.items (round_robin_get random b)
unfolding round_robin_get
round_robin_get_lem random b small = elim (Bool-cases (length b.items == 0)) [
  | inl nothing ↦ rw nothing (no_items b.items (ground arith))
  | inr something ↦
      let low : random % length b.items < length b.items = mod-lt random (ground arith) in
      let start : random % length b.items % 2 ^ 32 < length b.items = omega arith in
      rw something (
        search_lem (random % length b.items % 2 ^ 32) b.items small start
          (search (length b.items) 0 (random % length b.items % 2 ^ 32) b.items) refl)
]
