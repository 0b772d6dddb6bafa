-- ===== src/Encoding/Split.antt =====
-- Both `split` functions of cxk/util/hash_util.cpp: the one asks whether a character is the delimiter,
-- the other whether it is one of the delimiters.
use cxkframework.Prelude.{
  ℕ, zero, suc, ◌+◌, ◌-◌, ◌%◌, ◌^◌, ◌≤◌, ◌<◌, ◌≡◌, refl, ap, ◌∙◌, sym, true, false, Bool, Option,
  none, some, List, [], ◌∷◌, ◌++◌, append-nil, length, ◌==◌, if◌then◌else◌, arith,
}

-- `str.find(delim, last)` with `substr`: the characters before the first delimiter, and those behind
-- it, where `none` is `npos`
pub record Found : Type 0 where
  pub piece : List ℕ
  pub behind : Option (List ℕ)

abbrev longer : ℕ → Found → Found
longer c w = record w { piece = c ∷ w.piece }

unfoldable pub find : (ℕ → Bool) → List ℕ → Found
find is_delim [] = record { piece = []; behind = none }
find is_delim (c ∷ cs) =
    let later = longer c (find is_delim cs) in
    if is_delim c then record { piece = []; behind = some cs } else later

-- one round of the loop, on what the search found
abbrev pub round :
    Option (List ℕ) → List ℕ → List ℕ → Bool → (List ℕ → List (List ℕ)) → List (List ℕ)
round none piece str last later = str ∷ []
round (some rest) piece str last later = piece ∷ (if last then rest ∷ [] else later rest)

-- the loop, and the `push_back` behind it, where `str` is what starts at `last`; a round takes at
-- least one character, so that `fuel` above the length is enough
unfoldable pub split_loop : ℕ → (ℕ → Bool) → ℕ → List ℕ → List (List ℕ)
unfolding find
split_loop zero is_delim max str = str ∷ []
split_loop (suc fuel) is_delim max str =
    let left = (max + 2 ^ 64 - 1) % 2 ^ 64 in
    round (find is_delim str).behind (find is_delim str).piece str (left == 1)
      (split_loop fuel is_delim left)

unfoldable pub split_by : (ℕ → Bool) → ℕ → List ℕ → List (List ℕ)
unfolding split_loop
split_by is_delim max [] = []
split_by is_delim max (c ∷ cs) = split_loop (length (c ∷ cs) + 1) is_delim max (c ∷ cs)

-- `split(str, delim, max)`
unfoldable pub split : List ℕ → ℕ → ℕ → List (List ℕ)
unfolding split_by
split str delim max = split_by (λ c. c == delim) max str

abbrev one_of : List ℕ → ℕ → Bool
one_of [] c = false
one_of (d ∷ ds) c = if c == d then true else one_of ds c

-- `split(str, delims, max)`
unfoldable pub split_any : List ℕ → List ℕ → ℕ → List (List ℕ)
unfolding split_by
split_any str delims max = split_by (one_of delims) max str

-- the pieces, each with the delimiter before it
unfoldable pub rejoin_rest : ℕ → List (List ℕ) → List ℕ
rejoin_rest d [] = []
rejoin_rest d (x ∷ xs) = d ∷ (x ++ rejoin_rest d xs)

-- the pieces with the delimiter between them
unfoldable pub rejoin : ℕ → List (List ℕ) → List ℕ
unfolding rejoin_rest
rejoin d [] = []
rejoin d (x ∷ xs) = x ++ rejoin_rest d xs

-- one character of the search
abbrev found_at : Bool → ℕ → List ℕ → Found → Found
found_at t c cs w = if t then record { piece = []; behind = some cs } else longer c w

found_at_lem :
    (t : Bool) (d c : ℕ) (cs rest : List ℕ) (w : Found)
    → (t ≡ true → c ≡ d)
    → (w.behind ≡ some rest → cs ≡ w.piece ++ d ∷ rest)
    → (found_at t c cs w).behind ≡ some rest
    → c ∷ cs ≡ (found_at t c cs w).piece ++ d ∷ rest
found_at_lem true d c cs rest w is_d later e = let same : c ≡ d = is_d refl in cc
found_at_lem false d c cs rest w is_d later e = ap (λ t. c ∷ t) (later e)

find_lem :
    (d : ℕ) (str rest : List ℕ)
    → (find (λ c. c == d) str).behind ≡ some rest
    → str ≡ (find (λ c. c == d) str).piece ++ d ∷ rest
unfolding find
find_lem d [] rest e = absurd cc
find_lem d (c ∷ cs) rest e =
    found_at_lem (c == d) d c cs rest (find (λ c. c == d) cs) (λ h. ground arith)
      (find_lem d cs rest) e

found_at_shorter :
    (t : Bool) (c : ℕ) (cs rest : List ℕ) (w : Found)
    → (w.behind ≡ some rest → length rest < length cs)
    → (found_at t c cs w).behind ≡ some rest
    → length rest < length (c ∷ cs)
found_at_shorter true c cs rest w later e =
    let same : length cs ≡ length rest = ap length (let e' : cs ≡ rest = cc in e') in omega arith
found_at_shorter false c cs rest w later e =
    let l : length rest < length cs = later e in omega arith

find_shorter :
    (p : ℕ → Bool) (str rest : List ℕ) → (find p str).behind ≡ some rest → length rest < length str
unfolding find
find_shorter p [] rest e = absurd cc
find_shorter p (c ∷ cs) rest e =
    found_at_shorter (p c) c cs rest (find p cs) (find_shorter p cs rest) e

round-rejoin :
    (d : ℕ) (o : Option (List ℕ)) (piece str : List ℕ) (last : Bool)
    (later : List ℕ → List (List ℕ))
    → ((rest : List ℕ) → o ≡ some rest → str ≡ piece ++ d ∷ rest)
    → ((rest : List ℕ) → o ≡ some rest → rejoin_rest d (later rest) ≡ d ∷ rest)
    → rejoin_rest d (round o piece str last later) ≡ d ∷ str
unfolding rejoin_rest
round-rejoin d none piece str last later parts rec = ap (λ t. d ∷ t) (append-nil str)
round-rejoin d (some rest) piece str true later parts rec =
    ap (λ t. d ∷ (piece ++ d ∷ t)) (append-nil rest) ∙ ap (λ t. d ∷ t) (sym (parts rest refl))
round-rejoin d (some rest) piece str false later parts rec =
    ap (λ t. d ∷ (piece ++ t)) (rec rest refl) ∙ ap (λ t. d ∷ t) (sym (parts rest refl))

split_loop-rejoin :
    (d fuel max : ℕ) (str : List ℕ)
    → length str < fuel
    → rejoin_rest d (split_loop fuel (λ c. c == d) max str) ≡ d ∷ str
unfolding split_loop
split_loop-rejoin d zero max str h = absurd (omega arith)
split_loop-rejoin d (suc fuel) max str h =
    let left : ℕ = (max + 2 ^ 64 - 1) % 2 ^ 64 in
    round-rejoin d (find (λ c. c == d) str).behind (find (λ c. c == d) str).piece str (left == 1)
      (split_loop fuel (λ c. c == d) left) (λ rest e. find_lem d str rest e)
      (λ rest e. split_loop-rejoin d fuel left rest (
        let shorter : length rest < length str = find_shorter (λ c. c == d) str rest e in
        omega arith))

rejoin_drop :
    (d : ℕ) (xs : List (List ℕ)) (str : List ℕ) → rejoin_rest d xs ≡ d ∷ str → rejoin d xs ≡ str
unfolding rejoin rejoin_rest
rejoin_drop d [] str e = absurd cc
rejoin_drop d (x ∷ xs) str e = cc

rejoin_nil : (d : ℕ) → rejoin d [] ≡ []
unfolding rejoin
rejoin_nil d = refl

-- For every text, delimiter and limit, the pieces of split with the delimiter between them are the
-- text.
pub rejoin-split : (str : List ℕ) (delim max : ℕ) → rejoin delim (split str delim max) ≡ str
unfolding split split_by
rejoin-split [] delim max = rejoin_nil delim
rejoin-split (c ∷ cs) delim max =
    rejoin_drop delim (split_loop (length (c ∷ cs) + 1) (λ b. b == delim) max (c ∷ cs)) (c ∷ cs)
      (split_loop-rejoin delim (length (c ∷ cs) + 1) max (c ∷ cs) (omega arith))

round-length :
    (o : Option (List ℕ)) (piece str : List ℕ) (last : Bool) (later : List ℕ → List (List ℕ))
    (n : ℕ)
    → 1 ≤ n
    → (last ≡ true → 2 ≤ n)
    → ((rest : List ℕ) → last ≡ false → length (later rest) + 1 ≤ n)
    → length (round o piece str last later) ≤ n
round-length none piece str last later n one two more = one
round-length (some rest) piece str true later n one two more = two refl
round-length (some rest) piece str false later n one two more =
    let l = more rest refl in omega arith

split_loop-length :
    (p : ℕ → Bool) (fuel max : ℕ) (str : List ℕ)
    → 2 ≤ max
    → max < 2 ^ 64
    → length (split_loop fuel p max str) ≤ max
unfolding split_loop
split_loop-length p zero max str h w = omega arith
split_loop-length p (suc fuel) max str h w =
    let left : ℕ = (max + 2 ^ 64 - 1) % 2 ^ 64 in
    let less : (max + 2 ^ 64 - 1) % 2 ^ 64 ≡ max - 1 = omega arith in
    round-length (find p str).behind (find p str).piece str (left == 1) (split_loop fuel p left) max
      (omega arith) (λ _. h)
      (λ rest more.
        let still : 2 ≤ left = ground arith in
        let bound : length (split_loop fuel p left rest) ≤ left =
          split_loop-length p fuel left rest still (omega arith) in
        omega arith)

split_by-length :
    (p : ℕ → Bool) (max : ℕ) (str : List ℕ)
    → 2 ≤ max
    → max < 2 ^ 64
    → length (split_by p max str) ≤ max
unfolding split_by
split_by-length p max [] h w = omega arith
split_by-length p max (c ∷ cs) h w = split_loop-length p (length (c ∷ cs) + 1) max (c ∷ cs) h w

-- With a limit of at least 2 and below 2 ^ 64, neither split returns more pieces than the limit.
pub length-split :
    (str delims : List ℕ) (delim max : ℕ)
    → 2 ≤ max
    → max < 2 ^ 64
    → (length (split str delim max) ≤ max) × (length (split_any str delims max) ≤ max)
unfolding split split_any
length-split str delims delim max h w =
    (split_by-length (λ c. c == delim) max str h w, split_by-length (one_of delims) max str h w)
