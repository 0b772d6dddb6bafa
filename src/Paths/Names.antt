-- ===== src/Paths/Names.antt =====
-- The two parts of a path that cxk/util.cpp takes it apart into.
use cxkframework.Prelude.{
  ℕ, zero, suc, ◌≡◌, refl, sym, ap, true, false, Bool, Option, none, some, [], ◌∷◌, ◌++◌, ◌==◌,
  take, drop, arith,
}
use cxkframework.Paths.{Text, after_first, rfind_slash, dirname_at, basename_at, dirname, basename}

-- What a dirname and a basename are joined to.
abbrev pub joined : Text → Text → Option ℕ → Text
joined dir base none = base
joined dir base (some zero) = dir ++ base
joined dir base (some (suc n)) = dir ++ (b'/' ∷ base)

-- the text around its last slash
abbrev Around : Text → Option ℕ → Type 0
Around bs none = Unit
Around bs (some i) = take i bs ++ (b'/' ∷ drop (suc i) bs) ≡ bs

later :
    (b : ℕ) (bs : Text) (here : Bool) (o : Option ℕ)
    → (b == b'/') ≡ here
    → Around bs o
    → Around (b ∷ bs) (after_first here o)
later b bs here (some i) h e = ap (λ t. b ∷ t) e
later b bs true none h e = let slash : b ≡ b'/' = ground arith in ap (λ c. c ∷ bs) (sym slash)
later b bs false none h e = tt

rfind_slash_lem : (bs : Text) → Around bs (rfind_slash bs)
unfolding rfind_slash
rfind_slash_lem [] = tt
rfind_slash_lem (b ∷ bs) = later b bs (b == b'/') (rfind_slash bs) refl (rfind_slash_lem bs)

join_at :
    (filename : Text) (o : Option ℕ)
    → Around filename o
    → joined (dirname_at filename o) (basename_at filename o) o ≡ filename
join_at filename none e = refl
join_at filename (some zero) e = e
join_at filename (some (suc n)) e = e

-- A path is its dirname, a slash and its basename; only a slash in front stands in the dirname itself,
-- and without a slash the basename is the path.
pub dirname-basename :
    (filename : Text)
    → joined (dirname filename) (basename filename) (rfind_slash filename) ≡ filename
unfolding dirname basename rfind_slash
dirname-basename [] = refl
dirname-basename (b ∷ bs) = join_at (b ∷ bs) (rfind_slash (b ∷ bs)) (rfind_slash_lem (b ∷ bs))
