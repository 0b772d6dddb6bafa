-- ===== src/Servlet/Globs.antt =====
-- The list of globs of cxk/http/servlet.cpp, in which no URI stands twice.
use cxkframework.Prelude.{
  ◌≡◌, refl, sym, ap, ◌∙◌, true, false, Bool, List, [], ◌∷◌, ◌++◌, if◌then◌else◌, arith, Bool-cases,
  inl, inr,
}
use cxkframework.Servlet.{Text, Servlet, text_eq, erase_glob}

text_eq_refl : (a : Text) → text_eq a a ≡ true
unfolding text_eq
text_eq_refl [] = refl
text_eq_refl (x ∷ a) = let same = text_eq_refl a in ground arith

pub text_eq_sym : (a b : Text) → text_eq a b ≡ text_eq b a
unfolding text_eq
text_eq_sym [] [] = refl
text_eq_sym [] (y ∷ b) = refl
text_eq_sym (x ∷ a) [] = refl
text_eq_sym (x ∷ a) (y ∷ b) = let same = text_eq_sym a b in ground arith

pub text_eq_to : (a b : Text) → text_eq a b ≡ true → a ≡ b
unfolding text_eq
text_eq_to [] [] h = refl
text_eq_to [] (y ∷ b) h = cc
text_eq_to (x ∷ a) [] h = cc
text_eq_to (x ∷ a) (y ∷ b) h =
    let head : x ≡ y = ground arith in
    let tail = text_eq_to a b (ground arith) in ap (λ t. t ∷ a) head ∙ ap (λ t. y ∷ t) tail

-- Every glob with the URI is taken out.
unfoldable pub without_glob : Text → List (Text × Servlet) → List (Text × Servlet)
without_glob uri [] = []
without_glob uri (g ∷ gs) =
    let rest = without_glob uri gs in if text_eq g.0 uri then rest else g ∷ rest

unfoldable pub is_glob : Text → List (Text × Servlet) → Bool
is_glob uri [] = false
is_glob uri (g ∷ gs) = if text_eq g.0 uri then true else is_glob uri gs

unfoldable pub IsDistinct : List (Text × Servlet) → Type 0
IsDistinct [] = Unit {0}
IsDistinct (g ∷ gs) = (is_glob g.0 gs ≡ false) × IsDistinct gs

without_glob-absent :
    (uri : Text) (gs : List (Text × Servlet)) → is_glob uri gs ≡ false → without_glob uri gs ≡ gs
unfolding without_glob is_glob
without_glob-absent uri [] h = refl
without_glob-absent uri (g ∷ gs) h = let ih = without_glob-absent uri gs in ground arith

-- Erasing the first is erasing all.
pub erase_glob_lem :
    (uri : Text) (gs : List (Text × Servlet))
    → IsDistinct gs
    → erase_glob uri gs ≡ without_glob uri gs
unfolding erase_glob without_glob IsDistinct
erase_glob_lem uri [] d = refl
erase_glob_lem uri (g ∷ gs) (d, ds) = elim (Bool-cases (text_eq g.0 uri)) [
  | inl same ↦
      let gone =
        without_glob-absent uri gs (ap (λ u. is_glob u gs) (sym (text_eq_to g.0 uri same)) ∙ d) in
      rw same (sym gone)
  | inr other ↦ rw other (ap (λ t. g ∷ t) (erase_glob_lem uri gs ds))
]

is_glob-without_glob :
    (u uri : Text) (gs : List (Text × Servlet))
    → is_glob u gs ≡ false
    → is_glob u (without_glob uri gs) ≡ false
unfolding without_glob is_glob
is_glob-without_glob u uri [] h = refl
is_glob-without_glob u uri (g ∷ gs) h = let ih = is_glob-without_glob u uri gs in ground arith

is_glob_gone : (uri : Text) (gs : List (Text × Servlet)) → is_glob uri (without_glob uri gs) ≡ false
unfolding without_glob is_glob
is_glob_gone uri [] = refl
is_glob_gone uri (g ∷ gs) = let ih = is_glob_gone uri gs in ground arith

pub without_glob-IsDistinct :
    (uri : Text) (gs : List (Text × Servlet)) → IsDistinct gs → IsDistinct (without_glob uri gs)
unfolding without_glob IsDistinct
without_glob-IsDistinct uri [] d = tt
without_glob-IsDistinct uri (g ∷ gs) (d, ds) = elim (Bool-cases (text_eq g.0 uri)) [
  | inl same ↦ rw same (without_glob-IsDistinct uri gs ds)
  | inr other ↦ rw other (is_glob-without_glob g.0 uri gs d, without_glob-IsDistinct uri gs ds)
]

is_glob-append :
    (u uri : Text) (s : Servlet) (gs : List (Text × Servlet))
    → is_glob u gs ≡ false
    → text_eq uri u ≡ false
    → is_glob u (gs ++ ((uri, s) ∷ [])) ≡ false
unfolding is_glob
is_glob-append u uri s [] h n = rw n refl
is_glob-append u uri s (g ∷ gs) h n = let ih = is_glob-append u uri s gs in ground arith

pub append-IsDistinct :
    (uri : Text) (s : Servlet) (gs : List (Text × Servlet))
    → is_glob uri gs ≡ false
    → IsDistinct gs
    → IsDistinct (gs ++ ((uri, s) ∷ []))
unfolding IsDistinct is_glob
append-IsDistinct uri s [] h d = (refl, tt)
append-IsDistinct uri s (g ∷ gs) h (d, ds) = elim (Bool-cases (text_eq g.0 uri)) [
  | inl same ↦ absurd (ground arith)
  | inr other ↦ (
    is_glob-append g.0 uri s gs d (text_eq_sym uri g.0 ∙ other),
    append-IsDistinct uri s gs (ground arith) ds,
  )
]

pub added-IsDistinct :
    (uri : Text) (s : Servlet) (gs : List (Text × Servlet))
    → IsDistinct gs
    → IsDistinct (without_glob uri gs ++ ((uri, s) ∷ []))
added-IsDistinct uri s gs d =
    append-IsDistinct uri s (without_glob uri gs) (is_glob_gone uri gs)
      (without_glob-IsDistinct uri gs d)
