-- ===== src/Servlet/History.antt =====
-- The dispatcher of cxk/http/servlet.cpp against the calls that were made of it.
use cxkframework.Prelude.{
  ℕ, All, Bool, true, false, ◌==◌, arith, ◌≢◌, ◌≡◌, refl, ap, ◌∙◌, Option, none, some, List, [],
  ◌∷◌, ◌++◌, if◌then◌else◌,
}
use cxkframework.Servlet.{
  Text, Servlet, ServletDispatch, text_eq, erase_glob, add_servlet, add_function_servlet,
  add_glob_servlet, add_glob_function, del_servlet, del_glob_servlet, or_else, match_glob,
  get_matched_servlet, dispatch,
}
use cxkframework.Servlet.Globs.{
  without_glob, IsDistinct, erase_glob_lem, without_glob-IsDistinct, added-IsDistinct,
}

pub data Call : Type 0 where
  adds : Text → Servlet → Call
  adds_function : Text → ℕ → Call
  adds_glob : Text → Servlet → Call
  adds_glob_function : Text → ℕ → Call
  dels : Text → Call
  dels_glob : Text → Call

unfoldable pub apply : Call → ServletDispatch → ServletDispatch
apply (adds uri s) d = add_servlet uri s d
apply (adds_function uri cb) d = add_function_servlet uri cb d
apply (adds_glob uri s) d = add_glob_servlet uri s d
apply (adds_glob_function uri cb) d = add_glob_function uri cb d
apply (dels uri) d = del_servlet uri d
apply (dels_glob uri) d = del_glob_servlet uri d

-- the calls on a new dispatcher with its default servlet, the last one first
unfoldable pub run : Servlet → List Call → ServletDispatch
unfolding apply
run default [] = record { datas = λ _. none; globs = []; default = default }
run default (c ∷ cs) = apply c (run default cs)

-- What the last call for exactly this URI left.
unfoldable pub exact : Text → List Call → Option Servlet
exact u [] = none
exact u (adds uri s ∷ cs) = if text_eq u uri then some s else exact u cs
exact u (adds_function uri cb ∷ cs) = if text_eq u uri then some (some cb) else exact u cs
exact u (adds_glob uri s ∷ cs) = exact u cs
exact u (adds_glob_function uri cb ∷ cs) = exact u cs
exact u (dels uri ∷ cs) = if text_eq u uri then none else exact u cs
exact u (dels_glob uri ∷ cs) = exact u cs

-- The globs that were not taken out since, each where it was last added.
unfoldable pub live : List Call → List (Text × Servlet)
live [] = []
live (adds uri s ∷ cs) = live cs
live (adds_function uri cb ∷ cs) = live cs
live (adds_glob uri s ∷ cs) = without_glob uri (live cs) ++ ((uri, s) ∷ [])
live (adds_glob_function uri cb ∷ cs) = without_glob uri (live cs) ++ ((uri, some cb) ∷ [])
live (dels uri ∷ cs) = live cs
live (dels_glob uri ∷ cs) = without_glob uri (live cs)

live-IsDistinct : (cs : List Call) → IsDistinct (live cs)
unfolding live IsDistinct
live-IsDistinct [] = tt
live-IsDistinct (adds uri s ∷ cs) = live-IsDistinct cs
live-IsDistinct (adds_function uri cb ∷ cs) = live-IsDistinct cs
live-IsDistinct (adds_glob uri s ∷ cs) = added-IsDistinct uri s (live cs) (live-IsDistinct cs)
live-IsDistinct (adds_glob_function uri cb ∷ cs) =
    added-IsDistinct uri (some cb) (live cs) (live-IsDistinct cs)
live-IsDistinct (dels uri ∷ cs) = live-IsDistinct cs
live-IsDistinct (dels_glob uri ∷ cs) = without_glob-IsDistinct uri (live cs) (live-IsDistinct cs)

erased :
    (uri : Text) (gs : List (Text × Servlet)) (cs : List Call)
    → gs ≡ live cs
    → erase_glob uri gs ≡ without_glob uri (live cs)
erased uri gs cs e = ap (erase_glob uri) e ∙ erase_glob_lem uri (live cs) (live-IsDistinct cs)

-- The servlet of the first glob that fnmatch says matches (it returns 0), or none if no glob does.
pub data FirstMatch (fnmatch : Text → Text → ℕ) (uri : Text)
    : List (Text × Servlet) → Option Servlet → Type 0 where
  matches :
      (before after : List (Text × Servlet)) (pattern : Text) (s : Servlet)
      → All (λ g. fnmatch g.0 uri ≢ 0) before
      → fnmatch pattern uri ≡ 0
      → FirstMatch fnmatch uri (before ++ ((pattern, s) ∷ after)) (some s)
  no_match :
      (globs : List (Text × Servlet))
      → All (λ g. fnmatch g.0 uri ≢ 0) globs
      → FirstMatch fnmatch uri globs none

module _ (fnmatch : Text → Text → ℕ) (uri : Text) where
  passes :
      (g : Text × Servlet) (gs : List (Text × Servlet)) (o : Option Servlet)
      → fnmatch g.0 uri ≢ 0
      → FirstMatch fnmatch uri gs o
      → FirstMatch fnmatch uri (g ∷ gs) o
  passes g _ _ h (matches before after pattern s a e) =
      matches (g ∷ before) after pattern s (h, a) e
  passes g gs _ h (no_match _ a) = no_match (g ∷ gs) (h, a)

  by_test :
      (g : Text × Servlet) (gs : List (Text × Servlet)) (b : Bool)
      → (fnmatch g.0 uri == 0) ≡ b
      → (o : Option Servlet) → FirstMatch fnmatch uri gs o
      → FirstMatch fnmatch uri (g ∷ gs) (if b then some g.1 else o)
  by_test (pattern, s) gs true e o later = matches [] gs pattern s tt (ground arith)
  by_test g gs false e o later = passes g gs o (λ h. ground arith) later

  match_glob-FirstMatch :
      (gs : List (Text × Servlet)) → FirstMatch fnmatch uri gs (match_glob fnmatch uri gs)
  unfolding match_glob
  match_glob-FirstMatch [] = no_match [] tt
  match_glob-FirstMatch (g ∷ gs) =
      by_test g gs (fnmatch g.0 uri == 0) refl (match_glob fnmatch uri gs)
        (match_glob-FirstMatch gs)

module _ (default : Servlet) where
  run-globs : (cs : List Call) → (run default cs).globs ≡ live cs
  unfolding run live add_servlet add_function_servlet add_glob_servlet add_glob_function del_servlet
      del_glob_servlet
  run-globs [] = refl
  run-globs (adds uri s ∷ cs) = run-globs cs
  run-globs (adds_function uri cb ∷ cs) = run-globs cs
  run-globs (adds_glob uri s ∷ cs) =
      ap (λ t. t ++ ((uri, s) ∷ [])) (erased uri (run default cs).globs cs (run-globs cs))
  run-globs (adds_glob_function uri cb ∷ cs) =
      ap (λ t. t ++ ((uri, some cb) ∷ [])) (erased uri (run default cs).globs cs (run-globs cs))
  run-globs (dels uri ∷ cs) = run-globs cs
  run-globs (dels_glob uri ∷ cs) = erased uri (run default cs).globs cs (run-globs cs)

  run-exact : (u : Text) (cs : List Call) → (run default cs).datas u ≡ exact u cs
  unfolding run exact add_servlet add_function_servlet add_glob_servlet add_glob_function
      del_servlet del_glob_servlet
  run-exact u [] = refl
  run-exact u (adds uri s ∷ cs) = ap (λ o. if text_eq u uri then some s else o) (run-exact u cs)
  run-exact u (adds_function uri cb ∷ cs) =
      ap (λ o. if text_eq u uri then some (some cb) else o) (run-exact u cs)
  run-exact u (adds_glob uri s ∷ cs) = run-exact u cs
  run-exact u (adds_glob_function uri cb ∷ cs) = run-exact u cs
  run-exact u (dels uri ∷ cs) = ap (λ o. if text_eq u uri then none else o) (run-exact u cs)
  run-exact u (dels_glob uri ∷ cs) = run-exact u cs

  run-default : (cs : List Call) → (run default cs).default ≡ default
  unfolding run add_servlet add_function_servlet add_glob_servlet add_glob_function del_servlet
      del_glob_servlet
  run-default [] = refl
  run-default (adds uri s ∷ cs) = run-default cs
  run-default (adds_function uri cb ∷ cs) = run-default cs
  run-default (adds_glob uri s ∷ cs) = run-default cs
  run-default (adds_glob_function uri cb ∷ cs) = run-default cs
  run-default (dels uri ∷ cs) = run-default cs
  run-default (dels_glob uri ∷ cs) = run-default cs

  dispatch-run_glob :
      (fnmatch : Text → Text → ℕ) (path : Text) (cs : List Call)
      → dispatch fnmatch path (run default cs)
        ≡ (or_else (exact path cs) (or_else (match_glob fnmatch path (live cs)) default), 0)
  unfolding dispatch get_matched_servlet
  dispatch-run_glob fnmatch path cs =
      ap
        (λ o. (
          or_else o
              (or_else (match_glob fnmatch path (run default cs).globs) (run default cs).default),
          0,
        ))
        (run-exact path cs)
      ∙ ap
          (λ gs. (
            or_else (exact path cs) (or_else (match_glob fnmatch path gs) (run default cs).default),
            0,
          ))
          (run-globs cs)
      ∙ ap (λ s. (or_else (exact path cs) (or_else (match_glob fnmatch path (live cs)) s), 0))
          (run-default cs)

  -- After any calls on a new dispatcher, handle of a path calls the servlet that the last
  -- addServlet or delServlet for exactly this path left; without one, that of the first glob that
  -- matches, by any fnmatch, where the globs that were not deleted since stand in the order in
  -- which each was last added; and without one the default. It returns 0.
  pub dispatch-run :
      (fnmatch : Text → Text → ℕ) (path : Text) (cs : List Call)
      → (o : Option Servlet) × FirstMatch fnmatch path (live cs) o
        × (dispatch fnmatch path (run default cs)
            ≡ (or_else (exact path cs) (or_else o default), 0))
  dispatch-run fnmatch path cs = (
    match_glob fnmatch path (live cs),
    match_glob-FirstMatch fnmatch path (live cs),
    dispatch-run_glob fnmatch path cs,
  )
