-- ===== src/Servlet/Tests.antt =====
-- The dispatcher of cxk/http/servlet.cpp after concrete calls.
use cxkframework.Prelude.{ℕ, ◌≡◌, refl, Option, none, some, List, [], ◌∷◌, if◌then◌else◌}
use cxkframework.Servlet.{
  Text, Servlet, text_eq, or_else, dispatch, add_servlet, add_glob_servlet, del_servlet,
}
use cxkframework.Servlet.History.{
  Call, FirstMatch, adds, adds_glob, dels, run, apply, exact, live, dispatch-run,
}

abbrev home : Text
home = b'/' ∷ b'a' ∷ []

abbrev any : Text
any = b'*' ∷ []

-- an `fnmatch` in which a star matches all, and nothing else matches
abbrev star : Text → Text → ℕ
star pattern uri = if text_eq pattern any then 0 else 1

abbrev calls : List Call
calls = adds_glob any (some 3) ∷ dels home ∷ adds home (some 2) ∷ adds_glob any (some 1) ∷ []

-- The exact servlet is gone, and the glob was added again.
glob_added_again : dispatch star home (run none calls) ≡ (some 3, 0)
unfolding dispatch run apply add_servlet add_glob_servlet del_servlet text_eq
glob_added_again = refl

dispatch-run_example :
    (o : Option Servlet) × FirstMatch star home (live calls) o
    × (dispatch star home (run (some 9) calls)
        ≡ (or_else (exact home calls) (or_else o (some 9)), 0))
dispatch-run_example = dispatch-run (some 9) star home calls
