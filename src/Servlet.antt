-- ===== src/Servlet.antt =====
-- `ServletDispatch` of cxk/http/servlet.cpp and cxk/http/servlet.h. A servlet is a number, `none` a null
-- pointer, and a URI a list of bytes. `fnmatch` is the function of the C library, which returns 0 for
-- a match.
use cxkframework.Prelude.{
  ℕ, ◌+◌, true, false, Bool, ◌&&◌, Option, none, some, List, [], ◌∷◌, ◌++◌, ◌==◌, if◌then◌else◌,
}
pub mod Globs
pub mod History
mod Tests

abbrev pub Text : Type 0
Text = List ℕ

-- `==` of `std::string`
unfoldable pub text_eq : Text → Text → Bool
text_eq [] [] = true
text_eq [] (b ∷ bs) = false
text_eq (a ∷ as') [] = false
text_eq (a ∷ as') (b ∷ bs) = (a == b) && text_eq as' bs

abbrev pub Servlet : Type 0
Servlet = Option ℕ

-- `datas` is the map from a URI to its servlet
pub record ServletDispatch : Type 0 where
  pub datas : Text → Option Servlet
  pub globs : List (Text × Servlet)
  pub default : Servlet

-- a map with an element assigned to
abbrev pub assigned : Text → Option Servlet → (Text → Option Servlet) → Text → Option Servlet
assigned uri s datas u = if text_eq u uri then s else datas u

-- The loop that erases the first glob with the URI.
unfoldable pub erase_glob : Text → List (Text × Servlet) → List (Text × Servlet)
erase_glob uri [] = []
erase_glob uri (g ∷ gs) = let rest = erase_glob uri gs in if text_eq g.0 uri then gs else g ∷ rest

unfoldable pub add_servlet : Text → Servlet → ServletDispatch → ServletDispatch
add_servlet uri slt d = record d { datas = assigned uri (some slt) d.datas }

-- `addServlet` with a callback, where `cb` is the new `FunctionServlet`
unfoldable pub add_function_servlet : Text → ℕ → ServletDispatch → ServletDispatch
add_function_servlet uri cb d = record d { datas = assigned uri (some (some cb)) d.datas }

unfoldable pub add_glob_servlet : Text → Servlet → ServletDispatch → ServletDispatch
unfolding erase_glob
add_glob_servlet uri slt d = record d { globs = erase_glob uri d.globs ++ ((uri, slt) ∷ []) }

unfoldable pub add_glob_function : Text → ℕ → ServletDispatch → ServletDispatch
unfolding add_glob_servlet
add_glob_function uri cb d = add_glob_servlet uri (some cb) d

unfoldable pub del_servlet : Text → ServletDispatch → ServletDispatch
del_servlet uri d = record d { datas = assigned uri none d.datas }

unfoldable pub del_glob_servlet : Text → ServletDispatch → ServletDispatch
unfolding erase_glob
del_glob_servlet uri d = record d { globs = erase_glob uri d.globs }

-- `it == end() ? nullptr : it->second`
abbrev pub or_null : Option Servlet → Servlet
or_null none = none
or_null (some s) = s

unfoldable pub get_servlet : Text → ServletDispatch → Servlet
get_servlet uri d = or_null (d.datas uri)

unfoldable pub find_glob : Text → List (Text × Servlet) → Option Servlet
find_glob uri [] = none
find_glob uri (g ∷ gs) = if text_eq g.0 uri then some g.1 else find_glob uri gs

unfoldable pub get_glob_servlet : Text → ServletDispatch → Servlet
unfolding find_glob
get_glob_servlet uri d = or_null (find_glob uri d.globs)

abbrev pub or_else : Option Servlet → Servlet → Servlet
or_else none s = s
or_else (some t) s = t

module _ (fnmatch : Text → Text → ℕ) where
  unfoldable pub match_glob : Text → List (Text × Servlet) → Option Servlet
  match_glob uri [] = none
  match_glob uri (g ∷ gs) = if fnmatch g.0 uri == 0 then some g.1 else match_glob uri gs

  unfoldable pub get_matched_servlet : Text → ServletDispatch → Servlet
  unfolding match_glob
  get_matched_servlet uri d = or_else (d.datas uri) (or_else (match_glob uri d.globs) d.default)

  -- `handle`: the servlet that is called, if there is one, and what is returned
  unfoldable pub dispatch : Text → ServletDispatch → Option ℕ × ℕ
  unfolding get_matched_servlet
  dispatch path d = (get_matched_servlet path d, 0)
