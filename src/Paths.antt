-- ===== src/Paths.antt =====
-- The path functions of cxk/util.cpp: `FSUtil::Dirname`, `FSUtil::Basename` and `FSUtil::Mkdir`. A path
-- is a list of bytes, none of which is 0 for `Mkdir`. `lstat`, `access` and `mkdir` are parameters over a state of the file system.
use cxkframework.Prelude.{
  ℕ, zero, suc, ◌+◌, true, false, Bool, Option, none, some, List, [], ◌∷◌, ◌++◌, ◌==◌,
  if◌then◌else◌, take, drop,
}
pub mod Names
pub mod Makes
mod Tests

abbrev pub Text : Type 0
Text = List ℕ

abbrev pub after_first : Bool → Option ℕ → Option ℕ
after_first here (some i) = some (suc i)
after_first true none = some 0
after_first false none = none

-- `rfind('/')`
unfoldable pub rfind_slash : Text → Option ℕ
rfind_slash [] = none
rfind_slash (b ∷ bs) = after_first (b == b'/') (rfind_slash bs)

abbrev pub dirname_at : Text → Option ℕ → Text
dirname_at filename none = b'.' ∷ []
dirname_at filename (some zero) = b'/' ∷ []
dirname_at filename (some (suc n)) = take (suc n) filename

-- `Dirname`
unfoldable pub dirname : Text → Text
unfolding rfind_slash
dirname [] = b'.' ∷ []
dirname (b ∷ bs) = dirname_at (b ∷ bs) (rfind_slash (b ∷ bs))

abbrev pub basename_at : Text → Option ℕ → Text
basename_at filename none = filename
basename_at filename (some pos) = drop (suc pos) filename

-- `Basename`
unfoldable pub basename : Text → Text
unfolding rfind_slash
basename [] = []
basename (b ∷ bs) = basename_at (b ∷ bs) (rfind_slash (b ∷ bs))

-- The parts of a path before its slashes, from the second byte on, where `front` was passed, and
-- the path itself: what the loop of `Mkdir` makes.
unfoldable pub parents : Text → Text → List Text
parents front [] = front ∷ []
parents front (b ∷ bs) =
    let rest = parents (front ++ (b ∷ [])) bs in if b == b'/' then front ∷ rest else rest

module _ {S : Type 0} (lstat access : S → Text → Bool) (make : Text → S → Bool × S) where
  -- `__mkdir`, and whether it returned 0
  unfoldable pub mkdir_one : Text → S → Bool × S
  mkdir_one path s = if access s path then (true, s) else make path s

  unfoldable pub mkdir_loop : List Text → S → Bool × S
  unfolding mkdir_one
  mkdir_loop [] s = (true, s)
  mkdir_loop (path ∷ paths) s =
      let one = mkdir_one path s in
      let rest = mkdir_loop paths one.1 in if one.0 then rest else (false, one.1)

  -- `Mkdir`; `none` where it looks for a slash after the end of an empty path
  unfoldable pub mkdir_all : Text → S → Option (Bool × S)
  unfolding mkdir_loop
  mkdir_all path s = if lstat s path then some (true, s) else make_parents path
    where
      make_parents : Text → Option (Bool × S)
      make_parents [] = none
      make_parents (b ∷ bs) = some (mkdir_loop (parents (b ∷ []) bs) s)
