-- ===== src/Paths/Tests.antt =====
-- Paths of cxk/util.cpp at concrete texts, and a file system that is the list of its paths.
use cxkframework.Prelude.{◌≡◌, refl, true, false, Bool, ◌||◌, ◌&&◌, List, [], ◌∷◌, ◌==◌, arith}
use cxkframework.Paths.{
  Text, rfind_slash, dirname, basename, parents, mkdir_one, mkdir_loop, mkdir_all,
}
use cxkframework.Paths.Makes.{parent, mkdir_all_lem}

abbrev path : Text
path = b'/' ∷ b'a' ∷ b'/' ∷ b'b' ∷ []

dirname_of_path : dirname path ≡ b'/' ∷ b'a' ∷ []
unfolding dirname rfind_slash
dirname_of_path = refl

basename_of_path : basename path ≡ b'b' ∷ []
unfolding basename rfind_slash
basename_of_path = refl

abbrev path_eq : Text → Text → Bool
path_eq [] [] = true
path_eq (a ∷ rest) (b ∷ bs) = (a == b) && path_eq rest bs
path_eq _ _ = false

path_eq_self : (p : Text) → path_eq p p ≡ true
path_eq_self [] = refl
path_eq_self (a ∷ rest) = let e = path_eq_self rest in ground arith

abbrev exists : List Text → Text → Bool
exists [] p = false
exists (q ∷ qs) p = path_eq q p || exists qs p

abbrev made : Text → List Text → Bool × List Text
made p qs = (true, p ∷ qs)

made-exists : (p : Text) (s : List Text) → (made p s).0 ≡ true → exists (made p s).1 p ≡ true
made-exists p s h = let e = path_eq_self p in ground arith

kept_by_made : (p q : Text) (s : List Text) → exists s q ≡ true → exists (made p s).1 q ≡ true
kept_by_made p q s h = ground arith

abbrev left : List Text
left = path ∷ (b'/' ∷ b'a' ∷ []) ∷ []

-- "/a" is made on the way to "/a/b".
mkdir_all_lem_example : exists left (b'/' ∷ b'a' ∷ []) ≡ true
unfolding mkdir_all mkdir_loop mkdir_one parents
mkdir_all_lem_example =
    mkdir_all_lem exists exists made made-exists kept_by_made path (b'/' ∷ b'a' ∷ []) [] left refl
      refl (parent b'/' (b'a' ∷ []) (b'b' ∷ []))
