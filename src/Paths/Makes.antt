-- ===== src/Paths/Makes.antt =====
-- What `FSUtil::Mkdir` of cxk/util.cpp leaves in the file system.
use cxkframework.Prelude.{
  ℕ, none, ◌++◌, ◌==◌, append-nil, append_assoc, ◌≡◌, refl, sym, ap, ◌∙◌, subst, true, false, Bool,
  some, List, [], ◌∷◌, All, if◌then◌else◌,
}
use cxkframework.Paths.{Text, parents, mkdir_one, mkdir_loop, mkdir_all}

result : {A : Type 0} {a b : A} → some a ≡ some b → a ≡ b
result e = cc

-- The path itself, and what stands before one of its slashes and is not empty.
pub data IsPart : Text → Text → Type 0 where
  itself : (path : Text) → IsPart path path
  parent : (b : ℕ) (front rest : Text) → IsPart (b ∷ (front ++ (b'/' ∷ rest))) (b ∷ front)

module _ (P : Text → Type 0) where
  dropped :
      (b : Bool) (front : Text) (rest : List Text)
      → All P (if b then front ∷ rest else rest)
      → All P rest
  dropped true front rest a = a.1
  dropped false front rest a = a

  parents-path : (front bs : Text) → All P (parents front bs) → P (front ++ bs)
  unfolding parents
  parents-path front [] a = subst P (sym (append-nil front)) a.0
  parents-path front (b ∷ bs) a = subst P (append_assoc front (b ∷ []) bs) (
      parents-path (front ++ (b ∷ [])) bs
        (dropped (b == b'/') front (parents (front ++ (b ∷ [])) bs) a))

  parents-part :
      (front part rest : Text) → All P (parents front (part ++ (b'/' ∷ rest))) → P (front ++ part)
  unfolding parents
  parents-part front [] rest a = subst P (sym (append-nil front)) a.0
  parents-part front (b ∷ bs) rest a = subst P (append_assoc front (b ∷ []) bs) (
      parents-part (front ++ (b ∷ [])) bs rest
        (dropped (b == b'/') front (parents (front ++ (b ∷ [])) (bs ++ (b'/' ∷ rest))) a))

module _ {S : Type 0} (lstat access : S → Text → Bool) (make : Text → S → Bool × S)
    (made : (path : Text) (s : S) → (make path s).0 ≡ true → access (make path s).1 path ≡ true)
    (kept : (path other : Text) (s : S)
      → access s other ≡ true
      → access (make path s).1 other ≡ true) where
  one_kept :
      (path other : Text) (s : S)
      → access s other ≡ true
      → access (mkdir_one lstat access make path s).1 other ≡ true
  unfolding mkdir_one
  one_kept path other s h = by_access (access s path)
    where
      by_access : (b : Bool) → access (if b then (true, s) else make path s).1 other ≡ true
      by_access true = h
      by_access false = kept path other s h

  one_made :
      (path : Text) (s : S)
      → (mkdir_one lstat access make path s).0 ≡ true
      → access (mkdir_one lstat access make path s).1 path ≡ true
  unfolding mkdir_one
  one_made path s h = by_access (access s path) refl h
    where
      by_access :
          (b : Bool)
          → access s path ≡ b
          → (if b then (true, s) else make path s).0 ≡ true
          → access (if b then (true, s) else make path s).1 path ≡ true
      by_access true there h = there
      by_access false there h = made path s h

  loop_kept :
      (paths : List Text) (other : Text) (s : S)
      → access s other ≡ true
      → access (mkdir_loop lstat access make paths s).1 other ≡ true
  unfolding mkdir_loop
  loop_kept [] other s h = h
  loop_kept (path ∷ paths) other s h =
      by_one (mkdir_one lstat access make path s) (one_kept path other s h)
        (λ s1 h1. loop_kept paths other s1 h1)
    where
      by_one :
          (r : Bool × S)
          → access r.1 other ≡ true
          → ((s1 : S)
              → access s1 other ≡ true
              → access (mkdir_loop lstat access make paths s1).1 other ≡ true)
          → access (if r.0 then mkdir_loop lstat access make paths r.1 else (false, r.1)).1 other
            ≡ true
      by_one (true, s1) next rest = rest s1 next
      by_one (false, s1) next rest = next

  loop_made :
      (paths : List Text) (s : S)
      → (mkdir_loop lstat access make paths s).0 ≡ true
      → All (λ p. access (mkdir_loop lstat access make paths s).1 p ≡ true) paths
  unfolding mkdir_loop
  loop_made [] s h = tt
  loop_made (path ∷ paths) s h =
      by_one (mkdir_one lstat access make path s) (one_made path s) (λ s1 h1. loop_made paths s1 h1)
        h
    where
      by_one :
          (r : Bool × S)
          → (r.0 ≡ true → access r.1 path ≡ true)
          → ((s1 : S)
              → (mkdir_loop lstat access make paths s1).0 ≡ true
              → All (λ p. access (mkdir_loop lstat access make paths s1).1 p ≡ true) paths)
          → (if r.0 then mkdir_loop lstat access make paths r.1 else (false, r.1)).0 ≡ true
          → All
              (λ p.
                access (if r.0 then mkdir_loop lstat access make paths r.1 else (false, r.1)).1 p
                ≡ true)
              (path ∷ paths)
      by_one (true, s1) one rest h = (loop_kept paths path s1 (one refl), rest s1 h)
      by_one (false, s1) one rest h = cc

  mkdir_all-parents :
      (b : ℕ) (bs : Text) (s s' : S)
      → lstat s (b ∷ bs) ≡ false
      → mkdir_all lstat access make (b ∷ bs) s ≡ some (true, s')
      → All (λ p. access s' p ≡ true) (parents (b ∷ []) bs)
  unfolding mkdir_all
  mkdir_all-parents b bs s s' absent e =
      let out : mkdir_loop lstat access make (parents (b ∷ []) bs) s ≡ (true, s') = result (
        sym (
          ap
            (λ t.
              if t
              then some (true, s)
              else some (mkdir_loop lstat access make (parents (b ∷ []) bs) s))
            absent)
        ∙ e) in
      subst (λ t. All (λ p. access t p ≡ true) (parents (b ∷ []) bs)) (ap (λ r. r.1) out)
        (loop_made (parents (b ∷ []) bs) s (ap (λ r. r.0) out))

  -- Where mkdir makes the path accessible when it succeeds, and takes no access away: if Mkdir of a
  -- path that lstat does not find returns true, then the path itself, and each text that is not
  -- empty and that stands in it before a slash, is accessible afterwards.
  pub mkdir_all_lem :
      (path part : Text) (s s' : S)
      → lstat s path ≡ false
      → mkdir_all lstat access make path s ≡ some (true, s')
      → IsPart path part
      → access s' part ≡ true
  unfolding mkdir_all
  mkdir_all_lem _ _ s s' absent e (itself []) =
      let lost : none ≡ some (true, s') =
        sym (ap (λ b. if b then some (true, s) else none) absent) ∙ e in
      cc
  mkdir_all_lem _ _ s s' absent e (itself (b ∷ bs)) =
      parents-path (λ p. access s' p ≡ true) (b ∷ []) bs (mkdir_all-parents b bs s s' absent e)
  mkdir_all_lem _ _ s s' absent e (parent b front rest) =
      parents-part (λ p. access s' p ≡ true) (b ∷ []) front rest
        (mkdir_all-parents b (front ++ (b'/' ∷ rest)) s s' absent e)
