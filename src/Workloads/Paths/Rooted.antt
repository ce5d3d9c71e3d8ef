-- ===== src/Workloads/Paths/Rooted.antt =====
-- What a path that internal/service/paths.go lets through is on the host, apart from how it is found.
use iskele.Common.{
  ℕ, String, ◌≡◌, ◌≢◌, refl, ◌⊎◌, inl, inr, true, false, Option, none, some, List, [], ◌∷◌, All,
  arith, codes, eqb, if◌then◌else◌, ap, All-map,
}
use iskele.Workloads.Paths.{
  FilePaths, PathGuard, climbs, prefix_of, has_prefix, candidate, check_all,
}
use iskele.Workloads.Paths.Allowed.{IsUnder, IsUnderOne, IsAllowed, check_all-IsAllowed}

-- the elements of a path, between its slashes
abbrev add_char : ℕ → List (List ℕ) → List (List ℕ)
add_char c [] = (c ∷ []) ∷ []
add_char c (e ∷ es) = (c ∷ e) ∷ es

abbrev pub elements : List ℕ → List (List ℕ)
elements [] = [] ∷ []
elements (c ∷ cs) = let rest = elements cs in if eqb c 47 then [] ∷ rest else add_char c rest

-- No element is "..".
abbrev pub HasNoParent : String → Type 0
HasNoParent rel = All (λ e. e ≢ 46 ∷ 46 ∷ []) (elements (codes rel))

-- What path/filepath documents of Rel: joined to the root its result is the path, up to Clean; and the
-- result is clean, so that ".." is nowhere but at its beginning.
pub record IsFilePath (paths : FilePaths) : Type 0 where
  pub join : String → String → String
  pub rel-join :
      (root path rel : String) → paths.rel root path ≡ some rel → join root rel ≡ paths.clean path
  pub rel_clean :
      (root path rel : String)
      → paths.rel root path ≡ some rel
      → (rel ≡ "..") ⊎ ((rest : List ℕ) × (codes rel ≡ 46 ∷ 46 ∷ 47 ∷ rest)) ⊎ HasNoParent rel

-- What a path stands for: what its symbolic links lead to, or the cleaned path where the file system
-- cannot resolve it.
pub data IsTarget (paths : FilePaths) (path : String) : String → Type 0 where
  resolved :
      (target : String)
      → paths.eval_symlinks (paths.clean (paths.trim_space path)) ≡ some target
      → IsTarget paths path target
  unresolved :
      paths.eval_symlinks (paths.clean (paths.trim_space path)) ≡ none
      → IsTarget paths path (paths.clean (paths.trim_space path))

-- A path is a root, or the root with a relative path that never goes up joined to it.
abbrev pub IsWithin : (paths : FilePaths) → IsFilePath paths → String → String → Type 0
IsWithin paths laws path root =
    (path ≡ root) ⊎ ((rel : String) × (laws.join root rel ≡ paths.clean path) × HasNoParent rel)

-- It is so for one of the roots.
abbrev pub IsWithinOne : (paths : FilePaths) → IsFilePath paths → String → List String → Type 0
IsWithinOne paths laws path [] = ⊥
IsWithinOne paths laws path (root ∷ roots) =
    IsWithin paths laws path root ⊎ IsWithinOne paths laws path roots

-- An absolute path whose target is within a root.
pub record IsRooted (paths : FilePaths) (laws : IsFilePath paths) (g : PathGuard) (path : String)
    : Type 0 where
  pub absolute : paths.is_abs (paths.trim_space path) ≡ true
  pub target : String
  pub stands_for : IsTarget paths path target
  pub within : IsWithinOne paths laws target g.allowed

climbs-up : (rel : String) (rest : List ℕ) → codes rel ≡ 46 ∷ 46 ∷ 47 ∷ rest → climbs rel ≡ true
climbs-up rel rest e =
    let up : has_prefix rel "../" ≡ true = ap (prefix_of (codes "../")) e in ground (arith, up)

candidate-IsTarget :
    (paths : FilePaths) (path : String)
    → IsTarget paths path (candidate paths (paths.trim_space path))
candidate-IsTarget paths path = go (paths.eval_symlinks (paths.clean (paths.trim_space path))) refl
  where
    go :
        (o : Option String)
        → paths.eval_symlinks (paths.clean (paths.trim_space path)) ≡ o
        → IsTarget paths path
            (elim o [ none ↦ paths.clean (paths.trim_space path) | some target ↦ target ])
    go none e = unresolved e
    go (some target) e = resolved target e

module _ (paths : FilePaths) (laws : IsFilePath paths) where
  IsUnder-IsWithin : (path root : String) → IsUnder paths path root → IsWithin paths laws path root
  IsUnder-IsWithin path root u = go u.reached
    where
      stays :
          (rel : String)
          → climbs rel ≡ false
          → (rel ≡ "..") ⊎ ((rest : List ℕ) × (codes rel ≡ 46 ∷ 46 ∷ 47 ∷ rest)) ⊎ HasNoParent rel
          → HasNoParent rel
      stays rel kept (inl e) = let up : climbs rel ≡ true = ap climbs e in cc
      stays rel kept (inr (inl (rest, e))) = let up = climbs-up rel rest e in cc
      stays rel kept (inr (inr h)) = h

      go :
          (path ≡ root) ⊎ ((rel : String) × (paths.rel root path ≡ some rel) × (climbs rel ≡ false))
          → IsWithin paths laws path root
      go (inl same) = inl same
      go (inr (rel, e, kept)) =
          inr (rel, laws.rel-join root path rel e, stays rel kept (laws.rel_clean root path rel e))

  IsUnderOne-IsWithinOne :
      (path : String) (roots : List String)
      → IsUnderOne paths path roots
      → IsWithinOne paths laws path roots
  IsUnderOne-IsWithinOne path [] u = u
  IsUnderOne-IsWithinOne path (root ∷ roots) (inl u) = inl (IsUnder-IsWithin path root u)
  IsUnderOne-IsWithinOne path (root ∷ roots) (inr u) = inr (IsUnderOne-IsWithinOne path roots u)

  IsAllowed-IsRooted :
      (g : PathGuard) (path : String) → IsAllowed paths g path → IsRooted paths laws g path
  IsAllowed-IsRooted g path h = record {
    absolute = h.absolute;
    target = candidate paths (paths.trim_space path);
    stands_for = candidate-IsTarget paths path;
    within = IsUnderOne-IsWithinOne _ g.allowed h.under;
  }

-- Every path of a list that the guard lets through is absolute, and what it stands for is one of the
-- configured roots, or is a root with a relative path joined to it in which no element is "..". A path
-- stands for what its symbolic links lead to, or for the cleaned path where they cannot be resolved.
-- Rel and Clean of path/filepath are as documented. A guard without roots lets nothing through.
pub check_all-IsRooted :
    (paths : FilePaths) (laws : IsFilePath paths) (g : PathGuard) (ps : List String)
    → check_all paths g ps ≡ none
    → All (IsRooted paths laws g) ps
check_all-IsRooted paths laws g ps h =
    All-map _ _ (IsAllowed-IsRooted paths laws g) ps (check_all-IsAllowed paths g ps h)
