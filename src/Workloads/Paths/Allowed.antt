-- ===== src/Workloads/Paths/Allowed.antt =====
-- What a path that internal/service/paths.go lets through is.
use iskele.Common.{
  String, ◌≡◌, refl, ◌⊎◌, inl, inr, Bool, true, false, not, Option, none, some, List, [], ◌∷◌, any,
  All, arith, ◌==◌, eq_iff, Bool-cases,
}
use iskele.Workloads.Paths.{FilePaths, PathGuard, climbs, within_root, candidate, check, check_all}

-- A path is a root, or is reached from it by a relative path that does not climb.
pub record IsUnder (paths : FilePaths) (path root : String) : Type 0 where
  pub reached :
      (path ≡ root) ⊎ ((rel : String) × (paths.rel root path ≡ some rel) × (climbs rel ≡ false))

-- One of the roots has it.
abbrev pub IsUnderOne : FilePaths → String → List String → Type 0
IsUnderOne paths path [] = ⊥
IsUnderOne paths path (root ∷ roots) = IsUnder paths path root ⊎ IsUnderOne paths path roots

-- An absolute path whose candidate is under a root: its target where its symbolic links can be
-- resolved, and else the path itself, cleaned.
pub record IsAllowed (paths : FilePaths) (g : PathGuard) (path : String) : Type 0 where
  pub absolute : paths.is_abs (paths.trim_space path) ≡ true
  pub under : IsUnderOne paths (candidate paths (paths.trim_space path)) g.allowed

false_of_negation : (b : Bool) → not b ≡ true → b ≡ false
false_of_negation b h = ground arith

module _ (paths : FilePaths) where
  within_root-IsUnder :
      (path root : String) → within_root paths path root ≡ true → IsUnder paths path root
  unfolding within_root
  within_root-IsUnder path root h = elim (Bool-cases (path == root)) [
    | inl same ↦ record { reached = inl ((eq_iff path root).0 same) }
    | inr other ↦ record { reached = inr (go (paths.rel root path) refl (ground arith)) }
  ]
    where
      go :
          (o : Option String)
          → paths.rel root path ≡ o
          → (elim o [ none ↦ false | some rel ↦ not (climbs rel) ]) ≡ true
          → (rel : String) × (paths.rel root path ≡ some rel) × (climbs rel ≡ false)
      go none e h = cc
      go (some rel) e h = (rel, e, false_of_negation (climbs rel) h)

  any-IsUnderOne :
      (path : String) (roots : List String)
      → any (within_root paths path) roots ≡ true
      → IsUnderOne paths path roots
  any-IsUnderOne path [] h = cc
  any-IsUnderOne path (root ∷ roots) h = elim (Bool-cases (within_root paths path root)) [
    | inl here ↦ inl (within_root-IsUnder path root here)
    | inr later ↦ inr (any-IsUnderOne path roots (ground arith))
  ]

  pub check-IsAllowed :
      (g : PathGuard) (path : String) → check paths g path ≡ none → IsAllowed paths g path
  unfolding check
  check-IsAllowed g path h = record {
    absolute = ground arith;
    under = any-IsUnderOne _ g.allowed (ground arith);
  }

-- A first refusal is the answer; without one the rest decides.
unrefused :
    (first rest : Option String)
    → (elim first [ none ↦ rest | some path ↦ some path ]) ≡ none
    → (first ≡ none) × (rest ≡ none)
unrefused none rest h = (refl, h)
unrefused (some path) rest h = cc

-- Every path of a list that the guard lets through is allowed.
pub check_all-IsAllowed :
    (paths : FilePaths) (g : PathGuard) (ps : List String)
    → check_all paths g ps ≡ none
    → All (IsAllowed paths g) ps
unfolding check_all
check_all-IsAllowed paths g [] h = tt
check_all-IsAllowed paths g (p ∷ ps) h =
    let (first, rest) = unrefused (check paths g p) (check_all paths g ps) h in
    (check-IsAllowed paths g p first, check_all-IsAllowed paths g ps rest)
