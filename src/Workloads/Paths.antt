-- ===== src/Workloads/Paths.antt =====
-- internal/service/paths.go: the whitelist of host paths.
pub mod Allowed
pub mod Rooted
use iskele.Common.{
  ℕ, String, Bool, true, false, not, ◌||◌, ◌&&◌, Option, none, some, List, [], ◌∷◌, eqb, any, codes,
  ◌==◌, if◌then◌else◌,
}

-- What the guard calls: strings.TrimSpace, and path/filepath. `eval_symlinks` is what the file
-- system answers at the time of the check, and `none` is its error; so is that of `rel`.
pub record FilePaths : Type 0 where
  pub trim_space : String → String
  pub clean : String → String
  pub is_abs : String → Bool
  pub eval_symlinks : String → Option String
  pub rel : String → String → Option String

abbrev prefix_of : List ℕ → List ℕ → Bool
prefix_of [] cs = true
prefix_of (p ∷ ps) [] = false
prefix_of (p ∷ ps) (c ∷ cs) = let rest = prefix_of ps cs in eqb p c && rest

-- strings.HasPrefix
abbrev pub has_prefix : String → String → Bool
has_prefix s prefix' = prefix_of (codes prefix') (codes s)

-- PathGuard
pub record PathGuard : Type 0 where
  pub allowed : List String

-- Whether a relative path leaves its root.
abbrev pub climbs : String → Bool
climbs rel = rel == ".." || has_prefix rel "../"

module _ (paths : FilePaths) where
  unfoldable cleaned : List String → List String
  cleaned [] = []
  cleaned (root ∷ roots) =
      let rest = cleaned roots in
      let trimmed = paths.trim_space root in
      if trimmed == "" then rest else paths.clean trimmed ∷ rest

  -- NewPathGuard
  unfoldable pub new_path_guard : List String → PathGuard
  unfolding cleaned
  new_path_guard allowed = record { allowed = cleaned allowed }

  -- withinRoot
  unfoldable pub within_root : String → String → Bool
  within_root path root =
      if path == root
      then true
      else elim (paths.rel root path) [ none ↦ false | some rel ↦ not (climbs rel) ]

  -- the target of a path that exists, or else the cleaned path
  abbrev pub candidate : String → String
  candidate trimmed = elim (paths.eval_symlinks (paths.clean trimmed)) [
    | none ↦ paths.clean trimmed
    | some resolved ↦ resolved
  ]

  -- Check; `none` is no error, `some path` a PathError about it
  unfoldable pub check : PathGuard → String → Option String
  unfolding within_root
  check g path =
      let trimmed = paths.trim_space path in
      if trimmed == ""
      then some path
      else if not (paths.is_abs trimmed)
      then some path
      else if any (within_root (candidate trimmed)) g.allowed
      then none
      else some path

  -- CheckAll
  unfoldable pub check_all : PathGuard → List String → Option String
  unfolding check
  check_all g [] = none
  check_all g (p ∷ ps) = elim (check g p) [ none ↦ check_all g ps | some path ↦ some path ]
