-- ===== src/Workloads/Stacks/Deploy/Fit.antt =====
-- When the checks of internal/service/stack.go find no problem with a service.
use iskele.Common.{String, ◌≡◌, refl, Bool, Option, none, some, List, [], ◌∷◌, ◌++◌, All}
use iskele.Docker.Mounts.{bind_sources}
use iskele.Docker.Mounts.Whitelisted.{IsPlain}
use iskele.Docker.Create.{check_privileged_options}
use iskele.Workloads.Paths.{check}
use iskele.Workloads.Paths.Allowed.{IsAllowed, check-IsAllowed}
use iskele.Workloads.Engine.{Problem}
use iskele.Workloads.Stacks.{ServicePlan, Tools, problems_for, path_problems, privilege_problems}
use iskele.Workloads.Stacks.Deploy.{refusal}

pub append-nil : {A : Type 0} (xs ys : List A) → (xs ++ ys) ≡ [] → (xs ≡ []) × (ys ≡ [])
append-nil [] ys e = (refl, e)
append-nil (x ∷ xs) ys e = cc

-- A service that none of the checks stops.
pub record IsFit (tools : Tools) (privileged : Bool) (plan : ServicePlan) : Type 0 where
  pub plain : All (IsPlain tools.text) plan.spec.mounts
  pub allowed : All (IsAllowed tools.paths tools.guard) (bind_sources tools.text plan.spec.mounts)
  pub permitted : check_privileged_options tools.text plan.spec privileged ≡ none

module _ (tools : Tools) where
  path_problems-nil :
      (service field : String) (ps : List String)
      → path_problems tools service field ps ≡ []
      → All (IsAllowed tools.paths tools.guard) ps
  path_problems-nil service field [] e = tt
  path_problems-nil service field (p ∷ ps) e =
      let (here, rest) = unproblematic _ _ (check tools.paths tools.guard p) e in
      (check-IsAllowed tools.paths tools.guard p here, path_problems-nil service field ps rest)
    where
      unproblematic :
          (Q : List Problem) (one : Problem) (o : Option String)
          → (elim o [ none ↦ Q | some path ↦ one ∷ Q ]) ≡ []
          → (o ≡ none) × (Q ≡ [])
      unproblematic Q one none e = (refl, e)
      unproblematic Q one (some path) e = cc

  privilege_problems-nil :
      (service : String) (o : Option (List String))
      → privilege_problems tools service o ≡ []
      → o ≡ none
  privilege_problems-nil service none e = refl
  privilege_problems-nil service (some used) e = cc

  pub problems_for-IsFit :
      (plan : ServicePlan) (privileged : Bool)
      → All (IsPlain tools.text) plan.spec.mounts
      → problems_for tools plan privileged ≡ []
      → IsFit tools privileged plan
  unfolding problems_for
  problems_for-IsFit plan privileged plain e =
      let (volumes, rest) = append-nil _ _ e in
      let (context, rest') = append-nil _ _ rest in
      let (security, spec) = append-nil _ _ rest' in
      record {
        plain = plain;
        allowed = path_problems-nil plan.name "volumes" _ volumes;
        permitted = privilege_problems-nil plan.name _ security;
      }

pub refusal-none : (ps : List Problem) → refusal ps ≡ none → ps ≡ []
refusal-none [] e = refl
refusal-none (p ∷ ps) e = cc
