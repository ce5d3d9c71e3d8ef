-- ===== src/Workloads/Stacks/Deploy/Refused.antt =====
-- A deploy of internal/service/stackup.go that is refused.
use iskele.Common.{
  String, ◌≡◌, refl, ap, subst, Bool, true, false, not, ◌&&◌, ◌||◌, List, [], ◌∷◌, ◌++◌, Option,
  none, some, any, any-append, arith, ◌==◌, eq_refl,
}
use iskele.Docker.{ContainerSpec, MountSpec, malformed}
use iskele.Docker.Values.{is_empty}
use iskele.Docker.Mounts.{folds_to_bind, bind_sources}
use iskele.Docker.Create.{
  build_create_spec, check_privileged_options, privileged_options, is_host_namespace,
}
use iskele.Workloads.Paths.{check}
use iskele.Workloads.Engine.{
  Engine, Problem, stack_refused, returned, raised, Job, unless_fault, raise, ◌>>=◌,
}
use iskele.Workloads.Stacks.{
  BuildPlan, ServicePlan, Conversion, UpOptions, Tools, path_problems, build_contexts,
  privilege_problems, spec_problems, problems_for,
}
use iskele.Workloads.Stacks.Deploy.{selected, problems_of, up}

-- A text whose check by the path guard fails.
abbrev pub is_refused : Tools → String → Bool
is_refused tools path = elim (check tools.paths tools.guard path) [ none ↦ false | some p ↦ true ]

-- An option that takes the container out of its confinement.
pub data IsUnconfined (tools : Tools) (spec : ContainerSpec) : Type 0 where
  privileged : spec.security.privileged ≡ true → IsUnconfined tools spec
  adds_capability : is_empty spec.security.cap_add ≡ false → IsUnconfined tools spec
  adds_device : is_empty spec.security.devices ≡ false → IsUnconfined tools spec
  sets_security_opt : is_empty spec.security.security_opt ≡ false → IsUnconfined tools spec
  sets_sysctl : is_empty spec.security.sysctls ≡ false → IsUnconfined tools spec
  shares_network :
      tools.text.to_lower (tools.text.trim_space spec.network.name) ≡ "host"
      → IsUnconfined tools spec

-- What may be wrong with a service, by the field under which it is reported.
pub data IsUnfit (tools : Tools) (permitted : Bool) (plan : ServicePlan) : String → Type 0 where
  binds_refused_path :
      any
          (λ m.
            folds_to_bind tools.text m
            && (not (tools.text.trim_space m.source == "")
                && is_refused tools (tools.text.trim_space m.source)))
          plan.spec.mounts
        ≡ true
      → IsUnfit tools permitted plan "volumes"
  builds_from_refused_path :
      (b : BuildPlan)
      → plan.build ≡ some b
      → is_refused tools b.context ≡ true
      → IsUnfit tools permitted plan "build.context"
  is_unconfined :
      permitted ≡ false → IsUnconfined tools plan.spec → IsUnfit tools permitted plan "security"
  is_malformed :
      (field : String)
      → build_create_spec tools.text plan.spec ≡ malformed field
      → IsUnfit tools permitted plan field

-- Whether a problem is reported of a service under a field.
abbrev pub reports : String → String → Problem → Bool
reports service field p = p.service == service && p.field == field

any-cons :
    {A : Type 0} (q : A → Bool) (xs : List A)
    → any q xs ≡ true
    → (x : A) × (ys : List A) × (xs ≡ x ∷ ys)
any-cons q [] h = cc
any-cons q (x ∷ xs) h = (x, xs, refl)

module _ (tools : Tools) where
  reports-refused :
      (service field : String) (ms : List MountSpec)
      → any
          (λ m.
            folds_to_bind tools.text m
            && (not (tools.text.trim_space m.source == "")
                && is_refused tools (tools.text.trim_space m.source)))
          ms
        ≡ true
      → any (reports service field) (path_problems tools service field (bind_sources tools.text ms))
        ≡ true
  unfolding bind_sources
  reports-refused service field [] h = h
  reports-refused service field (m ∷ ms) h =
      ground (arith, h, reports-refused service field ms, eq_refl service, eq_refl field)

  options-IsUnconfined :
      (spec : ContainerSpec)
      → IsUnconfined tools spec
      → is_empty (privileged_options tools.text spec) ≡ false
  unfolding privileged_options is_host_namespace
  options-IsUnconfined spec (privileged h) = ground arith
  options-IsUnconfined spec (adds_capability h) = ground arith
  options-IsUnconfined spec (adds_device h) = ground arith
  options-IsUnconfined spec (sets_security_opt h) = ground arith
  options-IsUnconfined spec (sets_sysctl h) = ground arith
  options-IsUnconfined spec (shares_network h) = ground (arith, ap (λ s. s == "host") h)

  -- A problem of one of the four checks is a problem of the service.
  any-problems_for :
      (q : Problem → Bool) (plan : ServicePlan) (permitted : Bool)
      → (any q (path_problems tools plan.name "volumes" (bind_sources tools.text plan.spec.mounts))
          || (any q
                (path_problems tools plan.name "build.context" (build_contexts tools plan.build))
              || (any q (
                    privilege_problems tools plan.name
                      (check_privileged_options tools.text plan.spec permitted))
                  || any q
                      (spec_problems tools plan.name (build_create_spec tools.text plan.spec)))))
        ≡ true
      → any q (problems_for tools plan permitted) ≡ true
  unfolding problems_for
  any-problems_for q plan permitted h = rw (any-append, any-append, any-append) h

  reports-IsUnfit :
      (permitted : Bool) (plan : ServicePlan) (field : String)
      → IsUnfit tools permitted plan field
      → any (reports plan.name field) (problems_for tools plan permitted) ≡ true
  unfolding check_privileged_options
  reports-IsUnfit permitted plan field (binds_refused_path h) =
      any-problems_for _ plan permitted
        (ground (arith, reports-refused plan.name "volumes" plan.spec.mounts h))
  reports-IsUnfit permitted plan field (builds_from_refused_path b e h) =
      any-problems_for _ plan permitted (rw e (ground (arith, h, eq_refl plan.name)))
  reports-IsUnfit permitted plan field (is_unconfined e h) =
      any-problems_for _ plan permitted
        (ground (arith, e, options-IsUnconfined plan.spec h, eq_refl plan.name))
  reports-IsUnfit permitted plan field (is_malformed f h) =
      any-problems_for _ plan permitted (rw h (ground (arith, eq_refl plan.name, eq_refl f)))

module _ {E : Type 0} (tools : Tools) (docker : Engine E)
    (build : Option (ServicePlan → Job E (Unit {0}))) where
  reports-problems_of :
      (before : List ServicePlan) (plan : ServicePlan) (after : List ServicePlan) (permitted : Bool)
      (field : String)
      → any (reports plan.name field) (problems_for tools plan permitted) ≡ true
      → any
          (reports plan.name field)
          (problems_of tools docker build (before ++ (plan ∷ after)) permitted)
        ≡ true
  unfolding problems_of
  reports-problems_of [] plan after permitted field h = rw any-append (ground (arith, h))
  reports-problems_of (p ∷ before) plan after permitted field h =
      rw any-append (ground (arith, reports-problems_of before plan after permitted field h))

-- A service with anything wrong stops the deploy before it starts: if a selected service binds a host
-- path that the guard refuses, builds from one, uses a privileged option without the permission, or
-- has a definition that is malformed, the deploy fails with a list of problems that names the service
-- and the field, and the engine is as it was.
pub up-refused :
    {E : Type 0} (tools : Tools) (docker : Engine E)
    (build : Option (ServicePlan → Job E (Unit {0}))) (stack : String) (conversion : Conversion)
    (before : List ServicePlan) (plan : ServicePlan) (after : List ServicePlan) (opts : UpOptions)
    (cancels : List Bool) (e : E) (field : String)
    → selected tools docker build conversion opts ≡ returned (before ++ (plan ∷ after))
    → IsUnfit tools opts.privileged plan field
    → (ps : List Problem) × (up tools docker build stack (returned conversion) opts cancels e
        ≡ (raised (stack_refused ps), e))
      × (any (reports plan.name field) ps ≡ true)
unfolding up unless_fault raise ◌>>=◌
up-refused tools docker build stack conversion before plan after opts cancels e field chosen unfit =
    let found =
      reports-problems_of tools docker build before plan after opts.privileged field
        (reports-IsUnfit tools opts.privileged plan field unfit) in
    let (p, ps, listed) = any-cons _ _ found in
    (
      p ∷ ps,
      rw chosen (rw listed refl),
      subst (λ qs. any (reports plan.name field) qs ≡ true) listed found,
    )
