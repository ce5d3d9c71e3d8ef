-- ===== src/Workloads/Creator/Gated.antt =====
-- What internal/service/create.go lets the engine be asked.
use iskele.Common.{
  String, ◌≡◌, refl, Bool, true, false, Option, none, some, List, All, ◌==◌, subst, ◌||◌,
}
use iskele.Docker.{Text, ContainerSpec, Checked, built, malformed}
use iskele.Docker.Holds.{Holds, Holds-if, Holds-bind, Holds-built}
use iskele.Docker.Values.{build_health_check, build_restart_policy, build_devices}
use iskele.Docker.Ports.{build_ports}
use iskele.Docker.Mounts.{MountPlan, bind_sources, build_mounts}
use iskele.Docker.Mounts.Whitelisted.{IsPlain, IsBoundIn, build_mounts-bound}
use iskele.Docker.Create.{CreateSpec, assemble, build_create_spec, check_privileged_options}
use iskele.Docker.Create.Confined.{IsConfined, anything, build_create_spec-IsConfined}
use iskele.Workloads.Paths.{FilePaths, PathGuard}
use iskele.Workloads.Paths.Allowed.{IsAllowed, check_all-IsAllowed}
use iskele.Workloads.Engine.{Engine}
use iskele.Workloads.Engine.Rules.{
  Withstands, Keeps, Keeps-pure, Keeps-raise, Keeps-call, Keeps-checked, Keeps-unless, Keeps-bind,
  Keeps-if,
}
use iskele.Workloads.Creator.{path_fault, privilege_fault, ensure_image, start_if, create}

-- A definition that the engine may be asked to create: the host paths that it binds are allowed, and
-- without the privileged permission it widens nothing.
pub record IsGated (text : Text) (paths : FilePaths) (guard : PathGuard) (privileged : Bool)
    (c : CreateSpec) : Type 0 where
  pub whitelisted : All (IsBoundIn (IsAllowed paths guard)) c.mounts.mounts
  pub confined : privileged ≡ false → IsConfined text c

module _ (text : Text) (paths : FilePaths) (guard : PathGuard) where
  -- The mounts of a definition are those that its specification builds.
  build_create_spec-mounts :
      (spec : ContainerSpec) (c : CreateSpec)
      → build_create_spec text spec ≡ built c
      → build_mounts text spec.mounts ≡ built c.mounts
  unfolding build_create_spec assemble
  build_create_spec-mounts spec c e =
      Holds-built (λ c. build_mounts text spec.mounts ≡ built c.mounts)
        (build_create_spec text spec) c
        (Holds-if _ (text.trim_space spec.image == "") _ _ (λ bad. tt)
          λ good.
            Holds-bind _ (build_health_check text spec.health_check) _ (anything _) λ health known.
              Holds-bind _ (build_ports text spec.ports) _ (anything _) λ ports known.
                Holds-bind _ (build_mounts text spec.mounts) _
                  (itself (build_mounts text spec.mounts))
                  λ mounts same.
                    Holds-bind _ (build_restart_policy text spec.restart_policy) _ (anything _)
                      λ restart known.
                        Holds-bind _ (build_devices text spec.security.devices) _ (anything _)
                          λ devices known. same)
        e
    where
      itself : (c : Checked MountPlan) → Holds (λ p. c ≡ built p) c
      itself (built p) = refl
      itself (malformed field) = tt

  -- The three checks make a definition one that may be created.
  pub build_create_spec-IsGated :
      (spec : ContainerSpec) (privileged : Bool) (c : CreateSpec)
      → All (IsPlain text) spec.mounts
      → All (IsAllowed paths guard) (bind_sources text spec.mounts)
      → check_privileged_options text spec privileged ≡ none
      → build_create_spec text spec ≡ built c
      → IsGated text paths guard privileged c
  build_create_spec-IsGated spec privileged c lowers allowed passed e = record {
    whitelisted =
        build_mounts-bound text (IsAllowed paths guard) spec.mounts c.mounts lowers allowed
          (build_create_spec-mounts spec c e);
    confined = λ plain.
        build_create_spec-IsConfined text spec c
          (subst (λ p. check_privileged_options text spec p ≡ none) plain passed) e;
  }

  module _ {E : Type 0} (docker : Engine E) (I : E → Type 0) (N V : String → Type 0) where
    ensure_image-Keeps :
        (K : CreateSpec → Type 0) (spec : ContainerSpec)
        → Withstands docker I K N V
        → Keeps I (ensure_image text paths guard docker spec) (λ u. Unit {0})
    unfolding ensure_image
    ensure_image-Keeps K spec w =
        let policy = text.to_lower (text.trim_space spec.pull_policy) in
        Keeps-if I (policy == "never") _ _ (λ e. Keeps-pure I _ tt tt)
          λ e.
            Keeps-if I (policy == "always") _ _ (λ e. Keeps-call I _ (w.pull spec.image))
              λ e.
                Keeps-if I (policy == "" || policy == "missing") _ _ (λ e. Keeps-pure I _ tt tt)
                  (λ e. Keeps-raise I _ _)

    start_if-Keeps :
        (K : CreateSpec → Type 0) (start : Bool) (id : String)
        → Withstands docker I K N V
        → Keeps I (start_if text paths guard docker start id) (λ b. Unit {0})
    unfolding start_if
    start_if-Keeps K start id w =
        Keeps-if I start _ _
          (λ e. Keeps-bind I _ _ (Keeps-call I _ (w.start id)) (λ a r. Keeps-pure I _ true tt))
          (λ e. Keeps-pure I _ false tt)

path_fault-none : (o : Option String) → path_fault o ≡ none → o ≡ none
path_fault-none none e = refl
path_fault-none (some path) e = cc

privilege_fault-none : (o : Option (List String)) → privilege_fault o ≡ none → o ≡ none
privilege_fault-none none e = refl
privilege_fault-none (some used) e = cc

-- The create form cannot get round the two gates: whatever is true of the engine while it is asked
-- only for definitions that bind allowed host paths and, without the privileged permission, widen
-- nothing, stays true when a container is created, whether the creation succeeds or fails. The type
-- of each mount folds to "bind" wherever it lowers to it.
pub create-IsGated :
    {E : Type 0} (text : Text) (paths : FilePaths) (guard : PathGuard) (docker : Engine E)
    (I : E → Type 0) (N V : String → Type 0) (spec : ContainerSpec) (start privileged : Bool)
    (e : E)
    → All (IsPlain text) spec.mounts
    → Withstands docker I (IsGated text paths guard privileged) N V
    → I e
    → I (create text paths guard docker spec start privileged e).1
unfolding create
create-IsGated text paths guard docker I N V spec start privileged e lowers w i =
    let keeps : Keeps I (create text paths guard docker spec start privileged) (λ p. Unit {0}) =
      Keeps-bind I _ _ (Keeps-unless I _) λ u allowed.
        Keeps-bind I _ _ (Keeps-unless I _) λ u unprivileged.
          Keeps-bind I _ _ (Keeps-checked I (build_create_spec text spec)) λ c definition.
            Keeps-bind I _ _ (ensure_image-Keeps text paths guard docker I N V _ spec w) λ u r.
              Keeps-bind I _ _
                (Keeps-call I _ λ e i.
                  w.create c e
                    (build_create_spec-IsGated text paths guard spec privileged c lowers
                      (check_all-IsAllowed paths guard _ (path_fault-none _ allowed))
                      (privilege_fault-none _ unprivileged) definition)
                    i)
                λ id r.
                  Keeps-bind I _ _ (start_if-Keeps text paths guard docker I N V _ start id w)
                    λ b r. Keeps-pure I (λ p. Unit {0}) (id, b) tt in
    (keeps.at e i).0
