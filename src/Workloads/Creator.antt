-- ===== src/Workloads/Creator.antt =====
-- internal/service/create.go: the container that the create form asks for.
pub mod Gated
use iskele.Common.{
  String, Bool, true, false, ◌||◌, Option, none, some, List, [], ◌∷◌, ◌==◌, if◌then◌else◌,
}
use iskele.Docker.{Text, ContainerSpec}
use iskele.Docker.Mounts.{bind_sources}
use iskele.Docker.Create.{CreateSpec, build_create_spec, check_privileged_options}
use iskele.Workloads.Paths.{FilePaths, PathGuard, check_all}
use iskele.Workloads.Engine.{
  Engine, Fault, path_refused, privileged_options_used, spec_error, Outcome, returned, raised, Job,
  pure, raise, call, checked, unless_fault, ◌>>=◌, ◌>>◌,
}

abbrev pub path_fault : Option String → Option Fault
path_fault none = none
path_fault (some path) = some (path_refused path)

abbrev pub privilege_fault : Option (List String) → Option Fault
privilege_fault none = none
privilege_fault (some used) = some (privileged_options_used used)

module _ {E : Type 0} (text : Text) (paths : FilePaths) (guard : PathGuard)
    (docker : Engine E) where
  -- ensureImage
  unfoldable pub ensure_image : ContainerSpec → Job E (Unit {0})
  unfolding pure call raise
  ensure_image spec =
      let policy = text.to_lower (text.trim_space spec.pull_policy) in
      if policy == "never"
      then pure tt
      else if policy == "always"
      then call (docker.pull spec.image)
      else if policy == "" || policy == "missing"
      then pure tt
      else raise (spec_error "pull_policy")

  -- `Start`, when the definition asks for it; whether the container was started
  unfoldable pub start_if : Bool → String → Job E Bool
  unfolding call ◌>>=◌ pure
  start_if start id = if start then (call (docker.start_container id) >> pure true) else pure false

  -- create: the id of the container, and whether it was started
  unfoldable pub create : ContainerSpec → Bool → Bool → Job E (String × Bool)
  unfolding check_all check_privileged_options build_create_spec unless_fault checked ensure_image
      call start_if pure ◌>>=◌ bind_sources
  create spec start privileged = do
    unless_fault (path_fault (check_all paths guard (bind_sources text spec.mounts)))
    unless_fault (privilege_fault (check_privileged_options text spec privileged))
    definition ← checked (build_create_spec text spec)
    ensure_image spec
    id ← call (docker.create_container definition)
    started ← start_if start id
    pure (id, started)
