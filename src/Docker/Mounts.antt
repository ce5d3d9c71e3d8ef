-- ===== src/Docker/Mounts.antt =====
-- internal/docker/spec.go: the mounts of a container, and the host paths that they bind.
pub mod Whitelisted
pub mod Unasked
use Prim.Native.String.{◌++◌ as ◌+++◌}
use iskele.Common.{
  String, Bool, true, false, not, ◌&&◌, ◌||◌, List, [], ◌∷◌, ◌++◌, Table, insert, ◌==◌,
  if◌then◌else◌,
}
use iskele.Common.Integers.{ℤ, is_negative, is_nought}
use iskele.Docker.{Text, starts_absolute, MountSpec, Checked, built, malformed, ◌>>=◌}

pub data MountType : Type 0 where
  bind volume : MountType

-- The two options are BindOptions, which a volume has not.
pub record Mount : Type 0 where
  pub mount_type : MountType
  pub source : String
  pub target : String
  pub read_only : Bool
  pub propagation : String
  pub create_mountpoint : Bool

-- The engine's mounts, and the options of each tmpfs by its destination.
pub record MountPlan : Type 0 where
  pub mounts : List Mount
  pub tmpfs : Table String

module _ (text : Text) where
  -- strings.ToLower(strings.TrimSpace(m.Type))
  abbrev pub type_of : MountSpec → String
  type_of m = text.to_lower (text.trim_space m.mount_type)

  abbrev tmpfs_options : MountSpec → String
  tmpfs_options m =
      let mode = if m.read_only then "ro" else "rw" in
      if is_negative m.tmpfs_size || is_nought m.tmpfs_size
      then mode
      else mode +++ ",size=" +++ text.format_int m.tmpfs_size

  abbrev pub bind_of : MountSpec → Mount
  bind_of m = record {
    mount_type = bind;
    source = text.trim_space m.source;
    target = text.trim_space m.destination;
    read_only = m.read_only;
    propagation = m.bind_propagation;
    create_mountpoint = m.create_host_path;
  }

  abbrev pub volume_of : MountSpec → Mount
  volume_of m = record {
    mount_type = volume;
    source = text.trim_space m.source;
    target = text.trim_space m.destination;
    read_only = m.read_only;
    propagation = "";
    create_mountpoint = false;
  }

  -- one turn of the loop of buildMounts
  unfoldable pub add_mount : MountSpec → MountPlan → Checked MountPlan
  add_mount m plan =
      let dest = text.trim_space m.destination in
      let source = text.trim_space m.source in
      if dest == "" || not (starts_absolute dest)
      then malformed "mounts"
      else if type_of m == "tmpfs"
      then built (record plan { tmpfs = insert dest (tmpfs_options m) plan.tmpfs })
      else if type_of m == "bind"
      then if source == "" || not (starts_absolute source)
        then malformed "mounts"
        else built (record plan { mounts = plan.mounts ++ (bind_of m ∷ []) })
      else if type_of m == "volume" || type_of m == ""
      then built (record plan { mounts = plan.mounts ++ (volume_of m ∷ []) })
      else malformed "mounts"

  -- the loop, from what it has gathered
  unfoldable pub add_mounts : List MountSpec → MountPlan → Checked MountPlan
  unfolding add_mount
  add_mounts [] plan = built plan
  add_mounts (m ∷ ms) plan = add_mount m plan >>= add_mounts ms

  -- buildMounts
  unfoldable pub build_mounts : List MountSpec → Checked MountPlan
  unfolding add_mounts
  build_mounts ms = add_mounts ms (record { mounts = []; tmpfs = [] })

  -- whether BindSources takes a mount for a bind
  abbrev pub folds_to_bind : MountSpec → Bool
  folds_to_bind m = text.equal_fold (text.trim_space m.mount_type) "bind"

  -- BindSources
  unfoldable pub bind_sources : List MountSpec → List String
  bind_sources [] = []
  bind_sources (m ∷ ms) =
      let rest = bind_sources ms in
      let source = text.trim_space m.source in
      if folds_to_bind m && not (source == "") then source ∷ rest else rest
