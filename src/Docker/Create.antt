-- ===== src/Docker/Create.antt =====
-- internal/docker/spec.go: BuildCreateSpec, and the gates of internal/service/create.go that stand
-- before it.
pub mod Confined
use iskele.Common.{
  String, Bool, true, false, not, ◌&&◌, Option, none, some, List, [], ◌∷◌, ◌++◌, ◌==◌,
  if◌then◌else◌,
}
use iskele.Docker.{Text, ContainerSpec, Checked, built, malformed, ◌>>=◌}
use iskele.Docker.Values.{
  RestartMode, DeviceMapping, HealthConfig, EndpointSettings, is_empty, build_env,
  build_restart_policy, build_devices, build_health_check, build_networking,
}
use iskele.Docker.Mounts.{MountPlan, build_mounts}
use iskele.Docker.Ports.{PortPlan, build_ports}

-- The engine's Config, HostConfig and NetworkingConfig in one, of the fields that are modelled.
pub record CreateSpec : Type 0 where
  pub name : String
  pub image : String
  pub command : List String
  pub entrypoint : List String
  pub labels : List (String × String)
  pub env : List String
  pub healthcheck : Option HealthConfig
  pub ports : PortPlan
  pub mounts : MountPlan
  pub restart_policy : RestartMode
  pub privileged : Bool
  pub cap_add : List String
  pub cap_drop : List String
  pub security_opt : List String
  pub sysctls : List (String × String)
  pub devices : List DeviceMapping
  pub network_mode : String
  pub networking : Option EndpointSettings

-- `used = append(used, option)` under a test
abbrev pub named_if : Bool → String → List String
named_if b option = if b then option ∷ [] else []

module _ (text : Text) where
  -- the checks, once the image is there
  unfoldable pub assemble : ContainerSpec → Checked CreateSpec
  unfolding build_env build_restart_policy build_devices build_health_check build_networking
      build_mounts build_ports
  assemble spec = do
    health ← build_health_check text spec.health_check
    ports ← build_ports text spec.ports
    mounts ← build_mounts text spec.mounts
    restart ← build_restart_policy text spec.restart_policy
    devices ← build_devices text spec.security.devices
    built (record {
      name = text.trim_space spec.name;
      image = text.trim_space spec.image;
      command = spec.command;
      entrypoint = spec.entrypoint;
      labels = spec.labels;
      env = build_env text spec.env;
      healthcheck = health;
      ports = ports;
      mounts = mounts;
      restart_policy = restart;
      privileged = spec.security.privileged;
      cap_add = spec.security.cap_add;
      cap_drop = spec.security.cap_drop;
      security_opt = spec.security.security_opt;
      sysctls = spec.security.sysctls;
      devices = devices;
      network_mode = text.trim_space spec.network.name;
      networking = build_networking text spec.network;
    })

  -- BuildCreateSpec
  unfoldable pub build_create_spec : ContainerSpec → Checked CreateSpec
  unfolding assemble
  build_create_spec spec =
      if text.trim_space spec.image == "" then malformed "image" else assemble spec

  -- isHostNamespace
  unfoldable pub is_host_namespace : String → Bool
  is_host_namespace name = text.to_lower (text.trim_space name) == "host"

  -- the options that checkPrivilegedOptions collects
  unfoldable pub privileged_options : ContainerSpec → List String
  unfolding is_host_namespace
  privileged_options spec =
      named_if spec.security.privileged "privileged"
      ++ (named_if (not (is_empty spec.security.cap_add)) "cap_add"
          ++ (named_if (not (is_empty spec.security.devices)) "devices"
              ++ (named_if (not (is_empty spec.security.security_opt)) "security_opt"
                  ++ (named_if (not (is_empty spec.security.sysctls)) "sysctls"
                      ++ named_if (is_host_namespace spec.network.name) "network=host"))))

  -- checkPrivilegedOptions; `none` lets the definition through
  unfoldable pub check_privileged_options : ContainerSpec → Bool → Option (List String)
  unfolding privileged_options
  check_privileged_options spec allowed =
      if allowed
      then none
      else let used = privileged_options spec in if is_empty used then none else some used
