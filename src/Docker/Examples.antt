-- ===== src/Docker/Examples.antt =====
-- Container definitions checked on concrete inputs.
use iskele.Common.{◌≡◌, refl, true, none, [], ◌∷◌, All, lookup, insert, any}
use iskele.Docker.{Checked, built, malformed}
use iskele.Docker.Values.{build_restart_policy, build_devices, build_health_check, no}
use iskele.Docker.Mounts.{MountPlan, bind_of, add_mount, add_mounts, build_mounts, bind_sources}
use iskele.Docker.Mounts.Unasked.{binds, build_mounts-unasked}
use iskele.Docker.Ports.{PortPlan, publish, validate_port_value, add_port, add_ports, build_ports}
use iskele.Docker.Ports.InRange.{IsInRange, IsExposable, build_ports-IsInRange}
use iskele.Docker.Create.{
  CreateSpec, assemble, build_create_spec, is_host_namespace, privileged_options,
  check_privileged_options,
}
use iskele.Docker.Create.Confined.{IsConfined, build_create_spec-IsConfined}
use iskele.Samples.Definitions.{sample_text, bind_mount, web_port, web}

abbrev srv_plan : MountPlan
srv_plan = record { mounts = bind_of sample_text (bind_mount "bind" "/srv") ∷ []; tmpfs = [] }

abbrev both_plan : MountPlan
both_plan = record {
  mounts =
      bind_of sample_text (bind_mount "bind" "/srv")
      ∷ bind_of sample_text (bind_mount "bİnd" "/")
      ∷ [];
  tmpfs = [];
}

build_mounts-unasked_example :
    (any (binds "/") both_plan.mounts ≡ true)
    × (bind_sources sample_text (bind_mount "bind" "/srv" ∷ bind_mount "bİnd" "/" ∷ [])
        ≡ bind_sources sample_text (bind_mount "bind" "/srv" ∷ []))
unfolding build_mounts add_mounts add_mount
build_mounts-unasked_example =
    build_mounts-unasked sample_text (bind_mount "bind" "/srv" ∷ []) (bind_mount "bİnd" "/") []
      both_plan refl refl refl

abbrev web_plan : PortPlan
web_plan = record {
  exposed = ("tcp", tt) ∷ [];
  bindings = ("tcp", record { host_ip = ""; host_port = "8080" } ∷ []) ∷ [];
}

build_ports-IsInRange_example :
    IsInRange sample_text web_plan × All (IsExposable sample_text) (web_port ∷ [])
unfolding build_ports add_ports add_port publish validate_port_value insert lookup
build_ports-IsInRange_example = build_ports-IsInRange sample_text (web_port ∷ []) web_plan refl

abbrev created_or : CreateSpec → Checked CreateSpec → CreateSpec
created_or d (built c) = c
created_or d (malformed field) = d

abbrev no_spec : CreateSpec
no_spec = record {
  name = "";
  image = "";
  command = [];
  entrypoint = [];
  labels = [];
  env = [];
  healthcheck = none;
  ports = record { exposed = []; bindings = [] };
  mounts = record { mounts = []; tmpfs = [] };
  restart_policy = no;
  privileged = true;
  cap_add = [];
  cap_drop = [];
  security_opt = [];
  sysctls = [];
  devices = [];
  network_mode = "";
  networking = none;
}

build_create_spec-IsConfined_example :
    IsConfined sample_text (created_or no_spec (build_create_spec sample_text web))
unfolding build_create_spec assemble build_health_check build_ports add_ports add_port publish
    validate_port_value insert lookup build_mounts add_mounts add_mount build_restart_policy
    build_devices check_privileged_options privileged_options is_host_namespace
build_create_spec-IsConfined_example =
    build_create_spec-IsConfined sample_text web
      (created_or no_spec (build_create_spec sample_text web)) refl refl
