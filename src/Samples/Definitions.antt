-- ===== src/Samples/Definitions.antt =====
-- Container definitions for the examples, and small stand-ins for the Go functions that check them.
use iskele.Common.{String, false, none, some, [], ◌∷◌, ◌==◌, if◌then◌else◌}
use iskele.Common.Integers.{pos}
use iskele.Docker.{Text, PortMapping, MountSpec, ContainerSpec}

-- "bİnd" lowers to "bind", and does not fold to it.
abbrev pub sample_text : Text
sample_text = record {
  trim_space = λ s. s;
  to_lower = λ s. if s == "bİnd" then "bind" else s;
  equal_fold = λ s t. s == t;
  split_colon = λ s. s ∷ [];
  cut_dash = λ s. none;
  sort_strings = λ ss. ss;
  atoi = λ s. if s == "8080" then some (pos 8_080) else none;
  format_int = λ i. "0";
  parse_duration = λ s. none;
  new_port = λ proto n. some proto;
}

abbrev pub bind_mount : String → String → MountSpec
bind_mount mount_type source = record {
  mount_type = mount_type;
  source = source;
  destination = "/data";
  read_only = false;
  tmpfs_size = pos 0;
  bind_propagation = "";
  create_host_path = false;
}

abbrev pub web_port : PortMapping
web_port = record { host_ip = ""; host_port = "8080"; container_port = pos 80; protocol = "tcp" }

abbrev pub web : ContainerSpec
web = record {
  name = "web";
  image = "nginx";
  pull_policy = "";
  command = [];
  entrypoint = [];
  env = record { key = "A"; value = "1" } ∷ [];
  labels = [];
  ports = web_port ∷ [];
  mounts = bind_mount "bind" "/srv" ∷ [];
  restart_policy = record { name = "always"; max_retries = pos 0 };
  network = record {
    name = "front";
    aliases = [];
    ipv4_address = "";
    ipv6_address = "";
    mac_address = "";
  };
  health_check = none;
  security = record {
    privileged = false;
    cap_add = [];
    cap_drop = "ALL" ∷ [];
    security_opt = [];
    devices = [];
    sysctls = [];
  };
}
