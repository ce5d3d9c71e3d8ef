-- ===== src/Docker.antt =====
-- internal/docker: the container definition that the create form sends and a compose service turns
-- into, with what its checks call in the Go library and in nat.
pub mod Holds
pub mod Values
pub mod Mounts
pub mod Ports
pub mod Create
mod Examples
use iskele.Common.{ℕ, String, Bool, true, false, Option, none, some, List, eqb, codes, [], ◌∷◌}
use iskele.Common.Integers.{ℤ}

pub record Text : Type 0 where
  -- strings.TrimSpace, strings.ToLower, strings.EqualFold, strings.Split(_, ":"), strings.Cut(_, "-")
  pub trim_space : String → String
  pub to_lower : String → String
  pub equal_fold : String → String → Bool
  pub split_colon : String → List String
  pub cut_dash : String → Option (String × String)
  -- sort.Strings, strconv.Atoi, strconv.FormatInt, time.ParseDuration
  pub sort_strings : List String → List String
  pub atoi : String → Option ℤ
  pub format_int : ℤ → String
  pub parse_duration : String → Option ℤ
  -- nat.NewPort, with its port as a number
  pub new_port : String → ℤ → Option String

-- strings.HasPrefix(s, "/")
abbrev pub starts_absolute : String → Bool
starts_absolute s = elim (codes s) [ [] ↦ false | c ∷ cs ↦ eqb c 47 ]

pub record EnvVar : Type 0 where
  pub key : String
  pub value : String

pub record PortMapping : Type 0 where
  pub host_ip : String
  pub host_port : String
  pub container_port : ℤ
  pub protocol : String

pub record MountSpec : Type 0 where
  pub mount_type : String
  pub source : String
  pub destination : String
  pub read_only : Bool
  pub tmpfs_size : ℤ
  pub bind_propagation : String
  pub create_host_path : Bool

pub record RestartPolicy : Type 0 where
  pub name : String
  pub max_retries : ℤ

pub record NetworkSpec : Type 0 where
  pub name : String
  pub aliases : List String
  pub ipv4_address : String
  pub ipv6_address : String
  pub mac_address : String

pub record HealthSpec : Type 0 where
  pub test : List String
  pub interval : String
  pub timeout : String
  pub start_period : String
  pub retries : ℤ
  pub disable : Bool

pub record SecuritySpec : Type 0 where
  pub privileged : Bool
  pub cap_add : List String
  pub cap_drop : List String
  pub security_opt : List String
  pub devices : List String
  pub sysctls : List (String × String)

-- ContainerSpec. The fields that the code only copies (the working directory, the user, the host
-- names, the resource limits, the log driver and the like) are left out.
pub record ContainerSpec : Type 0 where
  pub name : String
  pub image : String
  pub pull_policy : String
  pub command : List String
  pub entrypoint : List String
  pub env : List EnvVar
  pub labels : List (String × String)
  pub ports : List PortMapping
  pub mounts : List MountSpec
  pub restart_policy : RestartPolicy
  pub network : NetworkSpec
  pub health_check : Option HealthSpec
  pub security : SecuritySpec

-- What a check gives: a value, or a SpecError, by the field that it names.
pub data Checked {ℓ} (A : Type ℓ) : Type ℓ where
  built : A → Checked A
  malformed : String → Checked A

module _ {A B : Type 0} where
  infixl 5 ◌>>=◌
  abbrev pub ◌>>=◌ : Checked A → (A → Checked B) → Checked B
  built a >>= f = f a
  malformed field >>= f = malformed field
