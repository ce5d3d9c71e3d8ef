-- ===== src/Docker/Values.antt =====
-- internal/docker/spec.go: the environment, the restart policy, the devices and the health check.
use Prim.Native.String.{◌++◌ as ◌+++◌}
use iskele.Common.{
  String, Bool, true, false, not, ◌&&◌, ◌||◌, Option, none, some, List, [], ◌∷◌, all, eqb, codes,
  ◌==◌, if◌then◌else◌,
}
use iskele.Common.Integers.{ℤ, pos, is_negative, is_nought}
use iskele.Docker.{
  Text, starts_absolute, EnvVar, RestartPolicy, NetworkSpec, HealthSpec, Checked, built, malformed,
  ◌>>=◌,
}

-- Only `on_failure` has a retry count.
pub data RestartMode : Type 0 where
  no always unless_stopped : RestartMode
  on_failure : ℤ → RestartMode

pub record DeviceMapping : Type 0 where
  pub path_on_host : String
  pub path_in_container : String
  pub cgroup_permissions : String

pub record HealthConfig : Type 0 where
  pub test : List String
  pub interval : ℤ
  pub timeout : ℤ
  pub start_period : ℤ
  pub retries : ℤ

-- The endpoint of one network; the two addresses are its IPAMConfig.
pub record EndpointSettings : Type 0 where
  pub network : String
  pub aliases : List String
  pub mac_address : String
  pub ipv4_address : String
  pub ipv6_address : String

-- what `strings.Trim(s, "rwm") != ""` is false of: a text of these letters only
abbrev pub only_rwm : String → Bool
only_rwm s = all (λ c. eqb c 114 || (eqb c 119 || eqb c 109)) (codes s)

-- a plain mode takes no retry count
abbrev plain : RestartMode → ℤ → Checked RestartMode
plain mode retries = if is_nought retries then built mode else malformed "restart_policy"

-- the command of a probe, with the word that says how it is run
abbrev probe_command : List String → List String
probe_command [] = []
probe_command (line ∷ []) = "CMD-SHELL" ∷ line ∷ []
probe_command (word ∷ words) =
    if word == "CMD" || (word == "CMD-SHELL" || word == "NONE")
    then word ∷ words
    else "CMD" ∷ word ∷ words

-- parts[i] where it is there and not empty
abbrev or_default : String → String → String
or_default s d = if s == "" then d else s

-- len(xs) == 0
abbrev pub is_empty {ℓ} : {A : Type ℓ} → List A → Bool
is_empty [] = true
is_empty (x ∷ xs) = false

module _ (text : Text) where
  -- the loop of buildEnv
  unfoldable env_entries : List EnvVar → List String
  env_entries [] = []
  env_entries (v ∷ vars) =
      let rest = env_entries vars in
      let key = text.trim_space v.key in
      if key == "" then rest else (key +++ "=" +++ v.value) ∷ rest

  -- buildEnv
  unfoldable pub build_env : List EnvVar → List String
  unfolding env_entries
  build_env vars = text.sort_strings (env_entries vars)

  -- buildRestartPolicy
  unfoldable pub build_restart_policy : RestartPolicy → Checked RestartMode
  build_restart_policy policy =
      let name = or_default (text.trim_space policy.name) "no" in
      if name == "no"
      then plain no policy.max_retries
      else if name == "always"
      then plain always policy.max_retries
      else if name == "unless-stopped"
      then plain unless_stopped policy.max_retries
      else if name == "on-failure" && not (is_negative policy.max_retries)
      then built (on_failure policy.max_retries)
      else malformed "restart_policy"

  -- one entry of `--device`, split at its colons
  unfoldable device_of : List String → Checked DeviceMapping
  device_of [] = malformed "devices"
  device_of (host ∷ []) =
      if starts_absolute host
      then built
          (record { path_on_host = host; path_in_container = host; cgroup_permissions = "rwm" })
      else malformed "devices"
  device_of (host ∷ inside ∷ []) =
      if starts_absolute host
      then built (record {
        path_on_host = host;
        path_in_container = or_default inside host;
        cgroup_permissions = "rwm";
      })
      else malformed "devices"
  device_of (host ∷ inside ∷ permissions ∷ []) =
      if starts_absolute host && only_rwm permissions
      then built (record {
        path_on_host = host;
        path_in_container = or_default inside host;
        cgroup_permissions = or_default permissions "rwm";
      })
      else malformed "devices"
  device_of (host ∷ inside ∷ permissions ∷ more ∷ rest) = malformed "devices"

  -- buildDevices
  unfoldable pub build_devices : List String → Checked (List DeviceMapping)
  unfolding device_of
  build_devices [] = built []
  build_devices (raw ∷ devices) =
      let entry = text.trim_space raw in
      let rest = build_devices devices in
      if entry == ""
      then rest
      else (device_of (text.split_colon entry) >>= λ d. rest >>= λ ds. built (d ∷ ds))

  -- parseSpecDuration
  unfoldable pub parse_spec_duration : String → String → Checked ℤ
  parse_spec_duration field value =
      let trimmed = text.trim_space value in
      if trimmed == "" then built (pos 0) else elim (text.parse_duration trimmed) [
        | none ↦ malformed field
        | some d ↦ if is_negative d then malformed field else built d
      ]

  -- the check of the retry count
  abbrev checked_retries : ℤ → Checked ℤ
  checked_retries n = if is_negative n then malformed "health_check.retries" else built n

  -- what follows the test of the probe
  unfoldable health_of : HealthSpec → Checked HealthConfig
  unfolding parse_spec_duration
  health_of spec = do
    interval ← parse_spec_duration "health_check.interval" spec.interval
    timeout ← parse_spec_duration "health_check.timeout" spec.timeout
    start_period ← parse_spec_duration "health_check.start_period" spec.start_period
    retries ← checked_retries spec.retries
    built (record {
      test = probe_command spec.test;
      interval = interval;
      timeout = timeout;
      start_period = start_period;
      retries = retries;
    })

  -- buildHealthCheck
  unfoldable pub build_health_check : Option HealthSpec → Checked (Option HealthConfig)
  unfolding health_of
  build_health_check none = built none
  build_health_check (some spec) =
      if spec.disable
      then built (
          some (record {
            test = "NONE" ∷ [];
            interval = pos 0;
            timeout = pos 0;
            start_period = pos 0;
            retries = pos 0;
          }))
      else elim spec.test [
        | [] ↦ malformed "health_check"
        | word ∷ words ↦ (health_of spec >>= λ h. built (some h))
      ]

  -- buildNetworking
  unfoldable pub build_networking : NetworkSpec → Option EndpointSettings
  build_networking spec =
      let name = text.trim_space spec.name in
      let bare =
        is_empty spec.aliases
        && (spec.ipv4_address == "" && (spec.ipv6_address == "" && spec.mac_address == "")) in
      if name == "" || bare
      then none
      else some (record {
        network = name;
        aliases = spec.aliases;
        mac_address = spec.mac_address;
        ipv4_address = spec.ipv4_address;
        ipv6_address = spec.ipv6_address;
      })
