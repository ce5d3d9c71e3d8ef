-- ===== src/Docker/Create/Confined.antt =====
-- What internal/service/create.go and internal/docker/spec.go let a caller without the privileged
-- permission create.
use iskele.Common.{
  String, ◌≡◌, refl, Bool, true, false, not, none, List, [], ◌∷◌, ◌++◌, arith, ◌==◌,
}
use iskele.Docker.{Text, ContainerSpec, Checked, built, malformed}
use iskele.Docker.Holds.{Holds, Holds-if, Holds-bind, Holds-built}
use iskele.Docker.Values.{is_empty, build_health_check, build_restart_policy, build_devices}
use iskele.Docker.Mounts.{build_mounts}
use iskele.Docker.Ports.{build_ports}
use iskele.Docker.Create.{
  CreateSpec, assemble, build_create_spec, is_host_namespace, named_if, privileged_options,
  check_privileged_options,
}

-- Nothing in it widens what the container may do.
pub record IsConfined (text : Text) (c : CreateSpec) : Type 0 where
  pub unprivileged : c.privileged ≡ false
  pub no_capabilities : c.cap_add ≡ []
  pub no_devices : c.devices ≡ []
  pub no_security_opt : c.security_opt ≡ []
  pub no_sysctls : c.sysctls ≡ []
  pub own_network : (text.to_lower c.network_mode == "host") ≡ false

empty-nil : {A : Type 0} (xs : List A) → is_empty xs ≡ true → xs ≡ []
empty-nil [] h = refl
empty-nil (x ∷ xs) h = cc

-- An option that is not named is not used.
unnamed :
    (b : Bool) (option : String) (rest : List String)
    → is_empty (named_if b option ++ rest) ≡ true
    → (b ≡ false) × (is_empty rest ≡ true)
unnamed true option rest h = cc
unnamed false option rest h = (refl, h)

-- What a definition that uses no such option says.
record IsInert (text : Text) (spec : ContainerSpec) : Type 0 where
  unprivileged : spec.security.privileged ≡ false
  no_capabilities : spec.security.cap_add ≡ []
  no_devices : spec.security.devices ≡ []
  no_security_opt : spec.security.security_opt ≡ []
  no_sysctls : spec.security.sysctls ≡ []
  own_network : is_host_namespace text spec.network.name ≡ false

true_of_negation : (b : Bool) → not b ≡ false → b ≡ true
true_of_negation b h = ground arith

options-IsInert :
    (text : Text) (spec : ContainerSpec)
    → is_empty (privileged_options text spec) ≡ true
    → IsInert text spec
unfolding privileged_options
options-IsInert text spec h =
    let (privileged, h1) = unnamed _ _ _ h in
    let (caps, h2) = unnamed _ _ _ h1 in
    let (devices, h3) = unnamed _ _ _ h2 in
    let (opts, h4) = unnamed _ _ _ h3 in
    let (sysctls, h5) = unnamed _ _ _ h4 in
    record {
      unprivileged = privileged;
      no_capabilities = empty-nil _ (true_of_negation _ caps);
      no_devices = empty-nil _ (true_of_negation _ devices);
      no_security_opt = empty-nil _ (true_of_negation _ opts);
      no_sysctls = empty-nil _ (true_of_negation _ sysctls);
      own_network = unnamed_last _ _ h5;
    }
  where
    unnamed_last : (b : Bool) (option : String) → is_empty (named_if b option) ≡ true → b ≡ false
    unnamed_last true option h = cc
    unnamed_last false option h = refl

pub anything : {A : Type 0} (c : Checked A) → Holds (λ a. Unit {0}) c
anything (built a) = tt
anything (malformed field) = tt

devices-nil :
    (text : Text) (devices : List String)
    → devices ≡ []
    → Holds (λ ds. ds ≡ []) (build_devices text devices)
unfolding build_devices
devices-nil text [] h = refl
devices-nil text (d ∷ ds) h = cc

assemble-IsConfined :
    (text : Text) (spec : ContainerSpec)
    → IsInert text spec
    → Holds (IsConfined text) (assemble text spec)
unfolding assemble is_host_namespace
assemble-IsConfined text spec inert =
    Holds-bind _ (build_health_check text spec.health_check) _ (anything _) λ health known.
      Holds-bind _ (build_ports text spec.ports) _ (anything _) λ ports known.
        Holds-bind _ (build_mounts text spec.mounts) _ (anything _) λ mounts known.
          Holds-bind _ (build_restart_policy text spec.restart_policy) _ (anything _)
            λ restart known.
              Holds-bind _ (build_devices text spec.security.devices) _
                (devices-nil text spec.security.devices inert.no_devices)
                λ devices none_left. record {
                  unprivileged = inert.unprivileged;
                  no_capabilities = inert.no_capabilities;
                  no_devices = none_left;
                  no_security_opt = inert.no_security_opt;
                  no_sysctls = inert.no_sysctls;
                  own_network = inert.own_network;
                }

-- What the engine is asked to create for a caller without the privileged permission, once the check
-- let the definition through, widens nothing: it is not privileged, adds no capability, device,
-- security option or kernel parameter, and does not share the host's network.
pub build_create_spec-IsConfined :
    (text : Text) (spec : ContainerSpec) (c : CreateSpec)
    → check_privileged_options text spec false ≡ none
    → build_create_spec text spec ≡ built c
    → IsConfined text c
unfolding check_privileged_options build_create_spec
build_create_spec-IsConfined text spec c passed e =
    Holds-built (IsConfined text) (build_create_spec text spec) c
      (Holds-if (IsConfined text) (text.trim_space spec.image == "") _ _ (λ bad. tt)
        (λ good. assemble-IsConfined text spec (options-IsInert text spec (ground arith))))
      e
