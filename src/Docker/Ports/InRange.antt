-- ===== src/Docker/Ports/InRange.antt =====
-- Which ports internal/docker/spec.go publishes.
use iskele.Common.{
  ℕ, ◌≤◌, String, ◌≡◌, refl, ◌⊎◌, inl, inr, Bool, true, false, not, ◌&&◌, ◌||◌, Option, none, some,
  List, [], ◌∷◌, All, All-append, arith, ◌==◌, lookup, IsTable, insert-IsTable, lookup-IsTable,
  if◌then◌else◌,
}
use iskele.Common.Integers.{ℤ, pos, negsuc, within}
use iskele.Docker.{Text, PortMapping, Checked, built, malformed}
use iskele.Docker.Holds.{Holds, Holds-if, Holds-bind, Holds-built}
use iskele.Docker.Ports.{
  PortBinding, PortPlan, or_empty, is_port_number, validate_port_value, publish, add_port,
  add_ports, build_ports, protocol_of,
}

module _ (text : Text) where
  -- A text that Atoi reads as a port number.
  pub record IsPort (s : String) : Type 0 where
    pub number : ℕ
    pub parsed : text.atoi s ≡ some (pos number)
    pub positive : 1 ≤ number
    pub bounded : number ≤ 65_535

  -- One port, or the two ends of a range.
  abbrev pub IsPortRange : String → Type 0
  IsPortRange s =
      IsPort s
      ⊎ ((start : String) × (end : String) × (text.cut_dash s ≡ some (start, end))
          × IsPort start
          × IsPort end)

  -- Every host port that is given is a port or a range of them.
  abbrev pub IsInRange : PortPlan → Type 0
  IsInRange plan =
      IsTable (λ key bs. All (λ b. (b.host_port == "") ≡ false → IsPortRange b.host_port) bs)
        plan.bindings

  parsed-IsPort : (s : String) (n : ℤ) → text.atoi s ≡ some n → within 1 65_535 n ≡ true → IsPort s
  parsed-IsPort s (pos n) e h = record {
    number = n;
    parsed = e;
    positive = ground arith;
    bounded = ground arith;
  }
  parsed-IsPort s (negsuc n) e h = cc

  is_port_number-IsPort : (s : String) → is_port_number text s ≡ true → IsPort s
  is_port_number-IsPort s h = go (text.atoi s) refl h
    where
      go :
          (o : Option ℤ)
          → text.atoi s ≡ o
          → (elim o [ none ↦ false | some n ↦ within 1 65_535 n ]) ≡ true
          → IsPort s
      go none e h = cc
      go (some n) e h = parsed-IsPort s n e h

  validate_port_value-IsPortRange :
      (s : String) → (s == "") ≡ false → validate_port_value text s ≡ true → IsPortRange s
  unfolding validate_port_value
  validate_port_value-IsPortRange s ne h = go (text.cut_dash s) refl h
    where
      go :
          (o : Option (String × String))
          → text.cut_dash s ≡ o
          → (elim o [
            | none ↦ s == "" || is_port_number text s
            | some (start, end) ↦
                not (start == "")
                && (is_port_number text start && (not (end == "") && is_port_number text end))
          ])
            ≡ true
          → IsPortRange s
      go none e h = inl (is_port_number-IsPort s (ground arith))
      go (some (start, end)) e h = inr (
        start,
        end,
        e,
        is_port_number-IsPort start (ground arith),
        is_port_number-IsPort end (ground arith),
      )

  -- The bindings of one key.
  abbrev AreInRange : List PortBinding → Type 0
  AreInRange bs = All (λ b. (b.host_port == "") ≡ false → IsPortRange b.host_port) bs

  or_empty-IsInRange :
      (plan : PortPlan) (key : String)
      → IsInRange plan
      → (o : Option (List PortBinding)) → lookup key plan.bindings ≡ o
      → AreInRange (or_empty o)
  or_empty-IsInRange plan key h none e = tt
  or_empty-IsInRange plan key h (some bs) e =
      lookup-IsTable (λ key bs. AreInRange bs) key plan.bindings bs h e

  choose :
      (b : Bool) (x y : Checked PortPlan)
      → (b ≡ true → Holds IsInRange x)
      → (b ≡ false → Holds IsInRange y)
      → Holds IsInRange (if b then x else y)
  choose = Holds-if IsInRange

  publish-IsInRange :
      (p : PortMapping) (key : String) (plan : PortPlan)
      → IsInRange plan
      → Holds IsInRange (publish text p key plan)
  unfolding publish
  publish-IsInRange p key plan h =
      let host_port = text.trim_space p.host_port in
      choose (host_port == "" && text.trim_space p.host_ip == "") _ _ (λ hidden. h)
        λ shown.
          choose (not (host_port == "") && not (validate_port_value text host_port)) _ _ (λ bad. tt)
            λ good.
              insert-IsTable (λ key bs. AreInRange bs) key _ plan.bindings
                (All-append _ (or_empty (lookup key plan.bindings)) _
                  (or_empty-IsInRange plan key h (lookup key plan.bindings) refl)
                  (
                    (λ given.
                        validate_port_value-IsPortRange host_port given (valid _ _ good given)),
                    tt,
                  ))
                h
    where
      valid : (a b : Bool) → (not a && not b) ≡ false → a ≡ false → b ≡ true
      valid a b h given = ground arith

  -- A container port that may be exposed.
  abbrev pub IsExposable : PortMapping → Type 0
  IsExposable p = within 1 65_535 p.container_port ≡ true

  add_port-IsInRange :
      (p : PortMapping) (plan : PortPlan)
      → IsInRange plan
      → Holds (λ plan'. IsInRange plan' × IsExposable p) (add_port text p plan)
  unfolding add_port
  add_port-IsInRange p plan h =
      Holds-if _ (not (within 1 65_535 p.container_port)) _ _ (λ bad. tt)
        λ good.
          Holds-if _ (not (proto == "tcp" || (proto == "udp" || proto == "sctp"))) _ _ (λ bad. tt)
            λ known. keyed (ground arith) (text.new_port proto p.container_port)
    where
      proto : String
      proto = protocol_of text p

      both :
          (c : Checked PortPlan)
          → IsExposable p
          → Holds IsInRange c
          → Holds (λ plan'. IsInRange plan' × IsExposable p) c
      both (built plan') port k = (k, port)
      both (malformed field) port k = tt

      keyed :
          IsExposable p
          → (o : Option String)
          → Holds
              (λ plan'. IsInRange plan' × IsExposable p)
              (elim o [ none ↦ malformed "ports" | some key ↦ publish text p key plan ])
      keyed port none = tt
      keyed port (some key) = both (publish text p key plan) port (publish-IsInRange p key plan h)

  add_ports-IsInRange :
      (ps : List PortMapping) (plan : PortPlan)
      → IsInRange plan
      → Holds (λ plan'. IsInRange plan' × All IsExposable ps) (add_ports text ps plan)
  unfolding add_ports
  add_ports-IsInRange [] plan h = (h, tt)
  add_ports-IsInRange (p ∷ ps) plan h =
      Holds-bind _ (add_port text p plan) (add_ports text ps) (add_port-IsInRange p plan h)
        λ plan' (k, port). both (add_ports text ps plan') port (add_ports-IsInRange ps plan' k)
    where
      both :
          (c : Checked PortPlan)
          → IsExposable p
          → Holds (λ plan'. IsInRange plan' × All IsExposable ps) c
          → Holds (λ plan'. IsInRange plan' × (IsExposable p × All IsExposable ps)) c
      both (built plan') port (k, ports) = (k, (port, ports))
      both (malformed field) port k = tt

-- When the ports of a definition are accepted, every container port is one of 1 to 65535, and every
-- host port that the engine is told is a number of 1 to 65535, or a range between two such.
pub build_ports-IsInRange :
    (text : Text) (ps : List PortMapping) (plan : PortPlan)
    → build_ports text ps ≡ built plan
    → IsInRange text plan × All (IsExposable text) ps
unfolding build_ports
build_ports-IsInRange text ps plan e =
    Holds-built _ _ plan (add_ports-IsInRange text ps (record { exposed = []; bindings = [] }) tt) e
