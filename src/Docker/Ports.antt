-- ===== src/Docker/Ports.antt =====
-- internal/docker/spec.go: the ports that a container exposes and publishes.
pub mod InRange
use iskele.Common.{
  ℕ, String, Bool, true, false, not, ◌&&◌, ◌||◌, Option, none, some, List, [], ◌∷◌, ◌++◌, Table,
  lookup, insert, ◌==◌, if◌then◌else◌,
}
use iskele.Common.Integers.{ℤ, within}
use iskele.Docker.{Text, PortMapping, Checked, built, malformed, ◌>>=◌}

pub record PortBinding : Type 0 where
  pub host_ip : String
  pub host_port : String

-- The two maps of nat: the keys that are exposed, and the bindings of each key.
pub record PortPlan : Type 0 where
  pub exposed : Table (Unit {0})
  pub bindings : Table (List PortBinding)

-- what a map of slices reads at a missing key
abbrev pub or_empty : Option (List PortBinding) → List PortBinding
or_empty none = []
or_empty (some bs) = bs

module _ (text : Text) where
  -- one part of a port value, which is not empty
  abbrev pub is_port_number : String → Bool
  is_port_number part = elim (text.atoi part) [ none ↦ false | some n ↦ within 1 65_535 n ]

  -- validatePortValue; without a "-" the second part is "", and is passed over
  unfoldable pub validate_port_value : String → Bool
  validate_port_value value = elim (text.cut_dash value) [
    | none ↦ value == "" || is_port_number value
    | some (start, end) ↦
        not (start == "") && (is_port_number start && (not (end == "") && is_port_number end))
  ]

  -- the protocol, "tcp" where it is not given
  abbrev pub protocol_of : PortMapping → String
  protocol_of p =
      let proto = text.to_lower (text.trim_space p.protocol) in if proto == "" then "tcp" else proto

  -- one turn of the loop, once the port has its key
  unfoldable pub publish : PortMapping → String → PortPlan → Checked PortPlan
  unfolding validate_port_value
  publish p key plan =
      let host_port = text.trim_space p.host_port in
      let host_ip = text.trim_space p.host_ip in
      let shown : PortPlan = record plan { exposed = insert key tt plan.exposed } in
      let binding : PortBinding = record { host_ip = host_ip; host_port = host_port } in
      if host_port == "" && host_ip == ""
      then built shown
      else if not (host_port == "") && not (validate_port_value host_port)
      then malformed "ports"
      else built (record shown {
        bindings = insert key (or_empty (lookup key plan.bindings) ++ (binding ∷ [])) plan.bindings;
      })

  -- one turn of the loop of buildPorts
  unfoldable pub add_port : PortMapping → PortPlan → Checked PortPlan
  unfolding publish
  add_port p plan =
      let proto = protocol_of p in
      if not (within 1 65_535 p.container_port)
      then malformed "ports"
      else if not (proto == "tcp" || (proto == "udp" || proto == "sctp"))
      then malformed "ports"
      else elim (text.new_port proto p.container_port) [
        | none ↦ malformed "ports"
        | some key ↦ publish p key plan
      ]

  unfoldable pub add_ports : List PortMapping → PortPlan → Checked PortPlan
  unfolding add_port
  add_ports [] plan = built plan
  add_ports (p ∷ ps) plan = add_port p plan >>= add_ports ps

  -- buildPorts
  unfoldable pub build_ports : List PortMapping → Checked PortPlan
  unfolding add_ports
  build_ports ps = add_ports ps (record { exposed = []; bindings = [] })
