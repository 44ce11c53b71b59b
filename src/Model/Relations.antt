-- ===== src/Model/Relations.antt =====
-- `RuntimeSnapshot._find_unresolved_relationships`: what does not resolve inside the snapshot.
use Prim.Native.String.{◌++◌ as ◌<>◌}
use wyreplumber.Prelude.{
  ℕ, String, List, [], ◌∷◌, ◌++◌, Bool, true, false, ◌&&◌, Option, none, some, ◌==◌, str_eq, nat_eq,
  string_eq, pair_eq, collect, if◌then◌else◌,
}
use wyreplumber.Value.Checks.{Identity, id, name}
use wyreplumber.Builtins.{Builtins}
use wyreplumber.Model.Objects.{
  Device, Node, Port, Link, Parameter, Profile, Route, DefaultTarget, PortDirection, input, output,
}
use wyreplumber.Model.Contents.{Contents}
use wyreplumber.Model.Index.{get, has}

-- UnresolvedRelationshipValue
pub record Unresolved : Type 0 where
  pub source_type : String
  pub source_id : Identity
  pub relation : String
  pub target_type : String
  pub target_id : Identity
  pub reason : String

-- `missing`, where the target is absent
abbrev pub absent_target : String → Identity → String → String → Identity → Unresolved
absent_target source source_id relation target target_id = record {
  source_type = source;
  source_id = source_id;
  relation = relation;
  target_type = target;
  target_id = target_id;
  reason = "target is absent from this snapshot";
}

-- `if test: missing(...)`
abbrev pub unless : Bool → Unresolved → List Unresolved
unless found u = if found then [] else u ∷ []

unfoldable pub same_direction : PortDirection → PortDirection → Bool
same_direction input input = true
same_direction output output = true
same_direction PortDirection.unknown PortDirection.unknown = true
same_direction _ _ = false

module _ (c : Contents) where
  -- The parameters that an object names.
  unfoldable pub missing_parameters : String → ℕ → List String → List Unresolved
  missing_parameters owner i ids =
      collect
        (λ p.
          unless (has (owner, (i, p)) c.parameters_by_key)
            (absent_target owner (id i) "parameter" "parameter" (name p)))
        ids

  unfoldable pub device_missing : Device → List Unresolved
  unfolding missing_parameters
  device_missing d =
      missing_parameters "device" d.id d.parameter_ids
      ++ (collect
            (λ p.
              unless (has (d.id, p) c.profiles_by_key)
                (absent_target "device" (id d.id) "profile" "profile" (id p)))
            d.profile_ids
          ++ collect
              (λ r.
                unless (has (d.id, r) c.routes_by_key)
                  (absent_target "device" (id d.id) "route" "route" (id r)))
              d.route_ids)

  -- One port that a node names, for one direction.
  abbrev pub port_relation : Node → PortDirection → String → ℕ → List Unresolved
  port_relation n d relation p = elim (get p c.ports_by_id) [
    | none ↦ absent_target "node" (id n.id) relation "port" (id p) ∷ []
    | some port ↦ unless (port.node_id == n.id && same_direction port.direction d) (record {
      source_type = "node";
      source_id = id n.id;
      relation = relation;
      target_type = "port";
      target_id = id p;
      reason = "port ownership or direction does not match the relationship";
    })
  ]

  abbrev pub device_of : Node → Option ℕ → List Unresolved
  device_of n none = []
  device_of n (some d) =
      unless (has d c.devices_by_id) (absent_target "node" (id n.id) "device" "device" (id d))

  unfoldable pub node_missing : Node → List Unresolved
  unfolding missing_parameters
  node_missing n =
      device_of n n.device_id
      ++ (missing_parameters "node" n.id n.parameter_ids
          ++ (collect (port_relation n input "input_port") n.input_port_ids
              ++ collect (port_relation n output "output_port") n.output_port_ids))

  unfoldable pub port_missing : Port → List Unresolved
  unfolding missing_parameters
  port_missing p =
      unless (has p.node_id c.nodes_by_id)
        (absent_target "port" (id p.id) "node" "node" (id p.node_id))
      ++ missing_parameters "port" p.id p.parameter_ids

  -- A port that is there, and is not the endpoint that the link says.
  abbrev pub endpoint :
      Link → String → (port_id node_id : ℕ) → PortDirection → String → List Unresolved
  endpoint l relation port_id node_id d reason = elim (get port_id c.ports_by_id) [
    | none ↦ []
    | some port ↦ unless (port.node_id == node_id && same_direction port.direction d) (record {
      source_type = "link";
      source_id = id l.id;
      relation = relation;
      target_type = "port";
      target_id = id port_id;
      reason = reason;
    })
  ]

  unfoldable pub link_missing : Link → List Unresolved
  link_missing l =
      unless (has l.output_node_id c.nodes_by_id)
        (absent_target "link" (id l.id) "output_node" "node" (id l.output_node_id))
      ++ (unless (has l.input_node_id c.nodes_by_id)
            (absent_target "link" (id l.id) "input_node" "node" (id l.input_node_id))
          ++ (unless (has l.output_port_id c.ports_by_id)
                (absent_target "link" (id l.id) "output_port" "port" (id l.output_port_id))
              ++ (unless (has l.input_port_id c.ports_by_id)
                    (absent_target "link" (id l.id) "input_port" "port" (id l.input_port_id))
                  ++ (endpoint l "output_endpoint" l.output_port_id l.output_node_id output
                        "output port does not belong to the output node or has the wrong direction"
                      ++ endpoint l "input_endpoint" l.input_port_id l.input_node_id input
                          "input port does not belong to the input node or has the wrong direction"))))

  unfoldable pub profile_missing : Profile → List Unresolved
  profile_missing p =
      unless (has p.device_id c.devices_by_id)
        (absent_target "profile" (id p.index) "device" "device" (id p.device_id))

  unfoldable pub route_missing : Route → List Unresolved
  route_missing r =
      unless (has r.device_id c.devices_by_id)
        (absent_target "route" (id r.index) "device" "device" (id r.device_id))
      ++ collect
          (λ p.
            unless (has (r.device_id, p) c.profiles_by_key)
              (absent_target "route" (id r.index) "profile" "profile" (id p)))
          r.profile_ids

  -- `owner_indexes.get(owner_type)`, with the test on the index; `none` is an unknown type.
  unfoldable pub owner_present : String → ℕ → Option Bool
  owner_present owner i =
      if str_eq owner "device"
      then some (has i c.devices_by_id)
      else if str_eq owner "node"
      then some (has i c.nodes_by_id)
      else if str_eq owner "port"
      then some (has i c.ports_by_id)
      else if str_eq owner "link"
      then some (has i c.links_by_id)
      else if str_eq owner "metadata"
      then some (has i c.metadata_by_id)
      else none

  unfoldable pub parameter_missing : Builtins → Parameter → List Unresolved
  parameter_missing py p =
      let source = p.owner_type <> (":" <> (py.decimal p.owner_id <> (":" <> p.id))) in
      elim (owner_present p.owner_type p.owner_id) [
        | none ↦
            record {
              source_type = "parameter";
              source_id = name source;
              relation = "owner";
              target_type = p.owner_type;
              target_id = id p.owner_id;
              reason = "owner type is unsupported by this snapshot contract";
            }
            ∷ []
        | some found ↦
            unless found
              (absent_target "parameter" (name source) "owner" p.owner_type (id p.owner_id))
      ]

  abbrev pub resolved_node : String → Option ℕ → List Unresolved
  resolved_node field none = []
  resolved_node field (some n) =
      unless (has n c.nodes_by_id)
        (absent_target "defaults" (name field) "resolved_node" "node" (id n))

  abbrev pub default_target : String → Option DefaultTarget → List Unresolved
  default_target field none = []
  default_target field (some t) = resolved_node field t.resolved_node_id

  abbrev pub default_metadata : Option ℕ → List Unresolved
  default_metadata none = []
  default_metadata (some m) =
      unless (has m c.metadata_by_id)
        (absent_target "defaults" (name "defaults") "metadata" "metadata" (id m))

  unfoldable pub defaults_missing : List Unresolved
  defaults_missing =
      default_target "audio_sink" c.defaults.audio_sink
      ++ (default_target "audio_source" c.defaults.audio_source
          ++ (default_target "video_source" c.defaults.video_source
              ++ default_metadata c.defaults.metadata_id))

  -- `_find_unresolved_relationships`
  unfoldable pub find_unresolved : Builtins → List Unresolved
  find_unresolved py =
      collect device_missing c.devices
      ++ (collect node_missing c.nodes
          ++ (collect port_missing c.ports
              ++ (collect link_missing c.links
                  ++ (collect profile_missing c.profiles
                      ++ (collect route_missing c.routes
                          ++ (collect (parameter_missing py) c.parameters ++ defaults_missing))))))
