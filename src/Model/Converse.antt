-- ===== src/Model/Converse.antt =====
-- Where everything resolves, `_find_unresolved_relationships` finds nothing.
use wyreplumber.Prelude.{
  ℕ, String, List, [], ◌∷◌, ◌++◌, true, ◌&&◌, Option, none, some, ◌≡◌, refl, ◌==◌, ==_iff, Eq,
  nat_eq, string_eq, pair_eq, if_true,
}
use wyreplumber.Builtins.{Builtins}
use wyreplumber.Model.Objects.{
  Device, Node, Port, Link, Profile, Route, Parameter, DefaultTarget, PortDirection, input, output,
}
use wyreplumber.Model.Contents.{Contents}
use wyreplumber.Model.Index.{has}
use wyreplumber.Model.Relations.{
  Unresolved, unless, same_direction, device_missing, node_missing, port_missing, link_missing,
  profile_missing, route_missing, parameter_missing, defaults_missing, find_unresolved,
  missing_parameters, port_relation, endpoint, device_of, default_target, default_metadata,
  resolved_node, owner_present,
}
use wyreplumber.Model.Resolves.{
  Found, Found-has, All-collect, same_direction_self, PortOn, HasParameters, DeviceResolves,
  NodeResolves, PortResolves, LinkResolves, RouteResolves, DefaultResolves, Resolves,
}

append_nils {ℓ} : {A : Type ℓ} {xs ys : List A} → xs ≡ [] → ys ≡ [] → xs ++ ys ≡ []
append_nils e f = rw (e, f) refl

module _ {ℓ κ} {K : Type ℓ} {V : Type κ} ⦃e : Eq K⦄ where
  silent : (k : K) (m : List (K × V)) (u : Unresolved) → Found k m → unless (has k m) u ≡ []
  silent k m u f = if_true (has k m) [] (u ∷ []) (Found-has k m f)

module _ (c : Contents) where
  parameters_found :
      (owner : String) (i : ℕ) (ids : List String)
      → HasParameters c owner i ids
      → missing_parameters c owner i ids ≡ []
  unfolding missing_parameters
  parameters_found owner i ids =
      All-collect _ (λ p. silent (owner, (i, p)) c.parameters_by_key _) ids

  device_found : (d : Device) → DeviceResolves c d → device_missing c d ≡ []
  unfolding device_missing
  device_found d r = append_nils (parameters_found "device" d.id d.parameter_ids r.parameters) (
      append_nils
        (All-collect _ (λ p. silent (d.id, p) c.profiles_by_key _) d.profile_ids r.profiles)
        (All-collect _ (λ p. silent (d.id, p) c.routes_by_key _) d.route_ids r.routes))

  port_found : (p : Port) → PortResolves c p → port_missing c p ≡ []
  unfolding port_missing
  port_found p r =
      append_nils (silent p.node_id c.nodes_by_id _ r.node)
        (parameters_found "port" p.id p.parameter_ids r.parameters)

  matching :
      (port : Port) (node_id : ℕ) (d : PortDirection) (u : Unresolved)
      → port.node_id ≡ node_id
      → port.direction ≡ d
      → unless (port.node_id == node_id && same_direction port.direction d) u ≡ []
  matching port node_id d u owned directed =
      if_true (port.node_id == node_id && same_direction port.direction d) [] (u ∷ [])
        (rw ((==_iff port.node_id node_id).1 owned, directed) (same_direction_self d))

  port_named :
      (n : Node) (d : PortDirection) (relation : String) (p : ℕ)
      → PortOn c p n.id d
      → port_relation c n d relation p ≡ []
  port_named n d relation p (port, there, owned, directed) =
      rw (there, port_relation) (matching port n.id d _ owned directed)

  device_named :
      (n : Node) (o : Option ℕ)
      → ((d : ℕ) → o ≡ some d → Found d c.devices_by_id)
      → device_of c n o ≡ []
  device_named n none h = refl
  device_named n (some d) h = silent d c.devices_by_id _ (h d refl)

  node_found : (n : Node) → NodeResolves c n → node_missing c n ≡ []
  unfolding node_missing
  node_found n r = append_nils (device_named n n.device_id r.device) (
      append_nils (parameters_found "node" n.id n.parameter_ids r.parameters) (
        append_nils (All-collect _ (port_named n input "input_port") n.input_port_ids r.inputs)
          (All-collect _ (port_named n output "output_port") n.output_port_ids r.outputs)))

  end_found :
      (l : Link) (relation : String) (port_id node_id : ℕ) (d : PortDirection) (reason : String)
      → PortOn c port_id node_id d
      → endpoint c l relation port_id node_id d reason ≡ []
  end_found l relation port_id node_id d reason (port, there, owned, directed) =
      rw (there, endpoint) (matching port node_id d _ owned directed)

  abbrev port_of :
      (port_id node_id : ℕ) (d : PortDirection)
      → PortOn c port_id node_id d
      → Found port_id c.ports_by_id
  port_of port_id node_id d (port, there, owned, directed) = (port, there)

  link_found : (l : Link) → LinkResolves c l → link_missing c l ≡ []
  unfolding link_missing
  link_found l r = append_nils (silent l.output_node_id c.nodes_by_id _ r.output_node) (
      append_nils (silent l.input_node_id c.nodes_by_id _ r.input_node) (
        append_nils (silent l.output_port_id c.ports_by_id _ (port_of _ _ _ r.output_port)) (
          append_nils (silent l.input_port_id c.ports_by_id _ (port_of _ _ _ r.input_port)) (
            append_nils (end_found l _ l.output_port_id l.output_node_id output _ r.output_port)
              (end_found l _ l.input_port_id l.input_node_id input _ r.input_port)))))

  route_found : (r : Route) → RouteResolves c r → route_missing c r ≡ []
  unfolding route_missing
  route_found r h =
      append_nils (silent r.device_id c.devices_by_id _ h.device)
        (All-collect _ (λ p. silent (r.device_id, p) c.profiles_by_key _) r.profile_ids h.profiles)

  profile_found : (p : Profile) → Found p.device_id c.devices_by_id → profile_missing c p ≡ []
  unfolding profile_missing
  profile_found p h = silent p.device_id c.devices_by_id _ h

  parameter_found :
      (py : Builtins) (p : Parameter)
      → owner_present c p.owner_type p.owner_id ≡ some true
      → parameter_missing c py p ≡ []
  unfolding parameter_missing
  parameter_found py p h = rw (h, parameter_missing) refl

  resolved_found :
      (field : String) (o : Option ℕ)
      → ((n : ℕ) → o ≡ some n → Found n c.nodes_by_id)
      → resolved_node c field o ≡ []
  resolved_found field none h = refl
  resolved_found field (some n) h = silent n c.nodes_by_id _ (h n refl)

  default_found :
      (field : String) (t : Option DefaultTarget)
      → DefaultResolves c t
      → default_target c field t ≡ []
  default_found field none h = refl
  default_found field (some t) h = resolved_found field t.resolved_node_id (h t refl)

  metadata_found :
      (o : Option ℕ) → ((m : ℕ) → o ≡ some m → Found m c.metadata_by_id) → default_metadata c o ≡ []
  metadata_found none h = refl
  metadata_found (some m) h = silent m c.metadata_by_id _ (h m refl)

  defaults_found : Resolves c → defaults_missing c ≡ []
  unfolding defaults_missing
  defaults_found r = append_nils (default_found "audio_sink" c.defaults.audio_sink r.audio_sink) (
      append_nils (default_found "audio_source" c.defaults.audio_source r.audio_source) (
        append_nils (default_found "video_source" c.defaults.video_source r.video_source)
          (metadata_found c.defaults.metadata_id r.metadata)))

  pub everything_found : (py : Builtins) → Resolves c → find_unresolved c py ≡ []
  unfolding find_unresolved
  everything_found py r =
      append_nils (All-collect (device_missing c) device_found c.devices r.devices) (
        append_nils (All-collect (node_missing c) node_found c.nodes r.nodes) (
          append_nils (All-collect (port_missing c) port_found c.ports r.ports) (
            append_nils (All-collect (link_missing c) link_found c.links r.links) (
              append_nils (All-collect (profile_missing c) profile_found c.profiles r.profiles) (
                append_nils (All-collect (route_missing c) route_found c.routes r.routes) (
                  append_nils
                    (All-collect (parameter_missing c py) (parameter_found py) c.parameters
                      r.parameters)
                    (defaults_found r)))))))
