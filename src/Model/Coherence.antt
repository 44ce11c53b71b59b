-- ===== src/Model/Coherence.antt =====
-- What `_find_unresolved_relationships` leaves out resolves.
use mathlib.Core.Path.{subst}
use wyreplumber.Prelude.{
  Option-cases, inl, inr, ℕ, String, List, [], true, ◌&&◌, Option, some, ◌≡◌, ap, ◌∙◌, ◌==◌, ==_iff,
  nat_eq, string_eq, pair_eq, &&_left, &&_right,
}
use wyreplumber.Builtins.{Builtins}
use wyreplumber.Model.Objects.{
  Device, Node, Port, Link, Profile, Route, Parameter, DefaultTarget, PortDirection, input, output,
}
use wyreplumber.Model.Contents.{Contents}
use wyreplumber.Model.Index.{get}
use wyreplumber.Model.Relations.{
  Unresolved, unless, same_direction, device_missing, node_missing, port_missing, link_missing,
  profile_missing, route_missing, parameter_missing, missing_parameters, port_relation, endpoint,
  device_of, owner_present, default_target, default_metadata, resolved_node,
}
use wyreplumber.Model.Resolves.{
  Found, has-Found, append-eq-nil, unless-nil, collect-All, same_direction-eq, PortOn,
  HasParameters, DeviceResolves, NodeResolves, PortResolves, LinkResolves, RouteResolves,
  DefaultResolves,
}

module _ (c : Contents) where
  pub parameters_resolve :
      (owner : String) (i : ℕ) (ids : List String)
      → missing_parameters c owner i ids ≡ []
      → HasParameters c owner i ids
  unfolding missing_parameters
  parameters_resolve owner i ids h =
      collect-All _ (λ p e. has-Found (owner, (i, p)) c.parameters_by_key (unless-nil _ _ e)) ids h

  pub device_resolves : (d : Device) → device_missing c d ≡ [] → DeviceResolves c d
  unfolding device_missing
  device_resolves d h =
      let (ps, rest) = append-eq-nil _ _ h in
      let (fs, rs) = append-eq-nil _ _ rest in
      record {
        parameters = parameters_resolve "device" d.id d.parameter_ids ps;
        profiles =
            collect-All _ (λ p e. has-Found (d.id, p) c.profiles_by_key (unless-nil _ _ e))
              d.profile_ids fs;
        routes =
            collect-All _ (λ p e. has-Found (d.id, p) c.routes_by_key (unless-nil _ _ e))
              d.route_ids rs;
      }

  pub port_resolves : (p : Port) → port_missing c p ≡ [] → PortResolves c p
  unfolding port_missing
  port_resolves p h =
      let (n, ps) = append-eq-nil _ _ h in
      record {
        node = has-Found p.node_id c.nodes_by_id (unless-nil _ _ n);
        parameters = parameters_resolve "port" p.id p.parameter_ids ps;
      }

  pub right_port :
      (port : Port) (node_id : ℕ) (d : PortDirection) (u : Unresolved)
      → unless (port.node_id == node_id && same_direction port.direction d) u ≡ []
      → (port.node_id ≡ node_id) × (port.direction ≡ d)
  right_port port node_id d u h =
      let both = unless-nil (port.node_id == node_id && same_direction port.direction d) u h in
      (
        (==_iff port.node_id node_id).0 (&&_left _ (same_direction port.direction d) both),
        same_direction-eq port.direction d (&&_right (port.node_id == node_id) _ both),
      )

  named_port :
      (n : Node) (d : PortDirection) (relation : String) (p : ℕ)
      → port_relation c n d relation p ≡ []
      → PortOn c p n.id d
  named_port n d relation p h = elim (Option-cases (get p c.ports_by_id)) [
    | inl gone ↦ cc (rw (gone, port_relation) at h)
    | inr (port, there) ↦
        let (owned, directed) = right_port port n.id d _ (rw (there, port_relation) at h) in
        (port, there, owned, directed)
  ]

  pub node_resolves : (n : Node) → node_missing c n ≡ [] → NodeResolves c n
  unfolding node_missing
  node_resolves n h =
      let (dev, rest) = append-eq-nil _ _ h in
      let (ps, ports) = append-eq-nil _ _ rest in
      let (ins, outs) = append-eq-nil _ _ ports in
      record {
        device = λ d e.
            has-Found d c.devices_by_id (unless-nil _ _ (subst (λ o. device_of c n o ≡ []) e dev));
        parameters = parameters_resolve "node" n.id n.parameter_ids ps;
        inputs = collect-All _ (named_port n input "input_port") n.input_port_ids ins;
        outputs = collect-All _ (named_port n output "output_port") n.output_port_ids outs;
      }

  link_end :
      (l : Link) (relation : String) (port_id node_id : ℕ) (d : PortDirection) (reason : String)
      → Found port_id c.ports_by_id
      → endpoint c l relation port_id node_id d reason ≡ []
      → PortOn c port_id node_id d
  link_end l relation port_id node_id d reason (port, there) h =
      let (owned, directed) = right_port port node_id d _ (rw (there, endpoint) at h) in
      (port, there, owned, directed)

  pub link_resolves : (l : Link) → link_missing c l ≡ [] → LinkResolves c l
  unfolding link_missing
  link_resolves l h =
      let (a, h₁) = append-eq-nil _ _ h in
      let (b, h₂) = append-eq-nil _ _ h₁ in
      let (x, h₃) = append-eq-nil _ _ h₂ in
      let (y, h₄) = append-eq-nil _ _ h₃ in
      let (o, i) = append-eq-nil _ _ h₄ in
      record {
        output_node = has-Found l.output_node_id c.nodes_by_id (unless-nil _ _ a);
        input_node = has-Found l.input_node_id c.nodes_by_id (unless-nil _ _ b);
        output_port =
            link_end l _ l.output_port_id l.output_node_id output _
              (has-Found l.output_port_id c.ports_by_id (unless-nil _ _ x)) o;
        input_port =
            link_end l _ l.input_port_id l.input_node_id input _
              (has-Found l.input_port_id c.ports_by_id (unless-nil _ _ y)) i;
      }

  pub profile_resolves :
      (p : Profile) → profile_missing c p ≡ [] → Found p.device_id c.devices_by_id
  unfolding profile_missing
  profile_resolves p h = has-Found p.device_id c.devices_by_id (unless-nil _ _ h)

  pub route_resolves : (r : Route) → route_missing c r ≡ [] → RouteResolves c r
  unfolding route_missing
  route_resolves r h =
      let (d, ps) = append-eq-nil _ _ h in
      record {
        device = has-Found r.device_id c.devices_by_id (unless-nil _ _ d);
        profiles =
            collect-All _ (λ p e. has-Found (r.device_id, p) c.profiles_by_key (unless-nil _ _ e))
              r.profile_ids ps;
      }

  pub parameter_resolves :
      (py : Builtins) (p : Parameter)
      → parameter_missing c py p ≡ []
      → owner_present c p.owner_type p.owner_id ≡ some true
  unfolding parameter_missing
  parameter_resolves py p h = elim (Option-cases (owner_present c p.owner_type p.owner_id)) [
    | inl unknown ↦ cc (rw (unknown, parameter_missing) at h)
    | inr (found, known) ↦ known ∙ ap some (unless-nil found _ (rw (known, parameter_missing) at h))
  ]

  pub default_resolves :
      (field : String) (t : Option DefaultTarget)
      → default_target c field t ≡ []
      → DefaultResolves c t
  default_resolves field t h d e n named = has-Found n c.nodes_by_id (
      unless-nil _ _ (
        subst (λ o. resolved_node c field o ≡ []) named
          (subst (λ o. default_target c field o ≡ []) e h)))

  pub metadata_resolves :
      (o : Option ℕ) → default_metadata c o ≡ [] → (m : ℕ) → o ≡ some m → Found m c.metadata_by_id
  metadata_resolves o h m e =
      has-Found m c.metadata_by_id (unless-nil _ _ (subst (λ o. default_metadata c o ≡ []) e h))
