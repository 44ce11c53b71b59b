-- ===== src/Model/Contents.antt =====
-- The collections of a snapshot with their indexes, as `RuntimeSnapshot.__post_init__` builds them.
use wyreplumber.Prelude.{ℕ, String, List, Result, ok, ◌>>=◌, nat_eq, string_eq, pair_eq}
use wyreplumber.Model.Objects.{
  Device, Node, Port, Link, Metadata, Parameter, Profile, Route, Defaults,
}
use wyreplumber.Model.Index.{unique_index}

abbrev pub ParameterKey : Type 0
ParameterKey = String × (ℕ × String)

abbrev pub parameter_key : Parameter → ParameterKey
parameter_key p = (p.owner_type, (p.owner_id, p.id))

abbrev pub profile_key : Profile → ℕ × ℕ
profile_key p = (p.device_id, p.index)

abbrev pub route_key : Route → ℕ × ℕ
route_key r = (r.device_id, r.index)

-- What the constructor is given.
pub record Collections : Type 0 where
  pub devices : List Device
  pub nodes : List Node
  pub ports : List Port
  pub links : List Link
  pub metadata : List Metadata
  pub parameters : List Parameter
  pub profiles : List Profile
  pub routes : List Route
  pub defaults : Defaults

pub record Contents : Type 0 where
  pub collections : Collections
  pub open collections use *
  pub devices_by_id : List (ℕ × Device)
  pub nodes_by_id : List (ℕ × Node)
  pub ports_by_id : List (ℕ × Port)
  pub links_by_id : List (ℕ × Link)
  pub metadata_by_id : List (ℕ × Metadata)
  pub parameters_by_key : List (ParameterKey × Parameter)
  pub profiles_by_key : List ((ℕ × ℕ) × Profile)
  pub routes_by_key : List ((ℕ × ℕ) × Route)

-- The indexes, built in the order of the source.
unfoldable pub index_collections : Collections → Result Contents
index_collections c = do
  devices ← unique_index (λ d. d.id) c.devices
  nodes ← unique_index (λ n. n.id) c.nodes
  ports ← unique_index (λ p. p.id) c.ports
  links ← unique_index (λ l. l.id) c.links
  metadata ← unique_index (λ m. m.id) c.metadata
  parameters ← unique_index parameter_key c.parameters
  profiles ← unique_index profile_key c.profiles
  routes ← unique_index route_key c.routes
  ok (record {
    collections = c;
    devices_by_id = devices;
    nodes_by_id = nodes;
    ports_by_id = ports;
    links_by_id = links;
    metadata_by_id = metadata;
    parameters_by_key = parameters;
    profiles_by_key = profiles;
    routes_by_key = routes;
  })
