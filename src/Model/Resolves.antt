-- ===== src/Model/Resolves.antt =====
-- What it means that the relationships of a snapshot resolve.
use wyreplumber.Prelude.{
  ℕ, String, List, [], ◌∷◌, ◌++◌, Bool, true, false, Option, some, ◌≡◌, refl, All, Eq, nat_eq,
  string_eq, pair_eq, collect, arith,
}
use wyreplumber.Model.Objects.{
  Device, Node, Port, Link, Profile, Route, Parameter, DefaultTarget, PortDirection, input, output,
}
use wyreplumber.Model.Contents.{Contents}
use wyreplumber.Model.Index.{get, has}
use wyreplumber.Model.Relations.{Unresolved, owner_present, unless, same_direction}

-- The key leads to a value.
abbrev pub Found {ℓ κ} : {K : Type ℓ} {V : Type κ} ⦃e : Eq K⦄ → K → List (K × V) → Type κ
Found {V} k m = (v : V) × (get k m ≡ some v)

module _ {ℓ κ} {K : Type ℓ} {V : Type κ} ⦃e : Eq K⦄ (k : K) (m : List (K × V)) where
  pub has-Found : has k m ≡ true → Found k m
  unfolding has
  has-Found h = ground arith

  pub Found-has : Found k m → has k m ≡ true
  unfolding has
  Found-has (v, h) = rw (h, has)

pub append-eq-nil {ℓ} : {A : Type ℓ} (xs ys : List A) → xs ++ ys ≡ [] → (xs ≡ []) × (ys ≡ [])
append-eq-nil [] ys h = (refl, h)
append-eq-nil (x ∷ xs) ys h = cc

pub unless-nil : (b : Bool) (u : Unresolved) → unless b u ≡ [] → b ≡ true
unless-nil true u h = refl
unless-nil false u h = cc

module _ {ℓ κ} {A : Type ℓ} {B : Type κ} {P : A → Type ℓ} (f : A → List B) where
  pub collect-All : ((x : A) → f x ≡ [] → P x) → (xs : List A) → collect f xs ≡ [] → All P xs
  unfolding collect
  collect-All step [] h = tt
  collect-All step (x ∷ xs) h =
      let (here, there) = append-eq-nil (f x) (collect f xs) h in
      (step x here, collect-All step xs there)

  pub All-collect : ((x : A) → P x → f x ≡ []) → (xs : List A) → All P xs → collect f xs ≡ []
  unfolding collect
  All-collect step [] h = refl
  All-collect step (x ∷ xs) h = rw (step x h.0, All-collect step xs h.1)

pub same_direction-eq : (a b : PortDirection) → same_direction a b ≡ true → a ≡ b
unfolding same_direction
same_direction-eq a b h = ground arith

pub same_direction_self : (a : PortDirection) → same_direction a a ≡ true
unfolding same_direction
same_direction_self a = ground arith

module _ (c : Contents) where
  -- A port that is there, on the node and in the direction that are said.
  abbrev pub PortOn : (port_id node_id : ℕ) → PortDirection → Type 0
  PortOn port_id node_id d =
      (p : Port) × (get port_id c.ports_by_id ≡ some p) × (p.node_id ≡ node_id) × (p.direction ≡ d)

  abbrev pub HasParameters : String → ℕ → List String → Type 0
  HasParameters owner i ids = All (λ p. Found (owner, (i, p)) c.parameters_by_key) ids

  pub record DeviceResolves (d : Device) : Type 0 where
    pub parameters : HasParameters "device" d.id d.parameter_ids
    pub profiles : All (λ p. Found (d.id, p) c.profiles_by_key) d.profile_ids
    pub routes : All (λ r. Found (d.id, r) c.routes_by_key) d.route_ids

  pub record NodeResolves (n : Node) : Type 0 where
    pub device : (d : ℕ) → n.device_id ≡ some d → Found d c.devices_by_id
    pub parameters : HasParameters "node" n.id n.parameter_ids
    pub inputs : All (λ p. PortOn p n.id input) n.input_port_ids
    pub outputs : All (λ p. PortOn p n.id output) n.output_port_ids

  pub record PortResolves (p : Port) : Type 0 where
    pub node : Found p.node_id c.nodes_by_id
    pub parameters : HasParameters "port" p.id p.parameter_ids

  pub record LinkResolves (l : Link) : Type 0 where
    pub output_node : Found l.output_node_id c.nodes_by_id
    pub input_node : Found l.input_node_id c.nodes_by_id
    pub output_port : PortOn l.output_port_id l.output_node_id output
    pub input_port : PortOn l.input_port_id l.input_node_id input

  pub record RouteResolves (r : Route) : Type 0 where
    pub device : Found r.device_id c.devices_by_id
    pub profiles : All (λ p. Found (r.device_id, p) c.profiles_by_key) r.profile_ids

  -- A default that is set and names a node names one of the snapshot.
  abbrev pub DefaultResolves : Option DefaultTarget → Type 0
  DefaultResolves t =
      (d : DefaultTarget)
      → t ≡ some d
      → (n : ℕ) → d.resolved_node_id ≡ some n
      → Found n c.nodes_by_id

  pub record Resolves : Type 0 where
    pub devices : All DeviceResolves c.devices
    pub nodes : All NodeResolves c.nodes
    pub ports : All PortResolves c.ports
    pub links : All LinkResolves c.links
    pub profiles : All (λ (p : Profile). Found p.device_id c.devices_by_id) c.profiles
    pub routes : All RouteResolves c.routes
    pub parameters :
        All (λ (p : Parameter). owner_present c p.owner_type p.owner_id ≡ some true) c.parameters
    pub audio_sink : DefaultResolves c.defaults.audio_sink
    pub audio_source : DefaultResolves c.defaults.audio_source
    pub video_source : DefaultResolves c.defaults.video_source
    pub metadata : (m : ℕ) → c.defaults.metadata_id ≡ some m → Found m c.metadata_by_id
