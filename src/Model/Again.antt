-- ===== src/Model/Again.antt =====
-- Value objects are accepted again with their own fields: what their constructors returned is valid.
use wyreplumber.Prelude.{
  ℕ, ℤ, pos, String, Bool, false, Option, none, some, List, [], ◌∷◌, ok, ◌≡◌, refl, arith, inl, inr,
  >>=-eq-ok, ok_eq, Bool-cases, Option-cases, traverse, str_eq,
}
use wyreplumber.Value.{
  Value, null, bool, int, str, str_member, tuple, frozen, Items, nil, cons, Fields,
}
use wyreplumber.Value.Checks.{
  integer, identifier, required_string, optional_identifier, optional_string, boolean, sequence,
  identifiers, strings, enum, as_text, to_list,
}
use wyreplumber.Value.Json.{mapping}
use wyreplumber.Model.Objects.{
  NodeState, PortDirection, Availability, Device, Node, Port, Link, Profile, input, output,
  available, unavailable, error, creating, suspended, idle, running,
}
use wyreplumber.Model.Serialize.{direction_text, availability_text, state_text}
use wyreplumber.Model.Construct.{
  node_state, port_direction, availability, DeviceFields, NodeFields, PortFields, LinkFields,
  ProfileFields,
}

abbrev pub of_optional {ℓ} : {A : Type ℓ} → (A → Value) → Option A → Value
of_optional f none = null
of_optional f (some a) = f a

abbrev pub of_list {ℓ} : {A : Type ℓ} → (A → Value) → List A → Items
of_list f [] = nil
of_list f (a ∷ l) = cons (f a) (of_list f l)

abbrev pub device_fields : Device → DeviceFields
device_fields o = record {
  id = int (pos o.id);
  name = of_optional str o.name;
  description = of_optional str o.description;
  media_class = of_optional str o.media_class;
  properties = frozen o.properties;
  parameter_ids = tuple (of_list str o.parameter_ids);
  profile_ids = tuple (of_list (λ n. int (pos n)) o.profile_ids);
  route_ids = tuple (of_list (λ n. int (pos n)) o.route_ids);
}

abbrev pub node_fields : Node → NodeFields
node_fields o = record {
  id = int (pos o.id);
  device_id = of_optional (λ n. int (pos n)) o.device_id;
  name = of_optional str o.name;
  description = of_optional str o.description;
  media_class = of_optional str o.media_class;
  error = of_optional str o.error;
  state = str_member (state_text o.state);
  input_port_ids = tuple (of_list (λ n. int (pos n)) o.input_port_ids);
  output_port_ids = tuple (of_list (λ n. int (pos n)) o.output_port_ids);
  properties = frozen o.properties;
  parameter_ids = tuple (of_list str o.parameter_ids);
}

abbrev pub port_fields : Port → PortFields
port_fields o = record {
  id = int (pos o.id);
  node_id = int (pos o.node_id);
  direction = str_member (direction_text o.direction);
  name = of_optional str o.name;
  channel = of_optional str o.channel;
  properties = frozen o.properties;
  parameter_ids = tuple (of_list str o.parameter_ids);
}

abbrev pub link_fields : Link → LinkFields
link_fields o = record {
  id = int (pos o.id);
  output_node_id = int (pos o.output_node_id);
  output_port_id = int (pos o.output_port_id);
  input_node_id = int (pos o.input_node_id);
  input_port_id = int (pos o.input_port_id);
  state = of_optional str o.state;
  owner = of_optional str o.owner;
  desired_id = of_optional str o.desired_id;
  properties = frozen o.properties;
}

abbrev pub profile_fields : Profile → ProfileFields
profile_fields o = record {
  device_id = int (pos o.device_id);
  index = int (pos o.index);
  name = str o.name;
  description = of_optional str o.description;
  priority = int o.priority;
  available = str_member (availability_text o.available);
  active = bool o.active;
  classes = tuple (of_list str o.classes);
  properties = frozen o.properties;
}

pub identifier_again : (n : ℕ) → identifier (int (pos n)) ≡ ok n
unfolding identifier integer
identifier_again n = refl

pub integer_again : (z : ℤ) → integer (int z) ≡ ok z
unfolding integer
integer_again z = refl

pub boolean_again : (b : Bool) → boolean (bool b) ≡ ok b
unfolding boolean
boolean_again b = refl

pub mapping_again : (fs : Fields) → mapping (frozen fs) ≡ ok fs
unfolding mapping
mapping_again fs = refl

pub optional_identifier_again :
    (o : Option ℕ) → optional_identifier (of_optional (λ n. int (pos n)) o) ≡ ok o
unfolding optional_identifier identifier integer
optional_identifier_again none = refl
optional_identifier_again (some n) = refl

pub optional_string_again : (o : Option String) → optional_string (of_optional str o) ≡ ok o
unfolding optional_string required_string
optional_string_again none = refl
optional_string_again (some s) = refl

not_empty : (v : Value) (s : String) → required_string false v ≡ ok s → str_eq s "" ≡ false
unfolding required_string
not_empty v s h = elim (Option-cases (as_text v)) [
  | inl other ↦ absurd (ground (arith, other, h))
  | inr (t, read) ↦ elim (Bool-cases (str_eq t "")) [
    | inl empty ↦ absurd (ground (arith, read, empty, h))
    | inr full ↦ let same : t ≡ s = ground (arith, read, full, h) in rw (← same) full
  ]
]

pub required_string_again :
    (v : Value) (s : String) → required_string false v ≡ ok s → required_string false (str s) ≡ ok s
unfolding required_string
required_string_again v s h = ground (arith, not_empty v s h)

numbers_again :
    (ns : List ℕ) → traverse identifier (to_list (of_list (λ n. int (pos n)) ns)) ≡ ok ns
numbers_again [] = refl
numbers_again (n ∷ ns) = rw (identifier_again n, numbers_again ns)

pub identifiers_again : (ns : List ℕ) → identifiers (tuple (of_list (λ n. int (pos n)) ns)) ≡ ok ns
unfolding identifiers sequence
identifiers_again ns = numbers_again ns

texts_again :
    (vs : List Value) (ss : List String)
    → traverse (required_string false) vs ≡ ok ss
    → traverse (required_string false) (to_list (of_list str ss)) ≡ ok ss
texts_again [] ss h = rw (← ok_eq h)
texts_again (v ∷ vs) ss h =
    let (s, first, after) = >>=-eq-ok (required_string false v) _ h in
    let (rest, others, done) = >>=-eq-ok (traverse (required_string false) vs) _ after in
    rw (← ok_eq done) (rw (required_string_again v s first, texts_again vs rest others))

pub strings_again :
    (v : Value) (ss : List String) → strings v ≡ ok ss → strings (tuple (of_list str ss)) ≡ ok ss
unfolding strings sequence
strings_again v ss h =
    let (vs, read, checked) = >>=-eq-ok (sequence v) _ h in texts_again vs ss checked

pub node_state_again : (s : NodeState) → enum node_state (str_member (state_text s)) ≡ ok s
unfolding enum node_state state_text
node_state_again error = refl
node_state_again creating = refl
node_state_again suspended = refl
node_state_again idle = refl
node_state_again running = refl
node_state_again NodeState.unknown = refl

pub port_direction_again :
    (d : PortDirection) → enum port_direction (str_member (direction_text d)) ≡ ok d
unfolding enum port_direction direction_text
port_direction_again input = refl
port_direction_again output = refl
port_direction_again PortDirection.unknown = refl

pub availability_again :
    (a : Availability) → enum availability (str_member (availability_text a)) ≡ ok a
unfolding enum availability availability_text
availability_again available = refl
availability_again unavailable = refl
availability_again Availability.unknown = refl
