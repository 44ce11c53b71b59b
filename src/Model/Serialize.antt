-- ===== src/Model/Serialize.antt =====
-- The value objects as Python values: the VALUE_TYPE of each, and the fields that `to_dict` emits.
use wyreplumber.Prelude.{ℕ, pos, String, Option, none, some, List, [], ◌∷◌}
use wyreplumber.Value.{
  Value, null, bool, int, float, str, list, runtime, Items, nil, cons, Fields, end, field, text,
  dict,
}
use wyreplumber.Value.Envelope.{to_dict, serialize, serialize_fields}
use wyreplumber.Model.Objects.{
  PortDirection, Availability, NodeState, Device, Node, Port, Link, MetadataEntry, Metadata,
  Parameter, Profile, Route, DefaultTarget, input, output, available, unavailable, error, creating,
  suspended, idle, running,
}

number : ℕ → Value
number n = int (pos n)

optional {ℓ} : {A : Type ℓ} → (A → Value) → Option A → Value
optional f none = null
optional f (some a) = f a

items {ℓ} : {A : Type ℓ} → (A → Value) → List A → Items
items f [] = nil
items f (a ∷ rest) = cons (f a) (items f rest)

listed {ℓ} : {A : Type ℓ} → (A → Value) → List A → Value
unfolding items
listed f l = list (items f l)

mapped : Fields → Value
mapped fs = dict (serialize_fields fs)

unfoldable pub direction_text : PortDirection → String
direction_text input = "input"
direction_text output = "output"
direction_text PortDirection.unknown = "unknown"

unfoldable pub availability_text : Availability → String
availability_text available = "yes"
availability_text unavailable = "no"
availability_text Availability.unknown = "unknown"

unfoldable pub state_text : NodeState → String
state_text error = "error"
state_text creating = "creating"
state_text suspended = "suspended"
state_text idle = "idle"
state_text running = "running"
state_text NodeState.unknown = "unknown"

-- One entry of the mapping.
infixr 20 ◌↠◌
abbrev pub ◌↠◌ : String × Value → Fields → Fields
e ↠ fs = field (text e.0) e.1 fs

unfoldable pub device_value : Device → Value
unfolding number optional listed mapped
device_value d = runtime "device" (
    ("id", number d.id)
    ↠ ("name", optional str d.name)
    ↠ ("description", optional str d.description)
    ↠ ("media_class", optional str d.media_class)
    ↠ ("properties", mapped d.properties)
    ↠ ("parameter_ids", listed str d.parameter_ids)
    ↠ ("profile_ids", listed number d.profile_ids)
    ↠ ("route_ids", listed number d.route_ids)
    ↠ end)

unfoldable pub node_value : Node → Value
unfolding number optional listed mapped state_text
node_value n = runtime "node" (
    ("id", number n.id)
    ↠ ("device_id", optional number n.device_id)
    ↠ ("name", optional str n.name)
    ↠ ("description", optional str n.description)
    ↠ ("media_class", optional str n.media_class)
    ↠ ("state", str (state_text n.state))
    ↠ ("error", optional str n.error)
    ↠ ("input_port_ids", listed number n.input_port_ids)
    ↠ ("output_port_ids", listed number n.output_port_ids)
    ↠ ("properties", mapped n.properties)
    ↠ ("parameter_ids", listed str n.parameter_ids)
    ↠ end)

unfoldable pub port_value : Port → Value
unfolding number optional listed mapped direction_text
port_value p = runtime "port" (
    ("id", number p.id)
    ↠ ("node_id", number p.node_id)
    ↠ ("direction", str (direction_text p.direction))
    ↠ ("name", optional str p.name)
    ↠ ("channel", optional str p.channel)
    ↠ ("properties", mapped p.properties)
    ↠ ("parameter_ids", listed str p.parameter_ids)
    ↠ end)

unfoldable pub link_value : Link → Value
unfolding number optional mapped
link_value l = runtime "link" (
    ("id", number l.id)
    ↠ ("output_node_id", number l.output_node_id)
    ↠ ("output_port_id", number l.output_port_id)
    ↠ ("input_node_id", number l.input_node_id)
    ↠ ("input_port_id", number l.input_port_id)
    ↠ ("state", optional str l.state)
    ↠ ("owner", optional str l.owner)
    ↠ ("desired_id", optional str l.desired_id)
    ↠ ("properties", mapped l.properties)
    ↠ end)

unfoldable pub entry_value : MetadataEntry → Value
unfolding number optional
entry_value e = runtime "metadata_entry" (
    ("subject", number e.subject)
    ↠ ("key", str e.key)
    ↠ ("type_name", optional str e.type_name)
    ↠ ("value", optional str e.value)
    ↠ end)

unfoldable pub metadata_value : Metadata → Value
unfolding number optional listed mapped entry_value
metadata_value m = runtime "metadata" (
    ("id", number m.id)
    ↠ ("name", optional str m.name)
    ↠ ("properties", mapped m.properties)
    ↠ ("entries", listed (λ e. to_dict (entry_value e)) m.entries)
    ↠ end)

unfoldable pub parameter_value : Parameter → Value
unfolding number listed mapped
parameter_value p = runtime "parameter" (
    ("owner_type", str p.owner_type)
    ↠ ("owner_id", number p.owner_id)
    ↠ ("id", str p.id)
    ↠ ("permissions", str p.permissions)
    ↠ ("values", listed serialize p.values)
    ↠ ("properties", mapped p.properties)
    ↠ end)

unfoldable pub profile_value : Profile → Value
unfolding number optional listed mapped availability_text
profile_value p = runtime "profile" (
    ("device_id", number p.device_id)
    ↠ ("index", number p.index)
    ↠ ("name", str p.name)
    ↠ ("description", optional str p.description)
    ↠ ("priority", int p.priority)
    ↠ ("available", str (availability_text p.available))
    ↠ ("active", bool p.active)
    ↠ ("classes", listed str p.classes)
    ↠ ("properties", mapped p.properties)
    ↠ end)

unfoldable pub route_value : Route → Value
unfolding number optional listed mapped availability_text direction_text
route_value r = runtime "route" (
    ("device_id", number r.device_id)
    ↠ ("index", number r.index)
    ↠ ("direction", str (direction_text r.direction))
    ↠ ("name", str r.name)
    ↠ ("description", optional str r.description)
    ↠ ("priority", int r.priority)
    ↠ ("available", str (availability_text r.available))
    ↠ ("active", bool r.active)
    ↠ ("profile_ids", listed number r.profile_ids)
    ↠ ("volume", optional float r.volume)
    ↠ ("mute", optional bool r.mute)
    ↠ ("channel_volumes", listed float r.channel_volumes)
    ↠ ("channel_positions", listed serialize r.channel_positions)
    ↠ ("properties", mapped r.properties)
    ↠ end)

unfoldable pub target_value : DefaultTarget → Value
unfolding number optional
target_value t = runtime "default_target" (
    ("media_class", str t.media_class)
    ↠ ("configured_name", optional str t.configured_name)
    ↠ ("resolved_node_id", optional number t.resolved_node_id)
    ↠ end)
