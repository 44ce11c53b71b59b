-- ===== src/Model/Parts.antt =====
-- The constructors of metadata, parameters, defaults and connection health
-- (src/wyreplumber/runtime/models.py), and the validators of floats and of nested values.
use wyreplumber.Prelude.{
  ℕ, String, Bool, true, false, not, Option, none, some, List, [], ◌∷◌, Result, ok, type_error,
  value_error, ◌>>=◌, ◌>>◌, require, if◌then◌else◌, str_eq, traverse,
}
use wyreplumber.Value.{Value, null, runtime}
use wyreplumber.Value.Checks.{
  identifier, identity, required_string, optional_identifier, optional_string, boolean, sequence,
  enum,
}
use wyreplumber.Value.Floats.{is_finite, is_negative, is_number, to_double}
use wyreplumber.Value.Json.{mapping, contract_value}
use wyreplumber.Builtins.{Builtins}
use wyreplumber.Model.Objects.{
  ConnectionState, ConnectionHealth, MetadataEntry, Metadata, Parameter, DefaultTarget, Defaults,
  connecting, connected, degraded, reconnecting, disconnected, stopped,
}
use wyreplumber.Model.Relations.{Unresolved}

-- `_float`
unfoldable pub non_negative_float : Builtins → Value → Result ℕ
non_negative_float py v = do
  require (is_number v) type_error
  x ← to_double py v
  require (is_finite x) value_error
  require (not (is_negative x)) value_error
  ok x

-- `_optional_float`
unfoldable pub optional_float : Builtins → Value → Result (Option ℕ)
unfolding non_negative_float
optional_float py null = ok none
optional_float py v = do x ← non_negative_float py v; ok (some x)

-- `_floats`
unfoldable pub non_negative_floats : Builtins → Value → Result (List ℕ)
unfolding non_negative_float
non_negative_floats py v = do vs ← sequence v; traverse (non_negative_float py) vs

-- `_optional_boolean`
unfoldable pub optional_boolean : Value → Result (Option Bool)
unfolding boolean
optional_boolean null = ok none
optional_boolean v = do b ← boolean v; ok (some b)

-- `isinstance(item, expected)`, for the class with the VALUE_TYPE
abbrev pub is_runtime : String → Value → Bool
is_runtime expected (runtime t fs) = str_eq t expected
is_runtime expected _ = false

abbrev pub all_runtime : String → List Value → Bool
all_runtime expected [] = true
all_runtime expected (v ∷ vs) =
    let rest = all_runtime expected vs in if is_runtime expected v then rest else false

-- `_runtime_values`, for the class with the VALUE_TYPE
unfoldable pub runtime_values : (expected : String) → Value → Result (List Value)
runtime_values expected v = do vs ← sequence v; require (all_runtime expected vs) type_error; ok vs

-- `ConnectionState(text)`
unfoldable pub connection_state : String → Option ConnectionState
connection_state s =
    if str_eq s "connecting"
    then some connecting
    else if str_eq s "connected"
    then some connected
    else if str_eq s "degraded"
    then some degraded
    else if str_eq s "reconnecting"
    then some reconnecting
    else if str_eq s "disconnected"
    then some disconnected
    else if str_eq s "stopped"
    then some stopped
    else none

-- `ConnectionHealthValue.__post_init__`
unfoldable pub make_health : (state generation reason details : Value) → Result ConnectionHealth
make_health state generation reason details = do
  s ← enum connection_state state
  g ← identifier generation
  r ← optional_string reason
  d ← mapping details
  ok (record { state = s; generation = g; reason = r; details = d })

-- `MetadataEntryValue.__post_init__`
unfoldable pub make_entry : (subject key type_name value : Value) → Result MetadataEntry
make_entry subject key type_name value = do
  s ← identifier subject
  k ← required_string false key
  t ← optional_string type_name
  v ← optional_string value
  ok (record { subject = s; key = k; type_name = t; value = v })

-- `MetadataValue.__post_init__`, with entries that are MetadataEntryValues
unfoldable pub make_metadata : (id name properties : Value) → List MetadataEntry → Result Metadata
make_metadata id name properties entries = do
  i ← identifier id
  n ← optional_string name
  p ← mapping properties
  ok (record { id = i; name = n; properties = p; entries = entries })

-- `ParameterValue.__post_init__`
unfoldable pub make_parameter :
    (owner_type owner_id id permissions values properties : Value) → Result Parameter
make_parameter owner_type owner_id id permissions values properties = do
  t ← required_string false owner_type
  o ← identifier owner_id
  i ← required_string false id
  m ← required_string true permissions
  vs ← sequence values
  frozen ← traverse contract_value vs
  p ← mapping properties
  ok (record {
    owner_type = t;
    owner_id = o;
    id = i;
    permissions = m;
    values = frozen;
    properties = p;
  })

-- `DefaultTargetValue.__post_init__`
unfoldable pub make_target :
    (media_class configured_name resolved_node_id : Value) → Result DefaultTarget
make_target media_class configured_name resolved_node_id = do
  c ← required_string false media_class
  n ← optional_string configured_name
  r ← optional_identifier resolved_node_id
  ok (record { media_class = c; configured_name = n; resolved_node_id = r })

-- `DefaultsValue.__post_init__`, with targets that are DefaultTargetValues or None
unfoldable pub make_defaults :
    (metadata_id : Value)
    → (audio_sink audio_source video_source : Option DefaultTarget) → (extra : Value)
    → Result Defaults
make_defaults metadata_id audio_sink audio_source video_source extra = do
  m ← optional_identifier metadata_id
  e ← mapping extra
  ok (record {
    metadata_id = m;
    audio_sink = audio_sink;
    audio_source = audio_source;
    video_source = video_source;
    extra = e;
  })

-- `UnresolvedRelationshipValue.__post_init__`
unfoldable pub make_unresolved :
    (source_type source_id relation target_type target_id reason : Value) → Result Unresolved
make_unresolved source_type source_id relation target_type target_id reason = do
  st ← required_string false source_type
  si ← identity source_id
  r ← required_string false relation
  kind ← required_string false target_type
  ti ← identity target_id
  why ← required_string false reason
  ok (record {
    source_type = st;
    source_id = si;
    relation = r;
    target_type = kind;
    target_id = ti;
    reason = why;
  })
