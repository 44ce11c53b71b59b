-- ===== src/Model/Objects.antt =====
-- The value objects of src/wyreplumber/runtime/models.py, as their constructors leave them.
-- Properties and other mappings are the entries of a FrozenDict.
use wyreplumber.Prelude.{ℕ, ℤ, String, Bool, Option, List}
use wyreplumber.Value.{Value, Fields}

pub data ConnectionState : Type 0 where
  connecting connected degraded reconnecting disconnected stopped : ConnectionState

pub data NodeState : Type 0 where
  error creating suspended idle running unknown : NodeState

pub data PortDirection : Type 0 where
  input output unknown : PortDirection

pub data Availability : Type 0 where
  available unavailable unknown : Availability

pub record ConnectionHealth : Type 0 where
  pub state : ConnectionState
  pub generation : ℕ
  pub reason : Option String
  pub details : Fields

pub record Device : Type 0 where
  pub id : ℕ
  pub name : Option String
  pub description : Option String
  pub media_class : Option String
  pub properties : Fields
  pub parameter_ids : List String
  pub profile_ids : List ℕ
  pub route_ids : List ℕ

pub record Node : Type 0 where
  pub id : ℕ
  pub device_id : Option ℕ
  pub name : Option String
  pub description : Option String
  pub media_class : Option String
  pub state : NodeState
  pub error : Option String
  pub input_port_ids : List ℕ
  pub output_port_ids : List ℕ
  pub properties : Fields
  pub parameter_ids : List String

pub record Port : Type 0 where
  pub id : ℕ
  pub node_id : ℕ
  pub direction : PortDirection
  pub name : Option String
  pub channel : Option String
  pub properties : Fields
  pub parameter_ids : List String

pub record Link : Type 0 where
  pub id : ℕ
  pub output_node_id : ℕ
  pub output_port_id : ℕ
  pub input_node_id : ℕ
  pub input_port_id : ℕ
  pub state : Option String
  pub owner : Option String
  pub desired_id : Option String
  pub properties : Fields

pub record MetadataEntry : Type 0 where
  pub subject : ℕ
  pub key : String
  pub type_name : Option String
  pub value : Option String

pub record Metadata : Type 0 where
  pub id : ℕ
  pub name : Option String
  pub properties : Fields
  pub entries : List MetadataEntry

-- The values are frozen, or RuntimeValues.
pub record Parameter : Type 0 where
  pub owner_type : String
  pub owner_id : ℕ
  pub id : String
  pub permissions : String
  pub values : List Value
  pub properties : Fields

pub record Profile : Type 0 where
  pub device_id : ℕ
  pub index : ℕ
  pub name : String
  pub description : Option String
  pub priority : ℤ
  pub available : Availability
  pub active : Bool
  pub classes : List String
  pub properties : Fields

-- The channel positions are SpaIdValues.
pub record Route : Type 0 where
  pub device_id : ℕ
  pub index : ℕ
  pub direction : PortDirection
  pub name : String
  pub description : Option String
  pub priority : ℤ
  pub available : Availability
  pub active : Bool
  pub profile_ids : List ℕ
  pub volume : Option ℕ
  pub mute : Option Bool
  pub channel_volumes : List ℕ
  pub channel_positions : List Value
  pub properties : Fields

pub record DefaultTarget : Type 0 where
  pub media_class : String
  pub configured_name : Option String
  pub resolved_node_id : Option ℕ

pub record Defaults : Type 0 where
  pub metadata_id : Option ℕ
  pub audio_sink : Option DefaultTarget
  pub audio_source : Option DefaultTarget
  pub video_source : Option DefaultTarget
  pub extra : Fields
