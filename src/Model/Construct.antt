-- ===== src/Model/Construct.antt =====
-- The constructors of the value objects of src/wyreplumber/runtime/models.py: the checks of their
-- `__post_init__`, on arguments as they are passed.
use wyreplumber.Prelude.{
  String, false, Option, none, some, Result, ok, ◌>>=◌, if◌then◌else◌, str_eq,
}
use wyreplumber.Value.{Value}
use wyreplumber.Value.Checks.{
  integer, identifier, required_string, optional_identifier, optional_string, boolean, identifiers,
  strings, enum,
}
use wyreplumber.Value.Json.{mapping}
use wyreplumber.Model.Objects.{
  NodeState, PortDirection, Availability, Device, Node, Port, Link, Profile, input, output,
  available, unavailable, error, creating, suspended, idle, running,
}

-- `NodeState(text)`
unfoldable pub node_state : String → Option NodeState
node_state s =
    if str_eq s "error"
    then some error
    else if str_eq s "creating"
    then some creating
    else if str_eq s "suspended"
    then some suspended
    else if str_eq s "idle"
    then some idle
    else if str_eq s "running"
    then some running
    else if str_eq s "unknown"
    then some NodeState.unknown
    else none

-- `PortDirection(text)`
unfoldable pub port_direction : String → Option PortDirection
port_direction s =
    if str_eq s "input"
    then some input
    else if str_eq s "output"
    then some output
    else if str_eq s "unknown"
    then some PortDirection.unknown
    else none

-- `Availability(text)`
unfoldable pub availability : String → Option Availability
availability s =
    if str_eq s "yes"
    then some available
    else if str_eq s "no"
    then some unavailable
    else if str_eq s "unknown"
    then some Availability.unknown
    else none

pub record DeviceFields : Type 0 where
  pub id : Value
  pub name : Value
  pub description : Value
  pub media_class : Value
  pub properties : Value
  pub parameter_ids : Value
  pub profile_ids : Value
  pub route_ids : Value

-- `DeviceValue.__post_init__`
unfoldable pub make_device : DeviceFields → Result Device
make_device args = do
  id ← identifier args.id
  name ← optional_string args.name
  description ← optional_string args.description
  media_class ← optional_string args.media_class
  properties ← mapping args.properties
  parameter_ids ← strings args.parameter_ids
  profile_ids ← identifiers args.profile_ids
  route_ids ← identifiers args.route_ids
  ok (record {
    id = id;
    name = name;
    description = description;
    media_class = media_class;
    properties = properties;
    parameter_ids = parameter_ids;
    profile_ids = profile_ids;
    route_ids = route_ids;
  })

pub record NodeFields : Type 0 where
  pub id : Value
  pub device_id : Value
  pub name : Value
  pub description : Value
  pub media_class : Value
  pub error : Value
  pub state : Value
  pub input_port_ids : Value
  pub output_port_ids : Value
  pub properties : Value
  pub parameter_ids : Value

-- `NodeValue.__post_init__`
unfoldable pub make_node : NodeFields → Result Node
make_node args = do
  id ← identifier args.id
  device_id ← optional_identifier args.device_id
  name ← optional_string args.name
  description ← optional_string args.description
  media_class ← optional_string args.media_class
  message ← optional_string args.error
  state ← enum node_state args.state
  input_port_ids ← identifiers args.input_port_ids
  output_port_ids ← identifiers args.output_port_ids
  properties ← mapping args.properties
  parameter_ids ← strings args.parameter_ids
  ok (record {
    id = id;
    device_id = device_id;
    name = name;
    description = description;
    media_class = media_class;
    error = message;
    state = state;
    input_port_ids = input_port_ids;
    output_port_ids = output_port_ids;
    properties = properties;
    parameter_ids = parameter_ids;
  })

pub record PortFields : Type 0 where
  pub id : Value
  pub node_id : Value
  pub direction : Value
  pub name : Value
  pub channel : Value
  pub properties : Value
  pub parameter_ids : Value

-- `PortValue.__post_init__`
unfoldable pub make_port : PortFields → Result Port
make_port args = do
  id ← identifier args.id
  node_id ← identifier args.node_id
  direction ← enum port_direction args.direction
  name ← optional_string args.name
  channel ← optional_string args.channel
  properties ← mapping args.properties
  parameter_ids ← strings args.parameter_ids
  ok (record {
    id = id;
    node_id = node_id;
    direction = direction;
    name = name;
    channel = channel;
    properties = properties;
    parameter_ids = parameter_ids;
  })

pub record LinkFields : Type 0 where
  pub id : Value
  pub output_node_id : Value
  pub output_port_id : Value
  pub input_node_id : Value
  pub input_port_id : Value
  pub state : Value
  pub owner : Value
  pub desired_id : Value
  pub properties : Value

-- `LinkValue.__post_init__`
unfoldable pub make_link : LinkFields → Result Link
make_link args = do
  id ← identifier args.id
  output_node_id ← identifier args.output_node_id
  output_port_id ← identifier args.output_port_id
  input_node_id ← identifier args.input_node_id
  input_port_id ← identifier args.input_port_id
  state ← optional_string args.state
  owner ← optional_string args.owner
  desired_id ← optional_string args.desired_id
  properties ← mapping args.properties
  ok (record {
    id = id;
    output_node_id = output_node_id;
    output_port_id = output_port_id;
    input_node_id = input_node_id;
    input_port_id = input_port_id;
    state = state;
    owner = owner;
    desired_id = desired_id;
    properties = properties;
  })

pub record ProfileFields : Type 0 where
  pub device_id : Value
  pub index : Value
  pub name : Value
  pub description : Value
  pub priority : Value
  pub available : Value
  pub active : Value
  pub classes : Value
  pub properties : Value

-- `ProfileValue.__post_init__`
unfoldable pub make_profile : ProfileFields → Result Profile
make_profile args = do
  device_id ← identifier args.device_id
  index ← identifier args.index
  name ← required_string false args.name
  description ← optional_string args.description
  priority ← integer args.priority
  offered ← enum availability args.available
  active ← boolean args.active
  classes ← strings args.classes
  properties ← mapping args.properties
  ok (record {
    device_id = device_id;
    index = index;
    name = name;
    description = description;
    priority = priority;
    available = offered;
    active = active;
    classes = classes;
    properties = properties;
  })
