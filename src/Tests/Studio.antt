-- ===== src/Tests/Studio.antt =====
-- A snapshot with two nodes, their ports, a device, and the default metadata, and a connection to it.
use wyreplumber.Prelude.{pos, true, false, none, some, [], ◌∷◌, ok, err, value_error}
use wyreplumber.Value.{int, float, null, end, field, text}
use wyreplumber.Model.Objects.{
  Node, Port, Link, Device, Profile, Route, Metadata, input, output, available,
}
use wyreplumber.Model.Contents.{Collections}
use wyreplumber.Model.Snapshot.{Snapshot}
use wyreplumber.Mutation.Execution.{World}
use wyreplumber.Controls.{Options}
use wyreplumber.Tests.Snapshots.{speaker, bare, nothing}

-- A stream that plays through port 6.
abbrev player : Node
player = record speaker {
  id = 5;
  name = some "player";
  media_class = some "Stream/Output/Audio";
  input_port_ids = [];
  output_port_ids = 6 ∷ [];
}

abbrev pub sink : Node
sink = record speaker { media_class = some "Audio/Sink" }

abbrev jack : Port
jack = record {
  id = 8;
  node_id = 7;
  direction = input;
  name = none;
  channel = none;
  properties = end;
  parameter_ids = [];
}

abbrev plug : Port
plug = record jack { id = 6; node_id = 5; direction = output }

abbrev card : Device
card = record {
  id = 3;
  name = some "card";
  description = none;
  media_class = none;
  properties = end;
  parameter_ids = [];
  profile_ids = 1 ∷ [];
  route_ids = 2 ∷ [];
}

abbrev pub stereo : Profile
stereo = record {
  device_id = 3;
  index = 1;
  name = "stereo";
  description = none;
  priority = pos 0;
  available = available;
  active = true;
  classes = [];
  properties = end;
}

-- The profile that is not active.
abbrev pub surround : Profile
surround = record stereo { index = 4; name = "surround"; active = false }

abbrev pub headphones : Route
headphones = record {
  device_id = 3;
  index = 2;
  direction = output;
  name = "headphones";
  description = none;
  priority = pos 0;
  available = available;
  active = false;
  profile_ids = 1 ∷ [];
  volume = none;
  mute = none;
  channel_volumes = [];
  channel_positions = [];
  properties = field (text "spa_device_index") (int (pos 9)) end;
}

abbrev defaults : Metadata
defaults = record { id = 30; name = some "default"; properties = end; entries = [] }

abbrev objects : Collections
objects = record nothing {
  devices = card ∷ [];
  nodes = player ∷ sink ∷ [];
  ports = plug ∷ jack ∷ [];
  metadata = defaults ∷ [];
  profiles = stereo ∷ surround ∷ [];
  routes = headphones ∷ [];
}

abbrev pub studio : Snapshot
studio = record bare {
  contents = record {
    collections = objects;
    devices_by_id = (3, card) ∷ [];
    nodes_by_id = (5, player) ∷ (7, sink) ∷ [];
    ports_by_id = (6, plug) ∷ (8, jack) ∷ [];
    links_by_id = [];
    metadata_by_id = (30, defaults) ∷ [];
    parameters_by_key = [];
    profiles_by_key = ((3, 1), stereo) ∷ ((3, 4), surround) ∷ [];
    routes_by_key = ((3, 2), headphones) ∷ [];
  };
}

-- The link between the two ports.
abbrev pub cable : Link
cable = record {
  id = 12;
  output_node_id = 5;
  output_port_id = 6;
  input_node_id = 7;
  input_port_id = 8;
  state = some "active";
  owner = some "cinema";
  desired_id = some "left";
  properties = end;
}

abbrev patched : Snapshot
patched = record studio {
  contents = record (studio.contents) {
    collections = record objects { links = cable ∷ [] };
    links_by_id = (12, cable) ∷ [];
  };
}

-- Each step takes a microsecond, and dispatching fails.
abbrev pub connection : World
connection = record { clock = λ n. n; capture = λ n. ok studio; dispatch = λ n r. err value_error }

-- Generation 1, sequence 3, and a deadline far away.
abbrev pub options : Options
options = record {
  expected_generation = int (pos 1);
  expected_sequence = int (pos 3);
  timeout = float 9;
  request_id = null;
}

abbrev pub patched_connection : World
patched_connection = record connection { capture = λ n. ok patched }
