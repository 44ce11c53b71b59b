-- ===== src/Tests/Snapshots.antt =====
-- A snapshot with one node and its port.
use wyreplumber.Prelude.{
  pos, true, none, some, [], ◌∷◌, ◌≡◌, ◌↔◌, refl, ok, err, value_error, nat_eq, collect,
  if◌then◌else◌,
}
use wyreplumber.Value.{int, datetime, aware, end}
use wyreplumber.Value.Checks.{identifier, integer}
use wyreplumber.Builtins.{timestamp}
use wyreplumber.Model.Objects.{ConnectionHealth, connected, Node, Port, input, running}
use wyreplumber.Model.Contents.{Collections, index_collections}
use wyreplumber.Model.Index.{has, unique_index, distinct, entries, unique_index_lem}
use wyreplumber.Model.Relations.{
  find_unresolved, node_missing, same_direction, port_missing, defaults_missing,
}
use wyreplumber.Model.Resolves.{Resolves}
use wyreplumber.Model.Snapshot.{Snapshot, SnapshotFields, runtime_snapshot, is_coherent}
use wyreplumber.Model.Agreement.{is_coherent_iff}
use wyreplumber.Tests.Fixtures.{python, tally}

abbrev pub speaker : Node
speaker = record {
  id = 7;
  device_id = none;
  name = some "speaker";
  description = none;
  media_class = none;
  state = running;
  error = none;
  input_port_ids = 8 ∷ [];
  output_port_ids = [];
  properties = end;
  parameter_ids = [];
}

abbrev port : Port
port = record {
  id = 8;
  node_id = 7;
  direction = input;
  name = none;
  channel = none;
  properties = end;
  parameter_ids = [];
}

abbrev pub nothing : Collections
nothing = record {
  devices = [];
  nodes = [];
  ports = [];
  links = [];
  metadata = [];
  parameters = [];
  profiles = [];
  routes = [];
  defaults = record {
    metadata_id = none;
    audio_sink = none;
    audio_source = none;
    video_source = none;
    extra = end;
  };
}

abbrev pub wired : Collections
wired = record nothing { nodes = speaker ∷ []; ports = port ∷ [] }

-- The port of a node that is not there.
abbrev dangling : Collections
dangling = record nothing { ports = port ∷ [] }

abbrev healthy : ConnectionHealth
healthy = record { state = connected; generation = 1; reason = none; details = end }

abbrev fields_of : Collections → SnapshotFields
fields_of c = record {
  generation = int (pos 1);
  sequence = int (pos 4);
  captured_at = datetime (aware 3);
  health = healthy;
  collections = c;
  unresolved_relationships = [];
}

-- The snapshot without objects.
abbrev pub bare : Snapshot
bare = record {
  generation = 1;
  sequence = 4;
  captured_at = "III";
  health = healthy;
  contents = record {
    collections = nothing;
    devices_by_id = [];
    nodes_by_id = [];
    ports_by_id = [];
    links_by_id = [];
    metadata_by_id = [];
    parameters_by_key = [];
    profiles_by_key = [];
    routes_by_key = [];
  };
  unresolved_relationships = [];
}

abbrev pub playing : Snapshot
playing = record bare {
  contents = record {
    collections = wired;
    devices_by_id = [];
    nodes_by_id = (7, speaker) ∷ [];
    ports_by_id = (8, port) ∷ [];
    links_by_id = [];
    metadata_by_id = [];
    parameters_by_key = [];
    profiles_by_key = [];
    routes_by_key = [];
  };
}

playing_made : runtime_snapshot python (fields_of wired) ≡ ok playing
unfolding runtime_snapshot identifier integer timestamp index_collections unique_index
    find_unresolved tally has collect node_missing same_direction port_missing defaults_missing
playing_made = refl

is_coherent_iff_example : (is_coherent playing ≡ true) ↔ Resolves playing.contents
is_coherent_iff_example = is_coherent_iff python (fields_of wired) playing playing_made

unique_index_lem_example : unique_index (λ n. n.id) (speaker ∷ speaker ∷ []) ≡ (
    if distinct (λ (n : Node). n.id) (speaker ∷ speaker ∷ [])
    then ok (entries (λ n. n.id) (speaker ∷ speaker ∷ []))
    else err value_error)
unique_index_lem_example = unique_index_lem (λ (n : Node). n.id) (speaker ∷ speaker ∷ [])
