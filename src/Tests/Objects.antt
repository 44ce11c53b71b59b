-- ===== src/Tests/Objects.antt =====
-- Value objects made from arguments.
use wyreplumber.Prelude.{pos, some, [], ◌∷◌, ok, ◌≡◌, refl, true}
use wyreplumber.Value.{null, bool, int, str, float, runtime, list, dict, nil, cons, end}
use wyreplumber.Value.Checks.{
  integer, identifier, required_string, optional_identifier, optional_string, boolean, sequence,
  identifiers, strings, enum,
}
use wyreplumber.Value.Json.{mapping}
use wyreplumber.Model.Construct.{
  node_state, port_direction, availability, NodeFields, make_node, LinkFields, make_link,
  ProfileFields, make_profile,
}
use wyreplumber.Model.Again.{node_fields}
use wyreplumber.Model.Rebuild.{make_node-again}
use wyreplumber.Model.Objects.{Route}
use wyreplumber.Model.Parts.{
  non_negative_float, optional_float, non_negative_floats, optional_boolean, runtime_values,
}
use wyreplumber.Model.Routes.{RouteFields, make_route, IsAudible, make_route-IsAudible}
use wyreplumber.Value.Floats.{to_double, is_finite, is_negative}
use wyreplumber.Tests.Fixtures.{python}
use wyreplumber.Tests.Snapshots.{speaker}
use wyreplumber.Tests.Studio.{stereo, cable, headphones}

abbrev node_arguments : NodeFields
node_arguments = record {
  id = int (pos 7);
  device_id = null;
  name = str "speaker";
  description = null;
  media_class = null;
  error = null;
  state = str "running";
  input_port_ids = list (cons (int (pos 8)) nil);
  output_port_ids = list nil;
  properties = dict end;
  parameter_ids = list nil;
}

node_made : make_node node_arguments ≡ ok speaker
unfolding make_node identifier integer optional_identifier optional_string required_string enum
    node_state identifiers sequence strings mapping
node_made = refl

make_node-again_example : make_node (node_fields speaker) ≡ ok speaker
make_node-again_example = make_node-again node_arguments speaker node_made

abbrev link_arguments : LinkFields
link_arguments = record {
  id = int (pos 12);
  output_node_id = int (pos 5);
  output_port_id = int (pos 6);
  input_node_id = int (pos 7);
  input_port_id = int (pos 8);
  state = str "active";
  owner = str "cinema";
  desired_id = str "left";
  properties = dict end;
}

link_made : make_link link_arguments ≡ ok cable
unfolding make_link identifier integer optional_string required_string mapping
link_made = refl

abbrev profile_arguments : ProfileFields
profile_arguments = record {
  device_id = int (pos 3);
  index = int (pos 1);
  name = str "stereo";
  description = null;
  priority = int (pos 0);
  available = str "yes";
  active = bool true;
  classes = list nil;
  properties = dict end;
}

profile_made : make_profile profile_arguments ≡ ok stereo
unfolding make_profile identifier integer optional_string required_string enum availability boolean
    sequence strings mapping
profile_made = refl

abbrev route_arguments : RouteFields
route_arguments = record {
  device_id = int (pos 3);
  index = int (pos 2);
  direction = str "output";
  name = str "headphones";
  description = null;
  priority = int (pos 0);
  available = str "yes";
  active = bool true;
  profile_ids = list nil;
  volume = int (pos 3);
  mute = bool true;
  channel_volumes = list (cons (float 1) nil);
  channel_positions = list (cons (runtime "spa_id" end) nil);
  properties = dict end;
}

abbrev loud_route : Route
loud_route = record headphones {
  active = true;
  profile_ids = [];
  volume = some 3;
  mute = some true;
  channel_volumes = 1 ∷ [];
  channel_positions = runtime "spa_id" end ∷ [];
  properties = end;
}

route_made : make_route python route_arguments ≡ ok loud_route
unfolding make_route identifier integer optional_string required_string enum port_direction
    availability boolean identifiers sequence optional_float non_negative_float non_negative_floats
    optional_boolean runtime_values to_double is_finite is_negative mapping
route_made = refl

make_route-IsAudible_example : IsAudible loud_route
make_route-IsAudible_example = make_route-IsAudible python route_arguments loud_route route_made
