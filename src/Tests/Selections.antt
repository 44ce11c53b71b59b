-- ===== src/Tests/Selections.antt =====
-- The typed controls that read a preflight, on the connection of the tests.
use wyreplumber.Prelude.{ℕ, String, nat_eq, pos, true, none, some, List, [], ◌∷◌, ok, ◌≡◌, refl}
use wyreplumber.Value.{int, str, bool, float, null}
use wyreplumber.Value.Checks.{
  as_text, identifier, identity, enum, required_string, optional_identifier, lookup, sequence,
  boolean,
}
use wyreplumber.Value.Json.{mapping, contract_value}
use wyreplumber.Value.Floats.{to_double, is_finite, is_negative}
use wyreplumber.Builtins.{timestamp}
use wyreplumber.Event.Kinds.{object_kind, kind_text}
use wyreplumber.Model.Index.{get, has}
use wyreplumber.Model.Relations.{same_direction}
use wyreplumber.Model.Serialize.{link_value, profile_value, route_value}
use wyreplumber.Mutation.Kinds.{confirmation_operator, operation}
use wyreplumber.Mutation.Texts.{operation_text}
use wyreplumber.Mutation.Predicate.{
  mutation_target, confirmation_predicate, check_operator, matches, resolve_path, comparable,
}
use wyreplumber.Value.Equality.{json_eq}
use wyreplumber.Mutation.Outcome.{mutation_confirmation}
use wyreplumber.Mutation.Request.{Request, create, parse_timestamp, is_expired, resequence}
use wyreplumber.Mutation.Observation.{link_of, confirmations_from}
use wyreplumber.Mutation.Execution.{Execution, execute}
use wyreplumber.Spa.Wire.{parse_pod_header}
use wyreplumber.Controls.{pipewire_identifier, preflight_is_stale}
use wyreplumber.Controls.Links.{
  LinkFields, validated_link_properties, same_topology, validate_link_endpoints, is_attached,
}
use wyreplumber.Controls.Pods.{Builder, AudioFields, parameter_pod_bytes, audio_properties}
use wyreplumber.Controls.Managed.{
  link_request, create_managed_link, removal_request, remove_managed_link,
}
use wyreplumber.Controls.Selection.{
  profile_request, route_request, is_other_route, route_spa_device, active_profile_ids,
  is_ruled_out,
}
use wyreplumber.Controls.Profiles.{select_device_profile}
use wyreplumber.Controls.Routes.{select_device_route}
use wyreplumber.Controls.Metadata.{
  stream_target_identity, default_metadata_of, metadata_target, node_name, default_node_metadata,
}
use wyreplumber.Controls.Defaults.{default_node, set_default_node, stream_of, set_stream_target}
use wyreplumber.Controls.Creation.{AreAsked, MayCreate, create_managed_link-MayCreate}
use wyreplumber.Controls.Removal.{MayRemove, Removes, remove_managed_link-MayRemove}
use wyreplumber.Controls.Choices.{MaySelectProfile, select_device_profile-MaySelectProfile}
use wyreplumber.Controls.RouteChoices.{MaySelectRoute, select_device_route-MaySelectRoute}
use wyreplumber.Controls.Defaulting.{IsDefaultable, set_default_node-IsDefaultable}
use wyreplumber.Controls.Streaming.{IsStream, Identifies, set_stream_target-Allowed}
use wyreplumber.Controls.Metadata.{entry_payload}
use wyreplumber.Controls.ActiveProfiles.{Ascending, is_active, active_profile_ids_lem}
use wyreplumber.Controls.Selection.{member}
use wyreplumber.Controls.{later}
use wyreplumber.Mutation.Dispatch.{Allowed}
use wyreplumber.Model.Objects.{Node}
use wyreplumber.Model.Snapshot.{Snapshot}
use wyreplumber.Controls.Links.{Endpoints}
use wyreplumber.Controls.Defaults.{DefaultNode, default_request, stream_request}
use wyreplumber.Tests.Fixtures.{python, tally}
use wyreplumber.Tests.Mutations.{request}
use wyreplumber.Tests.Studio.{connection, patched_connection, options, stereo, surround, headphones}

-- The request that a run dispatches first.
abbrev first : Execution → Request
first x = elim x.dispatched [ [] ↦ request | r ∷ rs ↦ r ]

abbrev patch : LinkFields
patch = record {
  owner = str "cinema";
  desired_id = str "left";
  output_node_id = int (pos 5);
  output_port_id = int (pos 6);
  input_node_id = int (pos 7);
  input_port_id = int (pos 8);
  passive = bool true;
  properties = null;
  options = options;
}

abbrev creation : Execution
creation = create_managed_link python connection 1 "fresh" patch

created : creation.dispatched ≡ first creation ∷ []
unfolding create_managed_link link_request boolean validated_link_properties same_topology
    validate_link_endpoints same_direction is_attached link_of preflight_is_stale
    pipewire_identifier identifier identity enum object_kind kind_text required_string
    optional_identifier lookup sequence mapping mutation_target confirmation_predicate
    confirmation_operator contract_value check_operator create to_double is_finite is_negative
    parse_timestamp timestamp operation operation_text tally execute is_expired confirmations_from
    matches resolve_path resequence get
created = refl

abbrev removal : Execution
removal =
    remove_managed_link python patched_connection 1 "fresh" (str "cinema") (str "left") options

removed : removal.dispatched ≡ first removal ∷ []
unfolding comparable json_eq mutation_confirmation link_value remove_managed_link removal_request
    link_of preflight_is_stale pipewire_identifier identifier identity enum object_kind kind_text
    required_string optional_identifier lookup sequence mapping mutation_target
    confirmation_predicate confirmation_operator contract_value check_operator create to_double
    is_finite is_negative parse_timestamp timestamp operation operation_text tally execute
    is_expired confirmations_from matches resolve_path resequence get
removed = refl

-- A builder whose pods are all empty.
abbrev empty_pod : Builder
empty_pod = λ value pod_type. ok (0 ∷ 0 ∷ 0 ∷ 0 ∷ 1 ∷ 0 ∷ 0 ∷ 0 ∷ [])

abbrev profile_run : Execution
profile_run = select_device_profile python connection 1 empty_pod "fresh" surround options

profile_selected : profile_run.dispatched ≡ first profile_run ∷ []
unfolding select_device_profile profile_request parameter_pod_bytes parse_pod_header has
    preflight_is_stale profile_value comparable json_eq mutation_confirmation pipewire_identifier
    identifier identity enum object_kind kind_text required_string optional_identifier lookup
    sequence mapping mutation_target confirmation_predicate confirmation_operator contract_value
    check_operator create to_double is_finite is_negative parse_timestamp timestamp operation
    operation_text tally execute is_expired confirmations_from matches resolve_path resequence get
profile_selected = refl

abbrev loud : AudioFields
loud = record { volume = some (float 7); mute = none; channel_volumes = none }

abbrev route_run : Execution
route_run =
    select_device_route python connection 1 empty_pod "fresh" headphones loud (bool true) options

route_selected : route_run.dispatched ≡ first route_run ∷ []
unfolding select_device_route route_request boolean audio_properties parameter_pod_bytes
    parse_pod_header has is_other_route route_spa_device active_profile_ids is_ruled_out
    same_direction preflight_is_stale route_value comparable json_eq mutation_confirmation
    pipewire_identifier identifier identity enum object_kind kind_text required_string
    optional_identifier lookup sequence mapping mutation_target confirmation_predicate
    confirmation_operator contract_value check_operator create to_double is_finite is_negative
    parse_timestamp timestamp operation operation_text tally execute is_expired confirmations_from
    matches resolve_path resequence get
route_selected = refl

abbrev default_run : Execution
default_run = set_default_node python connection 1 "fresh" (int (pos 7)) none options

default_set : default_run.dispatched ≡ first default_run ∷ []
unfolding set_default_node default_node default_node_metadata default_metadata_of metadata_target
    node_name pipewire_identifier identifier identity enum object_kind kind_text required_string
    optional_identifier lookup sequence mapping mutation_target confirmation_predicate
    confirmation_operator contract_value check_operator create to_double is_finite is_negative
    parse_timestamp timestamp operation operation_text tally execute is_expired confirmations_from
    matches resolve_path resequence get
default_set = refl

abbrev stream_run : Execution
stream_run = set_stream_target python connection 1 "fresh" (int (pos 5)) (int (pos 7)) options

stream_set : stream_run.dispatched ≡ first stream_run ∷ []
unfolding set_stream_target stream_of stream_target_identity default_metadata_of metadata_target
    node_name pipewire_identifier identifier identity enum object_kind kind_text required_string
    optional_identifier lookup sequence mapping mutation_target confirmation_predicate
    confirmation_operator contract_value check_operator create to_double is_finite is_negative
    parse_timestamp timestamp operation operation_text tally execute is_expired confirmations_from
    matches resolve_path resequence get
stream_set = refl

-- Nothing else is dispatched.
abbrev Alone : Type 0
Alone = ◌≡◌ {A = List Request} [] []

create_managed_link-MayCreate_example :
    Alone
    × (r : Request) × (e : Endpoints) × (owner : String) × (desired_id : String) × (s : Snapshot)
    × (link_request python "fresh" 0 patch ≡ ok ((r, e), (owner, desired_id)))
    × AreAsked patch e owner desired_id
    × (connection.capture 1 ≡ ok s)
    × MayCreate python connection 1 r s e owner desired_id (first creation)
create_managed_link-MayCreate_example =
    create_managed_link-MayCreate python connection 1 "fresh" patch (first creation) [] created

remove_managed_link-MayRemove_example :
    Alone
    × (o : String) × (i : String) × (s : Snapshot) × (r : Request) × (as_text (str "cinema")
        ≡ some o)
    × (as_text (str "left") ≡ some i)
    × (patched_connection.capture 0 ≡ ok s)
    × (removal_request python patched_connection "fresh" o i options (link_of o i s.links) ≡ ok r)
    × MayRemove python patched_connection 1 r s (first removal)
    × Removes python patched_connection 1 s o i (first removal)
remove_managed_link-MayRemove_example =
    remove_managed_link-MayRemove python patched_connection 1 "fresh" (str "cinema") (str "left")
      options (first removal) [] removed

select_device_profile-MaySelectProfile_example :
    Alone
    × (r : Request) × (s : Snapshot) × (profile_request python empty_pod "fresh" 0 surround options
        ≡ ok r)
    × (connection.capture 1 ≡ ok s)
    × MaySelectProfile python connection 1 r s surround (first profile_run)
select_device_profile-MaySelectProfile_example =
    select_device_profile-MaySelectProfile python connection 1 empty_pod "fresh" surround options
      (first profile_run) [] profile_selected

select_device_route-MaySelectRoute_example :
    Alone
    × (r : Request) × (spa_device : ℕ) × (s : Snapshot) × (route_request python empty_pod "fresh" 0
          headphones loud
          (bool true)
          options
        ≡ ok (r, spa_device))
    × (route_spa_device headphones ≡ ok spa_device)
    × (connection.capture 1 ≡ ok s)
    × MaySelectRoute python connection 1 r s headphones spa_device (first route_run)
select_device_route-MaySelectRoute_example =
    select_device_route-MaySelectRoute python connection 1 empty_pod "fresh" headphones loud
      (bool true) options (first route_run) [] route_selected

set_default_node-IsDefaultable_example :
    Alone
    × (i : ℕ) × (s : Snapshot) × (n : Node) × (dn : DefaultNode) × (r : Request)
    × (pipewire_identifier (int (pos 7)) ≡ ok i)
    × (connection.capture 0 ≡ ok s)
    × (get i s.nodes_by_id ≡ some n)
    × (default_request python "fresh" 1 s (int (pos 7)) none options ≡ ok r)
    × IsDefaultable n none dn
    × Allowed python (later 2 connection) 1 r s (first default_run)
set_default_node-IsDefaultable_example =
    set_default_node-IsDefaultable python connection 1 "fresh" (int (pos 7)) none options
      (first default_run) [] default_set

set_stream_target-Allowed_example :
    Alone
    × (i : ℕ) × (j : ℕ) × (s : Snapshot) × (stream : Node) × (n : Node) × (value : String)
    × (type_name : String) × (r : Request) × (pipewire_identifier (int (pos 5)) ≡ ok i)
    × (pipewire_identifier (int (pos 7)) ≡ ok j)
    × (connection.capture 0 ≡ ok s)
    × (get i s.nodes_by_id ≡ some stream)
    × IsStream stream
    × (get j s.nodes_by_id ≡ some n)
    × Identifies python n value type_name
    × ((first stream_run).payload ≡ entry_payload (str value) (str type_name))
    × (stream_request python "fresh" 1 s (int (pos 5)) (int (pos 7)) options ≡ ok r)
    × Allowed python (later 2 connection) 1 r s (first stream_run)
set_stream_target-Allowed_example =
    set_stream_target-Allowed python connection 1 "fresh" (int (pos 5)) (int (pos 7)) options
      (first stream_run) [] stream_set

active_profile_ids_lem_example :
    Ascending (active_profile_ids 3 (stereo ∷ surround ∷ stereo ∷ []))
    × ((i : ℕ)
        → member i (active_profile_ids 3 (stereo ∷ surround ∷ stereo ∷ []))
          ≡ is_active 3 i (stereo ∷ surround ∷ stereo ∷ []))
active_profile_ids_lem_example = active_profile_ids_lem 3 (stereo ∷ surround ∷ stereo ∷ [])
