-- ===== src/Model/Rebuild.antt =====
-- The value objects of runtime/models.py accept their own fields again, unchanged.
use wyreplumber.Prelude.{ok, ◌≡◌, >>=-eq-ok, >>=-ok, refl, ok_eq}
use wyreplumber.Value.{str, tuple}
use wyreplumber.Value.Checks.{
  identifier, optional_identifier, optional_string, identifiers, strings, enum,
}
use wyreplumber.Value.Json.{mapping}
use wyreplumber.Model.Objects.{Device, Node}
use wyreplumber.Model.Construct.{node_state, DeviceFields, make_device, NodeFields, make_node}
use wyreplumber.Model.Again.{
  of_list, device_fields, node_fields, identifier_again, mapping_again, optional_identifier_again,
  optional_string_again, identifiers_again, strings_again, node_state_again,
}

make_device-fields :
    (o : Device)
    → strings (tuple (of_list str o.parameter_ids)) ≡ ok o.parameter_ids
    → make_device (device_fields o) ≡ ok o
unfolding make_device
make_device-fields o named_parameter_ids = >>=-ok _ _ (identifier_again o.id) (
    >>=-ok _ _ (optional_string_again o.name) (
      >>=-ok _ _ (optional_string_again o.description) (
        >>=-ok _ _ (optional_string_again o.media_class) (
          >>=-ok _ _ (mapping_again o.properties) (
            >>=-ok _ _ named_parameter_ids (
              >>=-ok _ _ (identifiers_again o.profile_ids)
                (>>=-ok _ _ (identifiers_again o.route_ids) refl)))))))

device_named :
    (args : DeviceFields) (o : Device)
    → make_device args ≡ ok o
    → (strings (tuple (of_list str o.parameter_ids)) ≡ ok o.parameter_ids)
unfolding make_device
device_named args o h =
    let (id, h_id, r0) = >>=-eq-ok (identifier args.id) _ h in
    let (name, h_name, r1) = >>=-eq-ok (optional_string args.name) _ r0 in
    let (description, h_description, r2) = >>=-eq-ok (optional_string args.description) _ r1 in
    let (media_class, h_media_class, r3) = >>=-eq-ok (optional_string args.media_class) _ r2 in
    let (properties, h_properties, r4) = >>=-eq-ok (mapping args.properties) _ r3 in
    let (parameter_ids, h_parameter_ids, r5) = >>=-eq-ok (strings args.parameter_ids) _ r4 in
    let (profile_ids, h_profile_ids, r6) = >>=-eq-ok (identifiers args.profile_ids) _ r5 in
    let (route_ids, h_route_ids, r7) = >>=-eq-ok (identifiers args.route_ids) _ r6 in
    rw (← ok_eq r7) (strings_again args.parameter_ids parameter_ids h_parameter_ids)

-- A device that its constructor accepted is accepted again with its own fields, unchanged.
pub make_device-again :
    (args : DeviceFields) (o : Device)
    → make_device args ≡ ok o
    → make_device (device_fields o) ≡ ok o
make_device-again args o h = make_device-fields o (device_named args o h)

make_node-fields :
    (o : Node)
    → strings (tuple (of_list str o.parameter_ids)) ≡ ok o.parameter_ids
    → make_node (node_fields o) ≡ ok o
unfolding make_node
make_node-fields o named_parameter_ids = >>=-ok _ _ (identifier_again o.id) (
    >>=-ok _ _ (optional_identifier_again o.device_id) (
      >>=-ok _ _ (optional_string_again o.name) (
        >>=-ok _ _ (optional_string_again o.description) (
          >>=-ok _ _ (optional_string_again o.media_class) (
            >>=-ok _ _ (optional_string_again o.error) (
              >>=-ok _ _ (node_state_again o.state) (
                >>=-ok _ _ (identifiers_again o.input_port_ids) (
                  >>=-ok _ _ (identifiers_again o.output_port_ids) (
                    >>=-ok _ _ (mapping_again o.properties)
                      (>>=-ok _ _ named_parameter_ids refl))))))))))

node_named :
    (args : NodeFields) (o : Node)
    → make_node args ≡ ok o
    → (strings (tuple (of_list str o.parameter_ids)) ≡ ok o.parameter_ids)
unfolding make_node
node_named args o h =
    let (id, h_id, r0) = >>=-eq-ok (identifier args.id) _ h in
    let (device_id, h_device_id, r1) = >>=-eq-ok (optional_identifier args.device_id) _ r0 in
    let (name, h_name, r2) = >>=-eq-ok (optional_string args.name) _ r1 in
    let (description, h_description, r3) = >>=-eq-ok (optional_string args.description) _ r2 in
    let (media_class, h_media_class, r4) = >>=-eq-ok (optional_string args.media_class) _ r3 in
    let (message, h_message, r5) = >>=-eq-ok (optional_string args.error) _ r4 in
    let (state, h_state, r6) = >>=-eq-ok (enum node_state args.state) _ r5 in
    let (input_port_ids, h_input_port_ids, r7) = >>=-eq-ok (identifiers args.input_port_ids) _ r6 in
    let (output_port_ids, h_output_port_ids, r8) =
      >>=-eq-ok (identifiers args.output_port_ids) _ r7 in
    let (properties, h_properties, r9) = >>=-eq-ok (mapping args.properties) _ r8 in
    let (parameter_ids, h_parameter_ids, r10) = >>=-eq-ok (strings args.parameter_ids) _ r9 in
    rw (← ok_eq r10) (strings_again args.parameter_ids parameter_ids h_parameter_ids)

-- A node that its constructor accepted is accepted again with its own fields, unchanged.
pub make_node-again :
    (args : NodeFields) (o : Node) → make_node args ≡ ok o → make_node (node_fields o) ≡ ok o
make_node-again args o h = make_node-fields o (node_named args o h)
