-- ===== src/Model/Reconnect.antt =====
-- The value objects of runtime/models.py of ports, links and profiles accept their own fields again, unchanged.
use wyreplumber.Prelude.{false, ok, ◌≡◌, >>=-eq-ok, >>=-ok, refl, ok_eq}
use wyreplumber.Value.{str, tuple}
use wyreplumber.Value.Checks.{
  integer, identifier, required_string, optional_string, boolean, strings, enum,
}
use wyreplumber.Value.Json.{mapping}
use wyreplumber.Model.Objects.{Port, Link, Profile}
use wyreplumber.Model.Construct.{
  port_direction, availability, PortFields, make_port, LinkFields, make_link, ProfileFields,
  make_profile,
}
use wyreplumber.Model.Again.{
  of_list, port_fields, link_fields, profile_fields, identifier_again, integer_again, boolean_again,
  mapping_again, optional_string_again, required_string_again, strings_again, port_direction_again,
  availability_again,
}

make_port-fields :
    (o : Port)
    → strings (tuple (of_list str o.parameter_ids)) ≡ ok o.parameter_ids
    → make_port (port_fields o) ≡ ok o
unfolding make_port
make_port-fields o named_parameter_ids = >>=-ok _ _ (identifier_again o.id) (
    >>=-ok _ _ (identifier_again o.node_id) (
      >>=-ok _ _ (port_direction_again o.direction) (
        >>=-ok _ _ (optional_string_again o.name) (
          >>=-ok _ _ (optional_string_again o.channel)
            (>>=-ok _ _ (mapping_again o.properties) (>>=-ok _ _ named_parameter_ids refl))))))

port_named :
    (args : PortFields) (o : Port)
    → make_port args ≡ ok o
    → (strings (tuple (of_list str o.parameter_ids)) ≡ ok o.parameter_ids)
unfolding make_port
port_named args o h =
    let (id, h_id, r0) = >>=-eq-ok (identifier args.id) _ h in
    let (node_id, h_node_id, r1) = >>=-eq-ok (identifier args.node_id) _ r0 in
    let (direction, h_direction, r2) = >>=-eq-ok (enum port_direction args.direction) _ r1 in
    let (name, h_name, r3) = >>=-eq-ok (optional_string args.name) _ r2 in
    let (channel, h_channel, r4) = >>=-eq-ok (optional_string args.channel) _ r3 in
    let (properties, h_properties, r5) = >>=-eq-ok (mapping args.properties) _ r4 in
    let (parameter_ids, h_parameter_ids, r6) = >>=-eq-ok (strings args.parameter_ids) _ r5 in
    rw (← ok_eq r6) (strings_again args.parameter_ids parameter_ids h_parameter_ids)

-- A port that its constructor accepted is accepted again with its own fields, unchanged.
pub make_port-again :
    (args : PortFields) (o : Port) → make_port args ≡ ok o → make_port (port_fields o) ≡ ok o
make_port-again args o h = make_port-fields o (port_named args o h)

make_link-fields : (o : Link) → make_link (link_fields o) ≡ ok o
unfolding make_link
make_link-fields o = >>=-ok _ _ (identifier_again o.id) (
    >>=-ok _ _ (identifier_again o.output_node_id) (
      >>=-ok _ _ (identifier_again o.output_port_id) (
        >>=-ok _ _ (identifier_again o.input_node_id) (
          >>=-ok _ _ (identifier_again o.input_port_id) (
            >>=-ok _ _ (optional_string_again o.state) (
              >>=-ok _ _ (optional_string_again o.owner) (
                >>=-ok _ _ (optional_string_again o.desired_id)
                  (>>=-ok _ _ (mapping_again o.properties) refl))))))))

-- A link that its constructor accepted is accepted again with its own fields, unchanged.
make_link-again :
    (args : LinkFields) (o : Link) → make_link args ≡ ok o → make_link (link_fields o) ≡ ok o
make_link-again args o h = make_link-fields o

make_profile-fields :
    (o : Profile)
    → required_string false (str o.name) ≡ ok o.name
    → strings (tuple (of_list str o.classes)) ≡ ok o.classes
    → make_profile (profile_fields o) ≡ ok o
unfolding make_profile
make_profile-fields o named_name named_classes = >>=-ok _ _ (identifier_again o.device_id) (
    >>=-ok _ _ (identifier_again o.index) (
      >>=-ok _ _ named_name (
        >>=-ok _ _ (optional_string_again o.description) (
          >>=-ok _ _ (integer_again o.priority) (
            >>=-ok _ _ (availability_again o.available) (
              >>=-ok _ _ (boolean_again o.active)
                (>>=-ok _ _ named_classes (>>=-ok _ _ (mapping_again o.properties) refl))))))))

profile_named :
    (args : ProfileFields) (o : Profile)
    → make_profile args ≡ ok o
    → (required_string false (str o.name) ≡ ok o.name)
      × (strings (tuple (of_list str o.classes)) ≡ ok o.classes)
unfolding make_profile
profile_named args o h =
    let (device_id, h_device_id, r0) = >>=-eq-ok (identifier args.device_id) _ h in
    let (index, h_index, r1) = >>=-eq-ok (identifier args.index) _ r0 in
    let (name, h_name, r2) = >>=-eq-ok (required_string false args.name) _ r1 in
    let (description, h_description, r3) = >>=-eq-ok (optional_string args.description) _ r2 in
    let (priority, h_priority, r4) = >>=-eq-ok (integer args.priority) _ r3 in
    let (offered, h_offered, r5) = >>=-eq-ok (enum availability args.available) _ r4 in
    let (active, h_active, r6) = >>=-eq-ok (boolean args.active) _ r5 in
    let (classes, h_classes, r7) = >>=-eq-ok (strings args.classes) _ r6 in
    let (properties, h_properties, r8) = >>=-eq-ok (mapping args.properties) _ r7 in
    rw (← ok_eq r8)
      (required_string_again args.name name h_name, strings_again args.classes classes h_classes)

-- A profile that its constructor accepted is accepted again with its own fields, unchanged.
make_profile-again :
    (args : ProfileFields) (o : Profile)
    → make_profile args ≡ ok o
    → make_profile (profile_fields o) ≡ ok o
make_profile-again args o h =
    let (name, listed) = profile_named args o h in make_profile-fields o name listed
