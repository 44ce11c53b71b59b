-- ===== src/Controls/Links.antt =====
-- Managed links: `create_managed_link` and `remove_managed_link` of controls.py.
use wyreplumber.Prelude.{
  ℕ, pos, String, Bool, true, false, not, ◌||◌, ◌&&◌, ◌==◌, Option, none, some, List, [], ◌∷◌,
  Result, ok, err, type_error, value_error, ◌>>=◌, ◌>>◌, require, if◌then◌else◌, str_eq, nat_eq,
}
use wyreplumber.Value.{
  Value, null, int, str, list, dict, frozen, Items, nil, cons, Fields, end, field, text, number,
}
use wyreplumber.Value.Checks.{as_text, lookup}
use wyreplumber.Builtins.{Builtins}
use wyreplumber.Model.Objects.{Link, Node, Port, input, output}
use wyreplumber.Model.Index.{get}
use wyreplumber.Model.Serialize.{◌↠◌}
use wyreplumber.Model.Relations.{same_direction}
use wyreplumber.Model.Snapshot.{Snapshot}
use wyreplumber.Mutation.Kinds.{target_not_found, target_identity_changed, ownership_conflict}
use wyreplumber.Mutation.Request.{Request}
use wyreplumber.Mutation.Outcome.{Outcome}
use package.wyreplumber.Controls.{Options, pipewire_identifier, selection_failure}

pub record Endpoints : Type 0 where
  pub output_node_id : ℕ
  pub output_port_id : ℕ
  pub input_node_id : ℕ
  pub input_port_id : ℕ

pub record LinkFields : Type 0 where
  pub owner : Value
  pub desired_id : Value
  pub output_node_id : Value
  pub output_port_id : Value
  pub input_node_id : Value
  pub input_port_id : Value
  pub passive : Value
  pub properties : Value
  pub options : Options

-- `key in _RESERVED_LINK_PROPERTIES`
unfoldable pub is_reserved : String → Bool
is_reserved k =
    str_eq k "link.output.node"
    || (str_eq k "link.output.port"
        || (str_eq k "link.input.node"
            || (str_eq k "link.input.port"
                || (str_eq k "object.linger"
                    || (str_eq k "open-cinema.owner" || str_eq k "open-cinema.desired-id")))))

abbrev pub is_text : Value → Bool
is_text v = elim (as_text v) [ none ↦ false | some s ↦ true ]

-- The loop of `_validated_link_properties`.
unfoldable pub validated_fields : Fields → Result Fields
unfolding is_reserved
validated_fields end = ok end
validated_fields (field (number n) v fs) = err type_error
validated_fields (field (text k) v fs) = do
  require (not (str_eq k "")) value_error
  require (not (is_reserved k)) value_error
  require (is_text v) type_error
  rest ← validated_fields fs
  ok (field (text k) v rest)

-- `_validated_link_properties`
unfoldable pub validated_link_properties : Value → Result Fields
unfolding validated_fields
validated_link_properties null = ok end
validated_link_properties (dict fs) = validated_fields fs
validated_link_properties (frozen fs) = validated_fields fs
validated_link_properties _ = err type_error

-- `link_properties["link.passive"] = "true"`, on a mapping without that key
abbrev pub with_passive : Bool → Fields → Fields
with_passive false fs = fs
with_passive true end = field (text "link.passive") (str "true") end
with_passive true (field k v fs) = field k v (with_passive true fs)

abbrev pub has_key : String → Fields → Bool
has_key k fs = elim (lookup k fs) [ none ↦ false | some v ↦ true ]

-- `_link_has_endpoints`
unfoldable pub link_has_endpoints : Link → Endpoints → Bool
link_has_endpoints l e =
    l.output_node_id == e.output_node_id
    && (l.output_port_id == e.output_port_id
        && (l.input_node_id == e.input_node_id && l.input_port_id == e.input_port_id))

-- `[link for link in links if _link_has_endpoints(link, endpoints)]`
unfoldable pub same_topology : Endpoints → List Link → List Link
same_topology e [] = []
same_topology e (l ∷ ls) =
    let rest = same_topology e ls in if link_has_endpoints l e then l ∷ rest else rest

abbrev optional_text : Option String → Value
optional_text none = null
optional_text (some s) = str s

-- One entry of `conflicting_links`.
abbrev conflict : Link → Value
conflict l = dict (
    ("id", int (pos l.id))
    ↠ ("owner", optional_text l.owner)
    ↠ ("desired_id", optional_text l.desired_id)
    ↠ end)

abbrev conflicts : List Link → Items
conflicts [] = nil
conflicts (l ∷ ls) = cons (conflict l) (conflicts ls)

-- `**endpoints`, before the end of a mapping
abbrev pub endpoint_fields : Endpoints → Fields
endpoint_fields e =
    ("output_node_id", int (pos e.output_node_id))
    ↠ ("output_port_id", int (pos e.output_port_id))
    ↠ ("input_node_id", int (pos e.input_node_id))
    ↠ ("input_port_id", int (pos e.input_port_id))
    ↠ end

abbrev pub endpoints_of : LinkFields → Result Endpoints
endpoints_of args = do
  output_node ← pipewire_identifier args.output_node_id
  output_port ← pipewire_identifier args.output_port_id
  input_node ← pipewire_identifier args.input_node_id
  input_port ← pipewire_identifier args.input_port_id
  ok (record {
    output_node_id = output_node;
    output_port_id = output_port;
    input_node_id = input_node;
    input_port_id = input_port;
  })

-- Whether the ports are of the nodes, and in the right direction.
unfoldable pub is_attached : Node → Port → Node → Port → Bool
is_attached on op in_node ip =
    op.node_id == on.id
    && (ip.node_id == in_node.id
        && (same_direction op.direction output && same_direction ip.direction input))

module _ (py : Builtins) where
  -- `_link_ownership_conflict`
  unfoldable pub link_ownership_conflict :
      (clock : ℕ) → Request → (message : String) → List Link → Result Outcome
  link_ownership_conflict clock r message links =
      selection_failure py clock r ownership_conflict message
        (field (text "conflicting_links") (list (conflicts links)) end)

  -- `_validate_link_endpoints`
  unfoldable pub validate_link_endpoints :
      (clock : ℕ) → Request → Snapshot → Endpoints → Option (Result Outcome)
  validate_link_endpoints clock r s e =
      let absent = some (
        selection_failure py clock r target_not_found
          "one or more requested link endpoints are absent" end) in
      elim (get e.output_node_id s.nodes_by_id) [
        | none ↦ absent
        | some on ↦ elim (get e.input_node_id s.nodes_by_id) [
          | none ↦ absent
          | some in_node ↦ elim (get e.output_port_id s.ports_by_id) [
            | none ↦ absent
            | some op ↦ elim (get e.input_port_id s.ports_by_id) [
              | none ↦ absent
              | some ip ↦
                  if is_attached on op in_node ip
                  then none
                  else some (
                      selection_failure py clock r target_identity_changed
                        "a port no longer belongs to the requested node and direction" end)
            ]
          ]
        ]
      ]
