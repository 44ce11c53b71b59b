-- ===== src/Spa/ParseObject.antt =====
-- Choices and objects, as `parse_spa_pod` reads them (src/wyreplumber/spa_pod.py).
use wyreplumber.Prelude.{
  ℕ, zero, suc, ◌+◌, ◌-◌, pos, String, true, false, ◌==◌, ltb, leb, Option, none, some, List,
  Result, ok, ◌>>=◌, if◌then◌else◌,
}
use wyreplumber.Value.{Key, text, number}
use wyreplumber.Spa.Wire.{align, parse_pod_header}
use wyreplumber.Spa.Bytes.{drop, read_u32}
use wyreplumber.Spa.Kinds.{none_kind, object_kind, choice_kind, kind_number}
use wyreplumber.Spa.Datum.{Datum, str, list, dict, Items, nil, cons, Entries, end, entry, put}
use wyreplumber.Spa.Tables.{property_spec_by_key, object_param_name, object_class}
use wyreplumber.Spa.Codec.{Codec}
use wyreplumber.Spa.Objects.{as_datum, new_object}
use wyreplumber.Spa.Specialize.{specialize_property_value}
use wyreplumber.Spa.Parse.{num, structure, children}

-- The names that `_parse_choice` gives to alternatives, by the type of the choice: a range is
-- default, min and max, a step has a step too, an enumeration and flags have alternatives.
abbrev range_names : Items → Entries
range_names (cons v (cons low (cons high vs))) =
    entry (text "default") v (entry (text "min") low (entry (text "max") high end))
range_names _ = end

abbrev step_names : Items → Entries
step_names (cons v (cons low (cons high (cons step vs)))) =
    entry (text "default") v
      (entry (text "min") low (entry (text "max") high (entry (text "step") step end)))
step_names _ = end

abbrev alternatives : String → Items → Entries
alternatives others nil = end
alternatives others (cons v vs) = entry (text "default") v (entry (text others) (list vs) end)

abbrev value_name : Items → Entries
value_name nil = end
value_name (cons v vs) = entry (text "value") v end

abbrev choice_names : (choice_type : ℕ) → Items → Entries
choice_names choice_type values =
    if choice_type == 1
    then range_names values
    else if choice_type == 2
    then step_names values
    else if choice_type == 3
    then alternatives "alternatives" values
    else if choice_type == 4
    then alternatives "flags_values" values
    else if choice_type == 0
    then value_name values
    else end

abbrev pub choice : (choice_type flags child_size child_type : ℕ) → Items → Datum
choice choice_type flags child_size child_type values = structure choice_kind (
    entry (text "choice_type") (num choice_type) (
      entry (text "flags") (num flags) (
        entry (text "child_size") (num child_size) (
          entry (text "child_type") (num child_type)
            (entry (text "values") (list values) (choice_names choice_type values))))))

-- `_parse_choice`
unfoldable pub parse_choice : (parse : List ℕ → Result Datum) → List ℕ → ℕ → Result Datum
unfolding children read_u32
parse_choice parse raw size =
    if ltb size 16 then ok (choice 0 0 0 (kind_number none_kind) nil) else do
      (choice_type, a) ← read_u32 raw
      (flags, b) ← read_u32 a
      (child_size, c) ← read_u32 b
      (child_type, rest) ← read_u32 c
      elim (child_size == 0) [
        | true ↦ ok (choice choice_type flags child_size child_type nil)
        | false ↦ (do
          values ← children parse size child_size child_type (size - 16) rest
          ok (choice choice_type flags child_size child_type values))
      ]

-- `_resolve_property_name`
unfoldable pub resolve_property_name : (object_id prop_key : ℕ) → Key
unfolding property_spec_by_key
resolve_property_name object_id prop_key =
    elim (property_spec_by_key (pos object_id) (pos prop_key)) [
      | none ↦ number (pos prop_key)
      | some spec ↦ text spec.name
    ]

-- What the loop of `_parse_object` has collected.
pub record Collected : Type 0 where
  pub properties : Entries
  pub flags : Entries
  pub keys : Entries

abbrev pub nothing_collected : Collected
nothing_collected = record { properties = end; flags = end; keys = end }

abbrev pub generic_object :
    (object_type object_id : ℕ) → Collected → (object_name : Entries) → Datum
generic_object object_type object_id found object_name = structure object_kind (
    entry (text "_object_type") (num object_type) (
      entry (text "_object_id") (num object_id) (
        entry (text "object_type") (num object_type) (
          entry (text "object_id") (num object_id) (
            entry (text "properties") (dict found.properties) (
              entry (text "property_flags") (dict found.flags)
                (entry (text "property_keys") (dict found.keys) object_name)))))))

abbrev named : Option String → Entries
named none = end
named (some name) = entry (text "object_name") (str name) end

module _ (py : Codec) where
  -- One property of an object: its flags, its number and the value of its pod.
  unfoldable pub collect_property :
      (object_id prop_key flags : ℕ) → Datum → Collected → Result Collected
  unfolding resolve_property_name specialize_property_value
  collect_property object_id prop_key flags value found =
      elim (resolve_property_name object_id prop_key) [
        | text word ↦ (do
          special ← specialize_property_value py (pos object_id) (pos prop_key) value
          ok (record {
            properties = put (text word) special found.properties;
            flags = put (text word) (num flags) found.flags;
            keys = put (text word) (num prop_key) found.keys;
          }))
        | number n ↦ ok (record found {
          properties = put (number n) value found.properties;
          flags = put (number n) (num flags) found.flags;
        })
      ]

  -- The properties of an object, at most `n`.
  unfoldable pub object_items :
      (parse : List ℕ → Result Datum)
      → (n object_id left : ℕ) → List ℕ
      → Collected
      → Result Collected
  unfolding collect_property parse_pod_header align read_u32
  object_items parse zero object_id left raw found = ok found
  object_items parse (suc n) object_id left raw found = elim (leb 16 left) [
    | false ↦ ok found
    | true ↦ (do
      (prop_key, more) ← read_u32 raw
      (flags, pod) ← read_u32 more
      (pod_size, kind) ← parse_pod_header pod
      let total_pod_size = align (8 + pod_size)
      elim (ltb (left - 8) total_pod_size) [
        | true ↦ ok found
        | false ↦ (do
          value ← parse pod
          next ← collect_property object_id prop_key flags value found
          object_items parse n object_id (left - 8 - total_pod_size) (drop total_pod_size pod) next)
      ])
  ]

  -- The object of a class that the codec knows, or a generic one.
  unfoldable pub object_result : (object_type object_id : ℕ) → Collected → Result Datum
  unfolding object_class object_param_name new_object
  object_result object_type object_id found = elim (object_class (pos object_id)) [
    | none ↦
        ok (generic_object object_type object_id found (named (object_param_name (pos object_id))))
    | some of ↦ (do
      o ←
          new_object py of found.properties found.flags found.keys (some (pos object_type))
            (some (pos object_id)) (object_param_name (pos object_id))
      ok (as_datum o))
  ]

  -- `_parse_object`
  unfoldable pub parse_object : (parse : List ℕ → Result Datum) → List ℕ → ℕ → Result Datum
  unfolding object_items object_result read_u32
  parse_object parse raw size =
      if ltb size 8 then ok (generic_object 0 0 nothing_collected end) else do
        (object_type, more) ← read_u32 raw
        (object_id, rest) ← read_u32 more
        found ← object_items parse size object_id (size - 8) rest nothing_collected
        object_result object_type object_id found
