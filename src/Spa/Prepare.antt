-- ===== src/Spa/Prepare.antt =====
-- The values of known properties as the generic structures that the builder takes
-- (src/wyreplumber/spa_pod.py): the way back from Spa/Specialize. A mapping that is a struct already,
-- and what is of no shape that the property has, is left as it is.
use wyreplumber.Prelude.{
  ℕ, ℤ, pos, Bool, ◌||◌, Option, none, some, Result, ok, ◌>>=◌, if◌then◌else◌,
}
use wyreplumber.Value.{text}
use wyreplumber.Spa.Datum.{
  Datum, null, int, str, bytes, list, dict, Items, nil, cons, Entries, end, entry, lookup_or, holds,
  put_default, count, count_entries, as_mapping, marked,
}
use wyreplumber.Spa.Kinds.{
  PodKind, kind_number, int_kind, float_kind, id_kind, array_kind, struct_kind, object_kind,
  choice_kind,
}
use wyreplumber.Spa.Specs.{
  PropertySpec, Shape, dict_info, params, labels, profile_classes, array_int, array_float, array_id,
  object_props, object_format,
}
use wyreplumber.Spa.Tables.{property_spec_by_key, object_class}
use wyreplumber.Spa.Codec.{Codec, to_int, to_text, elements, key_datum, numbers}
use wyreplumber.Spa.Objects.{as_datum, new_object}

abbrev num : ℕ → Datum
num n = int (pos n)

-- `{"_pod_type": SPA_TYPE_Struct, "values": items}`
abbrev pub struct_of : Items → Datum
struct_of items = dict (
    entry (text "_pod_type") (num (kind_number struct_kind))
      (entry (text "values") (list items) end))

-- `{"_pod_type": SPA_TYPE_Array, "child_type": child, "values": items}`
abbrev pub array_of : PodKind → Items → Datum
array_of child items = dict (
    entry (text "_pod_type") (num (kind_number array_kind)) (
      entry (text "child_type") (num (kind_number child)) (entry (text "values") (list items) end)))

module _ (py : Codec) where
  abbrev pub text_items : Entries → Items
  text_items end = nil
  text_items (entry k v es) =
      cons (str (to_text py (key_datum k))) (cons (str (to_text py v)) (text_items es))

  abbrev pub named_items : Entries → Items
  named_items end = nil
  named_items (entry k v es) = cons (str (to_text py (key_datum k))) (cons v (named_items es))

  -- A mapping that is not a struct yet, rearranged.
  abbrev to_struct : (Entries → Items) → Datum → Datum
  to_struct rearrange v = elim (marked (kind_number struct_kind) v) [
    | some es ↦ v
    | none ↦ elim (as_mapping v) [ none ↦ v | some es ↦ struct_of (rearrange es) ]
  ]

  -- `_dict_info_to_struct` and `_params_to_struct`
  unfoldable pub dict_info_to_struct : Datum → Datum
  dict_info_to_struct = to_struct (λ es. cons (num (count_entries es)) (text_items es))

  unfoldable pub params_to_struct : Datum → Datum
  params_to_struct = to_struct named_items

  -- The two items of a sequence of two.
  abbrev pair_of : Items → Option (Datum × Datum)
  pair_of (cons a (cons b nil)) = some (a, b)
  pair_of _ = none

  abbrev pub two : Datum → Option (Datum × Datum)
  two (list vs) = pair_of vs
  two (str s) = pair_of (py.characters s)
  two (bytes b) = pair_of (numbers b)
  two _ = none

  abbrev label_parts : Datum → Option (Datum × Datum)
  label_parts v = elim (as_mapping v) [
    | some es ↦ some (lookup_or (text "value") null es, lookup_or (text "label") null es)
    | none ↦ two v
  ]

  abbrev label_items : Items → Option Items
  label_items nil = some nil
  label_items (cons v vs) = elim (label_parts v) [
    | none ↦ none
    | some parts ↦ elim (label_items vs) [
      | none ↦ none
      | some rest ↦ some (cons parts.0 (cons parts.1 rest))
    ]
  ]

  -- `_labels_to_struct`
  unfoldable pub labels_to_struct : Datum → Datum
  labels_to_struct (list vs) = elim (label_items vs) [
    | none ↦ list vs
    | some items ↦ struct_of items
  ]
  labels_to_struct v = v

  abbrev class_struct : Entries → Result Datum
  class_struct es = do
    n ← to_int py (lookup_or (text "count") (num 0) es)
    devices ← elements py (lookup_or (text "devices") (list nil) es)
    ok (
        struct_of (
          cons (str (to_text py (lookup_or (text "class") null es))) (
            cons (int n) (
              cons (str (to_text py (lookup_or (text "property") null es)))
                (cons (array_of int_kind devices) nil)))))

  -- `none` is the `return value` of an entry that is no mapping.
  abbrev class_items : Items → Result (Option Items)
  class_items nil = ok (some nil)
  class_items (cons v vs) = elim (as_mapping v) [
    | none ↦ ok none
    | some es ↦ (do
      first ← class_struct es
      rest ← class_items vs
      ok (elim rest [ none ↦ none | some items ↦ some (cons first items) ]))
  ]

  -- `_profile_classes_to_struct`
  unfoldable pub profile_classes_to_struct : Datum → Result Datum
  profile_classes_to_struct (list vs) = do
    items ← class_items vs
    ok (elim items [ none ↦ list vs | some cs ↦ struct_of (cons (num (count vs)) cs) ])
  profile_classes_to_struct v = ok v

  abbrev names_object : Entries → Bool
  names_object es =
      holds (text "object_type") es
      || holds (text "_object_type") es
      || holds (text "object_id") es
      || holds (text "_object_id") es

  abbrev generic_object : (object_type object_id : ℕ) → Entries → Datum
  generic_object object_type object_id es = dict (
      entry (text "_pod_type") (num (kind_number object_kind)) (
        entry (text "_object_type") (num object_type) (
          entry (text "_object_id") (num object_id) (
            entry (text "object_type") (num object_type) (
              entry (text "object_id") (num object_id) (
                entry (text "properties") (dict es) (
                  entry (text "property_flags") (dict end)
                    (entry (text "property_keys") (dict end) end))))))))

  -- `_ensure_object_value`
  unfoldable pub ensure_object_value : Datum → (object_type object_id : ℕ) → Result Datum
  unfolding object_class new_object
  ensure_object_value (dict es) object_type object_id =
      if names_object es then ok (dict es) else elim (object_class (pos object_id)) [
        | none ↦ ok (generic_object object_type object_id es)
        | some of ↦ (do
          o ← new_object py of es end end (some (pos object_type)) (some (pos object_id)) none
          ok (as_datum o))
      ]
  ensure_object_value v object_type object_id = ok v

  abbrev to_array : PodKind → Datum → Result Datum
  to_array child v = do items ← elements py v; ok (array_of child items)

  -- A choice is told the type of its children.
  abbrev typed_choice : PropertySpec → Entries → Entries
  typed_choice spec es = elim spec.pod_type [
    | some kind ↦ put_default (text "child_type") (num (kind_number kind)) es
    | none ↦ elim spec.enum_cls [
      | some cls ↦ put_default (text "child_type") (num (kind_number id_kind)) es
      | none ↦ es
    ]
  ]

  abbrev prepare_shape : Option Shape → Datum → Result Datum
  unfolding dict_info_to_struct params_to_struct labels_to_struct profile_classes_to_struct
      ensure_object_value
  prepare_shape (some dict_info) v = ok (dict_info_to_struct v)
  prepare_shape (some params) v = ok (params_to_struct v)
  prepare_shape (some labels) v = ok (labels_to_struct v)
  prepare_shape (some profile_classes) v = profile_classes_to_struct v
  prepare_shape (some array_int) v = to_array int_kind v
  prepare_shape (some array_float) v = to_array float_kind v
  prepare_shape (some array_id) v = to_array id_kind v
  prepare_shape (some object_props) v = ensure_object_value v 262146 2
  prepare_shape (some object_format) v = ensure_object_value v 262147 4
  prepare_shape none v = ok v

  -- `_prepare_property_value`
  unfoldable pub prepare_property_value : (object_id prop_key : ℤ) → Datum → Result Datum
  unfolding property_spec_by_key prepare_shape
  prepare_property_value object_id prop_key v = elim (property_spec_by_key object_id prop_key) [
    | none ↦ ok v
    | some spec ↦ elim (marked (kind_number choice_kind) v) [
      | some es ↦ ok (dict (typed_choice spec es))
      | none ↦ prepare_shape spec.shape v
    ]
  ]
