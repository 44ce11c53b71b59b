-- ===== src/Spa/Specialize.antt =====
-- The values of known properties, from the generic structures that the parser makes of their pods
-- (src/wyreplumber/spa_pod.py): members of enumerations, alternatives of choices, shapes.
use wyreplumber.Prelude.{
  ℤ, pos, negsuc, String, Bool, false, Option, none, some, Result, ok, ◌>>=◌, if◌then◌else◌, str_eq,
}
use wyreplumber.Value.{text}
use wyreplumber.Spa.Datum.{
  Datum, member, list, dict, Items, nil, cons, Entries, lookup, put, int_of, marked,
}
use wyreplumber.Spa.Kinds.{kind_number, array_kind, choice_kind}
use wyreplumber.Spa.Enums.{EnumClass, is_member}
use wyreplumber.Spa.Specs.{
  Shape, dict_info, params, labels, profile_classes, array_int, array_float, array_id, object_props,
  object_format,
}
use wyreplumber.Spa.Tables.{property_spec_by_key}
use wyreplumber.Spa.Codec.{Codec, elements}
use wyreplumber.Spa.Structs.{
  convert_all, as_integer, as_double, array_to_values, struct_to_dict_info, struct_to_params,
  struct_to_labels, struct_to_profile_classes,
}

-- `_coerce_enum_member`
abbrev pub is_instance : Datum → EnumClass → Bool
is_instance (member e n) cls = str_eq e cls.class_name
is_instance _ cls = false

unfoldable pub coerce_enum_member : Datum → EnumClass → Datum
coerce_enum_member v cls = if is_instance v cls then v else elim (int_of v) [
  | none ↦ v
  | some n ↦ elim n [
    | pos k ↦ if is_member k cls.members then member cls.class_name (pos k) else v
    | negsuc k ↦ v
  ]
]

abbrev pub coerce_all : Items → EnumClass → Items
coerce_all nil cls = nil
coerce_all (cons v vs) cls = cons (coerce_enum_member v cls) (coerce_all vs cls)

module _ (py : Codec) where
  -- `choice[key] = change(choice[key])`, if the key is there
  abbrev pub change_key : (Datum → Result Datum) → Entries → String → Result Entries
  change_key change es key = elim (lookup (text key) es) [
    | none ↦ ok es
    | some v ↦ (do w ← change v; ok (put (text key) w es))
  ]

  abbrev pub change_items : (Datum → Result Datum) → Datum → Result Datum
  change_items change v = do
    items ← elements py v
    changed ← convert_all change items
    ok (list changed)

  -- The alternatives of a choice, and the names that `_parse_choice` gives to some of them.
  abbrev pub change_choice : (Datum → Result Datum) → Entries → Result Datum
  change_choice change es = do
    a ← change_key (change_items change) es "values"
    b ← change_key change a "value"
    c ← change_key change b "default"
    d ← change_key change c "min"
    e ← change_key change d "max"
    f ← change_key change e "step"
    g ← change_key (change_items change) f "alternatives"
    h ← change_key (change_items change) g "flags_values"
    ok (dict h)

  -- A value, or each alternative of a choice.
  abbrev pub on_choice : (Datum → Result Datum) → Datum → Result Datum
  on_choice change v = elim (marked (kind_number choice_kind) v) [
    | none ↦ change v
    | some es ↦ change_choice change es
  ]

  -- `specialize` of `_specialize_array_property`
  abbrev pub specialize : (Datum → Result Datum) → Option EnumClass → Datum → Result Datum
  unfolding array_to_values
  specialize convert none candidate = array_to_values py candidate convert
  specialize convert (some cls) candidate = elim (marked (kind_number array_kind) candidate) [
    | none ↦ ok candidate
    | some es ↦ (do
      values ← array_to_values py candidate convert
      items ← elements py values
      ok (list (coerce_all items cls)))
  ]

  -- `_specialize_array_property`
  unfoldable pub specialize_array_property :
      Datum → (Datum → Result Datum) → Option EnumClass → Result Datum
  specialize_array_property v convert cls = on_choice (specialize convert cls) v

  -- `_coerce_enum_property_value`
  unfoldable pub coerce_enum_property_value : Datum → EnumClass → Result Datum
  unfolding coerce_enum_member
  coerce_enum_property_value v cls = on_choice (λ item. ok (coerce_enum_member item cls)) v

  abbrev pub specialize_enum : Option EnumClass → Datum → Result Datum
  specialize_enum none v = ok v
  specialize_enum (some cls) v = coerce_enum_property_value v cls

  abbrev pub specialize_shape : Option Shape → Option EnumClass → Datum → Result Datum
  unfolding struct_to_dict_info struct_to_params struct_to_labels struct_to_profile_classes
      specialize_array_property coerce_enum_property_value
  specialize_shape (some dict_info) cls v = struct_to_dict_info py v
  specialize_shape (some params) cls v = struct_to_params py v
  specialize_shape (some labels) cls v = struct_to_labels py v
  specialize_shape (some profile_classes) cls v = struct_to_profile_classes py v
  specialize_shape (some array_int) cls v = specialize_array_property v (as_integer py) none
  specialize_shape (some array_float) cls v = specialize_array_property v (as_double py) none
  specialize_shape (some array_id) cls v = specialize_array_property v (as_integer py) cls
  specialize_shape (some object_props) cls v = specialize_enum cls v
  specialize_shape (some object_format) cls v = specialize_enum cls v
  specialize_shape none cls v = specialize_enum cls v

  -- `_specialize_property_value`
  unfoldable pub specialize_property_value : (object_id prop_key : ℤ) → Datum → Result Datum
  unfolding property_spec_by_key specialize_shape
  specialize_property_value object_id prop_key v = elim (property_spec_by_key object_id prop_key) [
    | none ↦ ok v
    | some spec ↦ specialize_shape spec.shape spec.enum_cls v
  ]
