-- ===== src/Spa/Encode.antt =====
-- The rest of the builder of src/wyreplumber/spa_pod.py: objects, `build_spa_pod` itself, and the raw
-- dictionaries that cross to the native layer.
use wyreplumber.Prelude.{
  ℕ, zero, suc, ℤ, pos, negsuc, String, Option, none, some, List, [], ◌∷◌, ◌++◌, Result, ok, err,
  value_error, overflow_error, runtime_error, ◌>>=◌, if◌then◌else◌,
}
use wyreplumber.Value.{Key, text, number}
use wyreplumber.Spa.Wire.{pack_pod, parse_pod_header, u32_bytes}
use wyreplumber.Spa.Bytes.{pack_uint, pack_i32, pack_i64, u64_bytes}
use wyreplumber.Spa.Kinds.{
  PodKind, none_kind, bool_kind, id_kind, int_kind, long_kind, float_kind, double_kind, string_kind,
  bytes_kind, rectangle_kind, fraction_kind, bitmap_kind, array_kind, struct_kind, object_kind,
  sequence_kind, pointer_kind, fd_kind, choice_kind, pod_kind, kind_number, kind_of,
}
use wyreplumber.Spa.Datum.{
  Datum, null, int, bytes, dict, object, Entries, end, entry, lookup_or, as_mapping, truth,
  explicit_pod_type,
}
use wyreplumber.Spa.Specs.{PropertySpec}
use wyreplumber.Spa.Tables.{property_spec_by_key, property_spec_by_name, object_type_for_id}
use wyreplumber.Spa.Codec.{Codec, to_int, to_double, to_text, to_bytes}
use wyreplumber.Spa.Prepare.{prepare_property_value}
use wyreplumber.Spa.Decode.{parse_spa_pod}
use wyreplumber.Spa.Infer.{infer_spa_type, is_null, rectangle_parts, fraction_parts}
use wyreplumber.Spa.Build.{
  build_pointer_pod, build_array_pod, build_struct_pod, build_choice_pod, build_sequence_pod,
  build_embedded_pod,
}

-- What `_build_object_pod` reads out of its value; `null` is None.
pub record ObjectParts : Type 0 where
  pub object_type : Datum
  pub object_id : Datum
  pub properties : Datum
  pub flags : Entries
  pub keys : Entries

-- `if not isinstance(value, Mapping): value = {}`
abbrev mapping_or_empty : Datum → Entries
mapping_or_empty v = elim (as_mapping v) [ none ↦ end | some es ↦ es ]

unfoldable pub object_parts : Datum → Option ObjectParts
object_parts (object of object_type object_id name properties flags keys) = some (record {
  object_type = int object_type;
  object_id = int object_id;
  properties = dict properties;
  flags = flags;
  keys = keys;
})
object_parts (dict es) =
    let get = λ (key : String) (default : Datum). lookup_or (text key) default es in
    some (record {
      object_type = get "object_type" (get "_object_type" null);
      object_id = get "object_id" (get "_object_id" null);
      properties = get "properties" (dict end);
      flags = mapping_or_empty (get "property_flags" (dict end));
      keys = mapping_or_empty (get "property_keys" (dict end));
    })
object_parts _ = none

-- The number of a property and its spec, from its key.
unfoldable pub property_key :
    (object_id : ℤ) → (keys : Entries) → Key → Result (Datum × Option PropertySpec)
unfolding property_spec_by_key property_spec_by_name
property_key object_id keys (number n) = ok (int n, property_spec_by_key object_id n)
property_key object_id keys (text word) =
    let spec = property_spec_by_name object_id word in
    let known = lookup_or (text word) null keys in
    if is_null known
    then elim spec [ none ↦ err value_error | some s ↦ ok (int (pos s.key), some s) ]
    else ok (known, spec)

-- The type that is built: the value's own, or else its spec's.
abbrev nested_type : Datum → Option PropertySpec → Option ℤ
unfolding explicit_pod_type
nested_type v spec = elim (explicit_pod_type v) [
  | some n ↦ some n
  | none ↦ elim spec [
    | none ↦ none
    | some s ↦ elim s.pod_type [ none ↦ none | some kind ↦ some (pos (kind_number kind)) ]
  ]
]

module _ (py : Codec) where
  -- `object_type`, or the type that the tables have for the id.
  unfoldable pub type_or_default : Datum → Datum → Result Datum
  unfolding object_type_for_id
  type_or_default null object_id = do
    n ← to_int py object_id
    elim (object_type_for_id n) [ none ↦ err value_error | some t ↦ ok (int (pos t)) ]
  type_or_default given object_id = ok given

  module _ (build : Datum → Option ℤ → Result (List ℕ)) where
    unfoldable pub property_chunks :
        (object_id : ℤ) → (flags keys : Entries) → Entries → Result (List ℕ)
    unfolding property_key prepare_property_value nested_type pack_uint
    property_chunks object_id flags keys end = ok []
    property_chunks object_id flags keys (entry key raw_value rest) = do
      (known, spec) ← property_key object_id keys key
      prop_key ← to_int py known
      value ← prepare_property_value py object_id prop_key raw_value
      pod ← build value (nested_type value spec)
      flag ← to_int py (lookup_or key (int (pos 0)) flags)
      a ← pack_uint prop_key
      b ← pack_uint flag
      more ← property_chunks object_id flags keys rest
      ok (a ++ (b ++ (pod ++ more)))

    -- The pod of an object whose type and properties are known.
    abbrev pub properties_pod : ObjectParts → Datum → Entries → Result (List ℕ)
    properties_pod found kind properties = do
      object_type ← to_int py kind
      object_id ← to_int py found.object_id
      a ← pack_uint object_type
      b ← pack_uint object_id
      chunks ← property_chunks object_id found.flags found.keys properties
      pack_pod (kind_number object_kind) (a ++ (b ++ chunks))

    abbrev pub known_object_pod : ObjectParts → Result (List ℕ)
    known_object_pod found = do
      kind ← type_or_default found.object_type found.object_id
      elim (as_mapping found.properties) [
        | none ↦ err value_error
        | some properties ↦ properties_pod found kind properties
      ]

    -- `_build_object_pod`
    unfoldable pub build_object_pod : Datum → Result (List ℕ)
    unfolding object_parts property_chunks type_or_default pack_uint pack_pod
    build_object_pod v = elim (object_parts v) [
      | none ↦ err value_error
      | some found ↦ if is_null found.object_id then err value_error else known_object_pod found
    ]

    unfoldable pub packed : PodKind → Result (List ℕ) → Result (List ℕ)
    packed kind content = do raw ← content; pack_pod (kind_number kind) raw

    unfoldable pub pair_bytes : Result (ℤ × ℤ) → Result (List ℕ)
    unfolding pack_uint
    pair_bytes numbers = do (m, n) ← numbers; a ← pack_uint m; b ← pack_uint n; ok (a ++ b)

    abbrev pub float_bytes : ℕ → Result (List ℕ)
    unfolding u32_bytes
    float_bytes x = elim (py.pack_float x) [
      | none ↦ err overflow_error
      | some bits ↦ ok (u32_bytes bits)
    ]

    -- A value as a pod of a known type.
    unfoldable pub build_value : PodKind → Datum → Result (List ℕ)
    unfolding pair_bytes float_bytes pack_uint pack_i32 pack_i64 u64_bytes rectangle_parts
        fraction_parts build_pointer_pod build_array_pod build_struct_pod build_object_pod
        build_sequence_pod build_choice_pod build_embedded_pod
    build_value none_kind v = packed none_kind (ok [])
    build_value bool_kind v = packed bool_kind (pack_i32 (if truth v then pos 1 else pos 0))
    build_value id_kind v = packed id_kind (do n ← to_int py v; pack_uint n)
    build_value int_kind v = packed int_kind (do n ← to_int py v; pack_i32 n)
    build_value long_kind v = packed long_kind (do n ← to_int py v; pack_i64 n)
    build_value float_kind v = packed float_kind (do x ← to_double py v; float_bytes x)
    build_value double_kind v = packed double_kind (do x ← to_double py v; ok (u64_bytes x))
    build_value string_kind v = packed string_kind (ok (py.encode (to_text py v) ++ 0 ∷ []))
    build_value bytes_kind v = packed bytes_kind (to_bytes py v)
    build_value rectangle_kind v = packed rectangle_kind (pair_bytes (rectangle_parts py v))
    build_value fraction_kind v = packed fraction_kind (pair_bytes (fraction_parts py v))
    build_value bitmap_kind v =
        packed bitmap_kind (
          to_bytes py
            (elim (as_mapping v) [ some es ↦ lookup_or (text "data") null es | none ↦ v ]))
    build_value array_kind v = build_array_pod py build v
    build_value struct_kind v = build_struct_pod py build v
    build_value object_kind v = build_object_pod v
    build_value sequence_kind v = build_sequence_pod py build v
    build_value pointer_kind v = build_pointer_pod py v
    build_value fd_kind v = packed fd_kind (do n ← to_int py v; pack_i64 n)
    build_value choice_kind v = build_choice_pod py build v
    build_value pod_kind v = build_embedded_pod py build v

    -- The body of `build_spa_pod`, with the builder that it calls for the values within.
    abbrev pub chosen_type : Datum → Option ℤ → Result ℤ
    unfolding infer_spa_type explicit_pod_type
    chosen_type v (some n) = ok n
    chosen_type v none = elim (explicit_pod_type v) [ some n ↦ ok n | none ↦ infer_spa_type v ]

    unfoldable pub of_type : ℤ → Datum → Result (List ℕ)
    unfolding kind_of build_value
    of_type (negsuc n) v = err value_error
    of_type (pos n) v = elim (kind_of n) [ none ↦ err value_error | some kind ↦ build_value kind v ]

    unfoldable pub build_at : Datum → Option ℤ → Result (List ℕ)
    unfolding chosen_type of_type
    build_at v pod_type = do kind ← chosen_type v pod_type; of_type kind v

  -- `build_spa_pod`, at a depth of the stack.
  unfoldable pub build_spa_pod : (depth : ℕ) → Datum → Option ℤ → Result (List ℕ)
  unfolding build_at
  build_spa_pod zero v pod_type = err (runtime_error "maximum recursion depth exceeded")
  build_spa_pod (suc depth) v pod_type = build_at (build_spa_pod depth) v pod_type

  -- `build_spa_pod_dict`
  unfoldable pub build_spa_pod_dict : (depth : ℕ) → Datum → Option ℤ → Result Datum
  unfolding build_spa_pod parse_pod_header
  build_spa_pod_dict depth v pod_type = do
    raw ← build_spa_pod depth v pod_type
    (size, spa_type) ← parse_pod_header raw
    ok (
        dict (
          entry (text "type") (int (pos spa_type))
            (entry (text "size") (int (pos size)) (entry (text "data") (bytes raw) end))))

  -- `parse_spa_pod_dict`
  unfoldable pub parse_spa_pod_dict : Datum → Datum
  unfolding parse_spa_pod
  parse_spa_pod_dict (dict es) = elim (lookup_or (text "data") null es) [
    | bytes raw ↦ elim (parse_spa_pod py raw) [ ok v ↦ v | err raised ↦ dict es ]
    | _ ↦ dict es
  ]
  parse_spa_pod_dict v = v
