-- ===== src/Tests/Codec.antt =====
-- Concrete values through the SPA pod codec of src/wyreplumber/spa_pod.py.
use wyreplumber.Prelude.{
  ℕ, ◌<◌, ◌≤◌, ◌+◌, pos, String, Option, none, some, List, [], ◌∷◌, ◌++◌, ok, err, type_error,
  value_error, ltb, if◌then◌else◌, length, ◌≡◌, refl, arith,
}
use wyreplumber.Value.{text, number}
use wyreplumber.Spa.Wire.{
  align, u32_bytes, pack_pod, pack_u32, zeros, parse_pod_header, ensure_available,
}
use wyreplumber.Spa.Bytes.{pack_i32, unsigned, take, drop}
use wyreplumber.Spa.Kinds.{kind_of, pod_kind, float_kind}
use wyreplumber.Spa.Infer.{infer_spa_type}
use wyreplumber.Spa.Build.{build_embedded_pod}
use wyreplumber.Spa.Parse.{structure, parse_embedded_pod}
use wyreplumber.Spa.Codec.{Codec}
use wyreplumber.Spa.Datum.{
  Datum, bytes, explicit_pod_type, int, float, nil, end, entry, dict, lookup,
}
use wyreplumber.Spa.Trees.{
  Tree, string_pod, rectangle_pod, int_pod, ints_pod, embedded_pod, struct_pod, pods, no_pods,
  value_of, size, height, Fits,
}
use wyreplumber.Spa.Tables.{specs_of, object_type_for_id, object_param_name}
use wyreplumber.Spa.Specs.{PropertySpec}
use wyreplumber.Spa.Decode.{parse_spa_pod, parse_pod, pod_at, pod_value}
use wyreplumber.Spa.Encode.{build_spa_pod, build_at, of_type, build_value, packed}
use wyreplumber.Spa.Objects.{
  SpaPodObject, new_object, set_items, set_item, key_to_storage, spec_of, get_item,
}
use wyreplumber.Spa.Access.{Reached, made, get_item-number, get_item-set_item}
use wyreplumber.Spa.Structs.{struct_to_dict_info}
use wyreplumber.Spa.Prepare.{dict_info_to_struct}
use wyreplumber.Spa.Dictionaries.{
  as_data, entries_of, Fresh, struct_to_dict_info-dict_info_to_struct,
}
use wyreplumber.Spa.Nested.{parse_spa_pod-build_spa_pod}
use wyreplumber.Spa.Shape.{IsPod, build_spa_pod-IsPod}

-- The codec of a Python whose only text is "hi", and whose 32-bit floats are their patterns.
pack_bits : ℕ → Option ℕ
pack_bits x = if ltb x 4294967296 then some x else none

pack_bits-Bounded : (x bits : ℕ) → pack_bits x ≡ some bits → bits < 4294967296
unfolding pack_bits
pack_bits-Bounded x bits h = ground (arith, h)

abbrev codec : Codec
codec = record {
  whole = λ v. err type_error;
  double = λ v. err type_error;
  shown = λ v. "hi";
  bytes_of = λ v. err type_error;
  characters = λ s. nil;
  encode = λ s. 104 ∷ 105 ∷ [];
  decode = λ b. "hi";
  pack_float = pack_bits;
  unpack_float = λ x. x;
  pack_float-Bounded = pack_bits-Bounded;
}

-- A struct of a text, a rectangle, a pod within a pod and an array.
abbrev tree : Tree
tree = struct_pod (
    pods (string_pod "hi") (
      pods (rectangle_pod 640 480) (
        pods (embedded_pod (int_pod (pos 7)))
          (pods (ints_pod (pos 44100 ∷ pos 48000 ∷ [])) no_pods))))

tree-Fits : Fits codec tree
unfolding Fits size align
tree-Fits = (
  (
    (((omega arith, (omega arith, tt)), refl), omega arith),
    (
      (omega arith, omega arith),
      ((refl, omega arith, omega arith), (((omega arith, (omega arith, tt)), omega arith), tt)),
    ),
  ),
  omega arith,
)

tree-height : height tree ≤ 9
unfolding height
tree-height = omega arith

parse_spa_pod-build_spa_pod_example :
    (raw : List ℕ) × (build_spa_pod codec 9 (value_of tree) none ≡ ok raw)
    × (length raw ≡ align (8 + size codec tree))
    × (parse_spa_pod codec (raw ++ 1 ∷ 2 ∷ []) ≡ ok (value_of tree))
parse_spa_pod-build_spa_pod_example =
    parse_spa_pod-build_spa_pod codec tree 9 (1 ∷ 2 ∷ []) tree-Fits tree-height

abbrev five : List ℕ
five = 4 ∷ 0 ∷ 0 ∷ 0 ∷ 4 ∷ 0 ∷ 0 ∷ 0 ∷ 5 ∷ 0 ∷ 0 ∷ 0 ∷ 0 ∷ 0 ∷ 0 ∷ 0 ∷ []

built_five : build_spa_pod codec 1 (int (pos 5)) none ≡ ok five
unfolding build_spa_pod build_at explicit_pod_type infer_spa_type of_type kind_of build_value packed
    pack_i32 unsigned u32_bytes pack_pod pack_u32 align zeros
built_five = refl

build_spa_pod-IsPod_example : IsPod five
build_spa_pod-IsPod_example = build_spa_pod-IsPod codec 1 (int (pos 5)) none five built_five

-- The three bytes 1, 2, 3 as a pod, in a pod.
abbrev bytes_within : List ℕ
bytes_within =
    16 ∷ 0 ∷ 0 ∷ 0 ∷ 20 ∷ 0 ∷ 0 ∷ 0 ∷ 3 ∷ 0 ∷ 0 ∷ 0 ∷ 9 ∷ 0 ∷ 0 ∷ 0 ∷ 1 ∷ 2 ∷ 3 ∷ 0 ∷ 0 ∷ 0 ∷ 0 ∷ 0
    ∷ []

abbrev value_within : Datum
value_within = structure pod_kind (entry (text "pod") (bytes (1 ∷ 2 ∷ 3 ∷ [])) end)

-- It is parsed, but what it is parsed to cannot be built again.
bytes_within_parsed : parse_spa_pod codec bytes_within ≡ ok value_within
unfolding parse_spa_pod parse_pod pod_at parse_pod_header ensure_available kind_of pod_value drop
    take parse_embedded_pod align
bytes_within_parsed = refl

value_within_refused : build_spa_pod codec 9 value_within none ≡ err value_error
unfolding build_spa_pod build_at explicit_pod_type infer_spa_type of_type kind_of build_value
    build_embedded_pod parse_pod_header
value_within_refused = refl

-- A SpaProps with a volume, given by its number.
abbrev props : SpaPodObject
props = record {
  of = 2;
  object_type = pos 262146;
  object_id = pos 2;
  object_name = some "Props";
  properties = entry (text "volume") (float 1) end;
  property_flags = entry (text "volume") (int (pos 0)) end;
  property_keys = entry (text "volume") (int (pos 65539)) end;
}

made_props :
    new_object codec 2 (entry (number (pos 65539)) (float 1) end) end end none none none ≡ ok props
unfolding new_object set_items set_item key_to_storage specs_of spec_of object_type_for_id
    object_param_name
made_props = refl

abbrev volume : PropertySpec
volume = record {
  key = 65539;
  name = "volume";
  pod_type = some float_kind;
  shape = none;
  enum_cls = none;
}

volume_spec : spec_of (specs_of 2) (number (pos 65539)) ≡ some volume
unfolding specs_of spec_of
volume_spec = refl

props-Reached : Reached codec props
props-Reached = made 2 (entry (number (pos 65539)) (float 1) end) end end none none none made_props

get_item-number_example : get_item props (number (pos 65539)) ≡ get_item props (text "volume")
get_item-number_example = get_item-number codec props (pos 65539) volume props-Reached volume_spec

abbrev quiet : SpaPodObject
quiet = record props { properties = entry (text "volume") (float 0) end }

set_quiet : set_item codec props (number (pos 65539)) (float 0) ≡ ok quiet
unfolding set_item key_to_storage specs_of spec_of
set_quiet = refl

get_item-set_item_example : get_item quiet (number (pos 65539)) ≡ some (float 0)
get_item-set_item_example =
    get_item-set_item codec props quiet (number (pos 65539)) (float 0) props-Reached set_quiet

-- The information of a route.
abbrev info : List (String × String)
info = ("port.type", "speaker") ∷ ("device.icon", "card") ∷ []

info-Fresh : Fresh end (as_data info)
unfolding Fresh as_data
info-Fresh = (refl, (refl, tt))

info_unmarked : lookup (text "_pod_type") (entries_of (as_data info)) ≡ none
unfolding entries_of as_data
info_unmarked = refl

struct_to_dict_info-dict_info_to_struct_example :
    struct_to_dict_info codec (dict_info_to_struct codec (dict (entries_of (as_data info))))
    ≡ ok (dict (entries_of (as_data info)))
struct_to_dict_info-dict_info_to_struct_example =
    struct_to_dict_info-dict_info_to_struct codec info info-Fresh info_unmarked
