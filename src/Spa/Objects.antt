-- ===== src/Spa/Objects.antt =====
-- `SpaPodObject` (src/wyreplumber/_spa_pod_types.py): a mutable mapping of properties, by name where
-- its class has one, with the flags and the numbers that the properties have in the pod. Keys are
-- texts or integers, so that no operation meets its `raise KeyError(key)` for other keys.
use wyreplumber.Prelude.{
  ℕ, ℤ, pos, negsuc, String, Option, none, some, List, Result, ok, err, key_error, ◌>>=◌,
  if◌then◌else◌,
}
use wyreplumber.Value.{Key, text, number}
use wyreplumber.Spa.Datum.{
  Datum, int, dict, object, Entries, end, entry, lookup, lookup_or, holds, put, put_default, remove,
}
use wyreplumber.Spa.Specs.{PropertySpec}
use wyreplumber.Spa.Tables.{by_key, by_name, specs_of, object_param_name, object_type_for_id}
use wyreplumber.Spa.Codec.{Codec, to_int}

pub record SpaPodObject : Type 0 where
  -- the SPA_OBJECT_ID of the class
  pub of : ℕ
  pub object_type : ℤ
  pub object_id : ℤ
  pub object_name : Option String
  pub properties : Entries
  pub property_flags : Entries
  pub property_keys : Entries

abbrev pub as_datum : SpaPodObject → Datum
as_datum o =
    object o.of o.object_type o.object_id o.object_name o.properties o.property_flags
      o.property_keys

-- The spec that a key of the class names: `_property_specs_by_key.get(key)` of an integer,
-- `_property_specs_by_name.get(key)` of a text.
unfoldable pub spec_of : List PropertySpec → Key → Option PropertySpec
spec_of specs (number (pos n)) = by_key specs n
spec_of specs (number (negsuc n)) = none
spec_of specs (text word) = by_name specs word

-- The number that `_key_to_storage` notes for a spec: the key itself, or the spec's for a name.
abbrev pub spec_number : PropertySpec → Key → ℤ
spec_number spec (number n) = n
spec_number spec (text word) = pos spec.key

-- Where a property is stored: under the name of its spec, if it has one.
abbrev pub storage_key : Key → Option PropertySpec → Key
storage_key key none = key
storage_key key (some spec) = text spec.name

abbrev pub noted : SpaPodObject → Key → Option PropertySpec → SpaPodObject
noted o key none = o
noted o key (some spec) = record o {
  property_keys = put_default (text spec.name) (int (spec_number spec key)) o.property_keys;
}

-- `_key_to_storage`
unfoldable pub key_to_storage : SpaPodObject → Key → SpaPodObject × Key
key_to_storage o key =
    let spec = spec_of (specs_of o.of) key in (noted o key spec, storage_key key spec)

-- The key that a key stands for when it is not stored itself.
abbrev pub known_key : Entries → Key → Option PropertySpec → Key
known_key es key none = key
known_key es key (some spec) = if holds (text spec.name) es then text spec.name else key

-- `_resolve_existing_key`
unfoldable pub resolve_existing_key : SpaPodObject → Key → Key
resolve_existing_key o key =
    if holds key o.properties then key else known_key o.properties key (spec_of (specs_of o.of) key)

-- `get`, which `__getattr__` and the accessors of `_object_property` end in; `none` is its default.
unfoldable pub get_item : SpaPodObject → Key → Option Datum
get_item o key = lookup (resolve_existing_key o key) o.properties

-- `if isinstance(storage_key, str): self.property_keys.pop(storage_key, None)`
abbrev forget_key : Key → Entries → Entries
forget_key (text word) keys = remove (text word) keys
forget_key (number n) keys = keys

-- `__delitem__`
unfoldable pub del_item : SpaPodObject → Key → Result SpaPodObject
del_item o key =
    let storage = resolve_existing_key o key in
    if holds storage o.properties
    then ok (record o {
      properties = remove storage o.properties;
      property_flags = remove storage o.property_flags;
      property_keys = forget_key storage o.property_keys;
    })
    else err key_error

-- `as_pod_mapping`
unfoldable pub as_pod_mapping : SpaPodObject → Datum
as_pod_mapping o = dict (
    entry (text "_pod_type") (int (pos 15)) (
      entry (text "_object_type") (int o.object_type) (
        entry (text "_object_id") (int o.object_id) (
          entry (text "object_type") (int o.object_type) (
            entry (text "object_id") (int o.object_id) (
              entry (text "properties") (dict o.properties) (
                entry (text "property_flags") (dict o.property_flags)
                  (entry (text "property_keys") (dict o.property_keys) end))))))))

module _ (py : Codec) where
  -- The key whose flag `__setitem__` takes over.
  abbrev pub flag_key : SpaPodObject → Key → Key → Key
  flag_key o (text word) key = elim (by_name (specs_of o.of) word) [
    | none ↦ key
    | some spec ↦ text word
  ]
  flag_key o (number n) key = key

  -- A property that has no flag yet gets one.
  abbrev pub flagged : (storage key : Key) → SpaPodObject → Result SpaPodObject
  flagged storage key o = if holds storage o.property_flags then ok o else do
    flag ← to_int py (lookup_or (flag_key o storage key) (int (pos 0)) o.property_flags)
    ok (record o { property_flags = put storage (int flag) o.property_flags })

  -- `__setitem__`, which `__setattr__` and the setters of `_object_property` end in
  unfoldable pub set_item : SpaPodObject → Key → Datum → Result SpaPodObject
  set_item before key value =
      let (keyed, storage) = key_to_storage before key in
      flagged storage key (record keyed { properties = put storage value keyed.properties })

  unfoldable pub set_items : SpaPodObject → Entries → Result SpaPodObject
  set_items o end = ok o
  set_items o (entry key value rest) = do next ← set_item o key value; set_items next rest

  -- An id or a type that `__init__` is not given is its class's.
  abbrev pub given : Option ℤ → ℕ → ℤ
  given none default = pos default
  given (some n) default = n

  -- `_create_object_class` gives each class the type and the name that its id has in the tables.
  abbrev class_type : ℕ → ℕ
  class_type of = elim (object_type_for_id (pos of)) [ none ↦ 15 | some t ↦ t ]

  abbrev named : Option String → ℕ → Option String
  named none of = object_param_name (pos of)
  named (some name) of = some name

  -- `__init__`, with no keyword properties
  unfoldable pub new_object :
      (of : ℕ)
      → (properties flags keys : Entries) → (object_type object_id : Option ℤ)
      → (object_name : Option String) → Result SpaPodObject
  new_object of properties flags keys object_type object_id object_name =
      set_items
        (record {
          of = of;
          object_type = given object_type (class_type of);
          object_id = given object_id of;
          object_name = named object_name of;
          properties = end;
          property_flags = flags;
          property_keys = keys;
        })
        properties
