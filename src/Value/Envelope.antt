-- ===== src/Value/Envelope.antt =====
-- `RuntimeValue.to_dict` and `_serialize` of src/wyreplumber/runtime/models.py. The fields of a
-- value object hold frozen JSON and RuntimeValues only, on which `_serialize` does not raise.
use wyreplumber.Prelude.{pos}
use wyreplumber.Value.{
  Value, int, str, str_member, list, tuple, dict, frozen, runtime, Items, nil, cons, Fields, end,
  field, text,
}

-- `RuntimeValue.to_dict`: the envelope and the serialized fields. Other values are left.
abbrev pub to_dict : Value → Value
to_dict (runtime t fs) =
    dict (field (text "schema_version") (int (pos 1)) (field (text "value_type") (str t) fs))
to_dict v = v

unfoldable mutual
  -- `_serialize`
  pub serialize : Value → Value
  serialize (tuple vs) = list (serialize_items vs)
  serialize (frozen fs) = dict (serialize_fields fs)
  serialize (runtime t fs) =
      dict (field (text "schema_version") (int (pos 1)) (field (text "value_type") (str t) fs))
  serialize (str_member s) = str s
  serialize v = v

  pub serialize_items : Items → Items
  serialize_items nil = nil
  serialize_items (cons v vs) = cons (serialize v) (serialize_items vs)

  pub serialize_fields : Fields → Fields
  serialize_fields end = end
  serialize_fields (field k v fs) = field k (serialize v) (serialize_fields fs)
