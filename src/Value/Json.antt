-- ===== src/Value/Json.antt =====
-- src/wyreplumber/runtime/_immutable.py: freezing and thawing of JSON values, and the detachment
-- test of src/wyreplumber/runtime/snapshot.py.
pub mod Laws
pub mod Immutable
use Prim.Native.Nat.{◌/◌, ◌%◌, ◌^◌}
use wyreplumber.Prelude.{
  ℕ, Bool, true, false, not, ◌&&◌, Result, ok, err, type_error, value_error, ◌>>=◌, ◌>>◌, ◌==◌,
  if◌then◌else◌, require,
}
use wyreplumber.Value.Floats.{is_finite}
use wyreplumber.Value.{
  Value, null, bool, int, float, str, bytes, str_member, int_member, list, tuple, dict, frozen,
  runtime, datetime, foreign, Items, nil, cons, Fields, end, field, Key, text, number,
}

unfoldable mutual
  -- `freeze_json`; a mapping goes through the constructor of `FrozenDict`.
  pub freeze_json : Value → Result Value
  freeze_json null = ok null
  freeze_json (bool b) = ok (bool b)
  freeze_json (int n) = ok (int n)
  freeze_json (float x) = if is_finite x then ok (float x) else err value_error
  freeze_json (str s) = ok (str s)
  freeze_json (bytes bs) = err type_error
  freeze_json (str_member s) = ok (str s)
  freeze_json (int_member n) = ok (int n)
  freeze_json (list vs) = do ws ← freeze_items vs; ok (tuple ws)
  freeze_json (tuple vs) = do ws ← freeze_items vs; ok (tuple ws)
  freeze_json (dict fs) = do gs ← freeze_fields fs; ok (frozen gs)
  freeze_json (frozen fs) = ok (frozen fs)
  freeze_json (runtime t fs) = err type_error
  freeze_json (datetime t) = err type_error
  freeze_json (foreign t) = err type_error

  pub freeze_items : Items → Result Items
  freeze_items nil = ok nil
  freeze_items (cons v vs) = do w ← freeze_json v; ws ← freeze_items vs; ok (cons w ws)

  -- The loop of `FrozenDict.__init__`.
  pub freeze_fields : Fields → Result Fields
  freeze_fields end = ok end
  freeze_fields (field (text k) v fs) = do
    w ← freeze_json v
    gs ← freeze_fields fs
    ok (field (text k) w gs)
  freeze_fields (field (number k) v fs) = err type_error

unfoldable mutual
  -- `thaw_json`, and `FrozenDict.to_dict`
  pub thaw_json : Value → Result Value
  thaw_json null = ok null
  thaw_json (bool b) = ok (bool b)
  thaw_json (int n) = ok (int n)
  thaw_json (float x) = ok (float x)
  thaw_json (str s) = ok (str s)
  thaw_json (str_member s) = ok (str_member s)
  thaw_json (int_member n) = ok (int_member n)
  thaw_json (tuple vs) = do ws ← thaw_items vs; ok (list ws)
  thaw_json (frozen fs) = do gs ← thaw_fields fs; ok (dict gs)
  thaw_json _ = err type_error

  pub thaw_items : Items → Result Items
  thaw_items nil = ok nil
  thaw_items (cons v vs) = do w ← thaw_json v; ws ← thaw_items vs; ok (cons w ws)

  pub thaw_fields : Fields → Result Fields
  thaw_fields end = ok end
  thaw_fields (field k v fs) = do w ← thaw_json v; gs ← thaw_fields fs; ok (field k w gs)

unfoldable mutual
  -- `_validate_detached`: only plain data passes.
  pub validate_detached : Value → Result (Unit {0})
  validate_detached (list vs) = detached_items vs
  validate_detached (tuple vs) = detached_items vs
  validate_detached (dict fs) = detached_fields fs
  validate_detached (frozen fs) = detached_fields fs
  validate_detached (runtime t fs) = err value_error
  validate_detached (datetime t) = err value_error
  validate_detached (foreign t) = err value_error
  validate_detached _ = ok tt

  pub detached_items : Items → Result (Unit {0})
  detached_items nil = ok tt
  detached_items (cons v vs) = validate_detached v >> detached_items vs

  pub detached_fields : Fields → Result (Unit {0})
  detached_fields end = ok tt
  detached_fields (field (text k) v fs) = validate_detached v >> detached_fields fs
  detached_fields (field (number k) v fs) = err value_error

-- `_mapping` (models.py)
unfoldable pub mapping : Value → Result Fields
unfolding freeze_json
mapping (frozen fs) = ok fs
mapping (dict fs) = freeze_fields fs
mapping _ = err type_error

-- `_contract_value` (models.py)
unfoldable pub contract_value : Value → Result Value
unfolding freeze_json
contract_value (runtime t fs) = ok (runtime t fs)
contract_value v = freeze_json v
