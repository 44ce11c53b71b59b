-- ===== src/Value/Checks.antt =====
-- The validators of src/wyreplumber/runtime/models.py that every value object runs on its fields.
use wyreplumber.Prelude.{
  ℕ, ℤ, pos, negsuc, String, Bool, true, false, Option, none, some, List, [], ◌∷◌, Result, ok, err,
  type_error, value_error, ◌>>=◌, str_eq, if◌then◌else◌, traverse,
}
use wyreplumber.Value.{
  Value, null, bool, int, str, str_member, int_member, list, tuple, Items, nil, cons, Fields, end,
  field, text, number,
}

-- `isinstance(value, str)`, with the text.
abbrev pub as_text : Value → Option String
as_text (str s) = some s
as_text (str_member s) = some s
as_text _ = none

-- `isinstance(value, int) and not isinstance(value, bool)`, with the number.
abbrev pub as_int : Value → Option ℤ
as_int (int n) = some n
as_int (int_member n) = some n
as_int _ = none

abbrev pub to_list : Items → List Value
to_list nil = []
to_list (cons v vs) = v ∷ to_list vs

-- `_integer`
unfoldable pub integer : Value → Result ℤ
integer v = elim (as_int v) [ none ↦ err type_error | some n ↦ ok n ]

abbrev non_negative : ℤ → Result ℕ
non_negative (pos n) = ok n
non_negative (negsuc n) = err value_error

-- `_identifier`
unfoldable pub identifier : Value → Result ℕ
unfolding integer
identifier v = do n ← integer v; non_negative n

-- `_required_string`, with its `allow_empty`
unfoldable pub required_string : Bool → Value → Result String
required_string allow_empty v = elim (as_text v) [
  | none ↦ err type_error
  | some s ↦ if allow_empty then ok s else if str_eq s "" then err value_error else ok s
]

-- The id of an object, or a name: what `_identity` accepts.
pub data Identity : Type 0 where
  id : ℕ → Identity
  name : String → Identity

-- `_identity`
unfoldable pub identity : Value → Result Identity
unfolding identifier required_string
identity v = elim (as_text v) [
  | some s ↦ (do t ← required_string false v; ok (name t))
  | none ↦ (do n ← identifier v; ok (id n))
]

-- `_optional_identifier`
unfoldable pub optional_identifier : Value → Result (Option ℕ)
unfolding identifier
optional_identifier null = ok none
optional_identifier v = do n ← identifier v; ok (some n)

-- `_optional_string`
unfoldable pub optional_string : Value → Result (Option String)
unfolding required_string
optional_string null = ok none
optional_string v = do s ← required_string true v; ok (some s)

-- `_boolean`
unfoldable pub boolean : Value → Result Bool
boolean (bool b) = ok b
boolean _ = err type_error

-- `isinstance(value, Sequence) and not isinstance(value, (str, bytes, bytearray))`
unfoldable pub sequence : Value → Result (List Value)
sequence (list vs) = ok (to_list vs)
sequence (tuple vs) = ok (to_list vs)
sequence _ = err type_error

-- `_identifiers`
unfoldable pub identifiers : Value → Result (List ℕ)
unfolding sequence identifier
identifiers v = do vs ← sequence v; traverse identifier vs

-- `_strings`
unfoldable pub strings : Value → Result (List String)
unfolding sequence required_string
strings v = do vs ← sequence v; traverse (required_string false) vs

-- `mapping.get(key)` and `mapping[key]`: the first entry with the key.
unfoldable pub lookup : String → Fields → Option Value
lookup k end = none
lookup k (field (text j) v fs) = if str_eq j k then some v else lookup k fs
lookup k (field (number n) v fs) = lookup k fs

-- `_enum` and `E(value)`: a member, or the text of one; the table is the enumeration's.
unfoldable pub enum {ℓ} : {A : Type ℓ} → (String → Option A) → Value → Result A
enum table v = elim (as_text v) [
  | none ↦ err value_error
  | some s ↦ elim (table s) [ none ↦ err value_error | some a ↦ ok a ]
]
