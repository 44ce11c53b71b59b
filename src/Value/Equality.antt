-- ===== src/Value/Equality.antt =====
-- Python's `==` on frozen JSON values: numbers of all types compare by value, tuples item by item,
-- and mappings without regard to order.
use wyreplumber.Prelude.{
  ◌+◌, ℕ, ℤ, pos, Bool, true, false, ◌&&◌, Option, none, some, int_eq, str_eq, ◌==◌,
}
use wyreplumber.Value.{
  Value, null, bool, int, float, str, tuple, frozen, Items, nil, cons, Fields, end, field, text,
  number,
}
use wyreplumber.Value.Checks.{lookup}
use wyreplumber.Builtins.{Builtins}

-- `int(b)`
abbrev of_bool : Bool → ℤ
of_bool true = pos 1
of_bool false = pos 0

abbrev pub field_count : Fields → ℕ
field_count end = 0
field_count (field k v fs) = 1 + field_count fs

module _ (py : Builtins) where
  abbrev number_eq : ℤ → Value → Bool
  number_eq n (bool b) = int_eq n (of_bool b)
  number_eq n (int m) = int_eq n m
  number_eq n (float x) = py.int_eq_float n x
  number_eq n _ = false

  abbrev same_float : ℕ → Value → Bool
  same_float x (bool b) = py.int_eq_float (of_bool b) x
  same_float x (int m) = py.int_eq_float m x
  same_float x (float y) = py.float_eq x y
  same_float x _ = false

  abbrev items_of : Value → Option Items
  items_of (tuple vs) = some vs
  items_of _ = none

  abbrev fields_of : Value → Option Fields
  fields_of (frozen fs) = some fs
  fields_of _ = none

  unfoldable mutual
    pub json_eq : Value → Value → Bool
    json_eq null null = true
    json_eq (bool b) w = number_eq (of_bool b) w
    json_eq (int n) w = number_eq n w
    json_eq (float x) w = same_float x w
    json_eq (str s) (str t) = str_eq s t
    json_eq (tuple vs) w = elim (items_of w) [ none ↦ false | some ws ↦ items_eq vs ws ]
    json_eq (frozen fs) w = elim (fields_of w) [
      | none ↦ false
      | some gs ↦ field_count fs == field_count gs && fields_eq fs gs
    ]
    json_eq _ _ = false

    pub items_eq : Items → Items → Bool
    items_eq nil nil = true
    items_eq (cons v vs) (cons w ws) = json_eq v w && items_eq vs ws
    items_eq _ _ = false

    -- Every entry of the first mapping is one of the second; the keys of frozen mappings are texts.
    pub fields_eq : Fields → Fields → Bool
    fields_eq end gs = true
    fields_eq (field (text k) v fs) gs = elim (lookup k gs) [
      | none ↦ false
      | some w ↦ json_eq v w && fields_eq fs gs
    ]
    fields_eq (field (number k) v fs) gs = false
