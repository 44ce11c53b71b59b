-- ===== src/Value.antt =====
-- The Python values that cross the runtime's boundary (src/wyreplumber/runtime). A value of a
-- dynamic field is one of these constructors: `str_member` and `int_member` are members of a
-- `(str, Enum)` and of an `IntEnum`, `frozen` is a FrozenDict, `runtime` a RuntimeValue with its
-- VALUE_TYPE and the fields that its `to_dict` emits, and `foreign` any other object, by its
-- type's name. A float is its 64-bit IEEE 754 pattern. The keys of a mapping are texts, or the
-- integers that the SPA parser puts there.
pub mod Checks
pub mod Envelope
pub mod Floats
pub mod Json
pub mod Equality
use wyreplumber.Prelude.{ℕ, ℤ, String, List, Bool}

-- A `datetime`, with its UTC microseconds if it has a timezone.
pub data Stamp : Type 0 where
  naive : Stamp
  aware : ℕ → Stamp

pub data Key : Type 0 where
  text : String → Key
  number : ℤ → Key

mutual
  pub data Value : Type 0 where
    null : Value
    bool : Bool → Value
    int : ℤ → Value
    float : ℕ → Value
    str : String → Value
    bytes : List ℕ → Value
    str_member : String → Value
    int_member : ℤ → Value
    list : Items → Value
    tuple : Items → Value
    dict : Fields → Value
    frozen : Fields → Value
    runtime : String → Fields → Value
    datetime : Stamp → Value
    foreign : String → Value

  pub data Items : Type 0 where
    nil : Items
    cons : Value → Items → Items

  pub data Fields : Type 0 where
    end : Fields
    field : Key → Value → Fields → Fields
