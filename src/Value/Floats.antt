-- ===== src/Value/Floats.antt =====
-- Tests on a double by its 64-bit pattern, and the numbers among the Python values.
use Prim.Native.Nat.{◌/◌, ◌%◌, ◌^◌, ◌*◌}
use wyreplumber.Prelude.{
  ℕ, ◌≡◌, Bool, true, false, not, ◌&&◌, Option, none, some, Result, ok, err, type_error,
  overflow_error, ◌==◌, leb, ltb,
}
use wyreplumber.Value.{Value, int, int_member, float}
use wyreplumber.Builtins.{Builtins}

-- `math.isfinite`: the exponent bits are not all ones.
unfoldable pub is_finite : ℕ → Bool
is_finite bits = not (bits / 2 ^ 52 % 2048 == 2047)

-- `x < 0`: the sign bit is set, and the rest is neither zero nor a NaN.
unfoldable pub is_negative : ℕ → Bool
is_negative bits = leb (2 ^ 63) bits && ltb 0 (bits % 2 ^ 63) && leb (bits % 2 ^ 63) (2047 * 2 ^ 52)

abbrev or_overflow : Option ℕ → Result ℕ
or_overflow none = err overflow_error
or_overflow (some x) = ok x

-- `isinstance(value, (int, float)) and not isinstance(value, bool)`
abbrev pub is_number : Value → Bool
is_number (int n) = true
is_number (int_member n) = true
is_number (float x) = true
is_number _ = false

-- `float(value)` of an integer or a float that is no boolean; any other value is a TypeError.
unfoldable pub to_double : Builtins → Value → Result ℕ
to_double py (int n) = or_overflow (py.to_float n)
to_double py (int_member n) = or_overflow (py.to_float n)
to_double py (float x) = ok x
to_double py _ = err type_error

-- A double that is neither infinite nor a NaN, nor below zero.
pub record IsVolume (x : ℕ) : Type 0 where
  pub finite : is_finite x ≡ true
  pub non_negative : is_negative x ≡ false
