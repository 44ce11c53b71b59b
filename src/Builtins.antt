-- ===== src/Builtins.antt =====
-- What the runtime takes from Python's standard library: `datetime`, operations on doubles, and the
-- rendering of values as text.
use wyreplumber.Prelude.{
  ℤ, Bool, ℕ, String, Option, none, some, List, ◌≡◌, Result, ok, err, type_error, value_error,
}
use wyreplumber.Value.{Value, datetime, Stamp, naive, aware}
use wyreplumber.Value.Checks.{as_text}

pub record Builtins : Type 0 where
  -- `datetime.fromisoformat(text.replace("Z", "+00:00"))`; `none` is its ValueError
  pub from_iso : String → Option Stamp
  -- `moment.astimezone(timezone.utc).isoformat().replace("+00:00", "Z")`
  pub to_iso : ℕ → String
  -- `str(n)`
  pub decimal : ℕ → String
  -- `float(n)` of an integer; `none` is its OverflowError
  pub to_float : ℤ → Option ℕ
  -- `x == y` of doubles, and `n == x` of an integer and a double
  pub float_eq : ℕ → ℕ → Bool
  pub int_eq_float : ℤ → ℕ → Bool
  -- `abs(x - y) <= t` of doubles
  pub within : (x y t : ℕ) → Bool
  -- `timedelta(seconds=x)` of a finite double that is not negative, in microseconds; `none` is its
  -- OverflowError
  pub microseconds : ℕ → Option ℕ
  -- `datetime.max`, past which a sum of a moment and a timedelta is an OverflowError
  pub last_moment : ℕ
  -- `word in text.lower()`
  pub mentions : (word text : String) → Bool
  -- `repr(text)`
  pub repr : String → String
  -- `json.dumps({"name": name}, separators=(",", ":"))`
  pub name_json : (name : String) → String
  -- `text.isdecimal()`
  pub is_decimal : String → Bool
  -- `struct.unpack("<f", struct.pack("<f", x))[0]`; `none` is its OverflowError
  pub float32 : ℕ → Option ℕ
  -- `base64.b64encode(data).decode("ascii")`
  pub base64 : List ℕ → String
  -- ISO text that datetime prints reads back as the same moment.
  pub from_iso-to_iso : (t : ℕ) → from_iso (to_iso t) ≡ some (aware t)

module _ (py : Builtins) where
  open py use {from_iso, to_iso}

  -- A parsed moment must have a timezone.
  abbrev normal : Stamp → Result String
  normal naive = err value_error
  normal (aware t) = ok (to_iso t)

  -- `_timestamp` (models.py), and `_named_timestamp` (controls.py), which renames its errors.
  unfoldable pub timestamp : Value → Result String
  timestamp (datetime t) = normal t
  timestamp v = elim (as_text v) [
    | none ↦ err type_error
    | some s ↦ elim (from_iso s) [ none ↦ err value_error | some t ↦ normal t ]
  ]
