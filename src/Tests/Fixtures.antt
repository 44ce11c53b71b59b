-- ===== src/Tests/Fixtures.antt =====
-- A small stand-in for Python's standard library, and test data.
use Prim.Native.String.{count, ◌++◌ as ◌<>◌}
use text.Mathlib.Text.{find?}
use text.Mathlib.TextLemmas.{length-append}
use wyreplumber.Prelude.{
  ℕ, zero, suc, ◌+◌, ℤ, pos, String, Bool, true, false, Option, none, some, ◌≡◌, refl, ap, arith,
  ◌==◌, leb,
}
use wyreplumber.Value.{aware, null}
use wyreplumber.Value.Checks.{id}
use wyreplumber.Builtins.{Builtins}
use wyreplumber.Event.{RuntimeEvent}
use wyreplumber.Event.Kinds.{object_changed, node}

-- A moment is written in strokes, one for each microsecond.
unfoldable pub tally : ℕ → String
tally zero = ""
tally (suc n) = tally n <> "I"

pub count-tally : (n : ℕ) → count (tally n) ≡ n
unfolding tally
count-tally zero = refl
count-tally (suc n) = omega (arith, length-append (tally n) "I", count-tally n)

abbrev integer_double : ℤ → Option ℕ
integer_double (pos n) = some n
integer_double n = none

abbrev same_integer : ℤ → ℕ → Bool
same_integer (pos n) m = n == m
same_integer n m = false

-- A double is its pattern; the patterns of the tests stand for small whole numbers.
abbrev pub python : Builtins
python = record {
  from_iso = λ s. some (aware (count s));
  to_iso = tally;
  decimal = tally;
  to_float = integer_double;
  float_eq = ◌==◌;
  int_eq_float = same_integer;
  within = λ x y t. leb x (y + t);
  microseconds = λ x. some x;
  last_moment = 1000000000000;
  mentions = λ word text. elim (find? word text) [ none ↦ false | some n ↦ true ];
  repr = λ s. s;
  name_json = λ s. s;
  is_decimal = λ s. true;
  float32 = λ x. some x;
  base64 = λ bytes. "pod";
  from_iso-to_iso = λ t. ap (λ n. some (aware n)) (count-tally t);
}

-- A delta of generation 1.
abbrev pub delta : ℕ → RuntimeEvent
delta n = record {
  generation = 1;
  sequence = n;
  occurred_at = "now";
  kind = object_changed;
  on = node;
  object_id = id 7;
  current = null;
  previous = null;
  requires_resnapshot = false;
  reason = none;
}

abbrev pub resnapshot : RuntimeEvent
resnapshot = record (delta 3) { requires_resnapshot = true }
