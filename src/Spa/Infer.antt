-- ===== src/Spa/Infer.antt =====
-- The type that `build_spa_pod` takes for a value that names none (src/wyreplumber/spa_pod.py), and the
-- integers that it reads out of a value.
use wyreplumber.Prelude.{
  ℤ, pos, negsuc, String, Bool, true, false, ◌&&◌, ◌||◌, leb, ltb, none, some, Result, ok, err,
  value_error, key_error, ◌>>=◌, if◌then◌else◌,
}
use wyreplumber.Value.{text}
use wyreplumber.Spa.Kinds.{
  PodKind, none_kind, bool_kind, id_kind, int_kind, long_kind, float_kind, string_kind, bytes_kind,
  rectangle_kind, fraction_kind, array_kind, struct_kind, object_kind, sequence_kind, pointer_kind,
  choice_kind, pod_kind, kind_number,
}
use wyreplumber.Spa.Datum.{
  Datum, null, bool, int, member, float, str, bytes, list, dict, object, Entries, lookup, lookup_or,
  holds, as_mapping, explicit_pod_type,
}
use wyreplumber.Spa.Codec.{Codec, to_int}
use wyreplumber.Spa.Prepare.{two}

abbrev pub kind_int : PodKind → ℤ
kind_int kind = pos (kind_number kind)

-- What `_infer_spa_type` makes of a mapping, by its keys.
abbrev pub infer_mapping : Entries → Result ℤ
infer_mapping es =
    let there = λ (word : String). holds (text word) es in
    if there "width" && there "height"
    then ok (kind_int rectangle_kind)
    else if there "num" && there "denom"
    then ok (kind_int fraction_kind)
    else if there "choice_type"
    then ok (kind_int choice_kind)
    else if there "controls"
    then ok (kind_int sequence_kind)
    else if there "pointer_type"
    then ok (kind_int pointer_kind)
    else if there "object_type"
        || there "_object_type"
        || there "object_id"
        || there "_object_id"
        || there "properties"
    then ok (kind_int object_kind)
    else if there "pod"
    then ok (kind_int pod_kind)
    else if there "values" && there "child_type"
    then ok (kind_int array_kind)
    else if there "values"
    then ok (kind_int struct_kind)
    else err value_error

-- An integer is an Int if it fits into 32 bits.
abbrev pub infer_int : ℤ → ℤ
infer_int (pos n) = if leb n 2147483647 then kind_int int_kind else kind_int long_kind
infer_int (negsuc n) = if ltb n 2147483648 then kind_int int_kind else kind_int long_kind

abbrev pub infer_plain : Datum → Result ℤ
infer_plain null = ok (kind_int none_kind)
infer_plain (bool b) = ok (kind_int bool_kind)
infer_plain (member e n) = ok (kind_int id_kind)
infer_plain (int n) = ok (infer_int n)
infer_plain (float x) = ok (kind_int float_kind)
infer_plain (str s) = ok (kind_int string_kind)
infer_plain (bytes b) = ok (kind_int bytes_kind)
infer_plain (list vs) = ok (kind_int struct_kind)
infer_plain (dict es) = infer_mapping es
infer_plain (object of t i name properties flags keys) = ok (kind_int object_kind)

-- `_infer_spa_type`
unfoldable pub infer_spa_type : Datum → Result ℤ
unfolding explicit_pod_type
infer_spa_type v = elim (explicit_pod_type v) [ some n ↦ ok n | none ↦ infer_plain v ]

abbrev pub is_null : Datum → Bool
is_null null = true
is_null _ = false

-- `mapping[key]`
abbrev pub item : String → Entries → Result Datum
item key es = elim (lookup (text key) es) [ none ↦ err key_error | some v ↦ ok v ]

module _ (py : Codec) where
  abbrev pub int_pair : Datum → Datum → Result (ℤ × ℤ)
  int_pair a b = do m ← to_int py a; n ← to_int py b; ok (m, n)

  abbrev pub parts : (first second : String) → Datum → Result (ℤ × ℤ)
  parts first second v = elim (as_mapping v) [
    | some es ↦ (do
      a ← item first es
      m ← to_int py a
      b ← item second es
      n ← to_int py b
      ok (m, n))
    | none ↦ elim (two py v) [ none ↦ err value_error | some ab ↦ int_pair ab.0 ab.1 ]
  ]

  -- `_rectangle_parts` and `_fraction_parts`
  unfoldable pub rectangle_parts : Datum → Result (ℤ × ℤ)
  rectangle_parts = parts "width" "height"

  unfoldable pub fraction_parts : Datum → Result (ℤ × ℤ)
  fraction_parts = parts "num" "denom"

  abbrev pub integer_at : String → Entries → Result ℤ
  integer_at key es = to_int py (lookup_or (text key) (int (pos 0)) es)
