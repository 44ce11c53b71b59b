-- ===== src/Spa/Decode.antt =====
-- The values of pods by their type, and `parse_spa_pod` itself (src/wyreplumber/spa_pod.py).
use wyreplumber.Prelude.{
  ℕ, zero, suc, none, some, List, Result, ok, err, value_error, ◌>>=◌, ◌>>◌, length,
}
use wyreplumber.Value.{text}
use wyreplumber.Spa.Wire.{parse_pod_header, ensure_available}
use wyreplumber.Spa.Bytes.{take, drop, read_u32, read_u64, read_i32, read_i64, until_nul}
use wyreplumber.Spa.Kinds.{
  PodKind, none_kind, bool_kind, id_kind, int_kind, long_kind, float_kind, double_kind, string_kind,
  bytes_kind, rectangle_kind, fraction_kind, bitmap_kind, array_kind, struct_kind, object_kind,
  sequence_kind, pointer_kind, fd_kind, choice_kind, pod_kind, kind_of,
}
use wyreplumber.Spa.Datum.{Datum, null, bool, int, float, str, bytes, dict, end, entry, truth}
use wyreplumber.Spa.Codec.{Codec}
use wyreplumber.Spa.Parse.{
  num, structure, pair, parse_array, parse_struct, parse_sequence, parse_pointer,
  parse_embedded_pod,
}
use wyreplumber.Spa.ParseObject.{parse_choice, parse_object}

module _ (py : Codec) where
  -- The value of a pod of a known type, from its body on.
  unfoldable pub pod_value : (parse : List ℕ → Result Datum) → PodKind → ℕ → List ℕ → Result Datum
  unfolding read_u32 read_u64 read_i32 read_i64 until_nul take parse_array parse_struct parse_object
      parse_sequence parse_pointer parse_choice parse_embedded_pod
  pod_value parse none_kind size raw = ok null
  pod_value parse bool_kind size raw = do n ← read_i32 raw; ok (bool (truth (int n)))
  pod_value parse id_kind size raw = do (n, rest) ← read_u32 raw; ok (num n)
  pod_value parse int_kind size raw = do n ← read_i32 raw; ok (int n)
  pod_value parse long_kind size raw = do n ← read_i64 raw; ok (int n)
  pod_value parse float_kind size raw = do (n, rest) ← read_u32 raw; ok (float (py.unpack_float n))
  pod_value parse double_kind size raw = do n ← read_u64 raw; ok (float n)
  pod_value parse string_kind size raw = ok (str (py.decode (until_nul (take size raw))))
  pod_value parse bytes_kind size raw = ok (bytes (take size raw))
  pod_value parse rectangle_kind size raw = do
    (width, rest) ← read_u32 raw
    (height, more) ← read_u32 rest
    ok (pair rectangle_kind "width" width "height" height)
  pod_value parse fraction_kind size raw = do
    (num, rest) ← read_u32 raw
    (denom, more) ← read_u32 rest
    ok (pair fraction_kind "num" num "denom" denom)
  pod_value parse bitmap_kind size raw =
      ok (structure bitmap_kind (entry (text "data") (bytes (take size raw)) end))
  pod_value parse array_kind size raw = parse_array parse raw size
  pod_value parse struct_kind size raw = parse_struct parse raw size
  pod_value parse object_kind size raw = parse_object py parse raw size
  pod_value parse sequence_kind size raw = parse_sequence parse raw size
  pod_value parse pointer_kind size raw = parse_pointer raw size
  pod_value parse fd_kind size raw = do n ← read_i64 raw; ok (int n)
  pod_value parse choice_kind size raw = parse_choice parse raw size
  pod_value parse pod_kind size raw = parse_embedded_pod parse raw size

  abbrev unknown_pod : (pod_type size : ℕ) → List ℕ → Datum
  unknown_pod pod_type size raw = dict (
      entry (text "_pod_type") (num pod_type) (
        entry (text "_type") (num pod_type)
          (entry (text "_size") (num size) (entry (text "_data") (bytes (take size raw)) end))))

  -- The body of `parse_spa_pod`, with the parser that it calls for the pods within.
  unfoldable pub pod_at : (parse : List ℕ → Result Datum) → List ℕ → Result Datum
  unfolding parse_pod_header ensure_available kind_of pod_value drop
  pod_at parse raw = do
    (size, pod_type) ← parse_pod_header raw
    let body = drop 8 raw
    ensure_available body size
    elim (kind_of pod_type) [
      | none ↦ ok (unknown_pod pod_type size body)
      | some kind ↦ pod_value parse kind size body
    ]

  unfoldable pub parse_pod : (fuel : ℕ) → List ℕ → Result Datum
  unfolding pod_at
  parse_pod zero raw = err value_error
  parse_pod (suc n) raw = pod_at (parse_pod n) raw

  -- `parse_spa_pod`
  unfoldable pub parse_spa_pod : List ℕ → Result Datum
  unfolding parse_pod
  parse_spa_pod raw = parse_pod (length raw) raw
