-- ===== src/Spa/Build.antt =====
-- `build_spa_pod` (src/wyreplumber/spa_pod.py). The builders of containers take the builder of the
-- values in them as an argument; the builder itself counts the depth that Python's stack has left, and
-- raises Python's RecursionError, a RuntimeError, where there is none. A type that is not a number
-- is no type that the codec knows.
use wyreplumber.Prelude.{
  ℕ, ◌+◌, ℤ, pos, Bool, true, false, Option, none, some, List, [], ◌++◌, Result, ok, err,
  value_error, ◌>>=◌, ◌>>◌, require, int_eq, if◌then◌else◌,
}
use wyreplumber.Value.{text}
use wyreplumber.Spa.Wire.{align, pack_pod, parse_pod_header}
use wyreplumber.Spa.Bytes.{take, drop, pack_uint, pack_u64}
use wyreplumber.Spa.Kinds.{
  array_kind, struct_kind, sequence_kind, pointer_kind, choice_kind, pod_kind, kind_number,
}
use wyreplumber.Spa.Datum.{
  Datum, null, int, str, bytes, list, Items, nil, cons, Entries, lookup, lookup_or, int_of,
  as_mapping,
}
use wyreplumber.Spa.Codec.{Codec, to_int, elements}
use wyreplumber.Spa.Infer.{infer_spa_type, integer_at}

module _ (py : Codec) where
  -- `_build_pointer_pod`
  unfoldable pub build_pointer_pod : Datum → Result (List ℕ)
  unfolding pack_uint pack_u64 pack_pod
  build_pointer_pod v = elim (as_mapping v) [
    | none ↦ err value_error
    | some es ↦ (do
      pointer_type ← integer_at py "pointer_type" es
      pointer_value ← integer_at py "value" es
      a ← pack_uint pointer_type
      b ← pack_uint (pos 0)
      c ← pack_u64 pointer_value
      pack_pod (kind_number pointer_kind) (a ++ (b ++ c)))
  ]

  -- The child type that is given, or that of the first value; `null` is neither.
  abbrev pub child_type_of : Datum → Items → Result Datum
  child_type_of null nil = err value_error
  child_type_of null (cons v vs) = do n ← infer_spa_type v; ok (int n)
  child_type_of child values = ok child

  -- The child size after an item of `size` bytes: the first item's if there was none.
  abbrev pub same_size : Datum → ℕ → Result Datum
  same_size null size = ok (int (pos size))
  same_size given size = elim (int_of given) [
    | none ↦ err value_error
    | some n ↦ if int_eq n (pos size) then ok given else err value_error
  ]

  abbrev pub size_or_zero : Datum → Datum
  size_or_zero null = int (pos 0)
  size_or_zero given = given

  module _ (build : Datum → Option ℤ → Result (List ℕ)) where
    -- The bodies of the items of an array or a choice, which have one type and one size.
    unfoldable pub bodies : (child : Datum) → Items → (size : Datum) → Result (Datum × List ℕ)
    unfolding parse_pod_header take drop
    bodies child nil size = ok (size, [])
    bodies child (cons v vs) size = elim (int_of child) [
      | none ↦ err value_error
      | some child_type ↦ (do
        pod ← build v (some child_type)
        (item_size, item_type) ← parse_pod_header pod
        require (int_eq (pos item_type) child_type) value_error
        known ← same_size size item_size
        (final, rest) ← bodies child vs known
        ok (final, take item_size (drop 8 pod) ++ rest))
    ]

    abbrev pub size_and_type : Datum → Datum → Result (List ℕ)
    size_and_type size child = do
      n ← to_int py (size_or_zero size)
      t ← to_int py child
      a ← pack_uint n
      b ← pack_uint t
      ok (a ++ b)

    abbrev pub array_pod : Items → (child size : Datum) → Result (List ℕ)
    array_pod values child size = do
      child_type ← child_type_of child values
      (child_size, raw) ← bodies child_type values size
      front ← size_and_type child_size child_type
      pack_pod (kind_number array_kind) (front ++ raw)

    -- `_build_array_pod`
    unfoldable pub build_array_pod : Datum → Result (List ℕ)
    build_array_pod v = elim (as_mapping v) [
      | some es ↦ (do
        values ← elements py (lookup_or (text "values") (list nil) es)
        array_pod values (lookup_or (text "child_type") null es)
            (lookup_or (text "child_size") null es))
      | none ↦ (do values ← elements py v; array_pod values null null)
    ]

    -- `b"".join(build_spa_pod(item) for item in values)`
    unfoldable pub joined : Items → Result (List ℕ)
    joined nil = ok []
    joined (cons v vs) = do pod ← build v none; rest ← joined vs; ok (pod ++ rest)

    -- `_build_struct_pod`
    unfoldable pub build_struct_pod : Datum → Result (List ℕ)
    unfolding joined pack_pod
    build_struct_pod v = do
      values ←
          elements py
            (elim (as_mapping v) [ some es ↦ lookup_or (text "values") (list nil) es | none ↦ v ])
      raw ← joined values
      pack_pod (kind_number struct_kind) raw

    -- The values of a choice, or its one value.
    abbrev pub choice_values : Items → Entries → Items
    choice_values nil es = elim (lookup (text "value") es) [ none ↦ nil | some v ↦ cons v nil ]
    choice_values (cons v vs) es = cons v vs

    -- `_build_choice_pod`
    unfoldable pub build_choice_pod : Datum → Result (List ℕ)
    unfolding bodies pack_uint pack_pod
    build_choice_pod v = elim (as_mapping v) [
      | none ↦ err value_error
      | some es ↦ (do
        listed ← elements py (lookup_or (text "values") (list nil) es)
        let values = choice_values listed es
        choice_type ← integer_at py "choice_type" es
        flags ← integer_at py "flags" es
        child ← child_type_of (lookup_or (text "child_type") null es) values
        (size, raw) ← bodies child values (lookup_or (text "child_size") null es)
        back ← size_and_type size child
        a ← pack_uint choice_type
        b ← pack_uint flags
        pack_pod (kind_number choice_kind) (a ++ (b ++ (back ++ raw))))
    ]

    abbrev pub is_sequence : Datum → Bool
    is_sequence (list vs) = true
    is_sequence (str s) = true
    is_sequence (bytes b) = true
    is_sequence _ = false

    unfoldable pub control_chunks : Items → Result (List ℕ)
    unfolding pack_uint
    control_chunks nil = ok []
    control_chunks (cons v vs) = elim (as_mapping v) [
      | none ↦ err value_error
      | some es ↦ (do
        pod ← build (lookup_or (text "value") null es) none
        offset ← integer_at py "offset" es
        kind ← integer_at py "type" es
        a ← pack_uint offset
        b ← pack_uint kind
        rest ← control_chunks vs
        ok (a ++ (b ++ (pod ++ rest))))
    ]

    -- `_build_sequence_pod`
    unfoldable pub build_sequence_pod : Datum → Result (List ℕ)
    unfolding control_chunks pack_uint pack_pod
    build_sequence_pod v = elim (as_mapping v) [
      | none ↦ err value_error
      | some es ↦ (do
        unit ← integer_at py "unit" es
        let controls = lookup_or (text "controls") (list nil) es
        require (is_sequence controls) value_error
        a ← pack_uint unit
        b ← pack_uint (pos 0)
        items ← elements py controls
        raw ← control_chunks items
        pack_pod (kind_number sequence_kind) (a ++ (b ++ raw)))
    ]

    -- `_build_embedded_pod`
    abbrev pub embedded_bytes : Datum → Result (List ℕ)
    embedded_bytes (bytes b) = ok b
    embedded_bytes v = build v none

    unfoldable pub build_embedded_pod : Datum → Result (List ℕ)
    unfolding parse_pod_header align take pack_pod
    build_embedded_pod v = do
      pod ←
          embedded_bytes
            (elim (as_mapping v) [ some es ↦ lookup_or (text "pod") null es | none ↦ v ])
      (pod_size, kind) ← parse_pod_header pod
      pack_pod (kind_number pod_kind) (take (align (8 + pod_size)) pod)
