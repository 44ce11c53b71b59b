-- ===== src/Spa/Shape.antt =====
-- What `build_spa_pod` of src/wyreplumber/spa_pod.py returns, whatever it is given: each of its branches
-- ends in `_pack_pod`.
use Prim.Native.Nat.{◌%◌}
use wyreplumber.Prelude.{
  ℕ, zero, suc, ◌+◌, ℤ, pos, negsuc, List, [], ◌∷◌, ◌++◌, Error, Option, none, some, Option-cases,
  Bool-cases, inl, inr, require, value_error, Result, ok, err, ◌>>=◌, >>=-eq-ok, length, ◌≡◌, refl,
  ap,
}
use wyreplumber.Spa.Wire.{
  align, parse_pod_header, pack_pod, length-pack_pod, parse_pod_header-pack_pod,
}
use wyreplumber.Spa.Kinds.{
  PodKind, array_kind, struct_kind, object_kind, sequence_kind, pointer_kind, choice_kind, pod_kind,
  kind_number, kind_of,
}
use wyreplumber.Value.{text}
use wyreplumber.Spa.Datum.{Datum, null, list, nil, Items, Entries, as_mapping, lookup_or}
use wyreplumber.Spa.Bytes.{take, pack_uint, pack_u64}
use wyreplumber.Spa.Codec.{Codec, elements, to_int}
use wyreplumber.Spa.Build.{
  bodies, child_type_of, size_and_type, joined, embedded_bytes, is_sequence, control_chunks,
  choice_values, array_pod, build_pointer_pod, build_array_pod, build_struct_pod, build_choice_pod,
  build_sequence_pod, build_embedded_pod,
}
use wyreplumber.Spa.Infer.{is_null, integer_at}
use wyreplumber.Spa.Encode.{
  ObjectParts, object_parts, property_chunks, type_or_default, properties_pod, known_object_pod,
  build_object_pod, packed, build_value, of_type, chosen_type, build_at, build_spa_pod,
}

-- One pod: its header says its type and the size of its body, and its length is what the body and the
-- padding to a multiple of 8 take.
abbrev pub IsPod : List ℕ → Type 0
IsPod raw =
    (n : ℕ) × (pod_type : ℕ) × (parse_pod_header raw ≡ ok (n, pod_type))
    × (length raw ≡ align (8 + n))
    × (length raw % 8 ≡ 0)

-- A result that is one pod, if it is bytes.
abbrev Packs : Result (List ℕ) → Type 0
Packs result = (raw : List ℕ) → result ≡ ok raw → IsPod raw

append_nil : (xs : List ℕ) → xs ++ [] ≡ xs
append_nil [] = refl
append_nil (x ∷ xs) = ap (λ ys. x ∷ ys) (append_nil xs)

Packs-pack_pod : (pod_type : ℕ) (raw : List ℕ) → Packs (pack_pod pod_type raw)
Packs-pack_pod pod_type raw pod h =
    let (long, even, least, most) = length-pack_pod pod_type raw pod h in
    let header = parse_pod_header-pack_pod pod_type raw pod [] h in
    (length raw, pod_type, rw (append_nil pod) at header, long, even)

Packs-err : (e : Error) → Packs (err e)
Packs-err e raw h = cc

-- A block whose rest packs, whatever its first statement returned.
Packs->>= {ℓ} :
    {A : Type ℓ} (first : Result A) (rest : A → Result (List ℕ))
    → ((a : A) → Packs (rest a))
    → Packs (first >>= rest)
Packs->>= first rest packs raw h =
    let (between, returned, done) = >>=-eq-ok first rest h in packs between raw done

Packs-packed :
    (py : Codec) (build : Datum → Option ℤ → Result (List ℕ)) (kind : PodKind)
    (content : Result (List ℕ))
    → Packs (packed py build kind content)
unfolding packed
Packs-packed py build kind content =
    Packs->>= content (pack_pod (kind_number kind)) (Packs-pack_pod (kind_number kind))

module _ (py : Codec) (build : Datum → Option ℤ → Result (List ℕ)) where
  Packs-array : (values : Items) (child size : Datum) → Packs (array_pod py build values child size)
  Packs-array values child size = Packs->>= (child_type_of py child values) _ (λ child_type.
      Packs->>= (bodies py build child_type values size) _ (λ found.
        Packs->>= (size_and_type py build found.0 child_type) _ (λ front. Packs-pack_pod _ _)))

  Packs-build_array_pod : (v : Datum) → Packs (build_array_pod py build v)
  unfolding build_array_pod
  Packs-build_array_pod v = elim (Option-cases (as_mapping v)) [
    | inl e ↦
        rw (e, build_array_pod)
          (Packs->>= (elements py v) _ (λ values. Packs-array values null null))
    | inr (es, e) ↦
        rw (e, build_array_pod)
          (Packs->>= (elements py (lookup_or (text "values") (list nil) es)) _
            (λ values. Packs-array values _ _))
  ]

  Packs-build_struct_pod : (v : Datum) → Packs (build_struct_pod py build v)
  unfolding build_struct_pod
  Packs-build_struct_pod v =
      Packs->>=
        (elements py
          (elim (as_mapping v) [ some es ↦ lookup_or (text "values") (list nil) es | none ↦ v ]))
        _
        (λ values.
          Packs->>= (joined py build values) _
            (λ raw. Packs-pack_pod (kind_number struct_kind) raw))

  Packs-build_embedded_pod : (v : Datum) → Packs (build_embedded_pod py build v)
  unfolding build_embedded_pod
  Packs-build_embedded_pod v =
      Packs->>=
        (embedded_bytes py build
          (elim (as_mapping v) [ some es ↦ lookup_or (text "pod") null es | none ↦ v ]))
        _
        (λ pod.
          Packs->>= (parse_pod_header pod) _
            (λ header. Packs-pack_pod (kind_number pod_kind) (take (align (8 + header.0)) pod)))

  Packs-build_pointer_pod : (v : Datum) → Packs (build_pointer_pod py v)
  unfolding build_pointer_pod
  Packs-build_pointer_pod v = elim (Option-cases (as_mapping v)) [
    | inl e ↦ rw (e, build_pointer_pod) (Packs-err _)
    | inr (es, e) ↦
        rw (e, build_pointer_pod)
          (Packs->>= (integer_at py "pointer_type" es) _ (λ t.
            Packs->>= (integer_at py "value" es) _ (λ n. Packs->>= (pack_uint t) _ (λ a.
              Packs->>= (pack_uint (pos 0)) _ (λ b.
                Packs->>= (pack_u64 n) _
                  (λ c. Packs-pack_pod (kind_number pointer_kind) (a ++ (b ++ c))))))))
  ]

  Packs-build_sequence_pod : (v : Datum) → Packs (build_sequence_pod py build v)
  unfolding build_sequence_pod
  Packs-build_sequence_pod v = elim (Option-cases (as_mapping v)) [
    | inl e ↦ rw (e, build_sequence_pod) (Packs-err _)
    | inr (es, e) ↦
        rw (e, build_sequence_pod)
          (Packs->>= (integer_at py "unit" es) _ (λ unit.
            Packs->>=
              (require (is_sequence py build (lookup_or (text "controls") (list nil) es))
                value_error)
              _
              (λ listed. Packs->>= (pack_uint unit) _ (λ a. Packs->>= (pack_uint (pos 0)) _ (λ b.
                Packs->>= (elements py (lookup_or (text "controls") (list nil) es)) _ (λ items.
                  Packs->>= (control_chunks py build items) _
                    (λ raw. Packs-pack_pod (kind_number sequence_kind) (a ++ (b ++ raw)))))))))
  ]

  Packs-build_choice_pod : (v : Datum) → Packs (build_choice_pod py build v)
  unfolding build_choice_pod
  Packs-build_choice_pod v = elim (Option-cases (as_mapping v)) [
    | inl e ↦ rw (e, build_choice_pod) (Packs-err _)
    | inr (es, e) ↦
        rw (e, build_choice_pod)
          (Packs->>= (elements py (lookup_or (text "values") (list nil) es)) _ (λ listed.
            Packs->>= (integer_at py "choice_type" es) _ (λ t.
              Packs->>= (integer_at py "flags" es) _ (λ flags.
                Packs->>=
                  (child_type_of py (lookup_or (text "child_type") (null) es)
                    (choice_values py build listed es))
                  _
                  (λ child.
                    Packs->>=
                      (bodies py build child (choice_values py build listed es)
                        (lookup_or (text "child_size") (null) es))
                      _
                      (λ found. Packs->>= (size_and_type py build found.0 child) _ (λ back.
                        Packs->>= (pack_uint t) _ (λ a. Packs->>= (pack_uint flags) _ (λ b.
                          Packs-pack_pod (kind_number choice_kind)
                            (a ++ (b ++ (back ++ found.1))))))))))))
  ]

  Packs-properties :
      (found : ObjectParts) (kind : Datum) (properties : Entries)
      → Packs (properties_pod py build found kind properties)
  Packs-properties found kind properties = Packs->>= (to_int py kind) _ (λ t.
      Packs->>= (to_int py found.object_id) _ (λ id. Packs->>= (pack_uint t) _ (λ a.
        Packs->>= (pack_uint id) _ (λ b.
          Packs->>= (property_chunks py build id found.flags found.keys properties) _
            (λ chunks. Packs-pack_pod _ _)))))

  Packs-known_object : (found : ObjectParts) → Packs (known_object_pod py build found)
  Packs-known_object found =
      Packs->>= (type_or_default py found.object_type found.object_id) _ (λ kind.
        elim (Option-cases (as_mapping found.properties)) [
          | inl e ↦ rw e (Packs-err _)
          | inr (properties, e) ↦ rw e (Packs-properties found kind properties)
        ])

  Packs-build_object_pod : (v : Datum) → Packs (build_object_pod py build v)
  unfolding build_object_pod
  Packs-build_object_pod v = elim (Option-cases (object_parts v)) [
    | inl e ↦ rw (e, build_object_pod) (Packs-err _)
    | inr (found, e) ↦
        rw (e, build_object_pod)
          (elim (Bool-cases (is_null found.object_id)) [
            | inl t ↦ rw t (Packs-err _)
            | inr f ↦ rw f (Packs-known_object found)
          ])
  ]

  Packs-build_value : (kind : PodKind) (v : Datum) → Packs (build_value py build kind v)
  unfolding build_value
  Packs-build_value array_kind v = Packs-build_array_pod v
  Packs-build_value struct_kind v = Packs-build_struct_pod v
  Packs-build_value object_kind v = Packs-build_object_pod v
  Packs-build_value sequence_kind v = Packs-build_sequence_pod v
  Packs-build_value pointer_kind v = Packs-build_pointer_pod v
  Packs-build_value choice_kind v = Packs-build_choice_pod v
  Packs-build_value pod_kind v = Packs-build_embedded_pod v
  Packs-build_value _ v = Packs-packed py build _ _

  Packs-of_type : (n : ℤ) (v : Datum) → Packs (of_type py build n v)
  unfolding of_type
  Packs-of_type (negsuc n) v = Packs-err value_error
  Packs-of_type (pos n) v = elim (Option-cases (kind_of n)) [
    | inl e ↦ rw (e, of_type) (Packs-err value_error)
    | inr (kind, e) ↦ rw (e, of_type) (Packs-build_value kind v)
  ]

  Packs-build_at : (v : Datum) (pod_type : Option ℤ) → Packs (build_at py build v pod_type)
  unfolding build_at
  Packs-build_at v pod_type =
      Packs->>= (chosen_type py build v pod_type) _ (λ kind. Packs-of_type kind v)

-- Whatever `build_spa_pod` returns, of any value and any type that it is given, is one pod: its header
-- reads as a type and the size of the body, and its length is the header, that body and padding to a
-- multiple of 8.
pub build_spa_pod-IsPod :
    (py : Codec) (depth : ℕ) (v : Datum) (pod_type : Option ℤ) (raw : List ℕ)
    → build_spa_pod py depth v pod_type ≡ ok raw
    → IsPod raw
unfolding build_spa_pod
build_spa_pod-IsPod py zero v pod_type raw h = cc
build_spa_pod-IsPod py (suc depth) v pod_type raw h =
    Packs-build_at py (build_spa_pod py depth) v pod_type raw h
