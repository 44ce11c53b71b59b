-- ===== src/Spa/Numbers.antt =====
-- Arrays of integers and of 32-bit floats, through the builder and the parser of
-- src/wyreplumber/spa_pod.py.
use wyreplumber.Prelude.{
  ℕ, ◌+◌, ◌*◌, ◌<◌, ℤ, List, [], ◌∷◌, ◌++◌, All, none, some, ok, err, overflow_error, >>=-step,
  length, ◌≡◌, refl, sym, ap, ◌∙◌, arith,
}
use wyreplumber.Spa.Wire.{u32_bytes, u32_lem, parse_pod_header}
use wyreplumber.Spa.Bytes.{
  drop, read_u32, read_i32, pack_i32, read_i32-pack_i32, read_u32-u32_bytes,
}
use wyreplumber.Spa.Kinds.{
  PodKind, int_kind, float_kind, kind_number, kind_of, kind_of-kind_number, kind_number-Bounded,
}
use wyreplumber.Spa.Datum.{Datum, int, float, cons}
use wyreplumber.Spa.Codec.{Codec}
use wyreplumber.Spa.Parse.{array}
use wyreplumber.Spa.Decode.{parse_spa_pod, pod_value}
use wyreplumber.Spa.Encode.{build_spa_pod, build_at, of_type, build_value, packed, float_bytes}
use wyreplumber.Spa.Fuel.{parse_spa_pod-unroll}
use wyreplumber.Spa.Trees.{IsInt, IsFloat, ints, floats}
use wyreplumber.Spa.RoundTrip.{Stands, pack_pod-ok, pod_at-ok}
use wyreplumber.Spa.Scalars.{pack_i32-IsInt}
use wyreplumber.Spa.Arrays.{IsItem, AreItems, total, item_values, append_nil, Stands-array}

module _ (py : Codec) where
  -- A pod of four bytes with no padding, as the items of an array are read.
  parse-item :
      (kind : PodKind) (v : Datum) (raw : List ℕ)
      → length raw ≡ 4
      → pod_value py (parse_spa_pod py) kind 4 raw ≡ ok v
      → parse_spa_pod py (u32_bytes 4 ++ (u32_bytes (kind_number kind) ++ raw)) ≡ ok v
  unfolding parse_pod_header drop u32_bytes
  parse-item kind v raw long reads =
      let whole = u32_bytes 4 ++ (u32_bytes (kind_number kind) ++ raw) in
      parse_spa_pod-unroll py whole
      ∙ pod_at-ok py v (parse_spa_pod py) kind whole 4 (kind_number kind)
          (ap (λ k. ok (4, k)) (u32_lem (kind_number kind) (kind_number-Bounded kind)))
          (omega (arith, long)) (kind_of-kind_number kind) reads

  IsItem-int :
      (n : ℤ)
      → IsInt n
      → (raw : List ℕ) × IsItem py int_kind 4 (omega arith) (omega arith) (int n) raw
  unfolding build_spa_pod build_at of_type kind_of build_value packed pod_value
  IsItem-int n h =
      let (raw, written, long) = pack_i32-IsInt n h in
      (
        raw,
        (
          long,
          (λ depth.
              >>=-step (pack_i32 n) _ written ∙ pack_pod-ok int_kind raw (omega (arith, long))),
          parse-item int_kind (int n) raw long (
              >>=-step (read_i32 raw) _
                (ap read_i32 (sym (append_nil raw)) ∙ read_i32-pack_i32 n raw [] written)),
        ),
      )

  IsItem-float :
      (x : ℕ)
      → IsFloat py x
      → (raw : List ℕ) × IsItem py float_kind 4 (omega arith) (omega arith) (float x) raw
  unfolding build_spa_pod build_at of_type kind_of build_value packed pod_value u32_bytes
  IsItem-float x (bits, written, back) =
      let raw = u32_bytes bits in
      (
        raw,
        (
          refl,
          (λ depth.
              >>=-step (float_bytes py (build_spa_pod py depth) x) _
                (ap (λ o. elim o [ none ↦ err overflow_error | some b ↦ ok (u32_bytes b) ]) written)
              ∙ pack_pod-ok float_kind raw (omega arith)),
          parse-item float_kind (float x) raw refl (
              >>=-step (read_u32 raw) (λ n. ok (float (py.unpack_float n.0)))
                (read_u32-u32_bytes bits [] (py.pack_float-Bounded x bits written))
              ∙ ap (λ y. ok (float y)) back),
        ),
      )

  -- The items of an array of integers, and of floats.
  int_items :
      (ns : List ℤ)
      → All IsInt ns
      → (items : List (Datum × List ℕ)) × AreItems py int_kind 4 (omega arith) (omega arith) items
        × (item_values items ≡ ints ns)
        × (total py int_kind 4 (omega arith) (omega arith) items ≡ 4 * length ns)
  int_items [] h = ([], tt, refl, refl)
  int_items (n ∷ ns) h =
      let (raw, item) = IsItem-int n h.0 in
      let (items, are, same, long) = int_items ns h.1 in
      ((int n, raw) ∷ items, (item, are), ap (cons (int n)) same, omega (arith, long))

  float_items :
      (xs : List ℕ)
      → All (IsFloat py) xs
      → (items : List (Datum × List ℕ)) × AreItems py float_kind 4 (omega arith) (omega arith) items
        × (item_values items ≡ floats xs)
        × (total py float_kind 4 (omega arith) (omega arith) items ≡ 4 * length xs)
  float_items [] h = ([], tt, refl, refl)
  float_items (x ∷ xs) h =
      let (raw, item) = IsItem-float x h.0 in
      let (items, are, same, long) = float_items xs h.1 in
      ((float x, raw) ∷ items, (item, are), ap (cons (float x)) same, omega (arith, long))

  pub Stands-ints :
      (ns : List ℤ)
      → All IsInt ns
      → 8 + 4 * length ns < 4294967296
      → Stands py (array 4 4 (ints ns)) (8 + 4 * length ns) 2
  Stands-ints ns h small =
      let (items, are, same, long) = int_items ns h in
      rw (← same, ← long)
        (Stands-array py int_kind 4 (omega arith) (omega arith) items are
          (omega (arith, long, small)))

  pub Stands-floats :
      (xs : List ℕ)
      → All (IsFloat py) xs
      → 8 + 4 * length xs < 4294967296
      → Stands py (array 4 6 (floats xs)) (8 + 4 * length xs) 2
  Stands-floats xs h small =
      let (items, are, same, long) = float_items xs h in
      rw (← same, ← long)
        (Stands-array py float_kind 4 (omega arith) (omega arith) items are
          (omega (arith, long, small)))
