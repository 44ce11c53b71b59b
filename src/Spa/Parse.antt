-- ===== src/Spa/Parse.antt =====
-- `parse_spa_pod` (src/wyreplumber/spa_pod.py). A pod is parsed from the bytes at its offset, so that
-- `data` and `offset` are the one list that starts there; `left` is the distance to the `end` of a
-- container. The parser of a container takes the parser of the pods in it as an argument. Each
-- pod within another starts later than it, so the length of the bytes is enough fuel: it runs out at
-- no bytes at all, where reading the header raises.
use wyreplumber.Prelude.{
  ℕ, zero, suc, ◌+◌, ◌-◌, pos, String, true, false, ◌==◌, ltb, leb, List, ◌++◌, Result, ok, err,
  value_error, ◌>>=◌, if◌then◌else◌,
}
use wyreplumber.Value.{text}
use wyreplumber.Spa.Wire.{align, u32_bytes, parse_pod_header}
use wyreplumber.Spa.Bytes.{take, drop, read_u32, read_u64}
use wyreplumber.Spa.Kinds.{
  PodKind, none_kind, array_kind, struct_kind, sequence_kind, pointer_kind, pod_kind, kind_number,
}
use wyreplumber.Spa.Datum.{Datum, null, int, list, dict, Items, nil, cons, Entries, end, entry}

abbrev pub num : ℕ → Datum
num n = int (pos n)

-- A generic structure: `{"_pod_type": kind, ...}`.
abbrev pub structure : PodKind → Entries → Datum
structure kind es = dict (entry (text "_pod_type") (num (kind_number kind)) es)

abbrev pub pair : PodKind → (first : String) → ℕ → (second : String) → ℕ → Datum
pair kind first a second b =
    structure kind (entry (text first) (num a) (entry (text second) (num b) end))

abbrev pub array : (child_size child_type : ℕ) → Items → Datum
array child_size child_type values = structure array_kind (
    entry (text "child_size") (num child_size)
      (entry (text "child_type") (num child_type) (entry (text "values") (list values) end)))

-- The children of an array or a choice, each `child_size` bytes, at most `n` of them.
unfoldable pub children :
    (parse : List ℕ → Result Datum) → (n child_size child_type left : ℕ) → List ℕ → Result Items
children parse zero child_size child_type left raw = ok nil
children parse (suc n) child_size child_type left raw = elim (leb child_size left) [
  | false ↦ ok nil
  | true ↦ (do
    v ← parse (u32_bytes child_size ++ (u32_bytes child_type ++ take child_size raw))
    vs ← children parse n child_size child_type (left - child_size) (drop child_size raw)
    ok (cons v vs))
]

-- `_parse_array`
unfoldable pub parse_array : (parse : List ℕ → Result Datum) → List ℕ → ℕ → Result Datum
unfolding children read_u32
parse_array parse raw size = if ltb size 8 then ok (array 0 (kind_number none_kind) nil) else do
  (child_size, more) ← read_u32 raw
  (child_type, rest) ← read_u32 more
  elim (child_size == 0) [
    | true ↦ ok (array 0 child_type nil)
    | false ↦ (do
      values ← children parse size child_size child_type (size - 8) rest
      ok (array child_size child_type values))
  ]

-- The pods of a struct, at most `n`.
unfoldable pub struct_items : (parse : List ℕ → Result Datum) → (n left : ℕ) → List ℕ → Result Items
unfolding parse_pod_header align
struct_items parse zero left raw = ok nil
struct_items parse (suc n) left raw = elim (leb 8 left) [
  | false ↦ ok nil
  | true ↦ (do
    (pod_size, kind) ← parse_pod_header raw
    let total_size = align (8 + pod_size)
    elim (ltb left total_size) [
      | true ↦ ok nil
      | false ↦ (do
        v ← parse raw
        vs ← struct_items parse n (left - total_size) (drop total_size raw)
        ok (cons v vs))
    ])
]

-- `_parse_struct`
unfoldable pub parse_struct : (parse : List ℕ → Result Datum) → List ℕ → ℕ → Result Datum
unfolding struct_items
parse_struct parse raw size = do
  values ← struct_items parse size size raw
  ok (structure struct_kind (entry (text "values") (list values) end))

abbrev pub control : (offset kind : ℕ) → Datum → Datum
control offset kind value = dict (
    entry (text "offset") (num offset)
      (entry (text "type") (num kind) (entry (text "value") value end)))

abbrev pub sequence_pod : ℕ → Items → Datum
sequence_pod unit controls =
    structure sequence_kind
      (entry (text "unit") (num unit) (entry (text "controls") (list controls) end))

-- The controls of a sequence, at most `n`.
unfoldable pub controls : (parse : List ℕ → Result Datum) → (n left : ℕ) → List ℕ → Result Items
unfolding parse_pod_header align read_u32
controls parse zero left raw = ok nil
controls parse (suc n) left raw = elim (leb 16 left) [
  | false ↦ ok nil
  | true ↦ (do
    (control_offset, more) ← read_u32 raw
    (control_type, pod) ← read_u32 more
    (pod_size, kind) ← parse_pod_header pod
    let total_size = align (8 + pod_size)
    elim (ltb (left - 8) total_size) [
      | true ↦ ok nil
      | false ↦ (do
        v ← parse pod
        vs ← controls parse n (left - 8 - total_size) (drop total_size pod)
        ok (cons (control control_offset control_type v) vs))
    ])
]

-- `_parse_sequence`
unfoldable pub parse_sequence : (parse : List ℕ → Result Datum) → List ℕ → ℕ → Result Datum
unfolding controls read_u32
parse_sequence parse raw size = if ltb size 8 then ok (sequence_pod 0 nil) else do
  (unit, rest) ← read_u32 raw
  cs ← controls parse size (size - 8) (drop 8 raw)
  ok (sequence_pod unit cs)

-- `_parse_pointer`
unfoldable pub parse_pointer : List ℕ → ℕ → Result Datum
unfolding read_u32 read_u64
parse_pointer raw size =
    if ltb size 8 then ok (pair pointer_kind "pointer_type" 0 "value" 0) else do
      (pointer_type, rest) ← read_u32 raw
      value ←
          (if leb 16 size
            then read_u64 (drop 8 raw)
            else if leb 12 size
            then (do (n, more) ← read_u32 (drop 8 raw); ok n)
            else ok 0)
      ok (pair pointer_kind "pointer_type" pointer_type "value" value)

-- `_parse_embedded_pod`
unfoldable pub parse_embedded_pod : (parse : List ℕ → Result Datum) → List ℕ → ℕ → Result Datum
unfolding parse_pod_header align
parse_embedded_pod parse raw size =
    if ltb size 8 then ok (structure pod_kind (entry (text "pod") null end)) else do
      (pod_size, kind) ← parse_pod_header raw
      elim (ltb size (align (8 + pod_size))) [
        | true ↦ err value_error
        | false ↦ (do v ← parse raw; ok (structure pod_kind (entry (text "pod") v end)))
      ]
