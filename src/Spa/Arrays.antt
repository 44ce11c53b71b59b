-- ===== src/Spa/Arrays.antt =====
-- Arrays of numbers, through the builder and the parser of src/wyreplumber/spa_pod.py.
use wyreplumber.Prelude.{
  ℕ, zero, suc, ◌+◌, ◌-◌, ◌<◌, ◌≤◌, ◌==◌, ==_iff, ltb, leb, pos, Bool, true, false, List, [], ◌∷◌,
  ◌++◌, none, some, ok, require, value_error, >>=-step, length, length-append, ◌≡◌, refl, sym, ap,
  ◌∙◌, arith, if_true, if_false,
}
use wyreplumber.Spa.Wire.{
  u32_bytes, pack_pod, parse_pod_header, parse_pod_header-pod_bytes, pod_bytes,
}
use wyreplumber.Spa.Bytes.{
  read_u32, read_u32-u32_bytes, pack_uint, take, drop, take-append, drop-append,
}
use wyreplumber.Spa.Kinds.{PodKind, array_kind, kind_number, kind_number-Bounded}
use wyreplumber.Spa.Datum.{Datum, explicit_pod_type, int, Items, nil, cons}
use wyreplumber.Spa.Codec.{Codec}
use wyreplumber.Spa.Parse.{children, array, parse_array}
use wyreplumber.Spa.Decode.{parse_spa_pod, pod_value}
use wyreplumber.Spa.Build.{bodies, size_and_type, same_size, build_array_pod}
use wyreplumber.Spa.Encode.{build_spa_pod, build_at, build_value}
use wyreplumber.Spa.Infer.{infer_spa_type}
use wyreplumber.Spa.RoundTrip.{append_assoc, Stands, Stands-pod}
use wyreplumber.Spa.Scalars.{build_at-kind, pack_u32-ok}

pub append_nil : (xs : List ℕ) → xs ++ [] ≡ xs
append_nil [] = refl
append_nil (x ∷ xs) = ap (λ ys. x ∷ ys) (append_nil xs)

take-pod_bytes : (k : ℕ) (raw : List ℕ) → take (length raw) (drop 8 (pod_bytes k raw)) ≡ raw
unfolding pod_bytes drop u32_bytes
take-pod_bytes k raw = take-append raw _

-- Items with their bodies.
abbrev pub item_values : List (Datum × List ℕ) → Items
item_values [] = nil
item_values ((v, raw) ∷ items) = cons v (item_values items)

abbrev pub raws_of : List (Datum × List ℕ) → List ℕ
raws_of [] = []
raws_of ((v, raw) ∷ items) = raw ++ raws_of items

pub branch-true {ℓ} :
    {A : Type ℓ} (x y : A) (b : Bool) → b ≡ true → elim b [ false ↦ x | true ↦ y ] ≡ y
branch-true x y b h = rw h refl

pub branch-false {ℓ} :
    {A : Type ℓ} (x y : A) (b : Bool) → b ≡ false → elim b [ false ↦ x | true ↦ y ] ≡ x
branch-false x y b h = rw h refl

module _ (py : Codec) (kind : PodKind) (size : ℕ) (some_bytes : 0 < size)
    (small : size < 4294967296) where
  -- An item of an array: it is built as a pod of the type of the items, and its body, behind that
  -- header, reads back as the item.
  abbrev pub IsItem : Datum → List ℕ → Type 0
  IsItem v raw =
      (length raw ≡ size)
      × ((depth : ℕ)
          → build_spa_pod py (suc depth) v (some (pos (kind_number kind)))
            ≡ ok (pod_bytes (kind_number kind) raw))
      × (parse_spa_pod py (u32_bytes size ++ (u32_bytes (kind_number kind) ++ raw)) ≡ ok v)

  abbrev pub AreItems : List (Datum × List ℕ) → Type 0
  AreItems [] = Unit
  AreItems ((v, raw) ∷ items) = IsItem v raw × AreItems items

  -- The bytes that the items take.
  abbrev pub total : List (Datum × List ℕ) → ℕ
  total [] = 0
  total (item ∷ items) = size + total items

  children-AreItems :
      (fuel : ℕ) (items : List (Datum × List ℕ)) (more : List ℕ)
      → AreItems items
      → total items ≤ fuel
      → children
          (parse_spa_pod py)
          fuel
          size
          (kind_number kind)
          (total items)
          (raws_of items ++ more)
        ≡ ok (item_values items)
  unfolding children
  children-AreItems zero [] more items enough = refl
  children-AreItems (suc fuel) [] more items enough =
      branch-false _ _ (leb size 0) (ground (arith, some_bytes))
  children-AreItems zero (item ∷ items) more h enough = ground (arith, enough, some_bytes)
  children-AreItems (suc fuel) ((v, raw) ∷ items) more h enough =
      let (item, rest) = h in
      let (long, built, reads) = item in
      let parse = parse_spa_pod py in
      let k = kind_number kind in
      let whole = (raw ++ raws_of items) ++ more in
      let after = raws_of items ++ more in
      let split : whole ≡ raw ++ after = append_assoc raw (raws_of items) more in
      let taken : take size whole ≡ raw =
        ap (take size) split ∙ rw (← long) (take-append raw after) in
      let dropped : drop size whole ≡ after =
        ap (drop size) split ∙ rw (← long) (drop-append raw after) in
      let left : size + total items - size ≡ total items = omega arith in
      let later : children parse fuel size k (size + total items - size) (drop size whole)
          ≡ ok (item_values items) =
        rw left (
          rw dropped
            (children-AreItems fuel items more rest (omega (arith, enough, some_bytes)))) in
      branch-true _ _ (leb size (size + total items)) (ground arith)
      ∙ >>=-step (parse (u32_bytes size ++ (u32_bytes k ++ take size whole))) _
          (ap (λ t. parse (u32_bytes size ++ (u32_bytes k ++ t))) taken ∙ reads)
      ∙ >>=-step (children parse fuel size k (size + total items - size) (drop size whole)) _ later

  bodies-AreItems :
      (depth : ℕ) (items : List (Datum × List ℕ))
      → AreItems items
      → bodies py
          (build_spa_pod py (suc depth))
          (int (pos (kind_number kind)))
          (item_values items)
          (int (pos size))
        ≡ ok (int (pos size), raws_of items)
  unfolding bodies
  bodies-AreItems depth [] h = refl
  bodies-AreItems depth ((v, raw) ∷ items) h =
      let (item, rest) = h in
      let (long, built, reads) = item in
      let k = kind_number kind in
      let pod = pod_bytes k raw in
      let build = build_spa_pod py (suc depth) in
      let sized : length raw < 4294967296 = omega (arith, long, small) in
      let header : parse_pod_header pod ≡ ok (length raw, k) =
        ap parse_pod_header (sym (append_nil pod))
        ∙ parse_pod_header-pod_bytes k raw [] (kind_number-Bounded kind) sized in
      >>=-step (build v (some (pos k))) _ (built depth)
      ∙ >>=-step (parse_pod_header pod) _ header
      ∙ >>=-step (require (k == k) value_error) _
          (ap (λ b. require b value_error) ((==_iff k k).1 refl))
      ∙ >>=-step (same_size py (int (pos size)) (length raw)) _
          (if_true (size == length raw) _ _ ((==_iff size (length raw)).1 (sym long)))
      ∙ >>=-step (bodies py build (int (pos k)) (item_values items) (int (pos size))) _
          (bodies-AreItems depth items rest)
      ∙ ap (λ r. ok (int (pos size), r ++ raws_of items)) (take-pod_bytes k raw)

  length-raws_of :
      (items : List (Datum × List ℕ)) → AreItems items → length (raws_of items) ≡ total items
  length-raws_of [] h = refl
  length-raws_of ((v, raw) ∷ items) h =
      let (item, rest) = h in
      omega (arith, length-append raw (raws_of items), item.0, length-raws_of items rest)

  -- The body of an array.
  abbrev array_body : List (Datum × List ℕ) → List ℕ
  array_body items = (u32_bytes size ++ u32_bytes (kind_number kind)) ++ raws_of items

  length-array_body :
      (items : List (Datum × List ℕ)) → AreItems items → length (array_body items) ≡ 8 + total items
  unfolding u32_bytes
  length-array_body items h = omega (arith, length-raws_of items h)

  build-array :
      (depth : ℕ) (items : List (Datum × List ℕ))
      → AreItems items
      → 1 ≤ depth
      → build_at py
          (build_spa_pod py depth)
          (array size (kind_number kind) (item_values items))
          none
        ≡ pack_pod 13 (array_body items)
  unfolding infer_spa_type explicit_pod_type build_value build_array_pod
  build-array zero items h deep = ground (arith, deep)
  build-array (suc depth) items h deep =
      let k = kind_number kind in
      build_at-kind py (build_spa_pod py (suc depth)) (array size k (item_values items)) array_kind
        refl
      ∙ >>=-step
          (bodies py (build_spa_pod py (suc depth)) (int (pos k)) (item_values items)
            (int (pos size)))
          _ (bodies-AreItems depth items h)
      ∙ >>=-step (size_and_type py (build_spa_pod py (suc depth)) (int (pos size)) (int (pos k))) _
          (>>=-step (pack_uint (pos size)) _ (pack_u32-ok size small)
            ∙ >>=-step (pack_uint (pos k)) _ (pack_u32-ok k (kind_number-Bounded kind)))

  parse-array :
      (items : List (Datum × List ℕ)) (more : List ℕ)
      → AreItems items
      → parse_array (parse_spa_pod py) (array_body items ++ more) (8 + total items)
        ≡ ok (array size (kind_number kind) (item_values items))
  unfolding parse_array
  parse-array items more h =
      let k = kind_number kind in
      let n = 8 + total items in
      let left : n - 8 ≡ total items = omega arith in
      let parse = parse_spa_pod py in
      let found : children parse n size k (n - 8) (raws_of items ++ more) ≡ ok (item_values items) =
        rw left (children-AreItems n items more h (omega arith)) in
      let after = raws_of items ++ more in
      let whole : array_body items ++ more ≡ u32_bytes size ++ (u32_bytes k ++ after) =
        append_assoc (u32_bytes size ++ u32_bytes k) (raws_of items) more
        ∙ append_assoc (u32_bytes size) (u32_bytes k) after in
      ap (λ raw. parse_array parse raw n) whole
      ∙ if_false (ltb n 8) _ _ (ground arith)
      ∙ >>=-step (read_u32 (u32_bytes size ++ (u32_bytes k ++ after))) _
          (read_u32-u32_bytes size (u32_bytes k ++ after) small)
      ∙ >>=-step (read_u32 (u32_bytes k ++ after)) _
          (read_u32-u32_bytes k after (kind_number-Bounded kind))
      ∙ branch-false _ _ (size == 0) (ground (arith, some_bytes))
      ∙ >>=-step (children parse n size k (n - 8) after) _ found

  -- An array of items is a pod that comes back.
  pub Stands-array :
      (items : List (Datum × List ℕ))
      → AreItems items
      → 8 + total items < 4294967296
      → Stands py (array size (kind_number kind) (item_values items)) (8 + total items) 2
  unfolding pod_value
  Stands-array items h fits =
      Stands-pod py (array size (kind_number kind) (item_values items)) array_kind
        (array_body items) (8 + total items) 1 (length-array_body items h) fits
        (λ depth deep. build-array depth items h deep) (λ more. parse-array items more h)
