-- ===== src/Spa/Nested.antt =====
-- Pods within pods, through the builder and the parser of src/wyreplumber/spa_pod.py.
use wyreplumber.Prelude.{
  ℕ, zero, suc, ◌+◌, ◌-◌, ◌<◌, ◌≤◌, ℤ, false, ltb, leb, List, [], ◌∷◌, ◌++◌, Option, none, Result,
  ok, >>=-step, length, length-append, ◌≡◌, refl, ap, if_false, ◌∙◌, arith,
}
use wyreplumber.Spa.Wire.{align, parse_pod_header, pack_pod}
use wyreplumber.Spa.Bytes.{take, drop, drop-append}
use wyreplumber.Spa.Kinds.{struct_kind, pod_kind}
use wyreplumber.Spa.Datum.{Datum, Items, nil, cons, explicit_pod_type}
use wyreplumber.Spa.Codec.{Codec}
use wyreplumber.Spa.Parse.{struct_items, parse_struct, parse_embedded_pod}
use wyreplumber.Spa.Decode.{pod_value, parse_spa_pod}
use wyreplumber.Spa.Infer.{infer_spa_type}
use wyreplumber.Spa.Build.{joined, build_struct_pod, embedded_bytes, build_embedded_pod}
use wyreplumber.Spa.Encode.{build_spa_pod, build_value}
use wyreplumber.Spa.Trees.{
  Tree, none_pod, bool_pod, int_pod, long_pod, float_pod, string_pod, bytes_pod, bitmap_pod,
  rectangle_pod, fraction_pod, pointer_pod, ints_pod, floats_pod, struct_pod, embedded_pod, Forest,
  no_pods, pods, value_of, values_of, size, sizes, height, heights, Fits, AllFit, is_bytes,
}
use wyreplumber.Spa.RoundTrip.{Stands, Stands-pod, append_assoc}
use wyreplumber.Spa.Arrays.{append_nil, branch-true, branch-false}
use wyreplumber.Spa.Numbers.{Stands-ints, Stands-floats}
use wyreplumber.Spa.Scalars.{
  build_at-kind, Stands-none, Stands-bool, Stands-int, Stands-long, Stands-float, Stands-string,
  Stands-bytes, Stands-bitmap, Stands-rectangle, Stands-fraction, Stands-pointer,
}

take-all : (xs : List ℕ) → take (length xs) xs ≡ xs
unfolding take
take-all [] = refl
take-all (x ∷ xs) = ap (λ ys. x ∷ ys) (take-all xs)

at_least_8 : (n : ℕ) → 8 ≤ align (8 + n)
unfolding align
at_least_8 n = omega arith

module _ (py : Codec) where
  -- Values that are written one after another, and read back from a struct.
  abbrev StandInRow : Items → (n h : ℕ) → Type 0
  StandInRow vs n h =
      (raw : List ℕ) × (length raw ≡ n)
      × ((depth : ℕ) → h ≤ depth → joined py (build_spa_pod py depth) vs ≡ ok raw)
      × ((fuel : ℕ) (more : List ℕ)
          → n ≤ fuel
          → struct_items (parse_spa_pod py) fuel n (raw ++ more) ≡ ok vs)

  no_items :
      (fuel : ℕ) (more : List ℕ) → struct_items (parse_spa_pod py) fuel 0 ([] ++ more) ≡ ok nil
  unfolding struct_items
  no_items zero more = refl
  no_items (suc fuel) more = refl

  -- One more pod before a row of others.
  read_row :
      (v : Datum) (vs : Items) (n m fuel pod_type : ℕ) (first rest : List ℕ)
      → length first ≡ align (8 + n)
      → 8 ≤ length first
      → parse_pod_header (first ++ rest) ≡ ok (n, pod_type)
      → parse_spa_pod py (first ++ rest) ≡ ok v
      → struct_items (parse_spa_pod py) fuel m rest ≡ ok vs
      → struct_items (parse_spa_pod py) (suc fuel) (align (8 + n) + m) (first ++ rest)
        ≡ ok (cons v vs)
  unfolding struct_items align
  read_row v vs n m fuel pod_type first rest long some_bytes header reads later =
      let total = align (8 + n) in
      let parse = parse_spa_pod py in
      let left : total + m - total ≡ m = omega arith in
      let after : drop total (first ++ rest) ≡ rest = rw (← long) (drop-append first rest) in
      let rows : struct_items parse fuel (total + m - total) (drop total (first ++ rest)) ≡ ok vs =
        rw left (rw after later) in
      branch-true _ _ (leb 8 (total + m)) (ground (arith, long, some_bytes))
      ∙ >>=-step (parse_pod_header (first ++ rest)) _ header
      ∙ branch-false _ _ (ltb (total + m) total) (ground arith)
      ∙ >>=-step (parse (first ++ rest)) _ reads
      ∙ >>=-step (struct_items parse fuel (total + m - total) (drop total (first ++ rest))) _ rows

  row_within :
      (v : Datum) (vs : Items) (n m fuel pod_type : ℕ) (first rest : List ℕ)
      → length first ≡ align (8 + n)
      → parse_pod_header (first ++ rest) ≡ ok (n, pod_type)
      → parse_spa_pod py (first ++ rest) ≡ ok v
      → ((f : ℕ) → m ≤ f → struct_items (parse_spa_pod py) f m rest ≡ ok vs)
      → align (8 + n) + m ≤ fuel
      → struct_items (parse_spa_pod py) fuel (align (8 + n) + m) (first ++ rest) ≡ ok (cons v vs)
  unfolding align
  row_within v vs n m zero pod_type first rest long header reads later enough =
      ground (arith, enough)
  row_within v vs n m (suc fuel) pod_type first rest long header reads later enough =
      read_row v vs n m fuel pod_type first rest long (omega (arith, long)) header reads
        (later fuel (omega (arith, enough)))

  StandInRow-cons :
      (v : Datum) (vs : Items) (n m h k : ℕ)
      → Stands py v n h
      → StandInRow vs m k
      → StandInRow (cons v vs) (align (8 + n) + m) (h + k)
  unfolding joined
  StandInRow-cons v vs n m h k (first, long, built, read, pod_type, header)
        (rest, length_rest, joins, reads) =
      (
        first ++ rest,
        omega (arith, length-append first rest, long, length_rest),
        (λ depth enough.
            >>=-step (build_spa_pod py depth v none) _ (built depth (omega (arith, enough)))
            ∙ >>=-step (joined py (build_spa_pod py depth) vs) _
                (joins depth (omega (arith, enough)))),
        (λ fuel more enough. rw (append_assoc first rest more) (
            row_within v vs n m fuel pod_type first (rest ++ more) long (header (rest ++ more))
              (read (rest ++ more)) (λ f. reads f more) enough)),
      )

  -- A struct of a row of pods, and a pod within a pod.
  Stands-struct :
      (ts : Forest) (n h : ℕ)
      → n < 4294967296
      → StandInRow (values_of ts) n h
      → Stands py (value_of (struct_pod ts)) n (suc h)
  unfolding value_of infer_spa_type explicit_pod_type build_value build_struct_pod pod_value
      parse_struct
  Stands-struct ts n h small (raw, long, joins, reads) =
      let v = value_of (struct_pod ts) in
      Stands-pod py v struct_kind raw n h long small
        (λ depth enough.
          build_at-kind py (build_spa_pod py depth) v struct_kind refl
          ∙ >>=-step (joined py (build_spa_pod py depth) (values_of ts)) _ (joins depth enough))
        (λ more.
          >>=-step (struct_items (parse_spa_pod py) n n (raw ++ more)) _
            (reads n more (omega arith)))

  embedded_bytes-value_of :
      (t : Tree) (build : Datum → Option ℤ → Result (List ℕ))
      → is_bytes t ≡ false
      → embedded_bytes py build (value_of t) ≡ build (value_of t) none
  unfolding value_of
  embedded_bytes-value_of (bytes_pod b) build h = ground (arith, h)
  embedded_bytes-value_of _ build h = refl

  Stands-embedded :
      (t : Tree) (n h : ℕ)
      → is_bytes t ≡ false
      → align (8 + n) < 4294967296
      → Stands py (value_of t) n h
      → Stands py (value_of (embedded_pod t)) (align (8 + n)) (suc h)
  unfolding value_of infer_spa_type explicit_pod_type build_value build_embedded_pod pod_value
      parse_embedded_pod
  Stands-embedded t n h other small (raw, long, built, read, pod_type, header) =
      let v = value_of (embedded_pod t) in
      let total = align (8 + n) in
      Stands-pod py v pod_kind raw total h long small
        (λ depth enough.
          let build = build_spa_pod py depth in
          build_at-kind py build v pod_kind refl
          ∙ >>=-step (embedded_bytes py build (value_of t)) _
              (embedded_bytes-value_of t build other ∙ built depth enough)
          ∙ >>=-step (parse_pod_header raw) _ (rw (append_nil raw) at (header []))
          ∙ ap (λ taken. pack_pod 20 taken) (rw (← long) (take-all raw)))
        (λ more.
          if_false (ltb total 8) _ _ (ground (arith, at_least_8 n))
          ∙ >>=-step (parse_pod_header (raw ++ more)) _ (header more)
          ∙ branch-false _ _ (ltb total total) (ground arith)
          ∙ >>=-step (parse_spa_pod py (raw ++ more)) _ (read more))

  -- Every pod of Spa/Trees that fits is built, and reads back.
  mutual
    unfolding Fits size height value_of joined

    pub Stands-Tree : (t : Tree) → Fits py t → Stands py (value_of t) (size py t) (height t)
    Stands-Tree none_pod h = Stands-none py
    Stands-Tree (bool_pod b) h = Stands-bool py b
    Stands-Tree (int_pod n) h = Stands-int py n h
    Stands-Tree (long_pod n) h = Stands-long py n h
    Stands-Tree (float_pod x) h = Stands-float py x h
    Stands-Tree (string_pod s) h = Stands-string py s h.0.0 h.0.1 h.1
    Stands-Tree (bytes_pod b) h = Stands-bytes py b h
    Stands-Tree (bitmap_pod b) h = Stands-bitmap py b h
    Stands-Tree (rectangle_pod w d) h = Stands-rectangle py w d h.0 h.1
    Stands-Tree (fraction_pod n d) h = Stands-fraction py n d h.0 h.1
    Stands-Tree (pointer_pod t n) h = Stands-pointer py t n h.0 h.1
    Stands-Tree (ints_pod ns) h = Stands-ints py ns h.0 h.1
    Stands-Tree (floats_pod xs) h = Stands-floats py xs h.0 h.1
    Stands-Tree (struct_pod ts) h =
        Stands-struct ts (sizes py ts) (heights ts) h.1 (StandInRow-Forest ts h.0)
    Stands-Tree (embedded_pod t) h =
        Stands-embedded t (size py t) (height t) h.0 h.2 (Stands-Tree t h.1)

    StandInRow-Forest :
        (ts : Forest) → AllFit py ts → StandInRow (values_of ts) (sizes py ts) (heights ts)
    StandInRow-Forest no_pods h =
        ([], refl, (λ depth enough. refl), λ fuel more enough. no_items fuel more)
    StandInRow-Forest (pods t ts) h =
        StandInRow-cons (value_of t) (values_of ts) (size py t) (sizes py ts) (height t)
          (heights ts) (Stands-Tree t h.0) (StandInRow-Forest ts h.1)

  -- A pod of Spa/Trees that fits (its numbers into their fields, its bodies into 32 bits, its texts
  -- without NUL, its floats exact) is built from its value in as many nested calls as its height or
  -- more. The bytes are its header, its body and the padding to a multiple of 8, and the parser gives
  -- the value back from them, whatever bytes follow.
  pub parse_spa_pod-build_spa_pod :
      (t : Tree) (depth : ℕ) (rest : List ℕ)
      → Fits py t
      → height t ≤ depth
      → (raw : List ℕ) × (build_spa_pod py depth (value_of t) none ≡ ok raw)
        × (length raw ≡ align (8 + size py t))
        × (parse_spa_pod py (raw ++ rest) ≡ ok (value_of t))
  parse_spa_pod-build_spa_pod t depth rest fits enough =
      let (raw, long, built, read, pod_type, header) = Stands-Tree t fits in
      (raw, built depth enough, long, read rest)
