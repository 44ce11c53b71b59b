-- ===== src/Spa/RoundTrip.antt =====
-- The builder and the parser of src/wyreplumber/spa_pod.py on the pods of Spa/Trees.
use wyreplumber.Prelude.{
  ℕ, zero, suc, ◌+◌, ◌<◌, ◌≤◌, List, [], ◌∷◌, ◌++◌, none, some, Result, ok, >>=-ok, length,
  length-append, ◌≡◌, refl, ap, ◌∙◌, arith,
}
use wyreplumber.Spa.Wire.{
  align, pack_u32, pack_pod, pod_bytes, parse_pod_header, ensure_available,
  parse_pod_header-pod_bytes, length-pod_bytes, u32_bytes,
}
use wyreplumber.Spa.Bytes.{drop}
use wyreplumber.Spa.Kinds.{PodKind, kind_number, kind_of, kind_of-kind_number, kind_number-Bounded}
use wyreplumber.Spa.Datum.{Datum}
use wyreplumber.Spa.Codec.{Codec}
use wyreplumber.Spa.Decode.{pod_value, pod_at, parse_spa_pod}
use wyreplumber.Spa.Encode.{build_at, build_spa_pod}
use wyreplumber.Spa.Fuel.{parse_spa_pod-unroll}

pub append_assoc : (xs ys zs : List ℕ) → (xs ++ ys) ++ zs ≡ xs ++ (ys ++ zs)
append_assoc [] ys zs = refl
append_assoc (x ∷ xs) ys zs = ap (λ r. x ∷ r) (append_assoc xs ys zs)

pub pack_pod-ok :
    (kind : PodKind) (raw : List ℕ)
    → length raw < 4294967296
    → pack_pod (kind_number kind) raw ≡ ok (pod_bytes (kind_number kind) raw)
unfolding pack_pod pack_u32 pod_bytes
pack_pod-ok kind raw small =
    let bounded = kind_number-Bounded kind in ground (arith, small, bounded)

module _ (py : Codec) where
  -- A value, written as a pod of a body of `n` bytes by as many calls as `h` or more, and read back
  -- with whatever follows it.
  abbrev pub Stands : Datum → (n h : ℕ) → Type 0
  Stands v n h =
      (raw : List ℕ) × (length raw ≡ align (8 + n))
      × ((depth : ℕ) → h ≤ depth → build_spa_pod py depth v none ≡ ok raw)
      × ((rest : List ℕ) → parse_spa_pod py (raw ++ rest) ≡ ok v)
      × (pod_type : ℕ) × ((rest : List ℕ) → parse_pod_header (raw ++ rest) ≡ ok (n, pod_type))

  pub pod_at-ok :
      (v : Datum) (parse : List ℕ → Result Datum) (kind : PodKind) (raw : List ℕ) (n pod_type : ℕ)
      → parse_pod_header raw ≡ ok (n, pod_type)
      → n ≤ length (drop 8 raw)
      → kind_of pod_type ≡ some kind
      → pod_value py parse kind n (drop 8 raw) ≡ ok v
      → pod_at py parse raw ≡ ok v
  unfolding pod_at ensure_available
  pod_at-ok v parse kind raw n pod_type header there known reads =
      let available : ensure_available (drop 8 raw) n ≡ ok tt = ground (arith, there) in
      >>=-ok (parse_pod_header raw) _ header
        (>>=-ok (ensure_available (drop 8 raw) n) _ available (rw known reads))

  drop-pod_bytes :
      (pod_type : ℕ) (raw rest : List ℕ)
      → (more : List ℕ) × (drop 8 (pod_bytes pod_type raw ++ rest) ≡ raw ++ more)
  unfolding pod_bytes drop u32_bytes
  drop-pod_bytes pod_type raw rest = (_, append_assoc raw _ rest)

  parse_pod_bytes :
      (v : Datum) (kind : PodKind) (raw rest : List ℕ)
      → length raw < 4294967296
      → ((more : List ℕ) → pod_value py (parse_spa_pod py) kind (length raw) (raw ++ more) ≡ ok v)
      → parse_spa_pod py (pod_bytes (kind_number kind) raw ++ rest) ≡ ok v
  parse_pod_bytes v kind raw rest small reads =
      let k = kind_number kind in
      let whole = pod_bytes k raw ++ rest in
      let (more, after) = drop-pod_bytes k raw rest in
      let there : length raw ≤ length (drop 8 whole) =
        rw after (omega (arith, length-append raw more)) in
      parse_spa_pod-unroll py whole
      ∙ pod_at-ok v (parse_spa_pod py) kind whole (length raw) k
          (parse_pod_header-pod_bytes k raw rest (kind_number-Bounded kind) small) there
          (kind_of-kind_number kind) (rw after (reads more))

  -- A pod of a known type stands when its builder packs the body that its parser reads.
  pub Stands-pod :
      (v : Datum) (kind : PodKind) (raw : List ℕ) (n h : ℕ)
      → length raw ≡ n
      → n < 4294967296
      → ((depth : ℕ)
          → h ≤ depth
          → build_at py (build_spa_pod py depth) v none ≡ pack_pod (kind_number kind) raw)
      → ((more : List ℕ) → pod_value py (parse_spa_pod py) kind n (raw ++ more) ≡ ok v)
      → Stands v n (suc h)
  unfolding build_spa_pod
  Stands-pod v kind raw n h long small builds reads =
      let k = kind_number kind in
      let short : length raw < 4294967296 = omega (arith, long, small) in
      (
        pod_bytes k raw,
        (rw (← long) (length-pod_bytes k raw).0),
        (λ depth enough.
            elim depth as (λ d. suc h ≤ d → build_spa_pod py d v none ≡ ok (pod_bytes k raw)) [
              | zero ↦ λ e. ground (arith, e)
              | suc d ↦ λ e. builds d (omega (arith, e)) ∙ pack_pod-ok kind raw short
            ]
              enough),
        (λ rest. parse_pod_bytes v kind raw rest short (λ more. rw long (reads more))),
        k,
        (λ rest.
            rw (← long) (parse_pod_header-pod_bytes k raw rest (kind_number-Bounded kind) short)),
      )
