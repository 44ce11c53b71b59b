-- ===== src/Spa/Fuel.antt =====
-- The fuel of the parser of src/wyreplumber/spa_pod.py: the pods within a pod start later than it, so
-- that the parsers of containers ask for pods in fewer bytes only.
use wyreplumber.Prelude.{
  ℕ, zero, suc, ◌+◌, ◌-◌, ◌<◌, ◌≤◌, ltb, List, [], ◌∷◌, Result, ok, >>=-cong, length, ◌≡◌, refl,
  ◌∙◌, arith, ◌==◌, Option-cases, inl, inr,
}
use wyreplumber.Spa.Wire.{align, parse_pod_header, ensure_available}
use wyreplumber.Spa.Bytes.{drop, read_u32, length-drop}
use wyreplumber.Spa.Kinds.{
  PodKind, array_kind, struct_kind, object_kind, sequence_kind, choice_kind, pod_kind, kind_of,
}
use wyreplumber.Spa.Datum.{Datum}
use wyreplumber.Spa.Codec.{Codec}
use wyreplumber.Spa.Parse.{parse_array, parse_struct, parse_sequence, parse_embedded_pod}
use wyreplumber.Spa.ParseObject.{nothing_collected, parse_choice, parse_object}
use wyreplumber.Spa.Decode.{pod_value, pod_at, parse_pod, parse_spa_pod}
use wyreplumber.Spa.Loops.{
  Agree, branch-cong, if-cong, both-cong, length-read_u32, children-cong, struct_items-cong,
  controls-cong, object_items-cong,
}

module _ (n : ℕ) (p q : List ℕ → Result Datum) (agree : Agree n p q) where
  parse_array-cong :
      (raw : List ℕ) (size : ℕ) → size < n → parse_array p raw size ≡ parse_array q raw size
  unfolding parse_array
  parse_array-cong raw size small = if-cong _ (ltb size 8) (λ long.
      >>=-cong (read_u32 raw) _ _ (λ first read1. >>=-cong (read_u32 first.1) _ _ (λ second read2.
        branch-cong (first.0 == 0)
          (λ filled.
            both-cong
              (children-cong n p q agree size first.0 second.0 (size - 8) second.1
                (ground (arith, long, small)))
              (λ values. refl))
          (λ hollow. refl))))

  parse_choice-cong :
      (raw : List ℕ) (size : ℕ) → size < n → parse_choice p raw size ≡ parse_choice q raw size
  unfolding parse_choice
  parse_choice-cong raw size small = if-cong _ (ltb size 16) (λ long.
      >>=-cong (read_u32 raw) _ _ (λ kind read1. >>=-cong (read_u32 kind.1) _ _ (λ flags read2.
        >>=-cong (read_u32 flags.1) _ _ (λ first read3.
          >>=-cong (read_u32 first.1) _ _ (λ second read4.
            branch-cong (first.0 == 0)
              (λ filled.
                both-cong
                  (children-cong n p q agree size first.0 second.0 (size - 16) second.1
                    (ground (arith, long, small)))
                  (λ values. refl))
              (λ hollow. refl))))))

  parse_sequence-cong :
      (raw : List ℕ) (size : ℕ)
      → length raw < n
      → parse_sequence p raw size ≡ parse_sequence q raw size
  unfolding parse_sequence
  parse_sequence-cong raw size small = if-cong _ (ltb size 8) (λ long.
      >>=-cong (read_u32 raw) _ _ (λ unit read.
        both-cong
          (controls-cong n p q agree size (size - 8) (drop 8 raw)
            (omega (arith, length-drop 8 raw, small)))
          (λ cs. refl)))

  parse_embedded_pod-cong :
      (raw : List ℕ) (size : ℕ)
      → length raw < n
      → parse_embedded_pod p raw size ≡ parse_embedded_pod q raw size
  unfolding parse_embedded_pod
  parse_embedded_pod-cong raw size small = if-cong _ (ltb size 8) (λ long.
      >>=-cong (parse_pod_header raw) _ _ (λ header read.
        branch-cong (ltb size (align (8 + header.0)))
          (λ inside. both-cong (agree raw small) (λ v. refl)) (λ over. refl)))

  module _ (py : Codec) where
    parse_object-cong :
        (raw : List ℕ) (size : ℕ)
        → length raw < n
        → parse_object py p raw size ≡ parse_object py q raw size
    unfolding parse_object
    parse_object-cong raw size small = if-cong _ (ltb size 8) (λ long.
        >>=-cong (read_u32 raw) _ _ (λ kind read1. >>=-cong (read_u32 kind.1) _ _ (λ id read2.
          both-cong
            (object_items-cong n p q agree py size id.0 (size - 8) id.1 nothing_collected (
              omega (
                arith,
                small,
                length-read_u32 raw kind.0 kind.1 read1,
                length-read_u32 kind.1 id.0 id.1 read2,
              )))
            (λ found. refl))))

    pod_value-cong :
        (kind : PodKind) (size : ℕ) (raw : List ℕ)
        → length raw < n
        → size < n
        → pod_value py p kind size raw ≡ pod_value py q kind size raw
    unfolding pod_value parse_struct
    pod_value-cong array_kind size raw short small = parse_array-cong raw size small
    pod_value-cong struct_kind size raw short small =
        both-cong (struct_items-cong n p q agree size size raw short) (λ vs. refl)
    pod_value-cong object_kind size raw short small = parse_object-cong raw size short
    pod_value-cong sequence_kind size raw short small = parse_sequence-cong raw size short
    pod_value-cong choice_kind size raw short small = parse_choice-cong raw size small
    pod_value-cong pod_kind size raw short small = parse_embedded_pod-cong raw size short
    pod_value-cong _ size raw short small = refl

length-parse_pod_header :
    (raw : List ℕ) (header : ℕ × ℕ) → parse_pod_header raw ≡ ok header → 8 ≤ length raw
unfolding parse_pod_header
length-parse_pod_header raw header h = ground (arith, h)

module _ (py : Codec) where
  pod_at-cong :
      (p q : List ℕ → Result Datum) (raw : List ℕ)
      → Agree (length raw) p q
      → pod_at py p raw ≡ pod_at py q raw
  unfolding pod_at ensure_available
  pod_at-cong p q raw agree = >>=-cong (parse_pod_header raw) _ _ (λ header read.
      >>=-cong (ensure_available (drop 8 raw) header.0) _ _ (λ unit there.
        let long = length-parse_pod_header raw header read in
        let short : length (drop 8 raw) < length raw = omega (arith, length-drop 8 raw, long) in
        let fits : header.0 < length raw = ground (arith, there, short) in
        elim (Option-cases (kind_of header.1)) [
          | inl unknown ↦ rw unknown refl
          | inr (kind, known) ↦
              rw known
                (pod_value-cong (length raw) p q agree py kind header.0 (drop 8 raw) short fits)
        ]))

  -- Any fuel at least the length of the bytes gives the same result.
  pub parse_pod-enough :
      (n m : ℕ) (raw : List ℕ)
      → length raw ≤ n
      → length raw ≤ m
      → parse_pod py n raw ≡ parse_pod py m raw
  unfolding parse_pod pod_at parse_pod_header
  parse_pod-enough zero zero raw hn hm = refl
  parse_pod-enough zero (suc m) [] hn hm = refl
  parse_pod-enough (suc n) zero [] hn hm = refl
  parse_pod-enough zero (suc m) (x ∷ raw) hn hm = ground (arith, hn)
  parse_pod-enough (suc n) zero (x ∷ raw) hn hm = ground (arith, hm)
  parse_pod-enough (suc n) (suc m) raw hn hm =
      pod_at-cong (parse_pod py n) (parse_pod py m) raw
        (λ shorter h. parse_pod-enough n m shorter (omega (arith, h, hn)) (omega (arith, h, hm)))

  -- The parser is a solution of the recursion that the source writes: with no fuel to count, it is its
  -- own body around itself.
  pub parse_spa_pod-unroll :
      (raw : List ℕ) → parse_spa_pod py raw ≡ pod_at py (parse_spa_pod py) raw
  unfolding parse_spa_pod
  parse_spa_pod-unroll raw =
      let n = length raw in
      parse_pod-enough n (suc n) raw (omega arith) (omega arith)
      ∙ pod_at-cong (parse_pod py n) (parse_spa_pod py) raw (λ shorter h.
        parse_pod-enough n (length shorter) shorter (omega (arith, h)) (omega arith))
