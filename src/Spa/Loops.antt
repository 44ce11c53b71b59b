-- ===== src/Spa/Loops.antt =====
-- The loops of the parser of src/wyreplumber/spa_pod.py, over two parsers of the pods within: they ask for
-- pods in fewer bytes only.
use wyreplumber.Prelude.{
  ℕ, zero, suc, ◌+◌, ◌-◌, ◌<◌, Bool, true, false, ltb, leb, List, [], ◌∷◌, ◌++◌, Result, ok, err,
  >>=-cong, length, if◌then◌else◌, ◌≡◌, refl, ap, arith, ◌>>=◌,
}
use wyreplumber.Spa.Wire.{align, u32_bytes, parse_pod_header}
use wyreplumber.Spa.Bytes.{take, drop, read_u32, length-take, length-drop}
use wyreplumber.Spa.Datum.{Datum}
use wyreplumber.Spa.Codec.{Codec}
use wyreplumber.Spa.Parse.{children, struct_items, controls}
use wyreplumber.Spa.ParseObject.{Collected, object_items}

-- Two parsers that agree on fewer than `n` bytes.
abbrev pub Agree : ℕ → (p q : List ℕ → Result Datum) → Type 0
Agree n p q = (raw : List ℕ) → length raw < n → p raw ≡ q raw

pub branch-cong {ℓ} :
    {A : Type ℓ} {x x' y y' : A} (b : Bool)
    → (b ≡ false → x ≡ x')
    → (b ≡ true → y ≡ y')
    → elim b [ false ↦ x | true ↦ y ] ≡ elim b [ false ↦ x' | true ↦ y' ]
branch-cong false f t = f refl
branch-cong true f t = t refl

pub if-cong {ℓ} :
    {A : Type ℓ} {y y' : A} (x : A) (b : Bool)
    → (b ≡ false → y ≡ y')
    → (if b then x else y) ≡ (if b then x else y')
if-cong x false f = f refl
if-cong x true f = refl

-- Equal first statements, and rests that go on alike.
pub both-cong {ℓ κ} :
    {A : Type ℓ} {B : Type κ} {first second : Result A} {f g : A → Result B}
    → first ≡ second
    → ((a : A) → f a ≡ g a)
    → first >>= f ≡ second >>= g
both-cong {second} {f} {g} same rest = rw same (>>=-cong second f g (λ a returned. rest a))

pub length-read_u32 :
    (raw : List ℕ) (n : ℕ) (rest : List ℕ)
    → read_u32 raw ≡ ok (n, rest)
    → length raw ≡ 4 + length rest
unfolding read_u32
length-read_u32 [] n rest h = cc
length-read_u32 (a ∷ []) n rest h = cc
length-read_u32 (a ∷ b ∷ []) n rest h = cc
length-read_u32 (a ∷ b ∷ c ∷ []) n rest h = cc
length-read_u32 (a ∷ b ∷ c ∷ d ∷ more) n rest h =
    omega (arith, ap {B = ℕ} (λ r. elim r [ ok x ↦ length x.1 | err e ↦ 0 ]) h)

module _ (n : ℕ) (p q : List ℕ → Result Datum) (agree : Agree n p q) where
  pub children-cong :
      (fuel child_size child_type left : ℕ) (raw : List ℕ)
      → 8 + left < n
      → children p fuel child_size child_type left raw
        ≡ children q fuel child_size child_type left raw
  unfolding children u32_bytes
  children-cong zero child_size child_type left raw small = refl
  children-cong (suc fuel) child_size child_type left raw small =
      branch-cong (leb child_size left) (λ over. refl)
        (λ fits.
          let fewer : 8 + child_size < n = ground (arith, fits, small) in
          let pod = u32_bytes child_size ++ (u32_bytes child_type ++ take child_size raw) in
          let short : length pod < n = omega (arith, length-take child_size raw, fewer) in
          both-cong (agree pod short) (λ v.
            both-cong
              (children-cong fuel child_size child_type (left - child_size) (drop child_size raw)
                (omega (arith, small)))
              (λ vs. refl)))

  pub struct_items-cong :
      (fuel left : ℕ) (raw : List ℕ)
      → length raw < n
      → struct_items p fuel left raw ≡ struct_items q fuel left raw
  unfolding struct_items
  struct_items-cong zero left raw small = refl
  struct_items-cong (suc fuel) left raw small =
      branch-cong (leb 8 left) (λ over. refl)
        (λ fits. >>=-cong (parse_pod_header raw) _ _ (λ header read.
          let total = align (8 + header.0) in
          branch-cong (ltb left total)
            (λ inside. both-cong (agree raw small) (λ v.
              both-cong
                (struct_items-cong fuel (left - total) (drop total raw)
                  (omega (arith, length-drop total raw, small)))
                (λ vs. refl)))
            (λ over. refl)))

  pub controls-cong :
      (fuel left : ℕ) (raw : List ℕ)
      → length raw < n
      → controls p fuel left raw ≡ controls q fuel left raw
  unfolding controls
  controls-cong zero left raw small = refl
  controls-cong (suc fuel) left raw small =
      branch-cong (leb 16 left) (λ over. refl)
        (λ fits. >>=-cong (read_u32 raw) _ _ (λ first read1.
          >>=-cong (read_u32 first.1) _ _ (λ second read2.
            >>=-cong (parse_pod_header second.1) _ _ (λ header read.
              let total = align (8 + header.0) in
              let pod = second.1 in
              let shorter : length pod < n = omega (
                arith,
                small,
                length-read_u32 raw first.0 first.1 read1,
                length-read_u32 first.1 second.0 second.1 read2,
              ) in
              branch-cong (ltb (left - 8) total)
                (λ inside. both-cong (agree pod shorter) (λ v.
                  both-cong
                    (controls-cong fuel (left - 8 - total) (drop total pod)
                      (omega (arith, length-drop total pod, shorter)))
                    (λ vs. refl)))
                (λ over. refl)))))

  module _ (py : Codec) where
    pub object_items-cong :
        (fuel object_id left : ℕ) (raw : List ℕ) (found : Collected)
        → length raw < n
        → object_items py p fuel object_id left raw found
          ≡ object_items py q fuel object_id left raw found
    unfolding object_items
    object_items-cong zero object_id left raw found small = refl
    object_items-cong (suc fuel) object_id left raw found small =
        branch-cong (leb 16 left) (λ over. refl)
          (λ fits. >>=-cong (read_u32 raw) _ _ (λ first read1.
            >>=-cong (read_u32 first.1) _ _ (λ second read2.
              >>=-cong (parse_pod_header second.1) _ _ (λ header read.
                let total = align (8 + header.0) in
                let pod = second.1 in
                let shorter : length pod < n = omega (
                  arith,
                  small,
                  length-read_u32 raw first.0 first.1 read1,
                  length-read_u32 first.1 second.0 second.1 read2,
                ) in
                branch-cong (ltb (left - 8) total)
                  (λ inside. both-cong (agree pod shorter) (λ v. >>=-cong _ _ _ (λ next collected.
                    object_items-cong fuel object_id (left - 8 - total) (drop total pod) next
                      (omega (arith, length-drop total pod, shorter)))))
                  (λ over. refl)))))
