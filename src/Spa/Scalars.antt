-- ===== src/Spa/Scalars.antt =====
-- The pods of Spa/Trees that hold no other pods, through the builder and the parser of
-- src/wyreplumber/spa_pod.py.
use wyreplumber.Prelude.{
  ℕ, ◌+◌, ◌-◌, ◌<◌, ℤ, pos, negsuc, Bool, true, false, List, [], ◌∷◌, ◌++◌, Option, none, some,
  String, Result, ok, err, value_error, overflow_error, ◌>>=◌, >>=-ok, >>=-step, length,
  length-append, ◌≡◌, refl, ap, ◌∙◌, arith,
}
use wyreplumber.Spa.Wire.{u32_bytes, pack_u32}
use wyreplumber.Spa.Bytes.{
  read_u32, read_i32, read_u64, pack_i32, pack_i64, pack_u64, pack_uint, unsigned, signed,
  u64_bytes, read_i32-pack_i32, read_i64-pack_i64, read_u64-pack_u64, read_u32-u32_bytes,
  take-append, until_nul, until_nul-append, IsText,
}
use wyreplumber.Spa.Kinds.{
  PodKind, none_kind, bool_kind, int_kind, long_kind, float_kind, string_kind, bytes_kind,
  rectangle_kind, fraction_kind, bitmap_kind, pointer_kind, kind_of, kind_of-kind_number,
}
use wyreplumber.Spa.Datum.{Datum, null, bool, int, float, str, bytes, explicit_pod_type}
use wyreplumber.Spa.Codec.{Codec}
use wyreplumber.Spa.Parse.{parse_pointer}
use wyreplumber.Spa.Decode.{pod_value}
use wyreplumber.Spa.Infer.{infer_spa_type, infer_int, kind_int, rectangle_parts, fraction_parts}
use wyreplumber.Spa.Build.{build_pointer_pod}
use wyreplumber.Spa.Encode.{
  build_at, build_spa_pod, packed, float_bytes, pair_bytes, build_value, chosen_type,
}
use wyreplumber.Spa.Trees.{
  bitmap_pod, rectangle_pod, fraction_pod, pointer_pod, value_of, IsInt, IsLong, IsFloat,
}
use wyreplumber.Spa.RoundTrip.{Stands, Stands-pod}

-- A number in its range has bytes.
pub pack_i32-IsInt : (n : ℤ) → IsInt n → (raw : List ℕ) × (pack_i32 n ≡ ok raw) × (length raw ≡ 4)
unfolding pack_i32 unsigned u32_bytes
pack_i32-IsInt (pos n) h = (u32_bytes n, ground (arith, h), refl)
pack_i32-IsInt (negsuc n) h = (u32_bytes (4294967295 - n), ground (arith, h), refl)

pack_i64-IsLong : (n : ℤ) → IsLong n → (raw : List ℕ) × (pack_i64 n ≡ ok raw) × (length raw ≡ 8)
unfolding pack_i64 unsigned u64_bytes u32_bytes
pack_i64-IsLong (pos n) h = (u64_bytes n, ground (arith, h), refl)
pack_i64-IsLong (negsuc n) h = (u64_bytes (18446744073709551615 - n), ground (arith, h), refl)

infer_int-IsInt : (n : ℤ) → IsInt n → infer_int n ≡ kind_int int_kind
infer_int-IsInt (pos n) h = ground (arith, h)
infer_int-IsInt (negsuc n) h = ground (arith, h)

infer_int-IsLong : (n : ℤ) → IsLong n → infer_int n ≡ kind_int long_kind
infer_int-IsLong (pos n) h = ground (arith, h)
infer_int-IsLong (negsuc n) h = ground (arith, h)

pub pack_u32-ok : (n : ℕ) → n < 4294967296 → pack_uint (pos n) ≡ ok (u32_bytes n)
unfolding pack_uint pack_u32
pack_u32-ok n h = ground (arith, h)

pack_u64-ok : (n : ℕ) → n < 18446744073709551616 → pack_u64 (pos n) ≡ ok (u64_bytes n)
unfolding pack_u64
pack_u64-ok n h = ground (arith, h)

module _ (py : Codec) where
  -- A value is built as a pod of the type that it names, or that it is.
  pub build_at-kind :
      (build : Datum → Option ℤ → Result (List ℕ)) (v : Datum) (kind : PodKind)
      → chosen_type py build v none ≡ ok (kind_int kind)
      → build_at py build v none ≡ build_value py build kind v
  unfolding build_at kind_of
  build_at-kind build v kind chosen =
      >>=-step (chosen_type py build v none) _ chosen
      ∙ ap (λ o. elim o [ none ↦ err value_error | some k ↦ build_value py build k v ])
          (kind_of-kind_number kind)

  pub Stands-none : Stands py null 0 1
  unfolding build_at infer_spa_type explicit_pod_type packed kind_of build_value pod_value
  Stands-none =
      Stands-pod py null none_kind [] 0 0 refl (omega arith) (λ depth enough. refl) (λ more. refl)

  pub Stands-bool : (b : Bool) → Stands py (bool b) 4 1
  unfolding build_at infer_spa_type explicit_pod_type packed kind_of build_value pod_value pack_i32
      unsigned u32_bytes read_i32 read_u32 signed
  Stands-bool true =
      Stands-pod py (bool true) bool_kind (1 ∷ 0 ∷ 0 ∷ 0 ∷ []) 4 0 refl (omega arith)
        (λ depth enough. refl) (λ more. refl)
  Stands-bool false =
      Stands-pod py (bool false) bool_kind (0 ∷ 0 ∷ 0 ∷ 0 ∷ []) 4 0 refl (omega arith)
        (λ depth enough. refl) (λ more. refl)

  pub Stands-int : (n : ℤ) → IsInt n → Stands py (int n) 4 1
  unfolding infer_spa_type explicit_pod_type packed build_value pod_value
  Stands-int n h =
      let (raw, packed, long) = pack_i32-IsInt n h in
      Stands-pod py (int n) int_kind raw 4 0 long (omega arith)
        (λ depth enough.
          build_at-kind _ (int n) int_kind (ap (λ k. ok k) (infer_int-IsInt n h))
          ∙ >>=-step (pack_i32 n) _ packed)
        (λ more. >>=-ok _ _ (read_i32-pack_i32 n raw more packed) refl)

  pub Stands-long : (n : ℤ) → IsLong n → Stands py (int n) 8 1
  unfolding infer_spa_type explicit_pod_type packed build_value pod_value
  Stands-long n h =
      let (raw, packed, long) = pack_i64-IsLong n h in
      Stands-pod py (int n) long_kind raw 8 0 long (omega arith)
        (λ depth enough.
          build_at-kind _ (int n) long_kind (ap (λ k. ok k) (infer_int-IsLong n h))
          ∙ >>=-step (pack_i64 n) _ packed)
        (λ more. >>=-ok _ _ (read_i64-pack_i64 n raw more packed) refl)

  pub Stands-float : (x : ℕ) → IsFloat py x → Stands py (float x) 4 1
  unfolding infer_spa_type explicit_pod_type packed build_value pod_value u32_bytes
  Stands-float x (bits, packed, unpacked) =
      Stands-pod py (float x) float_kind (u32_bytes bits) 4 0 refl (omega arith)
        (λ depth enough.
          build_at-kind _ (float x) float_kind refl
          ∙ >>=-step (float_bytes py (build_spa_pod py depth) x) _
              (ap (λ o. elim o [ none ↦ err overflow_error | some b ↦ ok (u32_bytes b) ]) packed))
        (λ more.
          >>=-step (read_u32 (u32_bytes bits ++ more)) (λ n. ok (float (py.unpack_float n.0)))
            (read_u32-u32_bytes bits more (py.pack_float-Bounded x bits packed))
          ∙ ap (λ y. ok (float y)) unpacked)

  pub Stands-bytes : (b : List ℕ) → length b < 4294967296 → Stands py (bytes b) (length b) 1
  unfolding infer_spa_type explicit_pod_type packed build_value pod_value
  Stands-bytes b small =
      Stands-pod py (bytes b) bytes_kind b (length b) 0 refl small
        (λ depth enough. build_at-kind _ (bytes b) bytes_kind refl)
        (λ more. ap (λ c. ok (bytes c)) (take-append b more))

  pub Stands-string :
      (s : String)
      → IsText (py.encode s)
      → py.decode (py.encode s) ≡ s
      → length (py.encode s) < 4294967295
      → Stands py (str s) (length (py.encode s) + 1) 1
  unfolding infer_spa_type explicit_pod_type packed build_value pod_value
  Stands-string s plain back small =
      let raw = py.encode s ++ 0 ∷ [] in
      let long : length raw ≡ length (py.encode s) + 1 =
        omega (arith, length-append (py.encode s) (0 ∷ [])) in
      Stands-pod py (str s) string_kind raw (length (py.encode s) + 1) 0 long (omega (arith, small))
        (λ depth enough. build_at-kind _ (str s) string_kind refl)
        (λ more.
          ap (λ c. ok (str (py.decode c)))
            (ap until_nul (rw (← long) (take-append raw more))
              ∙ until_nul-append (py.encode s) [] plain)
          ∙ ap (λ t. ok (str t)) back)

  pub Stands-bitmap :
      (b : List ℕ) → length b < 4294967296 → Stands py (value_of (bitmap_pod b)) (length b) 1
  unfolding value_of infer_spa_type explicit_pod_type packed build_value pod_value
  Stands-bitmap b small =
      Stands-pod py (value_of (bitmap_pod b)) bitmap_kind b (length b) 0 refl small
        (λ depth enough. build_at-kind _ (value_of (bitmap_pod b)) bitmap_kind refl)
        (λ more. ap (λ c. ok (value_of (bitmap_pod c))) (take-append b more))

  -- Two numbers of 32 bits, as the codec writes and reads them.
  pair_bytes-ok :
      (build : Datum → Option ℤ → Result (List ℕ)) (m n : ℕ)
      → m < 4294967296
      → n < 4294967296
      → pair_bytes py build (ok (pos m, pos n)) ≡ ok (u32_bytes m ++ u32_bytes n)
  unfolding pair_bytes
  pair_bytes-ok build m n hm hn = >>=-step _ _ (pack_u32-ok m hm) ∙ >>=-step _ _ (pack_u32-ok n hn)

  read_pair :
      (f : ℕ → ℕ → Datum) (m n : ℕ) (more : List ℕ)
      → m < 4294967296
      → n < 4294967296
      → (do
        (a, rest) ← read_u32 ((u32_bytes m ++ u32_bytes n) ++ more)
        (b, after) ← read_u32 rest
        ok (f a b))
        ≡ ok (f m n)
  unfolding u32_bytes
  read_pair f m n more hm hn =
      >>=-ok _ _ (read_u32-u32_bytes m (u32_bytes n ++ more) hm)
        (>>=-ok _ _ (read_u32-u32_bytes n more hn) refl)

  pub Stands-rectangle :
      (w h : ℕ) → w < 4294967296 → h < 4294967296 → Stands py (value_of (rectangle_pod w h)) 8 1
  unfolding value_of infer_spa_type explicit_pod_type packed build_value pod_value rectangle_parts
      u32_bytes
  Stands-rectangle w h hw hh =
      let v = value_of (rectangle_pod w h) in
      Stands-pod py v rectangle_kind (u32_bytes w ++ u32_bytes h) 8 0 refl (omega arith)
        (λ depth enough.
          build_at-kind _ v rectangle_kind refl
          ∙ >>=-step (pair_bytes py (build_spa_pod py depth) (ok (pos w, pos h))) _
              (pair_bytes-ok (build_spa_pod py depth) w h hw hh))
        (λ more. read_pair (λ a b. value_of (rectangle_pod a b)) w h more hw hh)

  pub Stands-fraction :
      (n d : ℕ) → n < 4294967296 → d < 4294967296 → Stands py (value_of (fraction_pod n d)) 8 1
  unfolding value_of infer_spa_type explicit_pod_type packed build_value pod_value fraction_parts
      u32_bytes
  Stands-fraction n d hn hd =
      let v = value_of (fraction_pod n d) in
      Stands-pod py v fraction_kind (u32_bytes n ++ u32_bytes d) 8 0 refl (omega arith)
        (λ depth enough.
          build_at-kind _ v fraction_kind refl
          ∙ >>=-step (pair_bytes py (build_spa_pod py depth) (ok (pos n, pos d))) _
              (pair_bytes-ok (build_spa_pod py depth) n d hn hd))
        (λ more. read_pair (λ a b. value_of (fraction_pod a b)) n d more hn hd)

  pub Stands-pointer :
      (t n : ℕ)
      → t < 4294967296
      → n < 18446744073709551616
      → Stands py (value_of (pointer_pod t n)) 16 1
  unfolding value_of infer_spa_type explicit_pod_type packed build_value pod_value build_pointer_pod
      parse_pointer u32_bytes u64_bytes
  Stands-pointer t n ht hn =
      let v = value_of (pointer_pod t n) in
      let raw = u32_bytes t ++ (u32_bytes 0 ++ u64_bytes n) in
      let packed : pack_u64 (pos n) ≡ ok (u64_bytes n) = pack_u64-ok n hn in
      Stands-pod py v pointer_kind raw 16 0 refl (omega arith)
        (λ depth enough.
          build_at-kind _ v pointer_kind refl
          ∙ >>=-step _ _ (pack_u32-ok t ht)
          ∙ >>=-step _ _ packed)
        (λ more.
          >>=-ok (read_u32 (raw ++ more))
            (λ a. do m ← read_u64 (u64_bytes n ++ more); ok (value_of (pointer_pod a.0 m)))
            (read_u32-u32_bytes t (u32_bytes 0 ++ (u64_bytes n ++ more)) ht)
            (>>=-ok _ (λ m. ok (value_of (pointer_pod t m)))
              (read_u64-pack_u64 n (u64_bytes n) more packed) refl))
