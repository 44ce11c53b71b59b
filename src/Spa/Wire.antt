-- ===== src/Spa/Wire.antt =====
-- The bytes of a SPA pod (src/wyreplumber/_spa_pod_types.py): a little-endian header, the size of the
-- body and its type, then the body, then zeros up to a multiple of 8. A byte is a number below 256.
-- Reading at an offset is reading the bytes after it. `struct_error` is `struct.error`.
use Prim.Native.Nat.{◌/◌, ◌%◌, ◌*◌}
use wyreplumber.Prelude.{
  ℕ, zero, suc, ◌+◌, ◌-◌, ◌<◌, ◌≤◌, List, [], ◌∷◌, ◌++◌, Result, ok, err, value_error, struct_error,
  ◌>>=◌, ◌>>◌, require, ltb, leb, length, length-append, ◌≡◌, refl, arith,
}

-- The four bytes of `struct.pack("<I", n)`, of a number below 2 ^ 32.
unfoldable pub u32_bytes : ℕ → List ℕ
u32_bytes n = n % 256 ∷ n / 256 % 256 ∷ n / 65536 % 256 ∷ n / 16777216 % 256 ∷ []

-- The number that four bytes are.
abbrev pub u32 : (a b c d : ℕ) → ℕ
u32 a b c d = a + 256 * (b + 256 * (c + 256 * d))

-- `size` zeros.
unfoldable pub zeros : ℕ → List ℕ
zeros zero = []
zeros (suc n) = 0 ∷ zeros n

-- `_align(value)`: rounding up to a multiple of 8 clears the low three bits.
unfoldable pub align : ℕ → ℕ
align n = (n + 7) / 8 * 8

-- `struct.pack("<I", n)`
unfoldable pub pack_u32 : ℕ → Result (List ℕ)
unfolding u32_bytes
pack_u32 n = do require (ltb n 4294967296) struct_error; ok (u32_bytes n)

-- `_pack_pod`
unfoldable pub pack_pod : (pod_type : ℕ) → (body : List ℕ) → Result (List ℕ)
unfolding pack_u32 align zeros
pack_pod pod_type body = do
  size ← pack_u32 (length body)
  kind ← pack_u32 pod_type
  ok (size ++ (kind ++ (body ++ zeros (align (8 + length body) - (8 + length body)))))

-- `_parse_pod_header`: the size and the type.
unfoldable pub parse_pod_header : (bytes : List ℕ) → Result (ℕ × ℕ)
parse_pod_header (a ∷ b ∷ c ∷ d ∷ e ∷ f ∷ g ∷ h ∷ rest) = ok (u32 a b c d, u32 e f g h)
parse_pod_header _ = err value_error

-- `_ensure_available`
unfoldable pub ensure_available : (bytes : List ℕ) → (size : ℕ) → Result (Unit {0})
ensure_available bytes size = require (leb size (length bytes)) value_error

pub u32_lem :
    (n : ℕ)
    → n < 4294967296
    → u32 (n % 256) (n / 256 % 256) (n / 65536 % 256) (n / 16777216 % 256) ≡ n
u32_lem n h = omega (arith, h)

pub length-zeros : (n : ℕ) → length (zeros n) ≡ n
unfolding zeros
length-zeros zero = refl
length-zeros (suc n) = omega (arith, length-zeros n)

-- A pod whose size and type fit into 32 bits is packed, and no other.
unfoldable pub pod_bytes : (pod_type : ℕ) → (body : List ℕ) → List ℕ
unfolding u32_bytes align zeros
pod_bytes pod_type body =
    u32_bytes (length body)
    ++ (u32_bytes pod_type ++ (body ++ zeros (align (8 + length body) - (8 + length body))))

pub pack_pod_lem :
    (pod_type : ℕ) (body raw : List ℕ)
    → pack_pod pod_type body ≡ ok raw
    → (length body < 4294967296) × (pod_type < 4294967296) × (pod_bytes pod_type body ≡ raw)
unfolding pack_pod pack_u32 pod_bytes
pack_pod_lem pod_type body raw packed =
    (ground (arith, packed), ground (arith, packed), ground (arith, packed))

pub length-pod_bytes :
    (pod_type : ℕ) (body : List ℕ)
    → let n = length (pod_bytes pod_type body) in
      (n ≡ align (8 + length body)) × (n % 8 ≡ 0) × (8 + length body ≤ n) × (n ≤ 15 + length body)
unfolding pod_bytes u32_bytes align
length-pod_bytes pod_type body =
    let padding = align (8 + length body) - (8 + length body) in
    let whole : length (pod_bytes pod_type body) ≡ 8 + (length body + padding) =
      omega (arith, length-append body (zeros padding), length-zeros padding) in
    (omega (arith, whole), omega (arith, whole), omega (arith, whole), omega (arith, whole))

pub parse_pod_header-pod_bytes :
    (pod_type : ℕ) (body rest : List ℕ)
    → pod_type < 4294967296
    → length body < 4294967296
    → parse_pod_header (pod_bytes pod_type body ++ rest) ≡ ok (length body, pod_type)
unfolding pod_bytes u32_bytes parse_pod_header
parse_pod_header-pod_bytes pod_type body rest typed sized =
    λ i. ok (u32_lem (length body) sized i, u32_lem pod_type typed i)

-- A packed pod is its header, its body and at most 7 bytes of padding, and a multiple of 8 bytes long:
-- the next multiple after the header and the body.
pub length-pack_pod :
    (pod_type : ℕ) (body raw : List ℕ)
    → pack_pod pod_type body ≡ ok raw
    → (length raw ≡ align (8 + length body))
      × (length raw % 8 ≡ 0)
      × (8 + length body ≤ length raw)
      × (length raw ≤ 15 + length body)
length-pack_pod pod_type body raw packed =
    let (sized, typed, same) = pack_pod_lem pod_type body raw packed in
    rw (← same) (length-pod_bytes pod_type body)

-- The header of a packed pod reads back as the size of its body and its type, whatever bytes follow
-- the pod.
pub parse_pod_header-pack_pod :
    (pod_type : ℕ) (body raw rest : List ℕ)
    → pack_pod pod_type body ≡ ok raw
    → parse_pod_header (raw ++ rest) ≡ ok (length body, pod_type)
parse_pod_header-pack_pod pod_type body raw rest packed =
    let (sized, typed, same) = pack_pod_lem pod_type body raw packed in
    rw (← same) (parse_pod_header-pod_bytes pod_type body rest typed sized)
