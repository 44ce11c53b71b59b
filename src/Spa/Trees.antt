-- ===== src/Spa/Trees.antt =====
-- What the codec of src/wyreplumber/spa_pod.py says twice the same: the values that it reads back as
-- they were written.
use wyreplumber.Prelude.{
  All, [], ◌∷◌, ◌*◌, ℕ, suc, ◌+◌, ◌<◌, ◌≤◌, ℤ, pos, negsuc, Bool, String, List, some, length, ◌≡◌,
  true, false,
}
use wyreplumber.Value.{text}
use wyreplumber.Spa.Wire.{align}
use wyreplumber.Spa.Bytes.{IsText}
use wyreplumber.Spa.Kinds.{
  struct_kind, bitmap_kind, rectangle_kind, fraction_kind, pointer_kind, pod_kind,
}
use wyreplumber.Spa.Datum.{
  Datum, null, bool, int, float, str, bytes, list, Items, nil, cons, end, entry,
}
use wyreplumber.Spa.Codec.{Codec}
use wyreplumber.Spa.Parse.{structure, pair, array}

-- Pods that say their type, and structs of them.
mutual
  pub data Tree : Type 0 where
    none_pod : Tree
    bool_pod : Bool → Tree
    int_pod long_pod : ℤ → Tree
    float_pod : ℕ → Tree
    string_pod : String → Tree
    bytes_pod bitmap_pod : List ℕ → Tree
    rectangle_pod fraction_pod pointer_pod : ℕ → ℕ → Tree
    ints_pod : List ℤ → Tree
    floats_pod : List ℕ → Tree
    struct_pod : Forest → Tree
    embedded_pod : Tree → Tree

  pub data Forest : Type 0 where
    no_pods : Forest
    pods : Tree → Forest → Forest

abbrev pub ints : List ℤ → Items
ints [] = nil
ints (n ∷ ns) = cons (int n) (ints ns)

abbrev pub floats : List ℕ → Items
floats [] = nil
floats (x ∷ xs) = cons (float x) (floats xs)

-- The Python value of a pod.
unfoldable mutual
  pub value_of : Tree → Datum
  value_of none_pod = null
  value_of (bool_pod b) = bool b
  value_of (int_pod n) = int n
  value_of (long_pod n) = int n
  value_of (float_pod x) = float x
  value_of (string_pod s) = str s
  value_of (bytes_pod b) = bytes b
  value_of (bitmap_pod b) = structure bitmap_kind (entry (text "data") (bytes b) end)
  value_of (rectangle_pod w h) = pair rectangle_kind "width" w "height" h
  value_of (fraction_pod n d) = pair fraction_kind "num" n "denom" d
  value_of (pointer_pod t n) = pair pointer_kind "pointer_type" t "value" n
  value_of (ints_pod ns) = array 4 4 (ints ns)
  value_of (floats_pod xs) = array 4 6 (floats xs)
  value_of (struct_pod ts) = structure struct_kind (entry (text "values") (list (values_of ts)) end)
  value_of (embedded_pod t) = structure pod_kind (entry (text "pod") (value_of t) end)

  pub values_of : Forest → Items
  values_of no_pods = nil
  values_of (pods t ts) = cons (value_of t) (values_of ts)

-- The depth of the calls that a pod takes.
unfoldable mutual
  pub height : Tree → ℕ
  height (ints_pod ns) = 2
  height (floats_pod xs) = 2
  height (struct_pod ts) = suc (heights ts)
  height (embedded_pod t) = suc (height t)
  height _ = 1

  pub heights : Forest → ℕ
  heights no_pods = 0
  heights (pods t ts) = height t + heights ts

abbrev pub IsInt : ℤ → Type 0
IsInt (pos n) = n < 2147483648
IsInt (negsuc n) = n < 2147483648

abbrev pub is_bytes : Tree → Bool
is_bytes (bytes_pod b) = true
is_bytes _ = false

-- What fits into 64 bits and not into 32.
abbrev pub IsLong : ℤ → Type 0
IsLong (pos n) = (2147483648 ≤ n) × (n < 9223372036854775808)
IsLong (negsuc n) = (2147483648 ≤ n) × (n < 9223372036854775808)

module _ (py : Codec) where
  -- The bytes of the body of a pod.
  unfoldable mutual
    pub size : Tree → ℕ
    size none_pod = 0
    size (bool_pod b) = 4
    size (int_pod n) = 4
    size (long_pod n) = 8
    size (float_pod x) = 4
    size (string_pod s) = length (py.encode s) + 1
    size (bytes_pod b) = length b
    size (bitmap_pod b) = length b
    size (rectangle_pod w h) = 8
    size (fraction_pod n d) = 8
    size (pointer_pod t n) = 16
    size (ints_pod ns) = 8 + 4 * length ns
    size (floats_pod xs) = 8 + 4 * length xs
    size (struct_pod ts) = sizes ts
    size (embedded_pod t) = align (8 + size t)

    pub sizes : Forest → ℕ
    sizes no_pods = 0
    sizes (pods t ts) = align (8 + size t) + sizes ts

  -- A text without NUL that UTF-8 gives back.
  abbrev IsPlainText : String → Type 0
  IsPlainText s = IsText (py.encode s) × (py.decode (py.encode s) ≡ s)

  -- A double that is a 32-bit float.
  abbrev pub IsFloat : ℕ → Type 0
  IsFloat x = (bits : ℕ) × (py.pack_float x ≡ some bits) × (py.unpack_float bits ≡ x)

  -- The numbers fit into their fields, and every body into 32 bits. Bytes within a pod are taken for
  -- that pod itself.
  unfoldable mutual
    pub Fits : Tree → Type 0
    Fits none_pod = Unit
    Fits (bool_pod b) = Unit
    Fits (int_pod n) = IsInt n
    Fits (long_pod n) = IsLong n
    Fits (float_pod x) = IsFloat x
    Fits (string_pod s) = IsPlainText s × (length (py.encode s) < 4294967295)
    Fits (bytes_pod b) = length b < 4294967296
    Fits (bitmap_pod b) = length b < 4294967296
    Fits (rectangle_pod w h) = (w < 4294967296) × (h < 4294967296)
    Fits (fraction_pod n d) = (n < 4294967296) × (d < 4294967296)
    Fits (pointer_pod t n) = (t < 4294967296) × (n < 18446744073709551616)
    Fits (ints_pod ns) = All IsInt ns × (8 + 4 * length ns < 4294967296)
    Fits (floats_pod xs) = All IsFloat xs × (8 + 4 * length xs < 4294967296)
    Fits (struct_pod ts) = AllFit ts × (sizes ts < 4294967296)
    Fits (embedded_pod t) = (is_bytes t ≡ false) × Fits t × (align (8 + size t) < 4294967296)

    pub AllFit : Forest → Type 0
    AllFit no_pods = Unit
    AllFit (pods t ts) = Fits t × AllFit ts
