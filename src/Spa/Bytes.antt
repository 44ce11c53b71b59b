-- ===== src/Spa/Bytes.antt =====
-- Python's `struct` and slices, as src/wyreplumber/spa_pod.py uses them: little-endian integers, read
-- from the front of the bytes and written in two's complement. Reading past the end, and writing a
-- number that does not fit, raise `struct.error`.
use Prim.Native.Nat.{◌/◌, ◌%◌, ◌*◌}
use wyreplumber.Prelude.{
  ℕ, zero, suc, ◌+◌, ◌-◌, ◌<◌, ◌≤◌, ℤ, pos, negsuc, true, false, List, [], ◌∷◌, ◌++◌, All, Result,
  ok, err, struct_error, ◌>>=◌, ◌>>◌, require, ltb, length, if◌then◌else◌, if_true, if_false, ◌≡◌,
  refl, ap, ◌∙◌, arith, >>=-eq-ok, >>=-ok, ok_eq,
}
use wyreplumber.Spa.Wire.{u32_bytes, u32, u32_lem, pack_u32}

-- `data[:n]` and `data[n:]`
unfoldable pub take : ℕ → List ℕ → List ℕ
take zero xs = []
take (suc n) [] = []
take (suc n) (x ∷ xs) = x ∷ take n xs

unfoldable pub drop : ℕ → List ℕ → List ℕ
drop zero xs = xs
drop (suc n) [] = []
drop (suc n) (x ∷ xs) = drop n xs

-- `struct.unpack_from("<I", data)`, with the bytes after it.
unfoldable pub read_u32 : List ℕ → Result (ℕ × List ℕ)
read_u32 (a ∷ b ∷ c ∷ d ∷ rest) = ok (u32 a b c d, rest)
read_u32 _ = err struct_error

-- A number of `w` bits, where `half` is 2 ^ (w - 1), as a signed one.
unfoldable pub signed : (half : ℕ) → ℕ → ℤ
signed half n = if ltb n half then pos n else negsuc (2 * half - 1 - n)

-- A signed number as one of `w` bits.
unfoldable pub unsigned : (half : ℕ) → ℤ → Result ℕ
unsigned half (pos n) = do require (ltb n half) struct_error; ok n
unsigned half (negsuc n) = do require (ltb n half) struct_error; ok (2 * half - 1 - n)

-- `"<i"`, `"<Q"` and `"<q"`
unfoldable pub read_i32 : List ℕ → Result ℤ
unfolding read_u32
read_i32 bytes = do (n, rest) ← read_u32 bytes; ok (signed 2147483648 n)

unfoldable pub read_u64 : List ℕ → Result ℕ
unfolding read_u32
read_u64 bytes = do
  (low, rest) ← read_u32 bytes
  (high, end) ← read_u32 rest
  ok (low + 4294967296 * high)

unfoldable pub read_i64 : List ℕ → Result ℤ
unfolding read_u64
read_i64 bytes = do n ← read_u64 bytes; ok (signed 9223372036854775808 n)

unfoldable pub u64_bytes : ℕ → List ℕ
unfolding u32_bytes
u64_bytes n = u32_bytes n ++ u32_bytes (n / 4294967296)

-- `struct.pack` of "<I", "<i", "<Q" and "<q"
unfoldable pub pack_uint : ℤ → Result (List ℕ)
pack_uint (pos n) = pack_u32 n
pack_uint (negsuc n) = err struct_error

unfoldable pub pack_i32 : ℤ → Result (List ℕ)
unfolding unsigned
pack_i32 n = do m ← unsigned 2147483648 n; ok (u32_bytes m)

unfoldable pub pack_u64 : ℤ → Result (List ℕ)
unfolding u64_bytes
pack_u64 (pos n) = do require (ltb n 18446744073709551616) struct_error; ok (u64_bytes n)
pack_u64 (negsuc n) = err struct_error

unfoldable pub pack_i64 : ℤ → Result (List ℕ)
unfolding unsigned
pack_i64 n = do m ← unsigned 9223372036854775808 n; ok (u64_bytes m)

-- `data.split(b"\x00", 1)[0]`
unfoldable pub until_nul : List ℕ → List ℕ
until_nul [] = []
until_nul (zero ∷ xs) = []
until_nul (suc b ∷ xs) = suc b ∷ until_nul xs

abbrev pub IsText : List ℕ → Type 0
IsText = All (λ b. 0 < b)

pub length-drop : (n : ℕ) (xs : List ℕ) → length (drop n xs) ≡ length xs - n
unfolding drop
length-drop zero xs = omega arith
length-drop (suc n) [] = omega arith
length-drop (suc n) (x ∷ xs) = omega (arith, length-drop n xs)

pub length-take : (n : ℕ) (xs : List ℕ) → length (take n xs) ≤ n
unfolding take
length-take zero xs = omega arith
length-take (suc n) [] = omega arith
length-take (suc n) (x ∷ xs) = omega (arith, length-take n xs)

pub take-append : (xs ys : List ℕ) → take (length xs) (xs ++ ys) ≡ xs
unfolding take
take-append [] ys = refl
take-append (x ∷ xs) ys = ap (λ zs. x ∷ zs) (take-append xs ys)

pub drop-append : (xs ys : List ℕ) → drop (length xs) (xs ++ ys) ≡ ys
unfolding drop
drop-append [] ys = refl
drop-append (x ∷ xs) ys = drop-append xs ys

pub until_nul-append : (xs ys : List ℕ) → IsText xs → until_nul (xs ++ 0 ∷ ys) ≡ xs
unfolding until_nul
until_nul-append [] ys h = refl
until_nul-append (zero ∷ xs) ys h = ground (arith, h)
until_nul-append (suc b ∷ xs) ys h = ap (λ zs. suc b ∷ zs) (until_nul-append xs ys h.1)

pub read_u32-u32_bytes :
    (n : ℕ) (rest : List ℕ) → n < 4294967296 → read_u32 (u32_bytes n ++ rest) ≡ ok (n, rest)
unfolding read_u32 u32_bytes
read_u32-u32_bytes n rest h = λ i. ok (u32_lem n h i, rest)

unsigned-pos : (half n m : ℕ) → unsigned half (pos n) ≡ ok m → (n < half) × (m ≡ n)
unfolding unsigned
unsigned-pos half n m h = (ground (arith, h), ground (arith, h))

unsigned-negsuc :
    (half n m : ℕ) → unsigned half (negsuc n) ≡ ok m → (n < half) × (m ≡ 2 * half - 1 - n)
unfolding unsigned
unsigned-negsuc half n m h = (ground (arith, h), ground (arith, h))

-- A signed number that fits is the one that its bits read back as.
pub signed-unsigned :
    (half : ℕ) (n : ℤ) (m : ℕ) → unsigned half n ≡ ok m → (m < 2 * half) × (signed half m ≡ n)
unfolding signed
signed-unsigned half (pos n) m h =
    let (small, same) = unsigned-pos half n m h in
    let test : ltb m half ≡ true = ground (arith, small, same) in
    (omega (arith, small, same), if_true _ _ _ test ∙ ap (λ k. pos k) same)
signed-unsigned half (negsuc n) m h =
    let (small, same) = unsigned-negsuc half n m h in
    let test : ltb m half ≡ false = ground (arith, small, same) in
    let back : 2 * half - 1 - m ≡ n = omega (arith, small, same) in
    (omega (arith, small, same), if_false _ _ _ test ∙ ap (λ k. negsuc k) back)

pub read_i32-pack_i32 :
    (n : ℤ) (raw rest : List ℕ) → pack_i32 n ≡ ok raw → read_i32 (raw ++ rest) ≡ ok n
unfolding read_i32 pack_i32
read_i32-pack_i32 n raw rest packed =
    let (m, fits, done) = >>=-eq-ok (unsigned 2147483648 n) _ packed in
    let (small, same) = signed-unsigned 2147483648 n m fits in
    rw (← ok_eq done) (>>=-ok _ _ (read_u32-u32_bytes m rest small) (ap (λ k. ok k) same))

u32-low :
    (n : ℕ) → u32 (n % 256) (n / 256 % 256) (n / 65536 % 256) (n / 16777216 % 256) ≡ n % 4294967296
u32-low n = omega arith

-- The two halves of a number of 64 bits.
read_u64-u64_bytes :
    (n : ℕ) (rest : List ℕ) → n < 18446744073709551616 → read_u64 (u64_bytes n ++ rest) ≡ ok n
unfolding read_u64 u64_bytes read_u32 u32_bytes
read_u64-u64_bytes n rest h =
    let high : n / 4294967296 < 4294967296 = omega (arith, h) in
    let whole : n % 4294967296 + 4294967296 * (n / 4294967296) ≡ n = omega arith in
    ap (λ k. ok k) ((λ i. u32-low n i + 4294967296 * u32_lem (n / 4294967296) high i) ∙ whole)

pub read_u64-pack_u64 :
    (n : ℕ) (raw rest : List ℕ) → pack_u64 (pos n) ≡ ok raw → read_u64 (raw ++ rest) ≡ ok n
unfolding pack_u64
read_u64-pack_u64 n raw rest packed =
    let (done, fits, same) =
      >>=-eq-ok (require (ltb n 18446744073709551616) struct_error) _ packed in
    rw (← ok_eq same) (read_u64-u64_bytes n rest (ground (arith, fits)))

pub read_i64-pack_i64 :
    (n : ℤ) (raw rest : List ℕ) → pack_i64 n ≡ ok raw → read_i64 (raw ++ rest) ≡ ok n
unfolding read_i64 pack_i64
read_i64-pack_i64 n raw rest packed =
    let (m, fits, done) = >>=-eq-ok (unsigned 9223372036854775808 n) _ packed in
    let (small, same) = signed-unsigned 9223372036854775808 n m fits in
    rw (← ok_eq done) (>>=-ok _ _ (read_u64-u64_bytes m rest small) (ap (λ k. ok k) same))
