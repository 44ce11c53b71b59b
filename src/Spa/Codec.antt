-- ===== src/Spa/Codec.antt =====
-- What the codec takes from Python: the conversions of values that are not already of the type, the
-- UTF-8 codec, and the rounding of `struct` to 32-bit floats.
use wyreplumber.Prelude.{
  ℕ, ℤ, pos, String, Option, none, some, List, [], ◌∷◌, Result, ok, err, type_error, ◌<◌, ◌≡◌,
}
use wyreplumber.Value.{Key, text, number}
use wyreplumber.Spa.Datum.{
  Datum, int, float, str, bytes, list, Items, nil, cons, Entries, end, entry, int_of, as_mapping,
}

pub record Codec : Type 0 where
  -- `int(value)` of what is not an integer, and `float(value)` of what is not a float
  pub whole : Datum → Result ℤ
  pub double : Datum → Result ℕ
  -- `str(value)` of what is not a text, and `bytes(value)` of what is not bytes
  pub shown : Datum → String
  pub bytes_of : Datum → Result (List ℕ)
  -- the texts of one character that iterating a text yields
  pub characters : String → Items
  -- `text.encode("utf-8")` and `data.decode("utf-8", errors="replace")`
  pub encode : String → List ℕ
  pub decode : List ℕ → String
  -- the bits of `struct.pack("<f", x)`, and the double of `struct.unpack("<f", bits)`; `none` is an
  -- OverflowError
  pub pack_float : ℕ → Option ℕ
  pub unpack_float : ℕ → ℕ
  -- the bits are 32
  pub pack_float-Bounded : (x bits : ℕ) → pack_float x ≡ some bits → bits < 4294967296

abbrev pub numbers : List ℕ → Items
numbers [] = nil
numbers (b ∷ bs) = cons (int (pos b)) (numbers bs)

abbrev pub key_datum : Key → Datum
key_datum (text s) = str s
key_datum (number n) = int n

abbrev pub keys_of : Entries → Items
keys_of end = nil
keys_of (entry k v es) = cons (key_datum k) (keys_of es)

module _ (py : Codec) where
  -- `int(value)`
  abbrev pub to_int : Datum → Result ℤ
  to_int v = elim (int_of v) [ some n ↦ ok n | none ↦ py.whole v ]

  -- `float(value)`
  abbrev pub to_double : Datum → Result ℕ
  to_double (float x) = ok x
  to_double v = py.double v

  -- `str(value)`
  abbrev pub to_text : Datum → String
  to_text (str s) = s
  to_text v = py.shown v

  -- `bytes(value)`
  abbrev pub to_bytes : Datum → Result (List ℕ)
  to_bytes (bytes b) = ok b
  to_bytes v = py.bytes_of v

  -- `list(value)`
  abbrev pub elements : Datum → Result Items
  elements (list vs) = ok vs
  elements (str s) = ok (py.characters s)
  elements (bytes b) = ok (numbers b)
  elements v = elim (as_mapping v) [ some es ↦ ok (keys_of es) | none ↦ err type_error ]
