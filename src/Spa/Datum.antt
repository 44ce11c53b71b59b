-- ===== src/Spa/Datum.antt =====
-- The Python values that src/wyreplumber/spa_pod.py takes apart and puts together, and what it asks of
-- them with `isinstance`. `member` is a member of the named IntEnum, `list` a list or a tuple, `dict`
-- any mapping but a SpaPodObject, and `object` a SpaPodObject: the SPA_OBJECT_ID of its class, its
-- type, id and name, then its properties, their flags and their keys. A float is its 64-bit IEEE 754
-- pattern, a byte a number below 256, and the keys of a mapping are texts or integers.
use wyreplumber.Prelude.{
  ℕ, ℤ, pos, String, Bool, true, false, not, ◌||◌, ◌==◌, Option, none, some, List, suc, int_eq,
  str_eq, if◌then◌else◌, length,
}
use wyreplumber.Value.{Key, text, number}

mutual
  pub data Datum : Type 0 where
    null : Datum
    bool : Bool → Datum
    int : ℤ → Datum
    member : String → ℤ → Datum
    float : ℕ → Datum
    str : String → Datum
    bytes : List ℕ → Datum
    list : Items → Datum
    dict : Entries → Datum
    object :
        (of : ℕ)
        → (object_type object_id : ℤ) → (name : Option String) → (properties flags keys : Entries)
        → Datum

  pub data Items : Type 0 where
    nil : Items
    cons : Datum → Items → Items

  pub data Entries : Type 0 where
    end : Entries
    entry : Key → Datum → Entries → Entries

abbrev pub key_eq : Key → Key → Bool
key_eq (text a) (text b) = str_eq a b
key_eq (number a) (number b) = int_eq a b
key_eq (text a) (number b) = false
key_eq (number a) (text b) = false

-- `mapping.get(key)`
abbrev pub lookup : Key → Entries → Option Datum
lookup k end = none
lookup k (entry j v es) = if key_eq j k then some v else lookup k es

-- `key in mapping`
abbrev pub holds : Key → Entries → Bool
holds k es = elim (lookup k es) [ none ↦ false | some v ↦ true ]

-- `mapping[key] = value`: a key that is there keeps its place.
abbrev pub put : Key → Datum → Entries → Entries
put k v end = entry k v end
put k v (entry j w es) = if key_eq j k then entry j v es else entry j w (put k v es)

-- `mapping.setdefault(key, value)`
abbrev pub put_default : Key → Datum → Entries → Entries
put_default k v es = if holds k es then es else put k v es

-- `mapping.pop(key, None)`
abbrev pub remove : Key → Entries → Entries
remove k end = end
remove k (entry j v es) = if key_eq j k then es else entry j v (remove k es)

-- `merged.update(entries)`
abbrev pub update : Entries → Entries → Entries
update into end = into
update into (entry k v es) = update (put k v into) es

-- `mapping.get(key, default)`
abbrev pub lookup_or : Key → Datum → Entries → Datum
lookup_or k default es = elim (lookup k es) [ none ↦ default | some v ↦ v ]

abbrev pub count : Items → ℕ
count nil = 0
count (cons v vs) = suc (count vs)

abbrev pub count_entries : Entries → ℕ
count_entries end = 0
count_entries (entry k v es) = suc (count_entries es)

-- `isinstance(value, Mapping)`. A text is a key of a SpaPodObject when it is one of its properties.
abbrev pub as_mapping : Datum → Option Entries
as_mapping (dict es) = some es
as_mapping (object of t i name properties flags keys) = some properties
as_mapping _ = none

-- `isinstance(value, int)`
abbrev pub int_of : Datum → Option ℤ
int_of (bool b) = some (if b then pos 1 else pos 0)
int_of (int n) = some n
int_of (member e n) = some n
int_of _ = none

-- `isinstance(value, str)`
abbrev pub text_of : Datum → Option String
text_of (str s) = some s
text_of _ = none

-- `bool(value)`; the patterns 0 and 2 ^ 63 are the zeros.
abbrev pub truth : Datum → Bool
truth null = false
truth (bool b) = b
truth (int n) = not (int_eq n (pos 0))
truth (member e n) = not (int_eq n (pos 0))
truth (float x) = not (x == 0 || x == 9223372036854775808)
truth (str s) = not (str_eq s "")
truth (bytes b) = not (length b == 0)
truth (list vs) = not (count vs == 0)
truth (dict es) = not (count_entries es == 0)
truth (object of t i name properties flags keys) = not (count_entries properties == 0)

-- `isinstance(value, Mapping) and value.get("_pod_type") == kind`: the entries.
abbrev pub marked : (kind : ℕ) → Datum → Option Entries
marked kind v = elim (as_mapping v) [
  | none ↦ none
  | some es ↦ elim (int_of (lookup_or (text "_pod_type") null es)) [
    | none ↦ none
    | some n ↦ if int_eq n (pos kind) then some es else none
  ]
]

-- `_explicit_pod_type`
unfoldable pub explicit_pod_type : Datum → Option ℤ
explicit_pod_type v = elim (as_mapping v) [
  | none ↦ none
  | some es ↦ elim (int_of (lookup_or (text "_pod_type") null es)) [
    | some n ↦ some n
    | none ↦ int_of (lookup_or (text "pod_type") null es)
  ]
]
