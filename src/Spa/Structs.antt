-- ===== src/Spa/Structs.antt =====
-- Structs and arrays as the shapes that callers read (src/wyreplumber/spa_pod.py): dictionaries, labels
-- and profile classes. What is not of the expected shape is left as it is. Every sequence is a `list`.
use Prim.Native.Nat.{◌*◌}
use wyreplumber.Prelude.{
  ℕ, ℤ, pos, negsuc, String, Bool, false, ◌==◌, Option, none, some, List, [], ◌∷◌, Result, ok,
  ◌>>=◌, if◌then◌else◌, length,
}
use wyreplumber.Value.{text}
use wyreplumber.Spa.Datum.{
  Datum, int, member, float, str, list, dict, Items, nil, cons, Entries, end, entry, lookup_or, put,
  count, int_of, text_of, marked,
}
use wyreplumber.Spa.Kinds.{kind_number, array_kind, struct_kind}
use wyreplumber.Spa.Codec.{Codec, to_int, to_double, elements}

abbrev pub convert_all : (Datum → Result Datum) → Items → Result Items
convert_all convert nil = ok nil
convert_all convert (cons v vs) = do w ← convert v; ws ← convert_all convert vs; ok (cons w ws)

-- A dictionary of alternating names and values; a later name replaces an earlier one.
abbrev pub texts : Items → Option (List String)
texts nil = some []
texts (cons v vs) = elim (text_of v) [
  | none ↦ none
  | some s ↦ elim (texts vs) [ none ↦ none | some rest ↦ some (s ∷ rest) ]
]

abbrev pub text_pairs : Entries → List String → Entries
text_pairs into (k ∷ v ∷ rest) = text_pairs (put (text k) (str v) into) rest
text_pairs into _ = into

abbrev pub pairs : Entries → Items → Option Entries
pairs into nil = some into
pairs into (cons k nil) = none
pairs into (cons k (cons v rest)) = elim (text_of k) [
  | none ↦ none
  | some word ↦ pairs (put (text word) v into) rest
]

abbrev pub label : Datum → Datum → Datum
label value word = dict (entry (text "value") value (entry (text "label") word end))

abbrev pub labelled : Items → Option Items
labelled nil = some nil
labelled (cons value nil) = none
labelled (cons value (cons word rest)) = elim (text_of word) [
  | none ↦ none
  | some w ↦ elim (labelled rest) [ none ↦ none | some vs ↦ some (cons (label value word) vs) ]
]

abbrev pub or_as_it_is : Datum → Option Datum → Datum
or_as_it_is v none = v
or_as_it_is v (some w) = w

-- `len(values) == count * 2` and `len(nested) == count`
abbrev pub is_twice : ℕ → ℤ → Bool
is_twice n (pos k) = n == k * 2
is_twice n (negsuc k) = false

abbrev pub is_count : ℕ → ℤ → Bool
is_count n (pos k) = n == k
is_count n (negsuc k) = false

abbrev pub dict_info_of : Items → Option Datum
dict_info_of nil = none
dict_info_of (cons first values) = elim (int_of first) [
  | none ↦ none
  | some n ↦ elim (texts values) [
    | none ↦ none
    | some words ↦ if is_twice (length words) n then some (dict (text_pairs end words)) else none
  ]
]

abbrev pub params_of : Items → Option Datum
params_of vs = elim (pairs end vs) [ none ↦ none | some es ↦ some (dict es) ]

abbrev pub labels_of : Items → Option Datum
labels_of vs = elim (labelled vs) [ none ↦ none | some ls ↦ some (list ls) ]

-- The class entries of a struct that may begin with their number.
abbrev pub counted : Items → Option Items
counted nil = none
counted (cons (int n) rest) = if is_count (count rest) n then some rest else none
counted (cons (member e n) rest) = if is_count (count rest) n then some rest else none
counted (cons v rest) = some (cons v rest)

module _ (py : Codec) where
  -- A struct's `list(value.get("values", []))`, rearranged.
  abbrev pub of_struct : (Items → Option Datum) → Datum → Result Datum
  of_struct rearrange v = elim (marked (kind_number struct_kind) v) [
    | none ↦ ok v
    | some es ↦ (do
      items ← elements py (lookup_or (text "values") (list nil) es)
      ok (or_as_it_is v (rearrange items)))
  ]

  -- `_struct_to_dict_info`, `_struct_to_params` and `_struct_to_labels`
  unfoldable pub struct_to_dict_info : Datum → Result Datum
  struct_to_dict_info = of_struct dict_info_of

  unfoldable pub struct_to_params : Datum → Result Datum
  struct_to_params = of_struct params_of

  unfoldable pub struct_to_labels : Datum → Result Datum
  struct_to_labels = of_struct labels_of

  abbrev pub as_integer : Datum → Result Datum
  as_integer v = do n ← to_int py v; ok (int n)

  abbrev pub as_double : Datum → Result Datum
  as_double v = do x ← to_double py v; ok (float x)

  -- `_array_to_values`
  unfoldable pub array_to_values : Datum → (Datum → Result Datum) → Result Datum
  array_to_values v convert = elim (marked (kind_number array_kind) v) [
    | none ↦ ok v
    | some es ↦ (do
      items ← elements py (lookup_or (text "values") (list nil) es)
      converted ← convert_all convert items
      ok (list converted))
  ]

  abbrev pub class_entry : (name n property devices : Datum) → Datum
  class_entry name n property devices = dict (
      entry (text "class") name (
        entry (text "count") n
          (entry (text "property") property (entry (text "devices") devices end))))

  -- One entry of `_struct_to_profile_classes`; `none` is its `return value`.
  abbrev pub class_of_values : Items → Result (Option Datum)
  unfolding array_to_values
  class_of_values (cons name (cons n (cons property (cons devices nil)))) = elim (text_of name) [
    | none ↦ ok none
    | some s ↦ elim (int_of n) [
      | none ↦ ok none
      | some k ↦ elim (text_of property) [
        | none ↦ ok none
        | some t ↦ (do
          indexes ← array_to_values devices as_integer
          elim indexes [
            | list ds ↦ ok (some (class_entry name n property (list ds)))
            | _ ↦ ok none
          ])
      ]
    ]
  ]
  class_of_values _ = ok none

  abbrev pub class_of_struct : Datum → Result (Option Datum)
  class_of_struct v = elim (marked (kind_number struct_kind) v) [
    | none ↦ ok none
    | some es ↦ (do
      items ← elements py (lookup_or (text "values") (list nil) es)
      class_of_values items)
  ]

  abbrev pub class_list : Items → Result (Option Items)
  class_list nil = ok (some nil)
  class_list (cons v vs) = do
    first ← class_of_struct v
    elim first [
      | none ↦ ok none
      | some c ↦ (do
        rest ← class_list vs
        ok (elim rest [ none ↦ none | some cs ↦ some (cons c cs) ]))
    ]

  -- `_struct_to_profile_classes`
  unfoldable pub struct_to_profile_classes : Datum → Result Datum
  struct_to_profile_classes v = elim (marked (kind_number struct_kind) v) [
    | none ↦ ok v
    | some es ↦ (do
      items ← elements py (lookup_or (text "values") (list nil) es)
      elim (counted items) [
        | none ↦ ok v
        | some nested ↦ (do
          found ← class_list nested
          ok (elim found [ none ↦ v | some cs ↦ list cs ]))
      ])
  ]
