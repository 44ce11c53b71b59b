-- ===== src/Spa/Dictionaries.antt =====
-- Dictionaries as structs and back (src/wyreplumber/spa_pod.py): the `dict_info` and `params` shapes.
use Prim.Native.Nat.{◌*◌}
use wyreplumber.Prelude.{
  ℕ, ==_iff, pos, String, List, [], ◌∷◌, Option, none, some, ok, length, if_true, if◌then◌else◌,
  int_eq, Bool-cases, inl, inr, ◌≡◌, refl, sym, ap, ◌∙◌, arith,
}
use wyreplumber.Value.{text}
use wyreplumber.Spa.Datum.{
  Datum, null, int, int_of, marked, str, dict, Items, cons, Entries, end, entry, key_eq, lookup,
  put, count_entries,
}
use wyreplumber.Spa.Codec.{Codec}
use wyreplumber.Spa.Structs.{
  texts, text_pairs, or_as_it_is, pairs, is_twice, struct_to_dict_info, struct_to_params,
}
use wyreplumber.Spa.Prepare.{
  struct_of, text_items, named_items, dict_info_to_struct, params_to_struct,
}
use wyreplumber.Spa.Entries.{lookup-head, lookup-tail, put-tail}

-- A dictionary with texts for keys.
unfoldable pub entries_of : List (String × Datum) → Entries
entries_of [] = end
entries_of ((k, v) ∷ info) = entry (text k) v (entries_of info)

-- A dictionary of texts to texts.
unfoldable pub as_data : List (String × String) → List (String × Datum)
as_data [] = []
as_data ((k, v) ∷ info) = (k, str v) ∷ as_data info

abbrev add_last : Entries → String → Datum → Entries
add_last end k v = entry (text k) v end
add_last (entry j w es) k v = entry j w (add_last es k v)

abbrev both : Entries → Entries → Entries
both end fs = fs
both (entry k v es) fs = entry k v (both es fs)

-- No key occurs twice, and none is in `before`.
unfoldable pub Fresh : (before : Entries) → List (String × Datum) → Type 0
Fresh before [] = Unit
Fresh before ((k, v) ∷ info) = (lookup (text k) before ≡ none) × Fresh (add_last before k v) info

put-fresh :
    (es : Entries) (k : String) (v : Datum)
    → lookup (text k) es ≡ none
    → put (text k) v es ≡ add_last es k v
put-fresh end k v h = refl
put-fresh (entry j w es) k v h = elim (Bool-cases (key_eq j (text k))) [
  | inl t ↦ let found : some w ≡ none = sym (lookup-head (text k) j w es t) ∙ h in cc
  | inr f ↦
      put-tail (text k) j v w es f
      ∙ ap (entry j w) (put-fresh es k v (sym (lookup-tail (text k) j w es f) ∙ h))
]

both-add_last :
    (es fs : Entries) (k : String) (v : Datum)
    → both (add_last es k v) fs ≡ both es (entry (text k) v fs)
both-add_last end fs k v = refl
both-add_last (entry j w es) fs k v = ap (entry j w) (both-add_last es fs k v)

both-end : (es : Entries) → both es end ≡ es
both-end end = refl
both-end (entry k v es) = ap (entry k v) (both-end es)

marked-none :
    (kind : ℕ) (es : Entries) → lookup (text "_pod_type") es ≡ none → marked kind (dict es) ≡ none
marked-none kind es unmarked =
    ap {A = Option Datum}
      (λ o. elim (int_of (elim o [ none ↦ null | some v ↦ v ])) [
        | none ↦ none
        | some n ↦ if int_eq n (pos kind) then some es else none
      ])
      unmarked

module _ (py : Codec) where
  pairs-named_items :
      (before : Entries) (info : List (String × Datum))
      → Fresh before info
      → pairs before (named_items py (entries_of info)) ≡ some (both before (entries_of info))
  unfolding Fresh entries_of
  pairs-named_items before [] h = ap (λ es. some es) (sym (both-end before))
  pairs-named_items before ((k, v) ∷ info) h =
      ap (λ es. pairs es (named_items py (entries_of info))) (put-fresh before k v h.0)
      ∙ pairs-named_items (add_last before k v) info h.1
      ∙ ap (λ es. some es) (both-add_last before (entries_of info) k v)

  -- A mapping that is not marked as a pod becomes a struct.
  params_to_struct_lem :
      (es : Entries)
      → lookup (text "_pod_type") es ≡ none
      → params_to_struct py (dict es) ≡ struct_of (named_items py es)
  unfolding params_to_struct
  params_to_struct_lem es unmarked =
      ap {A = Option Entries}
        (λ m. elim m [ some fs ↦ dict es | none ↦ struct_of (named_items py es) ])
        (marked-none 14 es unmarked)

  struct_to_params_lem :
      (items : Items) (es : Entries)
      → pairs end items ≡ some es
      → struct_to_params py (struct_of items) ≡ ok (dict es)
  unfolding struct_to_params
  struct_to_params_lem items es paired =
      ap {A = Option Entries}
        (λ o.
          ok (or_as_it_is (struct_of items) (elim o [ none ↦ none | some fs ↦ some (dict fs) ])))
        paired

  -- A dictionary of texts to values, which is not marked as a pod, comes back from the struct that
  -- `_params_to_struct` makes of it.
  pub struct_to_params-params_to_struct :
      (info : List (String × Datum))
      → Fresh end info
      → lookup (text "_pod_type") (entries_of info) ≡ none
      → struct_to_params py (params_to_struct py (dict (entries_of info)))
        ≡ ok (dict (entries_of info))
  struct_to_params-params_to_struct info fresh unmarked =
      ap (struct_to_params py) (params_to_struct_lem (entries_of info) unmarked)
      ∙ struct_to_params_lem _ _ (pairs-named_items end info fresh)

  abbrev prepend : String → Option (List String) → Option (List String)
  prepend s words = elim words [ none ↦ none | some rest ↦ some (s ∷ rest) ]

  -- The texts of a dictionary of texts.
  abbrev flat : List (String × String) → List String
  flat [] = []
  flat ((k, v) ∷ info) = k ∷ v ∷ flat info

  texts-text_items :
      (info : List (String × String))
      → texts (text_items py (entries_of (as_data info))) ≡ some (flat info)
  unfolding entries_of as_data
  texts-text_items [] = refl
  texts-text_items ((k, v) ∷ info) =
      ap (λ words. prepend k (prepend v words)) (texts-text_items info)

  text_pairs-flat :
      (before : Entries) (info : List (String × String))
      → Fresh before (as_data info)
      → text_pairs before (flat info) ≡ both before (entries_of (as_data info))
  unfolding Fresh entries_of as_data
  text_pairs-flat before [] h = sym (both-end before)
  text_pairs-flat before ((k, v) ∷ info) h =
      ap (λ es. text_pairs es (flat info)) (put-fresh before k (str v) h.0)
      ∙ text_pairs-flat (add_last before k (str v)) info h.1
      ∙ both-add_last before (entries_of (as_data info)) k (str v)

  length-flat :
      (info : List (String × String))
      → length (flat info) ≡ count_entries (entries_of (as_data info)) * 2
  unfolding entries_of as_data
  length-flat [] = refl
  length-flat ((k, v) ∷ info) = omega (arith, length-flat info)

  dict_info_to_struct_lem :
      (es : Entries)
      → lookup (text "_pod_type") es ≡ none
      → dict_info_to_struct py (dict es)
        ≡ struct_of (cons (int (pos (count_entries es))) (text_items py es))
  unfolding dict_info_to_struct
  dict_info_to_struct_lem es unmarked =
      let items = cons (int (pos (count_entries es))) (text_items py es) in
      ap {A = Option Entries} (λ m. elim m [ some fs ↦ dict es | none ↦ struct_of items ])
        (marked-none 14 es unmarked)

  struct_to_dict_info_lem :
      (n : ℕ) (items : Items) (words : List String)
      → texts items ≡ some words
      → length words ≡ n * 2
      → struct_to_dict_info py (struct_of (cons (int (pos n)) items))
        ≡ ok (dict (text_pairs end words))
  unfolding struct_to_dict_info
  struct_to_dict_info_lem n items words listed twice =
      let whole = struct_of (cons (int (pos n)) items) in
      ap {A = Option (List String)}
        (λ o. ok (
          or_as_it_is whole (elim o [
            | none ↦ none
            | some ws ↦
                if is_twice (length ws) (pos n) then some (dict (text_pairs end ws)) else none
          ])))
        listed
      ∙ ap (λ o. ok (or_as_it_is whole o))
          (if_true (is_twice (length words) (pos n)) _ _ ((==_iff (length words) (n * 2)).1 twice))

  -- A dictionary of texts to texts, which is not marked as a pod, comes back from the struct that
  -- `_dict_info_to_struct` makes of it.
  pub struct_to_dict_info-dict_info_to_struct :
      (info : List (String × String))
      → Fresh end (as_data info)
      → lookup (text "_pod_type") (entries_of (as_data info)) ≡ none
      → struct_to_dict_info py (dict_info_to_struct py (dict (entries_of (as_data info))))
        ≡ ok (dict (entries_of (as_data info)))
  struct_to_dict_info-dict_info_to_struct info fresh unmarked =
      ap (struct_to_dict_info py) (dict_info_to_struct_lem (entries_of (as_data info)) unmarked)
      ∙ struct_to_dict_info_lem _ _ (flat info) (texts-text_items info) (length-flat info)
      ∙ ap (λ es. ok (dict es)) (text_pairs-flat end info fresh)
