-- ===== src/Spa/Access.antt =====
-- The access styles of a `SpaPodObject` (src/wyreplumber/_spa_pod_types.py, and the head of
-- src/wyreplumber/spa_pod.py): by name and by number.
use wyreplumber.Prelude.{
  ℕ, ℤ, pos, String, Bool-cases, Option, none, some, inl, inr, ok, err, >>=-eq-ok, ok_eq, ◌≡◌, refl,
  sym, ap, ◌∙◌, key_error,
}
use wyreplumber.Value.{Key, text, number}
use wyreplumber.Spa.Datum.{Datum, int, Entries, end, entry, lookup_or, holds, put, remove}
use wyreplumber.Spa.Specs.{PropertySpec}
use wyreplumber.Spa.Tables.{specs_of}
use wyreplumber.Spa.Codec.{Codec, to_int}
use wyreplumber.Spa.Objects.{
  SpaPodObject, storage_key, noted, flagged, flag_key, spec_of, key_to_storage,
  resolve_existing_key, get_item, set_item, set_items, del_item, new_object,
}
use wyreplumber.Spa.Entries.{holds-remove}
use wyreplumber.Spa.Names.{IsNamed, AreNamed-put, found, found-text, found-number, found-put}

noted_lem :
    (o : SpaPodObject) (k : Key) (spec : Option PropertySpec)
    → ((noted o k spec).properties ≡ o.properties) × ((noted o k spec).of ≡ o.of)
noted_lem o k none = (refl, refl)
noted_lem o k (some s) = (refl, refl)

-- What an object stores under a key.
abbrev after_put : SpaPodObject → Key → Datum → Entries
after_put o k v = put (storage_key k (spec_of (specs_of o.of) k)) v o.properties

del_item_lem :
    (o p : SpaPodObject) (k : Key)
    → del_item o k ≡ ok p
    → (p.properties ≡ remove (resolve_existing_key o k) o.properties) × (p.of ≡ o.of)
unfolding del_item
del_item_lem o p k h = elim (Bool-cases (holds (resolve_existing_key o k) o.properties)) [
  | inl t ↦
      let same = ok_eq (rw t at h) in (ap (λ r. r.properties) (sym same), ap (λ r. r.of) (sym same))
  | inr f ↦ let gone : err key_error ≡ ok p = rw f at h in cc
]

module _ (py : Codec) where
  flagged_lem :
      (o p : SpaPodObject) (storage key : Key)
      → flagged py storage key o ≡ ok p
      → (p.properties ≡ o.properties) × (p.of ≡ o.of)
  flagged_lem o p storage key h = elim (Bool-cases (holds storage o.property_flags)) [
    | inl t ↦
        let same = ok_eq (rw t at h) in
        (ap (λ r. r.properties) (sym same), ap (λ r. r.of) (sym same))
    | inr f ↦
        let (flag, read, done) =
          >>=-eq-ok
            (to_int py (lookup_or (flag_key py o storage key) (int (pos 0)) o.property_flags)) _
            (rw f at h) in
        let same = ok_eq done in (ap (λ r. r.properties) (sym same), ap (λ r. r.of) (sym same))
  ]

  set_item_lem :
      (o p : SpaPodObject) (k : Key) (v : Datum)
      → set_item py o k v ≡ ok p
      → (p.properties ≡ after_put o k v) × (p.of ≡ o.of)
  unfolding set_item key_to_storage
  set_item_lem o p k v h =
      let spec = spec_of (specs_of o.of) k in
      let keyed = noted o k spec in
      let (same, of_same) = noted_lem o k spec in
      let (kept, of_kept) =
        flagged_lem (record keyed { properties = put (storage_key k spec) v keyed.properties }) p
          (storage_key k spec) k h in
      (kept ∙ ap (put (storage_key k spec) v) same, of_kept ∙ of_same)

  -- The objects that there are: those that `__init__` makes, and what `__setitem__` and `__delitem__`
  -- make of them.
  pub data Reached : SpaPodObject → Type 0 where
    made :
        {o : SpaPodObject} (of : ℕ) (properties flags keys : Entries)
        (object_type object_id : Option ℤ) (name : Option String)
        → new_object py of properties flags keys object_type object_id name ≡ ok o
        → Reached o
    set :
        {o p : SpaPodObject} (k : Key) (v : Datum)
        → Reached o
        → set_item py o k v ≡ ok p
        → Reached p
    deleted : {o p : SpaPodObject} (k : Key) → Reached o → del_item o k ≡ ok p → Reached p

  IsNamed-set_item :
      (o p : SpaPodObject) (k : Key) (v : Datum) → set_item py o k v ≡ ok p → IsNamed o → IsNamed p
  IsNamed-set_item o p k v h named =
      let (same, of_same) = set_item_lem o p k v h in
      rw (of_same, same) (AreNamed-put (specs_of o.of) k v o.properties named)

  IsNamed-set_items :
      (es : Entries) (o p : SpaPodObject) → set_items py o es ≡ ok p → IsNamed o → IsNamed p
  unfolding set_items
  IsNamed-set_items end o p h named = rw (← ok_eq h) named
  IsNamed-set_items (entry k v es) o p h named =
      let (between, first, rest) = >>=-eq-ok (set_item py o k v) _ h in
      IsNamed-set_items es between p rest (IsNamed-set_item o between k v first named)

  -- In every object that `__init__`, `__setitem__` and `__delitem__` make, no property that has a name
  -- is stored by its number.
  pub Reached-IsNamed : (o : SpaPodObject) → Reached o → IsNamed o
  unfolding new_object del_item
  Reached-IsNamed o (made of properties flags keys object_type object_id name h) =
      IsNamed-set_items properties _ o h (λ n t. cc)
  Reached-IsNamed p (set {o} k v r h) = IsNamed-set_item o p k v h (Reached-IsNamed o r)
  Reached-IsNamed p (deleted {o} k r h) =
      let (same, of_same) = del_item_lem o p k h in
      rw (of_same, same)
        (λ n t.
          Reached-IsNamed o r n (holds-remove (resolve_existing_key o k) (number n) o.properties t))

  -- In such an object, the number and the name of a property read the same: `props[number]` is
  -- `props[name]`.
  pub get_item-number :
      (o : SpaPodObject) (n : ℤ) (s : PropertySpec)
      → Reached o
      → spec_of (specs_of o.of) (number n) ≡ some s
      → get_item o (number n) ≡ get_item o (text s.name)
  unfolding get_item resolve_existing_key found
  get_item-number o n s r e =
      found-number (specs_of o.of) n s o.properties (Reached-IsNamed o r) e
      ∙ sym (found-text (specs_of o.of) s.name o.properties)

  -- What is set under a key, a name or a number, is read under that key.
  pub get_item-set_item :
      (o p : SpaPodObject) (k : Key) (v : Datum)
      → Reached o
      → set_item py o k v ≡ ok p
      → get_item p k ≡ some v
  unfolding get_item resolve_existing_key found
  get_item-set_item o p k v r h =
      let (same, of_same) = set_item_lem o p k v h in
      rw (of_same, same) (found-put (specs_of o.of) k v o.properties (Reached-IsNamed o r))
