-- ===== src/Controls/Reserved.antt =====
-- The properties that a managed link may be given (controls.py).
use wyreplumber.Prelude.{
  String, true, false, not, some, ok, ◌≡◌, arith, inl, inr, >>=-eq-ok, ok_eq, Bool-cases, require,
  str_eq, str_eq_iff, value_error, type_error,
}
use wyreplumber.Value.{Value, null, dict, frozen, Fields, end, field, text, number}
use wyreplumber.Value.Checks.{lookup}
use wyreplumber.Controls.Links.{is_reserved, validated_fields, validated_link_properties, is_text}

-- A key that is neither empty nor reserved, with a text.
pub record IsPlain (k : String) (v : Value) : Type 0 where
  pub not_empty : str_eq k "" ≡ false
  pub not_reserved : is_reserved k ≡ false
  pub is_string : is_text v ≡ true

-- Every property that a mapping has under a text.
abbrev pub ArePlain : Fields → Type 0
ArePlain fs = (k : String) (v : Value) → lookup k fs ≡ some v → IsPlain k v

-- One property checked, and those after it.
plain-field :
    (k : String) (v : Value) (fs : Fields)
    → IsPlain k v
    → ArePlain fs
    → ArePlain (field (text k) v fs)
unfolding lookup
plain-field k v fs plain rest j u found = elim (Bool-cases (str_eq k j)) [
  | inl same ↦
      let key : k ≡ j = (str_eq_iff k j).0 same in
      let value : v ≡ u = ground (arith, same, found) in rw (← key, ← value) plain
  | inr other ↦ rest j u (ground (arith, other, found))
]

no-fields : ArePlain end
unfolding lookup
no-fields k v found = absurd (ground (arith, found))

validated_fields-ArePlain : (given fs : Fields) → validated_fields given ≡ ok fs → ArePlain fs
unfolding validated_fields
validated_fields-ArePlain end fs h = rw (← ok_eq h) no-fields
validated_fields-ArePlain (field (number n) v rest) fs h = absurd (ground (arith, h))
validated_fields-ArePlain (field (text k) v rest) fs h =
    let (_, a, after_a) = >>=-eq-ok (require (not (str_eq k "")) value_error) _ h in
    let (_, b, after_b) = >>=-eq-ok (require (not (is_reserved k)) value_error) _ after_a in
    let (_, c, after_c) = >>=-eq-ok (require (is_text v) type_error) _ after_b in
    let (checked, again, done) = >>=-eq-ok (validated_fields rest) _ after_c in
    let plain : IsPlain k v = record {
      not_empty = ground (arith, a);
      not_reserved = ground (arith, b);
      is_string = ground (arith, c);
    } in
    rw (← ok_eq done) (plain-field k v checked plain (validated_fields-ArePlain rest checked again))

-- The properties that a managed link is created with are texts under keys that are not empty and not
-- reserved: not the endpoints, the linger flag or the managed identity.
pub validated_link_properties-ArePlain :
    (given : Value) (fs : Fields) → validated_link_properties given ≡ ok fs → ArePlain fs
unfolding validated_link_properties
validated_link_properties-ArePlain null fs h = rw (← ok_eq h) no-fields
validated_link_properties-ArePlain (dict gs) fs h = validated_fields-ArePlain gs fs h
validated_link_properties-ArePlain (frozen gs) fs h = validated_fields-ArePlain gs fs h
validated_link_properties-ArePlain _ fs h = absurd (ground (arith, h))
