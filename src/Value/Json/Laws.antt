-- ===== src/Value/Json/Laws.antt =====
-- Freezing and thawing are inverse on JSON documents.
use wyreplumber.Prelude.{
  ℕ, Result, value_error, &&_left, &&_right, ◌≡◌, refl, Bool, true, false, ◌&&◌, ok, err, ◌>>=◌,
  if◌then◌else◌,
}
use wyreplumber.Value.Floats.{is_finite}
use wyreplumber.Value.{
  Value, null, bool, int, float, str, list, tuple, dict, frozen, Items, nil, cons, Fields, end,
  field, Key, text, number,
}
use wyreplumber.Value.Json.{freeze_json, thaw_json}
use package.wyreplumber.Value.Json.{freeze_items, freeze_fields, thaw_items, thaw_fields}

unfoldable mutual
  -- What `json.loads` returns.
  pub is_json : Value → Bool
  is_json null = true
  is_json (bool b) = true
  is_json (int n) = true
  is_json (float x) = is_finite x
  is_json (str s) = true
  is_json (list vs) = is_json_items vs
  is_json (dict fs) = is_json_fields fs
  is_json _ = false

  pub is_json_items : Items → Bool
  is_json_items nil = true
  is_json_items (cons v vs) = is_json v && is_json_items vs

  pub is_json_fields : Fields → Bool
  is_json_fields end = true
  is_json_fields (field (text k) v fs) = is_json v && is_json_fields fs
  is_json_fields (field (number k) v fs) = false

-- One level of the round trip, from that of the parts.
thaw_list :
    (m : Result Items) (vs : Items)
    → (m >>= thaw_items) ≡ ok vs
    → ((do ws ← m; ok (tuple ws)) >>= thaw_json) ≡ ok (list vs)
unfolding thaw_json
thaw_list (ok ws) vs h = rw h
thaw_list (err e) vs h = cc

thaw_dict :
    (m : Result Fields) (fs : Fields)
    → (m >>= thaw_fields) ≡ ok fs
    → ((do gs ← m; ok (frozen gs)) >>= thaw_json) ≡ ok (dict fs)
unfolding thaw_json
thaw_dict (ok gs) fs h = rw h
thaw_dict (err e) fs h = cc

thaw_cons :
    (m : Result Value) (n : Result Items) (v : Value) (vs : Items)
    → (m >>= thaw_json) ≡ ok v
    → (n >>= thaw_items) ≡ ok vs
    → ((do w ← m; ws ← n; ok (cons w ws)) >>= thaw_items) ≡ ok (cons v vs)
unfolding thaw_json
thaw_cons (ok w) (ok ws) v vs h k = rw (h, k)
thaw_cons (err e) n v vs h k = cc
thaw_cons (ok w) (err e) v vs h k = cc

thaw_field :
    (m : Result Value) (n : Result Fields) (key : Key) (v : Value) (fs : Fields)
    → (m >>= thaw_json) ≡ ok v
    → (n >>= thaw_fields) ≡ ok fs
    → ((do w ← m; gs ← n; ok (field key w gs)) >>= thaw_fields) ≡ ok (field key v fs)
unfolding thaw_json
thaw_field (ok w) (ok ws) key v fs h k = rw (h, k)
thaw_field (err e) n key v fs h k = cc
thaw_field (ok w) (err e) key v fs h k = cc

thaw_float :
    (x : ℕ)
    → is_finite x ≡ true
    → ((if is_finite x then ok (float x) else err value_error) >>= thaw_json) ≡ ok (float x)
unfolding thaw_json
thaw_float x h = rw h

mutual
  unfolding is_json freeze_json thaw_json

  thaw_freeze_value : (v : Value) → is_json v ≡ true → (freeze_json v >>= thaw_json) ≡ ok v
  thaw_freeze_value (float x) h = thaw_float x h
  thaw_freeze_value (list vs) h = thaw_list (freeze_items vs) vs (thaw_freeze_items vs h)
  thaw_freeze_value (dict fs) h = thaw_dict (freeze_fields fs) fs (thaw_freeze_fields fs h)
  thaw_freeze_value null h = refl
  thaw_freeze_value (bool b) h = refl
  thaw_freeze_value (int n) h = refl
  thaw_freeze_value (str s) h = refl
  thaw_freeze_value _ h = cc

  thaw_freeze_items :
      (vs : Items) → is_json_items vs ≡ true → (freeze_items vs >>= thaw_items) ≡ ok vs
  thaw_freeze_items nil h = refl
  thaw_freeze_items (cons v vs) h =
      thaw_cons (freeze_json v) (freeze_items vs) v vs
        (thaw_freeze_value v (&&_left (is_json v) (is_json_items vs) h))
        (thaw_freeze_items vs (&&_right (is_json v) (is_json_items vs) h))

  thaw_freeze_fields :
      (fs : Fields) → is_json_fields fs ≡ true → (freeze_fields fs >>= thaw_fields) ≡ ok fs
  thaw_freeze_fields end h = refl
  thaw_freeze_fields (field (text k) v fs) h =
      thaw_field (freeze_json v) (freeze_fields fs) (text k) v fs
        (thaw_freeze_value v (&&_left (is_json v) (is_json_fields fs) h))
        (thaw_freeze_fields fs (&&_right (is_json v) (is_json_fields fs) h))
  thaw_freeze_fields (field (number k) v fs) h = cc

-- Freezing a JSON document and thawing the result gives the document back.
pub thaw-freeze : (v : Value) → is_json v ≡ true → (freeze_json v >>= thaw_json) ≡ ok v
thaw-freeze v h = thaw_freeze_value v h
