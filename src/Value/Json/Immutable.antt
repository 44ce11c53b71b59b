-- ===== src/Value/Json/Immutable.antt =====
-- What freezing produces: deeply immutable values, which freezing leaves as they are.
use wyreplumber.Prelude.{
  ℕ, ◌≡◌, refl, Bool, true, false, ◌&&◌, Result, ok, err, value_error, ◌>>=◌, arith, &&_left,
  &&_right, if◌then◌else◌,
}
use wyreplumber.Value.Floats.{is_finite}
use wyreplumber.Value.{
  Value, null, bool, int, float, str, list, tuple, dict, frozen, Items, nil, cons, Fields, end,
  field, text, number,
}
use wyreplumber.Value.Json.{freeze_json, freeze_items, freeze_fields}

unfoldable mutual
  -- Scalars, tuples and FrozenDicts with text keys, all the way down.
  pub is_immutable : Value → Bool
  is_immutable null = true
  is_immutable (bool b) = true
  is_immutable (int n) = true
  is_immutable (float x) = is_finite x
  is_immutable (str s) = true
  is_immutable (tuple vs) = immutable_items vs
  is_immutable (frozen fs) = immutable_fields fs
  is_immutable _ = false

  pub immutable_items : Items → Bool
  immutable_items nil = true
  immutable_items (cons v vs) = is_immutable v && immutable_items vs

  pub immutable_fields : Fields → Bool
  immutable_fields end = true
  immutable_fields (field (text k) v fs) = is_immutable v && immutable_fields fs
  immutable_fields (field (number k) v fs) = false

unfoldable mutual
  -- Every FrozenDict inside came out of its constructor.
  pub well_built : Value → Bool
  well_built (list vs) = well_built_items vs
  well_built (tuple vs) = well_built_items vs
  well_built (dict fs) = well_built_fields fs
  well_built (frozen fs) = immutable_fields fs
  well_built _ = true

  pub well_built_items : Items → Bool
  well_built_items nil = true
  well_built_items (cons v vs) = well_built v && well_built_items vs

  pub well_built_fields : Fields → Bool
  well_built_fields end = true
  well_built_fields (field k v fs) = well_built v && well_built_fields fs

-- The test on the value, if there is one.
abbrev holds {ℓ} : {A : Type ℓ} → (A → Bool) → Result A → Bool
holds p (ok a) = p a
holds p (err e) = true

immutable_tuple :
    (m : Result Items)
    → holds immutable_items m ≡ true
    → holds is_immutable (do ws ← m; ok (tuple ws)) ≡ true
unfolding is_immutable
immutable_tuple (ok ws) h = h
immutable_tuple (err e) h = refl

immutable_frozen :
    (m : Result Fields)
    → holds immutable_fields m ≡ true
    → holds is_immutable (do gs ← m; ok (frozen gs)) ≡ true
unfolding is_immutable
immutable_frozen (ok ws) h = h
immutable_frozen (err e) h = refl

immutable_cons :
    (m : Result Value) (n : Result Items)
    → holds is_immutable m ≡ true
    → holds immutable_items n ≡ true
    → holds immutable_items (do w ← m; ws ← n; ok (cons w ws)) ≡ true
unfolding is_immutable
immutable_cons (ok w) (ok ws) h k = rw (h, k)
immutable_cons (err e) n h k = refl
immutable_cons (ok w) (err e) h k = refl

immutable_field :
    (m : Result Value) (n : Result Fields) (key : _)
    → holds is_immutable m ≡ true
    → holds immutable_fields n ≡ true
    → holds immutable_fields (do w ← m; gs ← n; ok (field (text key) w gs)) ≡ true
unfolding is_immutable
immutable_field (ok w) (ok ws) key h k = rw (h, k)
immutable_field (err e) n key h k = refl
immutable_field (ok w) (err e) key h k = refl

immutable_float :
    (x : ℕ) → holds is_immutable (if is_finite x then ok (float x) else err value_error) ≡ true
unfolding is_immutable
immutable_float x = ground arith

mutual
  unfolding freeze_json well_built is_immutable

  freeze_immutable : (v : Value) → well_built v ≡ true → holds is_immutable (freeze_json v) ≡ true
  freeze_immutable (float x) h = immutable_float x
  freeze_immutable (list vs) h = immutable_tuple (freeze_items vs) (freeze_immutable_items vs h)
  freeze_immutable (tuple vs) h = immutable_tuple (freeze_items vs) (freeze_immutable_items vs h)
  freeze_immutable (dict fs) h = immutable_frozen (freeze_fields fs) (freeze_immutable_fields fs h)
  freeze_immutable (frozen fs) h = h
  freeze_immutable _ h = refl

  freeze_immutable_items :
      (vs : Items) → well_built_items vs ≡ true → holds immutable_items (freeze_items vs) ≡ true
  freeze_immutable_items nil h = refl
  freeze_immutable_items (cons v vs) h =
      immutable_cons (freeze_json v) (freeze_items vs)
        (freeze_immutable v (&&_left (well_built v) (well_built_items vs) h))
        (freeze_immutable_items vs (&&_right (well_built v) (well_built_items vs) h))

  freeze_immutable_fields :
      (fs : Fields) → well_built_fields fs ≡ true → holds immutable_fields (freeze_fields fs) ≡ true
  freeze_immutable_fields end h = refl
  freeze_immutable_fields (field (text k) v fs) h =
      immutable_field (freeze_json v) (freeze_fields fs) k
        (freeze_immutable v (&&_left (well_built v) (well_built_fields fs) h))
        (freeze_immutable_fields fs (&&_right (well_built v) (well_built_fields fs) h))
  freeze_immutable_fields (field (number k) v fs) h = refl

mutual
  unfolding freeze_json is_immutable

  freeze_fixed : (v : Value) → is_immutable v ≡ true → freeze_json v ≡ ok v
  freeze_fixed (float x) h = rw h
  freeze_fixed (tuple vs) h = rw (freeze_fixed_items vs h)
  freeze_fixed null h = refl
  freeze_fixed (bool b) h = refl
  freeze_fixed (int n) h = refl
  freeze_fixed (str s) h = refl
  freeze_fixed (frozen fs) h = refl
  freeze_fixed _ h = cc

  freeze_fixed_items : (vs : Items) → immutable_items vs ≡ true → freeze_items vs ≡ ok vs
  freeze_fixed_items nil h = refl
  freeze_fixed_items (cons v vs) h = rw (
    freeze_fixed v (&&_left (is_immutable v) (immutable_items vs) h),
    freeze_fixed_items vs (&&_right (is_immutable v) (immutable_items vs) h),
  )

-- If every FrozenDict inside a value holds only immutable values, a value that freezes is deeply
-- immutable afterwards, and freezing it again returns it unchanged.
pub freeze-immutable :
    (v w : Value)
    → well_built v ≡ true
    → freeze_json v ≡ ok w
    → (is_immutable w ≡ true) × (freeze_json w ≡ ok w)
freeze-immutable v w h e =
    let frozen_w : is_immutable w ≡ true = rw e at (freeze_immutable v h) in
    (frozen_w, freeze_fixed w frozen_w)
