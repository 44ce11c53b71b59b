-- ===== src/Controls/Pods.antt =====
-- The pods that the controls of controls.py hand over, and `_parameter_pod_bytes`.
use wyreplumber.Prelude.{
  ℕ, ◌+◌, String, Bool, not, ◌&&◌, Option, none, some, List, [], ◌∷◌, ◌++◌, Result, ok, err,
  type_error, value_error, overflow_error, ◌>>=◌, ◌>>◌, require, leb, length, traverse, ◌≤◌, ◌≡◌,
  arith, >>=-eq-ok, Result-cases, inl, inr,
}
use wyreplumber.Value.{
  Value, null, bool, float, tuple, bytes, dict, frozen, Items, nil, cons, Fields,
}
use wyreplumber.Value.Checks.{identifier, sequence, boolean, lookup}
use wyreplumber.Value.Floats.{is_finite, is_negative, is_number, to_double}
use wyreplumber.Builtins.{Builtins}
use wyreplumber.Spa.Wire.{parse_pod_header}

-- The properties of a SpaProps that the controls set; floats are doubles.
pub record AudioProperties : Type 0 where
  pub volume : Option ℕ
  pub mute : Option Bool
  pub channel_volumes : Option (List ℕ)

-- The fields of a SpaParamRoute.
pub record RoutePod : Type 0 where
  pub index : ℕ
  pub device : ℕ
  pub save : Bool
  pub props : Option AudioProperties

-- What a control gives to `build_spa_pod`: a caller's value, a SpaProps, a SpaParamProfile with its
-- index, or a SpaParamRoute.
pub data Pod : Type 0 where
  plain : Value → Pod
  props : AudioProperties → Pod
  profile : ℕ → Pod
  route : RoutePod → Pod

-- `build_spa_pod(value, pod_type)`
abbrev pub Builder : Type 0
Builder = Pod → (pod_type : Option ℕ) → Result (List ℕ)

-- The volume, mute and channel volumes that a control is given; `none` is `_UNSET`.
pub record AudioFields : Type 0 where
  pub volume : Option Value
  pub mute : Option Value
  pub channel_volumes : Option Value

abbrev pub optional_pod_type : Value → Result (Option ℕ)
optional_pod_type null = ok none
optional_pod_type v = do n ← identifier v; ok (some n)

abbrev data_bytes : Value → Result (List ℕ)
data_bytes (bytes raw) = ok raw
data_bytes _ = err type_error

-- A mapping with raw data, or else the pod that the builder makes.
abbrev data_or : Fields → Result (List ℕ) → Result (List ℕ)
data_or fs built = elim (lookup "data" fs) [ none ↦ built | some v ↦ data_bytes v ]

abbrev raw_bytes : Builder → Pod → Option ℕ → Result (List ℕ)
raw_bytes build (plain (bytes raw)) pod_type = ok raw
raw_bytes build (plain (dict fs)) pod_type = data_or fs (build (plain (dict fs)) pod_type)
raw_bytes build (plain (frozen fs)) pod_type = data_or fs (build (plain (frozen fs)) pod_type)
raw_bytes build value pod_type = build value pod_type

-- The checks of `_parameter_pod_bytes` on the bytes.
unfoldable pub whole_pod : List ℕ → Result (List ℕ)
whole_pod raw = do
  require (leb 8 (length raw)) value_error
  (size, spa_type) ← parse_pod_header raw
  require (leb (8 + size) (length raw)) value_error
  ok raw

-- `_parameter_pod_bytes`
unfoldable pub parameter_pod_bytes : Builder → Pod → (pod_type : Value) → Result (List ℕ)
unfolding whole_pod
parameter_pod_bytes build value pod_type = do
  kind ← optional_pod_type pod_type
  raw ← raw_bytes build value kind
  whole_pod raw

-- Bytes with a header that go on at least as far as it says.
pub record IsWhole (raw : List ℕ) : Type 0 where
  pub size : ℕ
  pub spa_type : ℕ
  pub header : parse_pod_header raw ≡ ok (size, spa_type)
  pub available : 8 + size ≤ length raw

whole_pod-IsWhole : (given raw : List ℕ) → whole_pod given ≡ ok raw → IsWhole raw
unfolding whole_pod
whole_pod-IsWhole given raw done = elim (Result-cases (parse_pod_header given)) [
  | inl ((size, spa_type), read) ↦
      let same : given ≡ raw = ground (arith, done, read) in
      let fits : 8 + size ≤ length given = ground (arith, done, read) in
      rw (← same) (record { size = size; spa_type = spa_type; header = read; available = fits })
  | inr (e, raised) ↦ absurd (ground (arith, done, raised))
]

-- The bytes that a control sends are a header and at least as many bytes as it says, whoever made
-- them.
pub parameter_pod_bytes-IsWhole :
    (build : Builder) (value : Pod) (pod_type : Value) (raw : List ℕ)
    → parameter_pod_bytes build value pod_type ≡ ok raw
    → IsWhole raw
unfolding parameter_pod_bytes
parameter_pod_bytes-IsWhole build value pod_type raw done =
    let (kind, _, after_kind) = >>=-eq-ok (optional_pod_type pod_type) _ done in
    let (given, _, checked) = >>=-eq-ok (raw_bytes build value kind) _ after_kind in
    whole_pod-IsWhole given raw checked

module _ (py : Builtins) where
  open py use {float32}

  -- `_non_negative_finite`
  unfoldable pub non_negative_finite : Value → Result ℕ
  non_negative_finite v = do
    require (is_number v) type_error
    x ← to_double py v
    require (is_finite x && not (is_negative x)) value_error
    ok x

  -- `_float32`
  unfoldable pub to_float32 : ℕ → Result ℕ
  to_float32 x = elim (float32 x) [ none ↦ err overflow_error | some y ↦ ok y ]

  abbrev pub floats : List ℕ → Items
  floats [] = nil
  floats (x ∷ xs) = cons (float x) (floats xs)

  -- The volume, with its property and what is expected of it.
  abbrev pub volume_of : Option Value → Result (Option ℕ × List (String × Value))
  volume_of none = ok (none, [])
  volume_of (some v) = do
    x ← non_negative_finite v
    y ← to_float32 x
    ok (some x, ("volume", float y) ∷ [])

  abbrev pub mute_of : Option Value → Result (Option Bool × List (String × Value))
  mute_of none = ok (none, [])
  mute_of (some v) = do b ← boolean v; ok (some b, ("mute", bool b) ∷ [])

  abbrev pub channels_of : Option Value → Result (Option (List ℕ) × List (String × Value))
  channels_of none = ok (none, [])
  channels_of (some v) = do
    items ← sequence v
    xs ← traverse non_negative_finite items
    require (leb 1 (length xs)) value_error
    ys ← traverse to_float32 xs
    ok (some xs, ("channel_volumes", tuple (floats ys)) ∷ [])

  -- `properties` and `expected`, as `set_node_audio_properties` and `select_device_route` fill them.
  unfoldable pub audio_properties : AudioFields → Result (AudioProperties × List (String × Value))
  unfolding non_negative_finite to_float32
  audio_properties args = do
    (volume, a) ← volume_of args.volume
    (mute, b) ← mute_of args.mute
    (channels, c) ← channels_of args.channel_volumes
    ok (record { volume = volume; mute = mute; channel_volumes = channels }, a ++ (b ++ c))
