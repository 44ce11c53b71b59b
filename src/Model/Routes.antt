-- ===== src/Model/Routes.antt =====
-- The constructor of routes (src/wyreplumber/runtime/models.py), and what their volumes may be.
use wyreplumber.Prelude.{
  ℕ, String, Bool, true, false, not, Option, some, List, [], ◌∷◌, Result, ok, err, type_error,
  value_error, ◌>>=◌, require, traverse, All, ◌≡◌, arith, >>=-eq-ok, ok_eq,
}
use wyreplumber.Value.{Value, null}
use wyreplumber.Value.Checks.{
  integer, identifier, required_string, optional_string, boolean, sequence, identifiers, enum,
}
use wyreplumber.Value.Floats.{is_finite, is_negative, is_number, to_double, IsVolume}
use wyreplumber.Value.Json.{mapping}
use wyreplumber.Builtins.{Builtins}
use wyreplumber.Model.Objects.{Route}
use wyreplumber.Model.Construct.{port_direction, availability}
use wyreplumber.Model.Parts.{
  non_negative_float, optional_float, non_negative_floats, optional_boolean, runtime_values,
  all_runtime,
}

pub record RouteFields : Type 0 where
  pub device_id : Value
  pub index : Value
  pub direction : Value
  pub name : Value
  pub description : Value
  pub priority : Value
  pub available : Value
  pub active : Value
  pub profile_ids : Value
  pub volume : Value
  pub mute : Value
  pub channel_volumes : Value
  pub channel_positions : Value
  pub properties : Value

-- `RouteValue.__post_init__`
unfoldable pub make_route : Builtins → RouteFields → Result Route
make_route py args = do
  device_id ← identifier args.device_id
  index ← identifier args.index
  direction ← enum port_direction args.direction
  name ← required_string false args.name
  description ← optional_string args.description
  priority ← integer args.priority
  offered ← enum availability args.available
  active ← boolean args.active
  profile_ids ← identifiers args.profile_ids
  volume ← optional_float py args.volume
  mute ← optional_boolean args.mute
  channel_volumes ← non_negative_floats py args.channel_volumes
  channel_positions ← runtime_values "spa_id" args.channel_positions
  properties ← mapping args.properties
  ok (record {
    device_id = device_id;
    index = index;
    direction = direction;
    name = name;
    description = description;
    priority = priority;
    available = offered;
    active = active;
    profile_ids = profile_ids;
    volume = volume;
    mute = mute;
    channel_volumes = channel_volumes;
    channel_positions = channel_positions;
    properties = properties;
  })

-- What a route says of its audio: volumes that are finite and not negative, and positions that are
-- SPA ids.
pub record IsAudible (r : Route) : Type 0 where
  pub volume : (x : ℕ) → r.volume ≡ some x → IsVolume x
  pub channels : All IsVolume r.channel_volumes
  pub positions : all_runtime "spa_id" r.channel_positions ≡ true

given_some :
    (r : Result ℕ) (o : Option ℕ) (x : ℕ) → r >>= (λ y. ok (some y)) ≡ ok o → o ≡ some x → r ≡ ok x
given_some (err e) o x h named = absurd (ground (arith, h))
given_some (ok y) o x h named = ground (arith, h, named)

module _ (py : Builtins) where
  non_negative_float-IsVolume : (v : Value) (x : ℕ) → non_negative_float py v ≡ ok x → IsVolume x
  unfolding non_negative_float
  non_negative_float-IsVolume v x h =
      let (_, _, after_type) = >>=-eq-ok (require (is_number v) type_error) _ h in
      let (y, _, after_double) = >>=-eq-ok (to_double py v) _ after_type in
      let (_, finite, after_finite) =
        >>=-eq-ok (require (is_finite y) value_error) _ after_double in
      let (_, positive, done) =
        >>=-eq-ok (require (not (is_negative y)) value_error) _ after_finite in
      rw (← ok_eq done)
        (record { finite = ground (arith, finite); non_negative = ground (arith, positive) })

  optional_float-IsVolume :
      (v : Value) (o : Option ℕ) (x : ℕ) → optional_float py v ≡ ok o → o ≡ some x → IsVolume x
  unfolding optional_float
  optional_float-IsVolume null o x h named = absurd (ground (arith, h, named))
  optional_float-IsVolume v o x h named =
      non_negative_float-IsVolume v x (given_some (non_negative_float py v) o x h named)

  traverse-All-IsVolume :
      (vs : List Value) (xs : List ℕ)
      → traverse (non_negative_float py) vs ≡ ok xs
      → All IsVolume xs
  traverse-All-IsVolume [] [] h = tt
  traverse-All-IsVolume [] (x ∷ xs) h = absurd (ground (arith, h))
  traverse-All-IsVolume (v ∷ vs) xs h =
      let (y, checked, after) = >>=-eq-ok (non_negative_float py v) _ h in
      let (ys, rest, done) = >>=-eq-ok (traverse (non_negative_float py) vs) _ after in
      rw (← ok_eq done) (non_negative_float-IsVolume v y checked, traverse-All-IsVolume vs ys rest)

  runtime_values-all :
      (expected : String) (v : Value) (vs : List Value)
      → runtime_values expected v ≡ ok vs
      → all_runtime expected vs ≡ true
  unfolding runtime_values
  runtime_values-all expected v vs h =
      let (ws, _, after) = >>=-eq-ok (sequence v) _ h in
      let (_, tested, done) = >>=-eq-ok (require (all_runtime expected ws) type_error) _ after in
      rw (← ok_eq done) (required (all_runtime expected ws) _ tested)
    where
      required : (b : Bool) (u : Unit {0}) → require b type_error ≡ ok u → b ≡ true
      required b u h = ground (arith, h)

  -- A route that its constructor accepted has volumes that are finite and not negative, and channel
  -- positions that are SPA ids.
  pub make_route-IsAudible :
      (args : RouteFields) (r : Route) → make_route py args ≡ ok r → IsAudible r
  unfolding make_route non_negative_floats
  make_route-IsAudible args r h =
      let (_, _, h₁) = >>=-eq-ok (identifier args.device_id) _ h in
      let (_, _, h₂) = >>=-eq-ok (identifier args.index) _ h₁ in
      let (_, _, h₃) = >>=-eq-ok (enum port_direction args.direction) _ h₂ in
      let (_, _, h₄) = >>=-eq-ok (required_string false args.name) _ h₃ in
      let (_, _, h₅) = >>=-eq-ok (optional_string args.description) _ h₄ in
      let (_, _, h₆) = >>=-eq-ok (integer args.priority) _ h₅ in
      let (_, _, h₇) = >>=-eq-ok (enum availability args.available) _ h₆ in
      let (_, _, h₈) = >>=-eq-ok (boolean args.active) _ h₇ in
      let (_, _, h₉) = >>=-eq-ok (identifiers args.profile_ids) _ h₈ in
      let (volume, v, after_volume) = >>=-eq-ok (optional_float py args.volume) _ h₉ in
      let (_, _, after_mute) = >>=-eq-ok (optional_boolean args.mute) _ after_volume in
      let (channels, c, after_channels) =
        >>=-eq-ok (non_negative_floats py args.channel_volumes) _ after_mute in
      let (positions, p, after_positions) =
        >>=-eq-ok (runtime_values "spa_id" args.channel_positions) _ after_channels in
      let (_, _, done) = >>=-eq-ok (mapping args.properties) _ after_positions in
      let (items, _, checked) = >>=-eq-ok (sequence args.channel_volumes) _ c in
      rw (← ok_eq done) (record {
        volume = λ x named. optional_float-IsVolume args.volume volume x v named;
        channels = traverse-All-IsVolume items channels checked;
        positions = runtime_values-all "spa_id" args.channel_positions positions p;
      })
