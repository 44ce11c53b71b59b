-- ===== src/Controls/Parameters.antt =====
-- Parameter and mixer controls of controls.py: `set_runtime_parameter`, the audio properties of a
-- node, its volume and its mute. The clock is read at step 0, and the executor goes on at step 1.
use wyreplumber.Prelude.{
  ℕ, pos, String, Bool, true, false, ◌||◌, Option, none, some, List, [], ◌∷◌, ◌++◌, Result, ok,
  value_error, ◌>>=◌, ◌>>◌, require, leb, traverse,
}
use wyreplumber.Value.{
  Value, null, bool, int, float, str, str_member, tuple, Items, nil, cons, Fields, end, field, text,
}
use wyreplumber.Value.Checks.{identifier, required_string, boolean, enum}
use wyreplumber.Builtins.{Builtins}
use wyreplumber.Event.Kinds.{RuntimeObjectKind, device, node, port, object_kind, kind_text}
use wyreplumber.Model.Serialize.{◌↠◌}
use wyreplumber.Mutation.Kinds.{set_parameter, set_node_mixer}
use wyreplumber.Mutation.Predicate.{Target, Predicate, confirmation_predicate}
use wyreplumber.Mutation.Request.{Request}
use wyreplumber.Mutation.Execution.{World, Execution, execute}
use wyreplumber.Controls.Pods.{
  Pod, props, Builder, AudioFields, parameter_pod_bytes, non_negative_finite, audio_properties,
}
use package.wyreplumber.Controls.{
  Options, attempt, later, pipewire_identifier, target_of, equals_at, request_of,
}

-- The arguments of `set_runtime_parameter`.
pub record ParameterFields : Type 0 where
  pub target_kind : Value
  pub target_id : Value
  pub parameter_id : Value
  pub value : Pod
  pub confirmation_predicates : List Predicate
  pub flags : Value
  pub pod_type : Value
  pub options : Options

abbrev has_parameters : RuntimeObjectKind → Bool
has_parameters device = true
has_parameters node = true
has_parameters port = true
has_parameters _ = false

-- `flags`: an integer of 32 bits.
abbrev flags_of : Value → Result ℕ
flags_of v = do n ← identifier v; require (leb n 0xFFFFFFFF) value_error; ok n

-- `("values", 0, name)`
abbrev value_path : String → Items
value_path name = cons (str "values") (cons (int (pos 0)) (cons (str name) nil))

-- A mixer control must be given one of the two.
abbrev is_given {ℓ} : {A : Type ℓ} → Option A → Bool
is_given none = false
is_given (some a) = true

module _ (py : Builtins) where
  -- The payload of a request that writes a pod.
  abbrev pub pod_payload : (flags : ℕ) → (raw : List ℕ) → Fields
  pod_payload flags raw = ("flags", int (pos flags)) ↠ ("pod_base64", str (py.base64 raw)) ↠ end

  -- The request of `set_runtime_parameter`.
  unfoldable pub parameter_request :
      Builder → (fresh : String) (clock : ℕ) → ParameterFields → Result Request
  parameter_request build fresh clock args = do
    kind ← enum object_kind args.target_kind
    require (has_parameters kind) value_error
    i ← identifier args.target_id
    name ← required_string false args.parameter_id
    flags ← flags_of args.flags
    raw ← parameter_pod_bytes build args.value args.pod_type
    target ← target_of kind args.target_id (("parameter_id", str name) ↠ end)
    request_of py fresh clock args.options set_parameter target (pod_payload flags raw)
        args.confirmation_predicates

  -- EQUALS predicates at `("values", 0, name)`, one for each expected value.
  abbrev expected_values : Target → List (String × Value) → Result (List Predicate)
  expected_values target = traverse (λ e. equals_at py target (value_path e.0) e.1)

  -- The predicate of a mixer's volume, within 0.005 of it.
  abbrev volume_predicate : Target → (volume : ℕ) → Result Predicate
  volume_predicate target volume = confirmation_predicate py (record {
    target = target;
    operator = str_member "approximately_equals";
    path = tuple (value_path "volume");
    expected = float volume;
    tolerance = float 4572414629676717179;
  })

  -- The payload of the volume, and its predicate.
  abbrev mixer_volume : Target → Option Value → Result (List (String × Value) × List Predicate)
  mixer_volume target none = ok ([], [])
  mixer_volume target (some v) = do
    x ← non_negative_finite py v
    p ← volume_predicate target x
    ok (("volume", float x) ∷ [], p ∷ [])

  abbrev mixer_mute : Target → Option Value → Result (List (String × Value) × List Predicate)
  mixer_mute target none = ok ([], [])
  mixer_mute target (some v) = do
    b ← boolean v
    p ← equals_at py target (value_path "mute") (bool b)
    ok (("mute", bool b) ∷ [], p ∷ [])

  abbrev to_fields : List (String × Value) → Fields
  to_fields [] = end
  to_fields ((k, v) ∷ es) = field (text k) v (to_fields es)

  -- The request of `_set_node_mixer`.
  unfoldable pub mixer_request :
      (fresh : String)
      → (clock : ℕ) → (node_id : Value) → (volume mute : Option Value) → Options
      → Result Request
  mixer_request fresh clock node_id volume mute options = do
    require (is_given volume || is_given mute) value_error
    i ← pipewire_identifier node_id
    target ← target_of node node_id (("parameter_id", str "Mixer") ↠ ("control", str "mixer") ↠ end)
    (a, ps) ← mixer_volume target volume
    (b, qs) ← mixer_mute target mute
    request_of py fresh clock options set_node_mixer target (to_fields (a ++ b)) (ps ++ qs)

  module _ (w : World) (fuel : ℕ) (fresh : String) where
    -- `set_runtime_parameter`
    unfoldable pub set_runtime_parameter : Builder → ParameterFields → Execution
    unfolding parameter_request
    set_runtime_parameter build args = attempt (do
      r ← parameter_request build fresh (w.clock 0) args
      ok (execute py (later 1 w) fuel none r))

    -- `set_node_audio_properties`
    unfoldable pub set_node_audio_properties :
        Builder → (node_id : Value) → AudioFields → Options → Execution
    unfolding set_runtime_parameter
    set_node_audio_properties build node_id audio options = attempt (do
      require (is_given audio.volume || (is_given audio.mute || is_given audio.channel_volumes))
          value_error
      (properties, expected) ← audio_properties py audio
      target ← target_of node node_id (("parameter_id", str "Props") ↠ end)
      predicates ← expected_values target expected
      ok (
          set_runtime_parameter build (record {
            target_kind = str_member (kind_text node);
            target_id = node_id;
            parameter_id = str "Props";
            value = props properties;
            confirmation_predicates = predicates;
            flags = int (pos 0);
            pod_type = null;
            options = options;
          })))

    -- `_set_node_mixer`
    unfoldable pub set_node_mixer_state :
        (node_id : Value) → (volume mute : Option Value) → Options → Execution
    unfolding mixer_request
    set_node_mixer_state node_id volume mute options = attempt (do
      r ← mixer_request fresh (w.clock 0) node_id volume mute options
      ok (execute py (later 1 w) fuel none r))

    -- `set_node_volume`
    unfoldable pub set_node_volume : (node_id volume : Value) → Options → Execution
    unfolding set_node_mixer_state
    set_node_volume node_id volume = set_node_mixer_state node_id (some volume) none

    -- `set_node_mute`
    unfoldable pub set_node_mute : (node_id mute : Value) → Options → Execution
    unfolding set_node_mixer_state
    set_node_mute node_id mute = set_node_mixer_state node_id none (some mute)
