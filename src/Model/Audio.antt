-- ===== src/Model/Audio.antt =====
-- The SPA and audio values of src/wyreplumber/runtime/models.py, with their constructors.
use wyreplumber.Prelude.{
  ℕ, String, Bool, true, false, ◌||◌, Option, List, Result, ok, type_error, ◌>>=◌, ◌>>◌, require,
  traverse,
}
use wyreplumber.Value.{Value, Fields}
use wyreplumber.Value.Checks.{identifier, required_string, optional_string, sequence}
use wyreplumber.Value.Json.{mapping, contract_value}
use wyreplumber.Builtins.{Builtins}
use wyreplumber.Event.{is_null}
use wyreplumber.Model.Parts.{
  optional_float, non_negative_floats, optional_boolean, runtime_values, is_runtime,
}

pub record SpaId : Type 0 where
  pub namespace : String
  pub id : ℕ
  pub name : Option String

-- `SpaIdValue.__post_init__`
unfoldable pub make_spa_id : (namespace id name : Value) → Result SpaId
make_spa_id namespace id name = do
  s ← required_string false namespace
  i ← identifier id
  n ← optional_string name
  ok (record { namespace = s; id = i; name = n })

pub record SpaChoice : Type 0 where
  pub kind : String
  pub default : Value
  pub minimum : Value
  pub maximum : Value
  pub step : Value
  pub alternatives : List Value
  pub flags : ℕ
  pub extra : Fields

pub record SpaChoiceFields : Type 0 where
  pub kind : Value
  pub default : Value
  pub minimum : Value
  pub maximum : Value
  pub step : Value
  pub alternatives : Value
  pub flags : Value
  pub extra : Value

-- `SpaChoiceValue.__post_init__`
unfoldable pub make_spa_choice : SpaChoiceFields → Result SpaChoice
make_spa_choice args = do
  kind ← required_string false args.kind
  default ← contract_value args.default
  minimum ← contract_value args.minimum
  maximum ← contract_value args.maximum
  step ← contract_value args.step
  given ← sequence args.alternatives
  alternatives ← traverse contract_value given
  flags ← identifier args.flags
  extra ← mapping args.extra
  ok (record {
    kind = kind;
    default = default;
    minimum = minimum;
    maximum = maximum;
    step = step;
    alternatives = alternatives;
    flags = flags;
    extra = extra;
  })

pub record Audio : Type 0 where
  pub volume : Option ℕ
  pub mute : Option Bool
  pub channel_volumes : List ℕ
  pub channel_positions : List Value
  pub monitor_mute : Option Bool
  pub monitor_volumes : List ℕ
  pub soft_mute : Option Bool
  pub soft_volumes : List ℕ
  pub extra : Fields

pub record AudioValues : Type 0 where
  pub volume : Value
  pub mute : Value
  pub channel_volumes : Value
  pub channel_positions : Value
  pub monitor_mute : Value
  pub monitor_volumes : Value
  pub soft_mute : Value
  pub soft_volumes : Value
  pub extra : Value

-- `AudioPropertiesValue.__post_init__`
unfoldable pub make_audio : Builtins → AudioValues → Result Audio
make_audio py args = do
  volume ← optional_float py args.volume
  mute ← optional_boolean args.mute
  channel_volumes ← non_negative_floats py args.channel_volumes
  channel_positions ← runtime_values "spa_id" args.channel_positions
  monitor_mute ← optional_boolean args.monitor_mute
  monitor_volumes ← non_negative_floats py args.monitor_volumes
  soft_mute ← optional_boolean args.soft_mute
  soft_volumes ← non_negative_floats py args.soft_volumes
  extra ← mapping args.extra
  ok (record {
    volume = volume;
    mute = mute;
    channel_volumes = channel_volumes;
    channel_positions = channel_positions;
    monitor_mute = monitor_mute;
    monitor_volumes = monitor_volumes;
    soft_mute = soft_mute;
    soft_volumes = soft_volumes;
    extra = extra;
  })

-- The values of a format are SpaIdValues, SpaChoiceValues, integers or None.
pub record AudioFormat : Type 0 where
  pub media_type : Value
  pub media_subtype : Value
  pub sample_format : Value
  pub rate : Value
  pub channels : Value
  pub positions : List Value
  pub iec958_codec : Value
  pub extra : Fields

pub record AudioFormatFields : Type 0 where
  pub media_type : Value
  pub media_subtype : Value
  pub sample_format : Value
  pub rate : Value
  pub channels : Value
  pub positions : Value
  pub iec958_codec : Value
  pub extra : Value

-- `value is not None and not isinstance(value, (SpaIdValue, SpaChoiceValue))` is a TypeError.
abbrev spa_value : Value → Result (Unit {0})
spa_value v = require (is_null v || (is_runtime "spa_id" v || is_runtime "spa_choice" v)) type_error

abbrev is_free : Value → Bool
is_free v = is_runtime "spa_choice" v || is_null v

-- A SpaChoiceValue, None, or an identifier.
abbrev count_value : Value → Result (Unit {0})
count_value v = elim (is_free v) [ true ↦ ok tt | false ↦ (do n ← identifier v; ok tt) ]

-- `AudioFormatValue.__post_init__`
unfoldable pub make_audio_format : AudioFormatFields → Result AudioFormat
make_audio_format args = do
  spa_value args.media_type
  spa_value args.media_subtype
  spa_value args.sample_format
  spa_value args.iec958_codec
  count_value args.rate
  count_value args.channels
  positions ← runtime_values "spa_id" args.positions
  extra ← mapping args.extra
  ok (record {
    media_type = args.media_type;
    media_subtype = args.media_subtype;
    sample_format = args.sample_format;
    rate = args.rate;
    channels = args.channels;
    positions = positions;
    iec958_codec = args.iec958_codec;
    extra = extra;
  })
