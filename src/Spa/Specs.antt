-- ===== src/Spa/Specs.antt =====
-- The property tables of src/wyreplumber/_spa_pod_types.py: the numbers of the properties of each
-- parameter object, their names, the types of their pods and how their values are shaped.
use wyreplumber.Prelude.{ℕ, String, Option, none, some, List, [], ◌∷◌}
use wyreplumber.Spa.Kinds.{
  PodKind, id_kind, bool_kind, int_kind, long_kind, float_kind, string_kind, bytes_kind,
  rectangle_kind, fraction_kind, array_kind, struct_kind, object_kind, fd_kind, choice_kind,
}
use wyreplumber.Spa.Enums.{
  EnumClass, spa_audio_aac_stream_format, spa_audio_amr_band_mode, spa_audio_channel,
  spa_audio_dts_ext_type, spa_audio_format, spa_audio_iec958_codec, spa_audio_mp3_channel_mode,
  spa_audio_volume_ramp_scale, spa_audio_wma_profile, spa_bluetooth_audio_codec, spa_direction,
  spa_media_subtype, spa_media_type, spa_param_availability, spa_param_bitorder,
  spa_param_port_config_mode,
}

pub data Shape : Type 0 where
  dict_info params labels profile_classes array_int array_float array_id object_props
        object_format :
      Shape

-- `PropertySpec`
pub record PropertySpec : Type 0 where
  pub key : ℕ
  pub name : String
  pub pod_type : Option PodKind
  pub shape : Option Shape
  pub enum_cls : Option EnumClass

abbrev plain : ℕ → String → PodKind → PropertySpec
plain key name kind = record {
  key = key;
  name = name;
  pod_type = some kind;
  shape = none;
  enum_cls = none;
}

abbrev untyped : ℕ → String → PropertySpec
untyped key name = record { key = key; name = name; pod_type = none; shape = none; enum_cls = none }

abbrev shaped : ℕ → String → PodKind → Shape → PropertySpec
shaped key name kind shape = record {
  key = key;
  name = name;
  pod_type = some kind;
  shape = some shape;
  enum_cls = none;
}

abbrev enumerated : ℕ → String → EnumClass → PropertySpec
enumerated key name cls = record {
  key = key;
  name = name;
  pod_type = some id_kind;
  shape = none;
  enum_cls = some cls;
}

abbrev id_array : ℕ → String → EnumClass → PropertySpec
id_array key name cls = record {
  key = key;
  name = name;
  pod_type = some array_kind;
  shape = some array_id;
  enum_cls = some cls;
}

abbrev pub prop_info_specs : List PropertySpec
prop_info_specs =
    plain 1 "id" id_kind
    ∷ plain 2 "name" string_kind
    ∷ untyped 3 "type"
    ∷ shaped 4 "labels" struct_kind labels
    ∷ plain 5 "container" id_kind
    ∷ plain 6 "params" bool_kind
    ∷ plain 7 "description" string_kind
    ∷ []

abbrev pub props_specs : List PropertySpec
props_specs =
    untyped 1 "unknown"
    ∷ plain 257 "device" string_kind
    ∷ plain 258 "deviceName" string_kind
    ∷ plain 259 "deviceFd" fd_kind
    ∷ plain 260 "card" string_kind
    ∷ plain 261 "cardName" string_kind
    ∷ plain 262 "minLatency" int_kind
    ∷ plain 263 "maxLatency" int_kind
    ∷ plain 264 "periods" int_kind
    ∷ plain 265 "periodSize" int_kind
    ∷ plain 266 "periodEvent" bool_kind
    ∷ plain 267 "live" bool_kind
    ∷ plain 268 "rate" int_kind
    ∷ plain 269 "quality" int_kind
    ∷ enumerated 270 "bluetoothAudioCodec" spa_bluetooth_audio_codec
    ∷ plain 271 "bluetoothOffloadActive" bool_kind
    ∷ shaped 524289 "params" struct_kind params
    ∷ plain 273 "clockId" int_kind
    ∷ plain 274 "clockName" string_kind
    ∷ plain 275 "clockQuantumLimit" int_kind
    ∷ plain 276 "clockMinQuantum" int_kind
    ∷ plain 277 "clockMaxQuantum" int_kind
    ∷ plain 278 "clockRate" int_kind
    ∷ shaped 279 "clockAllowedRates" array_kind array_int
    ∷ shaped 280 "clockForceRates" array_kind array_int
    ∷ plain 65537 "waveType" id_kind
    ∷ plain 65538 "frequency" float_kind
    ∷ plain 65539 "volume" float_kind
    ∷ plain 65540 "mute" bool_kind
    ∷ plain 65541 "patternType" id_kind
    ∷ plain 65542 "ditherType" id_kind
    ∷ plain 65543 "truncate" bool_kind
    ∷ shaped 65544 "channelVolumes" array_kind array_float
    ∷ plain 65545 "volumeBase" float_kind
    ∷ plain 65546 "volumeStep" float_kind
    ∷ id_array 65547 "channelMap" spa_audio_channel
    ∷ plain 65548 "monitorMute" bool_kind
    ∷ shaped 65549 "monitorVolumes" array_kind array_float
    ∷ plain 65550 "latencyOffsetNsec" long_kind
    ∷ plain 65551 "softMute" bool_kind
    ∷ shaped 65552 "softVolumes" array_kind array_float
    ∷ id_array 65553 "iec958Codecs" spa_audio_iec958_codec
    ∷ plain 65554 "volumeRampSamples" int_kind
    ∷ plain 65555 "volumeRampStepSamples" int_kind
    ∷ plain 65556 "volumeRampTime" int_kind
    ∷ plain 65557 "volumeRampStepTime" int_kind
    ∷ enumerated 65558 "volumeRampScale" spa_audio_volume_ramp_scale
    ∷ plain 131073 "brightness" float_kind
    ∷ plain 131074 "contrast" float_kind
    ∷ plain 131075 "saturation" float_kind
    ∷ plain 131076 "hue" float_kind
    ∷ plain 131077 "gamma" float_kind
    ∷ plain 131078 "exposure" float_kind
    ∷ plain 131079 "gain" float_kind
    ∷ plain 131080 "sharpness" float_kind
    ∷ []

abbrev pub format_specs : List PropertySpec
format_specs =
    enumerated 1 "mediaType" spa_media_type
    ∷ enumerated 2 "mediaSubtype" spa_media_subtype
    ∷ enumerated 65537 "audio_format" spa_audio_format
    ∷ plain 65538 "audio_flags" int_kind
    ∷ plain 65539 "audio_rate" int_kind
    ∷ plain 65540 "audio_channels" int_kind
    ∷ id_array 65541 "audio_position" spa_audio_channel
    ∷ enumerated 65542 "audio_iec958Codec" spa_audio_iec958_codec
    ∷ enumerated 65543 "audio_bitorder" spa_param_bitorder
    ∷ plain 65544 "audio_interleave" int_kind
    ∷ plain 65545 "audio_bitrate" int_kind
    ∷ plain 65546 "audio_blockAlign" int_kind
    ∷ enumerated 65547 "audio_AAC_streamFormat" spa_audio_aac_stream_format
    ∷ enumerated 65548 "audio_WMA_profile" spa_audio_wma_profile
    ∷ enumerated 65549 "audio_AMR_bandMode" spa_audio_amr_band_mode
    ∷ enumerated 65550 "audio_MP3_channelMode" spa_audio_mp3_channel_mode
    ∷ enumerated 65551 "audio_DTS_extType" spa_audio_dts_ext_type
    ∷ plain 131073 "video_format" id_kind
    ∷ plain 131074 "video_modifier" long_kind
    ∷ plain 131075 "video_size" rectangle_kind
    ∷ plain 131076 "video_framerate" fraction_kind
    ∷ plain 131077 "video_maxFramerate" fraction_kind
    ∷ plain 131078 "video_views" int_kind
    ∷ plain 131079 "video_interlaceMode" id_kind
    ∷ plain 131080 "video_pixelAspectRatio" fraction_kind
    ∷ plain 131081 "video_multiviewMode" id_kind
    ∷ plain 131082 "video_multiviewFlags" id_kind
    ∷ plain 131083 "video_chromaSite" id_kind
    ∷ plain 131084 "video_colorRange" id_kind
    ∷ plain 131085 "video_colorMatrix" id_kind
    ∷ plain 131086 "video_transferFunction" id_kind
    ∷ plain 131087 "video_colorPrimaries" id_kind
    ∷ plain 131088 "video_profile" int_kind
    ∷ plain 131089 "video_level" int_kind
    ∷ plain 131090 "video_H264_streamFormat" id_kind
    ∷ plain 131091 "video_H264_alignment" id_kind
    ∷ plain 131092 "video_H265_streamFormat" id_kind
    ∷ plain 131093 "video_H265_alignment" id_kind
    ∷ plain 131094 "video_deviceId" bytes_kind
    ∷ plain 393217 "control_types" choice_kind
    ∷ []

abbrev pub buffers_specs : List PropertySpec
buffers_specs =
    plain 1 "buffers" int_kind
    ∷ plain 2 "blocks" int_kind
    ∷ plain 3 "size" int_kind
    ∷ plain 4 "stride" int_kind
    ∷ plain 5 "align" int_kind
    ∷ plain 6 "dataType" choice_kind
    ∷ plain 7 "metaType" int_kind
    ∷ []

abbrev pub meta_specs : List PropertySpec
meta_specs = plain 1 "type" id_kind ∷ plain 2 "size" int_kind ∷ plain 3 "features" int_kind ∷ []

abbrev pub io_specs : List PropertySpec
io_specs = plain 1 "id" id_kind ∷ plain 2 "size" int_kind ∷ []

abbrev pub profile_specs : List PropertySpec
profile_specs =
    plain 1 "index" int_kind
    ∷ plain 2 "name" string_kind
    ∷ plain 3 "description" string_kind
    ∷ plain 4 "priority" int_kind
    ∷ enumerated 5 "available" spa_param_availability
    ∷ shaped 6 "info" struct_kind dict_info
    ∷ shaped 7 "classes" struct_kind profile_classes
    ∷ plain 8 "save" bool_kind
    ∷ []

abbrev pub port_config_specs : List PropertySpec
port_config_specs =
    enumerated 1 "direction" spa_direction
    ∷ enumerated 2 "mode" spa_param_port_config_mode
    ∷ plain 3 "monitor" bool_kind
    ∷ plain 4 "control" bool_kind
    ∷ shaped 5 "format" object_kind object_format
    ∷ []

abbrev pub route_specs : List PropertySpec
route_specs =
    plain 1 "index" int_kind
    ∷ enumerated 2 "direction" spa_direction
    ∷ plain 3 "device" int_kind
    ∷ plain 4 "name" string_kind
    ∷ plain 5 "description" string_kind
    ∷ plain 6 "priority" int_kind
    ∷ enumerated 7 "available" spa_param_availability
    ∷ shaped 8 "info" struct_kind dict_info
    ∷ shaped 9 "profiles" array_kind array_int
    ∷ shaped 10 "props" object_kind object_props
    ∷ shaped 11 "devices" array_kind array_int
    ∷ plain 12 "profile" int_kind
    ∷ plain 13 "save" bool_kind
    ∷ []

abbrev pub latency_specs : List PropertySpec
latency_specs =
    enumerated 1 "direction" spa_direction
    ∷ plain 2 "minQuantum" float_kind
    ∷ plain 3 "maxQuantum" float_kind
    ∷ plain 4 "minRate" int_kind
    ∷ plain 5 "maxRate" int_kind
    ∷ plain 6 "minNs" long_kind
    ∷ plain 7 "maxNs" long_kind
    ∷ []

abbrev pub process_latency_specs : List PropertySpec
process_latency_specs =
    plain 1 "quantum" float_kind ∷ plain 2 "rate" int_kind ∷ plain 3 "ns" long_kind ∷ []

abbrev pub tag_specs : List PropertySpec
tag_specs = enumerated 1 "direction" spa_direction ∷ shaped 2 "info" struct_kind dict_info ∷ []

abbrev pub param_dict_specs : List PropertySpec
param_dict_specs = shaped 1 "info" struct_kind dict_info ∷ []
