-- ===== src/Spa/Enums.antt =====
-- The IntEnum classes of src/wyreplumber/_spa_pod_types.py: the names of their members and their
-- values. Two names with one value are one member.
use wyreplumber.Prelude.{ℕ, String, Bool, true, false, List, [], ◌∷◌, ◌==◌, if◌then◌else◌}

pub record EnumClass : Type 0 where
  pub class_name : String
  pub members : List (String × ℕ)

abbrev pub is_member : ℕ → List (String × ℕ) → Bool
is_member n [] = false
is_member n ((name, value) ∷ rest) = if value == n then true else is_member n rest

abbrev pub spa_direction : EnumClass
spa_direction = record { class_name = "SpaDirection"; members = ("INPUT", 0) ∷ ("OUTPUT", 1) ∷ [] }

abbrev pub spa_media_type : EnumClass
spa_media_type = record {
  class_name = "SpaMediaType";
  members =
      ("UNKNOWN", 0)
      ∷ ("AUDIO", 1)
      ∷ ("VIDEO", 2)
      ∷ ("IMAGE", 3)
      ∷ ("BINARY", 4)
      ∷ ("STREAM", 5)
      ∷ ("APPLICATION", 6)
      ∷ [];
}

abbrev pub spa_media_subtype : EnumClass
spa_media_subtype = record {
  class_name = "SpaMediaSubtype";
  members =
      ("UNKNOWN", 0)
      ∷ ("RAW", 1)
      ∷ ("DSP", 2)
      ∷ ("IEC958", 3)
      ∷ ("DSD", 4)
      ∷ ("START_AUDIO", 65536)
      ∷ ("MP3", 65537)
      ∷ ("AAC", 65538)
      ∷ ("VORBIS", 65539)
      ∷ ("WMA", 65540)
      ∷ ("RA", 65541)
      ∷ ("SBC", 65542)
      ∷ ("ADPCM", 65543)
      ∷ ("G723", 65544)
      ∷ ("G726", 65545)
      ∷ ("G729", 65546)
      ∷ ("AMR", 65547)
      ∷ ("GSM", 65548)
      ∷ ("ALAC", 65549)
      ∷ ("FLAC", 65550)
      ∷ ("APE", 65551)
      ∷ ("OPUS", 65552)
      ∷ ("AC3", 65553)
      ∷ ("EAC3", 65554)
      ∷ ("TRUEHD", 65555)
      ∷ ("DTS", 65556)
      ∷ ("MPEGH", 65557)
      ∷ ("START_VIDEO", 131072)
      ∷ ("H264", 131073)
      ∷ ("MJPG", 131074)
      ∷ ("DV", 131075)
      ∷ ("MPEGTS", 131076)
      ∷ ("H263", 131077)
      ∷ ("MPEG1", 131078)
      ∷ ("MPEG2", 131079)
      ∷ ("MPEG4", 131080)
      ∷ ("XVID", 131081)
      ∷ ("VC1", 131082)
      ∷ ("VP8", 131083)
      ∷ ("VP9", 131084)
      ∷ ("BAYER", 131085)
      ∷ ("H265", 131086)
      ∷ ("START_IMAGE", 196608)
      ∷ ("JPEG", 196609)
      ∷ ("START_BINARY", 262144)
      ∷ ("START_STREAM", 327680)
      ∷ ("MIDI", 327681)
      ∷ ("START_APPLICATION", 393216)
      ∷ ("CONTROL", 393217)
      ∷ [];
}

abbrev pub spa_param_availability : EnumClass
spa_param_availability = record {
  class_name = "SpaParamAvailability";
  members = ("UNKNOWN", 0) ∷ ("NO", 1) ∷ ("YES", 2) ∷ [];
}

abbrev pub spa_param_bitorder : EnumClass
spa_param_bitorder = record {
  class_name = "SpaParamBitorder";
  members = ("UNKNOWN", 0) ∷ ("MSB", 1) ∷ ("LSB", 2) ∷ [];
}

abbrev pub spa_param_port_config_mode : EnumClass
spa_param_port_config_mode = record {
  class_name = "SpaParamPortConfigMode";
  members = ("NONE", 0) ∷ ("PASSTHROUGH", 1) ∷ ("CONVERT", 2) ∷ ("DSP", 3) ∷ [];
}

abbrev pub spa_audio_format : EnumClass
spa_audio_format = record {
  class_name = "SpaAudioFormat";
  members =
      ("UNKNOWN", 0)
      ∷ ("ENCODED", 1)
      ∷ ("START_INTERLEAVED", 256)
      ∷ ("S8", 257)
      ∷ ("U8", 258)
      ∷ ("S16_LE", 259)
      ∷ ("S16_BE", 260)
      ∷ ("U16_LE", 261)
      ∷ ("U16_BE", 262)
      ∷ ("S24_32_LE", 263)
      ∷ ("S24_32_BE", 264)
      ∷ ("U24_32_LE", 265)
      ∷ ("U24_32_BE", 266)
      ∷ ("S32_LE", 267)
      ∷ ("S32_BE", 268)
      ∷ ("U32_LE", 269)
      ∷ ("U32_BE", 270)
      ∷ ("S24_LE", 271)
      ∷ ("S24_BE", 272)
      ∷ ("U24_LE", 273)
      ∷ ("U24_BE", 274)
      ∷ ("S20_LE", 275)
      ∷ ("S20_BE", 276)
      ∷ ("U20_LE", 277)
      ∷ ("U20_BE", 278)
      ∷ ("S18_LE", 279)
      ∷ ("S18_BE", 280)
      ∷ ("U18_LE", 281)
      ∷ ("U18_BE", 282)
      ∷ ("F32_LE", 283)
      ∷ ("F32_BE", 284)
      ∷ ("F64_LE", 285)
      ∷ ("F64_BE", 286)
      ∷ ("ULAW", 287)
      ∷ ("ALAW", 288)
      ∷ ("START_PLANAR", 512)
      ∷ ("U8P", 513)
      ∷ ("S16P", 514)
      ∷ ("S24_32P", 515)
      ∷ ("S32P", 516)
      ∷ ("S24P", 517)
      ∷ ("F32P", 518)
      ∷ ("F64P", 519)
      ∷ ("S8P", 520)
      ∷ ("START_OTHER", 1024)
      ∷ ("DSP_S32", 515)
      ∷ ("DSP_F32", 518)
      ∷ ("DSP_F64", 519)
      ∷ [];
}

abbrev pub spa_audio_channel : EnumClass
spa_audio_channel = record {
  class_name = "SpaAudioChannel";
  members =
      ("UNKNOWN", 0)
      ∷ ("NA", 1)
      ∷ ("MONO", 2)
      ∷ ("FL", 3)
      ∷ ("FR", 4)
      ∷ ("FC", 5)
      ∷ ("LFE", 6)
      ∷ ("SL", 7)
      ∷ ("SR", 8)
      ∷ ("FLC", 9)
      ∷ ("FRC", 10)
      ∷ ("RC", 11)
      ∷ ("RL", 12)
      ∷ ("RR", 13)
      ∷ ("TC", 14)
      ∷ ("TFL", 15)
      ∷ ("TFC", 16)
      ∷ ("TFR", 17)
      ∷ ("TRL", 18)
      ∷ ("TRC", 19)
      ∷ ("TRR", 20)
      ∷ ("RLC", 21)
      ∷ ("RRC", 22)
      ∷ ("FLW", 23)
      ∷ ("FRW", 24)
      ∷ ("LFE2", 25)
      ∷ ("FLH", 26)
      ∷ ("FCH", 27)
      ∷ ("FRH", 28)
      ∷ ("TFLC", 29)
      ∷ ("TFRC", 30)
      ∷ ("TSL", 31)
      ∷ ("TSR", 32)
      ∷ ("LLFE", 33)
      ∷ ("RLFE", 34)
      ∷ ("BC", 35)
      ∷ ("BLC", 36)
      ∷ ("BRC", 37)
      ∷ ("START_AUX", 4096)
      ∷ ("AUX0", 4096)
      ∷ [];
}

abbrev pub spa_audio_iec958_codec : EnumClass
spa_audio_iec958_codec = record {
  class_name = "SpaAudioIec958Codec";
  members =
      ("UNKNOWN", 0)
      ∷ ("PCM", 1)
      ∷ ("DTS", 2)
      ∷ ("AC3", 3)
      ∷ ("MPEG", 4)
      ∷ ("MPEG2_AAC", 5)
      ∷ ("EAC3", 6)
      ∷ ("TRUEHD", 7)
      ∷ ("DTSHD", 8)
      ∷ [];
}

abbrev pub spa_audio_aac_stream_format : EnumClass
spa_audio_aac_stream_format = record {
  class_name = "SpaAudioAACStreamFormat";
  members =
      ("UNKNOWN", 0)
      ∷ ("RAW", 1)
      ∷ ("MP2ADTS", 2)
      ∷ ("MP4ADTS", 3)
      ∷ ("MP4LOAS", 4)
      ∷ ("MP4LATM", 5)
      ∷ ("ADIF", 6)
      ∷ ("MP4FF", 7)
      ∷ ("CUSTOM", 65536)
      ∷ [];
}

abbrev pub spa_audio_wma_profile : EnumClass
spa_audio_wma_profile = record {
  class_name = "SpaAudioWMAProfile";
  members =
      ("UNKNOWN", 0)
      ∷ ("WMA7", 1)
      ∷ ("WMA8", 2)
      ∷ ("WMA9", 3)
      ∷ ("WMA10", 4)
      ∷ ("WMA9_PRO", 5)
      ∷ ("WMA9_LOSSLESS", 6)
      ∷ ("WMA10_LOSSLESS", 7)
      ∷ ("CUSTOM", 65536)
      ∷ [];
}

abbrev pub spa_audio_amr_band_mode : EnumClass
spa_audio_amr_band_mode = record {
  class_name = "SpaAudioAMRBandMode";
  members = ("UNKNOWN", 0) ∷ ("NB", 1) ∷ ("WB", 2) ∷ [];
}

abbrev pub spa_audio_mp3_channel_mode : EnumClass
spa_audio_mp3_channel_mode = record {
  class_name = "SpaAudioMP3ChannelMode";
  members = ("UNKNOWN", 0) ∷ ("MONO", 1) ∷ ("STEREO", 2) ∷ ("JOINTSTEREO", 3) ∷ ("DUAL", 4) ∷ [];
}

abbrev pub spa_audio_dts_ext_type : EnumClass
spa_audio_dts_ext_type = record {
  class_name = "SpaAudioDTSExtType";
  members = ("UNKNOWN", 0) ∷ ("NONE", 1) ∷ ("HD_HRA", 2) ∷ ("HD_MA", 3) ∷ [];
}

abbrev pub spa_audio_volume_ramp_scale : EnumClass
spa_audio_volume_ramp_scale = record {
  class_name = "SpaAudioVolumeRampScale";
  members = ("INVALID", 0) ∷ ("LINEAR", 1) ∷ ("CUBIC", 2) ∷ [];
}

abbrev pub spa_bluetooth_audio_codec : EnumClass
spa_bluetooth_audio_codec = record {
  class_name = "SpaBluetoothAudioCodec";
  members =
      ("START", 0)
      ∷ ("SBC", 1)
      ∷ ("SBC_XQ", 2)
      ∷ ("MPEG", 3)
      ∷ ("AAC", 4)
      ∷ ("AAC_ELD", 5)
      ∷ ("APTX", 6)
      ∷ ("APTX_HD", 7)
      ∷ ("LDAC", 8)
      ∷ ("APTX_LL", 9)
      ∷ ("APTX_LL_DUPLEX", 10)
      ∷ ("FASTSTREAM", 11)
      ∷ ("FASTSTREAM_DUPLEX", 12)
      ∷ ("LC3PLUS_HR", 13)
      ∷ ("OPUS_05", 14)
      ∷ ("OPUS_05_51", 15)
      ∷ ("OPUS_05_71", 16)
      ∷ ("OPUS_05_DUPLEX", 17)
      ∷ ("OPUS_05_PRO", 18)
      ∷ ("OPUS_G", 19)
      ∷ ("CVSD", 256)
      ∷ ("MSBC", 257)
      ∷ ("LC3_SWB", 258)
      ∷ ("LC3_A127", 259)
      ∷ ("LC3", 512)
      ∷ ("G722", 768)
      ∷ [];
}
