-- ===== src/Tests/Pods.antt =====
-- Pods, audio properties and link properties.
use wyreplumber.Prelude.{◌≡◌, refl, ok, some, List, [], ◌∷◌, true, ℕ}
use wyreplumber.Value.{
  null, str, bool, float, list, tuple, dict, nil, cons, Fields, end, field, text,
}
use wyreplumber.Value.Checks.{boolean, sequence}
use wyreplumber.Value.Floats.{to_double, is_finite, is_negative}
use wyreplumber.Spa.Wire.{pack_pod, parse_pod_header}
use wyreplumber.Controls.Links.{validated_link_properties}
use wyreplumber.Controls.Reserved.{ArePlain, validated_link_properties-ArePlain}
use wyreplumber.Controls.Pods.{
  Builder, props, AudioFields, AudioProperties, audio_properties, parameter_pod_bytes, IsWhole,
  parameter_pod_bytes-IsWhole,
}
use wyreplumber.Controls.Bounds.{AreVolumes, audio_properties-AreVolumes}
use wyreplumber.Tests.Fixtures.{python}

-- A pod of type 4 with one body of four bytes.
abbrev four : List ℕ
four = 4 ∷ 0 ∷ 0 ∷ 0 ∷ 4 ∷ 0 ∷ 0 ∷ 0 ∷ 9 ∷ 9 ∷ 9 ∷ 9 ∷ 0 ∷ 0 ∷ 0 ∷ 0 ∷ []

packed : pack_pod 4 (9 ∷ 9 ∷ 9 ∷ 9 ∷ []) ≡ ok four
unfolding pack_pod
packed = refl

abbrev builder : Builder
builder = λ value pod_type. ok four

abbrev audio : AudioProperties
audio = record { volume = some 7; mute = some true; channel_volumes = some (1 ∷ 2 ∷ []) }

built : parameter_pod_bytes builder (props audio) null ≡ ok four
unfolding parameter_pod_bytes parse_pod_header
built = refl

parameter_pod_bytes-IsWhole_example : IsWhole four
parameter_pod_bytes-IsWhole_example =
    parameter_pod_bytes-IsWhole builder (props audio) null four built

abbrev given : AudioFields
given = record {
  volume = some (float 7);
  mute = some (bool true);
  channel_volumes = some (list (cons (float 1) (cons (float 2) nil)));
}

accepted :
    audio_properties python given
    ≡ ok (
      audio,
      ("volume", float 7)
          ∷ ("mute", bool true)
          ∷ ("channel_volumes", tuple (cons (float 1) (cons (float 2) nil)))
          ∷ [],
    )
unfolding audio_properties boolean sequence to_double is_finite is_negative
accepted = refl

audio_properties-AreVolumes_example : AreVolumes audio
audio_properties-AreVolumes_example = audio_properties-AreVolumes python given audio _ accepted

abbrev named : Fields
named = field (text "media.name") (str "left") end

validated : validated_link_properties (dict named) ≡ ok named
unfolding validated_link_properties
validated = refl

validated_link_properties-ArePlain_example : ArePlain named
validated_link_properties-ArePlain_example =
    validated_link_properties-ArePlain (dict named) named validated
