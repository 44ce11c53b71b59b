-- ===== src/Controls/Bounds.antt =====
-- What the audio properties of controls.py may be.
use wyreplumber.Prelude.{
  ℕ, ◌≤◌, String, not, ◌&&◌, List, [], ◌∷◌, Option, none, some, ok, ◌≡◌, arith, >>=-eq-ok, ◌>>◌,
  ok_eq, length, leb, All, traverse, type_error, value_error, require,
}
use wyreplumber.Value.{Value}
use wyreplumber.Value.Checks.{sequence}
use wyreplumber.Value.Floats.{IsVolume, is_finite, is_negative, is_number, to_double}
use wyreplumber.Builtins.{Builtins}
use wyreplumber.Controls.Pods.{
  AudioProperties, AudioFields, non_negative_finite, to_float32, audio_properties, volume_of,
  mute_of, channels_of,
}

-- Volumes that are volumes, and channel volumes that are not empty.
pub record AreVolumes (p : AudioProperties) : Type 0 where
  pub volume : (x : ℕ) → p.volume ≡ some x → IsVolume x
  pub channels : (xs : List ℕ) → p.channel_volumes ≡ some xs → (1 ≤ length xs) × All IsVolume xs

module _ (py : Builtins) where
  non_negative_finite-IsVolume : (v : Value) (x : ℕ) → non_negative_finite py v ≡ ok x → IsVolume x
  unfolding non_negative_finite
  non_negative_finite-IsVolume v x h =
      let (_, _, after_type) = >>=-eq-ok (require (is_number v) type_error) _ h in
      let (y, _, after_double) = >>=-eq-ok (to_double py v) _ after_type in checked y x after_double
    where
      checked :
          (y x : ℕ)
          → require (is_finite y && not (is_negative y)) value_error >> ok y ≡ ok x
          → IsVolume x
      checked y x h = record { finite = ground (arith, h); non_negative = ground (arith, h) }

  traverse-IsVolume :
      (vs : List Value) (xs : List ℕ)
      → traverse (non_negative_finite py) vs ≡ ok xs
      → All IsVolume xs
  traverse-IsVolume [] [] h = tt
  traverse-IsVolume [] (x ∷ xs) h = absurd (ground (arith, h))
  traverse-IsVolume (v ∷ vs) xs h =
      let (y, checked, after) = >>=-eq-ok (non_negative_finite py v) _ h in
      let (ys, rest, done) = >>=-eq-ok (traverse (non_negative_finite py) vs) _ after in
      rw (← ok_eq done) (non_negative_finite-IsVolume v y checked, traverse-IsVolume vs ys rest)

  volume_of-IsVolume :
      (given : Option Value) (volume : Option ℕ) (expected : List (String × Value)) (x : ℕ)
      → volume_of py given ≡ ok (volume, expected)
      → volume ≡ some x
      → IsVolume x
  volume_of-IsVolume none volume expected x h named = absurd (ground (arith, h, named))
  volume_of-IsVolume (some v) volume expected x h named =
      let (y, checked, after) = >>=-eq-ok (non_negative_finite py v) _ h in
      let (z, _, done) = >>=-eq-ok (to_float32 py y) _ after in
      let same : y ≡ x = ground (arith, done, named) in
      rw (← same) (non_negative_finite-IsVolume v y checked)

  channels_of-AreVolumes :
      (given : Option Value) (channels : Option (List ℕ)) (expected : List (String × Value))
      (xs : List ℕ)
      → channels_of py given ≡ ok (channels, expected)
      → channels ≡ some xs
      → (1 ≤ length xs) × All IsVolume xs
  channels_of-AreVolumes none channels expected xs h named = absurd (ground (arith, h, named))
  channels_of-AreVolumes (some v) channels expected xs h named =
      let (items, _, after_items) = >>=-eq-ok (sequence v) _ h in
      let (ys, checked, after_checks) =
        >>=-eq-ok (traverse (non_negative_finite py) items) _ after_items in
      let (_, counted, after_count) =
        >>=-eq-ok (require (leb 1 (length ys)) value_error) _ after_checks in
      let (zs, _, done) = >>=-eq-ok (traverse (to_float32 py) ys) _ after_count in
      let same : ys ≡ xs = ground (arith, done, named) in
      rw (← same) (ground (arith, counted), traverse-IsVolume items ys checked)

  -- The audio properties that a control writes are finite and not negative, whatever numbers it is
  -- given, and channel volumes are not empty.
  pub audio_properties-AreVolumes :
      (args : AudioFields) (p : AudioProperties) (expected : List (String × Value))
      → audio_properties py args ≡ ok (p, expected)
      → AreVolumes p
  unfolding audio_properties
  audio_properties-AreVolumes args p expected h =
      let ((volume, a), first, after_volume) = >>=-eq-ok (volume_of py args.volume) _ h in
      let ((mute, b), _, after_mute) = >>=-eq-ok (mute_of py args.mute) _ after_volume in
      let ((channels, c), third, done) =
        >>=-eq-ok (channels_of py args.channel_volumes) _ after_mute in
      record {
        volume = λ x named.
            volume_of-IsVolume args.volume volume a x first (ground (arith, done, named));
        channels = λ xs named.
            channels_of-AreVolumes args.channel_volumes channels c xs third
              (ground (arith, done, named));
      }
