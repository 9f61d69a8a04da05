-- ===== src/Audio/Listed.antt =====
-- What the lists of audio devices hold: decodeAudioDeviceProbeOutput of bridge_service/src/main.go.
use Prim.Native.String
use hwcontrol.Base.{
  ℕ, ◌≡◌, refl, String, Bool, true, false, not, ◌||◌, ◌&&◌, List, [], ◌∷◌, ltb, all, str_eq, inl,
  inr, Bool-cases,
}
use hwcontrol.Base.Result.{Result, ok, err, Result-cases, ◌>>=◌}
use hwcontrol.Int.{pos, ltb_ℤ}
use hwcontrol.Text.{trim_space}
use hwcontrol.Text.Clean.{is_rooted, dir}
use hwcontrol.Text.Hex
use hwcontrol.Audio.Probe.{
  AudioProbeDevice, AudioProbeOutput, AudioDevice, AudioDevices, contains_nul, name_bytes,
  convert_device, convert_devices, decoded_output, decode_audio_device_probe_output, is_regular,
  first_regular, regular_probe, packaged_probe, ProbeReadings, resolve_audio_probe_path, candidates,
}

-- An index that is not negative, and a name that is not blank and has no NUL.
unfoldable pub is_listable : AudioDevice → Bool
unfolding trim_space contains_nul
is_listable device =
    not (ltb_ℤ device.index (pos 0))
    && not (str_eq (trim_space device.name) "" || contains_nul device.name)

abbrev IsListed : Result AudioDevice → Type 0
IsListed (err e) = Unit
IsListed (ok device) = is_listable device ≡ true

abbrev AreListed : Result (List AudioDevice) → Type 0
AreListed (err e) = Unit
AreListed (ok devices) = all is_listable devices ≡ true

abbrev IsDeviceList : Result AudioDevices → Type 0
IsDeviceList (err e) = Unit
IsDeviceList (ok lists) =
    (all is_listable lists.capture ≡ true) × (all is_listable lists.playback ≡ true)

module _ (unmarshal : List ℕ → Result AudioProbeOutput)
    (to_valid_utf8 : List ℕ → String → String) where
  convert_device-IsListed :
      (device : AudioProbeDevice) → IsListed (convert_device unmarshal to_valid_utf8 device)
  unfolding convert_device is_listable
  convert_device-IsListed device = elim (Bool-cases (ltb_ℤ device.index (pos 0))) [
    | inl i ↦ rw i tt
    | inr i ↦ elim (Bool-cases (ltb 2048 (String.len device.name_hex))) [
      | inl l ↦ rw (i, l) tt
      | inr l ↦ elim (Result-cases (name_bytes (Hex.decode device.name_hex))) [
        | inl (e, b) ↦ rw (i, l, b) tt
        | inr (bytes, b) ↦
            elim (Bool-cases (
              str_eq (trim_space (to_valid_utf8 bytes "\\uFFFD")) ""
              || contains_nul (to_valid_utf8 bytes "\\uFFFD"))) [
                | inl n ↦ rw (i, l, b, n) tt
                | inr n ↦ rw (i, l, b, n, i, n) refl
              ]
      ]
    ]
  ]

  both_listed :
      (first : Result AudioDevice) (rest : Result (List AudioDevice))
      → IsListed first
      → AreListed rest
      → AreListed (first >>= λ d. rest >>= λ ds. ok (d ∷ ds))
  both_listed (err e) rest f r = tt
  both_listed (ok d) (err e) f r = tt
  both_listed (ok d) (ok ds) f r = rw (f, r) refl

  convert_devices-AreListed :
      (devices : List AudioProbeDevice)
      → AreListed (convert_devices unmarshal to_valid_utf8 devices)
  unfolding convert_devices
  convert_devices-AreListed [] = refl
  convert_devices-AreListed (d ∷ ds) =
      both_listed (convert_device unmarshal to_valid_utf8 d)
        (convert_devices unmarshal to_valid_utf8 ds) (convert_device-IsListed d)
        (convert_devices-AreListed ds)

  both_lists :
      (c p : Result (List AudioDevice))
      → AreListed c
      → AreListed p
      → IsDeviceList (
          c >>= λ capture.
          p >>= λ playback. ok record { capture = capture; playback = playback; local_only = true })
  both_lists (err e) p h k = tt
  both_lists (ok c) (err e) h k = tt
  both_lists (ok c) (ok p) h k = (h, k)

  output_listed :
      (o : Result AudioProbeOutput) → IsDeviceList (decoded_output unmarshal to_valid_utf8 o)
  output_listed (err e) = tt
  output_listed (ok output) =
      both_lists (convert_devices unmarshal to_valid_utf8 output.capture)
        (convert_devices unmarshal to_valid_utf8 output.playback)
        (convert_devices-AreListed output.capture) (convert_devices-AreListed output.playback)

  -- Whatever the probe prints, an output that decodes lists only devices whose index is not
  -- negative and whose name is not blank and has no NUL.
  decoded-IsDeviceList :
      (raw : List ℕ) → IsDeviceList (decode_audio_device_probe_output unmarshal to_valid_utf8 raw)
  unfolding decode_audio_device_probe_output
  decoded-IsDeviceList raw = output_listed (unmarshal raw)

-- The probe that is found is a regular file.
abbrev IsProbe : (String → Result Bool) → Result String → Type 0
IsProbe stat (err e) = Unit
IsProbe stat (ok path) = is_regular (stat path) ≡ true

configured-IsProbe :
    (stat : String → Result Bool) (path : String) → IsProbe stat (regular_probe path (stat path))
configured-IsProbe stat path = elim (Result-cases (stat path)) [
  | inl (e, h) ↦ rw h tt
  | inr (false, h) ↦ rw h tt
  | inr (true, h) ↦ rw (h, h) refl
]

first_regular-IsProbe :
    (stat : String → Result Bool) (paths : List String) → IsProbe stat (first_regular stat paths)
unfolding first_regular
first_regular-IsProbe stat [] = tt
first_regular-IsProbe stat (p ∷ ps) = elim (Bool-cases (is_regular (stat p))) [
  | inl h ↦ rw (h, h) refl
  | inr h ↦ rw h (first_regular-IsProbe stat ps)
]

packaged-IsProbe :
    (stat : String → Result Bool) (executable : Result String)
    → IsProbe stat (packaged_probe stat executable)
packaged-IsProbe stat (err e) = tt
packaged-IsProbe stat (ok executable) = first_regular-IsProbe stat (candidates (dir executable))

-- The probe that is run is a regular file, whether it was configured or found beside the bridge.
found_path-IsProbe : (seen : ProbeReadings) → IsProbe seen.stat (resolve_audio_probe_path seen)
unfolding resolve_audio_probe_path
found_path-IsProbe seen = elim (Bool-cases (str_eq (trim_space seen.env_probe) "")) [
  | inl e ↦ rw e (packaged-IsProbe seen.stat seen.executable)
  | inr e ↦ elim (Bool-cases (is_rooted (trim_space seen.env_probe))) [
    | inr r ↦ rw (e, r) tt
    | inl r ↦ rw (e, r) (configured-IsProbe seen.stat (trim_space seen.env_probe))
  ]
]
