-- ===== src/Audio/Probe.antt =====
-- The audio devices of the native probe: finding the probe, running it and decoding what it prints,
-- in bridge_service/src/main.go, on Linux.
use Prim.Native.String
use Prim.Native.Char.{code}
use hwcontrol.Base.{
  ℕ, String, Bool, true, false, not, ◌||◌, ◌==◌, List, [], ◌∷◌, Option, none, some, ltb, str_eq,
  if◌then◌else◌,
}
use hwcontrol.Base.Result.{Result, ok, err, fail_if, ◌>>=◌, ◌>>◌}
use hwcontrol.Int.{ℤ, pos, ltb_ℤ}
use hwcontrol.Command.{◌<>◌}
use hwcontrol.Text.{trim_space}
use hwcontrol.Text.Clean.{is_rooted, join, dir}
use hwcontrol.Text.Hex

pub record AudioProbeDevice : Type 0 where
  pub index : ℤ
  pub name_hex : String
  pub is_default : Bool

pub record AudioProbeOutput : Type 0 where
  pub capture : List AudioProbeDevice
  pub playback : List AudioProbeDevice

-- A device as the response lists it.
pub record AudioDevice : Type 0 where
  pub index : ℤ
  pub name : String
  pub is_default : Bool

pub record AudioDevices : Type 0 where
  pub capture : List AudioDevice
  pub playback : List AudioDevice
  pub local_only : Bool

-- strings.ContainsRune(name, 0)
unfoldable pub contains_nul : String → Bool
contains_nul String.[] = false
contains_nul (String.◌∷◌ c s) = code c == 0 || contains_nul s

abbrev pub name_bytes : Option (List ℕ) → Result (List ℕ)
name_bytes none = err "native audio device response contains invalid device name"
name_bytes (some []) = err "native audio device response contains invalid device name"
name_bytes (some (b ∷ bs)) = ok (b ∷ bs)

-- `unmarshal` is json.Unmarshal of the output, `to_valid_utf8` is strings.ToValidUTF8 of the bytes
-- with its replacement.
module _ (unmarshal : List ℕ → Result AudioProbeOutput)
    (to_valid_utf8 : List ℕ → String → String) where
  unfoldable pub convert_device : AudioProbeDevice → Result AudioDevice
  unfolding contains_nul trim_space
  convert_device device = do
    fail_if (ltb_ℤ device.index (pos 0) || ltb 2048 (String.len device.name_hex))
        "native audio device response contains invalid fields"
    bytes ← name_bytes (Hex.decode device.name_hex)
    fail_if
        (str_eq (trim_space (to_valid_utf8 bytes "\\uFFFD")) ""
          || contains_nul (to_valid_utf8 bytes "\\uFFFD"))
        "native audio device response contains an empty device name"
    ok record {
      index = device.index;
      name = to_valid_utf8 bytes "\\uFFFD";
      is_default = device.is_default;
    }

  unfoldable pub convert_devices : List AudioProbeDevice → Result (List AudioDevice)
  unfolding convert_device
  convert_devices [] = ok []
  convert_devices (device ∷ devices) = do
    converted ← convert_device device
    rest ← convert_devices devices
    ok (converted ∷ rest)

  abbrev pub decoded_output : Result AudioProbeOutput → Result AudioDevices
  decoded_output (err e) = err ("decode native audio device response: " <> e)
  decoded_output (ok output) = do
    capture ← convert_devices output.capture
    playback ← convert_devices output.playback
    ok record { capture = capture; playback = playback; local_only = true }

  unfoldable pub decode_audio_device_probe_output : List ℕ → Result AudioDevices
  decode_audio_device_probe_output raw = decoded_output (unmarshal raw)

-- What the search for the probe meets: os.Stat gives whether a file is regular.
pub record ProbeReadings : Type 0 where
  pub env_probe : String
  pub executable : Result String
  pub stat : String → Result Bool

abbrev pub regular_probe : String → Result Bool → Result String
regular_probe path (err e) = err ("inspect configured audio probe: " <> e)
regular_probe path (ok false) = err "configured audio probe is not a regular file"
regular_probe path (ok true) = ok path

abbrev pub is_regular : Result Bool → Bool
is_regular (err e) = false
is_regular (ok b) = b

-- No element of these joins is empty, so each is one filepath.Join.
unfoldable pub candidates : String → List String
unfolding join
candidates d =
    join d "hwcontrol_audio_probe"
    ∷ join d "native/hwcontrol_audio_probe"
    ∷ join d "bin/hwcontrol_audio_probe"
    ∷ join d "../build/audio_core/hwcontrol_audio_probe"
    ∷ join d "../build-windows/audio_core/Release/hwcontrol_audio_probe"
    ∷ join d "../build-windows/audio_core/hwcontrol_audio_probe"
    ∷ []

unfoldable pub first_regular : (String → Result Bool) → List String → Result String
first_regular stat [] = err (
    "native audio probe is not packaged; build hwcontrol_audio_probe and place it beside the bridge"
    <> " or set HWCONTROL_AUDIO_PROBE")
first_regular stat (path ∷ paths) =
    let rest = first_regular stat paths in if is_regular (stat path) then ok path else rest

abbrev pub packaged_probe : (String → Result Bool) → Result String → Result String
packaged_probe stat (err e) = err ("resolve bridge executable: " <> e)
packaged_probe stat (ok executable) = first_regular stat (candidates (dir executable))

unfoldable pub resolve_audio_probe_path : ProbeReadings → Result String
unfolding trim_space first_regular candidates
resolve_audio_probe_path seen =
    let configured = trim_space seen.env_probe in
    if not (str_eq configured "")
    then (if not (is_rooted configured)
        then err "HWCONTROL_AUDIO_PROBE must be an absolute path"
        else regular_probe configured (seen.stat configured))
    else packaged_probe seen.stat seen.executable

-- How the probe's run ended, within the five seconds it has.
pub data ProbeRun : Type 0 where
  timed_out : ProbeRun
  failed : (message : String) → ProbeRun
  printed : (output : List ℕ) → ProbeRun

module _ (unmarshal : List ℕ → Result AudioProbeOutput)
    (to_valid_utf8 : List ℕ → String → String) where
  abbrev pub after_run : ProbeRun → Result AudioDevices
  after_run timed_out = err "native audio device enumeration timed out"
  after_run (failed e) = err ("native audio device enumeration failed: " <> e)
  after_run (printed output) = decode_audio_device_probe_output unmarshal to_valid_utf8 output

  -- `run` is the probe of a path, started with --json.
  unfoldable pub audio_device_snapshot : ProbeReadings → (String → ProbeRun) → Result AudioDevices
  unfolding resolve_audio_probe_path decode_audio_device_probe_output
  audio_device_snapshot seen run = do probe ← resolve_audio_probe_path seen; after_run (run probe)
