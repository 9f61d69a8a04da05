-- ===== src/Fan/Discover.antt =====
-- The discovery of fan channels in /sys/class/hwmon: bridge_service/src/fan_control_linux.go.
use hwcontrol.Base.{
  ℕ, String, Bool, true, false, not, ◌&&◌, ◌||◌, List, [], ◌∷◌, Option, none, some, take, any,
  if◌then◌else◌, str_eq,
}
use hwcontrol.Base.Result.{Result, ok, err}
use hwcontrol.Base.Sorting.{SliceSort}
use hwcontrol.Int.{ℤ, pos, eqb_ℤ, pos_part, leb_ℤ}
use hwcontrol.Float.{Float64, lit}
use hwcontrol.Float.Arith.{mul, div}
use hwcontrol.Text.{trim_space}
use hwcontrol.Text.Clean.{clean, dir, join}
use hwcontrol.Text.Decimal.{format_int}
use hwcontrol.Text.Hex
use hwcontrol.Text.Number.{atoi}
use hwcontrol.Command.{◌<>◌}
use hwcontrol.Telemetry.{is_finite_non_negative}
use hwcontrol.Fan.{LinuxFanTarget}
use hwcontrol.Fan.Configured.{
  canonical_linux_hwmon_device_path, parse_linux_pwm_number, path_within_root,
  linux_configured_pwm_paths,
}

-- What one discovery sees of the files: filepath.Glob, filepath.EvalSymlinks, os.Stat, os.ReadFile,
-- and opening a file for writing; and strconv.ParseFloat.
pub record Sysfs : Type 0 where
  pub glob : String → Option (List String)
  pub eval_symlinks : String → Option String
  pub stat : String → Bool
  pub read_file : String → Option String
  pub open_write : String → Bool
  pub parse_float : String → Option Float64

abbrev or_else : Option String → String → String
or_else none s = s
or_else (some t) s = t

abbrev nonempty_or : String → String → String
nonempty_or s t = if str_eq s "" then t else s

unfoldable pub driver_name : Option String → String
unfolding trim_space
driver_name none = "hwmon"
driver_name (some text) = nonempty_or (trim_space text) "hwmon"

-- Why a target cannot be controlled, if it cannot.
abbrev pub reason_of_mode : ℤ → Bool → Option ℤ → Option String
reason_of_mode number writable none = some "PWM control mode is invalid"
reason_of_mode number writable (some enable) =
    if not (eqb_ℤ enable (pos 1))
    then some (
        "PWM is not in manual mode (pwm"
        <> format_int number
        <> "_enable="
        <> format_int enable
        <> "); the application will not switch modes automatically")
    else if not writable
    then some "PWM control target is not writable by the bridge service"
    else none

unfoldable pub reason_of_enable : ℤ → Bool → Option String → Option String
unfolding trim_space atoi
reason_of_enable number writable none = some "PWM control mode cannot be read"
reason_of_enable number writable (some text) =
    reason_of_mode number writable (atoi (trim_space text))

unfoldable pub fan_input_path : String → ℤ → String
unfolding join dir
fan_input_path pwm_path number = join (dir pwm_path) ("fan" <> format_int number <> "_input")

unfoldable pub enable_path : String → ℤ → String
unfolding join dir
enable_path pwm_path number = join (dir pwm_path) ("pwm" <> format_int number <> "_enable")

unfoldable pub monitor_only_reason : Sysfs → String → ℤ → Option String
unfolding fan_input_path enable_path reason_of_enable
monitor_only_reason fs pwm_path number =
    if not (fs.stat (fan_input_path pwm_path number))
    then some ("matching fan" <> format_int number <> "_input RPM sensor is unavailable")
    else reason_of_enable number (fs.open_write pwm_path)
        (fs.read_file (enable_path pwm_path number))

-- A reading of the RPM sensor that the code takes.
abbrev valid_rpm : Option Float64 → Option Float64
valid_rpm none = none
valid_rpm (some rpm) = if is_finite_non_negative rpm then some rpm else none

unfoldable pub read_rpm : Sysfs → Option String → Option Float64
unfolding trim_space is_finite_non_negative
read_rpm fs none = none
read_rpm fs (some text) = valid_rpm (fs.parse_float (trim_space text))

-- The duty that the PWM file holds, in percent.
abbrev percent_of_duty : Option ℤ → Option Float64
percent_of_duty none = none
percent_of_duty (some pwm) =
    if leb_ℤ (pos 0) pwm && leb_ℤ pwm (pos 255)
    then some (div (mul (lit (pos_part pwm)) (lit 100)) (lit 255))
    else none

unfoldable pub read_percent : Option String → Option Float64
unfolding trim_space atoi
read_percent none = none
read_percent (some text) = percent_of_duty (atoi (trim_space text))

abbrev pub is_some {ℓ} : {A : Type ℓ} → Option A → Bool
is_some none = false
is_some (some a) = true

abbrev or_zero : Option Float64 → Float64
or_zero none = lit 0
or_zero (some x) = x

abbrev or_empty : Option String → String
or_empty none = ""
or_empty (some s) = s

-- `sha256` gives the digest of a text.
module _ (sha256 : String → List ℕ) where
  unfoldable pub stable_linux_fan_channel_id : String → ℤ → String
  unfolding clean Hex.encode
  stable_linux_fan_channel_id device_path pwm_number =
      Hex.encode (take 8 (sha256 (clean device_path <> "#pwm" <> format_int pwm_number)))

  -- The identifier, given those that are taken.
  unfoldable pub channel_id : List String → String → String → ℤ → String
  unfolding stable_linux_fan_channel_id canonical_linux_hwmon_device_path
  channel_id seen_ids id_path name number =
      let id =
        stable_linux_fan_channel_id (canonical_linux_hwmon_device_path id_path <> "#" <> name)
          number in
      if any (str_eq id) seen_ids
      then stable_linux_fan_channel_id (id_path <> "#" <> name) number
      else id

  unfoldable pub found_target : Sysfs → List String → String → ℤ → LinuxFanTarget
  unfolding driver_name channel_id fan_input_path monitor_only_reason read_rpm read_percent
  found_target fs seen_ids pwm_path number =
      let device_dir = dir pwm_path in
      let id_path = or_else (fs.eval_symlinks device_dir) device_dir in
      let name = driver_name (fs.read_file (join device_dir "name")) in
      let reason = monitor_only_reason fs pwm_path number in
      let rpm = read_rpm fs (fs.read_file (fan_input_path pwm_path number)) in
      let percent = read_percent (fs.read_file pwm_path) in
      record {
        id = channel_id seen_ids id_path name number;
        pwm_path = pwm_path;
        fan_input = fan_input_path pwm_path number;
        name = name;
        supported = not (is_some reason);
        reason = or_empty reason;
        fan_rpm = or_zero rpm;
        rpm_available = is_some rpm;
        fan_percent = or_zero percent;
        percent_available = is_some percent;
      }

  -- The loop over the entries, with the paths and the identifiers seen so far.
  unfoldable pub discover_entries :
      Sysfs → String → List String → List String → List String → List LinuxFanTarget
  unfolding clean path_within_root parse_linux_pwm_number found_target
  discover_entries fs root seen_paths seen_ids [] = []
  discover_entries fs root seen_paths seen_ids (entry ∷ entries) =
      let pwm_path = clean entry in
      let skipped = discover_entries fs root seen_paths seen_ids entries in
      let unnumbered = discover_entries fs root (pwm_path ∷ seen_paths) seen_ids entries in
      if not (path_within_root root pwm_path) || any (str_eq pwm_path) seen_paths
      then skipped
      else elim (parse_linux_pwm_number pwm_path) [
        | none ↦ unnumbered
        | some number ↦
            let target = found_target fs seen_ids pwm_path number in
            target ∷ discover_entries fs root (pwm_path ∷ seen_paths) (target.id ∷ seen_ids) entries
      ]

  module _ (sorter : SliceSort (λ (s : String). s)) where
    abbrev pub discover_from : Sysfs → String → Option (List String) → List LinuxFanTarget
    discover_from fs root none = []
    discover_from fs root (some entries) = discover_entries fs root [] [] (sorter.sort entries)

    -- `configured` is nil where nothing is configured.
    unfoldable pub discover_linux_fan_targets :
        Sysfs → String → Option (List String) → List LinuxFanTarget
    unfolding clean join discover_entries
    discover_linux_fan_targets fs root none =
        discover_from fs (clean root) (fs.glob (join (clean root) "hwmon*/pwm[0-9]*"))
    discover_linux_fan_targets fs root (some configured) =
        discover_from fs (clean root) (some configured)

    abbrev pub discover_configured : Sysfs → Result (Option (List String)) → List LinuxFanTarget
    discover_configured fs (err e) = []
    discover_configured fs (ok configured) =
        discover_linux_fan_targets fs "/sys/class/hwmon" configured

    unfoldable pub linux_fan_channel_targets : Sysfs → String → String → List LinuxFanTarget
    unfolding linux_configured_pwm_paths discover_linux_fan_targets
    linux_fan_channel_targets fs env_pwms env_pwm =
        discover_configured fs (linux_configured_pwm_paths "/sys/class/hwmon" env_pwms env_pwm)
