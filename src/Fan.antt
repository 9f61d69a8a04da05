-- ===== src/Fan.antt =====
-- Fan control: bridge_service/src/fan_control.go and the Linux hwmon backend of
-- fan_control_linux.go. A target list is what one discovery of /sys/class/hwmon returns; each
-- function that discovers takes the list that it finds.
pub mod Duty
pub mod Channels
pub mod Configured
pub mod Discover
pub mod Found
pub mod Manual
use hwcontrol.Base.{
  ℕ, ◌≤◌, String, Bool, true, false, not, ◌&&◌, ◌||◌, ◌==◌, ◌≡◌, List, [], ◌∷◌, Option, none, some,
  map, if◌then◌else◌, str_eq, length,
}
use hwcontrol.Base.Result.{Result, ok, err, fail_if, ◌>>=◌, ◌>>◌}
use hwcontrol.Int.{ℤ, pos, negsuc, ltb_ℤ}
use hwcontrol.Float
use hwcontrol.Float.{Float64, lit}
use hwcontrol.Float.Arith.{mul, div, to_int}
use hwcontrol.Text.Decimal.{format_int}
use hwcontrol.Text.Hex
use hwcontrol.Text.Path.{base, trim_prefix}
use hwcontrol.Command.{◌<>◌}
use hwcontrol.Telemetry.{FanChannel, is_finite_non_negative}
use Prim.Native.String

pub record FanControlInfo : Type 0 where
  pub supported : Bool
  pub backend : String
  pub handle : String
  pub reason : String

unfoldable pub fan_control_unavailable : String → FanControlInfo
fan_control_unavailable reason = record {
  supported = false;
  backend = "monitor-only";
  handle = "";
  reason = reason;
}

abbrev pub fan_percent_message : String
fan_percent_message = "fan percent must be greater than 0 and at most 100; zero can stop the fan"

unfoldable pub validate_fan_percent : Float64 → Result (Unit {0})
unfolding is_finite_non_negative
validate_fan_percent percent =
    fail_if
      (not (is_finite_non_negative percent)
        || Float.le percent (lit 0)
        || Float.lt (lit 100) percent)
      fan_percent_message

unfoldable pub valid_fan_channel_id : String → Bool
unfolding Hex.decode
valid_fan_channel_id id = if not (String.len id == 16) then false else Hex.is_hex id

unfoldable pub controllable : FanChannel → Bool
controllable channel =
    channel.supported
    && valid_fan_channel_id channel.id
    && not (str_eq channel.backend "")
    && not (str_eq channel.backend "monitor-only")

unfoldable pub any_controllable_fan_channel : List FanChannel → Bool
unfolding controllable
any_controllable_fan_channel [] = false
any_controllable_fan_channel (channel ∷ rest) =
    controllable channel || any_controllable_fan_channel rest

pub record LinuxFanTarget : Type 0 where
  pub id : String
  pub pwm_path : String
  pub fan_input : String
  pub name : String
  pub supported : Bool
  pub reason : String
  pub fan_rpm : Float64
  pub rpm_available : Bool
  pub fan_percent : Float64
  pub percent_available : Bool

unfoldable pub linux_fan_targets : List LinuxFanTarget → List LinuxFanTarget
linux_fan_targets [] = []
linux_fan_targets (target ∷ rest) =
    let kept = linux_fan_targets rest in if target.supported then target ∷ kept else kept

unfoldable pub fan_channel : LinuxFanTarget → FanChannel
unfolding base trim_prefix
fan_channel target = record {
  id = target.id;
  name = target.name <> " PWM " <> trim_prefix (base target.pwm_path) "pwm";
  backend = "linux-hwmon";
  supported = target.supported;
  fan_rpm = target.fan_rpm;
  rpm_available = target.rpm_available;
  fan_percent = target.fan_percent;
  percent_available = target.percent_available;
  reason = target.reason;
}

unfoldable pub list_fan_channels : List LinuxFanTarget → List FanChannel
list_fan_channels all = map fan_channel all

choose : List LinuxFanTarget → FanControlInfo
unfolding fan_control_unavailable
choose [] =
    fan_control_unavailable "no writable manual-mode hwmon PWM target with a matching RPM sensor"
choose (target ∷ []) = record {
  supported = true;
  backend = "linux-hwmon";
  handle = target.pwm_path;
  reason = target.name;
}
choose (target ∷ second ∷ rest) =
    fan_control_unavailable "multiple fan channels detected; use individual fan-channel control"

unfoldable pub detect_fan_control : List LinuxFanTarget → FanControlInfo
unfolding choose linux_fan_targets
detect_fan_control all = choose (linux_fan_targets all)

-- One os.WriteFile: the path and the text.
pub record PwmWrite : Type 0 where
  pub path : String
  pub text : String

-- The error that os.WriteFile reports for a path, if any.
abbrev pub WriteFault : Type 0
WriteFault = String → Option String

-- What a write operation returns, and the writes that it made.
abbrev pub Written : Type 0
Written = Result (Unit {0}) × List PwmWrite

unfoldable pub duty : Float64 → ℤ
duty percent = to_int (div (mul percent (lit 255)) (lit 100))

unfoldable pub clamp_duty : ℤ → ℤ
clamp_duty value =
    let value = if ltb_ℤ value (pos 0) then pos 0 else value in
    if ltb_ℤ (pos 255) value then pos 255 else value

abbrev pub duty_text : ℤ → String
duty_text value = format_int value <> "\n"

fault_result : String → Option String → Result (Unit {0})
fault_result prefix none = ok tt
fault_result prefix (some e) = err (prefix <> e)

unfoldable pub write_linux_fan_target : WriteFault → LinuxFanTarget → Float64 → Written
unfolding fault_result
write_linux_fan_target fault target percent = (
  fault_result ("write " <> base target.pwm_path <> ": ") (fault target.pwm_path),
  record { path = target.pwm_path; text = duty_text (clamp_duty (duty percent)) } ∷ [],
)

-- The loop over the targets.
unfoldable pub write_channel : WriteFault → List LinuxFanTarget → String → Float64 → Written
write_channel fault [] id percent =
    (err "fan channel is not currently supported or its hardware mapping changed", [])
write_channel fault (target ∷ rest) id percent =
    let next = write_channel fault rest id percent in
    if not (str_eq target.id id)
    then next
    else if not target.supported
    then (err ("fan channel is monitor-only: " <> target.reason), [])
    else write_linux_fan_target fault target percent

unfoldable pub set_linux_fan_control_channel :
    WriteFault → List LinuxFanTarget → String → Float64 → Written
set_linux_fan_control_channel fault targets id percent = elim (validate_fan_percent percent) [
  | err e ↦ (err e, [])
  | ok _ ↦
      if not (valid_fan_channel_id id)
      then (err "invalid fan-channel identifier", [])
      else write_channel fault targets id percent
]

unfoldable pub set_fan_control_channel :
    WriteFault → List LinuxFanTarget → String → Float64 → Written
set_fan_control_channel fault all id percent =
    set_linux_fan_control_channel fault (linux_fan_targets all) id percent

unfoldable pub set_fan_control : WriteFault → List LinuxFanTarget → Float64 → Written
unfolding fault_result
set_fan_control fault all percent = elim (validate_fan_percent percent) [
  | err e ↦ (err e, [])
  | ok _ ↦
      let info = detect_fan_control all in
      if not info.supported || str_eq info.handle ""
      then (err ("linux hwmon fan control unavailable: " <> info.reason), [])
      else (
        fault_result "" (fault info.handle),
        record { path = info.handle; text = duty_text (duty percent) } ∷ [],
      )
]
