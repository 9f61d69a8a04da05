-- ===== src/Thermal.antt =====
-- The thermal guards of bridge_service/src/main.go: what must hold of a fresh reading before a fan
-- command may write, and how that reading is put together.
pub mod Guards
use hwcontrol.Base.{
  String, Bool, true, false, not, ◌&&◌, ◌||◌, ◌≡◌, List, [], ◌∷◌, Option, none, some, if◌then◌else◌,
  str_eq,
}
use hwcontrol.Base.Result.{Result, ok, err, fail_if, ◌>>=◌, ◌>>◌}
use hwcontrol.Float
use hwcontrol.Float.{Float64, lit}
use hwcontrol.Command.{Command}
use hwcontrol.Telemetry.{HardwareMetrics, FanChannel, is_valid_temperature}
use hwcontrol.Fan.{validate_fan_percent, valid_fan_channel_id}
use hwcontrol.Command.{◌<>◌}

abbrev pub critical_cpu_temperature : Float64
critical_cpu_temperature = lit 95

abbrev pub critical_gpu_temperature : Float64
critical_gpu_temperature = lit 95

unfoldable pub validate_thermal_telemetry : HardwareMetrics → Result (Unit {0})
validate_thermal_telemetry metrics = do
  fail_if (not metrics.thermal_safety_available)
      "hardware control blocked: no valid thermal telemetry available"
  fail_if
      (not (Float.eq metrics.cpu_temperature (lit 0))
        && not (is_valid_temperature metrics.cpu_temperature))
      "hardware control blocked: CPU temperature telemetry is invalid"
  fail_if
      (not (Float.eq metrics.gpu_temperature (lit 0))
        && not (is_valid_temperature metrics.gpu_temperature))
      "hardware control blocked: GPU temperature telemetry is invalid"

unfoldable pub has_critical_thermal_state : HardwareMetrics → Bool
has_critical_thermal_state metrics =
    Float.le critical_cpu_temperature metrics.cpu_temperature
    || Float.le critical_gpu_temperature metrics.gpu_temperature

unfoldable pub hardware_control_safety_error : HardwareMetrics → Result (Unit {0})
unfolding validate_thermal_telemetry has_critical_thermal_state
hardware_control_safety_error metrics = do
  validate_thermal_telemetry metrics
  fail_if (has_critical_thermal_state metrics)
      "hardware control blocked: critical temperature detected"

abbrev pub emergency_message : String
emergency_message =
    "critical temperature detected; only the 100% emergency cooling target is allowed"

unfoldable pub validate_fan_control_request : Command → HardwareMetrics → Result (Unit {0})
validate_fan_control_request cmd metrics = if not (str_eq cmd.action "Fan Hızı") then ok tt else do
  validate_thermal_telemetry metrics
  fail_if
      (not metrics.fan_control_supported
        || str_eq metrics.fan_control_backend ""
        || str_eq metrics.fan_control_backend "monitor-only")
      "hardware fan control is unavailable"
  fail_if (has_critical_thermal_state metrics && Float.lt cmd.value (lit 100)) emergency_message

-- The loop that looks the channel up, with what it returns at the first match.
unfoldable pub find_channel : String → List FanChannel → Option FanChannel
find_channel id [] = none
find_channel id (channel ∷ rest) =
    let next = find_channel id rest in if str_eq channel.id id then some channel else next

unfoldable pub check_channel : Option FanChannel → Result (Unit {0})
check_channel none = err "fan channel was not detected; refresh hardware capabilities and try again"
check_channel (some channel) =
    fail_if
      (not channel.supported || str_eq channel.backend "" || str_eq channel.backend "monitor-only")
      ("fan channel is monitor-only: " <> channel.reason)

unfoldable pub validate_fan_channel_control_request : Command → HardwareMetrics → Result (Unit {0})
validate_fan_channel_control_request cmd metrics =
    if not (str_eq cmd.action "Set Fan Channel") then ok tt else do
      fail_if (not (valid_fan_channel_id cmd.target)) "invalid fan-channel identifier"
      validate_fan_percent cmd.value
      validate_thermal_telemetry metrics
      check_channel (find_channel cmd.target metrics.fan_channels)
      fail_if (has_critical_thermal_state metrics && Float.lt cmd.value (lit 100)) emergency_message
