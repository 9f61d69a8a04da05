-- ===== src/Thermal/Guards.antt =====
-- The thermal guards of bridge_service/src/main.go and the temperatures they pass.
use hwcontrol.Base.{true, false, ◌≡◌, ◌⊎◌, arith, str_eq}
use hwcontrol.Base.Result.{ok}
use hwcontrol.Float
use hwcontrol.Float.{Float64, lit}
use hwcontrol.Command.{Command}
use hwcontrol.Telemetry.{HardwareMetrics, is_valid_temperature}
use hwcontrol.Thermal.{
  validate_thermal_telemetry, has_critical_thermal_state, validate_fan_control_request,
  validate_fan_channel_control_request,
}

-- The thermal state that the guards establish for a fan speed: telemetry is available, each
-- temperature is absent or valid, and under a critical temperature the speed is at least 100.
pub record IsSafeFor (metrics : HardwareMetrics) (value : Float64) : Type 0 where
  pub available : metrics.thermal_safety_available ≡ true
  pub cpu_valid :
      (Float.eq metrics.cpu_temperature (lit 0) ≡ true)
      ⊎ (is_valid_temperature metrics.cpu_temperature ≡ true)
  pub gpu_valid :
      (Float.eq metrics.gpu_temperature (lit 0) ≡ true)
      ⊎ (is_valid_temperature metrics.gpu_temperature ≡ true)
  pub emergency : (has_critical_thermal_state metrics ≡ false) ⊎ (Float.lt value (lit 100) ≡ false)

pub validate_fan_control_request-IsSafeFor :
    (cmd : Command) (metrics : HardwareMetrics)
    → str_eq cmd.action "Fan Hızı" ≡ true
    → validate_fan_control_request cmd metrics ≡ ok tt
    → IsSafeFor metrics cmd.value
unfolding validate_fan_control_request validate_thermal_telemetry
validate_fan_control_request-IsSafeFor cmd metrics a h = ground arith

pub validate_fan_channel_control_request-IsSafeFor :
    (cmd : Command) (metrics : HardwareMetrics)
    → str_eq cmd.action "Set Fan Channel" ≡ true
    → validate_fan_channel_control_request cmd metrics ≡ ok tt
    → IsSafeFor metrics cmd.value
unfolding validate_fan_channel_control_request validate_thermal_telemetry
validate_fan_channel_control_request-IsSafeFor cmd metrics a h = ground arith
