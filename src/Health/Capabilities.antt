-- ===== src/Health/Capabilities.antt =====
-- The capability table of evaluateHardwareHealth (bridge_service/src/health.go).
use hwcontrol.Base.{
  String, Bool, false, not, ◌&&◌, ◌||◌, List, [], ◌∷◌, Option, none, some, ltb, length,
  if◌then◌else◌, str_eq,
}
use hwcontrol.Float
use hwcontrol.Float.{Float64, lit}
use hwcontrol.Text.{trim_space}
use hwcontrol.Telemetry.{
  HardwareMetrics, FanChannel, is_valid_temperature, is_finite_non_negative, is_finite_positive,
}
use hwcontrol.Health.Anomalies.{has_validated_fan_control}

pub record HardwareCapability : Type 0 where
  pub available : Bool
  pub backend : String
  pub reason : String

unfoldable pub capability : Bool → String → String → HardwareCapability
capability available backend reason = record {
  available = available;
  backend = backend;
  reason = reason;
}

-- The backend of the first channel that can be controlled.
channel_backend : List FanChannel → Option String
channel_backend [] = none
channel_backend (channel ∷ rest) =
    let next = channel_backend rest in
    if channel.supported
      && not (str_eq channel.backend "")
      && not (str_eq channel.backend "monitor-only")
    then some channel.backend
    else next

unfoldable pub resolved_fan_control_backend : HardwareMetrics → String
unfolding channel_backend
resolved_fan_control_backend metrics =
    if metrics.fan_control_supported && not (str_eq metrics.fan_control_backend "")
    then metrics.fan_control_backend
    else elim (channel_backend metrics.fan_channels) [
      | some backend ↦ backend
      | none ↦
          if not (str_eq metrics.fan_control_backend "")
          then metrics.fan_control_backend
          else "monitor-only"
    ]

abbrev nonempty : String → Bool
nonempty s = not (str_eq s "")

abbrev percentage : Float64 → Bool
percentage x = is_finite_non_negative x && Float.le x (lit 100)

abbrev pub plausible : Float64 → Bool
plausible temperature = Float.lt (lit 0) temperature && is_valid_temperature temperature

unfoldable pub capabilities : HardwareMetrics → List (String × HardwareCapability)
capabilities m =
    (
      "cpuTemperature",
      capability (nonempty m.cpu_temperature_source && plausible m.cpu_temperature)
          m.cpu_temperature_source "CPU thermal telemetry unavailable or source unknown",
    )
    ∷ (
      "gpuTemperature",
      capability (nonempty m.gpu_temperature_source && plausible m.gpu_temperature)
          m.gpu_temperature_source "GPU thermal telemetry unavailable or source unknown",
    )
    ∷ (
      "fanRpm",
      capability (is_finite_positive m.fan_rpm && nonempty m.fan_rpm_source) m.fan_rpm_source
          "Fan RPM telemetry unavailable or source unknown",
    )
    ∷ (
      "fanControl",
      capability (has_validated_fan_control m) (resolved_fan_control_backend m)
          "No validated hardware-control backend",
    )
    ∷ (
      "fanChannels",
      capability (ltb 0 (length m.fan_channels)) "platform-fan-discovery"
          "No fan/PWM channels were enumerated",
    )
    ∷ (
      "voltage",
      capability (is_finite_positive m.voltage) m.sensor_source "Voltage telemetry unavailable",
    )
    ∷ (
      "power",
      capability (is_finite_positive m.power_watts) m.sensor_source "Power telemetry unavailable",
    )
    ∷ (
      "gpuCoreClock",
      capability (is_finite_positive m.gpu_core_clock_mhz) m.sensor_source
          "GPU core clock telemetry unavailable",
    )
    ∷ (
      "gpuMemoryClock",
      capability (is_finite_positive m.gpu_memory_clock_mhz) m.sensor_source
          "GPU memory clock telemetry unavailable",
    )
    ∷ (
      "gpuMemory",
      capability (ltb 0 m.gpu_memory_total_bytes) m.sensor_source "GPU memory capacity unavailable",
    )
    ∷ (
      "hardwareIdentity",
      capability
          (nonempty (trim_space m.detection_status)
            && not (str_eq m.detection_status "unavailable"))
          m.detection_source "Hardware identity unavailable",
    )
    ∷ (
      "storage",
      capability (ltb 0 (length m.storage_volumes)) "gopsutil"
          "No mounted storage volume could be enumerated",
    )
    ∷ (
      "cpuUtilization",
      capability (percentage m.cpu_usage) "gopsutil"
          "CPU utilization telemetry unavailable or invalid",
    )
    ∷ (
      "memory",
      capability (ltb 0 m.memory_total_bytes && percentage m.memory_usage) "gopsutil"
          "System memory telemetry unavailable or invalid",
    )
    ∷ (
      "diskUsage",
      capability (ltb 0 m.disk_total_bytes && percentage m.disk_usage) "gopsutil"
          "Root-volume usage telemetry unavailable or invalid",
    )
    ∷ (
      "gpuUtilization",
      capability (percentage m.gpu_usage && nonempty m.gpu_vendor) m.sensor_source
          "GPU utilization telemetry unavailable or invalid",
    )
    ∷ (
      "fanPercent",
      capability
          (is_finite_non_negative m.fan_percent
            && Float.lt (lit 0) m.fan_percent
            && Float.le m.fan_percent (lit 100)
            && nonempty m.fan_percent_source)
          m.fan_percent_source "Fan percentage telemetry unavailable or source unknown",
    )
    ∷ (
      "batteryHealth",
      capability
          (m.battery.present
            && m.battery.data_available
            && is_finite_positive m.battery.health_percent)
          "platform-battery-api"
          "Battery health requires valid design and full-charge capacity readings",
    )
    ∷ (
      "thermalSafety",
      capability
          (m.thermal_safety_available
            && (plausible m.cpu_temperature || plausible m.gpu_temperature))
          m.sensor_source "No valid CPU/GPU temperature source is available",
    )
    ∷ (
      "fanCurveAutomation",
      capability (has_validated_fan_control m && m.thermal_safety_available)
          (resolved_fan_control_backend m)
          "Automatic fan control requires both valid thermal telemetry and a supported control backend",
    )
    ∷ (
      "gpuPowerLimitControl",
      capability false "not-implemented"
          "GPU power-limit telemetry may be readable, but a validated write backend is not implemented",
    )
    ∷ (
      "cpuOverclockControl",
      capability false "not-implemented" "CPU clock/voltage overclocking is not implemented",
    )
    ∷ (
      "batteryChargeLimitControl",
      capability false "not-implemented"
          "Battery health is read-only; charging thresholds are not changed",
    )
    ∷ []

-- capabilities[name].Available, false for a missing key.
unfoldable pub available : String → List (String × HardwareCapability) → Bool
available name [] = false
available name ((key, c) ∷ rest) =
    let next = available name rest in if str_eq key name then c.available else next
