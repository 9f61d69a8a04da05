-- ===== src/Health/Anomalies.antt =====
-- The anomalies that evaluateHardwareHealth (bridge_service/src/health.go) reports, block by block.
use hwcontrol.Base.{String, Bool, not, ◌&&◌, ◌||◌, List, [], ◌∷◌, ◌++◌, if◌then◌else◌, str_eq}
use hwcontrol.Float
use hwcontrol.Float.{Float64, lit}
use hwcontrol.Float.Format.{format_fixed}
use hwcontrol.Text.{trim_space}
use hwcontrol.Command.{◌<>◌}
use hwcontrol.Telemetry.{
  HardwareMetrics, FanChannel, StorageVolume, BatteryMetrics, is_valid_temperature,
  is_finite_non_negative,
}
use hwcontrol.Fan.{controllable, any_controllable_fan_channel}

pub record HardwareAnomaly : Type 0 where
  pub code : String
  pub severity : String
  pub message : String

unfoldable pub anomaly : String → String → String → HardwareAnomaly
anomaly code severity message = record { code = code; severity = severity; message = message }

abbrev pub thermal_warning_temperature : Float64
thermal_warning_temperature = lit 85

abbrev pub thermal_critical_temperature : Float64
thermal_critical_temperature = lit 95

unfoldable pub has_validated_fan_control : HardwareMetrics → Bool
has_validated_fan_control metrics =
    metrics.fan_control_supported || any_controllable_fan_channel metrics.fan_channels

-- `if test { anomalies = append(anomalies, a) }`
abbrev pub report_if : Bool → HardwareAnomaly → List HardwareAnomaly
report_if test a = if test then a ∷ [] else []

-- The range check of one temperature; `key` and `name` are those of the sensor.
unfoldable pub thermal_invalid : String → String → Float64 → List HardwareAnomaly
thermal_invalid key name temperature =
    report_if (Float.lt (lit 0) temperature && not (is_valid_temperature temperature)) (
      anomaly (key <> "-thermal-invalid") "critical"
        (name <> " thermal telemetry is outside a valid operating range"))

unfoldable pub overtemperature : String → String → Float64 → List HardwareAnomaly
overtemperature key name temperature =
    let message = name <> " temperature reached " <> format_fixed 1 temperature <> " °C" in
    if Float.le thermal_critical_temperature temperature
    then anomaly (key <> "-overtemperature") "critical" message ∷ []
    else if Float.le thermal_warning_temperature temperature
    then anomaly (key <> "-temperature-high") "warning" message ∷ []
    else []

unfoldable pub thermal_load_high : HardwareMetrics → Bool
thermal_load_high metrics =
    Float.le thermal_warning_temperature metrics.cpu_temperature
    || Float.le thermal_warning_temperature metrics.gpu_temperature

unfoldable pub controllable_channels : List FanChannel → List FanChannel
controllable_channels [] = []
controllable_channels (channel ∷ rest) =
    let kept = controllable_channels rest in if controllable channel then channel ∷ kept else kept

channel_name : FanChannel → String
channel_name channel =
    let name = trim_space channel.name in if str_eq name "" then channel.id else name

-- What the loop reports of one controllable channel.
unfoldable pub channel_anomalies : FanChannel → List HardwareAnomaly
unfolding channel_name
channel_anomalies channel =
    let name = channel_name channel in
    if not channel.rpm_available
    then anomaly "fan-rpm-unavailable-under-thermal-load" "warning" (
        "RPM telemetry is unavailable for controllable fan channel " <> name
        <> " while thermal load is high")
      ∷ []
    else if not (is_finite_non_negative channel.fan_rpm)
    then anomaly "fan-rpm-invalid" "warning"
        ("RPM telemetry is invalid for controllable fan channel " <> name)
      ∷ []
    else if not (Float.eq channel.fan_rpm (lit 0))
    then []
    else if not channel.percent_available
    then anomaly "fan-command-state-unavailable-under-thermal-load" "warning"
        ("Fan channel " <> name <> " reports 0 RPM, but its PWM command state is unavailable")
      ∷ []
    else if not (is_finite_non_negative channel.fan_percent)
        || Float.lt (lit 100) channel.fan_percent
    then anomaly "fan-command-state-invalid" "warning"
        ("PWM command telemetry is invalid for fan channel " <> name)
      ∷ []
    else report_if (Float.lt (lit 0) channel.fan_percent) (
        anomaly "fan-stall-risk" "critical" (
          "Fan channel "
          <> name
          <> " has a non-zero PWM command ("
          <> format_fixed 1 channel.fan_percent
          <> "%) but reports 0 RPM under thermal load"))

unfoldable pub channels_anomalies : List FanChannel → List HardwareAnomaly
channels_anomalies [] = []
channels_anomalies (channel ∷ rest) = channel_anomalies channel ++ channels_anomalies rest

-- The two branches under a high thermal load.
unfoldable pub fan_branch : List FanChannel → HardwareMetrics → List HardwareAnomaly
fan_branch [] metrics =
    report_if (metrics.fan_control_supported && Float.le metrics.fan_rpm (lit 0)) (
      anomaly "fan-stall-risk" "critical"
        "Fan control is available but no fan RPM is reported while thermal load is high")
fan_branch (channel ∷ rest) metrics = channels_anomalies (channel ∷ rest)

unfoldable pub fan_anomalies : HardwareMetrics → List HardwareAnomaly
fan_anomalies metrics =
    if thermal_load_high metrics
    then fan_branch (controllable_channels metrics.fan_channels) metrics
    else []

unfoldable pub battery_anomalies : BatteryMetrics → List HardwareAnomaly
battery_anomalies battery =
    report_if
      (battery.present
        && battery.data_available
        && Float.lt (lit 0) battery.health_percent
        && Float.lt battery.health_percent (lit 60))
      (anomaly "battery-capacity-degraded" "warning" (
        "Reported battery full-charge capacity is "
        <> format_fixed 1 battery.health_percent
        <> "% of design capacity"))

invalid_percent : Float64 → Bool
invalid_percent usage = not (is_finite_non_negative usage) || Float.lt (lit 100) usage

unfoldable pub usage_anomalies : HardwareMetrics → List HardwareAnomaly
unfolding invalid_percent
usage_anomalies metrics =
    report_if (invalid_percent metrics.cpu_usage) (
      anomaly "cpu-utilization-invalid" "warning"
        "CPU utilization reading is invalid and must not be interpreted as a real percentage")
    ++ report_if (invalid_percent metrics.memory_usage) (
        anomaly "memory-utilization-invalid" "warning"
          "Memory utilization reading is invalid and must not be interpreted as a real percentage")

unfoldable pub storage_anomalies : List StorageVolume → List HardwareAnomaly
storage_anomalies [] = []
storage_anomalies (volume ∷ rest) =
    report_if (Float.le (lit 95) volume.usage_percent) (
      anomaly "storage-near-full" "warning" (
        "Storage volume "
        <> volume.mount_point
        <> " is "
        <> format_fixed 1 volume.usage_percent
        <> "% full"))
    ++ storage_anomalies rest

unfoldable pub anomalies : HardwareMetrics → List HardwareAnomaly
anomalies metrics =
    thermal_invalid "cpu" "CPU" metrics.cpu_temperature
    ++ (thermal_invalid "gpu" "GPU" metrics.gpu_temperature
        ++ (overtemperature "cpu" "CPU" metrics.cpu_temperature
            ++ (overtemperature "gpu" "GPU" metrics.gpu_temperature
                ++ (fan_anomalies metrics
                    ++ (report_if (not metrics.thermal_safety_available) (
                          anomaly "thermal-sensor-missing" "warning"
                            "No valid thermal sensor is available; hardware control must remain fail-closed")
                        ++ (battery_anomalies metrics.battery
                            ++ (usage_anomalies metrics
                                ++ storage_anomalies metrics.storage_volumes)))))))
