-- ===== src/Collect/Control.antt =====
-- nvidia-smi's readings, and collectHardwareControlSafetyMetrics of bridge_service/src/main.go.
use hwcontrol.Base.{
  String, Bool, not, ◌&&◌, ◌||◌, List, [], ◌∷◌, Option, none, some, if◌then◌else◌, str_eq,
}
use hwcontrol.Float
use hwcontrol.Float.{Float64, lit}
use hwcontrol.Text.{trim_space}
use hwcontrol.Text.Clean.{split}
use hwcontrol.Telemetry.{HardwareMetrics, zero_metrics}
use hwcontrol.Fan.{LinuxFanTarget, list_fan_channels, detect_fan_control}
use hwcontrol.Collect.{Platform, Sensor, usable, when, merge_sensors, merge_platform_metrics}

-- highest and found, as one value: none until a reading is found.
abbrev pub higher : Float64 → Option Float64 → Option Float64
higher value none = some value
higher value (some highest) = if Float.lt highest value then some value else some highest

abbrev pub take_reading : Option Float64 → Option Float64 → Option Float64
take_reading none highest = highest
take_reading (some value) highest = if usable value then higher value highest else highest

unfoldable pub max_reading : List (Option Float64) → Option Float64 → Option Float64
unfolding usable Float.lt
max_reading [] highest = highest
max_reading (reading ∷ readings) highest = max_reading readings (take_reading reading highest)

-- One reading for each line.
unfoldable pub readings : (String → Option Float64) → List String → List (Option Float64)
unfolding trim_space
readings parse_float [] = []
readings parse_float (line ∷ lines) = parse_float (trim_space line) ∷ readings parse_float lines

unfoldable pub max_nvidia_gpu_temperature : (String → Option Float64) → String → Option Float64
unfolding max_reading readings split
max_nvidia_gpu_temperature parse_float output =
    max_reading (readings parse_float (split b'\n' output)) none

-- The third field of a line, if it has three.
abbrev third : List String → Option String
third (a ∷ b ∷ c ∷ rest) = some c
third _ = none

unfoldable pub third_readings : (String → Option Float64) → List String → List (Option Float64)
unfolding trim_space split
third_readings parse_float [] = []
third_readings parse_float (line ∷ lines) =
    let rest = third_readings parse_float lines in
    elim (third (split b',' line)) [
      | none ↦ rest
      | some field ↦ parse_float (trim_space field) ∷ rest
    ]

unfoldable pub max_nvidia_gpu_temperature_from_metrics_output :
    (String → Option Float64) → String → Option Float64
unfolding max_reading third_readings split
max_nvidia_gpu_temperature_from_metrics_output parse_float output =
    max_reading (third_readings parse_float (split b'\n' output)) none

-- What the collector reads. `sensors` is none where the sensors cannot be read, `nvidia` where
-- nvidia-smi fails; the two lists of fans are what two discoveries find.
pub record Readings : Type 0 where
  pub platform : Platform
  pub sensors : Option (List Sensor)
  pub nvidia : Option String
  pub listed_fans : List LinuxFanTarget
  pub detected_fans : List LinuxFanTarget

abbrev pub merge_host_sensors : Platform → Option (List Sensor) → HardwareMetrics → HardwareMetrics
merge_host_sensors p none m = m
merge_host_sensors p (some sensors) m = merge_sensors p sensors m

abbrev pub hottest : Platform → Option String → Option Float64
hottest p none = none
hottest p (some output) = max_nvidia_gpu_temperature p.parse_float output

unfoldable pub set_nvidia_temperature : HardwareMetrics → Float64 → HardwareMetrics
set_nvidia_temperature m value = record m {
  gpu_temperature = value;
  gpu_temperature_source = "nvidia-smi:max-gpu-temperature";
  sensor_source = "nvidia-smi";
}

unfoldable pub merge_nvidia : Platform → Option String → HardwareMetrics → HardwareMetrics
unfolding max_nvidia_gpu_temperature set_nvidia_temperature
merge_nvidia p output m = when (hottest p output) (set_nvidia_temperature m) m

-- A source that is still missing.
abbrev pub is_missing : String → Float64 → HardwareMetrics → Bool
is_missing source temperature m =
    str_eq source "" && usable temperature && not (str_eq m.sensor_source "")

unfoldable pub fill_cpu_source : HardwareMetrics → HardwareMetrics
unfolding usable
fill_cpu_source m =
    if is_missing m.cpu_temperature_source m.cpu_temperature m
    then record m { cpu_temperature_source = m.sensor_source }
    else m

unfoldable pub fill_gpu_source : HardwareMetrics → HardwareMetrics
unfolding usable
fill_gpu_source m =
    if is_missing m.gpu_temperature_source m.gpu_temperature m
    then record m { gpu_temperature_source = m.sensor_source }
    else m

unfoldable pub fill_sensor_source : HardwareMetrics → HardwareMetrics
fill_sensor_source m =
    if not (str_eq m.sensor_source "")
    then m
    else if not (str_eq m.cpu_temperature_source "")
    then record m { sensor_source = "gopsutil-host-sensors" }
    else if not (str_eq m.gpu_temperature_source "")
    then record m { sensor_source = m.gpu_temperature_source }
    else m

abbrev pub has_reading : HardwareMetrics → Bool
has_reading m =
    (not (str_eq m.cpu_temperature_source "") && usable m.cpu_temperature)
    || (not (str_eq m.gpu_temperature_source "") && usable m.gpu_temperature)

-- The fields that follow from the temperatures and from the fans.
unfoldable pub conclude_metrics :
    List LinuxFanTarget → List LinuxFanTarget → HardwareMetrics → HardwareMetrics
unfolding usable list_fan_channels detect_fan_control
conclude_metrics listed detected m =
    let info = detect_fan_control detected in
    record m {
      thermal_safety_available = has_reading m;
      fan_channels = list_fan_channels listed;
      fan_control_supported = info.supported;
      fan_control_backend = info.backend;
    }

-- Before the last fields.
unfoldable pub merged_metrics : Readings → HardwareMetrics
unfolding merge_sensors merge_nvidia merge_platform_metrics
merged_metrics r =
    let m = merge_host_sensors r.platform r.sensors zero_metrics in
    merge_platform_metrics r.platform (merge_nvidia r.platform r.nvidia m)

unfoldable pub collect_hardware_control_safety_metrics : Readings → HardwareMetrics
unfolding merged_metrics fill_cpu_source fill_gpu_source fill_sensor_source conclude_metrics
collect_hardware_control_safety_metrics r =
    conclude_metrics r.listed_fans r.detected_fans
      (fill_sensor_source (fill_gpu_source (fill_cpu_source (merged_metrics r))))
