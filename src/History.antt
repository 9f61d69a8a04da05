-- ===== src/History.antt =====
-- The sensor history: bridge_service/src/sensor_history.go.
pub mod Laws
use hwcontrol.Base.{
  ℕ, ◌-◌, ◌+◌, ◌≤◌, String, Bool, true, false, ◌≡◌, List, [], ◌∷◌, ◌++◌, ltb, length, drop,
  if◌then◌else◌, str_eq,
}
use hwcontrol.Float.{Float64}
use hwcontrol.Telemetry.{HardwareMetrics}

pub record SensorHistorySample : Type 0 where
  pub timestamp : String
  pub cpu_temperature : Float64
  pub cpu_temperature_source : String
  pub gpu_temperature : Float64
  pub gpu_temperature_source : String
  pub cpu_usage : Float64
  pub gpu_usage : Float64
  pub power_watts : Float64
  pub fan_rpm : Float64
  pub memory_usage : Float64

abbrev pub max_sensor_history_samples : ℕ
max_sensor_history_samples = 300

unfoldable pub sample_of : HardwareMetrics → SensorHistorySample
sample_of metrics = record {
  timestamp = metrics.metrics_collected_at;
  cpu_temperature = metrics.cpu_temperature;
  cpu_temperature_source = metrics.cpu_temperature_source;
  gpu_temperature = metrics.gpu_temperature;
  gpu_temperature_source = metrics.gpu_temperature_source;
  cpu_usage = metrics.cpu_usage;
  gpu_usage = metrics.gpu_usage;
  power_watts = metrics.power_watts;
  fan_rpm = metrics.fan_rpm;
  memory_usage = metrics.memory_usage;
}

-- append, then cut to the last samples.
unfoldable pub push : SensorHistorySample → List SensorHistorySample → List SensorHistorySample
push sample samples =
    let grown = samples ++ sample ∷ [] in
    if ltb max_sensor_history_samples (length grown)
    then drop (length grown - max_sensor_history_samples) grown
    else grown

unfoldable pub record_sensor_history :
    HardwareMetrics → List SensorHistorySample → List SensorHistorySample
record_sensor_history metrics samples =
    if str_eq metrics.metrics_collected_at "" then samples else push (sample_of metrics) samples

unfoldable pub record_all :
    List HardwareMetrics → List SensorHistorySample → List SensorHistorySample
record_all [] samples = samples
record_all (metrics ∷ rest) samples = record_all rest (record_sensor_history metrics samples)
