-- ===== src/Telemetry.antt =====
-- The sensor readings that decide whether the hardware may be controlled: the validity tests of
-- bridge_service/src/health.go and the record HardwareMetrics of main.go.
pub mod Laws
use hwcontrol.Base.{ℕ, String, Bool, true, false, not, ◌&&◌, ◌||◌, ◌≡◌, refl, List, [], Option}
use hwcontrol.Float
use hwcontrol.Float.{Float64, lit, neg_lit}

unfoldable pub is_finite_positive : Float64 → Bool
unfolding Float.is_nan Float.is_inf Float.lt
is_finite_positive value =
    not (Float.is_nan value) && not (Float.is_inf value) && Float.lt (lit 0) value

unfoldable pub is_finite_non_negative : Float64 → Bool
unfolding Float.is_nan Float.is_inf Float.le
is_finite_non_negative value =
    not (Float.is_nan value) && not (Float.is_inf value) && Float.le (lit 0) value

unfoldable pub is_valid_temperature : Float64 → Bool
unfolding Float.is_nan Float.is_inf Float.le
is_valid_temperature value =
    not (Float.is_nan value)
    && not (Float.is_inf value)
    && Float.le (neg_lit 20) value
    && Float.le value (lit 125)

-- FanChannel of fan_control.go.
pub record FanChannel : Type 0 where
  pub id : String
  pub name : String
  pub backend : String
  pub supported : Bool
  pub fan_rpm : Float64
  pub rpm_available : Bool
  pub fan_percent : Float64
  pub percent_available : Bool
  pub reason : String

pub record BatteryMetrics : Type 0 where
  pub present : Bool
  pub data_available : Bool
  pub health_percent : Float64

pub record StorageVolume : Type 0 where
  pub mount_point : String
  pub device : String
  pub device_type : String
  pub device_type_source : String
  pub removable : Bool
  pub file_system : String
  pub options : String
  pub total_bytes : ℕ
  pub used_bytes : ℕ
  pub free_bytes : ℕ
  pub usage_percent : Float64
  pub read_bytes_per_sec : Float64
  pub write_bytes_per_sec : Float64
  pub temperature_c : Option Float64
  pub health_percent : Option Float64
  pub health_status : String
  pub health_source : String
  pub health_reason : String

-- The fields of HardwareMetrics that the modelled operations read or write.
pub record HardwareMetrics : Type 0 where
  pub detection_source : String
  pub detection_status : String
  pub cpu_usage : Float64
  pub cpu_temperature : Float64
  pub cpu_temperature_source : String
  pub gpu_temperature : Float64
  pub gpu_temperature_source : String
  pub metrics_collected_at : String
  pub gpu_usage : Float64
  pub fan_percent : Float64
  pub fan_percent_source : String
  pub fan_rpm : Float64
  pub fan_rpm_source : String
  pub memory_usage : Float64
  pub memory_total_bytes : ℕ
  pub disk_usage : Float64
  pub disk_total_bytes : ℕ
  pub storage_volumes : List StorageVolume
  pub power_watts : Float64
  pub voltage : Float64
  pub gpu_name : String
  pub gpu_vendor : String
  pub gpu_driver_status : String
  pub gpu_driver_action : String
  pub gpu_driver_reason : String
  pub gpu_memory_used_bytes : ℕ
  pub gpu_memory_total_bytes : ℕ
  pub gpu_core_clock_mhz : Float64
  pub gpu_memory_clock_mhz : Float64
  pub sensor_source : String
  pub fan_control_supported : Bool
  pub fan_control_backend : String
  pub fan_channels : List FanChannel
  pub hardware_control_mode : String
  pub thermal_safety_available : Bool
  pub battery : BatteryMetrics

-- HardwareMetrics{}
abbrev pub zero_metrics : HardwareMetrics
zero_metrics = record {
  detection_source = "";
  detection_status = "";
  cpu_usage = lit 0;
  cpu_temperature = lit 0;
  cpu_temperature_source = "";
  gpu_temperature = lit 0;
  gpu_temperature_source = "";
  metrics_collected_at = "";
  gpu_usage = lit 0;
  fan_percent = lit 0;
  fan_percent_source = "";
  fan_rpm = lit 0;
  fan_rpm_source = "";
  memory_usage = lit 0;
  memory_total_bytes = 0;
  disk_usage = lit 0;
  disk_total_bytes = 0;
  storage_volumes = [];
  power_watts = lit 0;
  voltage = lit 0;
  gpu_name = "";
  gpu_vendor = "";
  gpu_driver_status = "";
  gpu_driver_action = "";
  gpu_driver_reason = "";
  gpu_memory_used_bytes = 0;
  gpu_memory_total_bytes = 0;
  gpu_core_clock_mhz = lit 0;
  gpu_memory_clock_mhz = lit 0;
  sensor_source = "";
  fan_control_supported = false;
  fan_control_backend = "";
  fan_channels = [];
  hardware_control_mode = "";
  thermal_safety_available = false;
  battery = record { present = false; data_available = false; health_percent = lit 0 };
}
