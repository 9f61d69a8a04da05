-- ===== src/Examples/Collecting.antt =====
-- A machine with two CPU sensors and two GPUs.
use hwcontrol.Base.{
  String, true, ◌≡◌, refl, ◌⊎◌, [], ◌∷◌, ◌++◌, Option, none, some, all, str_eq, if◌then◌else◌,
}
use hwcontrol.Base.Result.{is_ok}
use hwcontrol.Float.{Float64, lit, one}
use hwcontrol.Telemetry.{zero_metrics}
use hwcontrol.Thermal.{validate_thermal_telemetry}
use hwcontrol.Text.Clean.{split}
use hwcontrol.Collect.{Platform, Sensor, contains, usable, merge_sensors}
use hwcontrol.Collect.Control.{
  Readings, readings, max_nvidia_gpu_temperature, collect_hardware_control_safety_metrics,
}
use hwcontrol.Collect.Hottest.{IsReading, IsUsable, covers, hottest_gpu_reported}
use hwcontrol.Collect.Guarded.{collected_telemetry_passes}
use hwcontrol.Collect.Last.{last_cpu_sensor_wins}

abbrev parse_float : String → Option Float64
parse_float text =
    if str_eq text "71" then some (lit 71) else if str_eq text "64" then some (lit 64) else none

abbrev platform : Platform
platform = record {
  read_file = λ path. none;
  glob = λ pattern. [];
  parse_float = parse_float;
  to_lower = λ text. text;
}

abbrev hot_core : Sensor
hot_core = record { sensor_key = "core_0"; temperature = lit 99 }

abbrev cool_core : Sensor
cool_core = record { sensor_key = "core_1"; temperature = lit 50 }

abbrev chassis : Sensor
chassis = record { sensor_key = "chassis"; temperature = lit 30 }

abbrev seen : Readings
seen = record {
  platform = platform;
  sensors = some (hot_core ∷ cool_core ∷ []);
  nvidia = some "64\n71\n";
  listed_fans = [];
  detected_fans = [];
}

collected_telemetry_passes_example :
    (is_ok (validate_thermal_telemetry (collect_hardware_control_safety_metrics seen))
      ≡ (collect_hardware_control_safety_metrics seen).thermal_safety_available)
    × ((collect_hardware_control_safety_metrics seen).thermal_safety_available ≡ true
        → (usable (collect_hardware_control_safety_metrics seen).cpu_temperature ≡ true)
          ⊎ (usable (collect_hardware_control_safety_metrics seen).gpu_temperature ≡ true))
collected_telemetry_passes_example = collected_telemetry_passes seen

hottest_gpu_reported_example :
    IsReading
      (max_nvidia_gpu_temperature parse_float "64\n71\n")
      (readings parse_float (split b'\n' "64\n71\n"))
    × IsUsable (max_nvidia_gpu_temperature parse_float "64\n71\n")
    × (all
          (covers (max_nvidia_gpu_temperature parse_float "64\n71\n"))
          (readings parse_float (split b'\n' "64\n71\n"))
        ≡ true)
hottest_gpu_reported_example = hottest_gpu_reported parse_float "64\n71\n"

last_cpu_sensor_wins_example :
    (merge_sensors platform
      ((hot_core ∷ []) ++ cool_core ∷ chassis ∷ [])
      zero_metrics).cpu_temperature
    ≡ lit 50
unfolding contains usable one
last_cpu_sensor_wins_example =
    last_cpu_sensor_wins platform (hot_core ∷ []) cool_core (chassis ∷ []) zero_metrics refl refl
      refl
