-- ===== src/Collect/Guarded.antt =====
-- The collected reading as the thermal guards find it.
use mathlib.Core.Path.{subst}
use hwcontrol.Base.{
  String, Bool, true, false, not, ◌&&◌, ◌||◌, ◌≡◌, refl, sym, ◌⊎◌, inl, inr, List, Option, none,
  some, arith, str_eq, both, Bool-cases,
}
use hwcontrol.Base.Result.{is_ok}
use hwcontrol.Float
use hwcontrol.Float.{Float64, lit}
use hwcontrol.Text.Clean.{split}
use hwcontrol.Telemetry.{HardwareMetrics, zero_metrics, is_valid_temperature}
use hwcontrol.Thermal.{validate_thermal_telemetry}
use hwcontrol.Collect.{Platform, usable, merge_platform_metrics}
use hwcontrol.Collect.Control.{
  Readings, hottest, set_nvidia_temperature, merge_nvidia, is_missing, fill_cpu_source,
  fill_gpu_source, fill_sensor_source, conclude_metrics, merged_metrics,
  collect_hardware_control_safety_metrics, merge_host_sensors, max_nvidia_gpu_temperature, readings,
}
use hwcontrol.Collect.Hottest.{IsUsable, max_reading-IsUsable}
use hwcontrol.Collect.Sound.{
  IsReading, HasReadings, both_readings, same_temperatures, with_gpu, if_sound, when_sound,
  merge_cards_sound, merge_sensors_sound,
}

hottest-IsUsable : (p : Platform) (output : Option String) → IsUsable (hottest p output)
unfolding max_nvidia_gpu_temperature
hottest-IsUsable p none = tt
hottest-IsUsable p (some output) =
    max_reading-IsUsable (readings p.parse_float (split b'\n' output)) none tt

merge_nvidia_sound :
    (p : Platform) (output : Option String) (m : HardwareMetrics)
    → HasReadings m
    → HasReadings (merge_nvidia p output m)
unfolding merge_nvidia set_nvidia_temperature
merge_nvidia_sound p output m h =
    when_sound (hottest p output) (set_nvidia_temperature m) m h
      λ v e. with_gpu m _ refl (subst IsUsable e (hottest-IsUsable p output)) h

merged_sound : (r : Readings) → HasReadings (merged_metrics r)
unfolding merged_metrics merge_platform_metrics
merged_sound r =
    merge_cards_sound r.platform _ _ (merge_nvidia_sound r.platform r.nvidia _ (hosts r.sensors))
  where
    hosts : (s : Option (List _)) → HasReadings (merge_host_sensors r.platform s zero_metrics)
    hosts none = both_readings (inl refl) (inl refl)
    hosts (some sensors) =
        merge_sensors_sound r.platform sensors zero_metrics (both_readings (inl refl) (inl refl))

fill_cpu_source_sound : (m : HardwareMetrics) → HasReadings m → HasReadings (fill_cpu_source m)
unfolding fill_cpu_source
fill_cpu_source_sound m h =
    if_sound (is_missing m.cpu_temperature_source m.cpu_temperature m) m _ h
      λ e. same_temperatures m _ refl refl h

fill_gpu_source_sound : (m : HardwareMetrics) → HasReadings m → HasReadings (fill_gpu_source m)
unfolding fill_gpu_source
fill_gpu_source_sound m h =
    if_sound (is_missing m.gpu_temperature_source m.gpu_temperature m) m _ h
      λ e. same_temperatures m _ refl refl h

fill_sensor_source_sound :
    (m : HardwareMetrics) → HasReadings m → HasReadings (fill_sensor_source m)
unfolding fill_sensor_source
fill_sensor_source_sound m h =
    if_sound (not (str_eq m.sensor_source "")) _ m
      (if_sound (not (str_eq m.cpu_temperature_source "")) _ _
        (if_sound (not (str_eq m.gpu_temperature_source "")) m _ h
          λ e. same_temperatures m _ refl refl h)
        λ e. same_temperatures m _ refl refl h)
      λ e. h

fill_sound :
    (m : HardwareMetrics)
    → HasReadings m
    → HasReadings (fill_sensor_source (fill_gpu_source (fill_cpu_source m)))
fill_sound m h = fill_sensor_source_sound _ (fill_gpu_source_sound _ (fill_cpu_source_sound m h))

never_both : (a v : Bool) → v ≡ true → (a && not v) ≡ false
never_both a v h = ground arith

either_second : (a b c d : Bool) → ((a && b) || (c && d)) ≡ true → (b ≡ true) ⊎ (d ≡ true)
either_second a b c d h = ground arith

passes :
    (t : Float64) → IsReading t → (not (Float.eq t (lit 0)) && not (is_valid_temperature t)) ≡ false
unfolding usable Float.eq Float.one
passes t (inl e) =
    subst (λ x. (not (Float.eq x (lit 0)) && not (is_valid_temperature x)) ≡ false) (sym e) refl
passes t (inr u) =
    never_both (not (Float.eq t (lit 0))) (is_valid_temperature t)
      (both (is_valid_temperature t) (Float.lt (lit 0) t) u).0

guards_pass :
    (m : HardwareMetrics)
    → HasReadings m
    → is_ok (validate_thermal_telemetry m) ≡ m.thermal_safety_available
unfolding validate_thermal_telemetry
guards_pass m (both_readings c g) = elim (Bool-cases m.thermal_safety_available) [
  | inl t ↦ rw (t, passes m.cpu_temperature c, passes m.gpu_temperature g) refl
  | inr t ↦ rw t refl
]

concluded :
    (r : Readings) (m : HardwareMetrics)
    → HasReadings m
    → (is_ok (validate_thermal_telemetry (conclude_metrics r.listed_fans r.detected_fans m))
        ≡ (conclude_metrics r.listed_fans r.detected_fans m).thermal_safety_available)
      × ((conclude_metrics r.listed_fans r.detected_fans m).thermal_safety_available ≡ true
          → (usable (conclude_metrics r.listed_fans r.detected_fans m).cpu_temperature ≡ true)
            ⊎ (usable (conclude_metrics r.listed_fans r.detected_fans m).gpu_temperature ≡ true))
unfolding conclude_metrics
concluded r m h = (
  guards_pass _ (same_temperatures m _ refl refl h),
  either_second (not (str_eq m.cpu_temperature_source "")) (usable m.cpu_temperature)
      (not (str_eq m.gpu_temperature_source "")) (usable m.gpu_temperature),
)

-- On what collectHardwareControlSafetyMetrics collects, validateThermalTelemetry passes exactly if
-- the reading says that thermal telemetry is available, and then the CPU's or the GPU's temperature
-- is positive and valid.
pub collected_telemetry_passes :
    (r : Readings)
    → (is_ok (validate_thermal_telemetry (collect_hardware_control_safety_metrics r))
        ≡ (collect_hardware_control_safety_metrics r).thermal_safety_available)
      × ((collect_hardware_control_safety_metrics r).thermal_safety_available ≡ true
          → (usable (collect_hardware_control_safety_metrics r).cpu_temperature ≡ true)
            ⊎ (usable (collect_hardware_control_safety_metrics r).gpu_temperature ≡ true))
unfolding collect_hardware_control_safety_metrics
collected_telemetry_passes r = concluded r _ (fill_sound _ (merged_sound r))
