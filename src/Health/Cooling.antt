-- ===== src/Health/Cooling.antt =====
-- The advice of emergency cooling: bridge_service/src/health.go.
use hwcontrol.Base.{
  String, Bool, true, false, not, ◌&&◌, ◌||◌, ◌≡◌, ◌⊎◌, refl, ◌∙◌, List, [], ◌∷◌, ◌++◌,
  if◌then◌else◌, str_eq, arith, any, Bool-cases, inl, inr,
}
use hwcontrol.Float
use hwcontrol.Float.{Float64}
use hwcontrol.Telemetry.{HardwareMetrics}
use hwcontrol.Health.Anomalies.{
  HardwareAnomaly, anomaly, overtemperature, anomalies, has_validated_fan_control,
  thermal_critical_temperature, thermal_invalid, report_if, fan_anomalies, battery_anomalies,
  usage_anomalies, storage_anomalies,
}
use hwcontrol.Health.Severity.{worst, is_critical, loop_safe, anomalies_graded}
use hwcontrol.Health.{
  safety_loop, evaluate_hardware_health, recovery_action, has_valid_critical_temperature,
}

any-append :
    (p : HardwareAnomaly → Bool) (xs ys : List HardwareAnomaly)
    → any p (xs ++ ys) ≡ (any p xs || any p ys)
any-append p [] ys = refl
any-append p (x ∷ xs) ys = ground (arith, any-append p xs ys)

later_critical :
    (xs ys : List HardwareAnomaly) → any is_critical ys ≡ true → any is_critical (xs ++ ys) ≡ true
later_critical xs ys h = any-append is_critical xs ys ∙ ground arith

first_critical :
    (xs ys : List HardwareAnomaly) → any is_critical xs ≡ true → any is_critical (xs ++ ys) ≡ true
first_critical xs ys h = any-append is_critical xs ys ∙ ground arith

overtemperature_critical :
    (key name : String) (t : Float64)
    → Float.le thermal_critical_temperature t ≡ true
    → any is_critical (overtemperature key name t) ≡ true
unfolding overtemperature anomaly
overtemperature_critical key name t h = rw h refl

hot_cases :
    (m : HardwareMetrics)
    → has_valid_critical_temperature m ≡ true
    → (Float.le thermal_critical_temperature m.cpu_temperature ≡ true)
      ⊎ (Float.le thermal_critical_temperature m.gpu_temperature ≡ true)
unfolding has_valid_critical_temperature
hot_cases m h = ground arith

-- What is reported after the temperatures.
abbrev others : HardwareMetrics → List HardwareAnomaly
others m =
    fan_anomalies m
    ++ (report_if (not m.thermal_safety_available) (
          anomaly "thermal-sensor-missing" "warning"
            "No valid thermal sensor is available; hardware control must remain fail-closed")
        ++ (battery_anomalies m.battery
            ++ (usage_anomalies m ++ storage_anomalies m.storage_volumes)))

hot_critical :
    (m : HardwareMetrics)
    → has_valid_critical_temperature m ≡ true
    → any is_critical (anomalies m) ≡ true
unfolding anomalies
hot_critical m h =
    let cpu = overtemperature "cpu" "CPU" m.cpu_temperature in
    let gpu = overtemperature "gpu" "GPU" m.gpu_temperature in
    later_critical (thermal_invalid "cpu" "CPU" m.cpu_temperature) _ (
      later_critical (thermal_invalid "gpu" "GPU" m.gpu_temperature) (cpu ++ (gpu ++ others m))
        (elim (hot_cases m h) [
          | inl c ↦
              first_critical cpu (gpu ++ others m)
                (overtemperature_critical "cpu" "CPU" m.cpu_temperature c)
          | inr g ↦ later_critical cpu (gpu ++ others m) (
              first_critical gpu (others m)
                (overtemperature_critical "gpu" "GPU" m.gpu_temperature g))
        ]))

worst_critical : (l : List HardwareAnomaly) → any is_critical l ≡ true → worst l ≡ "CRITICAL"
worst_critical [] h = cc
worst_critical (a ∷ l) h = rw h refl

hot_state :
    (m : HardwareMetrics)
    → has_valid_critical_temperature m ≡ true
    → safety_loop "SAFE" (anomalies m) ≡ "CRITICAL"
hot_state m h =
    loop_safe (anomalies m) (anomalies_graded m) ∙ worst_critical (anomalies m) (hot_critical m h)

cooling_state :
    (state : String) (m : HardwareMetrics)
    → (has_valid_critical_temperature m ≡ true → state ≡ "CRITICAL")
    → str_eq (recovery_action state m) "emergency-cooling-and-reduce-thermal-load" ≡ (
        has_valid_critical_temperature m
        && m.thermal_safety_available
        && has_validated_fan_control m)
unfolding recovery_action
cooling_state state m hot = elim (Bool-cases (has_valid_critical_temperature m)) [
  | inl h ↦ rw (hot h, h) (advised (m.thermal_safety_available && has_validated_fan_control m))
  | inr h ↦ rw h (unadvised (str_eq state "CRITICAL") (str_eq state "WARNING"))
]
  where
    advised :
        (b : Bool)
        → str_eq
            (if b
              then "emergency-cooling-and-reduce-thermal-load"
              else "stop-hardware-control-and-cool")
            "emergency-cooling-and-reduce-thermal-load"
          ≡ b
    advised true = refl
    advised false = refl

    unadvised :
        (critical warning : Bool)
        → str_eq
            (if critical
              then "stop-hardware-control-and-cool"
              else if warning
              then "monitor-and-reduce-thermal-load"
              else "none")
            "emergency-cooling-and-reduce-thermal-load"
          ≡ false
    unadvised true w = refl
    unadvised false true = refl
    unadvised false false = refl

-- While the bridge is intact a valid CPU or GPU temperature at the critical limit makes the safety
-- state CRITICAL; and emergency cooling is advised exactly if there is such a temperature, a thermal
-- sensor works and fan control was validated, whatever else is found.
pub critical_heat_is_cooled :
    (m : HardwareMetrics)
    → (has_valid_critical_temperature m ≡ true
        → (evaluate_hardware_health true m).safety_state ≡ "CRITICAL")
      × (str_eq
            (evaluate_hardware_health true m).recovery_action
            "emergency-cooling-and-reduce-thermal-load"
          ≡ (has_valid_critical_temperature m
              && m.thermal_safety_available
              && has_validated_fan_control m))
unfolding evaluate_hardware_health
critical_heat_is_cooled m =
    (hot_state m, cooling_state (safety_loop "SAFE" (anomalies m)) m (hot_state m))
