-- ===== src/Health.antt =====
-- evaluateHardwareHealth of bridge_service/src/health.go: the anomalies of a set of readings, and the
-- safety state, the recovery action and the status that follow from them.
pub mod Anomalies
pub mod Capabilities
pub mod Severity
pub mod Status
pub mod Cooling
use hwcontrol.Base.{
  String, Bool, true, false, not, ◌&&◌, ◌||◌, ◌≡◌, List, [], ◌∷◌, ◌++◌, Option, none, some,
  if◌then◌else◌, str_eq,
}
use hwcontrol.Float
use hwcontrol.Float.{lit}
use hwcontrol.Telemetry.{HardwareMetrics, is_valid_temperature}
use hwcontrol.Health.Anomalies.{
  HardwareAnomaly, anomalies, thermal_critical_temperature, anomaly, has_validated_fan_control,
}
use hwcontrol.Health.Capabilities.{HardwareCapability, capabilities, available}

unfoldable pub has_valid_critical_temperature : HardwareMetrics → Bool
has_valid_critical_temperature metrics =
    (Float.lt (lit 0) metrics.cpu_temperature
      && is_valid_temperature metrics.cpu_temperature
      && Float.le thermal_critical_temperature metrics.cpu_temperature)
    || (Float.lt (lit 0) metrics.gpu_temperature
        && is_valid_temperature metrics.gpu_temperature
        && Float.le thermal_critical_temperature metrics.gpu_temperature)

-- One step of the loop over the anomalies.
unfoldable pub raise : String → HardwareAnomaly → String
raise state a =
    if str_eq a.severity "critical"
    then "CRITICAL"
    else if str_eq a.severity "warning"
    then if str_eq state "SAFE" then "WARNING" else state
    else state

unfoldable pub safety_loop : String → List HardwareAnomaly → String
unfolding raise
safety_loop state [] = state
safety_loop state (a ∷ rest) = safety_loop (raise state a) rest

pub record HardwareHealthEvaluation : Type 0 where
  pub status : String
  pub safety_state : String
  pub recovery_action : String
  pub capabilities : List (String × HardwareCapability)
  pub anomalies : List HardwareAnomaly

abbrev pub integrity_anomaly : HardwareAnomaly
integrity_anomaly =
    anomaly "runtime-integrity-failure" "critical"
      "Runtime integrity verification failed; sensitive IPC and hardware control must remain disabled"

unfoldable pub recovery_action : String → HardwareMetrics → String
recovery_action state metrics =
    if str_eq state "CRITICAL"
    then if has_valid_critical_temperature metrics
        && metrics.thermal_safety_available
        && has_validated_fan_control metrics
      then "emergency-cooling-and-reduce-thermal-load"
      else "stop-hardware-control-and-cool"
    else if str_eq state "WARNING"
    then "monitor-and-reduce-thermal-load"
    else "none"

abbrev pub is_empty {ℓ} : {A : Type ℓ} → List A → Bool
is_empty [] = true
is_empty (x ∷ xs) = false

unfoldable pub health_status : String → List HardwareAnomaly → Bool → String
health_status state found identity =
    if str_eq state "FAIL_SAFE"
    then "unsafe"
    else if not (str_eq state "SAFE") || not (is_empty found) || not identity
    then "degraded"
    else "healthy"

-- `integrity_healthy` is bridgeIntegrityHealthy().
unfoldable pub evaluate_hardware_health : Bool → HardwareMetrics → HardwareHealthEvaluation
evaluate_hardware_health integrity_healthy metrics =
    let found = anomalies metrics in
    let state = safety_loop "SAFE" found in
    let state' = if integrity_healthy then state else "FAIL_SAFE" in
    let found' = if integrity_healthy then found else found ++ integrity_anomaly ∷ [] in
    record {
      status = health_status state' found' (available "hardwareIdentity" (capabilities metrics));
      safety_state = state';
      recovery_action =
          if integrity_healthy
          then recovery_action state metrics
          else "trusted-repair-or-reinstall-required";
      capabilities = capabilities metrics;
      anomalies = found';
    }
