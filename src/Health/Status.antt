-- ===== src/Health/Status.antt =====
-- The status of the health evaluation: bridge_service/src/health.go.
use hwcontrol.Base.{
  Bool, true, false, ◌&&◌, ◌≡◌, refl, List, [], ◌∷◌, str_eq, any, Bool-cases, inl, inr,
}
use hwcontrol.Telemetry.{HardwareMetrics}
use hwcontrol.Health.Anomalies.{HardwareAnomaly, anomalies}
use hwcontrol.Health.Capabilities.{available, capabilities}
use hwcontrol.Health.Severity.{worst, is_critical, loop_safe, anomalies_graded}
use hwcontrol.Health.{is_empty, safety_loop, health_status, evaluate_hardware_health}

safety_of : (m : HardwareMetrics) → safety_loop "SAFE" (anomalies m) ≡ worst (anomalies m)
safety_of m = loop_safe (anomalies m) (anomalies_graded m)

status_of_worst :
    (found : List HardwareAnomaly) (identity : Bool)
    → str_eq (health_status (worst found) found identity) "healthy" ≡ (is_empty found && identity)
unfolding health_status
status_of_worst [] true = refl
status_of_worst [] false = refl
status_of_worst (a ∷ rest) identity = elim (Bool-cases (any is_critical (a ∷ rest))) [
  | inl h ↦ rw (worst, h) refl
  | inr h ↦ rw (worst, h) refl
]

-- The status is "healthy" exactly if the bridge is intact, no anomaly is found and the hardware was
-- identified.
pub healthy_without_anomalies :
    (integrity : Bool) (m : HardwareMetrics)
    → str_eq (evaluate_hardware_health integrity m).status "healthy"
      ≡ (integrity && is_empty (anomalies m) && available "hardwareIdentity" (capabilities m))
unfolding evaluate_hardware_health health_status
healthy_without_anomalies true m =
    rw (safety_of m) (status_of_worst (anomalies m) (available "hardwareIdentity" (capabilities m)))
healthy_without_anomalies false m = refl
