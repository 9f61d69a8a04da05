-- ===== src/Health/Severity.antt =====
-- The safety state and the severities of the anomalies: bridge_service/src/health.go.
use hwcontrol.Base.{
  String, Bool, true, ◌&&◌, ◌||◌, ◌≡◌, refl, List, [], ◌∷◌, ◌++◌, if◌then◌else◌, str_eq, arith, any,
  all,
}
use hwcontrol.Float.{Float64}
use hwcontrol.Telemetry.{HardwareMetrics, FanChannel, StorageVolume, BatteryMetrics}
use hwcontrol.Health.Anomalies.{
  HardwareAnomaly, anomaly, report_if, thermal_invalid, overtemperature, channel_anomalies,
  channels_anomalies, controllable_channels, fan_branch, fan_anomalies, battery_anomalies,
  usage_anomalies, storage_anomalies, anomalies,
}
use hwcontrol.Health.{safety_loop, evaluate_hardware_health}

abbrev pub is_critical : HardwareAnomaly → Bool
is_critical a = str_eq a.severity "critical"

abbrev pub is_graded : HardwareAnomaly → Bool
is_graded a = str_eq a.severity "critical" || str_eq a.severity "warning"

loop_critical : (l : List HardwareAnomaly) → safety_loop "CRITICAL" l ≡ "CRITICAL"
unfolding safety_loop
loop_critical [] = refl
loop_critical (a ∷ l) = ground (arith, loop_critical l)

loop_warning :
    (l : List HardwareAnomaly)
    → safety_loop "WARNING" l ≡ (if any is_critical l then "CRITICAL" else "WARNING")
unfolding safety_loop
loop_warning [] = refl
loop_warning (a ∷ l) = ground (arith, loop_warning l, loop_critical l)

-- The worst severity of a list in which every anomaly is critical or a warning.
abbrev pub worst : List HardwareAnomaly → String
worst [] = "SAFE"
worst (a ∷ l) = if any is_critical (a ∷ l) then "CRITICAL" else "WARNING"

pub loop_safe : (l : List HardwareAnomaly) → all is_graded l ≡ true → safety_loop "SAFE" l ≡ worst l
unfolding safety_loop
loop_safe [] h = refl
loop_safe (a ∷ l) h = ground (arith, loop_warning l, loop_critical l)

all-append :
    (p : HardwareAnomaly → Bool) (xs ys : List HardwareAnomaly)
    → all p (xs ++ ys) ≡ (all p xs && all p ys)
all-append p [] ys = refl
all-append p (x ∷ xs) ys = ground (arith, all-append p xs ys)

thermal_invalid_graded :
    (key name : String) (t : Float64) → all is_graded (thermal_invalid key name t) ≡ true
unfolding thermal_invalid anomaly
thermal_invalid_graded key name t = ground arith

overtemperature_graded :
    (key name : String) (t : Float64) → all is_graded (overtemperature key name t) ≡ true
unfolding overtemperature anomaly
overtemperature_graded key name t = ground arith

channel_graded : (c : FanChannel) → all is_graded (channel_anomalies c) ≡ true
unfolding channel_anomalies anomaly
channel_graded c = ground arith

channels_graded : (cs : List FanChannel) → all is_graded (channels_anomalies cs) ≡ true
unfolding channels_anomalies
channels_graded [] = refl
channels_graded (c ∷ cs) =
    rw (all-append is_graded (channel_anomalies c) (channels_anomalies cs))
      (rw (channel_graded c, channels_graded cs))

branch_graded :
    (cs : List FanChannel) (m : HardwareMetrics) → all is_graded (fan_branch cs m) ≡ true
unfolding fan_branch anomaly
branch_graded [] m = ground arith
branch_graded (c ∷ cs) m = channels_graded (c ∷ cs)

fan_graded : (m : HardwareMetrics) → all is_graded (fan_anomalies m) ≡ true
unfolding fan_anomalies
fan_graded m = ground (arith, branch_graded (controllable_channels m.fan_channels) m)

storage_graded : (vs : List StorageVolume) → all is_graded (storage_anomalies vs) ≡ true
unfolding storage_anomalies anomaly
storage_graded [] = refl
storage_graded (v ∷ vs) = ground (arith, storage_graded vs)

battery_graded : (b : BatteryMetrics) → all is_graded (battery_anomalies b) ≡ true
unfolding battery_anomalies anomaly
battery_graded b = ground arith

usage_graded : (m : HardwareMetrics) → all is_graded (usage_anomalies m) ≡ true
unfolding usage_anomalies anomaly
usage_graded m = ground arith

missing_graded :
    (b : Bool) (message : String)
    → all is_graded (report_if b (anomaly "thermal-sensor-missing" "warning" message)) ≡ true
unfolding anomaly
missing_graded b message = ground arith

ruleset graded = (
  all-append, thermal_invalid_graded, overtemperature_graded, fan_graded, storage_graded,
  battery_graded, usage_graded, missing_graded,
)

pub anomalies_graded : (m : HardwareMetrics) → all is_graded (anomalies m) ≡ true
unfolding anomalies
anomalies_graded m = simp graded

-- While the bridge is intact, the safety state is the worst severity among the reported anomalies:
-- CRITICAL if one is critical, else WARNING if there is one, else SAFE.
pub safety_state-eq-worst :
    (m : HardwareMetrics)
    → (evaluate_hardware_health true m).safety_state
      ≡ worst (evaluate_hardware_health true m).anomalies
unfolding evaluate_hardware_health
safety_state-eq-worst m = loop_safe (anomalies m) (anomalies_graded m)
