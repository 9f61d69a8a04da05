-- ===== src/Examples/Systems.antt =====
-- The power daemon, the canary, the integrity monitor, health and history.
use hwcontrol.Base.{
  str_eq, String, Bool, true, false, not, ◌&&◌, ◌||◌, List, [], ◌∷◌, Option, none, some, refl, ◌≡◌,
  all, any,
}
use hwcontrol.Base.Result.{ok, is_ok}
use hwcontrol.Int.{pos}
use hwcontrol.Float.{lit}
use hwcontrol.Telemetry.{HardwareMetrics, zero_metrics}
use hwcontrol.Power.Linux.{linux_profile_name, set_platform_power_mode}
use hwcontrol.Power.Linux.Confirmed.{ReadsBack, success_is_read_back}
use hwcontrol.Security.{Guard, check_all}
use hwcontrol.Security.Laws.{HasTripped, differs, canary_trips_once}
use hwcontrol.Security.Integrity.{Monitor, Tick, tick, ticks}
use hwcontrol.Security.Integrity.Latch.{
  IsConsistent, is_due, is_intact, ticks-IsConsistent, tick_detects_change,
}
use hwcontrol.Files.{FileStatus, FileView}
use hwcontrol.Secrets.{missing}
use hwcontrol.Security.Integrity.Start.{
  MonitorReadings, integrity_file_digest, new_bridge_integrity_monitor,
}
use hwcontrol.Security.Integrity.Fresh.{fresh_monitor_holds}
use hwcontrol.Health.{has_valid_critical_temperature, evaluate_hardware_health}
use hwcontrol.Health.Anomalies.{has_validated_fan_control}
use hwcontrol.Health.Cooling.{critical_heat_is_cooled}
use hwcontrol.Health.Severity.{worst, safety_state-eq-worst}
use hwcontrol.HealthyCore.{evaluate}
use hwcontrol.HealthyCore.Score.{DeviceKind, Evidence}
use hwcontrol.HealthyCore.Range.{IsAssessed, evaluate_in_range}
use hwcontrol.History.{record_all, max_sensor_history_samples}
use hwcontrol.History.Laws.{last, stamped, history_is_last_samples}
use hwcontrol.Examples.Data.{unquote, daemon, power, hot}

success_is_read_back_example :
    ReadsBack unquote
      (linux_profile_name (lit 0))
      (set_platform_power_mode unquote daemon "SYSTEM" (lit 0) power).0.1
      (set_platform_power_mode unquote daemon "SYSTEM" (lit 0) power).1.log
success_is_read_back_example = success_is_read_back unquote daemon "SYSTEM" (lit 0) tt

abbrev guard : Guard
guard = record {
  service = record {
    path = "decoy/bridger.key";
    baseline = "abc";
    healthy = true;
    triggered = false;
    last_reason = "";
  };
  panic_file = false;
  events = [];
}

-- A good reading, a changed one, and one that fails.
abbrev readings : List (Option String × Bool)
readings = (some "abc", true) ∷ (some "abd", true) ∷ (none, true) ∷ []

canary_trips_once_example :
    HasTripped (any (differs guard.service.baseline) readings) guard (check_all readings guard)
canary_trips_once_example = canary_trips_once readings guard refl refl

abbrev monitor : Monitor
monitor = record {
  targets = record { path = "/opt/hwcontrol/bridge_service"; baseline = "abc" } ∷ [];
  healthy = true;
  bridge_integrity_state = true;
  reported = [];
  running = true;
  last_verify_check = 0;
}

abbrev changed : Tick
changed = record {
  now = 1000000000;
  after_verify = 1000000001;
  verify = ok tt;
  digest = λ path. ok "abd";
}

tick_detects_change_example :
    ((tick changed monitor).healthy ≡ (
      (not (is_due changed monitor) || is_ok changed.verify)
      && all (is_intact changed.digest) monitor.targets))
    × ((tick changed monitor).running ≡ (tick changed monitor).healthy)
tick_detects_change_example = tick_detects_change changed monitor refl refl

critical_heat_is_cooled_example :
    (has_valid_critical_temperature hot ≡ true
      → (evaluate_hardware_health true hot).safety_state ≡ "CRITICAL")
    × (str_eq
          (evaluate_hardware_health true hot).recovery_action
          "emergency-cooling-and-reduce-thermal-load"
        ≡ (has_valid_critical_temperature hot
            && hot.thermal_safety_available
            && has_validated_fan_control hot))
critical_heat_is_cooled_example = critical_heat_is_cooled hot

ticks-IsConsistent_example : IsConsistent (ticks (changed ∷ changed ∷ []) monitor)
ticks-IsConsistent_example = ticks-IsConsistent (changed ∷ changed ∷ []) monitor (refl, refl)

safety_state-eq-worst_example :
    (evaluate_hardware_health true hot).safety_state
    ≡ worst (evaluate_hardware_health true hot).anomalies
safety_state-eq-worst_example = safety_state-eq-worst hot

abbrev evidence : Evidence
evidence = record {
  device = DeviceKind.gpu;
  sample_count = pos 20;
  max_temperature_c = some (lit 90);
  thermal_limit_c = some (lit 100);
  thermal_throttle_events = pos 3;
  observed_errors = pos 9;
  vendor_health_percent = some (lit 80);
  memory_usage_percent = none;
}

evaluate_in_range_example : IsAssessed (evaluate evidence)
evaluate_in_range_example = evaluate_in_range evidence

abbrev reading : HardwareMetrics
reading = record zero_metrics { metrics_collected_at = "2025-01-01T00:00:00Z" }

history_is_last_samples_example :
    record_all (reading ∷ zero_metrics ∷ reading ∷ []) []
    ≡ last max_sensor_history_samples (stamped (reading ∷ zero_metrics ∷ reading ∷ []))
history_is_last_samples_example = history_is_last_samples (reading ∷ zero_metrics ∷ reading ∷ [])

abbrev file_view : String → FileView
file_view path = record { status = FileStatus.regular 1 420; contents = ok path }

abbrev monitor_readings : MonitorReadings
monitor_readings = record {
  env_secret = "environment";
  env_key_file = "";
  env_files = "/opt/hw/../hw/bridge";
  entry = missing;
  executable = ok "/opt/hw/bridge";
  eval_symlinks = λ path. ok path;
  installation = λ root. ok tt;
  now = 7;
}

abbrev fresh_monitor : Monitor
fresh_monitor = record {
  targets =
      record { path = "/opt/hw/bridge"; baseline = "/opt/hw/bridge" }
      ∷ record { path = "/opt/hw/ai_engine"; baseline = "/opt/hw/ai_engine" }
      ∷ [];
  healthy = true;
  bridge_integrity_state = true;
  reported = [];
  running = true;
  last_verify_check = 7;
}

fresh_monitor_holds_example :
    (tick
      (record {
        now = 8;
        after_verify = 9;
        verify = ok tt;
        digest = integrity_file_digest (λ text. text) file_view;
      })
      fresh_monitor).healthy
    ≡ true
unfolding new_bridge_integrity_monitor
fresh_monitor_holds_example =
    fresh_monitor_holds (λ text. text) file_view monitor_readings fresh_monitor 8 9 refl
