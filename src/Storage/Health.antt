-- ===== src/Storage/Health.antt =====
-- The health that a disk reports through smartctl: bridge_service/src/storage_health.go.
use hwcontrol.Base.{
  String, Bool, true, false, not, ◌&&◌, List, [], ◌∷◌, Option, none, some, if◌then◌else◌, str_eq,
}
use hwcontrol.Float
use hwcontrol.Float.{Float64, lit, neg_lit}
use hwcontrol.Float.Arith.{sub}
use hwcontrol.Int.{ℤ}
use hwcontrol.Text.Clean.{clean, join}
use hwcontrol.Text.Number.{atoi}
use hwcontrol.Text.Path.{base, has_prefix}
use hwcontrol.Storage.Names.{trim_digits, partition_parts, has_p_suffix}

-- The fields of the report that are read; `none` is a field that the report does not have.
pub record SmartctlReport : Type 0 where
  pub passed : Option Bool
  pub temperature : Option Float64
  pub percentage_used : Option Float64

pub record StorageHealthResult : Type 0 where
  pub status : String
  pub source : String
  pub reason : String
  pub temperature : Option Float64
  pub health_percent : Option Float64

abbrev pub unknown_health : String → String → StorageHealthResult
unknown_health source reason = record {
  status = "unknown";
  source = source;
  reason = reason;
  temperature = none;
  health_percent = none;
}

abbrev base_if_numbered : String → Option ℤ → List String
base_if_numbered before none = []
base_if_numbered before (some n) = before ∷ []

unfoldable pub parent_of_parts : Option (String × String) → List String
unfolding atoi
parent_of_parts none = []
parent_of_parts (some (before, after)) = base_if_numbered before (atoi after)

-- The names to look for under /sys/class/block, in order.
unfoldable pub device_candidates : String → List String
unfolding trim_digits partition_parts has_p_suffix parent_of_parts
device_candidates name =
    let trimmed = trim_digits name in
    name
    ∷ (if has_p_suffix name
        then parent_of_parts (partition_parts name)
        else if not (str_eq trimmed name)
        then trimmed ∷ []
        else [])

-- `in_sysfs` says whether os.Stat finds a path.
unfoldable pub first_block_device : (String → Bool) → List String → String
unfolding join
first_block_device in_sysfs [] = ""
first_block_device in_sysfs (candidate ∷ rest) =
    let next = first_block_device in_sysfs rest in
    if not (str_eq candidate "") && in_sysfs (join "/sys/class/block" candidate)
    then join "/dev" candidate
    else next

unfoldable pub linux_physical_device : (String → Bool) → String → String
unfolding clean base has_prefix device_candidates first_block_device
linux_physical_device in_sysfs device =
    if not (has_prefix (clean device) "/dev/")
    then ""
    else first_block_device in_sysfs (device_candidates (base device))

abbrev pub overall_status : Option Bool → StorageHealthResult
overall_status none = unknown_health "smartctl" "Drive did not provide a supported health indicator"
overall_status (some true) =
    record (unknown_health "smartctl" "Device-reported SMART overall status is passing") {
      status = "healthy";
    }
overall_status (some false) =
    record (unknown_health "smartctl" "Device-reported SMART overall status is failing") {
      status = "warning";
    }

unfoldable pub plausible_temperature : Option Float64 → Option Float64
plausible_temperature none = none
plausible_temperature (some t) =
    if Float.le (neg_lit 20) t && Float.le t (lit 125) then some t else none

unfoldable pub remaining : Float64 → Float64
unfolding sub Float.lt
remaining used = let value = sub (lit 100) used in if Float.lt value (lit 0) then lit 0 else value

abbrev worn_out : Float64 → StorageHealthResult → StorageHealthResult
worn_out used result =
    if Float.le (lit 100) used && str_eq result.status "healthy"
    then record result {
      status = "warning";
      reason = "NVMe reported percentage-used has reached or exceeded its rated endurance";
    }
    else result

unfoldable pub apply_endurance : Option Float64 → StorageHealthResult → StorageHealthResult
unfolding remaining Float.le
apply_endurance none result = result
apply_endurance (some used) result =
    if Float.le (lit 0) used && Float.le used (lit 1000)
    then worn_out used (record result { health_percent = some (remaining used) })
    else result

abbrev pub health_of_report : Option SmartctlReport → StorageHealthResult
health_of_report none = unknown_health "smartctl" "SMART report was not valid JSON"
health_of_report (some report) =
    apply_endurance report.percentage_used (record (overall_status report.passed) {
      temperature = plausible_temperature report.temperature;
    })

-- How a run of smartctl ended.
pub record SmartRun : Type 0 where
  pub timed_out : Bool
  pub failed : Bool
  pub stdout : String

-- `unmarshal` is json.Unmarshal.
module _ (unmarshal : String → Option SmartctlReport) where
  unfoldable pub parse_smartctl_report : String → StorageHealthResult
  unfolding plausible_temperature apply_endurance
  parse_smartctl_report text = health_of_report (unmarshal text)

  unfoldable pub result_of_run : SmartRun → StorageHealthResult
  unfolding parse_smartctl_report
  result_of_run run =
      if run.timed_out
      then unknown_health "smartctl" "SMART query timed out"
      else if run.failed && str_eq run.stdout ""
      then unknown_health "smartctl"
          "smartctl is unavailable or the device cannot be queried; permissions may be required"
      else parse_smartctl_report run.stdout
