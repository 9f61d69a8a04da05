-- ===== src/Storage.antt =====
-- Mounted volumes: bridge_service/src/storage.go.
pub mod Names
pub mod Health
pub mod Cache
pub mod Queries
pub mod Bounded
pub mod Volumes
pub mod Mounts
use hwcontrol.Base.{
  ℕ, ◌+◌, ◌-◌, ◌*◌, ◌/◌, ◌%◌, ◌^◌, String, Bool, true, false, not, ◌&&◌, ◌||◌, ◌==◌, List, [], ◌∷◌,
  Option, none, some, any, ltb, if◌then◌else◌, str_eq,
}
use hwcontrol.Collect.{contains}
use hwcontrol.Command.{◌<>◌}
use hwcontrol.Float
use hwcontrol.Float.{Float64, lit, one}
use hwcontrol.Float.Arith.{add, div, round}
use hwcontrol.Storage.Cache.{HealthCache, read_storage_health}
use hwcontrol.Storage.Health.{SmartctlReport, SmartRun, StorageHealthResult}
use hwcontrol.Storage.Names.{trim_digits, trim_slash, partition_parts, has_p_suffix}
use hwcontrol.Telemetry.{StorageVolume}
use hwcontrol.Text.{trim_space}
use hwcontrol.Text.Clean.{clean, join}
use hwcontrol.Text.Path.{base, has_prefix}

-- What classifyStorageDevice returns.
pub record DeviceClass : Type 0 where
  pub device_type : String
  pub source : String
  pub removable : Bool

abbrev device_class : String → String → Bool → DeviceClass
device_class t s r = record { device_type = t; source = s; removable = r }

-- filepath.EvalSymlinks and os.ReadFile; strings.ToLower.
pub record BlockFiles : Type 0 where
  pub eval_symlinks : String → Option String
  pub read_file : String → Option String
  pub to_lower : String → String

abbrev parent_of : String → Option (String × String) → String
parent_of name none = name
parent_of name (some (before, after)) = if str_eq (trim_digits after) "" then before else name

-- The block device that a partition stands on, by its name.
unfoldable pub parent_name : String → String
unfolding trim_digits partition_parts has_p_suffix
parent_name name =
    if has_p_suffix name then parent_of name (partition_parts name) else trim_digits name

abbrev or_empty : Option String → String
or_empty none = ""
or_empty (some s) = s

abbrev rotational_class : Option String → Bool → Option DeviceClass
rotational_class none removable = none
rotational_class (some flag) removable =
    if str_eq (trim_space flag) "0"
    then some (device_class "ssd" "linux-sysfs" removable)
    else if str_eq (trim_space flag) "1"
    then some (device_class "hdd" "linux-sysfs" removable)
    else none

abbrev removable_class : Bool → Option DeviceClass → Option DeviceClass
removable_class removable (some c) = some c
removable_class removable none =
    if removable then some (device_class "removable_storage" "linux-sysfs" true) else none

-- What sysfs says of a block device.
unfoldable pub sysfs_class : BlockFiles → String → Option DeviceClass
unfolding trim_space contains has_prefix join
sysfs_class files parent =
    let root = join "/sys/class/block" parent in
    let device_path = files.to_lower (or_empty (files.eval_symlinks (join root "device"))) in
    let removable = str_eq (trim_space (or_empty (files.read_file (join root "removable")))) "1" in
    if str_eq parent ""
    then none
    else if contains device_path "/usb" || contains device_path "usb"
    then some (device_class "usb_storage" "linux-sysfs" true)
    else if has_prefix parent "nvme"
    then some (device_class "nvme_ssd" "linux-sysfs" removable)
    else if has_prefix parent "mmcblk"
    then some
        (device_class (if removable then "sd_card" else "mmc_storage") "linux-sysfs" removable)
    else removable_class removable
        (rotational_class (files.read_file (join root "queue/rotational")) removable)

unfoldable pub path_class : String → DeviceClass
unfolding contains has_prefix
path_class value =
    if contains value "/disk/by-id/usb-"
    then device_class "usb_storage" "linux-device-path" true
    else if has_prefix value "/dev/nvme"
    then device_class "nvme_ssd" "linux-device-path" false
    else if contains value "sdcard" || contains value "sd_card"
    then device_class "sd_card" "device-path" true
    else device_class "unknown" "insufficient-device-metadata" false

abbrev class_or : Option DeviceClass → DeviceClass → DeviceClass
class_or none c = c
class_or (some c) other = c

unfoldable pub classify_storage_device : BlockFiles → String → DeviceClass
unfolding trim_space has_prefix base parent_name sysfs_class path_class
classify_storage_device files device =
    let value = files.to_lower (trim_space device) in
    if str_eq value ""
    then device_class "unknown" "unavailable" false
    else if has_prefix value "/dev/"
    then class_or (sysfs_class files (parent_name (base value))) (path_class value)
    else path_class value

-- The counters of one device, 64 bits each.
pub record IoCounters : Type 0 where
  pub read_bytes : ℕ
  pub write_bytes : ℕ

abbrev pub CounterMap : Type 0
CounterMap = List (String × IoCounters)

-- The state between two collections; `at` is `none` before the first.
pub record StorageIoState : Type 0 where
  pub at : Option ℕ
  pub counters : CounterMap

unfoldable pub storage_device_key : (String → String) → String → String
unfolding trim_space clean
storage_device_key to_lower device =
    let value = trim_space device in if str_eq value "" then "" else to_lower (clean value)

unfoldable pub find_counter : String → CounterMap → Option IoCounters
find_counter key [] = none
find_counter key ((name, counter) ∷ rest) =
    if str_eq name key then some counter else find_counter key rest

-- The loop over the keys of a volume.
unfoldable pub first_counter : List String → CounterMap → Option IoCounters
unfolding find_counter
first_counter [] counters = none
first_counter (key ∷ keys) counters =
    let rest = first_counter keys counters in
    if str_eq key ""
    then rest
    else elim (find_counter key counters) [ none ↦ rest | some counter ↦ some counter ]

unfoldable pub storage_counter_for_volume :
    (String → String) → String → String → CounterMap → Option IoCounters
unfolding storage_device_key base trim_slash first_counter
storage_counter_for_volume to_lower device mount counters =
    first_counter
      (storage_device_key to_lower device
        ∷ storage_device_key to_lower (base device)
        ∷ storage_device_key to_lower (trim_slash mount)
        ∷ [])
      counters

-- The map by key: of counters with one key, the one that comes last in the map's order counts.
unfoldable pub normalized_counters : (String → String) → CounterMap → CounterMap → CounterMap
unfolding storage_device_key
normalized_counters to_lower out [] = out
normalized_counters to_lower out ((name, counter) ∷ rest) =
    normalized_counters to_lower ((storage_device_key to_lower name, counter) ∷ out) rest

-- The float64 of an unsigned integer.
unfoldable pub of_nat : ℕ → Float64
unfolding round
of_nat n = round false (n * one) 1

-- Duration.Seconds of the time since a reading; 0 where the clock went back.
unfoldable pub seconds_since : ℕ → ℕ → Float64
unfolding of_nat add div
seconds_since before now =
    let d = now - before in
    add (of_nat (d / 1000000000)) (div (of_nat (d % 1000000000)) (lit 1000000000))

-- The unsigned difference wraps; a counter that was reset counts as no traffic.
unfoldable pub counter_delta : ℕ → ℕ → Float64
unfolding of_nat
counter_delta before after =
    let delta = of_nat ((after + 2 ^ 64 - before) % 2 ^ 64) in
    if ltb after before then lit 0 else delta

pub record Rates : Type 0 where
  pub read_rate : Float64
  pub write_rate : Float64

abbrev no_rates : Rates
no_rates = record { read_rate = lit 0; write_rate = lit 0 }

abbrev rates_between : Float64 → IoCounters → IoCounters → Rates
rates_between elapsed before after =
    if Float.lt (lit 0) elapsed
    then record {
      read_rate = div (counter_delta before.read_bytes after.read_bytes) elapsed;
      write_rate = div (counter_delta before.write_bytes after.write_bytes) elapsed;
    }
    else no_rates

abbrev rates_of : Float64 → Option IoCounters → Option IoCounters → Rates
rates_of elapsed none before = no_rates
rates_of elapsed (some after) none = no_rates
rates_of elapsed (some after) (some before) = rates_between elapsed before after

-- The rates of a volume since the previous collection.
unfoldable pub io_rates :
    (String → String) → ℕ → StorageIoState → CounterMap → String → String → Rates
unfolding seconds_since counter_delta div Float.lt storage_counter_for_volume
io_rates to_lower now previous counters device mount = elim previous.at [
  | none ↦ no_rates
  | some before ↦
      rates_of (seconds_since before now)
        (storage_counter_for_volume to_lower device mount counters)
        (storage_counter_for_volume to_lower device mount previous.counters)
]
