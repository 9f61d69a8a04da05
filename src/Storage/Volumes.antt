-- ===== src/Storage/Volumes.antt =====
-- The collection of mounted volumes: collectStorageVolumes of bridge_service/src/storage.go.
use hwcontrol.Base.{
  ℕ, String, Bool, ◌||◌, ◌==◌, List, [], ◌∷◌, Option, none, some, any, if◌then◌else◌, str_eq,
}
use hwcontrol.Command.{◌<>◌}
use hwcontrol.Float.{Float64}
use hwcontrol.Storage.{
  BlockFiles, classify_storage_device, CounterMap, StorageIoState, Rates, io_rates,
  normalized_counters,
}
use hwcontrol.Storage.Cache.{HealthCache, read_storage_health}
use hwcontrol.Storage.Health.{SmartctlReport, SmartRun, StorageHealthResult}
use hwcontrol.Telemetry.{StorageVolume}
use hwcontrol.Text.{trim_space}
use hwcontrol.Text.Clean.{clean}

-- disk.Usage
pub record Usage : Type 0 where
  pub total : ℕ
  pub used : ℕ
  pub free : ℕ
  pub used_percent : Float64

-- A partition of disk.Partitions, with what its usage is, when its health is asked for, and what a
-- run of smartctl gives then.
pub record Partition : Type 0 where
  pub mountpoint : String
  pub device : String
  pub fstype : String
  pub opts : List String
  pub usage : Option Usage
  pub asked_at : ℕ
  pub run : SmartRun

-- strings.Join(opts, ",")
unfoldable pub comma_joined : List String → String
comma_joined [] = ""
comma_joined (s ∷ []) = s
comma_joined (s ∷ t ∷ rest) = s <> "," <> comma_joined (t ∷ rest)

-- The usage that counts: of a size that is not zero.
abbrev pub usable_usage : Option Usage → Option Usage
usable_usage none = none
usable_usage (some usage) = if usage.total == 0 then none else some usage

pub record Collected : Type 0 where
  pub volumes : List StorageVolume
  pub state : StorageIoState
  pub cache : HealthCache

module _ (unmarshal : String → Option SmartctlReport) (in_sysfs : String → Bool)
    (files : BlockFiles) where
  unfoldable pub mount_key : String → String
  unfolding clean
  mount_key mount = files.to_lower (clean mount)

  -- On Linux the health of a volume is what readStorageHealth returns.
  unfoldable pub volume_of : Partition → Usage → Rates → StorageHealthResult → StorageVolume
  unfolding trim_space classify_storage_device comma_joined
  volume_of partition usage rates health =
      let device = trim_space partition.device in
      let class = classify_storage_device files device in
      record {
        mount_point = trim_space partition.mountpoint;
        device = device;
        device_type = class.device_type;
        device_type_source = class.source;
        removable = class.removable;
        file_system = trim_space partition.fstype;
        options = trim_space (comma_joined partition.opts);
        total_bytes = usage.total;
        used_bytes = usage.used;
        free_bytes = usage.free;
        usage_percent = usage.used_percent;
        read_bytes_per_sec = rates.read_rate;
        write_bytes_per_sec = rates.write_rate;
        temperature_c = health.temperature;
        health_percent = health.health_percent;
        health_status = health.status;
        health_source = health.source;
        health_reason = health.reason;
      }

  module _ (now : ℕ) (previous : StorageIoState) (counters : CounterMap) where
    abbrev pub rates_for : Partition → Rates
    rates_for partition =
        io_rates files.to_lower now previous counters (trim_space partition.device)
          (trim_space partition.mountpoint)

    -- The loop over the partitions, with the mount points seen so far and the cache of health.
    unfoldable pub collect_from :
        List String → HealthCache → List Partition → List StorageVolume × HealthCache
    unfolding trim_space mount_key io_rates read_storage_health volume_of
    collect_from seen cache [] = ([], cache)
    collect_from seen cache (partition ∷ rest) =
        let mount = trim_space partition.mountpoint in
        let skipped = collect_from seen cache rest in
        let unused = collect_from (mount_key mount ∷ seen) cache rest in
        if str_eq mount "" || any (str_eq (mount_key mount)) seen
        then skipped
        else elim (usable_usage partition.usage) [
          | none ↦ unused
          | some usage ↦
              let health =
                read_storage_health unmarshal in_sysfs partition.asked_at
                  (trim_space partition.device) partition.run cache in
              let (volumes, cache') = collect_from (mount_key mount ∷ seen) health.cache rest in
              (volume_of partition usage (rates_for partition) health.result ∷ volumes, cache')
        ]

  -- `partitions` is `none` where disk.Partitions fails.
  unfoldable pub collect_storage_volumes :
      Option (List Partition) → ℕ → CounterMap → StorageIoState → HealthCache → Collected
  unfolding normalized_counters collect_from
  collect_storage_volumes none now counters state cache = record {
    volumes = [];
    state = state;
    cache = cache;
  }
  collect_storage_volumes (some partitions) now counters state cache =
      let normalized = normalized_counters files.to_lower [] counters in
      let (volumes, cache') = collect_from now state normalized [] cache partitions in
      record {
        volumes = volumes;
        state = record { at = some now; counters = normalized };
        cache = cache';
      }
