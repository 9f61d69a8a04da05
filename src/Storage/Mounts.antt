-- ===== src/Storage/Mounts.antt =====
-- Which volumes a collection returns: collectStorageVolumes of bridge_service/src/storage.go.
use hwcontrol.Base.{
  ℕ, String, Bool, true, false, not, ◌&&◌, ◌||◌, ◌==◌, ◌≡◌, refl, List, [], ◌∷◌, Option, none, some,
  any, all, map, str_eq, arith, Bool-cases, Option-cases, inl, inr, neither,
}
use hwcontrol.Base.Distinct.{distinct, fresh, fresh_first, join_distinct}
use hwcontrol.Storage.{BlockFiles, CounterMap, StorageIoState, normalized_counters}
use hwcontrol.Storage.Cache.{HealthCache, read_storage_health}
use hwcontrol.Storage.Health.{SmartctlReport}
use hwcontrol.Storage.Volumes.{
  Usage, Partition, usable_usage, mount_key, volume_of, rates_for, collect_from,
  collect_storage_volumes,
}
use hwcontrol.Telemetry.{StorageVolume}
use hwcontrol.Text.{trim_space}

-- A mount point that is not blank, and a size that is not zero.
abbrev pub is_mounted : StorageVolume → Bool
is_mounted v = not (str_eq v.mount_point "") && not (v.total_bytes == 0)

module _ (unmarshal : String → Option SmartctlReport) (in_sysfs : String → Bool)
    (files : BlockFiles) where
  abbrev pub keys : List StorageVolume → List String
  keys = map (λ (v : StorageVolume). mount_key unmarshal in_sysfs files v.mount_point)

  abbrev AreApart : List String → List StorageVolume → Type 0
  AreApart seen volumes =
      (fresh seen (keys volumes) ≡ true)
      × (distinct (keys volumes) ≡ true)
      × (all is_mounted volumes ≡ true)

  skipped_key :
      (key : String) (seen : List String) (volumes : List StorageVolume)
      → AreApart (key ∷ seen) volumes
      → AreApart seen volumes
  skipped_key key seen volumes (f, d, m) = ((fresh_first key seen (keys volumes) f).0, d, m)

  usable_size :
      (u : Option Usage) {usage : Usage} → usable_usage u ≡ some usage → (usage.total == 0) ≡ false
  usable_size none h = cc
  usable_size (some v) h = ground arith

  add_volume :
      (partition : Partition) (usage : Usage) (seen : List String) (v : StorageVolume)
      (volumes : List StorageVolume)
      → v.mount_point ≡ trim_space partition.mountpoint
      → v.total_bytes ≡ usage.total
      → (str_eq (trim_space partition.mountpoint) ""
          || any
              (str_eq (mount_key unmarshal in_sysfs files (trim_space partition.mountpoint)))
              seen)
        ≡ false
      → (usage.total == 0) ≡ false
      → AreApart
          (mount_key unmarshal in_sysfs files (trim_space partition.mountpoint) ∷ seen)
          volumes
      → AreApart seen (v ∷ volumes)
  add_volume partition usage seen v volumes m t n z (f, d, a) =
      let mount = trim_space partition.mountpoint in
      let key = mount_key unmarshal in_sysfs files mount in
      let (named, unseen) = neither (str_eq mount "") (any (str_eq key) seen) n in
      let (f', d') = join_distinct key seen (keys volumes) unseen (f, d) in
      rw (m, t) (f', d', rw (named, z, a) refl)

  module _ (now : ℕ) (previous : StorageIoState) (counters : CounterMap) where
    from_apart :
        (seen : List String) (cache : HealthCache) (partitions : List Partition)
        → AreApart seen
            (collect_from unmarshal in_sysfs files now previous counters seen cache partitions).0
    unfolding collect_from volume_of
    from_apart seen cache [] = (refl, refl, refl)
    from_apart seen cache (partition ∷ rest) =
        let mount = trim_space partition.mountpoint in
        let key = mount_key unmarshal in_sysfs files mount in
        elim (Bool-cases (str_eq mount "" || any (str_eq key) seen)) [
          | inl skip ↦ rw skip (from_apart seen cache rest)
          | inr new ↦ elim (Option-cases (usable_usage partition.usage)) [
            | inl e ↦ rw (new, e) (skipped_key key seen _ (from_apart (key ∷ seen) cache rest))
            | inr (usage, e) ↦
                let health =
                  read_storage_health unmarshal in_sysfs partition.asked_at
                    (trim_space partition.device) partition.run cache in
                let rates = rates_for unmarshal in_sysfs files now previous counters partition in
                let v = volume_of unmarshal in_sysfs files partition usage rates health.result in
                rw (new, e)
                  (add_volume partition usage seen v _ refl refl new (usable_size partition.usage e)
                    (from_apart (key ∷ seen) health.cache rest))
          ]
        ]

  -- A collection returns volumes with different mount points, letter case and the form of the path
  -- left aside; each has a mount point that is not blank and a size that is not zero.
  pub collected_volumes_apart :
      (partitions : Option (List Partition)) (now : ℕ) (counters : CounterMap)
      (state : StorageIoState) (cache : HealthCache)
      → let volumes =
          (collect_storage_volumes unmarshal in_sysfs files partitions now counters state
            cache).volumes in
        (distinct (keys volumes) ≡ true) × (all is_mounted volumes ≡ true)
  unfolding collect_storage_volumes
  collected_volumes_apart none now counters state cache = (refl, refl)
  collected_volumes_apart (some partitions) now counters state cache =
      let (f, d, m) =
        from_apart now state (normalized_counters files.to_lower [] counters) [] cache partitions in
      (d, m)
