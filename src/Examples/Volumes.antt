-- ===== src/Examples/Volumes.antt =====
-- Volumes and the health of their disks.
use hwcontrol.Base.{
  String, Bool, true, false, ◌||◌, ◌≡◌, refl, List, [], ◌∷◌, all, map, Option, none, some, str_eq,
}
use hwcontrol.Base.Distinct.{distinct}
use hwcontrol.Float.{lit}
use hwcontrol.Storage.{BlockFiles}
use hwcontrol.Storage.Bounded.{IsSound, smart_report-IsSound}
use hwcontrol.Storage.Health.{SmartctlReport, SmartRun, parse_smartctl_report}
use hwcontrol.Storage.Mounts.{keys, is_mounted, collected_volumes_apart}
use hwcontrol.Storage.Queries.{
  Event, looks, ends, Query, AreSpaced, queries, event, runs, never_overlap, smart_queries_spaced,
}
use hwcontrol.Storage.Volumes.{Partition, collect_storage_volumes}
use hwcontrol.Telemetry.{StorageVolume}

abbrev report : SmartctlReport
report = record { passed = some true; temperature = some (lit 41); percentage_used = some (lit 7) }

abbrev unmarshal : String → Option SmartctlReport
unmarshal text = some report

abbrev in_sysfs : String → Bool
in_sysfs path = str_eq path "/sys/class/block/sda" || str_eq path "/sys/class/block/sdb1"

abbrev run : SmartRun
run = record { timed_out = false; failed = false; stdout = "{}" }

-- Two calls for one device file within 30 seconds, one for another in between, and a third later; in
-- this sysfs a partition of sdb has an entry of its own.
abbrev events : List Event
events =
    looks 1000000000 "/dev/sda1"
    ∷ looks 1500000000 "/dev/sdb1"
    ∷ ends "/dev/sda" run
    ∷ looks 2000000000 "/dev/sda2"
    ∷ ends "/dev/sdb1" run
    ∷ looks 32000000000 "/dev/sda1"
    ∷ []

abbrev asked : List Query
asked = (1000000000, "/dev/sda") ∷ (1500000000, "/dev/sdb1") ∷ (32000000000, "/dev/sda") ∷ []

three_queries : queries unmarshal in_sysfs events ([], []) ≡ asked
unfolding queries event runs
three_queries = refl

smart_queries_spaced_example : AreSpaced (queries unmarshal in_sysfs events ([], []))
unfolding never_overlap event runs
smart_queries_spaced_example = smart_queries_spaced unmarshal in_sysfs events [] [] refl

smart_report-IsSound_example : IsSound (some report) (parse_smartctl_report unmarshal "{}")
smart_report-IsSound_example = smart_report-IsSound unmarshal "{}"

abbrev files : BlockFiles
files = record { eval_symlinks = λ path. none; read_file = λ path. none; to_lower = λ s. s }

abbrev mounted : String → Partition
mounted mount = record {
  mountpoint = mount;
  device = "/dev/sda1";
  fstype = "ext4";
  opts = "rw" ∷ [];
  usage = some (record { total = 1000; used = 10; free = 990; used_percent = lit 1 });
  asked_at = 1000000000;
  run = run;
}

abbrev volumes : List StorageVolume
volumes =
    (collect_storage_volumes unmarshal in_sysfs files
      (some (mounted "/" ∷ mounted "/home" ∷ mounted "/home/" ∷ [])) 1000000000 []
      (record { at = none; counters = [] }) []).volumes

mount_points : map (λ (v : StorageVolume). v.mount_point) volumes ≡ "/" ∷ "/home" ∷ []
unfolding collect_storage_volumes
mount_points = refl

collected_volumes_apart_example :
    (distinct (keys unmarshal in_sysfs files volumes) ≡ true) × (all is_mounted volumes ≡ true)
collected_volumes_apart_example =
    collected_volumes_apart unmarshal in_sysfs files
      (some (mounted "/" ∷ mounted "/home" ∷ mounted "/home/" ∷ [])) 1000000000 []
      (record { at = none; counters = [] }) []
