-- ===== src/Storage/Cache.antt =====
-- The cache of disk health: readStorageHealth of bridge_service/src/storage_health.go. The lock is
-- held while the cache is looked up and while it is written, but not while smartctl runs.
use hwcontrol.Base.{
  ℕ, ◌-◌, String, Bool, List, [], ◌∷◌, Option, none, some, ltb, if◌then◌else◌, str_eq,
}
use hwcontrol.Storage.Health.{
  SmartctlReport, StorageHealthResult, SmartRun, unknown_health, linux_physical_device,
  result_of_run,
}

-- A result and when it was asked for, in nanoseconds.
pub record CachedHealth : Type 0 where
  pub at : ℕ
  pub result : StorageHealthResult

-- The first entry of a device counts.
abbrev pub HealthCache : Type 0
HealthCache = List (String × CachedHealth)

unfoldable pub cached_health : String → HealthCache → Option CachedHealth
cached_health physical [] = none
cached_health physical ((name, cached) ∷ rest) =
    if str_eq name physical then some cached else cached_health physical rest

abbrev pub thirty_seconds : ℕ
thirty_seconds = 30000000000

-- A time before the entry's gives a negative age, which is below 30 seconds too.
abbrev pub is_recent : ℕ → Option CachedHealth → Option StorageHealthResult
is_recent now none = none
is_recent now (some cached) =
    if ltb (now - cached.at) thirty_seconds then some cached.result else none

-- The first locked section: a cached result that is recent, if there is one.
unfoldable pub look_up : ℕ → String → HealthCache → Option StorageHealthResult
unfolding cached_health
look_up now physical cache = is_recent now (cached_health physical cache)

-- The second: the result of a run is stored with the time of the look-up.
unfoldable pub store : ℕ → String → StorageHealthResult → HealthCache → HealthCache
store now physical result cache = (physical, record { at = now; result = result }) ∷ cache

-- A call's result, the devices that smartctl was run for, and the cache after it.
pub record HealthRead : Type 0 where
  pub result : StorageHealthResult
  pub queried : List String
  pub cache : HealthCache

module _ (unmarshal : String → Option SmartctlReport) (in_sysfs : String → Bool) where
  unfoldable pub query : ℕ → String → SmartRun → HealthCache → HealthRead
  unfolding result_of_run store
  query now physical run cache =
      let result = result_of_run unmarshal run in
      record { result = result; queried = physical ∷ []; cache = store now physical result cache }

  abbrev pub read_answer :
      Option StorageHealthResult → ℕ → String → SmartRun → HealthCache → HealthRead
  read_answer (some result) now physical run cache = record {
    result = result;
    queried = [];
    cache = cache;
  }
  read_answer none now physical run cache = query now physical run cache

  unfoldable pub read_physical : ℕ → String → SmartRun → HealthCache → HealthRead
  unfolding look_up query
  read_physical now physical run cache =
      read_answer (look_up now physical cache) now physical run cache

  -- A call during which no other call stores; `run` is what a run of smartctl at this time gives.
  unfoldable pub read_storage_health : ℕ → String → SmartRun → HealthCache → HealthRead
  unfolding linux_physical_device read_physical
  read_storage_health now device run cache =
      let physical = linux_physical_device in_sysfs device in
      if str_eq physical ""
      then record {
        result =
            unknown_health "unavailable"
              "No supported physical-device mapping is available for SMART health";
        queried = [];
        cache = cache;
      }
      else read_physical now physical run cache
