-- ===== src/Storage/Queries.antt =====
-- The times at which smartctl runs: readStorageHealth of bridge_service/src/storage_health.go.
use mathlib.Core.Path.{subst}
use mathlib.Core.Bool.{false≢true}
use hwcontrol.Base.{
  ℕ, ◌+◌, ◌≤◌, String, Bool, true, false, not, ◌&&◌, ◌≡◌, ◌⊎◌, refl, sym, ap, ◌∙◌, List, [], ◌∷◌,
  ◌++◌, Option, none, some, if◌then◌else◌, str_eq, eq_iff, arith, Bool-cases, Option-cases, inl,
  inr, both,
}
use hwcontrol.Storage.Health.{
  SmartctlReport, StorageHealthResult, SmartRun, linux_physical_device, result_of_run,
}
use hwcontrol.Storage.Cache.{
  CachedHealth, HealthCache, cached_health, thirty_seconds, is_recent, look_up, store, query,
  read_physical, read_storage_health,
}

-- A call looks the cache up, and where that gives nothing runs smartctl; a run ends and is stored.
pub data Event : Type 0 where
  looks : (now : ℕ) (device : String) → Event
  ends : (physical : String) (run : SmartRun) → Event

-- The runs of smartctl that have not ended: their times and their device files.
abbrev pub Flying : Type 0
Flying = List (ℕ × String)

-- The cache, and the runs in flight.
abbrev pub HealthState : Type 0
HealthState = HealthCache × Flying

abbrev pub flight_of : String → Flying → Option ℕ
flight_of physical [] = none
flight_of physical ((t, name) ∷ flying) =
    if str_eq name physical then some t else flight_of physical flying

abbrev pub landed : String → Flying → Flying
landed physical [] = []
landed physical ((t, name) ∷ flying) =
    let rest = landed physical flying in if str_eq name physical then rest else (t, name) ∷ rest

-- A time, and the device file that smartctl was run for at that time.
abbrev pub Query : Type 0
Query = ℕ × String

-- The queries of this device file in the list come 30 seconds or more after the time.
abbrev pub LaterThan : ℕ → String → List Query → Type 0
LaterThan t disk [] = Unit
LaterThan t disk ((t', disk') ∷ qs) = (disk' ≡ disk → t + thirty_seconds ≤ t') × LaterThan t disk qs

-- Any two queries of one device file are 30 seconds or more apart.
abbrev pub AreSpaced : List Query → Type 0
AreSpaced [] = Unit
AreSpaced ((t, disk) ∷ qs) = LaterThan t disk qs × AreSpaced qs

abbrev pub is_free : Option ℕ → Bool
is_free none = true
is_free (some t) = false

-- Nothing to run for an unmapped device or a recent result.
abbrev pub asks : String → Option StorageHealthResult → Bool
asks physical (some result) = false
asks physical none = not (str_eq physical "")

module _ (unmarshal : String → Option SmartctlReport) (in_sysfs : String → Bool) where
  -- Whether a look-up runs smartctl.
  unfoldable pub runs : ℕ → String → HealthState → Bool
  unfolding linux_physical_device look_up
  runs now device (cache, flying) =
      let physical = linux_physical_device in_sysfs device in
      asks physical (look_up now physical cache)

  abbrev pub stored : Option ℕ → String → SmartRun → HealthCache → HealthCache
  stored none physical run cache = cache
  stored (some t) physical run cache = store t physical (result_of_run unmarshal run) cache

  unfoldable pub event : Event → HealthState → HealthState
  unfolding runs store
  event (looks now device) (cache, flying) =
      if runs now device (cache, flying)
      then (cache, (now, linux_physical_device in_sysfs device) ∷ flying)
      else (cache, flying)
  event (ends physical run) (cache, flying) =
      (stored (flight_of physical flying) physical run cache, landed physical flying)

  abbrev pub asked_by : Event → HealthState → List Query
  asked_by (looks now device) s =
      if runs now device s then (now, linux_physical_device in_sysfs device) ∷ [] else []
  asked_by (ends physical run) s = []

  unfoldable pub queries : List Event → HealthState → List Query
  unfolding event
  queries [] s = []
  queries (e ∷ es) s = asked_by e s ++ queries es (event e s)

  abbrev pub is_apart : Event → HealthState → Bool
  is_apart (ends physical run) s = true
  is_apart (looks now device) s = is_free (flight_of (linux_physical_device in_sysfs device) s.1)

  -- No call looks up a device file while smartctl runs for it.
  unfoldable pub never_overlap : List Event → HealthState → Bool
  unfolding event
  never_overlap [] s = true
  never_overlap (e ∷ es) s = is_apart e s && never_overlap es (event e s)

  -- A call that nothing comes in between is the two events.
  uninterrupted :
      (now : ℕ) (device : String) (run : SmartRun) (cache : HealthCache)
      → (event
          (ends (linux_physical_device in_sysfs device) run)
          (event (looks now device) (cache, []))).0
        ≡ (read_storage_health unmarshal in_sysfs now device run cache).cache
  unfolding event runs read_storage_health read_physical query
  uninterrupted now device run cache =
      let physical = linux_physical_device in_sysfs device in
      elim (Bool-cases (str_eq physical "")) [
        | inl e ↦ elim (Option-cases (look_up now physical cache)) [
          | inl k ↦ rw (e, k, e) refl
          | inr (result, k) ↦ rw (e, k) refl
        ]
        | inr e ↦ elim (Option-cases (look_up now physical cache)) [
          | inl k ↦ rw (e, k, e, (eq_iff physical physical).1 refl) refl
          | inr (result, k) ↦ rw (e, k) refl
        ]
      ]

  -- The last run for the device file is at `t` or later: it is in flight, or it is in the cache.
  abbrev Covers : ℕ → String → HealthState → Type 0
  Covers t disk (cache, flying) =
      ((t' : ℕ) × (flight_of disk flying ≡ some t') × (t ≤ t'))
      ⊎ ((c : CachedHealth) × (flight_of disk flying ≡ none)
          × (cached_health disk cache ≡ some c)
          × (t ≤ c.at))

  landed-none : (disk : String) (flying : Flying) → flight_of disk (landed disk flying) ≡ none
  landed-none disk [] = refl
  landed-none disk ((t, name) ∷ flying) = elim (Bool-cases (str_eq name disk)) [
    | inl e ↦ rw e (landed-none disk flying)
    | inr e ↦ rw (e, e) (landed-none disk flying)
  ]

  landed-other :
      (disk physical : String) (flying : Flying)
      → str_eq physical disk ≡ false
      → flight_of disk (landed physical flying) ≡ flight_of disk flying
  landed-other disk physical [] h = refl
  landed-other disk physical ((t, name) ∷ flying) h = elim (Bool-cases (str_eq name physical)) [
    | inl e ↦
        rw (e, ap (λ n. str_eq n disk) ((eq_iff name physical).0 e) ∙ h)
          (landed-other disk physical flying h)
    | inr e ↦ elim (Bool-cases (str_eq name disk)) [
      | inl d ↦ rw (e, d) refl
      | inr d ↦ rw (e, d) (landed-other disk physical flying h)
    ]
  ]

  stored-other :
      (disk physical : String) (o : Option ℕ) (run : SmartRun) (cache : HealthCache)
      → str_eq physical disk ≡ false
      → cached_health disk (stored o physical run cache) ≡ cached_health disk cache
  unfolding cached_health store
  stored-other disk physical none run cache h = refl
  stored-other disk physical (some t) run cache h = rw h refl

  Covers-own_end :
      (t : ℕ) (disk : String) (run : SmartRun) (cache : HealthCache) (flying : Flying)
      → Covers t disk (cache, flying)
      → Covers t disk (stored (flight_of disk flying) disk run cache, landed disk flying)
  unfolding cached_health store
  Covers-own_end t disk run cache flying (inl (t', f, l)) = rw f (
      inr (
        record { at = t'; result = result_of_run unmarshal run },
        landed-none disk flying,
        rw ((eq_iff disk disk).1 refl) refl,
        l,
      ))
  Covers-own_end t disk run cache flying (inr (c, f, h, l)) =
      rw f (inr (c, landed-none disk flying, h, l))

  Covers-end :
      (t : ℕ) (disk physical : String) (run : SmartRun) (cache : HealthCache) (flying : Flying)
      → Covers t disk (cache, flying)
      → Covers t disk
          (stored (flight_of physical flying) physical run cache, landed physical flying)
  Covers-end t disk physical run cache flying h = elim (Bool-cases (str_eq physical disk)) [
    | inl e ↦
        subst (λ p. Covers t disk (stored (flight_of p flying) p run cache, landed p flying))
          (sym ((eq_iff physical disk).0 e)) (Covers-own_end t disk run cache flying h)
    | inr e ↦ other e h
  ]
    where
      other :
          str_eq physical disk ≡ false
          → Covers t disk (cache, flying)
          → Covers t disk
              (stored (flight_of physical flying) physical run cache, landed physical flying)
      other e (inl (t', f, l)) = inl (t', landed-other disk physical flying e ∙ f, l)
      other e (inr (c, f, h, l)) = inr (
        c,
        landed-other disk physical flying e ∙ f,
        stored-other disk physical (flight_of physical flying) run cache e ∙ h,
        l,
      )

  too_old :
      (now : ℕ) (physical : String) (c : CachedHealth) (cache : HealthCache)
      → asks physical (look_up now physical cache) ≡ true
      → cached_health physical cache ≡ some c
      → c.at + thirty_seconds ≤ now
  unfolding look_up
  too_old now physical c cache h k = old (rw k at h)
    where
      old : asks physical (is_recent now (some c)) ≡ true → c.at + thirty_seconds ≤ now
      old h = ground arith

  runs-asks :
      (now : ℕ) (device : String) (cache : HealthCache) (flying : Flying)
      → runs now device (cache, flying) ≡ true
      → asks
          (linux_physical_device in_sysfs device)
          (look_up now (linux_physical_device in_sysfs device) cache)
        ≡ true
  unfolding runs
  runs-asks now device cache flying r = r

  -- A look-up that runs smartctl.
  Covers-look :
      (t now : ℕ) (disk physical : String) (cache : HealthCache) (flying : Flying)
      → Covers t disk (cache, flying)
      → is_free (flight_of physical flying) ≡ true
      → asks physical (look_up now physical cache) ≡ true
      → (physical ≡ disk → t + thirty_seconds ≤ now)
        × Covers t disk (cache, (now, physical) ∷ flying)
  Covers-look t now disk physical cache flying h free r = elim (Bool-cases (str_eq physical disk)) [
    | inl e ↦
        let late = own h ((eq_iff physical disk).0 e) in
        (λ q. late, inl (now, rw e refl, omega (arith, late)))
    | inr e ↦ (λ q. absurd (false≢true (sym e ∙ (eq_iff physical disk).1 q)), rw e h)
  ]
    where
      own : Covers t disk (cache, flying) → physical ≡ disk → t + thirty_seconds ≤ now
      own (inl (t', f, l)) q =
          absurd (false≢true (ap is_free (sym (ap (λ p. flight_of p flying) q ∙ f)) ∙ free))
      own (inr (c, f, k, l)) q =
          let old = too_old now physical c cache r (ap (λ p. cached_health p cache) q ∙ k) in
          omega (arith, old, l)

  queries_later :
      (es : List Event) (t : ℕ) (disk : String) (cache : HealthCache) (flying : Flying)
      → Covers t disk (cache, flying)
      → never_overlap es (cache, flying) ≡ true
      → LaterThan t disk (queries es (cache, flying))
  unfolding queries never_overlap event
  queries_later [] t disk cache flying h n = tt
  queries_later (ends physical run ∷ es) t disk cache flying h n =
      queries_later es t disk _ _ (Covers-end t disk physical run cache flying h) n
  queries_later (looks now device ∷ es) t disk cache flying h n =
      let physical = linux_physical_device in_sysfs device in
      let (free, rest) = both _ _ n in
      elim (Bool-cases (runs now device (cache, flying))) [
        | inr r ↦ rw r (queries_later es t disk cache flying h (rw r at rest))
        | inl r ↦
            let (late, covers) =
              Covers-look t now disk physical cache flying h free
                (runs-asks now device cache flying r) in
            rw r (late, queries_later es t disk cache _ covers (rw r at rest))
      ]

  -- Where no call looks a device file up while smartctl runs for it, two runs for one device file,
  -- among any calls and ends of runs, start 30 seconds or more apart.
  pub smart_queries_spaced :
      (es : List Event) (cache : HealthCache) (flying : Flying)
      → never_overlap es (cache, flying) ≡ true
      → AreSpaced (queries es (cache, flying))
  unfolding queries never_overlap event
  smart_queries_spaced [] cache flying n = tt
  smart_queries_spaced (ends physical run ∷ es) cache flying n = smart_queries_spaced es _ _ n
  smart_queries_spaced (looks now device ∷ es) cache flying n =
      let physical = linux_physical_device in_sysfs device in
      let (free, rest) =
        both (is_apart (looks now device) (cache, flying))
          (never_overlap es (event (looks now device) (cache, flying))) n in
      elim (Bool-cases (runs now device (cache, flying))) [
        | inr r ↦ rw r (smart_queries_spaced es cache flying (rw r at rest))
        | inl r ↦ rw r (
          queries_later es now physical cache ((now, physical) ∷ flying)
              (inl (now, rw ((eq_iff physical physical).1 refl) refl, omega arith)) (rw r at rest),
          smart_queries_spaced es cache _ (rw r at rest),
        )
      ]
