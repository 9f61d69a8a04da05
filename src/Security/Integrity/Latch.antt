-- ===== src/Security/Integrity/Latch.antt =====
-- The integrity flag over the ticks of bridge_service/src/integrity_monitor.go.
use hwcontrol.Base.{
  ◌+◌, String, Bool, true, false, not, ◌&&◌, ◌||◌, ◌≡◌, refl, List, [], ◌∷◌, Option, none, some,
  length, length-append, all, leb, arith, if◌then◌else◌, str_eq, Bool-cases, inl, inr,
}
use hwcontrol.Base.Result.{Result, ok, err, is_ok}
use hwcontrol.Command.{◌<>◌}
use hwcontrol.Security.Integrity.{
  IntegrityTarget, Monitor, Tick, violate, first_violation, check_targets, tick, ticks,
  verify_interval, verified, settle,
}

-- The connections' flag is the monitor's, and a violation was handed on exactly if it has fallen.
abbrev pub IsConsistent : Monitor → Type 0
IsConsistent m =
    (m.bridge_integrity_state ≡ m.healthy) × (length m.reported ≡ (if m.healthy then 0 else 1))

violate-IsConsistent :
    (reason : String) (m : Monitor) → IsConsistent m → IsConsistent (violate reason m)
unfolding violate
violate-IsConsistent reason m (hb, hr) = elim (Bool-cases m.healthy) [
  | inl h ↦ ground (arith, length-append m.reported (reason ∷ []))
  | inr h ↦ ground arith
]

settle-IsConsistent : (o : Option String) (m : Monitor) → IsConsistent m → IsConsistent (settle o m)
unfolding settle
settle-IsConsistent none m h = h
settle-IsConsistent (some reason) m h = violate-IsConsistent reason (record m { running = false }) h

verified-IsConsistent :
    (v : Result Unit) (t : Tick) (m : Monitor) → IsConsistent m → IsConsistent (verified v t m)
unfolding verified check_targets settle
verified-IsConsistent (err e) t m h =
    violate-IsConsistent ("installation verification failed: " <> e) (record m { running = false })
      h
verified-IsConsistent (ok _) t m h =
    settle-IsConsistent (first_violation t.digest m.targets)
      (record m { last_verify_check = t.after_verify }) h

abbrev pub is_due : Tick → Monitor → Bool
is_due t m = leb (m.last_verify_check + verify_interval) t.now

tick_stopped : (t : Tick) (m : Monitor) → m.running ≡ false → tick t m ≡ m
unfolding tick
tick_stopped t m r = ground arith

tick_due :
    (t : Tick) (m : Monitor)
    → m.running ≡ true
    → is_due t m ≡ true
    → tick t m ≡ verified t.verify t m
unfolding tick
tick_due t m r d = ground arith

tick_between :
    (t : Tick) (m : Monitor)
    → m.running ≡ true
    → is_due t m ≡ false
    → tick t m ≡ settle (first_violation t.digest m.targets) m
unfolding tick check_targets
tick_between t m r d = ground arith

tick-IsConsistent : (t : Tick) (m : Monitor) → IsConsistent m → IsConsistent (tick t m)
tick-IsConsistent t m h = elim (Bool-cases m.running) [
  | inl r ↦ elim (Bool-cases (is_due t m)) [
    | inl d ↦ rw (tick_due t m r d) (verified-IsConsistent t.verify t m h)
    | inr d ↦
        rw (tick_between t m r d) (settle-IsConsistent (first_violation t.digest m.targets) m h)
  ]
  | inr r ↦ rw (tick_stopped t m r) h
]

-- Through any ticks of the monitor, the flag that the connections read is the monitor's own, and the
-- number of violations handed on is one if the flag has fallen and none otherwise, if so it was before.
pub ticks-IsConsistent : (ts : List Tick) (m : Monitor) → IsConsistent m → IsConsistent (ticks ts m)
unfolding ticks
ticks-IsConsistent [] m h = h
ticks-IsConsistent (t ∷ ts) m h = ticks-IsConsistent ts (tick t m) (tick-IsConsistent t m h)

-- Whether a target reads back as its baseline.
abbrev pub is_intact : (String → Result String) → IntegrityTarget → Bool
is_intact digest target = elim (digest target.path) [
  | err e ↦ false
  | ok d ↦ str_eq d target.baseline
]

abbrev pub found : Option String → Bool
found none = false
found (some reason) = true

pub first_violation-found :
    (digest : String → Result String) (targets : List IntegrityTarget)
    → found (first_violation digest targets) ≡ not (all (is_intact digest) targets)
unfolding first_violation
first_violation-found digest [] = refl
first_violation-found digest (target ∷ rest) = ground (arith, first_violation-found digest rest)

-- What a monitor with its flag up becomes when a violation is or is not found.
settle_detects :
    (o : Option String) (m : Monitor)
    → m.running ≡ true
    → m.healthy ≡ true
    → ((settle o m).healthy ≡ not (found o)) × ((settle o m).running ≡ (settle o m).healthy)
unfolding settle violate
settle_detects none m hr hh = ground arith
settle_detects (some reason) m hr hh = ground arith

targets_detect :
    (digest : String → Result String) (m : Monitor)
    → m.running ≡ true
    → m.healthy ≡ true
    → ((settle (first_violation digest m.targets) m).healthy ≡ all (is_intact digest) m.targets)
      × ((settle (first_violation digest m.targets) m).running
          ≡ (settle (first_violation digest m.targets) m).healthy)
targets_detect digest m hr hh = ground (
  arith,
  settle_detects (first_violation digest m.targets) m hr hh,
  first_violation-found digest m.targets,
)

verified_detects :
    (v : Result Unit) (t : Tick) (m : Monitor)
    → m.running ≡ true
    → m.healthy ≡ true
    → ((verified v t m).healthy ≡ (is_ok v && all (is_intact t.digest) m.targets))
      × ((verified v t m).running ≡ (verified v t m).healthy)
unfolding verified check_targets
verified_detects (err e) t m hr hh =
    settle_detects (some ("installation verification failed: " <> e)) m hr hh
verified_detects (ok _) t m hr hh =
    targets_detect t.digest (record m { last_verify_check = t.after_verify }) hr hh

-- While the monitor runs and its flag is up, the flag stays up in a tick exactly if the installation
-- check is not due or succeeds, and every target reads back as its baseline. A failed check or a
-- changed, missing or unreadable target brings it down, and the monitor stops.
pub tick_detects_change :
    (t : Tick) (m : Monitor)
    → m.running ≡ true
    → m.healthy ≡ true
    → ((tick t m).healthy
        ≡ ((not (is_due t m) || is_ok t.verify) && all (is_intact t.digest) m.targets))
      × ((tick t m).running ≡ (tick t m).healthy)
tick_detects_change t m hr hh = elim (Bool-cases (is_due t m)) [
  | inl d ↦ rw (tick_due t m hr d, d) (verified_detects t.verify t m hr hh)
  | inr d ↦ rw (tick_between t m hr d, d) (targets_detect t.digest m hr hh)
]
