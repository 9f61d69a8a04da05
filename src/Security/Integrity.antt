-- ===== src/Security/Integrity.antt =====
-- The runtime integrity monitor: bridge_service/src/integrity_monitor.go.
pub mod Latch
pub mod Start
pub mod Fresh
use hwcontrol.Base.{
  ℕ, ◌+◌, ◌≤◌, String, Bool, true, false, not, ◌&&◌, ◌||◌, ◌≡◌, List, [], ◌∷◌, ◌++◌, Option, none,
  some, leb, if◌then◌else◌, str_eq, length,
}
use hwcontrol.Base.Result.{Result, ok, err}
use hwcontrol.Command.{◌<>◌}
use hwcontrol.Text.Path.{base}

pub record IntegrityTarget : Type 0 where
  pub path : String
  pub baseline : String

-- The monitor's flag, the flag that the connections read, and the violations handed on.
pub record Monitor : Type 0 where
  pub targets : List IntegrityTarget
  pub healthy : Bool
  pub bridge_integrity_state : Bool
  pub reported : List String
  pub running : Bool
  pub last_verify_check : ℕ

-- m.healthy.Swap(false)
unfoldable pub violate : String → Monitor → Monitor
violate reason m =
    if m.healthy
    then record m {
      healthy = false;
      bridge_integrity_state = false;
      reported = m.reported ++ reason ∷ [];
    }
    else m

-- The loop over the targets: the first violation, if any. `digest` reads a file now.
unfoldable pub first_violation : (String → Result String) → List IntegrityTarget → Option String
first_violation digest [] = none
first_violation digest (target ∷ rest) =
    let next = first_violation digest rest in
    elim (digest target.path) [
      | err e ↦
          some ("critical integrity target " <> base target.path <> " is missing or invalid: " <> e)
      | ok d ↦
          if not (str_eq d target.baseline)
          then some ("critical integrity target " <> base target.path <> " content changed")
          else next
    ]

-- What one tick reads: the clock, the clock again after the installation check, the check's result
-- and the digests.
pub record Tick : Type 0 where
  pub now : ℕ
  pub after_verify : ℕ
  pub verify : Result (Unit {0})
  pub digest : String → Result String

abbrev pub verify_interval : ℕ
verify_interval = 10000000000

-- The goroutine returns after a violation.
unfoldable pub settle : Option String → Monitor → Monitor
settle none m = m
settle (some reason) m = violate reason (record m { running = false })

unfoldable pub check_targets : Tick → Monitor → Monitor
check_targets t m = settle (first_violation t.digest m.targets) m

-- The branch in which the installation check is due, by the check's result.
unfoldable pub verified : Result (Unit {0}) → Tick → Monitor → Monitor
verified (err e) t m = settle (some ("installation verification failed: " <> e)) m
verified (ok _) t m = check_targets t (record m { last_verify_check = t.after_verify })

-- One tick of the goroutine in `start`.
unfoldable pub tick : Tick → Monitor → Monitor
tick t m =
    if not m.running
    then m
    else if leb (m.last_verify_check + verify_interval) t.now
    then verified t.verify t m
    else check_targets t m

unfoldable pub ticks : List Tick → Monitor → Monitor
ticks [] m = m
ticks (t ∷ rest) m = ticks rest (tick t m)
