-- ===== src/Security.antt =====
-- The canary and panic mode: bridge_service/src/fetch_status_service.go.
pub mod Integrity
pub mod Laws
use hwcontrol.Base.{
  ℕ, String, Bool, true, false, not, ◌&&◌, ◌||◌, ◌≡◌, List, [], ◌∷◌, ◌++◌, Option, none, some,
  if◌then◌else◌, str_eq,
}
use hwcontrol.Base.Result.{Result, ok, err, fail_if, ◌>>=◌, ◌>>◌}

pub record FetchStatusService : Type 0 where
  pub path : String
  pub baseline : String
  pub healthy : Bool
  pub triggered : Bool
  pub last_reason : String

-- The service, the panic file (whether it says panic), and the recorded security events.
pub record Guard : Type 0 where
  pub service : FetchStatusService
  pub panic_file : Bool
  pub events : List String

-- What os.Lstat says of the canary.
pub data Lstat : Type 0 where
  regular irregular missing failed : Lstat

abbrev pub decoy_expected_digest : String
decoy_expected_digest = "16a35fb29082f6c54d534ec8b09a60f8e445b17548f15f2d068db23868613365"

-- What the start reads: the canary's status, whether its directory could be made, the bootstrap
-- variable, whether a bootstrap write succeeded, and the digest of the file as it is then.
pub record Startup : Type 0 where
  pub directory_made : Bool
  pub status : Lstat
  pub bootstrap : Bool
  pub bootstrap_written : Bool
  pub digest : Option String

unfoldable pub ensure_decoy_file : Startup → Result (Unit {0})
ensure_decoy_file start =
    if not start.directory_made then err "create decoy directory" else elim start.status [
      | Lstat.regular ↦ ok tt
      | Lstat.irregular ↦ err "decoy is not a regular file"
      | Lstat.failed ↦ err "inspect decoy"
      | Lstat.missing ↦
          if not start.bootstrap
          then err "decoy canary is missing; installation integrity is not trusted"
          else fail_if (not start.bootstrap_written) "write decoy"
    ]

digest_of : Option String → Result String
digest_of none = err "read decoy"
digest_of (some d) = ok d

-- The service is set up only where this succeeds.
unfoldable pub initialize_decoy_service : String → Startup → Guard → Result Guard
unfolding ensure_decoy_file digest_of
initialize_decoy_service path start guard = do
  ensure_decoy_file start
  digest ← digest_of start.digest
  fail_if (not (str_eq digest decoy_expected_digest)) "decoy canary baseline mismatch"
  ok (record guard {
    service = record guard.service {
      path = path;
      baseline = decoy_expected_digest;
      healthy = true;
    };
  })

-- `persisted`: the temporary file was written and renamed.
unfoldable pub trigger_panic_mode : Bool → String → Guard → Guard
trigger_panic_mode persisted reason guard = record guard {
  panic_file = guard.panic_file || persisted;
  events = guard.events ++ reason ∷ [];
}

unfoldable pub trip : Bool → String → Guard → Guard
unfolding trigger_panic_mode
trip persisted reason guard = trigger_panic_mode persisted reason (record guard {
  service = record guard.service { triggered = true; healthy = false; last_reason = reason };
})

-- `digest` is what reading the canary gives now.
unfoldable pub check_decoy_integrity : Option String → Bool → Guard → Guard
unfolding trip
check_decoy_integrity digest persisted guard =
    if str_eq guard.service.path "" || guard.service.triggered then guard else elim digest [
      | none ↦ trip persisted "decoy missing or unreadable" guard
      | some d ↦
          if not (str_eq d guard.service.baseline)
          then trip persisted "bridger.key integrity changed" guard
          else guard
    ]

-- os.Remove of the panic file.
unfoldable pub clear_panic_mode : Guard → Guard
clear_panic_mode guard = record guard { panic_file = false }

-- One check after another, each with what it read.
unfoldable pub check_all : List (Option String × Bool) → Guard → Guard
check_all [] guard = guard
check_all ((digest, persisted) ∷ rest) guard =
    check_all rest (check_decoy_integrity digest persisted guard)
