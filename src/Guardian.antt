-- ===== src/Guardian.antt =====
-- The guardian process beside the bridge: bridge_service/security_guardian/main.go, on Linux.
pub mod Watch
use hwcontrol.Base.{
  String, Bool, true, false, not, ◌||◌, List, [], ◌∷◌, Option, none, some, if◌then◌else◌, str_eq,
}
use hwcontrol.Base.Result.{Result, ok, err}
use hwcontrol.Command.{◌<>◌}
use hwcontrol.Files.{FileStatus, FileView}
use hwcontrol.Text.{trim_space}
use hwcontrol.Text.Clean.{join}
use hwcontrol.Security.{decoy_expected_digest}

abbrev or_default : String → String → String
or_default configured default =
    let trimmed = trim_space configured in if not (str_eq trimmed "") then trimmed else default

unfoldable pub decoy_dir : String → String
unfolding trim_space
decoy_dir configured = or_default configured "/var/lib/hwcontrol/security"

unfoldable pub canary_path : String → String
unfolding decoy_dir join
canary_path configured = join (join (decoy_dir configured) "canary") "bridger.key"

unfoldable pub panic_path : String → String → String
unfolding trim_space decoy_dir join
panic_path configured decoy =
    or_default configured (join (join (decoy_dir decoy) "state") "panic-mode.json")

abbrev pub expected_canary_digest : String
expected_canary_digest = decoy_expected_digest

abbrev pub digest_of_view : (String → String) → FileStatus → Result String → Result String
digest_of_view sha256 (FileStatus.unavailable e) text = err e
digest_of_view sha256 FileStatus.symlink text = err "canary is not a regular file"
digest_of_view sha256 FileStatus.irregular text = err "canary is not a regular file"
digest_of_view sha256 (FileStatus.regular size permissions) (err e) = err e
digest_of_view sha256 (FileStatus.regular size permissions) (ok text) = ok (sha256 text)

unfoldable pub canary_digest : (String → String) → FileView → Result String
canary_digest sha256 view = digest_of_view sha256 view.status view.contents

-- What a call returns, and the reasons for which it asked for panic mode; the calls of writePanic
-- may fail, which the callers ignore.
abbrev pub Guarded : Type 0
Guarded = Result String × List String

abbrev panicked : String → String → Guarded
panicked reason error = (err error, reason ∷ [])

abbrev pub compare_baseline : Result String → Guarded
compare_baseline (err e) = panicked "security canary missing, replaced, or unreadable" e
compare_baseline (ok baseline) =
    if not (str_eq baseline expected_canary_digest)
    then panicked "bridger.key baseline mismatch" "bridger.key baseline mismatch"
    else (ok baseline, [])

-- `present` is os.Stat's answer.
unfoldable pub initialize_guardian : (String → String) → Result (Unit {0}) → FileView → Guarded
unfolding canary_digest
initialize_guardian sha256 (err e) view =
    panicked "security canary missing or unreadable" ("canary unavailable: " <> e)
initialize_guardian sha256 (ok done) view = compare_baseline (canary_digest sha256 view)

abbrev pub compare_current : String → Result String → Guarded
compare_current baseline (err e) =
    panicked "security canary missing, replaced, or unreadable"
      ("security canary unavailable: " <> e)
compare_current baseline (ok current) =
    if not (str_eq current expected_canary_digest) || not (str_eq current baseline)
    then panicked "bridger.key integrity changed or replaced"
        "bridger.key integrity changed or replaced"
    else (ok baseline, [])

unfoldable pub check_guardian_canary : (String → String) → String → FileView → Guarded
unfolding canary_digest
check_guardian_canary sha256 baseline view = compare_current baseline (canary_digest sha256 view)

abbrev pub unless_failed : Guarded → Guarded → Guarded
unless_failed (err e, reasons) rest = (err e, reasons)
unless_failed (ok baseline, reasons) rest = rest

-- The loop over the ticks before the stop: it ends at the first error.
unfoldable pub watch : (String → String) → String → List FileView → Guarded
unfolding check_guardian_canary
watch sha256 baseline [] = (ok baseline, [])
watch sha256 baseline (view ∷ views) =
    let rest = watch sha256 baseline views in
    unless_failed (check_guardian_canary sha256 baseline view) rest

abbrev pub watch_from : (String → String) → List FileView → Guarded → Guarded
watch_from sha256 views (err e, reasons) = (err e, reasons)
watch_from sha256 views (ok baseline, reasons) = watch sha256 baseline views

-- The run up to the stop: what the canary is at the start, and at each tick.
unfoldable pub run_guardian :
    (String → String) → Result (Unit {0}) → FileView → List FileView → Guarded
unfolding initialize_guardian watch
run_guardian sha256 present first views =
    watch_from sha256 views (initialize_guardian sha256 present first)
