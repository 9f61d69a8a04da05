-- ===== src/Audit/Report.antt =====
-- The audit's command, its report and its exit code: security/local-audit/main.go.
use hwcontrol.Base.{
  ℕ, String, Bool, true, false, not, ◌||◌, List, [], ◌∷◌, map, if◌then◌else◌, str_eq,
}
use hwcontrol.Base.Result.{Result, ok, err, ◌>>=◌}
use hwcontrol.Command.{◌<>◌}
use hwcontrol.Text.{trim_space}
use hwcontrol.Audit.{Manifest, Status, fail, unverified, pass, AuditResult, Disk, abs, audit_file}

-- What the command is given: its flags, the manifest file, json.Unmarshal, and the encoder.
pub record Flags : Type 0 where
  pub root : String
  pub manifest : String
  pub json : Bool
  pub allow_unpinned : Bool

pub record Run : Type 0 where
  pub exit : ℕ
  pub results : List AuditResult
  pub printed : List String

abbrev stopped_run : String → Run
stopped_run message = record { exit = 2; results = []; printed = message ∷ [] }

abbrev pub is_failure : Bool → Status → Bool
is_failure allow_unpinned fail = true
is_failure allow_unpinned unverified = not allow_unpinned
is_failure allow_unpinned pass = false

unfoldable pub failed : Bool → List AuditResult → Bool
failed allow_unpinned [] = false
failed allow_unpinned (r ∷ rs) = is_failure allow_unpinned r.status || failed allow_unpinned rs

abbrev status_text : Status → String
status_text fail = "FAIL"
status_text unverified = "UNVERIFIED"
status_text pass = "PASS"

abbrev with_label : String → String → String
with_label label s = if str_eq s "" then "" else label <> s

unfoldable pub result_line : AuditResult → String
result_line r =
    "["
    <> status_text r.status
    <> "] "
    <> r.path
    <> with_label " sha256=" r.sha256
    <> with_label " issue=" r.issue

abbrev has_files : Manifest → Result Manifest
has_files m = elim m.files [ [] ↦ err "manifest contains no files" | f ∷ fs ↦ ok m ]

-- `unmarshal` and `encode` are json.Unmarshal and the indenting encoder.
module _ (disk : Disk) (unmarshal : String → Result Manifest)
    (encode : List AuditResult → Result String) where
  unfoldable pub load_manifest : Result String → Result Manifest
  load_manifest text = do content ← text; manifest ← unmarshal content; has_files manifest

  abbrev exit_code : Bool → List AuditResult → ℕ
  exit_code allow_unpinned results = if failed allow_unpinned results then 1 else 0

  abbrev encoded : Flags → List AuditResult → Result String → Run
  encoded flags results (err e) = record { exit = 2; results = results; printed = [] }
  encoded flags results (ok text) = record {
    exit = exit_code flags.allow_unpinned results;
    results = results;
    printed = text ∷ [];
  }

  -- What follows the loop over the files.
  unfoldable pub report : Flags → List AuditResult → Run
  unfolding failed result_line
  report flags results = if flags.json then encoded flags results (encode results) else record {
    exit = exit_code flags.allow_unpinned results;
    results = results;
    printed = map result_line results;
  }

  abbrev audit_manifest : Flags → String → Result Manifest → Run
  audit_manifest flags root (err e) = stopped_run ("invalid manifest: " <> e)
  audit_manifest flags root (ok manifest) = report flags (map (audit_file disk root) manifest.files)

  abbrev audit_from : Flags → Result String → Result String → Run
  audit_from flags text (err e) = stopped_run ("invalid root: " <> e)
  audit_from flags text (ok root) = audit_manifest flags root (load_manifest text)

  -- `text` is what reading the manifest file gives.
  unfoldable pub main : Flags → Result String → Run
  unfolding trim_space abs load_manifest report audit_file
  main flags text =
      if str_eq (trim_space flags.manifest) ""
      then stopped_run "manifest is required"
      else audit_from flags text (abs disk.cwd flags.root)
