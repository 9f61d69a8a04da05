-- ===== src/Security/Integrity/Start.antt =====
-- How the integrity monitor is set up: newBridgeIntegrityMonitor and its helpers of
-- bridge_service/src/integrity_monitor.go, on Linux.
use hwcontrol.Base.{
  ℕ, String, Bool, true, false, not, ◌||◌, List, [], ◌∷◌, ◌++◌, any, if◌then◌else◌, str_eq,
}
use hwcontrol.Base.Result.{Result, ok, err, fail_if, ◌>>=◌, ◌>>◌}
use hwcontrol.Command.{◌<>◌}
use hwcontrol.Files.{FileStatus, FileView}
use hwcontrol.Text.{trim_space}
use hwcontrol.Text.Clean.{clean, dir, join, split}
use hwcontrol.Text.Path.{base}
use hwcontrol.Secrets.{KeyEntry, default_key_file, validate_key_file_path, valid_bridge_secret}
use hwcontrol.Verify.{verify_installation_root}
use hwcontrol.Verify.State.{labelled}
use hwcontrol.Security.Integrity.{IntegrityTarget, Monitor}

-- `sha256` gives the digest of the contents in hexadecimal.
module _ (sha256 : String → String) where
  -- By what os.Lstat says of the path, and what reading it gives.
  abbrev pub target_digest_of : String → FileStatus → Result String → Result String
  target_digest_of path (FileStatus.unavailable e) text = err e
  target_digest_of path FileStatus.symlink text =
      err ("critical integrity target must not be a symlink: " <> base path)
  target_digest_of path FileStatus.irregular text =
      err ("critical integrity target must be a regular file: " <> base path)
  target_digest_of path (FileStatus.regular size permissions) (err e) = err e
  target_digest_of path (FileStatus.regular size permissions) (ok text) = ok (sha256 text)

  unfoldable pub integrity_file_digest : (String → FileView) → String → Result String
  unfolding base
  integrity_file_digest fs path = target_digest_of path (fs path).status (fs path).contents

  abbrev pub checked_key : String → Result String
  checked_key text = do
    fail_if (not (valid_bridge_secret (trim_space text))) "bridge key contains an invalid secret"
    ok (sha256 text)

  abbrev pub key_digest_of : FileStatus → Result String → Result String
  key_digest_of (FileStatus.unavailable e) text = err e
  key_digest_of FileStatus.symlink text = err "bridge key must not be a symlink"
  key_digest_of FileStatus.irregular text = err "bridge key must be a regular file"
  key_digest_of (FileStatus.regular size permissions) (err e) = err e
  key_digest_of (FileStatus.regular size permissions) (ok text) = checked_key text

  unfoldable pub bridge_key_digest : (String → FileView) → String → Result String
  unfolding trim_space valid_bridge_secret
  bridge_key_digest fs path = key_digest_of (fs path).status (fs path).contents

-- os.Lstat without an error.
abbrev pub is_there : FileStatus → Bool
is_there (FileStatus.unavailable e) = false
is_there status = true

-- os.Executable and filepath.EvalSymlinks.
abbrev pub own_paths : Result String → (String → Result String) → List String
own_paths (err e) eval_symlinks = []
own_paths (ok executable) eval_symlinks = elim (eval_symlinks executable) [
  | err e ↦ executable ∷ []
  | ok resolved ↦ resolved ∷ []
]

-- The AI engine next to the bridge, if it is there.
abbrev pub engine_paths : (String → FileView) → List String → List String
engine_paths fs [] = []
engine_paths fs (first ∷ rest) =
    let engine = join (dir first) "ai_engine" in
    if is_there (fs engine).status then engine ∷ [] else []

unfoldable pub critical_integrity_paths :
    (fs : String → FileView) → Result String → (String → Result String) → String → List String
unfolding dir join trim_space split
critical_integrity_paths fs executable eval_symlinks env_files =
    let own = own_paths executable eval_symlinks in
    let configured = trim_space env_files in
    own ++ engine_paths fs own ++ (if not (str_eq configured "") then split b':' configured else [])

-- The key file and its digest, where the secret does not come from the environment.
pub data KeyBaseline : Type 0 where
  environment_key : KeyBaseline
  file_key : (path digest : String) → KeyBaseline

abbrev pub target_digest :
    (String → String) → (String → FileView) → KeyBaseline → String → Result String
target_digest sha256 fs environment_key path =
    labelled ("establish integrity baseline for " <> base path)
      (integrity_file_digest sha256 fs path)
target_digest sha256 fs (file_key key_path digest) path =
    if str_eq path key_path
    then ok digest
    else labelled ("establish integrity baseline for " <> base path)
        (integrity_file_digest sha256 fs path)

-- The loop over the paths; `seen` holds those taken so far.
unfoldable pub baseline_targets :
    (String → String)
    → (String → FileView)
    → KeyBaseline
    → List String
    → List String
    → Result (List IntegrityTarget)
unfolding integrity_file_digest clean trim_space
baseline_targets sha256 fs key [] seen = ok []
baseline_targets sha256 fs key (p ∷ ps) seen =
    let path = clean (trim_space p) in
    let skipped = baseline_targets sha256 fs key ps seen in
    let taken = baseline_targets sha256 fs key ps (path ∷ seen) in
    if str_eq path "" || any (str_eq path) seen
    then skipped
    else (target_digest sha256 fs key path >>= λ digest.
        taken >>= λ rest. ok (record { path = path; baseline = digest } ∷ rest))

-- What the start reads: three environment variables, what os.Lstat says of the key file when its path
-- is checked, the executable, the result of the installation check, and the clock at the start of
-- the goroutine.
pub record MonitorReadings : Type 0 where
  pub env_secret : String
  pub env_key_file : String
  pub env_files : String
  pub entry : KeyEntry
  pub executable : Result String
  pub eval_symlinks : String → Result String
  pub installation : String → Result (Unit {0})
  pub now : ℕ

abbrev pub is_file_backed : String → Bool
is_file_backed secret = str_eq secret "" || str_eq secret "replace-me"

unfoldable pub key_baseline :
    (String → String) → (String → FileView) → MonitorReadings → Result KeyBaseline
unfolding trim_space default_key_file validate_key_file_path bridge_key_digest
key_baseline sha256 fs r =
    let path = default_key_file r.env_key_file in
    if not (is_file_backed (trim_space r.env_secret)) then ok environment_key else do
      validate_key_file_path path r.entry
      digest ← labelled "establish bridge key integrity baseline" (bridge_key_digest sha256 fs path)
      ok (file_key path digest)

abbrev pub key_paths : KeyBaseline → List String
key_paths environment_key = []
key_paths (file_key path digest) = path ∷ []

abbrev pub start_with : ℕ → List IntegrityTarget → Result Monitor
start_with now [] = err "no runtime integrity targets are available"
start_with now (target ∷ targets) = ok (record {
  targets = target ∷ targets;
  healthy = true;
  bridge_integrity_state = true;
  reported = [];
  running = true;
  last_verify_check = now;
})

unfoldable pub new_bridge_integrity_monitor :
    (String → String) → (String → FileView) → MonitorReadings → Result Monitor
unfolding key_baseline verify_installation_root critical_integrity_paths baseline_targets
new_bridge_integrity_monitor sha256 fs r = do
  key ← key_baseline sha256 fs r
  root ←
      labelled "resolve verify installation root"
        (verify_installation_root r.executable r.eval_symlinks)
  labelled "verify installation integrity" (r.installation root)
  targets ←
      baseline_targets sha256 fs key
        (key_paths key ++ critical_integrity_paths fs r.executable r.eval_symlinks r.env_files) []
  start_with r.now targets
