-- ===== src/Audit.antt =====
-- The local audit of an installation against a manifest of digests: security/local-audit/main.go,
-- on a system whose separator is '/'.
pub mod Report
pub mod Pinned
pub mod Accepted
use hwcontrol.Base.{
  ℕ, String, Bool, true, false, not, ◌&&◌, ◌||◌, ◌==◌, List, [], ◌∷◌, Option, none, some, map,
  if◌then◌else◌, str_eq,
}
use hwcontrol.Base.Result.{Result, ok, err, fail_if, ◌>>=◌, ◌>>◌}
use hwcontrol.Command.{◌<>◌}
use hwcontrol.Files.{FileStatus, FileView}
use hwcontrol.Text.{trim_space}
use hwcontrol.Text.Clean.{split, clean, is_rooted, join, rel}
use hwcontrol.Text.Hex
use hwcontrol.Text.Path.{has_prefix}
use Prim.Native.String

pub record ManifestFile : Type 0 where
  pub path : String
  pub sha256 : String

pub record Manifest : Type 0 where
  pub files : List ManifestFile

pub data Status : Type 0 where
  fail unverified pass : Status

-- `Result` of the source.
pub record AuditResult : Type 0 where
  pub path : String
  pub status : Status
  pub sha256 : String
  pub issue : String

-- What os.Lstat says of a path.
pub data Entry : Type 0 where
  missing : (message : String) → Entry
  link directory other : Entry

-- What the audit sees of the files: os.Getwd, os.Lstat of the root and of the components of a path,
-- then os.Lstat and the contents of the target; strings.ToLower, strconv.Quote and SHA-256.
pub record Disk : Type 0 where
  pub cwd : Result String
  pub lstat : String → Entry
  pub view : String → FileView
  pub to_lower : String → String
  pub quote : String → String
  pub sha256 : String → List ℕ

abbrev in_directory : String → Result String → Result String
in_directory path (err e) = err e
in_directory path (ok d) = ok (join d path)

-- filepath.Abs
unfoldable pub abs : Result String → String → Result String
unfolding clean join
abs cwd path = if is_rooted path then ok (clean path) else in_directory path cwd

abbrev pub stays_below : Result String → Bool
stays_below (err e) = false
stays_below (ok r) = not (str_eq r "..") && not (has_prefix r "../")

abbrev below_of : Result String → Result String → Bool
below_of (err e) t = false
below_of (ok r) (err e) = false
below_of (ok r) (ok t) = stays_below (rel r t)

unfoldable pub within_root : Result String → String → String → Bool
unfolding abs rel has_prefix
within_root cwd root target = below_of (abs cwd root) (abs cwd target)

abbrev pub is_last {ℓ} : {A : Type ℓ} → List A → Bool
is_last [] = true
is_last (x ∷ xs) = false

module _ (disk : Disk) where
  unfoldable pub view_digest : FileView → Result String
  unfolding Hex.encode
  view_digest view = elim view.status [
    | FileStatus.unavailable e ↦ err e
    | FileStatus.symlink ↦ err "symlink is not accepted"
    | FileStatus.irregular ↦ err "target is not a regular file"
    | FileStatus.regular size permissions ↦ elim view.contents [
      | err e ↦ err e
      | ok text ↦ ok (Hex.encode (disk.sha256 text))
    ]
  ]

  unfoldable pub digest_file : String → Result String
  unfolding view_digest
  digest_file path = view_digest (disk.view path)

  abbrev pub check_component : String → Bool → Entry → Result (Unit {0})
  check_component part last (missing e) =
      err ("inspect path component " <> disk.quote part <> ": " <> e)
  check_component part last link = err "symlink path component is not accepted"
  check_component part last directory = ok tt
  check_component part last other = fail_if (not last) "non-directory path component"

  -- The loop over the components; `current` is the path so far.
  unfoldable pub check_components : String → List String → Result (Unit {0})
  unfolding join
  check_components current [] = ok tt
  check_components current (part ∷ parts) =
      let next = join current part in
      let skipped = check_components current parts in
      let checked =
        check_component part (is_last parts) (disk.lstat next) >> check_components next parts in
      if str_eq part "" || str_eq part "." then skipped else checked

  abbrev pub check_root : Entry → Result (Unit {0})
  check_root (missing e) = err ("inspect audit root: " <> e)
  check_root link = err "audit root must be a real directory, not a symlink"
  check_root directory = ok tt
  check_root other = err "audit root must be a real directory, not a symlink"

  abbrev pub proper_path : Result String → Result String
  proper_path (err e) = err "invalid path relative to audit root"
  proper_path (ok r) =
      if str_eq r "." || str_eq r ".." || has_prefix r "../"
      then err "invalid path relative to audit root"
      else ok r

  unfoldable pub reject_symlink_components : String → String → Result (Unit {0})
  reject_symlink_components root target = do
    check_root (disk.lstat root)
    relative ← proper_path (rel root target)
    check_components root (split b'/' relative)

  abbrev pub audit_root : Result String → Result String
  audit_root (err e) = err "invalid audit root"
  audit_root (ok root) = ok root

  -- The target of an entry, where its path is accepted.
  unfoldable pub locate : String → ManifestFile → Result String
  locate root entry = do
    fail_if (str_eq (trim_space entry.path) "") "empty path"
    root_abs ← audit_root (abs disk.cwd root)
    fail_if (is_rooted entry.path) "absolute paths are not accepted"
    fail_if (not (within_root disk.cwd root_abs (join root_abs entry.path)))
        "path escapes audit root"
    reject_symlink_components root_abs (join root_abs entry.path)
    ok (join root_abs entry.path)

  unfoldable pub expected_digest : ManifestFile → String
  unfolding trim_space
  expected_digest entry = disk.to_lower (trim_space entry.sha256)

  abbrev judged : ManifestFile → Status → String → String → AuditResult
  judged entry status digest issue = record {
    path = entry.path;
    status = status;
    sha256 = digest;
    issue = issue;
  }

  -- The verdict on a file that was read.
  unfoldable pub judge : ManifestFile → String → AuditResult
  unfolding expected_digest Hex.decode
  judge entry digest =
      let expected = expected_digest entry in
      if str_eq expected ""
      then judged entry unverified digest "expected SHA-256 is missing"
      else if not (String.len expected == 64)
      then judged entry fail digest "expected SHA-256 must contain 64 hexadecimal characters"
      else if not (Hex.is_hex expected)
      then judged entry fail digest "expected SHA-256 is not hexadecimal"
      else if not (str_eq digest expected)
      then judged entry fail digest "SHA-256 mismatch"
      else judged entry pass digest ""

  abbrev pub verdict : ManifestFile → Result String → AuditResult
  verdict entry (err e) = judged entry fail "" e
  verdict entry (ok digest) = judge entry digest

  unfoldable pub audit_file : String → ManifestFile → AuditResult
  audit_file root entry = verdict entry do target ← locate root entry; digest_file target
