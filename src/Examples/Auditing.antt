-- ===== src/Examples/Auditing.antt =====
-- The local audit.
use hwcontrol.Base.{ℕ, String, false, ◌||◌, ◌≡◌, ◌↔◌, refl, List, [], ◌∷◌, if◌then◌else◌, str_eq}
use hwcontrol.Base.Result.{Result, ok, err}
use hwcontrol.Files.{FileStatus}
use hwcontrol.Text.{trim_space}
use hwcontrol.Audit.{
  ManifestFile, Manifest, AuditResult, Entry, missing, directory, other, Disk, abs, audit_file,
  locate, reject_symlink_components, digest_file,
}
use hwcontrol.Audit.Report.{Flags, load_manifest, main}
use hwcontrol.Audit.Accepted.{IsSha256, AreIntact, audit_accepts_intact}

abbrev digest : List ℕ
digest =
    0 ∷ 1 ∷ 2 ∷ 3 ∷ 4 ∷ 5 ∷ 6 ∷ 7 ∷ 8 ∷ 9 ∷ 10 ∷ 11 ∷ 12 ∷ 13 ∷ 14 ∷ 15 ∷ 16 ∷ 17 ∷ 18 ∷ 19 ∷ 20
    ∷ 21 ∷ 22 ∷ 23 ∷ 24 ∷ 25 ∷ 26 ∷ 27 ∷ 28 ∷ 29 ∷ 30 ∷ 31 ∷ []

abbrev entries_of : String → Entry
entries_of path =
    if str_eq path "/opt/hw" || str_eq path "/opt/hw/lib"
    then directory
    else if str_eq path "/opt/hw/lib/a.so"
    then other
    else missing "no such file"

abbrev disk : Disk
disk = record {
  cwd = ok "/";
  lstat = entries_of;
  view = λ path. record { status = FileStatus.regular 10 420; contents = ok "binary" };
  to_lower = λ s. s;
  quote = λ s. s;
  sha256 = λ text. digest;
}

digest-IsSha256 : IsSha256 disk.sha256
digest-IsSha256 text = (refl, refl)

abbrev manifest : Manifest
manifest = record {
  files =
      record {
        path = "lib/a.so";
        sha256 = "000102030405060708090a0b0c0d0e0f101112131415161718191a1b1c1d1e1f";
      }
      ∷ [];
}

abbrev unmarshal : String → Result Manifest
unmarshal text = ok manifest

abbrev encode : List AuditResult → Result String
encode results = err "not encoded"

abbrev flags : Flags
flags = record { root = "/opt//hw"; manifest = "m.json"; json = false; allow_unpinned = false }

audit_passes : (main disk unmarshal encode flags (ok "{}")).exit ≡ 0
unfolding main audit_file locate reject_symlink_components digest_file hwcontrol.Audit.within_root
    hwcontrol.Audit.check_components hwcontrol.Audit.judge
audit_passes = refl

root_of_flags : abs disk.cwd flags.root ≡ ok "/opt/hw"
unfolding abs
root_of_flags = refl

manifest_loads : load_manifest disk unmarshal encode (ok "{}") ≡ ok manifest
unfolding load_manifest
manifest_loads = refl

named_manifest : str_eq (trim_space flags.manifest) "" ≡ false
unfolding trim_space
named_manifest = refl

audit_accepts_intact_example :
    ((main disk unmarshal encode flags (ok "{}")).exit ≡ 0)
    ↔ AreIntact disk "/opt/hw" manifest.files
audit_accepts_intact_example =
    audit_accepts_intact disk digest-IsSha256 unmarshal encode flags (ok "{}") "/opt/hw" manifest
      named_manifest refl refl root_of_flags manifest_loads
