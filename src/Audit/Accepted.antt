-- ===== src/Audit/Accepted.antt =====
-- The audit's exit code: security/local-audit/main.go.
use hwcontrol.Base.{
  neither, ℕ, String, Bool, true, false, ◌≡◌, ◌↔◌, refl, ap, List, [], ◌∷◌, length, map,
  if◌then◌else◌, str_eq, eq_iff, ==_iff, arith, Bool-cases, inl, inr,
}
use hwcontrol.Base.Result.{Result, ok, Result-cases, first_of_chain, ◌>>=◌}
use hwcontrol.Text.{trim_space}
use hwcontrol.Text.Clean.{split, join}
use hwcontrol.Text.Hex
use hwcontrol.Text.Hex.Laws.{are_bytes, decode-encode}
use hwcontrol.Text.Hex.Length.{len-encode}
use hwcontrol.Audit.{
  ManifestFile, Manifest, Status, pass, fail, unverified, AuditResult, Disk, abs, digest_file,
  reject_symlink_components, locate, expected_digest, judge, audit_file,
}
use hwcontrol.Audit.Report.{Flags, is_failure, failed, load_manifest, report, main}
use hwcontrol.Audit.Pinned.{IsIntact, located, judge_passed, components_pass, proper_of_path}
use Prim.Native.String

-- A digest is 32 bytes.
abbrev pub IsSha256 : (String → List ℕ) → Type 0
IsSha256 sha256 = (text : String) → (are_bytes (sha256 text) ≡ true) × (length (sha256 text) ≡ 32)

abbrev pub AreIntact : Disk → String → List ManifestFile → Type 0
AreIntact disk root [] = Unit
AreIntact disk root (entry ∷ entries) = IsIntact disk root entry × AreIntact disk root entries

module _ (disk : Disk) (sha : IsSha256 disk.sha256) where
  digest_not_empty : (text : String) → str_eq (Hex.encode (disk.sha256 text)) "" ≡ false
  digest_not_empty text = elim (Bool-cases (str_eq (Hex.encode (disk.sha256 text)) "")) [
    | inr e ↦ e
    | inl e ↦
        let empty : String.len (Hex.encode (disk.sha256 text)) ≡ 0 =
          ap String.len ((eq_iff (Hex.encode (disk.sha256 text)) "").0 e) in
        absurd (omega (arith, empty, len-encode (disk.sha256 text) (sha text).0, (sha text).1))
  ]

  judge_pinned :
      (entry : ManifestFile) (text : String)
      → expected_digest disk entry ≡ Hex.encode (disk.sha256 text)
      → (judge disk entry (Hex.encode (disk.sha256 text))).status ≡ pass
  unfolding judge
  judge_pinned entry text h =
      let digest = Hex.encode (disk.sha256 text) in
      let size : String.len digest ≡ 64 =
        omega (arith, len-encode (disk.sha256 text) (sha text).0, (sha text).1) in
      rw
        (
          h,
          digest_not_empty text,
          (==_iff (String.len digest) 64).1 size,
          Hex.is_hex,
          decode-encode (disk.sha256 text) (sha text).0,
          (eq_iff digest digest).1 refl,
        )
        refl

  components_lem :
      (root : String) (entry : ManifestFile) (i : IsIntact disk root entry)
      → reject_symlink_components disk i.base (join i.base entry.path) ≡ ok tt
  unfolding reject_symlink_components
  components_lem root entry i =
      rw
        (
          i.root_directory,
          i.relative_of,
          proper_of_path disk i.relative i.proper,
          (components_pass disk i.base (split b'/' i.relative)).1 i.real,
        )
        refl

  locate_lem :
      (root : String) (entry : ManifestFile) (i : IsIntact disk root entry)
      → locate disk root entry ≡ ok (join i.base entry.path)
  unfolding locate
  locate_lem root entry i =
      rw (i.named, i.absolute, i.unrooted, i.inside, components_lem root entry i) refl

  pass_of_conditions :
      (root : String) (entry : ManifestFile)
      → IsIntact disk root entry
      → (audit_file disk root entry).status ≡ pass
  unfolding audit_file digest_file
  pass_of_conditions root entry i =
      rw (locate_lem root entry i, i.is_file, i.read) (judge_pinned entry i.text i.pinned)

  IsIntact-of_accepted :
      (root : String) (entry : ManifestFile)
      → (audit_file disk root entry).status ≡ pass
      → IsIntact disk root entry
  unfolding audit_file
  IsIntact-of_accepted root entry h =
      elim (Result-cases (locate disk root entry >>= digest_file disk)) [
        | inl (e, l) ↦ cc (rw l at h)
        | inr (digest, l) ↦
            let (target, a, b) = first_of_chain (locate disk root entry) (digest_file disk) l in
            located disk root entry a b (judge_passed disk entry digest (rw l at h))
      ]

  all_accepted :
      (root : String) (entries : List ManifestFile)
      → (failed false (map (audit_file disk root) entries) ≡ false) ↔ AreIntact disk root entries
  unfolding failed
  all_accepted root [] = (λ h. tt, λ h. refl)
  all_accepted root (entry ∷ entries) =
      let rest = all_accepted root entries in
      (
        λ h.
            let (a, b) = neither _ _ h in
            (
              IsIntact-of_accepted root entry (pass_of (audit_file disk root entry).status a),
              rest.0 b,
            ),
        λ h. rw (pass_of_conditions root entry h.0) (rest.1 h.1),
      )
    where
      pass_of : (s : Status) → is_failure false s ≡ false → s ≡ pass
      pass_of fail h = cc
      pass_of unverified h = cc
      pass_of pass h = refl

  zero_exit : (b : Bool) → (◌≡◌ {A = ℕ} (if b then 1 else 0) 0) ↔ (b ≡ false)
  zero_exit b = ground arith

  module _ (unmarshal : String → Result Manifest) (encode : List AuditResult → Result String) where
    -- Where the command has a manifest that loads and prints text, and files without an expected
    -- digest are not permitted, it exits with 0 exactly if every file of the manifest is intact: a
    -- relative path that stays below the root, without a link on the way, to a regular file whose
    -- SHA-256 is the expected one. A digest is assumed to be 32 bytes.
    pub audit_accepts_intact :
        (flags : Flags) (text : Result String) (root : String) (manifest : Manifest)
        → str_eq (trim_space flags.manifest) "" ≡ false
        → flags.allow_unpinned ≡ false
        → flags.json ≡ false
        → abs disk.cwd flags.root ≡ ok root
        → load_manifest disk unmarshal encode text ≡ ok manifest
        → ((main disk unmarshal encode flags text).exit ≡ 0) ↔ AreIntact disk root manifest.files
    unfolding main report
    audit_accepts_intact flags text root manifest m u j a l =
        let (there, back) = all_accepted root manifest.files in
        let (zero, one) = zero_exit (failed false (map (audit_file disk root) manifest.files)) in
        rw (m, a, l, j, u) ((λ h. there (zero h), λ h. one (back h)))
