-- ===== src/Audit/Pinned.antt =====
-- Which files the audit accepts: security/local-audit/main.go.
use hwcontrol.Base.{
  ℕ, String, Bool, true, false, not, ◌&&◌, ◌||◌, ◌≡◌, ◌↔◌, refl, ap, ◌∙◌, List, [], ◌∷◌,
  if◌then◌else◌, str_eq, eq_iff, arith, Bool-cases, inl, inr, both,
}
use hwcontrol.Base.Result.{Result, ok, err, first_of_chain, both_of_chain, fail_if-eq-ok}
use hwcontrol.Files.{FileStatus, FileView}
use hwcontrol.Text.{trim_space}
use hwcontrol.Text.Clean.{split, is_rooted, join, rel}
use hwcontrol.Text.Hex
use hwcontrol.Text.Path.{has_prefix}
use hwcontrol.Audit.{
  ManifestFile, pass, Entry, missing, link, directory, other, Disk, abs, within_root, view_digest,
  digest_file, is_last, check_component, check_components, check_root, proper_path,
  reject_symlink_components, audit_root, locate, expected_digest, judge,
}

-- A component of a path that the audit goes through: a directory, or a last one that is no link.
is_real : Bool → Entry → Bool
is_real last (missing e) = false
is_real last link = false
is_real last directory = true
is_real last other = last

unfoldable pub real_components : (String → Entry) → String → List String → Bool
unfolding is_real
real_components lstat current [] = true
real_components lstat current (part ∷ parts) =
    let skipped = real_components lstat current parts in
    let checked =
      is_real (is_last parts) (lstat (join current part))
      && real_components lstat (join current part) parts in
    if str_eq part "" || str_eq part "." then skipped else checked

-- An entry whose file is what the manifest says: a relative path that stays below the root, with no
-- link on the way from the root, to a regular file whose digest is the expected one.
pub record IsIntact (disk : Disk) (root : String) (entry : ManifestFile) : Type 0 where
  pub named : str_eq (trim_space entry.path) "" ≡ false
  pub unrooted : is_rooted entry.path ≡ false
  pub base : String
  pub absolute : abs disk.cwd root ≡ ok base
  pub inside : within_root disk.cwd base (join base entry.path) ≡ true
  pub root_directory : disk.lstat base ≡ directory
  pub relative : String
  pub relative_of : rel base (join base entry.path) ≡ ok relative
  pub proper : (str_eq relative "." || str_eq relative ".." || has_prefix relative "../") ≡ false
  pub real : real_components disk.lstat base (split b'/' relative) ≡ true
  pub size : ℕ
  pub permissions : ℕ
  pub is_file : (disk.view (join base entry.path)).status ≡ FileStatus.regular size permissions
  pub text : String
  pub read : (disk.view (join base entry.path)).contents ≡ ok text
  pub pinned : expected_digest disk entry ≡ Hex.encode (disk.sha256 text)

module _ (disk : Disk) where
  component_passes :
      (part : String) (last : Bool) (e : Entry)
      → (check_component disk part last e ≡ ok tt) ↔ (is_real last e ≡ true)
  unfolding is_real
  component_passes part last (missing e) = (λ h. cc, λ h. cc)
  component_passes part last link = (λ h. cc, λ h. cc)
  component_passes part last directory = (λ h. refl, λ h. refl)
  component_passes part true other = (λ h. refl, λ h. refl)
  component_passes part false other = (λ h. cc, λ h. cc)

  pub components_pass :
      (current : String) (parts : List String)
      → (check_components disk current parts ≡ ok tt)
        ↔ (real_components disk.lstat current parts ≡ true)
  unfolding check_components real_components
  components_pass current [] = (λ h. refl, λ h. refl)
  components_pass current (part ∷ parts) = elim (Bool-cases (str_eq part "" || str_eq part ".")) [
    | inl s ↦ rw s (components_pass current parts)
    | inr s ↦
        let first = component_passes part (is_last parts) (disk.lstat (join current part)) in
        let rest = components_pass (join current part) parts in
        rw s (
          (λ h. let (a, b) = both_of_chain _ _ h in rw (first.0 a) (rest.0 b)),
          (λ h. let (a, b) = both _ _ h in rw (first.1 a) (rest.1 b)),
        )
  ]

  root_passes : (e : Entry) → (check_root disk e ≡ ok tt) ↔ (e ≡ directory)
  root_passes (missing e) = (λ h. cc, λ h. cc)
  root_passes link = (λ h. cc, λ h. cc)
  root_passes directory = (λ h. refl, λ h. refl)
  root_passes other = (λ h. cc, λ h. cc)

  path_of_proper :
      (r : Result String) {relative : String}
      → proper_path disk r ≡ ok relative
      → (r ≡ ok relative)
        × ((str_eq relative "." || str_eq relative ".." || has_prefix relative "../") ≡ false)
  path_of_proper (err e) h = cc
  path_of_proper (ok r) {relative} h =
      elim (Bool-cases (str_eq r "." || str_eq r ".." || has_prefix r "../")) [
        | inl t ↦ cc (rw t at h)
        | inr t ↦
            let e : ok r ≡ ok relative = rw t at h in
            let same : relative ≡ r = cc e in
            (e, ap (λ (s : String). str_eq s "." || str_eq s ".." || has_prefix s "../") same ∙ t)
      ]

  pub proper_of_path :
      (relative : String)
      → (str_eq relative "." || str_eq relative ".." || has_prefix relative "../") ≡ false
      → proper_path disk (ok relative) ≡ ok relative
  proper_of_path relative h = rw h refl

  root_of_audit : (r : Result String) {base : String} → audit_root disk r ≡ ok base → r ≡ ok base
  root_of_audit (err e) h = cc
  root_of_audit (ok r) h = h

  digest_of :
      (view : FileView) {digest : String}
      → view_digest disk view ≡ ok digest
      → (size permissions : ℕ) × (text : String) × (view.status
          ≡ FileStatus.regular size permissions)
        × (view.contents ≡ ok text)
        × (digest ≡ Hex.encode (disk.sha256 text))
  unfolding view_digest
  digest_of view h = go view.status view.contents refl refl h
    where
      go :
          (s : FileStatus) (c : Result String) {digest : String}
          → view.status ≡ s
          → view.contents ≡ c
          → view_digest disk (record { status = s; contents = c }) ≡ ok digest
          → (size permissions : ℕ) × (text : String) × (view.status
              ≡ FileStatus.regular size permissions)
            × (view.contents ≡ ok text)
            × (digest ≡ Hex.encode (disk.sha256 text))
      go (FileStatus.unavailable e) c p q h = cc
      go FileStatus.symlink c p q h = cc
      go FileStatus.irregular c p q h = cc
      go (FileStatus.regular size permissions) (err e) p q h = cc
      go (FileStatus.regular size permissions) (ok text) p q h = (size, permissions, text, p, q, cc)

  true_of_negation : (b : Bool) → not b ≡ false → b ≡ true
  true_of_negation true h = refl
  true_of_negation false h = cc

  pub judge_passed :
      (entry : ManifestFile) (digest : String)
      → (judge disk entry digest).status ≡ pass
      → expected_digest disk entry ≡ digest
  unfolding judge
  judge_passed entry digest h = ground (arith, eq_iff digest (expected_digest disk entry))

  pub located :
      (root : String) (entry : ManifestFile) {target digest : String}
      → locate disk root entry ≡ ok target
      → digest_file disk target ≡ ok digest
      → expected_digest disk entry ≡ digest
      → IsIntact disk root entry
  unfolding locate digest_file reject_symlink_components
  located root entry {digest} l f p =
      let (a, l) = both_of_chain _ _ l in
      let (base, b, l) = first_of_chain (audit_root disk (abs disk.cwd root)) _ l in
      let (c, l) = both_of_chain _ _ l in
      let (d, l) = both_of_chain _ _ l in
      let (e, l) = both_of_chain _ _ l in
      let (g, e) = both_of_chain _ _ e in
      let (relative, r, e) =
        first_of_chain (proper_path disk (rel base (join base entry.path))) _ e in
      let (r, n) = path_of_proper (rel base (join base entry.path)) r in
      let same : join base entry.path ≡ _ = cc l in
      let (size, permissions, text, s, t, x) =
        digest_of (disk.view (join base entry.path)) (rw same f) in
      record {
        named = fail_if-eq-ok _ _ a;
        unrooted = fail_if-eq-ok _ _ c;
        base = base;
        absolute = root_of_audit (abs disk.cwd root) b;
        inside = true_of_negation _ (fail_if-eq-ok _ _ d);
        root_directory = (root_passes (disk.lstat base)).0 g;
        relative = relative;
        relative_of = r;
        proper = n;
        real = (components_pass base (split b'/' relative)).0 e;
        size = size;
        permissions = permissions;
        is_file = s;
        text = text;
        read = t;
        pinned = p ∙ x;
      }
