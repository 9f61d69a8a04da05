-- ===== src/Security/Integrity/Fresh.antt =====
-- The first ticks of a monitor that was set up: bridge_service/src/integrity_monitor.go.
use mathlib.Core.Path.{subst}
use mathlib.Core.Bool.{false≢true}
use hwcontrol.Base.{
  ℕ, String, Bool, true, false, not, ◌&&◌, ◌||◌, arith, ◌≡◌, refl, sym, ap, ◌∙◌, List, [], ◌∷◌,
  ◌++◌, none, any, str_eq, eq_iff, Bool-cases, inl, inr,
}
use hwcontrol.Base.Result.{Result, ok, err, is_ok, ◌>>=◌, ◌>>◌}
use hwcontrol.Files.{FileStatus, FileView}
use hwcontrol.Text.{trim_space}
use hwcontrol.Text.Clean.{clean}
use hwcontrol.Secrets.{valid_bridge_secret, default_key_file, validate_key_file_path}
use hwcontrol.Verify.{verify_installation_root}
use hwcontrol.Verify.State.{labelled}
use hwcontrol.Security.Integrity.{IntegrityTarget, Monitor, Tick, tick, first_violation}
use hwcontrol.Security.Integrity.Latch.{found, is_due, first_violation-found, tick_detects_change}
use hwcontrol.Security.Integrity.Start.{
  integrity_file_digest, bridge_key_digest, target_digest_of, key_digest_of, KeyBaseline,
  environment_key, file_key, target_digest, baseline_targets, MonitorReadings, key_baseline,
  is_file_backed, key_paths, start_with, new_bridge_integrity_monitor, critical_integrity_paths,
}

module _ (sha256 : String → String) (fs : String → FileView) where
  -- The key's digest is the digest that the monitor computes later.
  abbrev IsCurrent : KeyBaseline → Type 0
  IsCurrent environment_key = Unit
  IsCurrent (file_key path digest) = integrity_file_digest sha256 fs path ≡ ok digest

  digest_current :
      (path digest : String) (status : FileStatus) (text : Result String)
      → key_digest_of sha256 status text ≡ ok digest
      → target_digest_of sha256 path status text ≡ ok digest
  digest_current path digest (FileStatus.unavailable e) text h = absurd (false≢true (ap is_ok h))
  digest_current path digest FileStatus.symlink text h = absurd (false≢true (ap is_ok h))
  digest_current path digest FileStatus.irregular text h = absurd (false≢true (ap is_ok h))
  digest_current path digest (FileStatus.regular size permissions) (err e) h = h
  digest_current path digest (FileStatus.regular size permissions) (ok text) h =
      elim (Bool-cases (valid_bridge_secret (trim_space text))) [
        | inl v ↦ rw v at h
        | inr v ↦ absurd (false≢true (ap is_ok (rw v at h)))
      ]

  key_digest_current :
      (path digest : String)
      → bridge_key_digest sha256 fs path ≡ ok digest
      → integrity_file_digest sha256 fs path ≡ ok digest
  unfolding bridge_key_digest integrity_file_digest
  key_digest_current path digest h =
      digest_current path digest (fs path).status (fs path).contents h

  of_labelled :
      (label digest : String) (r : Result String) → labelled label r ≡ ok digest → r ≡ ok digest
  of_labelled label digest (err e) h = absurd (false≢true (ap is_ok h))
  of_labelled label digest (ok d) h = h

  target_current :
      (key : KeyBaseline) (path digest : String)
      → IsCurrent key
      → target_digest sha256 fs key path ≡ ok digest
      → integrity_file_digest sha256 fs path ≡ ok digest
  target_current environment_key path digest c h = of_labelled _ digest _ h
  target_current (file_key key_path d) path digest c h = elim (Bool-cases (str_eq path key_path)) [
    | inl e ↦ ap (integrity_file_digest sha256 fs) ((eq_iff path key_path).0 e) ∙ c ∙ (rw e at h)
    | inr e ↦ of_labelled _ digest _ (rw e at h)
  ]

  -- The targets that a list of paths gives report no violation now.
  abbrev IsFresh : Result (List IntegrityTarget) → Type 0
  IsFresh (err e) = Unit
  IsFresh (ok targets) = first_violation (integrity_file_digest sha256 fs) targets ≡ none

  fresh_cons :
      (path digest : String) (rest : List IntegrityTarget)
      → integrity_file_digest sha256 fs path ≡ ok digest
      → first_violation (integrity_file_digest sha256 fs) rest ≡ none
      → first_violation
          (integrity_file_digest sha256 fs)
          (record { path = path; baseline = digest } ∷ rest)
        ≡ none
  unfolding first_violation
  fresh_cons path digest rest h k = rw (first_violation, h, (eq_iff digest digest).1 refl) k

  IsFresh-next :
      (path : String) (digest : Result String) (rest : Result (List IntegrityTarget))
      → ((d : String) → digest ≡ ok d → integrity_file_digest sha256 fs path ≡ ok d)
      → IsFresh rest
      → IsFresh (digest >>= λ d. rest >>= λ ts. ok (record { path = path; baseline = d } ∷ ts))
  IsFresh-next path (err e) rest h k = tt
  IsFresh-next path (ok d) (err e) h k = tt
  IsFresh-next path (ok d) (ok ts) h k = fresh_cons path d ts (h d refl) k

  targets-IsFresh :
      (key : KeyBaseline) (paths seen : List String)
      → IsCurrent key
      → IsFresh (baseline_targets sha256 fs key paths seen)
  unfolding baseline_targets first_violation
  targets-IsFresh key [] seen c = refl
  targets-IsFresh key (p ∷ ps) seen c =
      elim (Bool-cases
        (str_eq (clean (trim_space p)) "" || any (str_eq (clean (trim_space p))) seen)) [
          | inl h ↦ rw h (targets-IsFresh key ps seen c)
          | inr h ↦ rw h (
              IsFresh-next (clean (trim_space p))
                (target_digest sha256 fs key (clean (trim_space p)))
                (baseline_targets sha256 fs key ps (clean (trim_space p) ∷ seen))
                (λ d e. target_current key (clean (trim_space p)) d c e)
                (targets-IsFresh key ps (clean (trim_space p) ∷ seen) c))
        ]

  -- A monitor that was set up runs with its flag up, and no target is violated now.
  abbrev IsSetUp : Result Monitor → Type 0
  IsSetUp (err e) = Unit
  IsSetUp (ok m) =
      (m.running ≡ true)
      × (m.healthy ≡ true)
      × (first_violation (integrity_file_digest sha256 fs) m.targets ≡ none)

  after_bind :
      {A : Type 0} (r : Result A) (k : A → Result Monitor)
      → ((a : A) → r ≡ ok a → IsSetUp (k a))
      → IsSetUp (r >>= k)
  after_bind (err e) k h = tt
  after_bind (ok a) k h = h a refl

  after_check : (r : Result (Unit {0})) (next : Result Monitor) → IsSetUp next → IsSetUp (r >> next)
  after_check (err e) next h = tt
  after_check (ok done) next h = h

  of_check :
      {A : Type 0} (r : Result (Unit {0})) (next : Result A) (a : A)
      → (r >> next) ≡ ok a
      → next ≡ ok a
  of_check (err e) next a h = absurd (false≢true (ap is_ok h))
  of_check (ok done) next a h = h

  abbrev CurrentResult : Result KeyBaseline → Type 0
  CurrentResult (err e) = Unit
  CurrentResult (ok key) = IsCurrent key

  key_digest_read :
      (path : String) (d : Result String) (key : KeyBaseline)
      → ((digest : String) → d ≡ ok digest → integrity_file_digest sha256 fs path ≡ ok digest)
      → (d >>= λ digest. ok (file_key path digest)) ≡ ok key
      → IsCurrent key
  key_digest_read path (err e) key h k = absurd (false≢true (ap is_ok k))
  key_digest_read path (ok digest) key h k = subst CurrentResult k (h digest refl)

  IsSetUp-from :
      (now : ℕ) (targets : List IntegrityTarget)
      → first_violation (integrity_file_digest sha256 fs) targets ≡ none
      → IsSetUp (start_with now targets)
  IsSetUp-from now [] h = tt
  IsSetUp-from now (target ∷ targets) h = (refl, refl, h)

  key-IsCurrent :
      (r : MonitorReadings) (key : KeyBaseline) → key_baseline sha256 fs r ≡ ok key → IsCurrent key
  unfolding key_baseline
  key-IsCurrent r key h = elim (Bool-cases (not (is_file_backed (trim_space r.env_secret)))) [
    | inl n ↦ subst CurrentResult {x = ok environment_key} (rw n at h) tt
    | inr n ↦
        let path = default_key_file r.env_key_file in
        key_digest_read path (labelled _ (bridge_key_digest sha256 fs path)) key
          (λ d e. key_digest_current path d (of_labelled _ d _ e))
          (of_check (validate_key_file_path path r.entry) _ key (rw n at h))
  ]

  set_up : (r : MonitorReadings) → IsSetUp (new_bridge_integrity_monitor sha256 fs r)
  unfolding new_bridge_integrity_monitor
  set_up r = after_bind (key_baseline sha256 fs r) _ λ key e.
      let paths =
        key_paths key ++ critical_integrity_paths fs r.executable r.eval_symlinks r.env_files in
      let targets = baseline_targets sha256 fs key paths [] in
      let started =
        after_bind targets (λ ts. start_with r.now ts)
          λ ts e'.
            IsSetUp-from r.now ts
              (subst IsFresh e' (targets-IsFresh key paths [] (key-IsCurrent r key e))) in
      after_bind
        (labelled "resolve verify installation root"
          (verify_installation_root r.executable r.eval_symlinks))
        (λ root.
          labelled "verify installation integrity" (r.installation root)
          >> (targets >>= λ ts. start_with r.now ts))
        λ root e'.
          after_check (labelled "verify installation integrity" (r.installation root))
            (targets >>= λ ts. start_with r.now ts) started

both_hold : (b c : Bool) → not c ≡ false → ((b || true) && c) ≡ true
both_hold b c h = ground arith

-- A monitor that was set up keeps its flag up in a tick in which the installation check succeeds
-- and the files read as they did at its start.
pub fresh_monitor_holds :
    (sha256 : String → String) (fs : String → FileView) (r : MonitorReadings) (m : Monitor)
    (now after : ℕ)
    → new_bridge_integrity_monitor sha256 fs r ≡ ok m
    → (tick
        (record {
          now = now;
          after_verify = after;
          verify = ok tt;
          digest = integrity_file_digest sha256 fs;
        })
        m).healthy
      ≡ true
fresh_monitor_holds sha256 fs r m now after h =
    let ready = subst (IsSetUp sha256 fs) h (set_up sha256 fs r) in
    let t : Tick = record {
      now = now;
      after_verify = after;
      verify = ok tt;
      digest = integrity_file_digest sha256 fs;
    } in
    let detects = (tick_detects_change t m ready.0 ready.1).0 in
    let all_intact = sym (first_violation-found t.digest m.targets) ∙ ap found ready.2 in
    detects ∙ both_hold (not (is_due t m)) _ all_intact
