-- ===== src/Fan/Found.antt =====
-- What the discovery of fan channels finds: bridge_service/src/fan_control_linux.go.
use mathlib.Core.Path.{subst}
use mathlib.Core.List.{Memᴰ}
use mathlib.Core.Bool.{false≢true}
use hwcontrol.Base.{
  ℕ, String, Bool, true, false, not, ◌||◌, ◌≡◌, refl, sym, ap, ◌∙◌, List, [], ◌∷◌, Option, none,
  some, any, str_eq, arith, Bool-cases, Option-cases, inl, inr,
}
use hwcontrol.Int.{ℤ, pos, eqb_ℤ, eqb_ℤ-path}
use hwcontrol.Text.{trim_space}
use hwcontrol.Text.Clean.{clean}
use hwcontrol.Text.Number.{atoi}
use hwcontrol.Fan.{LinuxFanTarget}
use hwcontrol.Fan.Discover.{
  Sysfs, fan_input_path, enable_path, reason_of_mode, reason_of_enable, monitor_only_reason,
  found_target, discover_entries, is_some,
}
use hwcontrol.Fan.Configured.{path_within_root, parse_linux_pwm_number}

-- The PWM file of this number stands in the tree of the root, has an RPM sensor beside it, is in
-- manual mode and can be written.
pub record IsControllable (fs : Sysfs) (root path : String) (number : ℤ) : Type 0 where
  pub within : path_within_root root path ≡ true
  pub numbered : parse_linux_pwm_number path ≡ some number
  pub has_sensor : fs.stat (fan_input_path path number) ≡ true
  pub mode : String
  pub mode_read : fs.read_file (enable_path path number) ≡ some mode
  pub manual : atoi (trim_space mode) ≡ some (pos 1)
  pub writable : fs.open_write path ≡ true

some-ne-none {ℓ} : {A : Type ℓ} (a : A) → some a ≡ none → ⊥
some-ne-none a h = cc

manual_of_mode :
    (number : ℤ) (w : Bool) (enable : Option ℤ)
    → reason_of_mode number w enable ≡ none
    → (enable ≡ some (pos 1)) × (w ≡ true)
manual_of_mode number w none h = absurd (some-ne-none _ h)
manual_of_mode number w (some enable) h = elim (Bool-cases (eqb_ℤ enable (pos 1))) [
  | inr e ↦ absurd (some-ne-none _ (rw e at h))
  | inl e ↦ elim (Bool-cases w) [
    | inr k ↦ absurd (some-ne-none _ (rw (e, k) at h))
    | inl k ↦ (ap some (eqb_ℤ-path _ _ e), k)
  ]
]

manual_of_enable :
    (number : ℤ) (w : Bool) (text : Option String)
    → reason_of_enable number w text ≡ none
    → (mode : String) × (text ≡ some mode) × (atoi (trim_space mode) ≡ some (pos 1)) × (w ≡ true)
unfolding reason_of_enable
manual_of_enable number w none h = absurd (some-ne-none _ h)
manual_of_enable number w (some text) h =
    let (m, k) = manual_of_mode number w (atoi (trim_space text)) h in (text, refl, m, k)

no_reason-IsControllable :
    (fs : Sysfs) (root path : String) (number : ℤ)
    → path_within_root root path ≡ true
    → parse_linux_pwm_number path ≡ some number
    → monitor_only_reason fs path number ≡ none
    → IsControllable fs root path number
unfolding monitor_only_reason
no_reason-IsControllable fs root path number w n h =
    elim (Bool-cases (fs.stat (fan_input_path path number))) [
      | inr s ↦ absurd (some-ne-none _ (rw s at h))
      | inl s ↦
          let (mode, r, m, o) =
            manual_of_enable number (fs.open_write path) (fs.read_file (enable_path path number))
              (rw s at h) in
          record {
            within = w;
            numbered = n;
            has_sensor = s;
            mode = mode;
            mode_read = r;
            manual = m;
            writable = o;
          }
    ]

-- Where a target comes from: a path in the tree with a number.
module _ (sha256 : String → List ℕ) (fs : Sysfs) (root : String) where
  abbrev Origin : LinuxFanTarget → Type 0
  Origin t =
      (ids : List String) × (number : ℤ) × (t ≡ found_target sha256 fs ids t.pwm_path number)
      × (path_within_root root t.pwm_path ≡ true)
      × (parse_linux_pwm_number t.pwm_path ≡ some number)

  found_target-Origin :
      (ids : List String) (path : String) (number : ℤ)
      → path_within_root root path ≡ true
      → parse_linux_pwm_number path ≡ some number
      → Origin (found_target sha256 fs ids path number)
  unfolding found_target
  found_target-Origin ids path number w n = (ids, number, refl, w, n)

  from_head :
      {t u : LinuxFanTarget} {rest : List LinuxFanTarget}
      → Origin u
      → (Memᴰ t rest → Origin t)
      → Memᴰ t (u ∷ rest)
      → Origin t
  from_head o f (Memᴰ.head e) = subst Origin (sym e) o
  from_head o f (Memᴰ.tail m) = f m

  first_passes : (w s : Bool) → (not w || s) ≡ false → w ≡ true
  first_passes w s h = ground arith

  found-Origin :
      (paths ids entries : List String) {t : LinuxFanTarget}
      → Memᴰ t (discover_entries sha256 fs root paths ids entries)
      → Origin t
  unfolding discover_entries
  found-Origin paths ids [] m = elim m [ ]
  found-Origin paths ids (entry ∷ entries) m =
      elim (Bool-cases
        (not (path_within_root root (clean entry)) || any (str_eq (clean entry)) paths)) [
          | inl skip ↦ found-Origin paths ids entries (rw skip at m)
          | inr fresh ↦ elim (Option-cases (parse_linux_pwm_number (clean entry))) [
            | inl e ↦ found-Origin (clean entry ∷ paths) ids entries (rw (fresh, e) at m)
            | inr (number, e) ↦
                from_head (found_target-Origin ids (clean entry) number (first_passes _ _ fresh) e)
                  (found-Origin (clean entry ∷ paths)
                    ((found_target sha256 fs ids (clean entry) number).id ∷ ids) entries)
                  (rw (fresh, e) at m)
          ]
        ]

  no_reason : (r : Option String) → not (is_some r) ≡ true → r ≡ none
  no_reason none h = refl
  no_reason (some s) h = absurd (false≢true h)

  reason_of_supported :
      (ids : List String) (path : String) (number : ℤ)
      → (found_target sha256 fs ids path number).supported ≡ true
      → monitor_only_reason fs path number ≡ none
  unfolding found_target
  reason_of_supported ids path number h = no_reason (monitor_only_reason fs path number) h

  -- A supported target that was found can be controlled.
  pub supported-IsControllable :
      (paths ids entries : List String) {t : LinuxFanTarget}
      → Memᴰ t (discover_entries sha256 fs root paths ids entries)
      → t.supported ≡ true
      → (number : ℤ) × IsControllable fs root t.pwm_path number
  supported-IsControllable paths ids entries {t} m s =
      let (seen, number, e, w, n) = found-Origin paths ids entries m in
      let h =
        reason_of_supported seen t.pwm_path number
          (sym (ap (λ (u : LinuxFanTarget). u.supported) e) ∙ s) in
      (number, no_reason-IsControllable fs root t.pwm_path number w n h)
