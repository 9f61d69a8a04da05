-- ===== src/Fan/Manual.antt =====
-- The files that a channel command can write: setFanControlChannel of
-- bridge_service/src/fan_control_linux.go, over what the discovery finds.
use mathlib.Core.Path.{subst}
use mathlib.Core.List.{Memᴰ}
use hwcontrol.Base.{
  ℕ, ◌≤◌, String, true, not, ◌||◌, ◌≡◌, ◌≢◌, refl, List, [], ◌∷◌, Option, none, some, map, any,
  str_eq, Bool-cases, Option-cases, inl, inr,
}
use hwcontrol.Base.Result.{Result, ok, err}
use hwcontrol.Base.Distinct.{distinct, fresh, fresh_first, join_distinct, second_passes}
use hwcontrol.Base.Sorting.{SliceSort}
use hwcontrol.Int.{ℤ, pos}
use hwcontrol.Float.{Float64}
use hwcontrol.Text.Clean.{clean, join}
use hwcontrol.Fan.{LinuxFanTarget, WriteFault, duty_text, set_fan_control_channel}
use hwcontrol.Fan.Channels.{IsChosen, channel_write_exact}
use hwcontrol.Fan.Found.{IsControllable, supported-IsControllable}
use hwcontrol.Fan.Discover.{
  discover_configured, Sysfs, found_target, discover_entries, discover_from,
  discover_linux_fan_targets, linux_fan_channel_targets,
}
use hwcontrol.Fan.Configured.{path_within_root, parse_linux_pwm_number, linux_configured_pwm_paths}

path_of_found :
    (sha256 : String → List ℕ) (fs : Sysfs) (ids : List String) (path : String) (number : ℤ)
    → (found_target sha256 fs ids path number).pwm_path ≡ path
unfolding found_target
path_of_found sha256 fs ids path number = refl

abbrev pub paths_of : List LinuxFanTarget → List String
paths_of = map (λ (t : LinuxFanTarget). t.pwm_path)

module _ (sha256 : String → List ℕ) (fs : Sysfs) (root : String) where
  paths_apart :
      (seen ids entries : List String)
      → let found = paths_of (discover_entries sha256 fs root seen ids entries) in
        (fresh seen found ≡ true) × (distinct found ≡ true)
  unfolding discover_entries found_target
  paths_apart seen ids [] = (refl, refl)
  paths_apart seen ids (entry ∷ entries) =
      elim (Bool-cases
        (not (path_within_root root (clean entry)) || any (str_eq (clean entry)) seen)) [
          | inl skip ↦ rw skip (paths_apart seen ids entries)
          | inr new ↦ elim (Option-cases (parse_linux_pwm_number (clean entry))) [
            | inl e ↦
                let (f, d) = paths_apart (clean entry ∷ seen) ids entries in
                rw (new, e)
                  (
                    (fresh_first (clean entry) seen
                        (paths_of
                          (discover_entries sha256 fs root (clean entry ∷ seen) ids entries))
                        f).0,
                    d,
                  )
            | inr (number, e) ↦
                rw (new, e)
                  (join_distinct (clean entry) seen _ (second_passes _ _ new) (
                    paths_apart (clean entry ∷ seen)
                      ((found_target sha256 fs ids (clean entry) number).id ∷ ids) entries))
          ]
        ]

abbrev pub hwmon_root : String
hwmon_root = "/sys/class/hwmon"

clean_root : clean hwmon_root ≡ hwmon_root
unfolding clean
clean_root = refl

-- The discovered targets, and what a supported one among them is.
record IsDiscovery (fs : Sysfs) (found : List LinuxFanTarget) : Type 0 where
  apart : distinct (paths_of found) ≡ true
  controllable :
      (t : LinuxFanTarget)
      → Memᴰ t found
      → t.supported ≡ true
      → (number : ℤ) × IsControllable fs hwmon_root t.pwm_path number

module _ (sha256 : String → List ℕ) (sorter : SliceSort (λ (s : String). s)) (fs : Sysfs) where
  from-IsDiscovery :
      (root : String) (entries : Option (List String))
      → root ≡ hwmon_root
      → IsDiscovery fs (discover_from sha256 sorter fs root entries)
  from-IsDiscovery root none e = record { apart = refl; controllable = λ t m s. elim m [ ] }
  from-IsDiscovery root (some entries) e = record {
    apart = (paths_apart sha256 fs root [] [] (sorter.sort entries)).1;
    controllable = λ t m s.
        let (number, c) = supported-IsControllable sha256 fs root [] [] (sorter.sort entries) m s in
        (number, subst (λ r. IsControllable fs r t.pwm_path number) e c);
  }

  configured-IsDiscovery :
      (configured : Result (Option (List String)))
      → IsDiscovery fs (discover_configured sha256 sorter fs configured)
  unfolding discover_linux_fan_targets
  configured-IsDiscovery (err e) = record { apart = refl; controllable = λ t m s. elim m [ ] }
  configured-IsDiscovery (ok none) =
      from-IsDiscovery (clean hwmon_root) (fs.glob (join (clean hwmon_root) "hwmon*/pwm[0-9]*"))
        clean_root
  configured-IsDiscovery (ok (some paths)) =
      from-IsDiscovery (clean hwmon_root) (some paths) clean_root

  targets-IsDiscovery :
      (env_pwms env_pwm : String)
      → IsDiscovery fs (linux_fan_channel_targets sha256 sorter fs env_pwms env_pwm)
  unfolding linux_fan_channel_targets
  targets-IsDiscovery env_pwms env_pwm =
      configured-IsDiscovery (linux_configured_pwm_paths hwmon_root env_pwms env_pwm)

  -- Where a channel command writes, it makes exactly one write, of a duty between 0 and 255, to a
  -- PWM file in the tree of /sys/class/hwmon that the discovery found under the command's
  -- identifier: with an RPM sensor beside it, in manual mode and writable. No two discovered
  -- targets have the same file.
  pub channel_writes_manual_pwm :
      (env_pwms env_pwm : String) (fault : WriteFault) (id : String) (percent : Float64)
      → let all = linux_fan_channel_targets sha256 sorter fs env_pwms env_pwm in
        (set_fan_control_channel fault all id percent).1 ≢ []
        → (target : LinuxFanTarget) × (v : ℕ) × (number : ℤ) × IsChosen id all target
          × IsControllable fs hwmon_root target.pwm_path number
          × (distinct (paths_of all) ≡ true)
          × (v ≤ 255)
          × ((set_fan_control_channel fault all id percent).1
              ≡ record { path = target.pwm_path; text = duty_text (pos v) } ∷ [])
  channel_writes_manual_pwm env_pwms env_pwm fault id percent w =
      let all = linux_fan_channel_targets sha256 sorter fs env_pwms env_pwm in
      let found = targets-IsDiscovery env_pwms env_pwm in
      let (t, v, c, l, e) = channel_write_exact fault all id percent w in
      let (number, k) = found.controllable t c.discovered c.is_supported in
      (t, v, number, c, k, found.apart, l, e)
