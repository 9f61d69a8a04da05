-- ===== src/Fan/Configured.antt =====
-- The paths of PWM files, and those that are configured: bridge_service/src/fan_control_linux.go.
use hwcontrol.Base.{
  String, Bool, true, false, not, ◌&&◌, ◌||◌, List, [], ◌∷◌, Option, none, some, any, if◌then◌else◌,
  str_eq,
}
use hwcontrol.Base.Result.{Result, ok, err}
use hwcontrol.Int.{ℤ, pos, ltb_ℤ}
use hwcontrol.Text.{trim_space}
use hwcontrol.Text.Clean.{split, clean, rel, dir, is_rooted}
use hwcontrol.Text.Number.{atoi}
use hwcontrol.Text.Path.{base, has_prefix, trim_prefix}
use hwcontrol.Command.{◌<>◌}

abbrev is_number : Option ℤ → Bool
is_number none = false
is_number (some n) = true

unfoldable pub canonical_linux_hwmon_device_path : String → String
unfolding clean base dir has_prefix trim_prefix atoi
canonical_linux_hwmon_device_path device_path =
    let resolved = clean device_path in
    let hwmon_name = base resolved in
    if has_prefix hwmon_name "hwmon"
      && is_number (atoi (trim_prefix hwmon_name "hwmon"))
      && str_eq (base (dir resolved)) "hwmon"
    then dir (dir resolved)
    else resolved

abbrev positive : Option ℤ → Option ℤ
positive none = none
positive (some n) = if ltb_ℤ (pos 0) n then some n else none

unfoldable pub parse_linux_pwm_number : String → Option ℤ
unfolding base has_prefix trim_prefix atoi
parse_linux_pwm_number pwm_path =
    if not (has_prefix (base pwm_path) "pwm")
    then none
    else positive (atoi (trim_prefix (base pwm_path) "pwm"))

abbrev is_hwmon_path : Result String → Bool
is_hwmon_path (err e) = false
is_hwmon_path (ok relative) =
    not (str_eq relative ".")
    && not (str_eq relative "..")
    && not (has_prefix relative "../")
    && has_prefix relative "hwmon"

unfoldable pub path_within_root : String → String → Bool
unfolding clean rel has_prefix
path_within_root root path = is_hwmon_path (rel (clean root) (clean path))

-- The loop over the configured paths; `kept` holds those seen before.
unfoldable pub configured_paths : String → List String → List String → Result (List String)
unfolding clean trim_space path_within_root
configured_paths root kept [] = ok []
configured_paths root kept (p ∷ ps) =
    let path = clean (trim_space p) in
    let repeated = configured_paths root kept ps in
    let rest = configured_paths root (path ∷ kept) ps in
    if str_eq path "." || not (is_rooted path) || not (path_within_root root path)
    then err ("configured PWM targets must be absolute paths inside " <> root)
    else if any (str_eq path) kept
    then repeated
    else elim rest [ err e ↦ err e | ok paths ↦ ok (path ∷ paths) ]

-- `HWCONTROL_HWMON_PWMS` and `HWCONTROL_HWMON_PWM`; none of both set gives `none`.
abbrev some_paths : Result (List String) → Result (Option (List String))
some_paths (err e) = err e
some_paths (ok []) = err "no valid PWM targets configured"
some_paths (ok (p ∷ ps)) = ok (some (p ∷ ps))

unfoldable pub linux_configured_pwm_paths : String → String → String → Result (Option (List String))
unfolding trim_space split configured_paths
linux_configured_pwm_paths root env_pwms env_pwm =
    let multiple = trim_space env_pwms in
    let configured = if str_eq multiple "" then trim_space env_pwm else multiple in
    if str_eq configured ""
    then ok none
    else some_paths (configured_paths root [] (split b',' configured))
