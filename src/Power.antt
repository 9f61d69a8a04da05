-- ===== src/Power.antt =====
-- Power modes: bridge_service/src/power_mode.go and the Linux backend of power_mode_linux.go, which
-- talks to power-profiles-daemon through busctl.
pub mod Linux
use hwcontrol.Base.{
  String, Bool, true, false, not, ◌&&◌, ◌||◌, ◌≡◌, List, [], ◌∷◌, ◌++◌, Option, none, some,
  if◌then◌else◌, str_eq,
}
use hwcontrol.Base.Result.{Result, ok, err, fail_if, ◌>>=◌, ◌>>◌}
use hwcontrol.Float
use hwcontrol.Float.{Float64, lit}
use hwcontrol.Text.{trim_space}
use hwcontrol.Text.Path.{has_prefix, trim_prefix}
use hwcontrol.Command.{◌<>◌}

unfoldable pub power_mode_name : Float64 → Option String
power_mode_name value =
    if Float.eq value (lit 0)
    then some "Balanced"
    else if Float.eq value (lit 50)
    then some "Best Power Efficiency"
    else if Float.eq value (lit 100)
    then some "Best Performance"
    else none

unfoldable pub is_power_mode : Float64 → Bool
unfolding power_mode_name
is_power_mode value = elim (power_mode_name value) [ none ↦ false | some name ↦ true ]

unfoldable pub validate_power_mode_request : String → Float64 → Result (Unit {0})
unfolding is_power_mode
validate_power_mode_request action value = do
  fail_if (not (str_eq action "Set Power Mode AC") && not (str_eq action "Set Power Mode DC"))
      "unsupported power mode action"
  fail_if (not (is_power_mode value))
      "power mode value must be 0 (Balanced), 50 (Best Power Efficiency), or 100 (Best Performance)"
