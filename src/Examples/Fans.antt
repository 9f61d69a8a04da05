-- ===== src/Examples/Fans.antt =====
-- Fan commands.
use hwcontrol.Base.{true, false, List, [], refl, ◌≡◌, ◌≢◌, arith}
use hwcontrol.Base.Result.{ok}
use hwcontrol.Int.{pos}
use hwcontrol.Float
use hwcontrol.Float.{Float64, lit}
use hwcontrol.Float.Arith.{div}
use hwcontrol.Fan.{PwmWrite, duty, validate_fan_percent}
use hwcontrol.Health.{is_empty}
use hwcontrol.Fan.Duty.{small_percent_stops_fan}
use hwcontrol.Execute.{Observed, execute_hardware_command}
use hwcontrol.Execute.Safety.{panic_changes_nothing}
use hwcontrol.Examples.Data.{unquote, daemon, machine, observed, full_speed}

small_percent_stops_fan_example : duty (div (lit 39) (lit 100)) ≡ pos 0
unfolding validate_fan_percent div Float.one hwcontrol.Float.Arith.round
    hwcontrol.Float.Round.round_ratio Float.lt
small_percent_stops_fan_example = small_percent_stops_fan (div (lit 39) (lit 100)) refl refl

non_empty : (writes : List PwmWrite) → is_empty writes ≡ false → writes ≢ []
non_empty writes h e = ground arith

abbrev panicking : Observed
panicking = record observed { panic_mode = true }

panic_changes_nothing_example :
    ((execute_hardware_command unquote daemon full_speed panicking machine).writes ≡ [])
    × ((execute_hardware_command unquote daemon full_speed panicking machine).machine ≡ machine)
    × ((execute_hardware_command unquote daemon full_speed panicking machine).result ≢ ok tt)
panic_changes_nothing_example =
    panic_changes_nothing unquote daemon full_speed panicking machine refl
