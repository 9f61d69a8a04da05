-- ===== src/Telemetry/Laws.antt =====
-- The validity tests of bridge_service/src/health.go.
use hwcontrol.Base.{true, ◌≡◌, arith}
use hwcontrol.Float.{Float64}
use hwcontrol.Telemetry.{is_finite_positive, is_finite_non_negative}

-- A value that is positive and finite is non-negative.
pub non_negative_of_positive :
    (x : Float64) → is_finite_positive x ≡ true → is_finite_non_negative x ≡ true
unfolding is_finite_positive is_finite_non_negative
non_negative_of_positive x h = ground arith
