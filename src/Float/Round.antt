-- ===== src/Float/Round.antt =====
-- Rounding of a nonnegative rational to 53 significant bits, ties to even.
use hwcontrol.Base.{ℕ, zero, suc, ◌+◌, ◌*◌, ◌/◌, ◌%◌, ◌^◌, ltb, ◌==◌, if◌then◌else◌}

-- How many low bits of `q` lie below its 53 leading ones.
unfoldable pub exponent : ℕ → ℕ → ℕ
exponent zero q = 0
exponent (suc fuel) q =
    let rest = exponent fuel (q / 2) in if ltb q 9007199254740992 then 0 else suc rest

-- The integer nearest to n / d, the even one of two that are as near.
unfoldable pub near : ℕ → ℕ → ℕ
near n d =
    let q = n / d in
    let r = n % d in
    if ltb (2 * r) d then q else if ltb d (2 * r) then q + 1 else if q % 2 == 0 then q else q + 1

-- n / d, in the unit of the last place of its own binade.
unfoldable pub round_at : ℕ → ℕ → ℕ → ℕ
unfolding near
round_at k n d = near n (d * 2 ^ k) * 2 ^ k

-- Any quotient of two products of float64 magnitudes is below 2 ^ (53 + fuel).
abbrev pub round_fuel : ℕ
round_fuel = 6400

unfoldable pub round_ratio : ℕ → ℕ → ℕ
unfolding exponent round_at
round_ratio n d = round_at (exponent round_fuel (n / d)) n d
