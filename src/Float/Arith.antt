-- ===== src/Float/Arith.antt =====
-- The arithmetic of float64: +, -, *, / with round-to-nearest-even, conversion to int, math.Round.
use hwcontrol.Base.{
  ℕ, ◌+◌, ◌-◌, ◌*◌, ◌/◌, ◌^◌, ◌≡◌, refl, Bool, true, false, not, ltb, ◌==◌, if◌then◌else◌,
}
use hwcontrol.Int.{ℤ, pos, negsuc}
use hwcontrol.Float.{Float64, nan, inf, finite, one, up, down, lit}
use hwcontrol.Float.Round.{round_ratio}

-- The float64 nearest to a magnitude n / d in units; beyond the largest one, an infinity.
unfoldable pub round : Bool → ℕ → ℕ → Float64
round s n d = let m = round_ratio n d in if ltb m (2 ^ 1024 * one) then finite s m else inf s

abbrev differ : Bool → Bool → Bool
differ true t = not t
differ false t = t

unfoldable pub mul : Float64 → Float64 → Float64
mul (finite s a) (finite t b) = round (differ s t) (a * b) one
mul (finite s a) (inf t) = if a == 0 then nan else inf (differ s t)
mul (inf s) (finite t b) = if b == 0 then nan else inf (differ s t)
mul (inf s) (inf t) = inf (differ s t)
mul (finite s a) nan = nan
mul (inf s) nan = nan
mul nan b = nan

unfoldable pub div : Float64 → Float64 → Float64
div (finite s a) (finite t b) =
    if b == 0 then if a == 0 then nan else inf (differ s t) else round (differ s t) (a * one) b
div (finite s a) (inf t) = finite (differ s t) 0
div (inf s) (finite t b) = inf (differ s t)
div (inf s) (inf t) = nan
div (finite s a) nan = nan
div (inf s) nan = nan
div nan b = nan

-- The exact sum p - m, where equal parts cancel to +0.
unfoldable pub signed_sum : ℕ → ℕ → Float64
signed_sum p m = if ltb p m then round true (m - p) 1 else round false (p - m) 1

unfoldable pub add : Float64 → Float64 → Float64
unfolding signed_sum
add (finite true a) (finite true b) = round true (a + b) 1
add (finite s a) (finite t b) = signed_sum (up s a + up t b) (down s a + down t b)
add (finite s a) (inf t) = inf t
add (inf s) (finite t b) = inf s
add (inf s) (inf t) = if differ s t then nan else inf s
add (finite s a) nan = nan
add (inf s) nan = nan
add nan b = nan

unfoldable pub neg : Float64 → Float64
neg nan = nan
neg (inf s) = inf (not s)
neg (finite s a) = finite (not s) a

unfoldable pub sub : Float64 → Float64 → Float64
unfolding add neg
sub a b = add a (neg b)

signed : Bool → ℕ → ℤ
signed false n = pos n
signed true n = if n == 0 then pos 0 else negsuc (n - 1)

-- int(x) truncates. Out of range, Go leaves the result to the machine: here that of amd64.
unfoldable pub to_int : Float64 → ℤ
unfolding signed
to_int (finite s m) = if ltb (m / one) (2 ^ 63) then signed s (m / one) else negsuc (2 ^ 63 - 1)
to_int nan = negsuc (2 ^ 63 - 1)
to_int (inf s) = negsuc (2 ^ 63 - 1)

-- math.Round: half away from zero.
unfoldable pub round_half_away : Float64 → Float64
round_half_away (finite s m) = finite s ((2 * m + one) / (2 * one) * one)
round_half_away nan = nan
round_half_away (inf s) = inf s

-- 30 percent of 255, in floating point, truncates to 76.
to_int-mul-div : to_int (div (mul (lit 30) (lit 255)) (lit 100)) ≡ pos 76
unfolding to_int div mul round round_ratio one
to_int-mul-div = refl
