-- ===== src/Fan/Duty.antt =====
-- The PWM duty that a fan percentage becomes: int(percent * 255.0 / 100.0) in float64.
use native.Mathlib.Nat.{div-lt_iff_lt-mul, mul-le-mul_right, le_trans}
use hwcontrol.Base.{
  ℕ, ◌*◌, ◌/◌, ◌^◌, ◌≤◌, ◌<◌, ◌≡◌, refl, true, false, arith, lt→ltb, ◌==◌, ap, ◌∙◌,
}
use hwcontrol.Base.Result.{ok}
use hwcontrol.Int.{pos}
use hwcontrol.Float
use hwcontrol.Float.{Float64, nan, inf, finite, lit, one, one_pos}
use hwcontrol.Float.Round.{round_ratio, round_fuel}
use hwcontrol.Float.Monotone.{round_ratio_mono, div_mono}
use hwcontrol.Float.Arith.{round, mul, div, to_int}
use hwcontrol.Fan.{validate_fan_percent, duty}

-- The float64 product with 255, and the quotient of that by 100, as magnitudes.
times_255 : ℕ → ℕ
times_255 a = round_ratio (a * (255 * one)) one

over_100 : ℕ → ℕ
over_100 m = round_ratio (m * one) (100 * one)

full : ℕ
full = 100 * one

full_fits : full * (255 * one) / one < 9007199254740992 * 2 ^ round_fuel
unfolding full one
full_fits = omega arith

times_255-full : times_255 full ≡ 25500 * one
unfolding times_255 full round_ratio one
times_255-full = refl

over_100-full : over_100 (25500 * one) ≡ 255 * one
unfolding over_100 round_ratio one
over_100-full = refl

quotient_fits : 25500 * one * one / (100 * one) < 9007199254740992 * 2 ^ round_fuel
unfolding one
quotient_fits = omega arith

times_255_mono : (a b : ℕ) → a ≤ b → b ≤ full → times_255 a ≤ times_255 b
unfolding times_255
times_255_mono a b h k =
    round_ratio_mono (a * (255 * one)) (b * (255 * one)) one one_pos
      (mul-le-mul_right (255 * one) h)
      (omega (
        arith,
        full_fits,
        div_mono (a * (255 * one)) (full * (255 * one)) one one_pos
            (mul-le-mul_right (255 * one) (le_trans h k)),
      ))

hundred_pos : 0 < 100 * one
hundred_pos = omega (arith, one_pos)

over_100_mono : (a b : ℕ) → a ≤ b → b ≤ 25500 * one → over_100 a ≤ over_100 b
unfolding over_100
over_100_mono a b h k =
    round_ratio_mono (a * one) (b * one) (100 * one) hundred_pos (mul-le-mul_right one h) (
      omega (
        arith,
        quotient_fits,
        div_mono (a * one) (25500 * one * one) (100 * one) hundred_pos
            (mul-le-mul_right one (le_trans h k)),
      ))

times_255-le : (a : ℕ) → a ≤ full → times_255 a ≤ 25500 * one
times_255-le a h = rw (← times_255-full) (times_255_mono a full h (omega arith))

over_100-le : (m : ℕ) → m ≤ 25500 * one → over_100 m ≤ 255 * one
over_100-le m h = rw (← over_100-full) (over_100_mono m (25500 * one) h (omega arith))

duty_units : ℕ → ℕ
duty_units a = over_100 (times_255 a)

duty_units_mono : (a b : ℕ) → a ≤ b → b ≤ full → duty_units a ≤ duty_units b
unfolding duty_units
duty_units_mono a b h k =
    over_100_mono (times_255 a) (times_255 b) (times_255_mono a b h k) (times_255-le b k)

round_small :
    (n d : ℕ) → round_ratio n d ≤ 25500 * one → round false n d ≡ finite false (round_ratio n d)
unfolding round
round_small n d h = rw (lt→ltb (round_ratio n d) (2 ^ 1024 * one) (omega (arith, h, one_pos)))

mul_255 : (a : ℕ) → a ≤ full → mul (finite false a) (lit 255) ≡ finite false (times_255 a)
unfolding mul times_255
mul_255 a h = round_small (a * (255 * one)) one (times_255-le a h)

zero_test : (n : ℕ) → 0 < n → (n == 0) ≡ false
zero_test n h = ground arith

div_100 : (m : ℕ) → m ≤ 25500 * one → div (finite false m) (lit 100) ≡ finite false (over_100 m)
unfolding div over_100
div_100 m h =
    rw (zero_test (100 * one) hundred_pos)
      (round_small (m * one) (100 * one) (le_trans (over_100-le m h) (omega (arith, one_pos))))

units-le : (m : ℕ) → m ≤ 255 * one → m / one ≤ 255
units-le m h =
    omega
      (arith, (div-lt_iff_lt-mul {k = one} {x = m} {y = 256} one_pos).1 (omega (arith, one_pos)))

duty_units-le : (a : ℕ) → a ≤ full → duty_units a / one ≤ 255
unfolding duty_units
duty_units-le a h = units-le (over_100 (times_255 a)) (over_100-le (times_255 a) (times_255-le a h))

whole : (m : ℕ) → m / one ≤ 255 → to_int (finite false m) ≡ pos (m / one)
unfolding to_int
whole m h = rw (lt→ltb (m / one) (2 ^ 63) (omega arith))

-- The duty of a finite, positive magnitude of at most 100.
duty_of_units : (a : ℕ) → a ≤ full → duty (finite false a) ≡ pos (duty_units a / one)
unfolding duty duty_units
duty_of_units a h =
    rw (mul_255 a h, div_100 (times_255 a) (times_255-le a h))
      (whole (over_100 (times_255 a)) (duty_units-le a h))

-- A percentage that passes is a positive magnitude of at most 100.
valid_percent_units :
    (percent : Float64)
    → validate_fan_percent percent ≡ ok tt
    → (a : ℕ) × (percent ≡ finite false a) × (0 < a) × (a ≤ full)
unfolding validate_fan_percent Float.le Float.lt Float.is_nan Float.is_inf full
valid_percent_units nan h = ground arith
valid_percent_units (inf s) h = ground arith
valid_percent_units (finite true a) h = ground arith
valid_percent_units (finite false a) h = (a, refl, ground arith, ground arith)

-- The duty of every percentage that passes the check is between 0 and 255.
pub duty_in_range :
    (percent : Float64)
    → validate_fan_percent percent ≡ ok tt
    → (v : ℕ) × (duty percent ≡ pos v) × (v ≤ 255)
duty_in_range percent h =
    let (a, e, p, l) = valid_percent_units percent h in
    (duty_units a / one, ap duty e ∙ duty_of_units a l, duty_units-le a l)

le_units : (a b : ℕ) → Float.le (finite false a) (finite false b) ≡ true → a ≤ b
unfolding Float.le
le_units a b h = ground arith

duty_mono_units :
    (a b v v' : ℕ)
    → a ≤ b
    → b ≤ full
    → duty (finite false a) ≡ pos v
    → duty (finite false b) ≡ pos v'
    → v ≤ v'
duty_mono_units a b v v' ab l e e' =
    let d : duty_units a / one ≤ duty_units b / one =
      div_mono (duty_units a) (duty_units b) one one_pos (duty_units_mono a b ab l) in
    ground (arith, d, duty_of_units a (le_trans ab l), duty_of_units b l)

-- A larger percentage does not get a smaller duty.
pub duty_mono :
    (percent percent' : Float64) (v v' : ℕ)
    → validate_fan_percent percent ≡ ok tt
    → validate_fan_percent percent' ≡ ok tt
    → Float.le percent percent' ≡ true
    → duty percent ≡ pos v
    → duty percent' ≡ pos v'
    → v ≤ v'
duty_mono percent percent' v v' h h' l e e' =
    let (a, pa, za, la) = valid_percent_units percent h in
    let (b, pb, zb, lb) = valid_percent_units percent' h' in
    duty_mono_units a b v v' (le_units a b (rw (pa, pb) at l)) lb (rw pa at e) (rw pb at e')

-- The float64 constants 0.39 and 0.4, in units.
small : ℕ
small = round_ratio (39 * one * one) (100 * one)

two_fifths : ℕ
two_fifths = round_ratio (2 * one * one) (5 * one)

div-small : div (lit 39) (lit 100) ≡ finite false small
unfolding div round small round_ratio one
div-small = refl

div-two_fifths : div (lit 2) (lit 5) ≡ finite false two_fifths
unfolding div round two_fifths round_ratio one
div-two_fifths = refl

duty-small : duty_units small / one ≡ 0
unfolding duty_units over_100 times_255 small round_ratio one
duty-small = refl

duty-two_fifths : duty_units two_fifths / one ≡ 1
unfolding duty_units over_100 times_255 two_fifths round_ratio one
duty-two_fifths = refl

constants_fit : (small ≤ full) × (two_fifths ≤ full)
unfolding small two_fifths full round_ratio one
constants_fit = omega arith

-- A percentage that passes the check and is at most 0.39 gets the duty 0, which stops the fan.
pub small_percent_stops_fan :
    (percent : Float64)
    → validate_fan_percent percent ≡ ok tt
    → Float.le percent (div (lit 39) (lit 100)) ≡ true
    → duty percent ≡ pos 0
small_percent_stops_fan percent h l =
    let (a, pa, za, la) = valid_percent_units percent h in
    let s : duty_units a / one ≤ duty_units small / one =
      div_mono (duty_units a) (duty_units small) one one_pos
        (duty_units_mono a small (le_units a small (rw (pa, div-small) at l)) constants_fit.0) in
    let z : duty_units a / one ≡ 0 = omega (arith, s, duty-small) in
    rw pa (rw (← z) (duty_of_units a la))

-- A percentage that passes the check and is at least 0.4 gets a duty of at least 1.
pub larger_percent_keeps_fan :
    (percent : Float64)
    → validate_fan_percent percent ≡ ok tt
    → Float.le (div (lit 2) (lit 5)) percent ≡ true
    → (v : ℕ) × (duty percent ≡ pos v) × (0 < v)
larger_percent_keeps_fan percent h l =
    let (a, pa, za, la) = valid_percent_units percent h in
    let s : duty_units two_fifths / one ≤ duty_units a / one =
      div_mono (duty_units two_fifths) (duty_units a) one one_pos
        (duty_units_mono two_fifths a (le_units two_fifths a (rw (pa, div-two_fifths) at l)) la) in
    (duty_units a / one, ap duty pa ∙ duty_of_units a la, omega (arith, s, duty-two_fifths))
