-- ===== src/Float.antt =====
-- Go's float64, with IEEE 754 comparisons and correctly rounded arithmetic. A finite value is a
-- sign and a magnitude that counts units of 2^-1074, so every float64 is represented, -0 too.
pub mod Round
pub mod Monotone
pub mod Arith
pub mod Format
use hwcontrol.Base.{ℕ, ◌+◌, ◌*◌, ◌^◌, ◌<◌, ◌≡◌, Bool, true, false, not, ◌&&◌, ◌||◌, arith, ltb, leb}

pub data Float64 : Type 0 where
  nan : Float64
  inf : Bool → Float64
  finite : Bool → ℕ → Float64

-- 1.0 in units of 2^-1074.
unfoldable pub one : ℕ
one = 2 ^ 1074

pub one_pos : 0 < one
unfolding one
one_pos = omega arith

-- The float64 of a small integer constant, and its negative.
abbrev pub lit : ℕ → Float64
lit n = finite false (n * one)

abbrev pub neg_lit : ℕ → Float64
neg_lit n = finite true (n * one)

-- What a finite value adds on the positive and on the negative side.
abbrev pub up : Bool → ℕ → ℕ
up true m = 0
up false m = m

abbrev pub down : Bool → ℕ → ℕ
down true m = m
down false m = 0

-- x < y, x <= y and x == y in Go: false where a side is NaN.
unfoldable pub lt : Float64 → Float64 → Bool
lt (finite s a) (finite t b) = ltb (up s a + down t b) (up t b + down s a)
lt (finite s a) (inf t) = not t
lt (inf s) (finite t b) = s
lt (inf s) (inf t) = s && not t
lt nan nan = false
lt nan (inf t) = false
lt nan (finite t b) = false
lt (inf s) nan = false
lt (finite s a) nan = false

unfoldable pub le : Float64 → Float64 → Bool
le (finite s a) (finite t b) = leb (up s a + down t b) (up t b + down s a)
le (finite s a) (inf t) = not t
le (inf s) (finite t b) = s
le (inf s) (inf t) = s || not t
le nan nan = false
le nan (inf t) = false
le nan (finite t b) = false
le (inf s) nan = false
le (finite s a) nan = false

unfoldable pub eq : Float64 → Float64 → Bool
unfolding le
eq a b = le a b && le b a

unfoldable pub is_nan : Float64 → Bool
is_nan nan = true
is_nan (inf s) = false
is_nan (finite s a) = false

-- math.IsInf(x, 0)
unfoldable pub is_inf : Float64 → Bool
is_inf nan = false
is_inf (inf s) = true
is_inf (finite s a) = false

pub le_trans : (a b c : Float64) → le a b ≡ true → le b c ≡ true → le a c ≡ true
unfolding le
le_trans a b c h k = ground arith

pub lt-le_trans : (a b c : Float64) → lt a b ≡ true → le b c ≡ true → lt a c ≡ true
unfolding lt le
lt-le_trans a b c h k = ground arith

pub le-lt_trans : (a b c : Float64) → le a b ≡ true → lt b c ≡ true → lt a c ≡ true
unfolding lt le
le-lt_trans a b c h k = ground arith
