-- ===== src/Float/Monotone.antt =====
-- The order under rounding to 53 bits.
use native.Mathlib.Nat.{
  pow-suc, div-lt_iff_lt-mul, le-div_iff_mul-le, mul-le-mul_right, le_trans, div-mul-le_self,
  div-add-mod,
}
use native.Mathlib.Decide.{dec_lt}
use hwcontrol.Base.{
  ℕ, zero, suc, ◌+◌, ◌*◌, ◌/◌, ◌%◌, ◌^◌, ◌≤◌, ◌<◌, ◌≡◌, refl, arith, ltb, ap, Bool-cases, inl, inr,
}
use hwcontrol.Float.Round.{exponent, near, round_at, round_fuel, round_ratio}

near_bounds : (n d : ℕ) → (n / d ≤ near n d) × (near n d ≤ n / d + 1)
unfolding near
near_bounds n d = ground arith

near_mono_same : (n n' d : ℕ) → 0 < d → n ≤ n' → n / d ≡ n' / d → near n d ≤ near n' d
unfolding near
near_mono_same n n' d p h e =
    let e' : n / d * d ≡ n' / d * d = ap (λ t. t * d) e in
    let r : n % d ≤ n' % d = omega (arith, e', div-add-mod n d, div-add-mod n' d) in ground arith

pub div_mono : (n n' d : ℕ) → 0 < d → n ≤ n' → n / d ≤ n' / d
div_mono n n' d p h = (le-div_iff_mul-le p).1 (le_trans (div-mul-le_self n d) h)

near_mono : (n n' d : ℕ) → 0 < d → n ≤ n' → near n d ≤ near n' d
near_mono n n' d p h =
    grind (arith, near_mono_same n n' d p h, near_bounds n d, near_bounds n' d, div_mono n n' d p h)

exponent_mono : (f q q' : ℕ) → q ≤ q' → exponent f q ≤ exponent f q'
unfolding exponent
exponent_mono zero q q' h = omega arith
exponent_mono (suc f) q q' h = ground (arith, exponent_mono f (q / 2) (q' / 2))

half_below : (f q : ℕ) → q < 9007199254740992 * 2 ^ suc f → q / 2 < 9007199254740992 * 2 ^ f
half_below f q h = omega (arith, pow-suc 2 f)

exponent_upper : (f q : ℕ) → q < 9007199254740992 * 2 ^ f → q < 9007199254740992 * 2 ^ exponent f q
unfolding exponent
exponent_upper zero q h = h
exponent_upper (suc f) q h = elim (Bool-cases (ltb q 9007199254740992)) [
  | inl small ↦ rw small (ground arith)
  | inr large ↦ rw large (rw pow-suc (omega (arith, exponent_upper f (q / 2) (half_below f q h))))
]

exponent_lower : (f q k : ℕ) → exponent f q ≡ suc k → 9007199254740992 * 2 ^ k ≤ q
unfolding exponent
exponent_lower zero q k h = ground arith
exponent_lower (suc f) q zero h = ground arith
exponent_lower (suc f) q (suc k) h = ground (arith, pow-suc 2 k, exponent_lower f (q / 2) k)

two_pow_pos : (k : ℕ) → 0 < 2 ^ k
two_pow_pos zero = omega arith
two_pow_pos (suc k) = omega (arith, pow-suc 2 k, two_pow_pos k)

two_pow_mono : (k j : ℕ) → k ≤ j → 2 ^ k ≤ 2 ^ j
two_pow_mono k zero h = rw e (omega arith)
  where
    e : k ≡ 0
    e = omega arith
two_pow_mono zero (suc j) h = two_pow_pos (suc j)
two_pow_mono (suc k) (suc j) h = omega (arith, pow-suc 2 k, pow-suc 2 j, two_pow_mono k j)

step_pos : (d k : ℕ) → 0 < d → 0 < d * 2 ^ k
step_pos d k p = grind (arith, two_pow_pos k)

-- With the exponent of its quotient, a rounded value is at most 2^53 of its units.
round_at-le :
    (k n d : ℕ)
    → 0 < d
    → n / d < 9007199254740992 * 2 ^ k
    → round_at k n d ≤ 9007199254740992 * 2 ^ k
unfolding round_at
round_at-le k n d p h =
    let a : n < 9007199254740992 * 2 ^ k * d = (div-lt_iff_lt-mul p).0 h in
    let b : n / (d * 2 ^ k) < 9007199254740992 =
      (div-lt_iff_lt-mul (step_pos d k p)).1 (omega (arith, a)) in
    mul-le-mul_right (2 ^ k) (omega (arith, near_bounds n (d * 2 ^ k)))

le-round_at :
    (j n d : ℕ)
    → 0 < d
    → 9007199254740992 * 2 ^ j ≤ n / d
    → 9007199254740992 * 2 ^ j ≤ round_at (suc j) n d
unfolding round_at
le-round_at j n d p h =
    let a : 9007199254740992 * 2 ^ j * d ≤ n = (le-div_iff_mul-le p).0 h in
    let e : 4503599627370496 * (d * 2 ^ suc j) ≡ 9007199254740992 * 2 ^ j * d =
      rw pow-suc (omega arith) in
    let b : 4503599627370496 ≤ n / (d * 2 ^ suc j) =
      (le-div_iff_mul-le (step_pos d (suc j) p)).1 (omega (arith, a, e)) in
    let c : 4503599627370496 * 2 ^ suc j ≤ near n (d * 2 ^ suc j) * 2 ^ suc j =
      mul-le-mul_right (2 ^ suc j) (omega (arith, b, near_bounds n (d * 2 ^ suc j))) in
    omega (arith, c, pow-suc 2 j)

round_at_mono : (k n n' d : ℕ) → 0 < d → n ≤ n' → round_at k n d ≤ round_at k n' d
unfolding round_at
round_at_mono k n n' d p h =
    mul-le-mul_right (2 ^ k) (near_mono n n' (d * 2 ^ k) (step_pos d k p) h)

rounds_up :
    (f n n' d : ℕ)
    → 0 < d
    → n ≤ n'
    → n / d < 9007199254740992 * 2 ^ f
    → (k' : ℕ) → exponent f (n' / d) ≡ k'
    → exponent f (n / d) < k'
    → round_at (exponent f (n / d)) n d ≤ round_at k' n' d
rounds_up f n n' d p h fits zero e l = absurd (omega arith)
rounds_up f n n' d p h fits (suc j) e l = omega (
  arith,
  round_at-le (exponent f (n / d)) n d p (exponent_upper f (n / d) fits),
  two_pow_mono (exponent f (n / d)) j,
  le-round_at j n' d p (exponent_lower f (n' / d) j e),
)

-- A larger quotient does not round to a smaller value.
pub round_ratio_mono :
    (n n' d : ℕ)
    → 0 < d
    → n ≤ n'
    → n / d < 9007199254740992 * 2 ^ round_fuel
    → round_ratio n d ≤ round_ratio n' d
unfolding round_ratio
round_ratio_mono n n' d p h fits =
    elim (dec_lt (exponent round_fuel (n / d)) (exponent round_fuel (n' / d))) [
      | yes l ↦ rounds_up round_fuel n n' d p h fits (exponent round_fuel (n' / d)) refl l
      | no l ↦
          let e : exponent round_fuel (n / d) ≡ exponent round_fuel (n' / d) =
            omega (arith, exponent_mono round_fuel (n / d) (n' / d) (div_mono n n' d p h)) in
          rw e (round_at_mono (exponent round_fuel (n' / d)) n n' d p h)
    ]
