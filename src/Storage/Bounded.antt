-- ===== src/Storage/Bounded.antt =====
-- What a SMART report can be read as: parseSmartctlReport of bridge_service/src/storage_health.go.
use mathlib.Core.Path.{subst}
use hwcontrol.Base.{
  ℕ, ◌+◌, ◌-◌, ◌*◌, ◌^◌, ◌≤◌, ◌<◌, String, Bool, true, false, ◌&&◌, ◌≡◌, ◌≢◌, refl, sym, ap, ◌∙◌,
  Option, none, some, ltb, if◌then◌else◌, str_eq, eq_iff, arith, Bool-cases, inl, inr, both, lt→ltb,
}
use hwcontrol.Float
use hwcontrol.Float.{Float64, nan, inf, finite, one, lit, neg_lit}
use hwcontrol.Float.Arith.{sub, add, neg, signed_sum, round}
use hwcontrol.Float.Round.{round_ratio, round_fuel}
use hwcontrol.Float.Monotone.{round_ratio_mono}
use hwcontrol.Storage.Health.{
  SmartctlReport, StorageHealthResult, overall_status, plausible_temperature, remaining,
  apply_endurance, health_of_report, parse_smartctl_report,
}

-- A reading that is not there, or lies between two values.
abbrev pub IsWithin : Float64 → Float64 → Option Float64 → Type 0
IsWithin low high none = Unit
IsWithin low high (some v) = (Float.le low v ≡ true) × (Float.le v high ≡ true)

hundred : ℕ
hundred = 100 * one

hundred_exact : round_ratio hundred 1 ≡ hundred
unfolding hundred one round_ratio
hundred_exact = refl

hundred_fits : hundred < 9007199254740992 * 2 ^ round_fuel
unfolding hundred one
hundred_fits = omega arith

hundred_finite : hundred < 2 ^ 1024 * one
unfolding hundred one
hundred_finite = omega arith

rounded-le : (n : ℕ) → n ≤ hundred → round_ratio n 1 ≤ hundred
rounded-le n h =
    let m = round_ratio_mono n hundred 1 (omega arith) h (omega (arith, hundred_fits)) in
    omega (arith, m, hundred_exact)

clamp_at_zero : Float64 → Float64
clamp_at_zero value = if Float.lt value (lit 0) then lit 0 else value

abbrev AtMostHundred : Float64 → Type 0
AtMostHundred v = IsWithin (lit 0) (finite false hundred) (some v)

zero_in_range : AtMostHundred (lit 0)
unfolding Float.le
zero_in_range = ground arith

negative_in_range : (n : ℕ) → AtMostHundred (clamp_at_zero (round true n 1))
unfolding clamp_at_zero round Float.lt Float.le
negative_in_range n = ground arith

positive_in_range : (n : ℕ) → n ≤ hundred → AtMostHundred (clamp_at_zero (round false n 1))
unfolding clamp_at_zero round Float.lt Float.le
positive_in_range n h =
    let l = rounded-le n h in
    rw (lt→ltb (round_ratio n 1) (2 ^ 1024 * one) (omega (arith, l, hundred_finite))) (ground arith)

rest_in_range : (m : ℕ) → AtMostHundred (clamp_at_zero (signed_sum hundred m))
unfolding signed_sum
rest_in_range m = elim (Bool-cases (ltb hundred m)) [
  | inl h ↦ rw h (negative_in_range (m - hundred))
  | inr h ↦ rw h (positive_in_range (hundred - m) (omega arith))
]

less_than_hundred : (m : ℕ) → sub (lit 100) (finite false m) ≡ signed_sum hundred m
unfolding sub add neg hundred
less_than_hundred m =
    let a : 100 * one + 0 ≡ 100 * one = omega arith in
    let b : 0 + m ≡ m = omega arith in λ i. signed_sum (a i) (b i)

all_of_hundred : (m : ℕ) → sub (lit 100) (finite true m) ≡ signed_sum (hundred + m) 0
unfolding sub add neg hundred
all_of_hundred m = refl

infinite_use : AtMostHundred (remaining (inf false))
unfolding remaining sub add neg Float.le Float.lt
infinite_use = ground arith

nothing_used : (m : ℕ) → Float.le (lit 0) (finite true m) ≡ true → hundred + m ≡ hundred
unfolding Float.le
nothing_used m h = ground arith

remaining_in_range :
    (used : Float64) → Float.le (lit 0) used ≡ true → AtMostHundred (remaining used)
unfolding remaining clamp_at_zero Float.le
remaining_in_range nan h = cc
remaining_in_range (inf true) h = cc
remaining_in_range (inf false) h = infinite_use
remaining_in_range (finite false m) h =
    subst (λ v. AtMostHundred (clamp_at_zero v)) (sym (less_than_hundred m)) (rest_in_range m)
remaining_in_range (finite true m) h =
    subst (λ v. AtMostHundred (clamp_at_zero v))
      (sym (all_of_hundred m ∙ ap (λ n. signed_sum n 0) (nothing_used m h))) (rest_in_range 0)

hundred_is_literal : finite false hundred ≡ lit 100
unfolding hundred
hundred_is_literal = refl

endurance_in_range :
    (used : Option Float64) (result : StorageHealthResult)
    → IsWithin (lit 0) (lit 100) result.health_percent
    → IsWithin (lit 0) (lit 100) (apply_endurance used result).health_percent
unfolding apply_endurance
endurance_in_range none result h = h
endurance_in_range (some used) result h =
    elim (Bool-cases (Float.le (lit 0) used && Float.le used (lit 1000))) [
      | inr r ↦ rw r h
      | inl r ↦
          let k =
            subst (λ v. IsWithin (lit 0) v (some (remaining used))) hundred_is_literal
              (remaining_in_range used (both _ _ r).0) in
          elim (Bool-cases (Float.le (lit 100) used && str_eq result.status "healthy")) [
            | inl w ↦ rw (r, w) k
            | inr w ↦ rw (r, w) k
          ]
    ]

temperature_in_range :
    (t : Option Float64) → IsWithin (neg_lit 20) (lit 125) (plausible_temperature t)
unfolding plausible_temperature
temperature_in_range none = tt
temperature_in_range (some t) =
    elim (Bool-cases (Float.le (neg_lit 20) t && Float.le t (lit 125))) [
      | inl h ↦ rw h (both _ _ h)
      | inr h ↦ rw h tt
    ]

endurance_temperature :
    (used : Option Float64) (result : StorageHealthResult)
    → (apply_endurance used result).temperature ≡ result.temperature
unfolding apply_endurance
endurance_temperature none result = refl
endurance_temperature (some used) result = ground arith

endurance_healthy :
    (used : Option Float64) (result : StorageHealthResult)
    → (apply_endurance used result).status ≡ "healthy"
    → result.status ≡ "healthy"
unfolding apply_endurance
endurance_healthy none result h = h
endurance_healthy (some used) result h = ground (arith, eq_iff result.status "healthy")

overall_healthy :
    (passed : Option Bool) → (overall_status passed).status ≡ "healthy" → passed ≡ some true
overall_healthy none h = absurd (ground (arith, eq_iff "unknown" "healthy"))
overall_healthy (some true) h = refl
overall_healthy (some false) h = absurd (ground (arith, eq_iff "warning" "healthy"))

abbrev pub HasPassed : String → Option SmartctlReport → Type 0
HasPassed status none = status ≢ "healthy"
HasPassed status (some report) = status ≡ "healthy" → report.passed ≡ some true

-- What is made of a report.
abbrev pub IsSound : Option SmartctlReport → StorageHealthResult → Type 0
IsSound report result =
    IsWithin (neg_lit 20) (lit 125) result.temperature
    × IsWithin (lit 0) (lit 100) result.health_percent
    × HasPassed result.status report

IsSound-of_report : (report : Option SmartctlReport) → IsSound report (health_of_report report)
IsSound-of_report none = (tt, tt, λ h. ground (arith, eq_iff "unknown" "healthy"))
IsSound-of_report (some report) =
    let result = record (overall_status report.passed) {
      temperature = plausible_temperature report.temperature;
    } in
    (
      subst (IsWithin (neg_lit 20) (lit 125))
          (sym (endurance_temperature report.percentage_used result))
          (temperature_in_range report.temperature),
      endurance_in_range report.percentage_used result (no_percent report.passed),
      λ h. overall_healthy report.passed (endurance_healthy report.percentage_used result h),
    )
  where
    no_percent :
        (passed : Option Bool) → IsWithin (lit 0) (lit 100) (overall_status passed).health_percent
    no_percent none = tt
    no_percent (some true) = tt
    no_percent (some false) = tt

-- Whatever smartctl prints, the health that is read from it has a temperature between -20 and 125 or
-- none, a remaining percentage between 0 and 100 or none, rounding included, and the status healthy
-- only where the disk reports that it passed.
pub smart_report-IsSound :
    (unmarshal : String → Option SmartctlReport) (text : String)
    → IsSound (unmarshal text) (parse_smartctl_report unmarshal text)
unfolding parse_smartctl_report
smart_report-IsSound unmarshal text = IsSound-of_report (unmarshal text)
