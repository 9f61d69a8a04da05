-- ===== src/HealthyCore/Score.antt =====
-- The steps by which Evaluate (bridge_service/healthycore/assessment.go) lowers the score.
use hwcontrol.Base.{
  String, Bool, true, false, not, ◌&&◌, List, [], ◌∷◌, ◌++◌, Option, none, some, if◌then◌else◌,
}
use hwcontrol.Int.{ℤ, pos, negsuc, ◌+ℤ◌, ◌-ℤ◌, ◌*ℤ◌, ltb_ℤ, wrap64, half}
use hwcontrol.Float
use hwcontrol.Float.{Float64, lit, one}
use hwcontrol.Float.Arith.{div, round_half_away, to_int}
use hwcontrol.Text.Decimal.{format_int}
use hwcontrol.Command.{◌<>◌}

-- A DeviceKind that Evaluate supports; any other text is refused before all else.
pub data DeviceKind : Type 0 where
  cpu gpu ram : DeviceKind
  -- Any other text, as %q prints it.
  other : (quoted : String) → DeviceKind

abbrev pub is_ram : DeviceKind → Bool
is_ram ram = true
is_ram _ = false

pub record Evidence : Type 0 where
  pub device : DeviceKind
  pub sample_count : ℤ
  pub max_temperature_c : Option Float64
  pub thermal_limit_c : Option Float64
  pub thermal_throttle_events : ℤ
  pub observed_errors : ℤ
  pub vendor_health_percent : Option Float64
  pub memory_usage_percent : Option Float64

-- The variables score, indicators and result.EvidenceSummary.
pub record Scored : Type 0 where
  pub score : ℤ
  pub indicators : ℤ
  pub summary : List String

abbrev pub has_temperature : Option Float64 → Bool
has_temperature none = false
has_temperature (some t) = true

-- A penalty with its sentence.
unfoldable pub deduct : Scored → ℤ → String → Scored
deduct s penalty sentence = record {
  score = wrap64 (s.score -ℤ penalty);
  indicators = wrap64 (s.indicators +ℤ pos 1);
  summary = s.summary ++ sentence ∷ [];
}

-- The constants 0.95 and 0.85, rounded to float64.
abbrev percent_lit : ℤ → Float64
percent_lit (pos n) = div (lit n) (lit 100)
percent_lit (negsuc n) = lit 0

unfoldable pub thermal_penalty : Float64 → ℤ × String
thermal_penalty ratio =
    if Float.le (lit 1) ratio
    then (pos 35, "Maximum observed temperature reached or exceeded the supplied thermal limit.")
    else if Float.le (percent_lit (pos 95)) ratio
    then (pos 25, "Maximum observed temperature was within 5% of the supplied thermal limit.")
    else if Float.le (percent_lit (pos 85)) ratio
    then (pos 12, "Maximum observed temperature was high relative to the supplied thermal limit.")
    else (pos 0, "Maximum observed temperature was below 85% of the supplied thermal limit.")

thermal_branch : Option Float64 → Option Float64 → Scored → Scored
thermal_branch (some t) (some l) s =
    let (penalty, sentence) = thermal_penalty (div t l) in deduct s penalty sentence
thermal_branch _ _ s = s

unfoldable pub thermal_step : Evidence → Scored → Scored
unfolding thermal_branch
thermal_step e s =
    if not (is_ram e.device) && ltb_ℤ (pos 0) e.sample_count
    then thermal_branch e.max_temperature_c e.thermal_limit_c s
    else s

-- count * each, capped.
unfoldable pub capped_penalty : ℤ → ℤ → ℤ → ℤ
capped_penalty count each cap =
    let penalty = wrap64 (count *ℤ each) in if ltb_ℤ cap penalty then cap else penalty

unfoldable pub throttle_step : Evidence → Scored → Scored
throttle_step e s =
    if not (is_ram e.device) && ltb_ℤ (pos 0) e.thermal_throttle_events
    then deduct s (capped_penalty e.thermal_throttle_events (pos 5) (pos 20))
        (format_int e.thermal_throttle_events <> " thermal-throttling event(s) were reported.")
    else s

unfoldable pub error_step : Evidence → Scored → Scored
error_step e s =
    if ltb_ℤ (pos 0) e.observed_errors
    then deduct s
        (capped_penalty e.observed_errors (if is_ram e.device then pos 20 else pos 10) (pos 30))
        (format_int e.observed_errors <> " hardware/driver error(s) were reported.")
    else s

-- The score before the vendor's report is averaged in.
unfoldable pub penalty_score : Evidence → Scored
penalty_score e = error_step e (
    throttle_step e (thermal_step e (record { score = pos 100; indicators = pos 0; summary = [] })))

unfoldable pub vendor_step : Evidence → Scored → Scored
vendor_step e s = elim e.vendor_health_percent [
  | none ↦ s
  | some v ↦ record {
    score = half (wrap64 (s.score +ℤ to_int (round_half_away v)));
    indicators = wrap64 (s.indicators +ℤ pos 1);
    summary = s.summary ++ "A device-specific vendor health percentage was supplied." ∷ [];
  }
]

unfoldable pub clamp_score : ℤ → ℤ
clamp_score score =
    let score = if ltb_ℤ score (pos 0) then pos 0 else score in
    if ltb_ℤ (pos 100) score then pos 100 else score
