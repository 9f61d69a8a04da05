-- ===== src/HealthyCore.antt =====
-- The condition index of bridge_service/healthycore/assessment.go. `int` arithmetic wraps at 64 bits.
pub mod Score
pub mod Range
use hwcontrol.Base.{
  ℕ, String, Bool, true, false, not, ◌&&◌, ◌||◌, ◌≡◌, refl, List, [], ◌∷◌, ◌++◌, Option, none, some,
  if◌then◌else◌,
}
use hwcontrol.Base.Result.{Result, ok, err, fail_if, ◌>>=◌, ◌>>◌}
use hwcontrol.Int.{ℤ, pos, negsuc, ◌+ℤ◌, ltb_ℤ, leb_ℤ, eqb_ℤ, wrap64}
use hwcontrol.Float
use hwcontrol.Float.{Float64, lit, neg_lit}
use hwcontrol.Float.Arith.{add}
use hwcontrol.Float.Format.{format_fixed}
use hwcontrol.Text.Decimal.{format_int}
use hwcontrol.Command.{◌<>◌}
use hwcontrol.HealthyCore.Score.{
  DeviceKind, other, Evidence, Scored, is_ram, has_temperature, thermal_step, throttle_step,
  error_step, vendor_step, clamp_score, penalty_score,
}

pub record Assessment : Type 0 where
  pub device : DeviceKind
  pub condition_index : Option ℤ
  pub status : String
  pub confidence : String
  pub evidence_summary : List String
  pub limitations : List String

finite : Float64 → Bool
finite v = not (Float.is_nan v) && not (Float.is_inf v)

unfoldable pub valid_percent : Option Float64 → Result (Unit {0})
unfolding finite
valid_percent none = ok tt
valid_percent (some value) =
    fail_if (not (finite value) || Float.lt value (lit 0) || Float.lt (lit 100) value)
      "invalid Healthy Core evidence: vendor health percentage must be between 0 and 100"

bad_temperature : Option Float64 → Bool
unfolding finite
bad_temperature none = false
bad_temperature (some t) = not (finite t) || Float.lt t (neg_lit 20) || Float.lt (lit 200) t

bad_limit : Option Float64 → Bool
unfolding finite
bad_limit none = false
bad_limit (some t) = not (finite t) || Float.le t (lit 0) || Float.lt (lit 200) t

abbrev pub is_none : Option Float64 → Bool
is_none none = true
is_none (some t) = false

inconsistent : Option Float64 → Option Float64 → Bool
inconsistent (some t) (some l) = Float.lt (add l (lit 15)) t
inconsistent _ _ = false

abbrev supported : DeviceKind → Result (Unit {0})
supported (other quoted) = err ("invalid Healthy Core evidence: unsupported device " <> quoted)
supported _ = ok tt

-- The checks at the head of Evaluate.
unfoldable pub check_evidence : Evidence → Result (Unit {0})
unfolding bad_temperature bad_limit inconsistent
check_evidence e = do
  supported e.device
  fail_if
      (ltb_ℤ e.sample_count (pos 0)
        || ltb_ℤ e.thermal_throttle_events (pos 0)
        || ltb_ℤ e.observed_errors (pos 0))
      "invalid Healthy Core evidence: counts must be non-negative"
  valid_percent e.vendor_health_percent
  fail_if (bad_temperature e.max_temperature_c)
      "invalid Healthy Core evidence: implausible maximum temperature"
  fail_if (bad_limit e.thermal_limit_c) "invalid Healthy Core evidence: invalid thermal limit"
  fail_if (is_ram e.device && not (is_none e.max_temperature_c))
      "invalid Healthy Core evidence: RAM does not use CPU/GPU thermal scoring"
  fail_if (not (is_none e.max_temperature_c) && is_none e.thermal_limit_c)
      "invalid Healthy Core evidence: temperature requires a device-specific thermal limit"
  fail_if (inconsistent e.max_temperature_c e.thermal_limit_c)
      "invalid Healthy Core evidence: temperature is inconsistent with the supplied thermal limit"

abbrev pub limitations : List String
limitations =
    "This index is not a physical-wear percentage or a remaining-life estimate."
    ∷ "Results depend on the quality, duration, and device-specific meaning of supplied telemetry."
    ∷ "No hardware settings are changed by this assessment." ∷ []

unfoldable pub no_evidence : Evidence → Bool
no_evidence e =
    (is_ram e.device || is_none e.max_temperature_c || eqb_ℤ e.sample_count (pos 0))
    && is_none e.vendor_health_percent
    && eqb_ℤ e.observed_errors (pos 0)
    && eqb_ℤ e.thermal_throttle_events (pos 0)

unfoldable pub insufficient : Evidence → List String → Assessment
insufficient e summary = record {
  device = e.device;
  condition_index = none;
  status = "insufficient_data";
  confidence = "low";
  evidence_summary = summary;
  limitations = limitations;
}

unfoldable pub status_of_score : ℤ → String
status_of_score score =
    if leb_ℤ (pos 85) score
    then "no_obvious_concern"
    else if leb_ℤ (pos 65) score
    then "needs_attention"
    else "elevated_risk"

unfoldable pub confidence_of : ℤ → ℤ → String
confidence_of indicators samples =
    if leb_ℤ (pos 2) indicators && leb_ℤ (pos 12) samples then "medium" else "low"

usage_note : Evidence → List String
usage_note e = if is_ram e.device then note e.memory_usage_percent else []
  where
    note : Option Float64 → List String
    note none = []
    note (some usage) =
        ("Current RAM utilization is "
          <> format_fixed 1 usage
          <> "%; utilization is not a RAM health or wear measurement.")
        ∷ []

-- What Evaluate returns once the score is known.
unfoldable pub conclude : Evidence → Scored → Assessment
conclude e scored =
    let score = clamp_score scored.score in
    if is_ram e.device && eqb_ℤ e.observed_errors (pos 0) && is_none e.vendor_health_percent
    then insufficient e (
        scored.summary
        ++ "RAM utilization alone cannot establish module health; hardware/ECC error telemetry or a trusted device-specific health report is required."
          ∷ [])
    else record {
      device = e.device;
      condition_index = some score;
      status = status_of_score score;
      confidence = confidence_of scored.indicators e.sample_count;
      evidence_summary =
          scored.summary
          ++ (if ltb_ℤ e.sample_count (pos 12) && is_none e.vendor_health_percent
              then "A short observation window limits confidence; collect more samples." ∷ []
              else []);
      limitations = limitations;
    }

-- The score, step by step, as Evaluate takes it from 100 down.
unfoldable pub score_evidence : Evidence → Scored
unfolding penalty_score usage_note
score_evidence e =
    let s = penalty_score e in vendor_step e (record s { summary = s.summary ++ usage_note e })

unfoldable pub evaluate : Evidence → Result Assessment
unfolding check_evidence
evaluate e = do
  check_evidence e
  if no_evidence e
      then ok (insufficient e ("No usable health evidence was supplied." ∷ []))
      else ok (conclude e (score_evidence e))
