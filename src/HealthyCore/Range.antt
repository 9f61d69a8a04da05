-- ===== src/HealthyCore/Range.antt =====
-- The range of the condition index: bridge_service/healthycore/assessment.go.
use hwcontrol.Base.{
  String, true, ◌&&◌, ◌≡◌, refl, List, [], ◌∷◌, Option, none, some, arith, Bool-cases, inl, inr,
}
use hwcontrol.Base.Result.{Result, ok, err}
use hwcontrol.Int.{ℤ, pos, negsuc, leb_ℤ, eqb_ℤ}
use hwcontrol.HealthyCore.Score.{Evidence, Scored, clamp_score, is_ram}
use hwcontrol.HealthyCore.{
  Assessment, check_evidence, no_evidence, insufficient, status_of_score, conclude, score_evidence,
  evaluate, is_none,
}

-- Either no index and the status that says so, or an index from 0 to 100 with its status.
abbrev pub IsGraded : Option ℤ → String → Type 0
IsGraded none status = status ≡ "insufficient_data"
IsGraded (some score) status =
    (leb_ℤ (pos 0) score ≡ true) × (leb_ℤ score (pos 100) ≡ true) × (status ≡ status_of_score score)

abbrev pub IsAssessed : Result Assessment → Type 0
IsAssessed (err e) = Unit
IsAssessed (ok a) = IsGraded a.condition_index a.status

clamp_low : (s : ℤ) → leb_ℤ (pos 0) (clamp_score s) ≡ true
unfolding clamp_score
clamp_low (pos n) = ground arith
clamp_low (negsuc n) = ground arith

clamp_high : (s : ℤ) → leb_ℤ (clamp_score s) (pos 100) ≡ true
unfolding clamp_score
clamp_high (pos n) = ground arith
clamp_high (negsuc n) = ground arith

insufficient-IsGraded :
    (e : Evidence) (l : List String)
    → IsGraded (insufficient e l).condition_index (insufficient e l).status
unfolding insufficient
insufficient-IsGraded e l = refl

conclude-IsGraded :
    (e : Evidence) (s : Scored) → IsGraded (conclude e s).condition_index (conclude e s).status
unfolding conclude insufficient
conclude-IsGraded e s =
    elim (Bool-cases
      (is_ram e.device && eqb_ℤ e.observed_errors (pos 0) && is_none e.vendor_health_percent)) [
        | inl h ↦ rw (conclude, h) refl
        | inr h ↦ rw (conclude, h) (clamp_low s.score, clamp_high s.score, refl)
      ]

assess_from :
    (e : Evidence) (checked : Result Unit) → check_evidence e ≡ checked → IsAssessed (evaluate e)
unfolding evaluate
assess_from e (ok x) h = elim (Bool-cases (no_evidence e)) [
  | inl n ↦
      rw (evaluate, h, n) (insufficient-IsGraded e ("No usable health evidence was supplied." ∷ []))
  | inr n ↦ rw (evaluate, h, n) (conclude-IsGraded e (score_evidence e))
]
assess_from e (err m) h = rw (evaluate, h) tt

-- Whatever the evidence, an assessment that Evaluate returns either has no condition index and the
-- status "insufficient_data", or an index from 0 to 100 and the status of that index.
pub evaluate_in_range : (e : Evidence) → IsAssessed (evaluate e)
evaluate_in_range e = assess_from e (check_evidence e) refl
