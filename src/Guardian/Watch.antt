-- ===== src/Guardian/Watch.antt =====
-- What the guardian notices: bridge_service/security_guardian/main.go.
use hwcontrol.Base.{
  String, Bool, true, false, ◌&&◌, ◌≡◌, refl, sym, List, [], ◌∷◌, length, all, if◌then◌else◌,
  str_eq, eq_iff, Bool-cases, inl, inr,
}
use hwcontrol.Base.Result.{Result, ok, err, is_ok}
use hwcontrol.Files.{FileView}
use hwcontrol.Guardian.{
  Guarded, expected_canary_digest, canary_digest, compare_baseline, compare_current,
  initialize_guardian, check_guardian_canary, unless_failed, watch, watch_from, run_guardian,
}

-- A digest that reads as the expected one.
abbrev pub is_expected : Result String → Bool
is_expected (err e) = false
is_expected (ok digest) = str_eq digest expected_canary_digest

-- A run that was good so far has the expected baseline and has asked for no panic; a failed one has
-- asked once.
abbrev TellsOf : Bool → Guarded → Type 0
TellsOf good (err e, reasons) = (good ≡ false) × (length reasons ≡ 1)
TellsOf good (ok baseline, reasons) =
    (good ≡ true) × (length reasons ≡ 0) × (baseline ≡ expected_canary_digest)

current_told :
    (d : Result String) → TellsOf (is_expected d) (compare_current expected_canary_digest d)
current_told (err e) = (refl, refl)
current_told (ok d) = elim (Bool-cases (str_eq d expected_canary_digest)) [
  | inl h ↦ rw h (refl, refl, refl)
  | inr h ↦ rw h (refl, refl)
]

baseline_told : (d : Result String) → TellsOf (is_expected d) (compare_baseline d)
baseline_told (err e) = (refl, refl)
baseline_told (ok d) = elim (Bool-cases (str_eq d expected_canary_digest)) [
  | inl h ↦ rw h (refl, refl, (eq_iff d expected_canary_digest).0 h)
  | inr h ↦ rw h (refl, refl)
]

unless_failed_told :
    (a b : Bool) (first rest : Guarded)
    → TellsOf a first
    → TellsOf b rest
    → TellsOf (a && b) (unless_failed first rest)
unless_failed_told a b (err e, reasons) rest h k = rw h.0 (refl, h.1)
unless_failed_told a b (ok d, reasons) rest h k = rw h.0 k

watch_told :
    (sha256 : String → String) (views : List FileView)
    → TellsOf
        (all (λ view. is_expected (canary_digest sha256 view)) views)
        (watch sha256 expected_canary_digest views)
unfolding watch check_guardian_canary
watch_told sha256 [] = (refl, refl, refl)
watch_told sha256 (view ∷ views) =
    unless_failed_told (is_expected (canary_digest sha256 view)) _ _ _
      (current_told (canary_digest sha256 view)) (watch_told sha256 views)

from_told :
    (sha256 : String → String) (views : List FileView) (good : Bool) (g : Guarded)
    → TellsOf good g
    → TellsOf
        (good && all (λ view. is_expected (canary_digest sha256 view)) views)
        (watch_from sha256 views g)
from_told sha256 views good (err e, reasons) h = rw h.0 (refl, h.1)
from_told sha256 views good (ok d, reasons) h = rw (h.0, h.2) (watch_told sha256 views)

-- The guardian runs without an error up to its stop exactly if the canary is there and has the
-- expected digest at the start and at every tick; otherwise it ends with an error and has asked for
-- panic mode once.
pub guardian_detects_change :
    (sha256 : String → String) (present : Result (Unit {0})) (first : FileView)
    (views : List FileView)
    → (is_ok (run_guardian sha256 present first views).0 ≡ (
        is_ok present
        && is_expected (canary_digest sha256 first)
        && all (λ view. is_expected (canary_digest sha256 view)) views))
      × (length (run_guardian sha256 present first views).1
          ≡ (if is_ok (run_guardian sha256 present first views).0 then 0 else 1))
unfolding run_guardian initialize_guardian
guardian_detects_change sha256 (err e) first views = (refl, refl)
guardian_detects_change sha256 (ok done) first views =
    told _ _ (from_told sha256 views _ _ (baseline_told (canary_digest sha256 first)))
  where
    told :
        (good : Bool) (g : Guarded)
        → TellsOf good g
        → (is_ok g.0 ≡ good) × (length g.1 ≡ (if is_ok g.0 then 0 else 1))
    told good (err e, reasons) h = (sym h.0, h.1)
    told good (ok d, reasons) h = (sym h.0, h.1)
