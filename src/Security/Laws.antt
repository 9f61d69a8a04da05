-- ===== src/Security/Laws.antt =====
-- checkDecoyIntegrity over any readings: bridge_service/src/fetch_status_service.go.
use hwcontrol.Base.{
  ◌+◌, String, Bool, true, false, not, ◌≡◌, refl, ap, ◌∙◌, List, [], ◌∷◌, Option, none, some,
  length, length-append, any, arith, if◌then◌else◌, str_eq, Bool-cases, inl, inr,
}
use hwcontrol.Security.{Guard, check_decoy_integrity, check_all, trip, trigger_panic_mode}

-- A reading that is not the baseline's digest.
abbrev pub differs : String → Option String × Bool → Bool
differs baseline (none, persisted) = true
differs baseline (some d, persisted) = not (str_eq d baseline)

check_when_tripped :
    (d : Option String) (p : Bool) (g : Guard)
    → g.service.triggered ≡ true
    → check_decoy_integrity d p g ≡ g
unfolding check_decoy_integrity
check_when_tripped d p g h = ground arith

check_all_when_tripped :
    (rs : List (Option String × Bool)) (g : Guard) → g.service.triggered ≡ true → check_all rs g ≡ g
unfolding check_all
check_all_when_tripped [] g h = refl
check_all_when_tripped ((d, p) ∷ rs) g h =
    ap (check_all rs) (check_when_tripped d p g h) ∙ check_all_when_tripped rs g h

-- What a guard looks like after readings of which `bad` says whether one differed.
abbrev pub HasTripped : Bool → Guard → Guard → Type 0
HasTripped bad before g =
    (g.service.triggered ≡ bad)
    × (length g.events ≡ length before.events + (if bad then 1 else 0))
    × (g.service.healthy ≡ (if bad then false else before.service.healthy))

tripped_now : (reason : String) (p : Bool) (g : Guard) → HasTripped true g (trip p reason g)
unfolding trip trigger_panic_mode
tripped_now reason p g = (refl, length-append g.events (reason ∷ []), refl)

-- The outcome of one check of an untripped canary.
check_missing :
    (p : Bool) (g : Guard)
    → str_eq g.service.path "" ≡ false
    → g.service.triggered ≡ false
    → check_decoy_integrity none p g ≡ trip p "decoy missing or unreadable" g
unfolding check_decoy_integrity
check_missing p g hp ht = ground arith

check_changed :
    (d : String) (p : Bool) (g : Guard)
    → str_eq g.service.path "" ≡ false
    → g.service.triggered ≡ false
    → str_eq d g.service.baseline ≡ false
    → check_decoy_integrity (some d) p g ≡ trip p "bridger.key integrity changed" g
unfolding check_decoy_integrity
check_changed d p g hp ht hd = ground arith

check_same :
    (d : String) (p : Bool) (g : Guard)
    → str_eq d g.service.baseline ≡ true
    → check_decoy_integrity (some d) p g ≡ g
unfolding check_decoy_integrity
check_same d p g hd = ground arith

after_trip :
    (rs : List (Option String × Bool)) (reason : String) (p : Bool) (g : Guard)
    → HasTripped true g (check_all rs (trip p reason g))
after_trip rs reason p g =
    rw (check_all_when_tripped rs (trip p reason g) (tripped_now reason p g).0)
      (tripped_now reason p g)

-- Where a canary is set up and has not tripped, after any readings it has tripped exactly if a
-- reading failed or differed from the baseline; then one security event was recorded and the canary
-- is unhealthy, however many readings differed; otherwise none was and its health is as before.
pub canary_trips_once :
    (rs : List (Option String × Bool)) (g : Guard)
    → str_eq g.service.path "" ≡ false
    → g.service.triggered ≡ false
    → HasTripped (any (differs g.service.baseline) rs) g (check_all rs g)
unfolding check_all
canary_trips_once [] g hp ht = ground arith
canary_trips_once ((none, p) ∷ rs) g hp ht =
    rw (check_all, check_missing p g hp ht) (after_trip rs "decoy missing or unreadable" p g)
canary_trips_once ((some d, p) ∷ rs) g hp ht = elim (Bool-cases (str_eq d g.service.baseline)) [
  | inl h ↦ rw (check_all, check_same d p g h, h) (canary_trips_once rs g hp ht)
  | inr h ↦
      rw (check_all, check_changed d p g hp ht h, h)
        (after_trip rs "bridger.key integrity changed" p g)
]
