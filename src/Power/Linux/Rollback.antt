-- ===== src/Power/Linux/Rollback.antt =====
-- What a power-mode change asks of the daemon: bridge_service/src/power_mode_linux.go.
use hwcontrol.Base.{
  ℕ, ◌+◌, ◌≤◌, String, ◌&&◌, ◌≡◌, List, [], ◌∷◌, ◌++◌, Option, none, some, if◌then◌else◌, str_eq,
  arith, Bool-cases, inl, inr,
}
use hwcontrol.Base.Result.{Result, ok, err, is_ok}
use hwcontrol.Float.{Float64}
use hwcontrol.Power.Linux.{
  Call, get_profile, set_profile, Reply, Session, confirmed, linux_profile_name,
  run_power_profile_command, read_linux_power_profile, get_platform_power_mode, finish,
  finish_changed, roll_back, after_set, set_from, set_to, set_over, set_named, request, after_call,
  set_platform_power_mode,
}

-- The number of profile changes asked for.
abbrev pub set_calls : List (Call × Reply) → ℕ
set_calls [] = 0
set_calls ((get_profile, r) ∷ log) = set_calls log
set_calls ((set_profile p, r) ∷ log) = 1 + set_calls log

set_calls-append :
    (xs ys : List (Call × Reply)) → set_calls (xs ++ ys) ≡ set_calls xs + set_calls ys
set_calls-append [] ys = omega arith
set_calls-append ((get_profile, r) ∷ xs) ys = ground (arith, set_calls-append xs ys)
set_calls-append ((set_profile p, r) ∷ xs) ys = ground (arith, set_calls-append xs ys)

-- How many profile changes a request may ask for.
abbrev pub allowed_sets : String → Result String → ℕ
allowed_sets supply profile = if str_eq supply "SYSTEM" && is_ok profile then 2 else 0

module _ (unquote : String → Option String) {S : Type 0} (call : S → Call → Reply × S) where
  run_get :
      (s : Session S)
      → set_calls (run_power_profile_command unquote call get_profile s).1.log ≡ set_calls s.log
  unfolding run_power_profile_command
  run_get s =
      ground (arith, set_calls-append s.log ((get_profile, (call s.daemon get_profile).0) ∷ []))

  run_set :
      (p : String) (s : Session S)
      → set_calls (run_power_profile_command unquote call (set_profile p) s).1.log
        ≡ 1 + set_calls s.log
  unfolding run_power_profile_command
  run_set p s =
      ground
        (arith, set_calls-append s.log ((set_profile p, (call s.daemon (set_profile p)).0) ∷ []))

  read_sets :
      (s : Session S) → set_calls (read_linux_power_profile unquote call s).1.log ≡ set_calls s.log
  unfolding read_linux_power_profile
  read_sets s = run_get s

  get_sets :
      (s : Session S) → set_calls (get_platform_power_mode unquote call s).1.log ≡ set_calls s.log
  unfolding get_platform_power_mode
  get_sets s = read_sets s

  finish_sets :
      (e : Option String) (s : Session S)
      → set_calls (finish unquote call e s).1.log ≡ set_calls s.log
  unfolding finish
  finish_sets e s = get_sets s

  changed_sets : (s : Session S) → set_calls (finish_changed unquote call s).1.log ≡ set_calls s.log
  unfolding finish_changed
  changed_sets s = get_sets s

  roll_back_sets :
      (before target : String) (s : Session S)
      → set_calls (roll_back unquote call before target s).1.log ≤ 1 + set_calls s.log
  unfolding roll_back
  roll_back_sets before target s =
      elim (Bool-cases (confirmed (read_linux_power_profile unquote call s).0 target)) [
        | inl h ↦
            rw (roll_back, h)
              (omega
                (arith, run_set before (read_linux_power_profile unquote call s).1, read_sets s))
        | inr h ↦ rw (roll_back, h) (omega (arith, read_sets s))
      ]

  abbrev read_profile : Session S → Result String × Session S
  read_profile = read_linux_power_profile unquote call

  abbrev run : Call → Session S → Reply × Session S
  run = run_power_profile_command unquote call

  after_sets :
      (before target : String) (s : Session S)
      → set_calls (after_set unquote call before target s).1.log ≤ 1 + set_calls s.log
  unfolding after_set
  after_sets before target s = elim (Bool-cases (confirmed (read_profile s).0 target)) [
    | inl h ↦ rw (after_set, h) (omega (arith, changed_sets (read_profile s).1, read_sets s))
    | inr h ↦
        rw (after_set, h)
          (omega (
            arith,
            finish_sets none (roll_back unquote call before target (read_profile s).1).1,
            roll_back_sets before target (read_profile s).1,
            read_sets s,
          ))
  ]

  call_sets :
      (before target : String) (r : Reply) (e : Option String) (s : Session S)
      → set_calls (after_call unquote call before target r e s).1.log ≤ 1 + set_calls s.log
  unfolding after_call finish
  call_sets before target r none s = after_sets before target s
  call_sets before target r (some e) s = omega (arith, finish_sets none s)

  request_sets :
      (before target : String) (s : Session S)
      → set_calls (request unquote call before target s).1.log ≤ 2 + set_calls s.log
  unfolding request
  request_sets before target s =
      let (r, s') = run (set_profile target) s in
      omega (arith, call_sets before target r r.error s', run_set target s)

  from_sets :
      (before target : String) (s : Session S)
      → set_calls (set_from unquote call before target s).1.log ≤ 2 + set_calls s.log
  unfolding set_from
  from_sets before target s = elim (Bool-cases (str_eq before target)) [
    | inl h ↦ rw (set_from, h) (omega (arith, finish_sets none s))
    | inr h ↦ rw (set_from, h) (request_sets before target s)
  ]

  over_sets :
      (target : String) (before : Result String) (s : Session S)
      → set_calls (set_over unquote call target before s).1.log ≤ 2 + set_calls s.log
  unfolding set_over
  over_sets target (ok before) s = from_sets before target s
  over_sets target (err e) s = omega (arith, finish_sets (some e) s)

  to_sets :
      (target : String) (s : Session S)
      → set_calls (set_to unquote call target s).1.log ≤ 2 + set_calls s.log
  unfolding set_to
  to_sets target s =
      omega (arith, over_sets target (read_profile s).0 (read_profile s).1, read_sets s)

  named_sets :
      (profile : Result String) (s : Session S)
      → set_calls (set_named unquote call profile s).1.log
        ≤ allowed_sets "SYSTEM" profile + set_calls s.log
  unfolding set_named
  named_sets (ok target) s = to_sets target s
  named_sets (err e) s = omega (arith, finish_sets (some e) s)

  -- A power-mode request asks the daemon for at most two profile changes, the change and its
  -- rollback, whatever the daemon answers; and for none at all where the value is not a profile's
  -- or the supply is not the system's.
  pub profile_changes_bounded :
      (supply : String) (value : Float64) (s : Session S)
      → set_calls (set_platform_power_mode unquote call supply value s).1.log
        ≤ allowed_sets supply (linux_profile_name value) + set_calls s.log
  unfolding set_platform_power_mode
  profile_changes_bounded supply value s = elim (Bool-cases (str_eq supply "SYSTEM")) [
    | inl h ↦ rw (set_platform_power_mode, h) (named_sets (linux_profile_name value) s)
    | inr h ↦ rw (set_platform_power_mode, h) (omega (arith, finish_sets none s))
  ]
