-- ===== src/Power/Linux/Confirmed.antt =====
-- Power-mode changes and the replies of the daemon: bridge_service/src/power_mode_linux.go.
use hwcontrol.Base.{
  String, Bool, true, false, ◌||◌, ◌≡◌, refl, List, [], ◌∷◌, ◌++◌, Option, none, some, str_eq, any,
  arith, Bool-cases, inl, inr,
}
use hwcontrol.Base.Result.{Result, ok, err}
use hwcontrol.Float.{Float64}
use hwcontrol.Power.Linux.{
  PowerModeState, Call, get_profile, set_profile, Reply, Session, profile_of_reply, confirmed,
  linux_profile_name, run_power_profile_command, read_linux_power_profile, get_platform_power_mode,
  finish, finish_changed, after_set, set_from, set_to, set_platform_power_mode, set_over, set_named,
  request, after_call,
}

any-append :
    {A : Type 0} (p : A → Bool) (xs ys : List A) → any p (xs ++ ys) ≡ (any p xs || any p ys)
any-append p [] ys = refl
any-append p (x ∷ xs) ys = ground (arith, any-append p xs ys)

module _ (unquote : String → Option String) where
  -- A reply to get-property that names the profile.
  abbrev pub names : String → Call × Reply → Bool
  names target (get_profile, reply) = confirmed (profile_of_reply unquote reply) target
  names target (set_profile p, reply) = false

  -- An outcome without an error comes with the profile's name in a reply.
  abbrev pub ReadsBack : Result String → Option String → List (Call × Reply) → Type 0
  ReadsBack profile (some e) log = Unit
  ReadsBack (ok target) none log = any (names target) log ≡ true
  ReadsBack (err e) none log = ⊥

module _ (unquote : String → Option String) {S : Type 0} (call : S → Call → Reply × S) where
  abbrev read_profile : Session S → Result String × Session S
  read_profile = read_linux_power_profile unquote call

  abbrev Was : String → Session S → Type 0
  Was target s = any (names unquote target) s.log ≡ true

  read_keeps : (t : String) (s : Session S) → Was t s → Was t (read_profile s).1
  unfolding read_linux_power_profile run_power_profile_command
  read_keeps t s h = ground (
    arith,
    any-append (names unquote t) s.log ((get_profile, (call s.daemon get_profile).0) ∷ []),
  )

  read_seen :
      (t : String) (s : Session S)
      → confirmed (read_profile s).0 t ≡ true
      → Was t (read_profile s).1
  unfolding read_linux_power_profile run_power_profile_command
  read_seen t s h = ground (
    arith,
    h,
    any-append (names unquote t) s.log ((get_profile, (call s.daemon get_profile).0) ∷ []),
  )

  finish_keeps : (t : String) (s : Session S) → Was t s → Was t (finish unquote call none s).1
  unfolding finish get_platform_power_mode
  finish_keeps t s h = read_keeps t s h

  changed_keeps : (t : String) (s : Session S) → Was t s → Was t (finish_changed unquote call s).1
  unfolding finish_changed get_platform_power_mode
  changed_keeps t s h = read_keeps t s h

  abbrev EndsWell : String → (PowerModeState × Option String) × Session S → Type 0
  EndsWell t r = ReadsBack unquote (ok t) r.0.1 r.1.log

  after_good : (before t : String) (s : Session S) → EndsWell t (after_set unquote call before t s)
  unfolding after_set finish_changed finish
  after_good before t s = elim (Bool-cases (confirmed (read_profile s).0 t)) [
    | inl h ↦ rw (after_set, h) (changed_keeps t (read_profile s).1 (read_seen t s h))
    | inr h ↦ rw (after_set, h) tt
  ]

  call_good :
      (before t : String) (r : Reply) (e : Option String) (s : Session S)
      → EndsWell t (after_call unquote call before t r e s)
  unfolding after_call finish
  call_good before t r none s = after_good before t s
  call_good before t r (some e) s = tt

  from_good :
      (before t : String) (s : Session S)
      → (str_eq before t ≡ true → Was t s)
      → EndsWell t (set_from unquote call before t s)
  unfolding set_from finish request
  from_good before t s w = elim (Bool-cases (str_eq before t)) [
    | inl h ↦ rw (set_from, h) (finish_keeps t s (w h))
    | inr h ↦
        let (r, s') = run_power_profile_command unquote call (set_profile t) s in
        rw (set_from, h) (call_good before t r r.error s')
  ]

  over_good :
      (t : String) (before : Result String) (s : Session S)
      → (confirmed before t ≡ true → Was t s)
      → EndsWell t (set_over unquote call t before s)
  unfolding set_over finish confirmed
  over_good t (ok before) s w = from_good before t s w
  over_good t (err e) s w = tt

  named_good :
      (profile : Result String) (s : Session S)
      → ReadsBack unquote profile
          (set_named unquote call profile s).0.1
          (set_named unquote call profile s).1.log
  unfolding set_named finish set_to
  named_good (ok t) s = over_good t (read_profile s).0 (read_profile s).1 (read_seen t s)
  named_good (err e) s = tt

  -- A power-mode request that returns no error named a profile by its value, and one of the daemon's
  -- replies to get-property, all read during the request, was that profile.
  pub success_is_read_back :
      (supply : String) (value : Float64) (daemon : S)
      → ReadsBack unquote
          (linux_profile_name value)
          (set_platform_power_mode unquote call supply value
            (record { daemon = daemon; log = [] })).0.1
          (set_platform_power_mode unquote call supply value
            (record { daemon = daemon; log = [] })).1.log
  unfolding set_platform_power_mode finish
  success_is_read_back supply value daemon = elim (Bool-cases (str_eq supply "SYSTEM")) [
    | inl h ↦
        rw (set_platform_power_mode, h)
          (named_good (linux_profile_name value) (record { daemon = daemon; log = [] }))
    | inr h ↦ rw (set_platform_power_mode, h) tt
  ]
