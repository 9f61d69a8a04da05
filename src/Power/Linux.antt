-- ===== src/Power/Linux.antt =====
-- power_mode_linux.go. The D-Bus daemon is a machine of its own: `call` is one run of busctl, and a
-- session keeps the machine's state and the calls made so far with their replies.
pub mod Rollback
pub mod Confirmed
use hwcontrol.Base.{
  String, Bool, true, false, not, ◌&&◌, ◌||◌, ◌≡◌, List, [], ◌∷◌, ◌++◌, Option, none, some,
  if◌then◌else◌, str_eq,
}
use hwcontrol.Base.Result.{Result, ok, err}
use hwcontrol.Float
use hwcontrol.Float.{Float64, lit}
use hwcontrol.Text.{trim_space}
use hwcontrol.Text.Path.{has_prefix, trim_prefix}
use hwcontrol.Command.{◌<>◌}

pub record PowerModeState : Type 0 where
  pub supported : Bool
  pub platform : String
  pub ac : String
  pub dc : String
  pub message : String

unfoldable pub linux_profile_name : Float64 → Result String
linux_profile_name value =
    if Float.eq value (lit 0)
    then ok "balanced"
    else if Float.eq value (lit 50)
    then ok "power-saver"
    else if Float.eq value (lit 100)
    then ok "performance"
    else err "unsupported Linux power profile value"

unfoldable pub linux_profile_label : String → String
linux_profile_label profile =
    if str_eq profile "power-saver"
    then "Power Saver"
    else if str_eq profile "balanced"
    then "Balanced"
    else if str_eq profile "performance"
    then "Performance"
    else profile

-- get-property ActiveProfile, set-property ActiveProfile s <profile>
pub data Call : Type 0 where
  get_profile : Call
  set_profile : String → Call

-- CombinedOutput: the text printed, and the error of the run.
pub record Reply : Type 0 where
  pub output : String
  pub error : Option String

pub record Session (S : Type 0) : Type 0 where
  pub daemon : S
  pub log : List (Call × Reply)

-- `unquote` is strconv.Unquote.
module _ (unquote : String → Option String) where
  check_decoded : Option String → Result String
  check_decoded none = err "invalid busctl string property output"
  check_decoded (some decoded) =
      if str_eq decoded "" then err "invalid busctl string property output" else ok decoded

  unfoldable pub parse_busctl_string : String → Result String
  unfolding check_decoded
  parse_busctl_string output =
      let value = trim_space output in
      if not (has_prefix value "s ")
      then err "unexpected busctl string property output"
      else check_decoded (unquote (trim_space (trim_prefix value "s ")))

  abbrev pub supported_profile : String → Bool
  supported_profile profile =
      str_eq profile "power-saver" || str_eq profile "balanced" || str_eq profile "performance"

  check_supported : Result String → Result String
  check_supported (err e) = err e
  check_supported (ok profile) =
      if supported_profile profile
      then ok profile
      else err ("power-profiles-daemon reported an unsupported active profile: " <> profile)

abbrev pub detail : Reply → String → String
detail reply e = let text = trim_space reply.output in if str_eq text "" then e else text

module _ (unquote : String → Option String) where
  -- What one get-property reply means.
  unfoldable pub profile_of_reply : Reply → Result String
  unfolding parse_busctl_string check_supported
  profile_of_reply reply = elim reply.error [
    | none ↦ check_supported unquote (parse_busctl_string unquote reply.output)
    | some e ↦ err ("power-profiles-daemon is unavailable or denied access: " <> detail reply e)
  ]

unfoldable pub state_of_profile : Result String → PowerModeState
unfolding linux_profile_label
state_of_profile (err e) = record {
  supported = false;
  platform = "linux";
  ac = "Unavailable";
  dc = "Not separately managed by power-profiles-daemon";
  message = e;
}
state_of_profile (ok profile) = record {
  supported = true;
  platform = "linux";
  ac = linux_profile_label profile;
  dc = "Same system profile";
  message =
      "Linux active power profile read successfully. The system service, firmware, and thermal limits still determine effective performance.";
}

abbrev pub changed_message : String
changed_message =
    "Linux power profile changed and read back successfully. This requests an OS profile; it does not guarantee maximum CPU/GPU performance."

-- readErr == nil && after == target
unfoldable pub confirmed : Result String → String → Bool
confirmed (err e) target = false
confirmed (ok profile) target = str_eq profile target

module _ (unquote : String → Option String) {S : Type 0} (call : S → Call → Reply × S) where
  abbrev pub Bus : Type 0 → Type 0
  Bus A = Session S → A × Session S

  infixl 5 ◌>>=◌ ◌>>◌
  abbrev ◌>>=◌ : {A B : Type 0} → Bus A → (A → Bus B) → Bus B
  ◌>>=◌ m f s = let (a, s') = m s in f a s'

  abbrev ◌>>◌ : {A B : Type 0} → Bus A → Bus B → Bus B
  ◌>>◌ m k s = let (a, s') = m s in k s'

  abbrev pure : {A : Type 0} → A → Bus A
  pure a s = (a, s)

  unfoldable pub run_power_profile_command : Call → Bus Reply
  run_power_profile_command c s =
      let (reply, daemon) = call s.daemon c in
      (reply, record { daemon = daemon; log = s.log ++ (c, reply) ∷ [] })

  unfoldable pub read_linux_power_profile : Bus (Result String)
  unfolding run_power_profile_command profile_of_reply
  read_linux_power_profile = do
    reply ← run_power_profile_command get_profile
    pure (profile_of_reply unquote reply)

  unfoldable pub get_platform_power_mode : Bus PowerModeState
  unfolding read_linux_power_profile state_of_profile
  get_platform_power_mode = do profile ← read_linux_power_profile; pure (state_of_profile profile)

  -- return getPlatformPowerMode(), err
  unfoldable pub finish : Option String → Bus (PowerModeState × Option String)
  unfolding get_platform_power_mode
  finish e = do state ← get_platform_power_mode; pure (state, e)

  unfoldable pub finish_changed : Bus (PowerModeState × Option String)
  unfolding get_platform_power_mode
  finish_changed = do
    state ← get_platform_power_mode
    pure (record state { message = changed_message }, none)

  -- The rollback, only while the daemon still reports what we requested.
  unfoldable pub roll_back : String → String → Bus (Unit {0})
  unfolding read_linux_power_profile confirmed
  roll_back before target = do
    current ← read_linux_power_profile
    if confirmed current target
        then (do run_power_profile_command (set_profile before); pure tt)
        else pure tt

  readback_failure : Result String → String → String
  readback_failure (err e) target =
      "Linux power profile readback failed; rollback was attempted only if the active profile still matched our request: "
      <> e
  readback_failure (ok profile) target =
      "Linux power profile readback did not confirm requested profile " <> target

  unfoldable pub after_set : String → String → Bus (PowerModeState × Option String)
  unfolding read_linux_power_profile finish finish_changed roll_back confirmed readback_failure
  after_set before target = do
    after ← read_linux_power_profile
    if confirmed after target
        then finish_changed
        else (do roll_back before target; finish (some (readback_failure after target)))

  -- What follows the request, by its run's error.
  unfoldable pub after_call :
      String → String → Reply → Option String → Bus (PowerModeState × Option String)
  after_call before target reply none = after_set before target
  after_call before target reply (some e) =
      finish (some ("set Linux power profile failed: " <> detail reply e))

  unfoldable pub request : String → String → Bus (PowerModeState × Option String)
  unfolding run_power_profile_command after_call
  request before target = do
    reply ← run_power_profile_command (set_profile target)
    after_call before target reply reply.error

  unfoldable pub set_from : String → String → Bus (PowerModeState × Option String)
  unfolding request finish
  set_from before target = if str_eq before target then finish none else request before target

  -- What follows the first reading.
  unfoldable pub set_over : String → Result String → Bus (PowerModeState × Option String)
  set_over target (err e) = finish (some e)
  set_over target (ok before) = set_from before target

  unfoldable pub set_to : String → Bus (PowerModeState × Option String)
  unfolding read_linux_power_profile set_over
  set_to target = do before ← read_linux_power_profile; set_over target before

  -- The profile that the value names, on the system's supply.
  unfoldable pub set_named : Result String → Bus (PowerModeState × Option String)
  set_named (err e) = finish (some e)
  set_named (ok target) = set_to target

  unfoldable pub set_platform_power_mode : String → Float64 → Bus (PowerModeState × Option String)
  unfolding finish set_named linux_profile_name
  set_platform_power_mode supply value =
      if not (str_eq supply "SYSTEM")
      then finish
          (some "Linux exposes one system power profile; AC/DC-specific changes are not supported")
      else set_named (linux_profile_name value)
