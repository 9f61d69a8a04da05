-- ===== src/Execute/Safety.antt =====
-- Fan writes of executeHardwareCommand: bridge_service/src/main.go.
use hwcontrol.Base.{
  String, true, false, ◌≡◌, ◌≢◌, [], Option, refl, str_eq, arith, Bool-cases, inl, inr,
  if◌then◌else◌, Bool,
}
use hwcontrol.Base.Result.{ok}
use hwcontrol.Float.{Float64}
use hwcontrol.Command.{Command, ◌<>◌}
use hwcontrol.Thermal.Guards.{
  IsSafeFor, validate_fan_control_request-IsSafeFor, validate_fan_channel_control_request-IsSafeFor,
}
use hwcontrol.Power.Linux.{Call, Reply}
use hwcontrol.Execute.{
  Observed, Machine, execute_fan_speed, execute_fan_channel, execute_power_mode, Executed, refused,
  game_mode_switch, execute_other_command, panic_message, execute_hardware_command,
}

-- What holds of both branches holds of the test.
pub if-cases {ℓ κ} :
    {A : Type ℓ} {x y : A} (b : Bool) (P : A → Type κ) → P x → P y → P (if b then x else y)
if-cases true P px py = px
if-cases false P px py = py

module _ {S : Type 0} (cmd : Command) (seen : Observed) (machine : Machine S) where
  fan_speed_writes :
      str_eq cmd.action "Fan Hızı" ≡ true
      → (execute_fan_speed cmd seen machine).writes ≢ []
      → (seen.panic_mode ≡ false) × IsSafeFor seen.safety cmd.value
  unfolding execute_fan_speed
  fan_speed_writes a w = ground (arith, validate_fan_control_request-IsSafeFor cmd seen.safety)

  fan_channel_writes :
      str_eq cmd.action "Set Fan Channel" ≡ true
      → (execute_fan_channel cmd seen machine).writes ≢ []
      → (seen.panic_mode ≡ false) × IsSafeFor seen.safety cmd.value
  unfolding execute_fan_channel
  fan_channel_writes a w =
      ground (arith, validate_fan_channel_control_request-IsSafeFor cmd seen.safety)

module _ {S : Type 0} (machine : Machine S) where
  -- No write, the machine as before, and an error.
  abbrev pub ChangesNothing : Executed S → Type 0
  ChangesNothing done = (done.writes ≡ []) × (done.machine ≡ machine) × (done.result ≢ ok tt)

module _ {S : Type 0} (cmd : Command) (seen : Observed) (machine : Machine S) where
  fan_speed_panics :
      seen.panic_mode ≡ true → ChangesNothing machine (execute_fan_speed cmd seen machine)
  unfolding execute_fan_speed
  fan_speed_panics p = (ground arith, ground arith, ground arith)

  fan_channel_panics :
      seen.panic_mode ≡ true → ChangesNothing machine (execute_fan_channel cmd seen machine)
  unfolding execute_fan_channel
  fan_channel_panics p = (ground arith, ground arith, ground arith)

module _ (unquote : String → Option String) {S : Type 0} (call : S → Call → Reply × S)
    (cmd : Command) (seen : Observed) (machine : Machine S) where
  power_writes :
      (action supply : String) (value : Float64)
      → (execute_power_mode unquote call action supply value seen machine).writes ≡ []
  unfolding execute_power_mode
  power_writes action supply value = ground arith

  power_panics :
      (action supply : String) (value : Float64)
      → seen.panic_mode ≡ true
      → ChangesNothing machine (execute_power_mode unquote call action supply value seen machine)
  unfolding execute_power_mode
  power_panics action supply value p = (ground arith, ground arith, ground arith)

  -- What holds of every case after the fan commands holds of their switch.
  other_cases :
      (P : Executed S → Type 0)
      → ((e : String) → P (refused e machine))
      → P (game_mode_switch cmd seen machine)
      → ((action supply : String) (value : Float64)
          → P (execute_power_mode unquote call action supply value seen machine))
      → P (execute_other_command unquote call cmd seen machine)
  unfolding execute_other_command
  other_cases P r g p =
      if-cases _ P
        (r (
          if seen.panic_mode
          then panic_message
          else "hardware control backend is not available on this build"))
        (if-cases _ P g (
          if-cases _ P (p cmd.action "AC" cmd.value) (
            if-cases _ P (p cmd.action "DC" cmd.value) (
              if-cases _ P (p "Set Power Mode AC" "SYSTEM" cmd.value)
                (r ("action cannot be executed: " <> cmd.action))))))

  other_writes : (execute_other_command unquote call cmd seen machine).writes ≡ []
  unfolding refused game_mode_switch
  other_writes =
      other_cases (λ (done : Executed S). done.writes ≡ []) (λ e. refl)
        (if-cases seen.panic_mode (λ (done : Executed S). done.writes ≡ []) refl refl) power_writes

  other_panics :
      seen.panic_mode ≡ true
      → ChangesNothing machine (execute_other_command unquote call cmd seen machine)
  unfolding refused game_mode_switch
  other_panics p =
      other_cases (ChangesNothing machine) (λ e. (refl, refl, ground arith))
        (ground arith, ground arith, ground arith)
        (λ action supply value. power_panics action supply value p)

  -- If a command writes to a fan, panic mode was off, thermal telemetry was available, each
  -- temperature was absent or valid, and under a critical temperature the speed was 100 or more.
  pub writes_are_safe :
      (execute_hardware_command unquote call cmd seen machine).writes ≢ []
      → (seen.panic_mode ≡ false) × IsSafeFor seen.safety cmd.value
  unfolding execute_hardware_command
  writes_are_safe w = elim (Bool-cases (str_eq cmd.action "Fan Hızı")) [
    | inl h ↦ fan_speed_writes cmd seen machine h (rw (execute_hardware_command, h) at w)
    | inr h ↦ elim (Bool-cases (str_eq cmd.action "Set Fan Channel")) [
      | inl k ↦ fan_channel_writes cmd seen machine k (rw (execute_hardware_command, h, k) at w)
      | inr k ↦ absurd (rw (execute_hardware_command, h, k) at w other_writes)
    ]
  ]

  -- In panic mode no command writes to a fan, sets the game mode, or calls the power daemon, and
  -- every command is answered with an error.
  pub panic_changes_nothing :
      seen.panic_mode ≡ true
      → ((execute_hardware_command unquote call cmd seen machine).writes ≡ [])
        × ((execute_hardware_command unquote call cmd seen machine).machine ≡ machine)
        × ((execute_hardware_command unquote call cmd seen machine).result ≢ ok tt)
  unfolding execute_hardware_command
  panic_changes_nothing p =
      if-cases _ (ChangesNothing machine) (fan_speed_panics cmd seen machine p) (
        if-cases _ (ChangesNothing machine) (fan_channel_panics cmd seen machine p)
          (other_panics p))
