-- ===== src/Execute.antt =====
-- executeHardwareCommand of bridge_service/src/main.go: the commands that change the hardware or the
-- power and game modes, on Linux. Each reading of the environment is an observation of its own, so
-- that nothing is assumed about what other processes do between two of them.
pub mod Safety
use hwcontrol.Base.{
  String, Bool, true, false, not, ◌&&◌, ◌||◌, ◌≡◌, List, [], ◌∷◌, Option, none, some, if◌then◌else◌,
  str_eq, any,
}
use hwcontrol.Base.Result.{Result, ok, err, ◌>>=◌, ◌>>◌}
use hwcontrol.Float
use hwcontrol.Float.{Float64, lit}
use hwcontrol.Command.{Command, ◌<>◌}
use hwcontrol.Telemetry.{HardwareMetrics, FanChannel}
use hwcontrol.Fan.{
  LinuxFanTarget, PwmWrite, WriteFault, Written, list_fan_channels, set_fan_control,
  set_fan_control_channel,
}
use hwcontrol.Thermal.{validate_fan_control_request, validate_fan_channel_control_request}
use hwcontrol.Power.{validate_power_mode_request}
use hwcontrol.Power.Linux.{Call, Reply, Session, PowerModeState, set_platform_power_mode}

-- What one command reads: panicModeActive(), listFanChannels(),
-- collectHardwareControlSafetyMetrics(), the discovery inside the write, and the write's error.
pub record Observed : Type 0 where
  pub panic_mode : Bool
  pub listed : List LinuxFanTarget
  pub safety : HardwareMetrics
  pub at_write : List LinuxFanTarget
  pub fault : WriteFault

-- The state that a command may change.
pub record Machine (S : Type 0) : Type 0 where
  pub game_enabled : Bool
  pub power : Session S

pub record Executed (S : Type 0) : Type 0 where
  pub result : Result (Unit {0})
  pub writes : List PwmWrite
  pub machine : Machine S

abbrev pub panic_message : String
panic_message = "hardware control blocked: security panic mode active"

abbrev pub channel_present : String → List FanChannel → Bool
channel_present id channels = any (λ channel. str_eq channel.id id && channel.supported) channels

error_of : Option String → Result (Unit {0})
error_of none = ok tt
error_of (some e) = err e

module _ {S : Type 0} where
  unfoldable pub refused : String → Machine S → Executed S
  refused e machine = record { result = err e; writes = []; machine = machine }

  written : Written → Machine S → Executed S
  written (result, writes) machine = record { result = result; writes = writes; machine = machine }

  unfoldable pub execute_fan_speed : Command → Observed → Machine S → Executed S
  unfolding refused written
  execute_fan_speed cmd seen machine =
      if seen.panic_mode
      then refused panic_message machine
      else elim (validate_fan_control_request cmd seen.safety) [
        | err e ↦ refused e machine
        | ok _ ↦ written (set_fan_control seen.fault seen.at_write cmd.value) machine
      ]

  unfoldable pub execute_fan_channel : Command → Observed → Machine S → Executed S
  unfolding refused written
  execute_fan_channel cmd seen machine =
      if seen.panic_mode
      then refused panic_message machine
      else if not (channel_present cmd.target (list_fan_channels seen.listed))
      then refused "fan channel was not detected or is monitor-only" machine
      else elim (validate_fan_channel_control_request cmd seen.safety) [
        | err e ↦ refused e machine
        | ok _ ↦
            written (set_fan_control_channel seen.fault seen.at_write cmd.target cmd.value) machine
      ]

  unfoldable pub game_mode_switch : Command → Observed → Machine S → Executed S
  unfolding refused
  game_mode_switch cmd seen machine =
      if seen.panic_mode then refused panic_message machine else record {
        result = ok tt;
        writes = [];
        machine = record machine { game_enabled = Float.le (lit 50) cmd.value };
      }

module _ (unquote : String → Option String) {S : Type 0} (call : S → Call → Reply × S) where
  -- The power command once its value is known to be a power mode.
  set_power : String → Float64 → Machine S → Executed S
  unfolding error_of
  set_power supply value machine =
      let ((state, e), power) = set_platform_power_mode unquote call supply value machine.power in
      record { result = error_of e; writes = []; machine = record machine { power = power } }

  unfoldable pub execute_power_mode : String → String → Float64 → Observed → Machine S → Executed S
  unfolding refused set_power
  execute_power_mode action supply value seen machine =
      if seen.panic_mode
      then refused panic_message machine
      else elim (validate_power_mode_request action value) [
        | err e ↦ refused e machine
        | ok _ ↦ set_power supply value machine
      ]

  -- The cases of the switch after the two fan commands.
  unfoldable pub execute_other_command : Command → Observed → Machine S → Executed S
  unfolding refused
  execute_other_command cmd seen machine =
      if str_eq cmd.action "AI İşlem Gücü"
      then refused
          (if seen.panic_mode
            then panic_message
            else "hardware control backend is not available on this build")
          machine
      else if str_eq cmd.action "Set Game Mode"
      then game_mode_switch cmd seen machine
      else if str_eq cmd.action "Set Power Mode AC"
      then execute_power_mode cmd.action "AC" cmd.value seen machine
      else if str_eq cmd.action "Set Power Mode DC"
      then execute_power_mode cmd.action "DC" cmd.value seen machine
      else if str_eq cmd.action "Set Power Profile"
      then execute_power_mode "Set Power Mode AC" "SYSTEM" cmd.value seen machine
      else refused ("action cannot be executed: " <> cmd.action) machine

  unfoldable pub execute_hardware_command : Command → Observed → Machine S → Executed S
  execute_hardware_command cmd seen machine =
      if str_eq cmd.action "Fan Hızı"
      then execute_fan_speed cmd seen machine
      else if str_eq cmd.action "Set Fan Channel"
      then execute_fan_channel cmd seen machine
      else execute_other_command cmd seen machine
