-- ===== src/Connection/Dispatch.antt =====
-- The handlers of handleConnection, by action, for a command that has passed every gate.
pub mod Writes
use hwcontrol.Base.{ℕ, String, Bool, ◌||◌, List, [], Option, none, some, if◌then◌else◌, str_eq}
use hwcontrol.Base.Result.{Result, ok, err}
use hwcontrol.Float.{Float64}
use hwcontrol.Command.{Command, ◌<>◌}
use hwcontrol.Audio.{AudioStudioStartRequest, decode_audio_studio_start_target}
use hwcontrol.Fan.{LinuxFanTarget, PwmWrite, list_fan_channels}
use hwcontrol.Telemetry.{FanChannel}
use hwcontrol.Power.Linux.{Call, Reply, PowerModeState, get_platform_power_mode}
use hwcontrol.Execute.{Observed, Machine, Executed, execute_hardware_command}

-- The line that audioProbeControl sends.
pub data Control : Type 0 where
  start : AudioStudioStartRequest → Control
  stop : Control
  status : Control

-- The data of a response: the snapshot that fills it, or what it holds.
pub data Payload : Type 0 where
  audio_devices audio_session update_status sensor_health sensor_history fetch_status : Payload
  metrics health game_mode security diagnostics : Payload
  fan_channels : List FanChannel → Payload
  power_mode : PowerModeState → Payload
  applied : String → Float64 → Payload

pub record Answer : Type 0 where
  pub status : String
  pub message : String
  pub payload : Option Payload

-- What the handlers see: the native audio process, a discovery of the fans, and the observations
-- of executeHardwareCommand.
pub record Seen : Type 0 where
  pub audio_devices : Result (Unit {0})
  pub audio_control : Control → Result (Unit {0})
  pub fans : List LinuxFanTarget
  pub observed : Observed

pub record Answered (S : Type 0) : Type 0 where
  pub answer : Answer
  pub writes : List PwmWrite
  pub machine : Machine S

abbrev pub success : String → Payload → Answer
success message payload = record { status = "SUCCESS"; message = message; payload = some payload }

abbrev failure : String → Answer
failure message = record { status = "ERROR"; message = message; payload = none }

abbrev or_failure : Result (Unit {0}) → Answer → Answer
or_failure (ok _) answer = answer
or_failure (err e) answer = failure e

abbrev pub is_power_action : String → Bool
is_power_action action = str_eq action "Set Power Mode AC" || str_eq action "Set Power Mode DC"

module _ {S : Type 0} where
  unfoldable pub only : Answer → Machine S → Answered S
  only answer machine = record { answer = answer; writes = []; machine = machine }

module _ (unmarshal : List ℕ → Option AudioStudioStartRequest) where
  unfoldable pub start_audio : Command → Seen → Answer
  start_audio cmd seen = elim (decode_audio_studio_start_target unmarshal cmd.target) [
    | err e ↦ failure e
    | ok request ↦
        or_failure (seen.audio_control (start request))
          (success "Native audio processing started" audio_session)
  ]

-- The handlers that read a snapshot and change nothing that is modelled here.
abbrev pub snapshot_answer : String → Option Answer
snapshot_answer action =
    if str_eq action "Get Update"
    then some (success "Update Service durumu alındı" update_status)
    else if str_eq action "Get Sensor Health"
    then some (success "SensorHealth durumu alındı" sensor_health)
    else if str_eq action "Get Sensor History"
    then some (success "Yerel sensör geçmişi alındı" sensor_history)
    else if str_eq action "Get Fetch Status"
    then some (success "Fetch Status durumu alındı" fetch_status)
    else if str_eq action "Get Status"
    then some (success "Metrikler alındı" metrics)
    else if str_eq action "Get Health"
    then some (success "Health durumu alındı" health)
    else if str_eq action "Get Game Mode"
    then some (success "Game Mode durumu alındı" game_mode)
    else if str_eq action "Get Security"
    then some (success "Güvenlik durumu alındı" security)
    else if str_eq action "Get Diagnostics"
    then some (success "Diagnostics hazır" diagnostics)
    else none

module _ (unquote : String → Option String) {S : Type 0} (call : S → Call → Reply × S) where
  unfoldable pub power_answer : Machine S → Answered S
  power_answer machine =
      let (state, power) = get_platform_power_mode unquote call machine.power in
      record {
        answer = success state.message (power_mode state);
        writes = [];
        machine = record machine { power = power };
      }

  -- The response to an executed command.
  unfoldable pub after_execution : Command → Executed S → Answered S
  unfolding power_answer
  after_execution cmd done = elim done.result [
    | err e ↦ record { answer = failure e; writes = done.writes; machine = done.machine }
    | ok _ ↦
        if is_power_action cmd.action
        then record (power_answer done.machine) { writes = done.writes }
        else record {
          answer = success (cmd.action <> " applied") (applied cmd.action cmd.value);
          writes = done.writes;
          machine = done.machine;
        }
  ]

module _ (unmarshal : List ℕ → Option AudioStudioStartRequest) (unquote : String → Option String)
    {S : Type 0} (call : S → Call → Reply × S) where
  -- A snapshot answers its action; any other action is executed.
  unfoldable pub answer_or_execute : Option Answer → Command → Seen → Machine S → Answered S
  unfolding only
  answer_or_execute (some answer) cmd seen machine = only answer machine
  answer_or_execute none cmd seen machine =
      after_execution unquote call cmd
        (execute_hardware_command unquote call cmd seen.observed machine)

  unfoldable pub dispatch : Command → Seen → Machine S → Answered S
  unfolding only start_audio power_answer after_execution
  dispatch cmd seen machine =
      if str_eq cmd.action "Get Audio Devices"
      then only
          (or_failure seen.audio_devices
            (success "Native audio endpoints enumerated locally" audio_devices))
          machine
      else if str_eq cmd.action "Start Audio Studio"
      then only (start_audio unmarshal cmd seen) machine
      else if str_eq cmd.action "Stop Audio Studio"
      then only
          (or_failure (seen.audio_control stop)
            (success "Native audio processing stopped" audio_session))
          machine
      else if str_eq cmd.action "Get Audio Studio Status"
      then only
          (or_failure (seen.audio_control Control.status)
            (success "Audio studio status retrieved" audio_session))
          machine
      else if str_eq cmd.action "Get Fan Channels"
      then only
          (success "Fan channel capabilities retrieved"
            (fan_channels (list_fan_channels seen.fans)))
          machine
      else if str_eq cmd.action "Get Power Mode"
      then power_answer unquote call machine
      else answer_or_execute (snapshot_answer cmd.action) cmd seen machine
