-- ===== src/Audio/Session.antt =====
-- The session with the native audio process: audioProbeControl and audioStudioStartLine of
-- bridge_service/src/main.go. The lock makes each call one step.
use hwcontrol.Base.{
  ℕ, String, Bool, true, false, not, List, [], ◌∷◌, Option, none, some, map, ltb, if◌then◌else◌,
  str_eq,
}
use hwcontrol.Base.Result.{Result, ok, err}
use hwcontrol.Command.{◌<>◌}
use hwcontrol.Float.{Float64}
use hwcontrol.Text.Decimal.{format_int}
use hwcontrol.Text.Hex
use hwcontrol.Audio.{AudioStudioStartRequest}
use hwcontrol.Audio.Probe.{ProbeReadings, resolve_audio_probe_path}
use Prim.Native.String

abbrev pub bool_number : Bool → String
bool_number true = "1"
bool_number false = "0"

-- The frequency and the gain of each band, in turn.
unfoldable pub bands : List Float64 → List Float64 → List Float64
bands (f ∷ fs) (g ∷ gs) = f ∷ g ∷ bands fs gs
bands _ _ = []

-- strings.Join(parts, " ")
unfoldable pub space_joined : List String → String
space_joined [] = ""
space_joined (s ∷ []) = s
space_joined (s ∷ t ∷ rest) = s <> " " <> space_joined (t ∷ rest)

-- `format` is strconv.FormatFloat(value, 'f', -1, 64). A request that was validated has three bands.
module _ (format : Float64 → String) where
  unfoldable pub start_parts : AudioStudioStartRequest → List String
  unfolding bands format_int
  start_parts r =
      "start"
      ∷ format_int r.capture_index
      ∷ format_int r.playback_index
      ∷ bool_number r.monitor_output
      ∷ format r.input_gain
      ∷ format r.gate_threshold
      ∷ format r.compressor_threshold
      ∷ format r.compressor_ratio
      ∷ format r.compressor_attack
      ∷ format r.compressor_release
      ∷ format r.compressor_knee
      ∷ format r.high_pass_frequency
      ∷ format r.limiter_ceiling
      ∷ bool_number r.gate_enabled
      ∷ bool_number r.compressor_enabled
      ∷ bool_number r.high_pass_enabled
      ∷ bool_number r.limiter_enabled
      ∷ map format (bands r.eq_frequency r.eq_gain)

  unfoldable pub audio_studio_start_line : AudioStudioStartRequest → String
  unfolding start_parts space_joined
  audio_studio_start_line request = space_joined (start_parts request)

-- What the calls do to the native process; `killed` is Kill and Wait, of one that exited too.
pub data ProcessEffect : Type 0 where
  started : (path : String) → ProcessEffect
  sent : (line : String) → ProcessEffect
  killed : ProcessEffect

-- How the reading of a line ended, within the five seconds it has.
pub data Reading : Type 0 where
  read_failed : (message : String) → Reading
  no_answer : Reading
  line_read : (line : String) → Reading

-- What one call meets: the search for the probe, the two pipes and the start of the process, the
-- writing of the command and the reading of a line.
pub record SessionReadings : Type 0 where
  pub probe : ProbeReadings
  pub stdin_pipe : Result (Unit {0})
  pub stdout_pipe : Result (Unit {0})
  pub start : Result (Unit {0})
  pub write : Result (Unit {0})
  pub reading : Reading

-- The response's fields; `data_json` is the text of its data.
pub record ProbeResponse : Type 0 where
  pub status : String
  pub message : String
  pub message_hex : String
  pub data_json : String

-- The data or an error, whether the process runs, and what was done to it.
pub record Controlled : Type 0 where
  pub result : Result String
  pub running : Bool
  pub effects : List ProcessEffect

abbrev pub with_effect : ProcessEffect → Controlled → Controlled
with_effect e c = record c { effects = e ∷ c.effects }

-- stopAudioProbeSessionLocked, then an error.
abbrev pub stop_session : String → Controlled
stop_session message = record { result = err message; running = false; effects = killed ∷ [] }

abbrev pub not_started : String → Controlled
not_started message = record { result = err message; running = false; effects = [] }

abbrev pub keep_session : Result String → Controlled
keep_session result = record { result = result; running = true; effects = [] }

-- `unmarshal` is json.Unmarshal of a line, `to_valid_utf8` is strings.ToValidUTF8 of bytes and of a
-- text with the replacement.
module _ (unmarshal : String → Option ProbeResponse) (to_valid_utf8 : List ℕ → String → String)
    (valid_text : String → String → String) where
  abbrev decoded_message : String → Option (List ℕ) → String
  decoded_message message none = message
  decoded_message message (some bytes) = to_valid_utf8 bytes "\\uFFFD"

  unfoldable pub response_message : ProbeResponse → String
  unfolding Hex.decode
  response_message r =
      if not (str_eq r.message_hex "")
      then decoded_message r.message (Hex.decode r.message_hex)
      else r.message

  abbrev pub use_response : Option ProbeResponse → Controlled
  use_response none = stop_session "invalid native audio response"
  use_response (some r) = keep_session (
      if str_eq r.status "SUCCESS"
      then ok r.data_json
      else err ("native audio operation failed: " <> valid_text (response_message r) "\\uFFFD"))

  abbrev pub use_reading : Reading → Controlled
  use_reading (read_failed e) = stop_session ("read native audio response: " <> e)
  use_reading no_answer = stop_session "native audio command timed out"
  use_reading (line_read line) =
      if ltb 65536 (String.len line)
      then stop_session "native audio response exceeded the size limit"
      else use_response (unmarshal line)

  -- The exchange with a process that runs.
  unfoldable pub exchange : String → Result (Unit {0}) → Reading → Controlled
  unfolding response_message
  exchange command (err e) reading = stop_session ("send native audio command: " <> e)
  exchange command (ok done) reading = with_effect (sent (command <> "\n")) (use_reading reading)

  abbrev pub start_session : String → String → SessionReadings → Controlled
  start_session command path seen = elim seen.stdin_pipe [
    | err e ↦ not_started ("open native audio control input: " <> e)
    | ok _ ↦ elim seen.stdout_pipe [
      | err e ↦ not_started ("open native audio control output: " <> e)
      | ok _ ↦ elim seen.start [
        | err e ↦ not_started ("start native audio control process: " <> e)
        | ok _ ↦ with_effect (started path) (exchange command seen.write seen.reading)
      ]
    ]
  ]

  abbrev pub start_found : String → Result String → SessionReadings → Controlled
  start_found command (err e) seen = not_started e
  start_found command (ok path) seen = start_session command path seen

  unfoldable pub audio_probe_control : Bool → String → SessionReadings → Controlled
  unfolding resolve_audio_probe_path exchange
  audio_probe_control true command seen = exchange command seen.write seen.reading
  audio_probe_control false command seen =
      start_found command (resolve_audio_probe_path seen.probe) seen
