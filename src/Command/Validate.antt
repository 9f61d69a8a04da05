-- ===== src/Command/Validate.antt =====
-- validateCommand: every check that a decoded command passes before it is authenticated.
use Prim.Native.String
use hwcontrol.Base.{
  ℕ, ◌+◌, ◌*◌, String, Bool, not, ◌||◌, ◌==◌, List, [], ◌∷◌, Option, ltb, if◌then◌else◌, str_eq,
  any,
}
use hwcontrol.Base.Result.{Result, ok, err, fail_if, ◌>>=◌, ◌>>◌}
use hwcontrol.Int.{ℤ, pos, pos_part, leb_ℤ}
use hwcontrol.Float
use hwcontrol.Float.{Float64, lit}
use hwcontrol.Float.Format.{reparse_fixed}
use hwcontrol.Text.{trim_space}
use hwcontrol.Text.Hex
use hwcontrol.Command.{Command, ◌<>◌}
use hwcontrol.Command.Replay.{command_clock_skew}
use hwcontrol.Fan.{validate_fan_percent, valid_fan_channel_id}
use hwcontrol.Power.{validate_power_mode_request}
use hwcontrol.Audio.{AudioStudioStartRequest, decode_audio_studio_start_target}

abbrev pub max_action_length : ℕ
max_action_length = 64

-- A positive Unix time in milliseconds, in nanoseconds.
abbrev pub nanoseconds : ℤ → ℕ
nanoseconds timestamp = pos_part timestamp * 1000000

-- age > commandClockSkew || age < -commandClockSkew, for age = now - timestamp
unfoldable pub outside_window : ℕ → ℤ → Bool
outside_window now timestamp =
    ltb (nanoseconds timestamp + command_clock_skew) now
    || ltb (now + command_clock_skew) (nanoseconds timestamp)

unfoldable pub value_out_of_range : Float64 → Bool
value_out_of_range value =
    Float.is_nan value || Float.is_inf value || Float.lt value (lit 0) || Float.lt (lit 100) value

abbrev pub read_only_actions : List String
read_only_actions =
    "Get Status" ∷ "Get Security" ∷ "Get Diagnostics" ∷ "Get Health" ∷ "Get Game Mode"
    ∷ "Get Update" ∷ "Get Sensor Health" ∷ "Get Sensor History" ∷ "Get Fan Channels"
    ∷ "Get Fetch Status" ∷ "Get Audio Devices" ∷ "Get Audio Studio Status" ∷ "Stop Audio Studio"
    ∷ []

abbrev pub one_of : String → List String → Bool
one_of action names = any (λ name. str_eq action name) names

-- The switch over the actions.
unfoldable pub validate_action : String → Float64 → Result (Unit {0})
validate_action action value =
    if one_of action ("Fan Hızı" ∷ "AI İşlem Gücü" ∷ "Set Game Mode" ∷ "Start Audio Studio" ∷ [])
    then ok tt
    else if str_eq action "Set Fan Channel"
    then validate_fan_percent value
    else if one_of action ("Set Power Mode AC" ∷ "Set Power Mode DC" ∷ [])
    then validate_power_mode_request action value
    else if str_eq action "Set Power Profile"
    then validate_power_mode_request "Set Power Mode AC" value
    else if str_eq action "Get Power Mode"
    then fail_if (not (Float.eq value (lit 0))) "read-only command value must be zero"
    else if one_of action read_only_actions
    then fail_if (not (Float.eq value (lit 0))) "read-only command value must be zero"
    else err ("unsupported action: " <> action)

module _ (unmarshal : List ℕ → Option AudioStudioStartRequest) where
  -- The target's checks, by action.
  unfoldable pub validate_target : String → Command → Result (Unit {0})
  validate_target action cmd =
      if str_eq action "Set Fan Channel"
      then (do
        fail_if (not (valid_fan_channel_id cmd.target))
            "Set Fan Channel requires a valid channel identifier"
        validate_fan_percent cmd.value)
      else if str_eq action "Start Audio Studio"
      then (do
        fail_if (not (Float.eq cmd.value (lit 0))) "audio start command value must be zero"
        request ← decode_audio_studio_start_target unmarshal cmd.target
        ok tt)
      else fail_if (not (str_eq cmd.target ""))
          "target is only accepted for fan-channel or audio-start commands"

  unfoldable pub validate_command : ℕ → Command → Result (Unit {0})
  validate_command now cmd = do
    let action = trim_space cmd.action
    fail_if (str_eq action "") "action is required"
    fail_if (not (str_eq action cmd.action))
        "action must not contain leading or trailing whitespace"
    fail_if (ltb max_action_length (String.len action)) "action is too long"
    fail_if (value_out_of_range cmd.value) "value must be between 0 and 100"
    fail_if (not (Float.eq (reparse_fixed 6 cmd.value) cmd.value))
        "value precision exceeds authenticated protocol precision"
    fail_if (leb_ℤ cmd.timestamp (pos 0)) "timestamp is required"
    fail_if (outside_window now cmd.timestamp) "command timestamp outside allowed window"
    fail_if (not (String.len cmd.nonce == 32)) "nonce must contain 32 hexadecimal characters"
    fail_if (not (Hex.is_hex cmd.nonce)) "nonce must be hexadecimal"
    fail_if (not (String.len cmd.auth == 64)) "auth must contain 64 hexadecimal characters"
    fail_if (not (Hex.is_hex cmd.auth)) "auth must be hexadecimal"
    fail_if (ltb 8192 (String.len cmd.target)) "command target is too large"
    validate_target action cmd
    validate_action action cmd.value
