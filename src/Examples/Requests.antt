-- ===== src/Examples/Requests.antt =====
-- Requests, nonces and responses.
use hwcontrol.Base.{
  Option, some, ◌≢◌, ℕ, ◌<◌, String, Bool, true, false, List, [], ◌∷◌, some, refl, ◌≡◌, inr, arith,
  all, ◌↔◌,
}
use hwcontrol.Int.{pos}
use hwcontrol.Command.{Command, Hmac, authenticate_command, sign_command}
use hwcontrol.Command.Replay.{ReplayNonces, consume_command_nonce, max_replay_nonces}
use hwcontrol.Command.Replay.Laws.{consume_all, is_live, live_count, accepted_iff}
use hwcontrol.Command.Validate.{validate_command, outside_window, nanoseconds}
use hwcontrol.Command.Window.{past_command_runs_once, future_command_replays}
use hwcontrol.Base.Result.{ok}
use hwcontrol.Command.Strict.{
  DecodedLine, open_object, close_object, text, end_of_input, is_allowed, name_text, all_new,
  decode_command_strict, decoded_line_unambiguous,
}
use hwcontrol.Response.{Response, sign_response, authenticate_response}
use hwcontrol.Response.Signed.{signed_response_authenticates}
use hwcontrol.Command.Signed.{signed_command_authenticates}
use hwcontrol.Response.Unambiguous.{response_payload_injective}
use hwcontrol.Connection.{
  Turned, handle_request, received, decoded, authentic, accepted, run_command, answered, reply,
  new_connection,
}
use hwcontrol.Connection.Dispatch.{dispatch}
use hwcontrol.Execute.{execute_hardware_command}
use hwcontrol.Connection.Read.{Line, read_bounded_request}
use hwcontrol.Connection.Read.Fragments.{fragments, joined, bounded, read_line_within_limit}
use hwcontrol.Connection.Gate.{HasEffect, PassesGates, effects_are_gated}
use hwcontrol.Connection.Replies.{AnswersOnce, line_is_answered_once}
use hwcontrol.Health.{is_empty}
use hwcontrol.Fan.{PwmWrite}
use hwcontrol.Thermal.Guards.{IsSafeFor}
use hwcontrol.Connection.Writes.{fan_writes_are_safe}
use hwcontrol.Examples.Data.{
  full_speed, game_on, hmac, unmarshal, unquote, daemon, decode, turn, bridge, nonce,
}

abbrev first : Bool × ReplayNonces
first = consume_command_nonce nonce 2000000000 []

-- Another nonce, in between.
abbrev other : List (String × ℕ)
other = ("ffeeddccbbaa99887766554433221100", 3000000000) ∷ []

accepted_iff_example :
    (first.0 ≡ true)
    ↔ ((is_live nonce 2000000000 [] ≡ false) × (live_count 2000000000 [] < max_replay_nonces))
accepted_iff_example = accepted_iff nonce 2000000000 []

past_command_runs_once_example :
    (consume_command_nonce nonce 4000000001 (consume_all other first.1)).0 ≡ false
unfolding consume_command_nonce outside_window
past_command_runs_once_example =
    past_command_runs_once nonce (pos 1000) 500000000 2000000000 4000000000 4000000001 other []
      (omega arith) refl refl (omega arith) (omega arith, tt)

-- The command is dated 31 s and seen at 2 s; its nonce expires at 32 s.
future_command_replays_example :
    (outside_window 40000000000 (pos 31000) ≡ false)
    × ((consume_command_nonce nonce 40000000000 first.1).0 ≡ true)
unfolding consume_command_nonce outside_window live_count
future_command_replays_example =
    future_command_replays nonce (pos 31000) 2000000000 40000000000 [] refl refl (omega arith)
      (omega arith) (omega arith)

abbrev pong : Response
pong = record {
  status = "SUCCESS";
  message = "3:abc";
  data_json = "null";
  request_nonce = nonce;
  auth = "";
}

response_payload_injective_example :
    (pong.request_nonce ≡ pong.request_nonce)
    × (pong.status ≡ pong.status)
    × (pong.message ≡ pong.message)
    × (pong.data_json ≡ pong.data_json)
response_payload_injective_example = response_payload_injective pong pong refl

read_line_within_limit_example :
    read_bounded_request 4 (fragments ((1 ∷ 2 ∷ []) ∷ []) (3 ∷ 10 ∷ []))
    ≡ bounded 4 (joined ((1 ∷ 2 ∷ []) ∷ []) (3 ∷ 10 ∷ []))
read_line_within_limit_example = read_line_within_limit 4 ((1 ∷ 2 ∷ []) ∷ []) (3 ∷ 10 ∷ [])

line_is_answered_once_example :
    AnswersOnce true nonce
      (handle_request hmac "key" decode unmarshal unquote daemon turn new_connection bridge)
line_is_answered_once_example =
    line_is_answered_once hmac "key" decode unmarshal unquote daemon turn new_connection bridge
      (123 ∷ []) refl (omega arith)

game_turned_on :
    (handle_request hmac "key" decode unmarshal unquote daemon turn new_connection
      bridge).bridge.machine.game_enabled
    ≡ true
unfolding handle_request received decoded authentic accepted run_command answered reply
    validate_command authenticate_command consume_command_nonce dispatch execute_hardware_command
    hwcontrol.Text.trim_space hwcontrol.Command.Validate.value_out_of_range hwcontrol.Float.is_nan
    hwcontrol.Float.is_inf hwcontrol.Float.lt hwcontrol.Float.one hwcontrol.Float.eq
    hwcontrol.Float.Format.reparse_fixed hwcontrol.Float.Arith.round
    hwcontrol.Float.Round.round_ratio outside_window hwcontrol.Command.Validate.validate_target
    hwcontrol.Command.Validate.validate_action hwcontrol.Connection.too_soon
    hwcontrol.Execute.execute_other_command hwcontrol.Execute.game_mode_switch
    hwcontrol.Connection.Dispatch.answer_or_execute hwcontrol.Connection.Dispatch.after_execution
game_turned_on = refl

has_effect :
    HasEffect bridge
      (handle_request hmac "key" decode unmarshal unquote daemon turn new_connection bridge)
has_effect = inr (λ e. ground (arith, game_turned_on, e))

effects_are_gated_example :
    (line : List ℕ) × (cmd : Command) × (turn.line ≡ Line.read line)
    × (decode line ≡ some cmd)
    × PassesGates hmac "key" unmarshal turn new_connection bridge cmd
effects_are_gated_example =
    effects_are_gated hmac "key" decode unmarshal unquote daemon turn new_connection bridge
      has_effect

signed_command_authenticates_example :
    authenticate_command hmac (record game_on { auth = sign_command hmac game_on "key" }) "key"
    ≡ true
signed_command_authenticates_example =
    signed_command_authenticates hmac game_on "key" (λ key message. refl) refl

signed_response_authenticates_example :
    authenticate_response hmac
      (record pong { auth = "0000000000000000000000000000000000000000000000000000000000000000" })
      "key"
      nonce
    ≡ true
unfolding sign_response
signed_response_authenticates_example =
    signed_response_authenticates hmac pong "key"
      "0000000000000000000000000000000000000000000000000000000000000000" (λ key message. refl) refl
      refl

abbrev speed_line : List ℕ → Option Command
speed_line line = some full_speed

abbrev speed_turn : Turned (Unit {0})
speed_turn =
    handle_request hmac "key" speed_line unmarshal unquote daemon turn new_connection bridge

speed_written : is_empty speed_turn.writes ≡ false
unfolding handle_request received decoded authentic accepted run_command answered reply
    validate_command authenticate_command consume_command_nonce dispatch execute_hardware_command
    hwcontrol.Text.trim_space hwcontrol.Command.Validate.value_out_of_range hwcontrol.Float.is_nan
    hwcontrol.Float.is_inf hwcontrol.Float.lt hwcontrol.Float.one hwcontrol.Float.eq
    hwcontrol.Float.Format.reparse_fixed hwcontrol.Float.Arith.round
    hwcontrol.Float.Round.round_ratio outside_window hwcontrol.Command.Validate.validate_target
    hwcontrol.Command.Validate.validate_action hwcontrol.Connection.too_soon
    hwcontrol.Execute.execute_other_command hwcontrol.Execute.game_mode_switch
    hwcontrol.Connection.Dispatch.answer_or_execute hwcontrol.Connection.Dispatch.after_execution
    hwcontrol.Execute.execute_fan_speed hwcontrol.Thermal.validate_fan_control_request
    hwcontrol.Thermal.validate_thermal_telemetry hwcontrol.Thermal.has_critical_thermal_state
    hwcontrol.Telemetry.is_valid_temperature hwcontrol.Float.le hwcontrol.Fan.set_fan_control
    hwcontrol.Fan.detect_fan_control hwcontrol.Fan.validate_fan_percent
    hwcontrol.Fan.linux_fan_targets hwcontrol.Fan.write_linux_fan_target
speed_written = refl

not_empty : (writes : List PwmWrite) → is_empty writes ≡ false → writes ≢ []
not_empty writes h e = ground arith

fan_writes_are_safe_example :
    (line : List ℕ) × (cmd : Command) × (turn.line ≡ Line.read line)
    × (speed_line line ≡ some cmd)
    × PassesGates hmac "key" unmarshal turn new_connection bridge cmd
    × (turn.seen.observed.panic_mode ≡ false)
    × IsSafeFor turn.seen.observed.safety cmd.value
fan_writes_are_safe_example =
    fan_writes_are_safe hmac "key" speed_line unmarshal unquote daemon turn new_connection bridge
      (not_empty speed_turn.writes speed_written)

abbrev decoded_line : DecodedLine
decoded_line = record {
  opening = open_object;
  members =
      record { name = text "nonce"; value = ok tt }
      ∷ record { name = text "action"; value = ok tt }
      ∷ [];
  closing = close_object;
  trailing = end_of_input;
}

decoded_line_unambiguous_example :
    (decoded_line.opening ≡ open_object)
    × (decoded_line.closing ≡ close_object)
    × (all (λ m. is_allowed (name_text m.name)) decoded_line.members ≡ true)
    × (all_new [] decoded_line.members ≡ true)
    × (decoded_line.trailing ≡ end_of_input)
    × (end_of_input ≡ end_of_input)
unfolding decode_command_strict
decoded_line_unambiguous_example =
    decoded_line_unambiguous decoded_line (ok full_speed) end_of_input refl
