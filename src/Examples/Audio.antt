-- ===== src/Examples/Audio.antt =====
-- The audio studio.
use hwcontrol.Base.{ℕ, ◌+◌, ◌*◌, String, true, false, ◌≡◌, refl, List, [], ◌∷◌, Option, some, arith}
use hwcontrol.Base.Result.{ok, err}
use hwcontrol.Float
use hwcontrol.Float.{Float64, nan, inf, finite, lit, neg_lit}
use hwcontrol.Int.{pos}
use hwcontrol.Text.Decimal.{decimal}
use hwcontrol.Text.Decimal.Words.{lacks-decimal, decimal_injective}
use hwcontrol.Audio.{AudioStudioStartRequest, valid_audio_studio_start_request}
use hwcontrol.Audio.Alternates.{
  ProcessEvent, did, exits, no_child, child_after, still_held, control_all, one_audio_process,
}
use hwcontrol.Audio.Probe.{ProbeReadings}
use hwcontrol.Audio.Session.{
  ProbeResponse, ProcessEffect, SessionReadings, line_read, no_answer, started, sent, killed,
}
use hwcontrol.Audio.StartLine.{IsExact, start_line_injective}

-- A number for each value, and its numeral: another form than that of FormatFloat.
abbrev numbered : Float64 → ℕ
numbered nan = 0
numbered (inf true) = 1
numbered (inf false) = 2
numbered (finite true m) = 2 * m + 3
numbered (finite false m) = 2 * m + 4

numbered_injective : (a b : Float64) → numbered a ≡ numbered b → a ≡ b
numbered_injective a b h = ground arith

abbrev format : Float64 → String
format a = decimal (numbered a)

format-IsExact : IsExact format
format-IsExact = record {
  injective = λ a b h. numbered_injective a b (decimal_injective (numbered a) (numbered b) h);
  spaceless = λ a. lacks-decimal (numbered a) b' ' (omega arith);
}

abbrev request : AudioStudioStartRequest
request = record {
  capture_index = pos 1;
  playback_index = pos 0;
  monitor_output = false;
  input_gain = lit 0;
  gate_threshold = neg_lit 40;
  compressor_threshold = neg_lit 18;
  compressor_ratio = lit 4;
  compressor_attack = lit 10;
  compressor_release = lit 100;
  compressor_knee = lit 6;
  high_pass_frequency = lit 80;
  limiter_ceiling = neg_lit 1;
  gate_enabled = true;
  compressor_enabled = true;
  high_pass_enabled = true;
  limiter_enabled = true;
  eq_gain = lit 0 ∷ lit 1 ∷ lit 2 ∷ [];
  eq_frequency = lit 120 ∷ lit 1000 ∷ lit 8000 ∷ [];
}

request_valid : valid_audio_studio_start_request request ≡ ok tt
unfolding valid_audio_studio_start_request Float.is_nan Float.is_inf Float.lt Float.one
    hwcontrol.Audio.tenth hwcontrol.Float.Arith.round hwcontrol.Float.Round.round_ratio
request_valid = refl

start_line_injective_example : request ≡ request
start_line_injective_example =
    start_line_injective format format-IsExact request request request_valid request_valid refl

abbrev unmarshal : String → Option ProbeResponse
unmarshal line =
    some (record { status = "SUCCESS"; message = ""; message_hex = ""; data_json = "{}" })

abbrev found : ProbeReadings
found = record { env_probe = "/opt/probe"; executable = err "not asked"; stat = λ path. ok true }

abbrev answering : SessionReadings
answering = record {
  probe = found;
  stdin_pipe = ok tt;
  stdout_pipe = ok tt;
  start = ok tt;
  write = ok tt;
  reading = line_read "{}\n";
}

abbrev silent : SessionReadings
silent = record answering { reading = no_answer }

-- A session that is started, loses its process, and is started again.
abbrev calls : List (String × SessionReadings)
calls = ("status", answering) ∷ ("stop", silent) ∷ ("status", answering) ∷ []

abbrev seen_effects : List ProcessEffect
seen_effects =
    started "/opt/probe"
    ∷ sent "status\n"
    ∷ sent "stop\n"
    ∷ killed
    ∷ started "/opt/probe"
    ∷ sent "status\n"
    ∷ []

session_run : control_all unmarshal (λ bytes s. s) (λ t s. t) calls false ≡ (true, seen_effects)
unfolding control_all
session_run = refl

-- The process exits before the second call, which finds that out by the time-out.
abbrev log : List ProcessEvent
log =
    did (started "/opt/probe")
    ∷ did (sent "status\n")
    ∷ exits
    ∷ did (sent "stop\n")
    ∷ did killed
    ∷ did (started "/opt/probe")
    ∷ did (sent "status\n")
    ∷ []

one_audio_process_example :
    still_held (child_after log no_child)
    ≡ some (control_all unmarshal (λ bytes s. s) (λ t s. t) calls false).0
unfolding control_all
one_audio_process_example =
    one_audio_process unmarshal (λ bytes s. s) (λ t s. t) calls no_child log refl
