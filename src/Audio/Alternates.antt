-- ===== src/Audio/Alternates.antt =====
-- How the calls of a session use the native process: audioProbeControl of
-- bridge_service/src/main.go.
use hwcontrol.Base.{
  ℕ, String, Bool, true, false, ◌≡◌, refl, ◌∙◌, ap, List, [], ◌∷◌, ◌++◌, Option, none, some, ltb,
  Bool-cases, inl, inr,
}
use hwcontrol.Base.Result.{Result, ok, err, Result-cases}
use hwcontrol.Audio.Session.{
  ProcessEffect, started, sent, killed, Reading, read_failed, no_answer, line_read, SessionReadings,
  ProbeResponse, Controlled, use_response, use_reading, exchange, start_session, start_found,
  audio_probe_control,
}
use hwcontrol.Audio.Probe.{resolve_audio_probe_path}
use Prim.Native.String

-- What the effects do to a process that runs or not: a start where one runs, and a line or a kill
-- where none runs, are `none`.
abbrev pub replayed : List ProcessEffect → Bool → Option Bool
replayed [] running = some running
replayed (started path ∷ es) true = none
replayed (started path ∷ es) false = replayed es true
replayed (sent line ∷ es) true = replayed es true
replayed (sent line ∷ es) false = none
replayed (killed ∷ es) true = replayed es false
replayed (killed ∷ es) false = none

-- The process that was started last: waited for, or none; running; or exited by itself.
pub data Child : Type 0 where
  no_child alive exited : Child

abbrev pub is_held : Child → Bool
is_held no_child = false
is_held alive = true
is_held exited = true

pub data ProcessEvent : Type 0 where
  did : ProcessEffect → ProcessEvent
  exits : ProcessEvent

abbrev pub without_exits : List ProcessEvent → List ProcessEffect
without_exits [] = []
without_exits (did e ∷ log) = e ∷ without_exits log
without_exits (exits ∷ log) = without_exits log

abbrev exit_of : Child → Child
exit_of no_child = no_child
exit_of alive = exited
exit_of exited = exited

-- What becomes of the process: a start where one is not waited for, and a line or a kill where none
-- was started, are `none`.
abbrev pub child_after : List ProcessEvent → Child → Option Child
child_after [] c = some c
child_after (exits ∷ log) c = child_after log (exit_of c)
child_after (did (started path) ∷ log) no_child = child_after log alive
child_after (did (started path) ∷ log) alive = none
child_after (did (started path) ∷ log) exited = none
child_after (did (sent line) ∷ log) no_child = none
child_after (did (sent line) ∷ log) alive = child_after log alive
child_after (did (sent line) ∷ log) exited = child_after log exited
child_after (did killed ∷ log) no_child = none
child_after (did killed ∷ log) alive = child_after log no_child
child_after (did killed ∷ log) exited = child_after log no_child

abbrev pub still_held : Option Child → Option Bool
still_held none = none
still_held (some c) = some (is_held c)

held_after :
    (log : List ProcessEvent) (c : Child)
    → still_held (child_after log c) ≡ replayed (without_exits log) (is_held c)
held_after [] c = refl
held_after (exits ∷ log) no_child = held_after log no_child
held_after (exits ∷ log) alive = held_after log exited
held_after (exits ∷ log) exited = held_after log exited
held_after (did (started path) ∷ log) no_child = held_after log alive
held_after (did (started path) ∷ log) alive = refl
held_after (did (started path) ∷ log) exited = refl
held_after (did (sent line) ∷ log) no_child = refl
held_after (did (sent line) ∷ log) alive = held_after log alive
held_after (did (sent line) ∷ log) exited = held_after log exited
held_after (did killed ∷ log) no_child = refl
held_after (did killed ∷ log) alive = held_after log no_child
held_after (did killed ∷ log) exited = held_after log no_child

module _ (unmarshal : String → Option ProbeResponse) (to_valid_utf8 : List ℕ → String → String)
    (valid_text : String → String → String) where
  -- The calls in turn, each with what it meets; whether the process runs after them, and all that was
  -- done to it.
  unfoldable pub control_all : List (String × SessionReadings) → Bool → Bool × List ProcessEffect
  unfolding audio_probe_control
  control_all [] running = (running, [])
  control_all ((command, seen) ∷ calls) running =
      let c = audio_probe_control unmarshal to_valid_utf8 valid_text running command seen in
      let (after, effects) = control_all calls c.running in (after, c.effects ++ effects)

  abbrev Replays : Bool → Controlled → Type 0
  Replays running c = replayed c.effects running ≡ some c.running

  response-Replays :
      (r : Option ProbeResponse) → Replays true (use_response unmarshal to_valid_utf8 valid_text r)
  response-Replays none = refl
  response-Replays (some r) = refl

  reading-Replays : (r : Reading) → Replays true (use_reading unmarshal to_valid_utf8 valid_text r)
  reading-Replays (read_failed e) = refl
  reading-Replays no_answer = refl
  reading-Replays (line_read line) = elim (Bool-cases (ltb 65536 (String.len line))) [
    | inl l ↦ rw l refl
    | inr l ↦ rw l (response-Replays (unmarshal line))
  ]

  exchange-Replays :
      (command : String) (w : Result (Unit {0})) (r : Reading)
      → Replays true (exchange unmarshal to_valid_utf8 valid_text command w r)
  unfolding exchange
  exchange-Replays command (err e) r = refl
  exchange-Replays command (ok done) r = reading-Replays r

  start-Replays :
      (command path : String) (seen : SessionReadings)
      → Replays false (start_session unmarshal to_valid_utf8 valid_text command path seen)
  start-Replays command path seen = elim (Result-cases seen.stdin_pipe) [
    | inl (e, i) ↦ rw i refl
    | inr (_, i) ↦ elim (Result-cases seen.stdout_pipe) [
      | inl (e, o) ↦ rw (i, o) refl
      | inr (_, o) ↦ elim (Result-cases seen.start) [
        | inl (e, s) ↦ rw (i, o, s) refl
        | inr (_, s) ↦ rw (i, o, s) (exchange-Replays command seen.write seen.reading)
      ]
    ]
  ]

  found-Replays :
      (command : String) (found : Result String) (seen : SessionReadings)
      → Replays false (start_found unmarshal to_valid_utf8 valid_text command found seen)
  found-Replays command (err e) seen = refl
  found-Replays command (ok path) seen = start-Replays command path seen

  control-Replays :
      (running : Bool) (command : String) (seen : SessionReadings)
      → Replays running
          (audio_probe_control unmarshal to_valid_utf8 valid_text running command seen)
  unfolding audio_probe_control
  control-Replays true command seen = exchange-Replays command seen.write seen.reading
  control-Replays false command seen =
      found-Replays command (resolve_audio_probe_path seen.probe) seen

  replayed-append :
      (es fs : List ProcessEffect) (a b : Bool)
      → replayed es a ≡ some b
      → replayed (es ++ fs) a ≡ replayed fs b
  replayed-append [] fs a b h = ap (replayed fs) (cc h)
  replayed-append (started path ∷ es) fs true b h = cc
  replayed-append (started path ∷ es) fs false b h = replayed-append es fs true b h
  replayed-append (sent line ∷ es) fs true b h = replayed-append es fs true b h
  replayed-append (sent line ∷ es) fs false b h = cc
  replayed-append (killed ∷ es) fs true b h = replayed-append es fs false b h
  replayed-append (killed ∷ es) fs false b h = cc

  alternates :
      (calls : List (String × SessionReadings)) (running : Bool)
      → replayed (control_all calls running).1 running ≡ some (control_all calls running).0
  unfolding control_all
  alternates [] running = refl
  alternates ((command, seen) ∷ calls) running =
      let c = audio_probe_control unmarshal to_valid_utf8 valid_text running command seen in
      replayed-append c.effects (control_all calls c.running).1 running c.running
        (control-Replays running command seen)
      ∙ alternates calls c.running

  -- Through any calls, and wherever in between the native process exits by itself, a process is
  -- started only where the one before it was killed and waited for, and a line is sent to it and it is
  -- killed only where it was started and not yet waited for; after them there is such a process
  -- exactly if the session holds one.
  pub one_audio_process :
      (calls : List (String × SessionReadings)) (child : Child) (log : List ProcessEvent)
      → without_exits log ≡ (control_all calls (is_held child)).1
      → still_held (child_after log child) ≡ some (control_all calls (is_held child)).0
  one_audio_process calls child log h =
      held_after log child
      ∙ ap (λ es. replayed es (is_held child)) h
      ∙ alternates calls (is_held child)
