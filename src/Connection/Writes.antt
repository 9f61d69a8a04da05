-- ===== src/Connection/Writes.antt =====
-- The fan writes of a turn of handleConnection (bridge_service/src/main.go).
use hwcontrol.Base.{ℕ, String, false, ◌≡◌, ◌≢◌, inl, List, [], Option, some, arith}
use hwcontrol.Command.{Command, Hmac}
use hwcontrol.Command.Replay.{consume_command_nonce}
use hwcontrol.Audio.{AudioStudioStartRequest}
use hwcontrol.Thermal.Guards.{IsSafeFor}
use hwcontrol.Power.Linux.{Call, Reply}
use hwcontrol.Connection.Read.{Line}
use hwcontrol.Connection.Dispatch.{dispatch}
use hwcontrol.Connection.Dispatch.Writes.{dispatch_safe}
use hwcontrol.Connection.{
  Counters, Bridge, Turn, invalid, unauthenticated, reply, answered, run_command, accepted,
  authentic, decoded, received, handle_request,
}
use hwcontrol.Connection.Gate.{PassesGates, effects_are_gated}

module _ (hmac : Hmac) (secret : String) (decode : List ℕ → Option Command)
    (unmarshal : List ℕ → Option AudioStudioStartRequest) (unquote : String → Option String)
    {S : Type 0} (call : S → Call → Reply × S) (turn : Turn) (counters : Counters)
    (bridge : Bridge S) (cmd : Command) where
  accepted-writes :
      (c : Counters) (b : Bridge S)
      → (accepted hmac secret decode unmarshal unquote call turn cmd c b).writes ≢ []
      → (dispatch unmarshal unquote call cmd turn.seen b.machine).writes ≢ []
  unfolding accepted reply run_command answered
  accepted-writes c b w = ground arith

  authentic-writes :
      (authentic hmac secret decode unmarshal unquote call turn cmd counters bridge).writes ≢ []
      → (dispatch unmarshal unquote call cmd turn.seen bridge.machine).writes ≢ []
  unfolding authentic invalid
  authentic-writes w = ground (
    arith,
    accepted-writes counters (record bridge {
      replay = (consume_command_nonce cmd.nonce turn.consumed_at bridge.replay).1;
    }),
  )

  decoded-writes :
      (decoded hmac secret decode unmarshal unquote call turn (some cmd) counters bridge).writes
        ≢ []
      → (dispatch unmarshal unquote call cmd turn.seen bridge.machine).writes ≢ []
  unfolding decoded invalid unauthenticated
  decoded-writes w = ground (arith, authentic-writes)

  request-writes :
      (line : List ℕ)
      → turn.line ≡ Line.read line
      → decode line ≡ some cmd
      → (handle_request hmac secret decode unmarshal unquote call turn counters bridge).writes ≢ []
      → (dispatch unmarshal unquote call cmd turn.seen bridge.machine).writes ≢ []
  unfolding handle_request received reply
  request-writes line l d w = ground (arith, decoded-writes)

module _ (hmac : Hmac) (secret : String) (decode : List ℕ → Option Command)
    (unmarshal : List ℕ → Option AudioStudioStartRequest) (unquote : String → Option String)
    {S : Type 0} (call : S → Call → Reply × S) (turn : Turn) (counters : Counters)
    (bridge : Bridge S) where
  -- If a turn of the connection writes to a fan, it read a line that decodes to a command; the command
  -- passed every gate; and when it was executed panic mode was off, thermal telemetry was available,
  -- each temperature was absent or valid, and under a critical temperature the speed was 100 or more.
  pub fan_writes_are_safe :
      (handle_request hmac secret decode unmarshal unquote call turn counters bridge).writes ≢ []
      → (line : List ℕ) × (cmd : Command) × (turn.line ≡ Line.read line)
        × (decode line ≡ some cmd)
        × PassesGates hmac secret unmarshal turn counters bridge cmd
        × (turn.seen.observed.panic_mode ≡ false)
        × IsSafeFor turn.seen.observed.safety cmd.value
  fan_writes_are_safe w =
      let (line, cmd, l, d, g) =
        effects_are_gated hmac secret decode unmarshal unquote call turn counters bridge (inl w) in
      let (p, s) = dispatch_safe unmarshal unquote call cmd turn.seen bridge.machine (
        request-writes hmac secret decode unmarshal unquote call turn counters bridge cmd line l d
          w) in
      (line, cmd, l, d, g, p, s)
