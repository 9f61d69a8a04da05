-- ===== src/Connection/Replies.antt =====
-- The responses of a turn of handleConnection (bridge_service/src/main.go), and the end of the
-- connection.
use hwcontrol.Base.{
  Bool, false, ℕ, ◌<◌, String, true, ◌≡◌, List, [], ◌∷◌, Option, none, some, if◌then◌else◌, arith,
}
use hwcontrol.Command.{Command, Hmac}
use hwcontrol.Command.Replay.{consume_command_nonce}
use hwcontrol.Audio.{AudioStudioStartRequest}
use hwcontrol.Power.Linux.{Call, Reply}
use hwcontrol.Connection.Read.{Line}
use hwcontrol.Connection.{
  Counters, Bridge, Turn, Turned, Sent, run_command, answered, reply, invalid, unauthenticated,
  accepted, authentic, decoded, received, handle_request,
}

-- Fewer than five consecutive failures of either kind.
pub record IsBelow (counters : Counters) : Type 0 where
  pub invalid : counters.invalid_requests < 5
  pub unauthenticated : counters.auth_failures < 5

-- The nonces to which responses are bound.
abbrev pub nonces : List Sent → List String
nonces [] = []
nonces (s ∷ rest) = s.request_nonce ∷ nonces rest

-- Where it can be written one response, bound to `nonce`, and else none and the connection closes; and
-- while it stays open both counters are below five.
pub record AnswersOnce {S : Type 0} (written : Bool) (nonce : String) (t : Turned S) : Type 0 where
  pub once : nonces t.sent ≡ (if written then nonce ∷ [] else [])
  pub closes : written ≡ false → t.stays_open ≡ false
  pub below : t.stays_open ≡ true → IsBelow t.counters

module _ (hmac : Hmac) (secret : String) (decode : List ℕ → Option Command)
    (unmarshal : List ℕ → Option AudioStudioStartRequest) (unquote : String → Option String)
    {S : Type 0} (call : S → Call → Reply × S) (turn : Turn) (counters : Counters)
    (bridge : Bridge S) where
  accepted-AnswersOnce :
      (cmd : Command) (b : Bridge S)
      → AnswersOnce turn.written cmd.nonce
          (accepted hmac secret decode unmarshal unquote call turn cmd counters b)
  unfolding accepted reply run_command answered
  accepted-AnswersOnce cmd b = ground arith

  authentic-AnswersOnce :
      (cmd : Command)
      → IsBelow counters
      → AnswersOnce turn.written cmd.nonce
          (authentic hmac secret decode unmarshal unquote call turn cmd counters bridge)
  unfolding authentic invalid
  authentic-AnswersOnce cmd below = ground (
    arith,
    accepted-AnswersOnce cmd (record bridge {
      replay = (consume_command_nonce cmd.nonce turn.consumed_at bridge.replay).1;
    }),
  )

  abbrev nonce_of : Option Command → String
  nonce_of none = ""
  nonce_of (some cmd) = cmd.nonce

  decoded-AnswersOnce :
      (o : Option Command)
      → IsBelow counters
      → AnswersOnce turn.written
          (nonce_of o)
          (decoded hmac secret decode unmarshal unquote call turn o counters bridge)
  unfolding decoded invalid unauthenticated
  decoded-AnswersOnce none below = ground arith
  decoded-AnswersOnce (some cmd) below = ground (arith, authentic-AnswersOnce cmd)

  -- A request line read from a connection with fewer than five consecutive failures of either kind
  -- gets exactly one response where encoding it succeeds; where that fails it gets none, and the
  -- connection is closed. The response is bound to the command's own nonce where the bridge is healthy and
  -- the line decodes, and to the empty nonce otherwise; and if the connection stays open both counts
  -- of failures are below five again.
  pub line_is_answered_once :
      (line : List ℕ)
      → turn.line ≡ Line.read line
      → IsBelow counters
      → AnswersOnce turn.written
          (if turn.integrity_healthy then nonce_of (decode line) else "")
          (handle_request hmac secret decode unmarshal unquote call turn counters bridge)
  unfolding handle_request received reply
  line_is_answered_once line e below = ground (arith, decoded-AnswersOnce (decode line))
