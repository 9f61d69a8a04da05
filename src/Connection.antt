-- ===== src/Connection.antt =====
-- handleConnection of bridge_service/src/main.go: one turn of its loop, as a function from the state
-- of the connection and of the bridge to the new state, the responses and the writes it made.
pub mod Read
pub mod Dispatch
pub mod Gate
pub mod Replies
pub mod Writes
use hwcontrol.Base.{
  ℕ, ◌+◌, ◌-◌, String, Bool, true, false, not, ◌&&◌, ◌||◌, ◌≡◌, List, [], ◌∷◌, ◌++◌, Option, none,
  some, ltb, leb, if◌then◌else◌, str_eq,
}
use hwcontrol.Base.Result.{Result, ok, err}
use hwcontrol.Command.{Command, Hmac, authenticate_command}
use hwcontrol.Command.Replay.{ReplayNonces, consume_command_nonce}
use hwcontrol.Command.Validate.{validate_command, one_of}
use hwcontrol.Audio.{AudioStudioStartRequest}
use hwcontrol.Fan.{PwmWrite}
use hwcontrol.Power.Linux.{Call, Reply}
use hwcontrol.Execute.{Observed, Machine}
use hwcontrol.Connection.Read.{Line}
use hwcontrol.Connection.Dispatch.{Answer, Answered, Payload, Seen, dispatch}

-- The variables of the loop; `none` is the zero time.
pub record Counters : Type 0 where
  pub auth_failures : ℕ
  pub invalid_requests : ℕ
  pub last_command_at : Option ℕ

-- The state that the connections of one bridge share.
pub record Bridge (S : Type 0) : Type 0 where
  pub replay : ReplayNonces
  pub machine : Machine S

-- What one turn reads from outside: the line, the integrity flag, the clock at each time.Now(), the
-- panic file, whether encoding the response succeeds (its signature, its JSON and the write), and what
-- the handlers see.
pub record Turn : Type 0 where
  pub line : Line
  pub integrity_healthy : Bool
  pub validated_at : ℕ
  pub consumed_at : ℕ
  pub now : ℕ
  pub panic_mode : Bool
  pub written : Bool
  pub seen : Seen

-- A response as it is encoded: bound to the nonce of the request.
pub record Sent : Type 0 where
  pub request_nonce : String
  pub answer : Answer

pub record Turned (S : Type 0) : Type 0 where
  pub stays_open : Bool
  pub counters : Counters
  pub bridge : Bridge S
  pub sent : List Sent
  pub writes : List PwmWrite

abbrev pub max_failures : ℕ
max_failures = 5

abbrev pub minimum_command_interval : ℕ
minimum_command_interval = 100000000

abbrev pub new_connection : Counters
new_connection = record { auth_failures = 0; invalid_requests = 0; last_command_at = none }

abbrev pub failure : String → Answer
failure message = record { status = "ERROR"; message = message; payload = none }

-- The actions that stay available in panic mode.
abbrev pub panic_actions : List String
panic_actions =
    "Get Status" ∷ "Get Security" ∷ "Get Diagnostics" ∷ "Get Health" ∷ "Get Game Mode"
    ∷ "Get Update" ∷ "Get Sensor Health" ∷ "Get Sensor History" ∷ "Get Fan Channels"
    ∷ "Get Fetch Status" ∷ "Get Power Mode" ∷ "Get Audio Devices" ∷ []

unfoldable pub allowed_in_panic : String → Bool
allowed_in_panic action = one_of action panic_actions

-- now.Sub(lastCommandAt) < minimumCommandInterval, once a command was seen.
unfoldable pub too_soon : ℕ → Option ℕ → Bool
too_soon now none = false
too_soon now (some last) = ltb now (last + minimum_command_interval)

module _ {S : Type 0} where
  -- A response that is not written counts as none.
  unfoldable pub reply : Turn → Bool → String → Answer → Counters → Bridge S → Turned S
  reply turn stay nonce answer counters bridge = record {
    stays_open = stay;
    counters = counters;
    bridge = bridge;
    sent = if turn.written then record { request_nonce = nonce; answer = answer } ∷ [] else [];
    writes = [];
  }

  unfoldable pub drop_connection : Counters → Bridge S → Turned S
  drop_connection counters bridge = record {
    stays_open = false;
    counters = counters;
    bridge = bridge;
    sent = [];
    writes = [];
  }

  -- A request that cannot be decoded, is invalid, or whose nonce is rejected.
  unfoldable pub invalid : Turn → String → String → Counters → Bridge S → Turned S
  unfolding reply
  invalid turn nonce message counters bridge =
      let n = counters.invalid_requests + 1 in
      reply turn (turn.written && ltb n max_failures) nonce (failure message)
        (record counters { invalid_requests = n }) bridge

  unfoldable pub unauthenticated : Turn → String → Counters → Bridge S → Turned S
  unfolding reply
  unauthenticated turn nonce counters bridge =
      let n = counters.auth_failures + 1 in
      reply turn (turn.written && ltb n max_failures) nonce (failure "authentication failed")
        (record counters { auth_failures = n }) bridge

  unfoldable pub answered : Turn → String → Counters → Bridge S → Answered S → Turned S
  unfolding reply
  answered turn nonce counters bridge result =
      record (reply turn turn.written nonce result.answer counters
        (record bridge { machine = result.machine })) { writes = result.writes }

module _ (hmac : Hmac) (secret : String) (decode : List ℕ → Option Command)
    (unmarshal : List ℕ → Option AudioStudioStartRequest) (unquote : String → Option String)
    {S : Type 0} (call : S → Call → Reply × S) where
  -- A command that passed the rate limit.
  unfoldable pub run_command : Turn → Command → Counters → Bridge S → Turned S
  run_command turn cmd counters bridge =
      answered turn cmd.nonce (record counters { last_command_at = some turn.now }) bridge
        (dispatch unmarshal unquote call cmd turn.seen bridge.machine)

  -- A command whose nonce was accepted: the counters are reset, then panic mode and the rate limit.
  unfoldable pub accepted : Turn → Command → Counters → Bridge S → Turned S
  accepted turn cmd counters bridge =
      let counters' = record counters { invalid_requests = 0; auth_failures = 0 } in
      if turn.panic_mode && not (allowed_in_panic cmd.action)
      then reply turn turn.written cmd.nonce
          (failure "security panic mode active; hardware-control request denied") counters' bridge
      else if too_soon turn.now counters'.last_command_at
      then reply turn turn.written cmd.nonce (failure "command rate limit exceeded") counters'
          bridge
      else run_command turn cmd counters' bridge

  -- A command that is valid and authentic.
  unfoldable pub authentic : Turn → Command → Counters → Bridge S → Turned S
  authentic turn cmd counters bridge =
      let (fresh, replay) = consume_command_nonce cmd.nonce turn.consumed_at bridge.replay in
      let bridge' = record bridge { replay = replay } in
      if not fresh
      then invalid turn cmd.nonce "nonce rejected by replay protection" counters bridge'
      else accepted turn cmd counters bridge'

  unfoldable pub decoded : Turn → Option Command → Counters → Bridge S → Turned S
  decoded turn none counters bridge = invalid turn "" "invalid request" counters bridge
  decoded turn (some cmd) counters bridge =
      elim (validate_command unmarshal turn.validated_at cmd) [
        | err e ↦ invalid turn cmd.nonce e counters bridge
        | ok _ ↦
            if not (authenticate_command hmac cmd secret)
            then unauthenticated turn cmd.nonce counters bridge
            else authentic turn cmd counters bridge
      ]

  unfoldable pub received : Turn → List ℕ → Counters → Bridge S → Turned S
  received turn line counters bridge =
      if not turn.integrity_healthy
      then reply turn false "" (failure "bridge integrity check failed; service is fail-closed")
          counters bridge
      else decoded turn (decode line) counters bridge

  -- One turn of the loop.
  unfoldable pub handle_request : Turn → Counters → Bridge S → Turned S
  handle_request turn counters bridge = elim turn.line [
    | Line.failed ↦ drop_connection counters bridge
    | Line.too_large ↦ reply turn false "" (failure "request too large") counters bridge
    | Line.read line ↦ received turn line counters bridge
  ]

  -- The loop: it ends with the connection, or with the turns.
  unfoldable pub handle_connection :
      List Turn → Counters → Bridge S → Counters × Bridge S × List Sent
  handle_connection [] counters bridge = (counters, bridge, [])
  handle_connection (turn ∷ turns) counters bridge =
      let t = handle_request turn counters bridge in
      let rest = handle_connection turns t.counters t.bridge in
      if t.stays_open then (rest.0, rest.1, t.sent ++ rest.2) else (t.counters, t.bridge, t.sent)
