-- ===== src/Runtime.antt =====
-- The bridge's start and its accept loop: bridge_service/src/bridge_runtime.go.
pub mod Steps
pub mod Stopped
use hwcontrol.Base.{
  ℕ, suc, ◌+◌, ◌-◌, String, Bool, true, false, not, ◌&&◌, Option, none, some, ltb, if◌then◌else◌,
  str_eq,
}
use hwcontrol.Base.Result.{Result, ok, err}
use hwcontrol.Command.{◌<>◌}

-- Whether stopCh and ready are closed, and whether the listener is set.
pub record BridgeService : Type 0 where
  pub stop_closed : Bool
  pub ready_closed : Bool
  pub listening : Bool

abbrev pub new_bridge_service : BridgeService
new_bridge_service = record { stop_closed = false; ready_closed = false; listening = false }

-- sync.Once: a second call changes nothing.
unfoldable pub request_stop : BridgeService → BridgeService
request_stop b = record b { stop_closed = true }

unfoldable pub signal_ready : BridgeService → BridgeService
signal_ready b = record b { ready_closed = true }

unfoldable pub set_listener : BridgeService → BridgeService
set_listener b = record b { listening = true }

-- The listener is closed where it is set, so that Accept returns an error from then on.
unfoldable pub stop_listener : BridgeService → BridgeService
stop_listener b = record b { listening = false }

abbrev pub max_concurrent_connections : ℕ
max_concurrent_connections = 64

-- The service where there is one, the listener (open or closed), whether the loop waits in Accept, the
-- slots taken in the channel, the handlers that run, and the connections handed to a handler so far.
pub record Running : Type 0 where
  pub service : Option BridgeService
  pub listener_open : Bool
  pub waiting : Bool
  pub slots : ℕ
  pub handlers : ℕ
  pub accepted : ℕ

-- What listener.Accept gives within its deadline.
pub data AcceptResult : Type 0 where
  connection : AcceptResult
  timed_out : AcceptResult
  failed : (message : String) → AcceptResult

-- What the checks before Accept read: panic mode after checkDecoyIntegrity, and the context.
pub record LoopChecks : Type 0 where
  pub panic_active : Bool
  pub context_done : Bool

-- The loop goes on, or runBridge returns.
pub data LoopTurned : Type 0 where
  goes_on : Running → LoopTurned
  returns : Result (Unit {0}) → Running → LoopTurned

abbrev pub ask_service : Option BridgeService → Option BridgeService
ask_service none = none
ask_service (some b) = some (request_stop b)

abbrev pub close_service : Option BridgeService → Option BridgeService
close_service none = none
close_service (some b) = some (stop_listener b)

-- The service's listener is the one of the loop.
abbrev pub open_after : Option BridgeService → Bool → Bool
open_after none listener_open = listener_open
open_after (some b) listener_open = if b.listening then false else listener_open

-- service.requestStop
unfoldable pub ask_stop : Running → Running
unfolding request_stop
ask_stop s = record s { service = ask_service s.service }

-- service.stopListener
unfoldable pub close_listener : Running → Running
unfolding stop_listener
close_listener s = record s {
  service = close_service s.service;
  listener_open = open_after s.service s.listener_open;
}

-- Both, in turn, where the loop itself stops the service.
unfoldable pub shut_down : Running → Running
unfolding ask_stop close_listener
shut_down s = close_listener (ask_stop s)

abbrev pub stop_requested : Option BridgeService → Bool
stop_requested none = false
stop_requested (some b) = b.stop_closed

-- A connection takes a slot and gets a handler, or is told that there are too many and closed.
unfoldable pub serve : Running → Running
serve s =
    if ltb s.slots max_concurrent_connections
    then record s { slots = suc s.slots; handlers = suc s.handlers; accepted = suc s.accepted }
    else s

-- Accept on a closed listener fails.
abbrev pub accept_on : Bool → AcceptResult → AcceptResult
accept_on true a = a
accept_on false a = failed "use of closed network connection"

unfoldable pub after_accept : Running → AcceptResult → LoopTurned
unfolding serve
after_accept s connection = goes_on (serve (record s { waiting = false }))
after_accept s timed_out = goes_on (record s { waiting = false })
after_accept s (failed e) =
    if stop_requested s.service
    then returns (ok tt) s
    else returns (err ("listener stopped: " <> e)) s

-- The head of the loop, up to the call of Accept.
unfoldable pub check_loop : LoopChecks → Running → LoopTurned
unfolding shut_down
check_loop t s =
    if t.panic_active
    then returns (err "security panic mode active") (shut_down s)
    else if stop_requested s.service
    then returns (ok tt) s
    else if t.context_done
    then returns (ok tt) s
    else goes_on (record s { waiting = true })

-- The rest of the turn, when Accept returns.
unfoldable pub finish_accept : AcceptResult → Running → LoopTurned
unfolding after_accept
finish_accept a s = after_accept s (accept_on s.listener_open a)

-- The deferred calls of runBridge: the service's listener, then the listener itself.
unfoldable pub leave : Running → Running
leave s = record s { service = closed s.service; listener_open = false }
  where
    closed : Option BridgeService → Option BridgeService
    closed none = none
    closed (some b) = some (record b { listening = false })

-- What the steps of the start return.
pub record Start : Type 0 where
  pub secret : Result String
  pub canary : Result (Unit {0})
  pub monitor : Result (Unit {0})
  pub endpoint : Result String

abbrev ready_service : Option BridgeService → Option BridgeService
ready_service none = none
ready_service (some b) = some (signal_ready (set_listener b))

-- The loop's first state, or the first error.
unfoldable pub start_bridge : Start → Option BridgeService → Result Running
unfolding signal_ready set_listener
start_bridge start service = elim start.secret [
  | err e ↦ err ("initialize bridge secret: " <> e)
  | ok secret ↦ elim start.canary [
    | err e ↦ err ("initialize fetch-status canary: " <> e)
    | ok done ↦ elim start.monitor [
      | err e ↦ err ("initialize bridge integrity monitor: " <> e)
      | ok done ↦ elim start.endpoint [
        | err e ↦ err e
        | ok endpoint ↦ ok (record {
          service = ready_service service;
          listener_open = true;
          waiting = false;
          slots = 0;
          handlers = 0;
          accepted = 0;
        })
      ]
    ]
  ]
]
