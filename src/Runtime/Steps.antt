-- ===== src/Runtime/Steps.antt =====
-- The accept loop among the handlers, stops and closings of the listener, in any interleaving
-- (bridge_service/src/bridge_runtime.go).
use mathlib.Core.Path.{subst}
use hwcontrol.Base.{
  ℕ, suc, ◌≤◌, true, false, ◌≡◌, refl, ap, Option, ltb, ltb→lt, arith, Bool-cases, inl, inr,
}
use hwcontrol.Base.Result.{Result, ok, err, Result-cases}
use hwcontrol.Runtime.{
  BridgeService, Running, LoopChecks, LoopTurned, AcceptResult, Start, goes_on, returns, connection,
  timed_out, failed, max_concurrent_connections, stop_requested, ask_stop, close_listener, serve,
  after_accept, accept_on, check_loop, finish_accept, start_bridge,
}

-- One step: the loop passes its checks and waits in Accept, or Accept returns and the loop goes on; a
-- handler ends and gives its slot back; or the service is asked to stop, or its listener is closed, by
-- the integrity monitor or by the service's owner.
pub data Step (s : Running) : Running → Type 0 where
  passes_checks :
      (t : LoopChecks) (s' : Running) → s.waiting ≡ false → check_loop t s ≡ goes_on s' → Step s s'
  accept_returns :
      (a : AcceptResult) (s' : Running)
      → s.waiting ≡ true
      → finish_accept a s ≡ goes_on s'
      → Step s s'
  handler_ends :
      (slots handlers : ℕ)
      → s.slots ≡ suc slots
      → s.handlers ≡ suc handlers
      → Step s (record s { slots = slots; handlers = handlers })
  stop_asked : Step s (ask_stop s)
  listener_closed : Step s (close_listener s)

pub data Reach (s : Running) : Running → Type 0 where
  here : Reach s s
  next : {m e : Running} → Reach s m → Step m e → Reach s e

-- Every handler has a slot, and there are at most 64.
abbrev pub IsBounded : Running → Type 0
IsBounded s = (s.handlers ≡ s.slots) × (s.slots ≤ max_concurrent_connections)

goes_on-path : {s s' : Running} → goes_on s ≡ goes_on s' → s ≡ s'
goes_on-path {s} h = ap state h
  where
    state : LoopTurned → Running
    state (goes_on m) = m
    state (returns r m) = s

serve-IsBounded : (s : Running) → IsBounded s → IsBounded (serve s)
unfolding serve
serve-IsBounded s h = elim (Bool-cases (ltb s.slots max_concurrent_connections)) [
  | inl l ↦ rw l (ap suc h.0, omega (arith, ltb→lt s.slots max_concurrent_connections l))
  | inr l ↦ rw l h
]

-- What a turn that goes on does.
abbrev StaysBounded : Running → LoopTurned → Type 0
StaysBounded s (returns r m) = Unit
StaysBounded s (goes_on m) = IsBounded s → IsBounded m

accept_kept : (s : Running) (a : AcceptResult) → StaysBounded s (after_accept s a)
unfolding after_accept
accept_kept s connection = serve-IsBounded (record s { waiting = false })
accept_kept s timed_out = λ h. h
accept_kept s (failed e) = elim (Bool-cases (stop_requested s.service)) [
  | inl l ↦ rw l tt
  | inr l ↦ rw l tt
]

checks_kept : (t : LoopChecks) (s : Running) → StaysBounded s (check_loop t s)
unfolding check_loop
checks_kept t s = elim (Bool-cases t.panic_active) [
  | inl p ↦ rw p tt
  | inr p ↦ elim (Bool-cases (stop_requested s.service)) [
    | inl q ↦ rw (p, q) tt
    | inr q ↦ elim (Bool-cases t.context_done) [
      | inl c ↦ rw (p, q, c) tt
      | inr c ↦ rw (p, q, c) (λ h. h)
    ]
  ]
]

asked_kept : (s : Running) → IsBounded s → IsBounded (ask_stop s)
unfolding ask_stop
asked_kept s h = h

closed_kept : (s : Running) → IsBounded s → IsBounded (close_listener s)
unfolding close_listener
closed_kept s h = h

finish_kept : (a : AcceptResult) (s : Running) → StaysBounded s (finish_accept a s)
unfolding finish_accept
finish_kept a s = accept_kept s (accept_on s.listener_open a)

Step-IsBounded : {s e : Running} → Step s e → IsBounded s → IsBounded e
Step-IsBounded {s} (passes_checks t e w h) b = subst (StaysBounded s) h (checks_kept t s) b
Step-IsBounded {s} (accept_returns a e w h) b = subst (StaysBounded s) h (finish_kept a s) b
Step-IsBounded (handler_ends slots handlers es eh) b =
    (omega (arith, b.0, es, eh), omega (arith, b.1, es))
Step-IsBounded stop_asked b = asked_kept _ b
Step-IsBounded listener_closed b = closed_kept _ b

Reach-IsBounded : {s e : Running} → IsBounded s → Reach s e → IsBounded e
Reach-IsBounded b here = b
Reach-IsBounded b (next r st) = Step-IsBounded st (Reach-IsBounded b r)

abbrev StartedBounded : Result Running → Type 0
StartedBounded (err e) = Unit
StartedBounded (ok s) = IsBounded s

start_bounded :
    (start : Start) (service : Option BridgeService) → StartedBounded (start_bridge start service)
unfolding start_bridge
start_bounded start service = elim (Result-cases start.secret) [
  | inl (e, a) ↦ rw a tt
  | inr (secret, a) ↦ elim (Result-cases start.canary) [
    | inl (e, b) ↦ rw (a, b) tt
    | inr (done, b) ↦ elim (Result-cases start.monitor) [
      | inl (e, c) ↦ rw (a, b, c) tt
      | inr (done, c) ↦ elim (Result-cases start.endpoint) [
        | inl (e, d) ↦ rw (a, b, c, d) tt
        | inr (endpoint, d) ↦ rw (a, b, c, d) (refl, omega arith)
      ]
    ]
  ]
]

-- From its start, through any steps of the loop, ends of handlers, stops and closings of the
-- listener, the bridge has at most 64 connection handlers, each with a slot of its own.
pub handlers_bounded :
    (start : Start) (service : Option BridgeService) (s e : Running)
    → start_bridge start service ≡ ok s
    → Reach s e
    → (e.handlers ≡ e.slots) × (e.slots ≤ max_concurrent_connections)
handlers_bounded start service s e h r =
    Reach-IsBounded (subst StartedBounded h (start_bounded start service)) r
