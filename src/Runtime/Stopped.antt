-- ===== src/Runtime/Stopped.antt =====
-- What the bridge still does once its service is asked to stop, in any interleaving
-- (bridge_service/src/bridge_runtime.go).
use mathlib.Core.Path.{subst}
use mathlib.Core.Bool.{false≢true}
use hwcontrol.Base.{
  ℕ, ◌+◌, ◌-◌, ◌≤◌, Bool, true, false, ◌≡◌, refl, sym, ap, ◌∙◌, Option, none, some, ltb, arith,
  Bool-cases, inl, inr, if◌then◌else◌,
}
use hwcontrol.Base.Result.{ok, err}
use hwcontrol.Runtime.{
  BridgeService, Running, LoopChecks, LoopTurned, AcceptResult, goes_on, returns, connection,
  timed_out, failed, max_concurrent_connections, stop_requested, ask_service, close_service,
  request_stop, stop_listener, ask_stop, close_listener, shut_down, serve, after_accept, accept_on,
  check_loop, finish_accept,
}
use hwcontrol.Runtime.Steps.{
  Step, passes_checks, accept_returns, handler_ends, stop_asked, listener_closed, Reach, here, next,
}

-- 1 while the loop waits in Accept.
abbrev pub pending : Running → ℕ
pending s = if s.waiting then 1 else 0

abbrev is_turn : {s e : Running} → Step s e → ℕ
is_turn (passes_checks t e w h) = 1
is_turn (accept_returns a e w h) = 1
is_turn (handler_ends slots handlers es eh) = 0
is_turn stop_asked = 0
is_turn listener_closed = 0

-- How often the loop went on: passed its checks, or came back from Accept.
abbrev pub turns : {s e : Running} → Reach s e → ℕ
turns here = 0
turns (next r st) = is_turn st + turns r

-- The head of the loop after the stop.
checks_stopped :
    (t : LoopChecks) (s : Running)
    → stop_requested s.service ≡ true
    → check_loop t s ≡ (
        if t.panic_active
        then returns (err "security panic mode active") (shut_down s)
        else returns (ok tt) s)
unfolding check_loop
checks_stopped t s h = rw h refl

-- A closed listener ends a stopped loop.
closed_returns :
    (a : AcceptResult) (s : Running)
    → stop_requested s.service ≡ true
    → s.listener_open ≡ false
    → finish_accept a s ≡ returns (ok tt) s
unfolding finish_accept after_accept
closed_returns a s h c = rw (c, h) refl

abbrev turn_goes_on : LoopTurned → Bool
turn_goes_on (goes_on s) = true
turn_goes_on (returns r s) = false

no_turn :
    (t : LoopChecks) (s e : Running)
    → stop_requested s.service ≡ true
    → check_loop t s ≡ goes_on e
    → {A : Type 0} → A
no_turn t s e q h =
    absurd
      (false≢true (sym (stopped t.panic_active) ∙ ap turn_goes_on (sym (checks_stopped t s q) ∙ h)))
  where
    stopped :
        (p : Bool)
        → turn_goes_on (
            if p
            then returns (err "security panic mode active") (shut_down s)
            else returns (ok tt) s)
          ≡ false
    stopped true = refl
    stopped false = refl

-- The stop stays requested; `n` bounds the turns and `m` the connections that the bridge can have.
abbrev IsStopping : ℕ → ℕ → Running → Type 0
IsStopping n m s =
    (stop_requested s.service ≡ true) × (pending s ≤ n) × (s.accepted + pending s ≤ m)

asked : (o : Option BridgeService) → stop_requested o ≡ true → stop_requested (ask_service o) ≡ true
unfolding request_stop
asked none h = absurd (false≢true h)
asked (some b) h = refl

closed :
    (o : Option BridgeService) → stop_requested o ≡ true → stop_requested (close_service o) ≡ true
unfolding stop_listener
closed none h = absurd (false≢true h)
closed (some b) h = h

served_counts :
    (s : Running)
    → ((serve s).service ≡ s.service)
      × ((serve s).waiting ≡ s.waiting)
      × ((serve s).accepted ≤ s.accepted + 1)
unfolding serve
served_counts s = elim (Bool-cases (ltb s.slots max_concurrent_connections)) [
  | inl l ↦ rw l (refl, refl, omega arith)
  | inr l ↦ rw l (refl, refl, omega arith)
]

-- What Accept leaves of a loop that waited in it, where it goes on.
abbrev Finishes : Running → LoopTurned → Type 0
Finishes s (returns r m) = Unit
Finishes s (goes_on m) =
    (m.service ≡ s.service) × (m.waiting ≡ false) × (m.accepted ≤ s.accepted + 1)

accept-Finishes : (a : AcceptResult) (s : Running) → Finishes s (after_accept s a)
unfolding after_accept
accept-Finishes connection s = served_counts (record s { waiting = false })
accept-Finishes timed_out s = (refl, refl, omega arith)
accept-Finishes (failed e) s = elim (Bool-cases (stop_requested s.service)) [
  | inl l ↦ rw l tt
  | inr l ↦ rw l tt
]

finish_accept-Finishes : (a : AcceptResult) (s : Running) → Finishes s (finish_accept a s)
unfolding finish_accept
finish_accept-Finishes a s = accept-Finishes (accept_on s.listener_open a) s

asked-IsStopping : (n m : ℕ) (s : Running) → IsStopping n m s → IsStopping n m (ask_stop s)
unfolding ask_stop
asked-IsStopping n m s h = (asked s.service h.0, h.1, h.2)

closed-IsStopping : (n m : ℕ) (s : Running) → IsStopping n m s → IsStopping n m (close_listener s)
unfolding close_listener
closed-IsStopping n m s h = (closed s.service h.0, h.1, h.2)

pending_of : (w : Bool) → w ≡ false → ◌≡◌ {A = ℕ} (if w then 1 else 0) 0
pending_of true h = cc
pending_of false h = refl

pending_of_true : (w : Bool) → w ≡ true → ◌≡◌ {A = ℕ} (if w then 1 else 0) 1
pending_of_true true h = refl
pending_of_true false h = cc

-- A step uses up the turns it makes.
Step-IsStopping :
    {n m : ℕ} {s e : Running} (st : Step s e)
    → IsStopping n m s
    → (k : ℕ) × (is_turn st + k ≡ n) × IsStopping k m e
Step-IsStopping {n} {m} {s} (passes_checks t e w h) b = no_turn t s e b.0 h
Step-IsStopping {n} {m} {s} {e} (accept_returns a _ w h) b =
    let (same, done, count) = subst (Finishes s) h (finish_accept-Finishes a s) in
    let idle = pending_of e.waiting done in
    let busy = pending_of_true s.waiting w in
    (
      n - 1,
      omega (arith, busy, b.1),
      (ap stop_requested same ∙ b.0, omega (arith, idle), omega (arith, idle, busy, count, b.2)),
    )
Step-IsStopping {n} (handler_ends slots handlers es eh) b = (n, omega arith, b)
Step-IsStopping {n} {m} {s} stop_asked b = (n, omega arith, asked-IsStopping n m s b)
Step-IsStopping {n} {m} {s} listener_closed b = (n, omega arith, closed-IsStopping n m s b)

Reach-IsStopping :
    {n m : ℕ} {s e : Running}
    → IsStopping n m s
    → (r : Reach s e) → (k : ℕ) × (turns r + k ≡ n) × IsStopping k m e
Reach-IsStopping {n} b here = (n, omega arith, b)
Reach-IsStopping {n} b (next r st) =
    let (k, spent, b') = Reach-IsStopping b r in
    let (l, step, b'') = Step-IsStopping st b' in (l, omega (arith, spent, step), b'')

-- Once the service is asked to stop, whatever steps follow: the loop goes on at most once more, and
-- only if it waited in Accept, from which it accepts at most one connection. The next time it is at
-- its head it returns, with no error, or with the panic error in panic mode; and where the listener is
-- closed Accept ends it, with no error.
pub stopped_bridge_returns :
    (s e : Running) (t : LoopChecks) (a : AcceptResult)
    → stop_requested s.service ≡ true
    → (r : Reach s e)
    → (turns r + pending e ≤ pending s)
      × (e.accepted + pending e ≤ s.accepted + pending s)
      × (check_loop t e ≡ (
          if t.panic_active
          then returns (err "security panic mode active") (shut_down e)
          else returns (ok tt) e))
      × (e.listener_open ≡ false → finish_accept a e ≡ returns (ok tt) e)
stopped_bridge_returns s e t a h r =
    let (k, spent, stopping) =
      Reach-IsStopping {n = pending s} {m = s.accepted + pending s} (h, omega arith, omega arith)
        r in
    (
      omega (arith, spent, stopping.1),
      stopping.2,
      checks_stopped t e stopping.0,
      λ c. closed_returns a e stopping.0 c,
    )
