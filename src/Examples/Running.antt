-- ===== src/Examples/Running.antt =====
-- A bridge that is stopped, and one that has just started.
use hwcontrol.Base.{
  ◌+◌, ◌&&◌, [], ◌∷◌, all, length, ◌≤◌, true, false, ◌≡◌, refl, some, if◌then◌else◌,
}
use hwcontrol.Base.Result.{ok, err, is_ok}
use hwcontrol.Files.{FileStatus, FileView}
use hwcontrol.Guardian.{canary_digest, expected_canary_digest, run_guardian}
use hwcontrol.Guardian.Watch.{is_expected, guardian_detects_change}
use hwcontrol.Runtime.{
  Running, LoopChecks, Start, returns, connection, timed_out, check_loop, finish_accept, ask_stop,
  shut_down, start_bridge, max_concurrent_connections, new_bridge_service,
}
use hwcontrol.Runtime.Steps.{
  passes_checks, accept_returns, stop_asked, Reach, here, next, handlers_bounded,
}
use hwcontrol.Runtime.Stopped.{turns, pending, stopped_bridge_returns}

abbrev started : Running
started = record {
  service = some (record { stop_closed = false; ready_closed = true; listening = true });
  listener_open = true;
  waiting = false;
  slots = 0;
  handlers = 0;
  accepted = 0;
}

abbrev all_well : Start
all_well = record { secret = ok "k"; canary = ok tt; monitor = ok tt; endpoint = ok "socket" }

abbrev well : LoopChecks
well = record { panic_active = false; context_done = false }

abbrev accepting : Running
accepting = record started { waiting = true }

abbrev served : Running
served = record started { slots = 1; handlers = 1; accepted = 1 }

handlers_bounded_example :
    ((ask_stop served).handlers ≡ (ask_stop served).slots)
    × ((ask_stop served).slots ≤ max_concurrent_connections)
unfolding start_bridge check_loop finish_accept
handlers_bounded_example =
    handlers_bounded all_well (some new_bridge_service) started (ask_stop served) refl (
      next
        (next (next here (passes_checks well accepting refl refl))
          (accept_returns connection served refl refl))
        stop_asked)

-- Asked to stop while it waits in Accept, and a connection comes.
abbrev stopping : Running
stopping = record accepting {
  service = some (record { stop_closed = true; ready_closed = true; listening = true });
}

abbrev last_served : Running
last_served = record stopping { waiting = false; slots = 1; handlers = 1; accepted = 1 }

last_turn : Reach stopping last_served
unfolding finish_accept
last_turn = next here (accept_returns connection last_served refl refl)

stopped_bridge_returns_example :
    (turns last_turn + pending last_served ≤ pending stopping)
    × (last_served.accepted + pending last_served ≤ stopping.accepted + pending stopping)
    × (check_loop well last_served ≡ (
        if well.panic_active
        then returns (err "security panic mode active") (shut_down last_served)
        else returns (ok tt) last_served))
    × (last_served.listener_open ≡ false
        → finish_accept timed_out last_served ≡ returns (ok tt) last_served)
stopped_bridge_returns_example =
    stopped_bridge_returns stopping last_served well timed_out refl last_turn

abbrev intact : FileView
intact = record { status = FileStatus.regular 64 384; contents = ok expected_canary_digest }

abbrev replaced : FileView
replaced = record { status = FileStatus.symlink; contents = ok expected_canary_digest }

guardian_detects_change_example :
    (is_ok (run_guardian (λ text. text) (ok tt) intact (intact ∷ replaced ∷ [])).0 ≡ (
      true
      && is_expected (canary_digest (λ text. text) intact)
      && all (λ view. is_expected (canary_digest (λ text. text) view)) (intact ∷ replaced ∷ [])))
    × (length (run_guardian (λ text. text) (ok tt) intact (intact ∷ replaced ∷ [])).1 ≡ (
        if is_ok (run_guardian (λ text. text) (ok tt) intact (intact ∷ replaced ∷ [])).0
        then 0
        else 1))
guardian_detects_change_example =
    guardian_detects_change (λ text. text) (ok tt) intact (intact ∷ replaced ∷ [])
