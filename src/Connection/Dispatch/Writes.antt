-- ===== src/Connection/Dispatch/Writes.antt =====
-- The writes of the handlers against those of executeHardwareCommand (bridge_service/src/main.go).
use hwcontrol.Base.{ℕ, String, false, ◌≡◌, ◌≢◌, refl, ◌∙◌, List, [], Option, none, some, arith}
use hwcontrol.Base.Result.{Result, ok, err}
use hwcontrol.Command.{Command}
use hwcontrol.Audio.{AudioStudioStartRequest}
use hwcontrol.Thermal.Guards.{IsSafeFor}
use hwcontrol.Power.Linux.{Call, Reply}
use hwcontrol.Execute.{Machine, Executed, execute_hardware_command}
use hwcontrol.Execute.Safety.{writes_are_safe}
use hwcontrol.Connection.Dispatch.{
  Answer, Answered, Seen, only, power_answer, after_execution, answer_or_execute, snapshot_answer,
  dispatch,
}

module _ (unmarshal : List ℕ → Option AudioStudioStartRequest) (unquote : String → Option String)
    {S : Type 0} (call : S → Call → Reply × S) (cmd : Command) (seen : Seen)
    (machine : Machine S) where
  after_execution-writes :
      (result : Result Unit) (done : Executed S)
      → done.result ≡ result
      → (after_execution unquote call cmd done).writes ≡ done.writes
  unfolding after_execution
  after_execution-writes (err e) done h = rw (after_execution, h) refl
  after_execution-writes (ok x) done h = rw (after_execution, h) (ground arith)

  abbrev WritesSafely : Answered S → Type 0
  WritesSafely t =
      t.writes ≢ [] → (seen.observed.panic_mode ≡ false) × IsSafeFor seen.observed.safety cmd.value

  answer_or_execute_safe :
      (o : Option Answer)
      → WritesSafely (answer_or_execute unmarshal unquote call o cmd seen machine)
  unfolding answer_or_execute only
  answer_or_execute_safe (some a) w = absurd (w refl)
  answer_or_execute_safe none w =
      let done = execute_hardware_command unquote call cmd seen.observed machine in
      writes_are_safe unquote call cmd seen.observed machine
        (λ e. w (after_execution-writes done.result done refl ∙ e))

  -- A handler that writes to a fan saw no panic mode, and a safe thermal state for the value.
  pub dispatch_safe : WritesSafely (dispatch unmarshal unquote call cmd seen machine)
  unfolding dispatch only power_answer
  dispatch_safe w = ground (arith, answer_or_execute_safe (snapshot_answer cmd.action))
