-- ===== src/Connection/Gate.antt =====
-- The gates of handleConnection (bridge_service/src/main.go) and a turn's effects.
use hwcontrol.Base.{
  ℕ, String, true, false, ◌≡◌, ◌≢◌, ◌⊎◌, refl, List, [], Option, none, some, arith,
}
use hwcontrol.Base.Result.{ok}
use hwcontrol.Command.{Command, Hmac, authenticate_command}
use hwcontrol.Command.Replay.{consume_command_nonce}
use hwcontrol.Command.Validate.{validate_command}
use hwcontrol.Audio.{AudioStudioStartRequest}
use hwcontrol.Power.Linux.{Call, Reply}
use hwcontrol.Connection.Read.{Line}
use hwcontrol.Connection.{
  Counters, Bridge, Turn, Turned, allowed_in_panic, too_soon, invalid, unauthenticated, reply,
  drop_connection, accepted, authentic, decoded, received, handle_request,
}

-- The turn wrote to a fan or changed the machine.
abbrev pub HasEffect : {S : Type 0} → Bridge S → Turned S → Type 0
HasEffect bridge t = (t.writes ≢ []) ⊎ (t.bridge.machine ≢ bridge.machine)

module _ (hmac : Hmac) (secret : String) (unmarshal : List ℕ → Option AudioStudioStartRequest)
    {S : Type 0} where
  -- The command is valid, authentic, fresh, not barred by panic mode and within the rate limit.
  pub record PassesGates (turn : Turn) (counters : Counters) (bridge : Bridge S) (cmd : Command)
      : Type 0 where
    pub healthy : turn.integrity_healthy ≡ true
    pub valid : validate_command unmarshal turn.validated_at cmd ≡ ok tt
    pub authenticated : authenticate_command hmac cmd secret ≡ true
    pub fresh : (consume_command_nonce cmd.nonce turn.consumed_at bridge.replay).0 ≡ true
    pub not_panicking : (turn.panic_mode ≡ false) ⊎ (allowed_in_panic cmd.action ≡ true)
    pub in_rate : too_soon turn.now counters.last_command_at ≡ false

module _ (hmac : Hmac) (secret : String) (decode : List ℕ → Option Command)
    (unmarshal : List ℕ → Option AudioStudioStartRequest) (unquote : String → Option String)
    {S : Type 0} (call : S → Call → Reply × S) (turn : Turn) (counters : Counters)
    (bridge : Bridge S) where
  accepted_gate :
      (cmd : Command) (b : Bridge S)
      → HasEffect b (accepted hmac secret decode unmarshal unquote call turn cmd counters b)
      → ((turn.panic_mode ≡ false) ⊎ (allowed_in_panic cmd.action ≡ true))
        × (too_soon turn.now counters.last_command_at ≡ false)
  unfolding accepted reply
  accepted_gate cmd b h = ground arith

  authentic_gate :
      (cmd : Command)
      → HasEffect bridge
          (authentic hmac secret decode unmarshal unquote call turn cmd counters bridge)
      → ((consume_command_nonce cmd.nonce turn.consumed_at bridge.replay).0 ≡ true)
        × ((turn.panic_mode ≡ false) ⊎ (allowed_in_panic cmd.action ≡ true))
        × (too_soon turn.now counters.last_command_at ≡ false)
  unfolding authentic invalid
  authentic_gate cmd h = ground (
    arith,
    accepted_gate cmd (record bridge {
      replay = (consume_command_nonce cmd.nonce turn.consumed_at bridge.replay).1;
    }),
  )

  decoded_gate :
      (cmd : Command)
      → turn.integrity_healthy ≡ true
      → HasEffect bridge
          (decoded hmac secret decode unmarshal unquote call turn (some cmd) counters bridge)
      → PassesGates hmac secret unmarshal turn counters bridge cmd
  unfolding decoded invalid unauthenticated
  decoded_gate cmd healthy h = ground (arith, authentic_gate cmd)

  effect_of_command :
      (o : Option Command)
      → turn.integrity_healthy ≡ true
      → HasEffect bridge (decoded hmac secret decode unmarshal unquote call turn o counters bridge)
      → (cmd : Command) × (o ≡ some cmd)
        × PassesGates hmac secret unmarshal turn counters bridge cmd
  unfolding decoded invalid
  effect_of_command none healthy h = ground arith
  effect_of_command (some cmd) healthy h = (cmd, refl, decoded_gate cmd healthy h)

  -- A turn that writes to a fan or changes the game mode or the power session has read a line that
  -- decodes to a command, and that command passed every gate: integrity, validation, the HMAC, the
  -- nonce cache, panic mode and the rate limit.
  pub effects_are_gated :
      HasEffect bridge
        (handle_request hmac secret decode unmarshal unquote call turn counters bridge)
      → (line : List ℕ) × (cmd : Command) × (turn.line ≡ Line.read line)
        × (decode line ≡ some cmd)
        × PassesGates hmac secret unmarshal turn counters bridge cmd
  unfolding handle_request received reply drop_connection
  effects_are_gated = go turn.line refl
    where
      go :
          (l : Line)
          → turn.line ≡ l
          → HasEffect bridge
              (handle_request hmac secret decode unmarshal unquote call turn counters bridge)
          → (line : List ℕ) × (cmd : Command) × (turn.line ≡ Line.read line)
            × (decode line ≡ some cmd)
            × PassesGates hmac secret unmarshal turn counters bridge cmd
      go Line.failed e h = ground arith
      go Line.too_large e h = ground arith
      go (Line.read line) e h =
          let (cmd, d, g) = effect_of_command (decode line) (ground arith) (ground arith) in
          (line, cmd, e, d, g)
