-- ===== src/Command/Replay.antt =====
-- The cache of accepted nonces: consumeCommandNonce of bridge_service/src/main.go. Times are
-- nanoseconds.
pub mod Laws
use hwcontrol.Base.{
  ℕ, ◌+◌, ◌*◌, ◌≤◌, ◌<◌, String, ◌≡◌, Bool, true, false, ◌||◌, List, [], ◌∷◌, arith, ltb, leb,
  if◌then◌else◌, str_eq, length, any,
}

-- replayNonces: each nonce with the time at which it expires.
abbrev pub ReplayNonces : Type 0
ReplayNonces = List (String × ℕ)

abbrev pub command_clock_skew : ℕ
command_clock_skew = 30000000000

abbrev pub max_replay_nonces : ℕ
max_replay_nonces = 4096

-- The loop that deletes the entries with now.After(expiresAt).
unfoldable pub purge : ℕ → ReplayNonces → ReplayNonces
purge now [] = []
purge now ((key, expires_at) ∷ m) =
    let rest = purge now m in if ltb expires_at now then rest else (key, expires_at) ∷ rest

unfoldable pub contains_nonce : String → ReplayNonces → Bool
contains_nonce nonce [] = false
contains_nonce nonce ((key, expires_at) ∷ m) = str_eq key nonce || contains_nonce nonce m

unfoldable pub consume_command_nonce : String → ℕ → ReplayNonces → Bool × ReplayNonces
unfolding purge contains_nonce
consume_command_nonce nonce now cache =
    let kept = purge now cache in
    if contains_nonce nonce kept
    then (false, kept)
    else if leb max_replay_nonces (length kept)
    then (false, kept)
    else (true, (nonce, now + command_clock_skew) ∷ kept)
