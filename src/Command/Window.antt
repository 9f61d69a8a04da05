-- ===== src/Command/Window.antt =====
-- The timestamp window of validateCommand against the lifetime of a nonce in consumeCommandNonce.
use hwcontrol.Base.{ℕ, ◌+◌, ◌≤◌, ◌<◌, String, ◌≡◌, refl, true, false, List, [], ◌∷◌, arith}
use hwcontrol.Int.{ℤ}
use hwcontrol.Command.Replay.{
  ReplayNonces, command_clock_skew, max_replay_nonces, purge, consume_command_nonce,
}
use hwcontrol.Command.Replay.Laws.{
  NonceCall, AllBy, consume_all, is_live, live_count, accepted_once, accepted_iff,
}
use hwcontrol.Command.Validate.{nanoseconds, outside_window}

-- A command whose timestamp lies `d` or more before the time at which its nonce is accepted is not
-- accepted again: where the timestamp passes the window at a time `validated`, and the nonce is
-- consumed at most `d` after that, the nonce is refused, whatever calls come in between and not after
-- its consumption.
pub past_command_runs_once :
    (nonce : String) (timestamp : ℤ) (d now validated t : ℕ) (calls : List NonceCall)
    (cache : ReplayNonces)
    → nanoseconds timestamp + d ≤ now
    → (consume_command_nonce nonce now cache).0 ≡ true
    → outside_window validated timestamp ≡ false
    → t ≤ validated + d
    → AllBy t calls
    → (consume_command_nonce nonce t
        (consume_all calls (consume_command_nonce nonce now cache).1)).0
      ≡ false
unfolding outside_window
past_command_runs_once nonce timestamp d now validated t calls cache past h w soon by =
    accepted_once nonce now t calls cache h (ground arith) by

is_live_later :
    (nonce : String) (now t : ℕ) (m : ReplayNonces)
    → now ≤ t
    → is_live nonce now m ≡ false
    → is_live nonce t m ≡ false
unfolding is_live
is_live_later nonce now t [] h l = refl
is_live_later nonce now t ((key, e) ∷ m) h l = ground (arith, is_live_later nonce now t m)

not_live-purge :
    (nonce : String) (now t : ℕ) (m : ReplayNonces)
    → is_live nonce t m ≡ false
    → is_live nonce t (purge now m) ≡ false
unfolding is_live purge
not_live-purge nonce now t [] l = refl
not_live-purge nonce now t ((key, e) ∷ m) l = ground (arith, not_live-purge nonce now t m)

not_live-consume :
    (nonce : String) (now t : ℕ) (cache : ReplayNonces)
    → now + command_clock_skew < t
    → is_live nonce t cache ≡ false
    → is_live nonce t (consume_command_nonce nonce now cache).1 ≡ false
unfolding consume_command_nonce is_live
not_live-consume nonce now t cache h l = ground (arith, not_live-purge nonce now t cache)

-- A command whose timestamp lies in the future when it is accepted can be accepted a second time:
-- between the expiry of its nonce and the end of its timestamp's window the same command passes both
-- the window and the nonce check, while fewer than 4096 nonces are unexpired.
pub future_command_replays :
    (nonce : String) (timestamp : ℤ) (now t : ℕ) (cache : ReplayNonces)
    → outside_window now timestamp ≡ false
    → (consume_command_nonce nonce now cache).0 ≡ true
    → now + command_clock_skew < t
    → t ≤ nanoseconds timestamp + command_clock_skew
    → live_count t (consume_command_nonce nonce now cache).1 < max_replay_nonces
    → (outside_window t timestamp ≡ false)
      × ((consume_command_nonce nonce t (consume_command_nonce nonce now cache).1).0 ≡ true)
unfolding outside_window
future_command_replays nonce timestamp now t cache w h late within room = (
  ground arith,
  (accepted_iff nonce t (consume_command_nonce nonce now cache).1).1 (
    not_live-consume nonce now t cache late
        (is_live_later nonce now t cache (omega arith) ((accepted_iff nonce now cache).0 h).0),
    room,
  ),
)
