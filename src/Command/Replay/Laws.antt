-- ===== src/Command/Replay/Laws.antt =====
-- consumeCommandNonce over any number of calls: bridge_service/src/main.go.
use hwcontrol.Base.{
  ℕ, suc, ◌+◌, ◌≤◌, ◌<◌, String, ◌≡◌, refl, Bool, true, false, ◌&&◌, ◌||◌, List, [], ◌∷◌, arith,
  leb, if◌then◌else◌, str_eq, eq_iff, length, ◌↔◌,
}
use hwcontrol.Command.Replay.{
  ReplayNonces, command_clock_skew, max_replay_nonces, purge, contains_nonce, consume_command_nonce,
}

-- One call of consumeCommandNonce: the nonce and the time.
abbrev pub NonceCall : Type 0
NonceCall = String × ℕ

-- The cache after a row of calls.
unfoldable pub consume_all : List NonceCall → ReplayNonces → ReplayNonces
consume_all [] cache = cache
consume_all ((nonce, now) ∷ calls) cache =
    consume_all calls (consume_command_nonce nonce now cache).1

-- The nonce stands in the cache and expires at `t` or later.
unfoldable pub is_live : String → ℕ → ReplayNonces → Bool
is_live nonce t [] = false
is_live nonce t ((key, expires_at) ∷ m) =
    (str_eq key nonce && leb t expires_at) || is_live nonce t m

-- How many entries have not expired at `t`.
unfoldable pub live_count : ℕ → ReplayNonces → ℕ
live_count t [] = 0
live_count t ((key, expires_at) ∷ m) =
    let rest = live_count t m in if leb t expires_at then suc rest else rest

contains_nonce-purge :
    (nonce : String) (now : ℕ) (m : ReplayNonces)
    → contains_nonce nonce (purge now m) ≡ is_live nonce now m
unfolding contains_nonce purge is_live
contains_nonce-purge nonce now [] = refl
contains_nonce-purge nonce now ((key, e) ∷ m) = ground (arith, contains_nonce-purge nonce now m)

length-purge : (now : ℕ) (m : ReplayNonces) → length (purge now m) ≡ live_count now m
unfolding purge live_count
length-purge now [] = refl
length-purge now ((key, e) ∷ m) = ground (arith, length-purge now m)

is_live-purge :
    (nonce : String) (now t : ℕ) (m : ReplayNonces)
    → now ≤ t
    → is_live nonce t m ≡ true
    → is_live nonce t (purge now m) ≡ true
unfolding purge is_live
is_live-purge nonce now t [] h l = l
is_live-purge nonce now t ((key, e) ∷ m) h l = ground (arith, is_live-purge nonce now t m)

is_live-consume :
    (nonce other : String) (now t : ℕ) (cache : ReplayNonces)
    → now ≤ t
    → is_live nonce t cache ≡ true
    → is_live nonce t (consume_command_nonce other now cache).1 ≡ true
unfolding consume_command_nonce is_live
is_live-consume nonce other now t cache h l = ground (arith, is_live-purge nonce now t cache)

-- Every call comes at `t` or earlier.
abbrev pub AllBy : ℕ → List NonceCall → Type 0
AllBy t [] = Unit {0}
AllBy t ((nonce, now) ∷ calls) = (now ≤ t) × AllBy t calls

is_live-consume_all :
    (calls : List NonceCall) (nonce : String) (t : ℕ) (cache : ReplayNonces)
    → AllBy t calls
    → is_live nonce t cache ≡ true
    → is_live nonce t (consume_all calls cache) ≡ true
unfolding consume_all
is_live-consume_all [] nonce t cache h l = l
is_live-consume_all ((other, now) ∷ calls) nonce t cache h l =
    is_live-consume_all calls nonce t (consume_command_nonce other now cache).1 h.1
      (is_live-consume nonce other now t cache h.0 l)

is_live-accepted :
    (nonce : String) (now t : ℕ) (cache : ReplayNonces)
    → (consume_command_nonce nonce now cache).0 ≡ true
    → t ≤ now + command_clock_skew
    → is_live nonce t (consume_command_nonce nonce now cache).1 ≡ true
unfolding consume_command_nonce is_live
is_live-accepted nonce now t cache h b = ground (arith, eq_iff nonce nonce)

refused_of_live :
    (nonce : String) (t : ℕ) (cache : ReplayNonces)
    → is_live nonce t cache ≡ true
    → (consume_command_nonce nonce t cache).0 ≡ false
unfolding consume_command_nonce
refused_of_live nonce t cache l = ground (arith, contains_nonce-purge nonce t cache)

-- A nonce is accepted exactly when no unexpired entry has it and fewer than 4096 entries are
-- unexpired.
pub accepted_iff :
    (nonce : String) (now : ℕ) (cache : ReplayNonces)
    → ((consume_command_nonce nonce now cache).0 ≡ true)
      ↔ ((is_live nonce now cache ≡ false) × (live_count now cache < max_replay_nonces))
unfolding consume_command_nonce
accepted_iff nonce now cache = (
  (λ h. ground (arith, contains_nonce-purge nonce now cache, length-purge now cache)),
  (λ h. ground (arith, contains_nonce-purge nonce now cache, length-purge now cache)),
)

-- An accepted nonce is refused at every time up to 30 seconds after it was accepted, whatever calls
-- come in between, if none of those comes later than that time.
pub accepted_once :
    (nonce : String) (now t : ℕ) (calls : List NonceCall) (cache : ReplayNonces)
    → (consume_command_nonce nonce now cache).0 ≡ true
    → t ≤ now + command_clock_skew
    → AllBy t calls
    → (consume_command_nonce nonce t
        (consume_all calls (consume_command_nonce nonce now cache).1)).0
      ≡ false
accepted_once nonce now t calls cache h b by =
    refused_of_live nonce t (consume_all calls (consume_command_nonce nonce now cache).1) (
      is_live-consume_all calls nonce t (consume_command_nonce nonce now cache).1 by
        (is_live-accepted nonce now t cache h b))

length-purge-le : (now : ℕ) (m : ReplayNonces) → length (purge now m) ≤ length m
unfolding purge
length-purge-le now [] = omega arith
length-purge-le now ((key, e) ∷ m) = ground (arith, length-purge-le now m)

length-consume :
    (nonce : String) (now : ℕ) (cache : ReplayNonces)
    → length cache ≤ max_replay_nonces
    → length (consume_command_nonce nonce now cache).1 ≤ max_replay_nonces
unfolding consume_command_nonce
length-consume nonce now cache h = ground (arith, length-purge-le now cache)

-- However many calls are made, the cache holds at most 4096 entries if it did at the start.
length-consume_all :
    (calls : List NonceCall) (cache : ReplayNonces)
    → length cache ≤ max_replay_nonces
    → length (consume_all calls cache) ≤ max_replay_nonces
unfolding consume_all
length-consume_all [] cache h = h
length-consume_all ((nonce, now) ∷ calls) cache h =
    length-consume_all calls (consume_command_nonce nonce now cache).1
      (length-consume nonce now cache h)
