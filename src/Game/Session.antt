-- ===== src/Game/Session.antt =====
-- The session of a game over several polls: bridge_service/src/game_mode.go.
use hwcontrol.Base.{
  ℕ, String, Bool, true, false, ◌==◌, ◌≡◌, refl, ap, ◌∙◌, List, [], ◌∷◌, some, arith,
}
use hwcontrol.Game.{GameSession, no_session, game_session_detected_at}

-- The session after the detected game was looked up at each of the times.
abbrev pub polled : (String → String → Bool) → String → ℕ → List ℕ → GameSession → GameSession
polled fold name pid [] session = session
polled fold name pid (now ∷ rest) session =
    polled fold name pid rest (game_session_detected_at fold name pid true now session).1

abbrev pub started : String → ℕ → ℕ → GameSession
started name pid now = record { process_name = name; pid = pid; detected_at = some now }

same-session :
    (fold : String → String → Bool) (name : String) (pid first now : ℕ)
    → fold name name ≡ true
    → (pid == 0) ≡ false
    → game_session_detected_at fold name pid true now (started name pid first)
      ≡ (some first, started name pid first)
unfolding game_session_detected_at
same-session fold name pid first now hf hp = ground arith

polled-same :
    (fold : String → String → Bool) (name : String) (pid first : ℕ) (later : List ℕ)
    → fold name name ≡ true
    → (pid == 0) ≡ false
    → polled fold name pid later (started name pid first) ≡ started name pid first
polled-same fold name pid first [] hf hp = refl
polled-same fold name pid first (now ∷ later) hf hp =
    ap (λ r. polled fold name pid later r.1) (same-session fold name pid first now hf hp)
    ∙ polled-same fold name pid first later hf hp

first-session :
    (fold : String → String → Bool) (name : String) (pid first : ℕ)
    → (pid == 0) ≡ false
    → game_session_detected_at fold name pid true first no_session
      ≡ (some first, started name pid first)
unfolding game_session_detected_at
first-session fold name pid first hp = ground arith

-- Where a game with a non-zero PID is seen without a session before it, then after any number of later
-- polls that see the same name and PID its session still starts at the first time. The comparison of
-- names is assumed to accept a name against itself.
pub session_start_is_kept :
    (fold : String → String → Bool) (name : String) (pid first : ℕ) (later : List ℕ)
    → fold name name ≡ true
    → (pid == 0) ≡ false
    → polled fold name pid (first ∷ later) no_session ≡ started name pid first
session_start_is_kept fold name pid first later hf hp =
    ap (λ r. polled fold name pid later r.1) (first-session fold name pid first hp)
    ∙ polled-same fold name pid first later hf hp
