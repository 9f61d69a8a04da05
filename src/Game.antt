-- ===== src/Game.antt =====
-- Game mode: bridge_service/src/game_mode.go. Times are nanoseconds; `none` is the zero time.
pub mod Session
use hwcontrol.Base.{
  ℕ, ◌+◌, ◌-◌, ◌/◌, ◌≤◌, String, Bool, true, false, not, ◌&&◌, ◌||◌, ◌==◌, ◌≡◌, List, [], ◌∷◌, map,
  Option, none, some, ltb, leb, if◌then◌else◌, str_eq,
}
use hwcontrol.Int.{ℤ, pos, pos_part, leb_ℤ}

pub record GameSession : Type 0 where
  pub process_name : String
  pub pid : ℕ
  pub detected_at : Option ℕ

abbrev pub no_session : GameSession
no_session = record { process_name = ""; pid = 0; detected_at = none }

-- `equal_fold` is strings.EqualFold.
module _ (equal_fold : String → String → Bool) where
  abbrev is_none : Option ℕ → Bool
  is_none none = true
  is_none (some t) = false

  -- The new session; its start is what the function formats and returns.
  unfoldable pub game_session_detected_at :
      String → ℕ → Bool → ℕ → GameSession → Option ℕ × GameSession
  game_session_detected_at name pid detected now session =
      if not detected || pid == 0
      then (none, no_session)
      else let fresh : GameSession = record {
        process_name = name;
        pid = pid;
        detected_at = some now;
      } in
        if not (session.pid == pid)
          || not (equal_fold session.process_name name)
          || is_none session.detected_at
        then (some now, fresh)
        else (session.detected_at, session)

unfoldable pub game_session_duration_seconds : ℕ → GameSession → ℕ
game_session_duration_seconds now session = elim session.detected_at [
  | none ↦ 0
  | some start ↦ if ltb now start then 0 else (now - start) / 1000000000
]

pub record GameModeState : Type 0 where
  pub enabled : Bool
  pub auto_detection : Bool
  pub game_detected : Bool
  pub process_name : String
  pub pid : ℕ
  pub detected_at : Option ℕ
  pub session_duration_seconds : ℕ
  pub optimization_mode : String

unfoldable pub optimization_mode : Bool → Bool → String
optimization_mode enabled detected =
    if enabled && detected
    then "game-active-monitoring"
    else if enabled
    then "game-mode-armed"
    else "monitoring-only"

-- One process of the table: its name, if it can be read, and its PID.
pub record Process : Type 0 where
  pub name : Option String
  pub pid : ℤ

-- The first process that `known` accepts.
unfoldable pub detect_game_process : (String → Bool) → List Process → String × ℕ × Bool
detect_game_process known [] = ("", 0, false)
detect_game_process known (p ∷ rest) =
    let next = detect_game_process known rest in
    elim p.name [
      | none ↦ next
      | some name ↦
          if leb_ℤ p.pid (pos 0) || not (known name) then next else (name, pos_part p.pid, true)
    ]

module _ (equal_fold : String → String → Bool) (known : String → Bool) where
  unfoldable pub collect_game_mode_state :
      Bool → List Process → ℕ → GameSession → GameModeState × GameSession
  unfolding detect_game_process game_session_detected_at game_session_duration_seconds
  collect_game_mode_state enabled processes now session =
      let (name, pid, detected) = detect_game_process known processes in
      let (detected_at, session') =
        game_session_detected_at equal_fold name pid detected now session in
      (
        record {
          enabled = enabled;
          auto_detection = true;
          game_detected = detected;
          process_name = name;
          pid = pid;
          detected_at = detected_at;
          session_duration_seconds = game_session_duration_seconds now session';
          optimization_mode = optimization_mode enabled detected;
        },
        session',
      )
