-- ===== src/Command.antt =====
-- The signed command of the bridge protocol (bridge_service/src/main.go): its payload, its HMAC and
-- the check of the HMAC.
pub mod Validate
pub mod Replay
pub mod Window
pub mod Signed
pub mod Strict
use Prim.Native.String
use hwcontrol.Base.{
  ℕ, String, Bool, true, false, not, ◌&&◌, ◌||◌, ◌==◌, List, [], ◌∷◌, Option, none, some, ◌≡◌,
  if◌then◌else◌, str_eq, length,
}
use hwcontrol.Int.{ℤ}
use hwcontrol.Float.{Float64}
use hwcontrol.Float.Format.{format_fixed}
use hwcontrol.Text.Decimal.{format_int}
use hwcontrol.Text.Hex

pub record Command : Type 0 where
  pub action : String
  pub value : Float64
  pub target : String
  pub timestamp : ℤ
  pub nonce : String
  pub auth : String

-- HMAC-SHA256 of a message under a key, as 32 bytes.
pub record Hmac : Type 0 where
  pub sum : String → String → List ℕ
  pub length-sum : (key message : String) → length (sum key message) ≡ 32

infixr 65 ◌<>◌
abbrev pub ◌<>◌ : String → String → String
s <> t = String.◌++◌ s t

unfoldable pub command_payload : Command → String
unfolding format_fixed format_int
command_payload cmd =
    let payload =
      cmd.action
      <> "\n"
      <> format_fixed 6 cmd.value
      <> "\n"
      <> format_int cmd.timestamp
      <> "\n"
      <> cmd.nonce in
    if str_eq cmd.target "" then payload else payload <> "\n" <> cmd.target

-- hmac.Equal
unfoldable pub bytes_equal : List ℕ → List ℕ → Bool
bytes_equal [] [] = true
bytes_equal [] (y ∷ ys) = false
bytes_equal (x ∷ xs) [] = false
bytes_equal (x ∷ xs) (y ∷ ys) = x == y && bytes_equal xs ys

module _ (hmac : Hmac) where
  unfoldable pub sign_command : Command → String → String
  unfolding command_payload Hex.encode
  sign_command cmd secret = Hex.encode (hmac.sum secret (command_payload cmd))

  unfoldable pub authenticate_command : Command → String → Bool
  unfolding command_payload Hex.decode bytes_equal
  authenticate_command cmd secret =
      if str_eq secret "" || str_eq cmd.auth "" then false else elim (Hex.decode cmd.auth) [
        | none ↦ false
        | some provided ↦ bytes_equal (hmac.sum secret (command_payload cmd)) provided
      ]
