-- ===== src/Command/Signed.antt =====
-- signCommand against authenticateCommand of bridge_service/src/main.go.
use hwcontrol.Base.{
  ℕ, String, true, false, ◌≡◌, refl, List, [], ◌∷◌, Option, none, some, length, str_eq, arith, ap,
  eq_iff, Bool-cases, inl, inr,
}
use hwcontrol.Command.{
  Command, Hmac, bytes_equal, command_payload, sign_command, authenticate_command,
}
use hwcontrol.Text.Hex
use hwcontrol.Text.Hex.Laws.{are_bytes, decode-encode}

pub bytes_equal_refl : (bs : List ℕ) → bytes_equal bs bs ≡ true
unfolding bytes_equal
bytes_equal_refl [] = refl
bytes_equal_refl (b ∷ bs) = ground (arith, bytes_equal_refl bs)

abbrev count : Option (List ℕ) → ℕ
count none = 0
count (some bs) = length bs

-- A text that decodes to 32 bytes is not empty.
encode_not_empty :
    (bs : List ℕ) → are_bytes bs ≡ true → length bs ≡ 32 → str_eq (Hex.encode bs) "" ≡ false
unfolding Hex.decode
encode_not_empty bs h l = elim (Bool-cases (str_eq (Hex.encode bs) "")) [
  | inl e ↦
      let p : count (Hex.decode (Hex.encode bs)) ≡ 0 =
        ap (λ s. count (Hex.decode s)) ((eq_iff (Hex.encode bs) "").0 e) in
      absurd (omega (arith, p, ap count (decode-encode bs h), l))
  | inr e ↦ e
]

-- A command that carries its own signature under a secret that is not empty passes the check under
-- that secret. The MAC is assumed to give bytes.
pub signed_command_authenticates :
    (hmac : Hmac) (cmd : Command) (secret : String)
    → ((key message : String) → are_bytes (hmac.sum key message) ≡ true)
    → str_eq secret "" ≡ false
    → authenticate_command hmac (record cmd { auth = sign_command hmac cmd secret }) secret ≡ true
unfolding authenticate_command sign_command command_payload
signed_command_authenticates hmac cmd secret bytes s =
    let tag = hmac.sum secret (command_payload cmd) in
    rw
      (
        authenticate_command,
        sign_command,
        s,
        encode_not_empty tag (bytes secret (command_payload cmd))
            (hmac.length-sum secret (command_payload cmd)),
        decode-encode tag (bytes secret (command_payload cmd)),
      )
      (bytes_equal_refl tag)
