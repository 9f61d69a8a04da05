-- ===== src/Response.antt =====
-- The signed response of the bridge protocol (bridge_service/src/main.go): its length-prefixed
-- payload, its HMAC and the check of the HMAC. `data_json` is the JSON text of the data field.
pub mod Unambiguous
pub mod Signed
use Prim.Native.String
use hwcontrol.Base.{
  ℕ, String, Bool, true, false, not, ◌&&◌, ◌||◌, ◌==◌, ◌≡◌, List, [], ◌∷◌, Option, none, some,
  if◌then◌else◌, str_eq, length,
}
use hwcontrol.Base.Result.{Result, ok, err}
use hwcontrol.Command.{Hmac, ◌<>◌, bytes_equal}
use hwcontrol.Text.Decimal.{decimal}
use hwcontrol.Text.Hex

pub record Response : Type 0 where
  pub status : String
  pub message : String
  pub data_json : String
  pub request_nonce : String
  pub auth : String

-- "%d:" of the byte length, then the field.
unfoldable pub prefixed : String → String
unfolding decimal
prefixed field = decimal (String.len field) <> ":" <> field

unfoldable pub response_payload : Response → String
unfolding prefixed
response_payload response =
    prefixed response.request_nonce
    <> prefixed response.status
    <> prefixed response.message
    <> prefixed response.data_json

module _ (hmac : Hmac) where
  unfoldable pub sign_response : Response → String → Result String
  unfolding response_payload Hex.encode
  sign_response response secret =
      if str_eq secret ""
      then err "response signing secret is empty"
      else ok (Hex.encode (hmac.sum secret (response_payload response)))

  -- The comparison of the decoded tags.
  unfoldable pub compare_tags : Option (List ℕ) → Result String → Bool
  unfolding Hex.decode bytes_equal
  compare_tags none expected = false
  compare_tags (some provided) (err e) = false
  compare_tags (some provided) (ok expected) =
      if not (length provided == 32)
      then false
      else elim (Hex.decode expected) [ none ↦ false | some decoded ↦ bytes_equal decoded provided ]

  unfoldable pub authenticate_response : Response → String → String → Bool
  unfolding compare_tags sign_response
  authenticate_response response secret expected_nonce =
      if str_eq secret ""
        || str_eq expected_nonce ""
        || not (str_eq response.request_nonce expected_nonce)
      then false
      else compare_tags (Hex.decode response.auth) (sign_response response secret)
