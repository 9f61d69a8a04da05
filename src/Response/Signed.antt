-- ===== src/Response/Signed.antt =====
-- signResponse against authenticateResponse of bridge_service/src/main.go.
use hwcontrol.Base.{
  ℕ, String, true, false, ◌≡◌, refl, List, some, length, str_eq, eq_iff, arith, Bool-cases, inl,
  inr,
}
use hwcontrol.Base.Result.{ok}
use hwcontrol.Command.{Hmac}
use hwcontrol.Command.Signed.{bytes_equal_refl}
use hwcontrol.Text.Hex
use hwcontrol.Text.Hex.Laws.{are_bytes, decode-encode}
use hwcontrol.Response.{
  Response, response_payload, sign_response, compare_tags, authenticate_response,
}

str_eq_refl : (s : String) → str_eq s s ≡ true
str_eq_refl s = (eq_iff s s).1 refl

module _ (hmac : Hmac) where
  compare_tags-encode :
      (bs : List ℕ)
      → are_bytes bs ≡ true
      → length bs ≡ 32
      → compare_tags hmac (some bs) (ok (Hex.encode bs)) ≡ true
  unfolding compare_tags
  compare_tags-encode bs h l = ground (arith, bytes_equal_refl bs, decode-encode bs h)

  authenticate_encoded :
      (response : Response) (secret : String)
      → are_bytes (hmac.sum secret (response_payload response)) ≡ true
      → str_eq secret "" ≡ false
      → str_eq response.request_nonce "" ≡ false
      → authenticate_response hmac
          (record response { auth = Hex.encode (hmac.sum secret (response_payload response)) })
          secret
          response.request_nonce
        ≡ true
  unfolding authenticate_response sign_response response_payload
  authenticate_encoded response secret bytes s n =
      rw
        (
          authenticate_response,
          sign_response,
          s,
          n,
          str_eq_refl response.request_nonce,
          decode-encode (hmac.sum secret (response_payload response)) bytes,
        )
        (compare_tags-encode (hmac.sum secret (response_payload response)) bytes
          (hmac.length-sum secret (response_payload response)))

  -- A response that the bridge signed under a secret is accepted under that secret for the nonce it is
  -- bound to, where that nonce is not empty. The MAC is assumed to give bytes.
  pub signed_response_authenticates :
      (response : Response) (secret signature : String)
      → ((key message : String) → are_bytes (hmac.sum key message) ≡ true)
      → str_eq response.request_nonce "" ≡ false
      → sign_response hmac response secret ≡ ok signature
      → authenticate_response hmac
          (record response { auth = signature })
          secret
          response.request_nonce
        ≡ true
  unfolding sign_response
  signed_response_authenticates response secret signature bytes n h =
      elim (Bool-cases (str_eq secret "")) [
        | inl s ↦ absurd (ground (arith, h))
        | inr s ↦
            let e : signature ≡ Hex.encode (hmac.sum secret (response_payload response)) =
              ground (arith, h) in
            rw e
              (authenticate_encoded response secret (bytes secret (response_payload response)) s n)
      ]
