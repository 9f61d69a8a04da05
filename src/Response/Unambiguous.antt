-- ===== src/Response/Unambiguous.antt =====
-- The payload and the fields of a response: responsePayload of bridge_service/src/main.go.
use Prim.Native.String
use text.Mathlib.TextLemmas.{append_assoc}
use hwcontrol.Base.{String, ◌≡◌, sym, ap, ◌∙◌}
use hwcontrol.Command.{◌<>◌}
use hwcontrol.Text.Decimal.{decimal}
use hwcontrol.Text.Decimal.Laws.{decimal_then_text, cut_by_length}
use hwcontrol.Response.{Response, prefixed, response_payload}

prefixed-append : (a r : String) → prefixed a <> r ≡ decimal (String.len a) <> ":" <> (a <> r)
unfolding prefixed
prefixed-append a r =
    append_assoc (decimal (String.len a)) (":" <> a) r
    ∙ ap (λ (t : String). decimal (String.len a) <> t) (append_assoc ":" a r)

-- A length-prefixed field is determined whatever follows it.
prefixed_then_text : (a b r t : String) → prefixed a <> r ≡ prefixed b <> t → (a ≡ b) × (r ≡ t)
prefixed_then_text a b r t h =
    let e =
      decimal_then_text (String.len a) (String.len b) (a <> r) (b <> t)
        (sym (prefixed-append a r) ∙ h ∙ prefixed-append b t) in
    cut_by_length a b r t e.0 e.1

-- Two responses with one payload have the same nonce, status, message and data, whatever characters
-- those contain.
pub response_payload_injective :
    (a b : Response)
    → response_payload a ≡ response_payload b
    → (a.request_nonce ≡ b.request_nonce)
      × (a.status ≡ b.status)
      × (a.message ≡ b.message)
      × (a.data_json ≡ b.data_json)
unfolding response_payload
response_payload_injective a b h =
    let n = prefixed_then_text a.request_nonce b.request_nonce _ _ h in
    let s = prefixed_then_text a.status b.status _ _ n.1 in
    let m = prefixed_then_text a.message b.message _ _ s.1 in
    let d = prefixed_then_text a.data_json b.data_json "" "" (ap (λ (t : String). t <> "") m.1) in
    (n.0, s.0, m.0, d.0)
