-- ===== src/Webhook/FailClosed.antt =====
-- When the webhook's answer lets a payment pass.
use agentct.Base.{
  ℕ, Text, codes, text_eq_iff, text_eq_refl, Bool-cases, ◌↔◌, true, false, Option, Option-cases,
  none, some, or_else, ◌≡◌, refl, ap, ◌⊎◌, inl, inr, arith,
}
use agentct.Base.Js.{Value, bool, str, get_member}
use agentct.Types.{PaymentRequest, PolicyDecision}
use agentct.Webhook.{
  Platform, Response, WebhookRequest, WebhookOptions, sign_webhook, verify_webhook, header_number,
  is_true, is_text, response_signature_ok, approves, read_body, read_response, webhook_request,
  create_webhook_escalation,
}
use agentct.Webhook.Signatures.{Fresh, verify-sign}

-- The answer is the object `{ approved: true, nonce }`, as far as it is read.
abbrev pub Approves : Text → Value → Type 0
Approves nonce answer =
    (get_member (codes "approved") answer ≡ some (bool true))
    × (get_member (codes "nonce") answer ≡ some (str nonce))

-- The response signs its own body, with a timestamp at most 300 seconds away.
abbrev pub SignedBody : Platform → Text → Response → Text → ℕ → Type 0
SignedBody p secret res raw now =
    (signature : Text) × (res.signature ≡ some signature)
    × Fresh p 300 now (header_number p res.timestamp)
    × (signature ≡ sign_webhook p secret raw (header_number p res.timestamp))

-- What a response must be for the payment to pass.
abbrev pub Approval : Platform → WebhookOptions → Text → ℕ → Response → Type 0
Approval p opts nonce now res =
    (raw : Text) × (answer : Value) × (res.ok ≡ true)
    × (res.text ≡ some raw)
    × (p.parse raw ≡ some answer)
    × Approves nonce answer
    × ((or_else opts.require_signed_response true ≡ false) ⊎ SignedBody p opts.secret res raw now)

is_true-some : (p : Platform) (o : Option Value) → is_true p o ≡ true → o ≡ some (bool true)
is_true-some p (some (bool b)) h = ground arith
is_true-some p none h = cc
is_true-some p (some Value.null) h = cc
is_true-some p (some (Value.num _)) h = cc
is_true-some p (some (str _)) h = cc
is_true-some p (some (Value.big _)) h = cc
is_true-some p (some (Value.arr _)) h = cc
is_true-some p (some (Value.obj _)) h = cc

is_text-some :
    (p : Platform) (t : Text) (o : Option Value) → is_text p t o ≡ true → o ≡ some (str t)
is_text-some p t (some (str s)) h = ap (λ (x : Text). some (str x)) ((text_eq_iff s t).0 h)
is_text-some p t none h = cc
is_text-some p t (some Value.null) h = cc
is_text-some p t (some (Value.num _)) h = cc
is_text-some p t (some (bool _)) h = cc
is_text-some p t (some (Value.big _)) h = cc
is_text-some p t (some (Value.arr _)) h = cc
is_text-some p t (some (Value.obj _)) h = cc

approves-some :
    (p : Platform) (nonce : Text) (o : Option Value)
    → approves p nonce o ≡ true
    → (answer : Value) × (o ≡ some answer) × Approves nonce answer
unfolding approves
approves-some p nonce none h = cc
approves-some p nonce (some answer) h = (
  answer,
  refl,
  (
    is_true-some p (get_member (codes "approved") answer) (ground arith),
    is_text-some p nonce (get_member (codes "nonce") answer) (ground arith),
  ),
)

signature-SignedBody :
    (p : Platform) (secret : Text) (res : Response) (raw : Text) (now : ℕ)
    → response_signature_ok p secret res raw now ≡ true
    → SignedBody p secret res raw now
unfolding response_signature_ok
signature-SignedBody p secret res raw now h = elim (Option-cases res.signature) [
  | inl e ↦ ground arith
  | inr (signature, e) ↦
      let ts = header_number p res.timestamp in
      let valid : verify_webhook p secret raw signature ts none now ≡ true = ground arith in
      let (fresh, made) = (verify-sign p secret raw signature ts none now).0 valid in
      (signature, e, fresh, made)
]

SignedBody-signature :
    (p : Platform) (secret : Text) (res : Response) (raw : Text) (now : ℕ)
    → SignedBody p secret res raw now
    → response_signature_ok p secret res raw now ≡ true
unfolding response_signature_ok sign_webhook
SignedBody-signature p secret res raw now (signature, e, fresh, made) =
    let ts = header_number p res.timestamp in
    let valid = (verify-sign p secret raw signature ts none now).1 (fresh, made) in
    ground (arith, fresh.0)

Approves-approves :
    (p : Platform) (nonce : Text) (answer : Value)
    → Approves nonce answer
    → approves p nonce (some answer) ≡ true
unfolding approves
Approves-approves p nonce answer (yes_approved, echoed) =
    rw (yes_approved, echoed, text_eq_refl nonce) refl

read_body-Approval :
    (p : Platform) (opts : WebhookOptions) (nonce : Text) (now : ℕ) (res : Response)
    → res.ok ≡ true
    → read_body p opts nonce now res res.text ≡ true
    → Approval p opts nonce now res
unfolding read_body
read_body-Approval p opts nonce now res ok h = elim (Option-cases res.text) [
  | inl e ↦ ground arith
  | inr (raw, e) ↦
      let (answer, parsed, good) = approves-some p nonce (p.parse raw) (ground arith) in
      (
        raw,
        answer,
        ok,
        e,
        parsed,
        good,
        elim (Bool-cases (or_else opts.require_signed_response true)) [
          | inl needed ↦ inr (signature-SignedBody p opts.secret res raw now (ground arith))
          | inr not_needed ↦ inl not_needed
        ],
      )
]

Approval-read_body :
    (p : Platform) (opts : WebhookOptions) (nonce : Text) (now : ℕ) (res : Response)
    → Approval p opts nonce now res
    → read_body p opts nonce now res res.text ≡ true
unfolding read_body
Approval-read_body p opts nonce now res (raw, answer, ok, e, parsed, good, authentic) =
    let accepted = Approves-approves p nonce answer good in
    elim authentic [
      | inl free ↦ ground (arith, accepted)
      | inr signed ↦ ground (arith, accepted, SignedBody-signature p opts.secret res raw now signed)
    ]

abbrev pub request_for :
    Platform → WebhookOptions → Text → ℕ → PaymentRequest → PolicyDecision → WebhookRequest
request_for p opts nonce sent_at req decision =
    webhook_request p opts
      (record { timestamp = sent_at; nonce = nonce; request = req; decision = decision })

-- The webhook lets a payment pass exactly when the signed event was answered with a status of
-- success, any from 200 to 299, and a readable body of JSON, whose member approved is true and whose member nonce is the
-- event's nonce, and the response carries the signature that the shared secret makes of its own body
-- and timestamp, with the timestamp at most 300 seconds from the clock; the signature is not needed
-- only where requireSignedResponse is set to false. Otherwise the answer is no.
pub escalation_iff :
    (p : Platform) (opts : WebhookOptions) (post : WebhookRequest → Option Response) (nonce : Text)
    (sent_at checked_at : ℕ) (req : PaymentRequest) (decision : PolicyDecision)
    → (create_webhook_escalation p opts post nonce sent_at checked_at req decision ≡ true) ↔ (
        (res : Response) × (post (request_for p opts nonce sent_at req decision) ≡ some res)
        × Approval p opts nonce checked_at res)
unfolding create_webhook_escalation read_response
escalation_iff p opts post nonce sent_at checked_at req decision = (
  λ h. elim (Option-cases (post (request_for p opts nonce sent_at req decision))) [
    | inl e ↦ ground arith
    | inr (res, e) ↦
        (res, e, read_body-Approval p opts nonce checked_at res (ground arith) (ground arith))
  ],
  λ (res, e, good).
      let read = Approval-read_body p opts nonce checked_at res good in
      let ok = good.2 in ground (arith, ok, read),
)
