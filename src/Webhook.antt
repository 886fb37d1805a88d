-- ===== src/Webhook.antt =====
-- packages/core/src/escalation/webhook.ts: a human asked by a signed request to a webhook. HMAC-SHA256,
-- the text of a number, JSON and the network are parameters; a timestamp is a JavaScript number, as
-- the header's text may hold any.
pub mod Signatures
pub mod FailClosed
use agentct.Base.{
  ℕ, ℤ, pos, ltb, ◌==◌, Text, codes, text_eq, is_empty, Bool, true, false, not, ◌&&◌, ◌||◌, Option,
  none, some, or_else, [], ◌∷◌, ◌++◌, if◌then◌else◌,
}
use agentct.Base.Double.{Double, is_finite, zero_double, lt, abs}
use agentct.Base.Js.{Value, bool, str, get_member}
use agentct.Behavioral.Numbers.{FloatOps}
use agentct.Types.{PaymentRequest, PolicyDecision}

pub record EscalationEvent : Type 0 where
  pub timestamp : ℕ
  pub nonce : Text
  pub request : PaymentRequest
  pub decision : PolicyDecision

pub record WebhookRequest : Type 0 where
  pub url : Text
  pub body : Text
  pub signature : Text
  pub timestamp : Text

-- The parts of a response that are read; `text` is `none` where reading the body fails or is aborted.
pub record Response : Type 0 where
  pub ok : Bool
  pub signature : Option Text
  pub timestamp : Option Text
  pub text : Option Text

pub record Platform : Type 0 where
  pub floats : FloatOps
  -- `createHmac("sha256", secret).update(text).digest("hex")`
  pub hmac : (secret text : Text) → Text
  -- the text of a number in a template, and `Number` of a text
  pub number_text : Double → Text
  pub number_of : Text → Double
  pub stringify : EscalationEvent → Text
  pub parse : Text → Option Value

pub record WebhookOptions : Type 0 where
  pub url : Text
  pub secret : Text
  pub require_signed_response : Option Bool

module _ (p : Platform) where
  unfoldable pub sign_webhook : (secret body : Text) → Double → Text
  sign_webhook secret body timestamp =
      codes "sha256=" ++ p.hmac secret (p.number_text timestamp ++ codes "." ++ body)

  abbrev pub seconds : ℕ → Double
  seconds n = p.floats.of_int (pos n)

  -- `Math.abs(now - timestamp) > tolerance`
  unfoldable pub too_far : (tolerance now : ℕ) → Double → Bool
  too_far tolerance now timestamp =
      lt (seconds tolerance) (abs (p.floats.sub (seconds now) timestamp))

  -- The clock is read in seconds; `opts.now` takes its place in tests.
  unfoldable pub verify_webhook :
      (secret body signature : Text) → Double → (tolerance : Option ℕ) → (now : ℕ) → Bool
  unfolding sign_webhook too_far
  verify_webhook secret body signature timestamp tolerance now =
      let window = or_else tolerance 300 in
      if not (is_finite timestamp)
      then false
      else if ltb 0 window && too_far window now timestamp
      then false
      else text_eq (sign_webhook secret body timestamp) signature

  -- `Number(header)`, where a header that is not there is null, and `Number(null)` is 0.
  abbrev pub header_number : Option Text → Double
  header_number none = zero_double
  header_number (some t) = p.number_of t

  unfoldable pub response_signature_ok :
      (secret : Text) → Response → (body : Text) → (now : ℕ) → Bool
  unfolding verify_webhook
  response_signature_ok secret res body now = elim res.signature [
    | none ↦ false
    | some signature ↦
        if is_empty signature || not (is_finite (header_number res.timestamp))
        then false
        else verify_webhook secret body signature (header_number res.timestamp) none now
  ]

  -- `data.approved === true && data.nonce === nonce`. Of null, whose members cannot be read, the
  -- source's catch makes false as well.
  abbrev pub is_true : Option Value → Bool
  is_true (some (bool b)) = b
  is_true _ = false

  abbrev pub is_text : Text → Option Value → Bool
  is_text t (some (str s)) = text_eq s t
  is_text t _ = false

  unfoldable pub approves : Text → Option Value → Bool
  unfolding get_member
  approves nonce none = false
  approves nonce (some answer) =
      is_true (get_member (codes "approved") answer)
      && is_text nonce (get_member (codes "nonce") answer)

  unfoldable pub read_body : WebhookOptions → Text → ℕ → Response → Option Text → Bool
  unfolding approves response_signature_ok
  read_body opts nonce now res none = false
  read_body opts nonce now res (some raw) =
      if or_else opts.require_signed_response true
        && not (response_signature_ok opts.secret res raw now)
      then false
      else approves nonce (p.parse raw)

  unfoldable pub read_response : WebhookOptions → Text → ℕ → Option Response → Bool
  unfolding read_body
  read_response opts nonce now none = false
  read_response opts nonce now (some res) =
      if not res.ok then false else read_body opts nonce now res res.text

  unfoldable pub webhook_request : WebhookOptions → EscalationEvent → WebhookRequest
  unfolding sign_webhook
  webhook_request opts event =
      let body = p.stringify event in
      record {
        url = opts.url;
        body = body;
        signature = sign_webhook opts.secret body (seconds event.timestamp);
        timestamp = p.number_text (seconds event.timestamp);
      }

  -- The handler of `createWebhookEscalation`. `post` is the network: `none` where it fails or the
  -- timer aborts it. `sent_at` and `checked_at` are the two readings of the clock, in seconds, and
  -- `nonce` is the one drawn.
  unfoldable pub create_webhook_escalation :
      WebhookOptions
      → (post : WebhookRequest → Option Response) → (nonce : Text) → (sent_at checked_at : ℕ)
      → PaymentRequest
      → PolicyDecision
      → Bool
  unfolding read_response webhook_request
  create_webhook_escalation opts post nonce sent_at checked_at req decision =
      let event : EscalationEvent = record {
        timestamp = sent_at;
        nonce = nonce;
        request = req;
        decision = decision;
      } in
      read_response opts nonce checked_at (post (webhook_request opts event))
