-- ===== src/Tests/Calling.antt =====
-- An escalation over a webhook, with stand-ins for the hash and for JSON.
use agentct.Base.{
  pos, Text, codes, text_eq, true, false, none, some, Option, [], ◌∷◌, ◌++◌, ◌≡◌, ◌↔◌, refl,
}
use agentct.Base.Double.{is_finite, lt, abs}
use agentct.Base.Js.{Value, bool, str, obj, field, no_fields}
use agentct.Webhook.{
  Platform, Response, WebhookRequest, WebhookOptions, verify_webhook, create_webhook_escalation,
}
use agentct.Webhook.FailClosed.{Approval, request_for, escalation_iff}
use agentct.Tests.Samples.{alice, payment, allowing, floats}

abbrev answer : Value
answer =
    obj (field (codes "approved") (bool true) (field (codes "nonce") (str (codes "n-1")) no_fields))

abbrev platform : Platform
platform = record {
  floats = floats;
  hmac = λ secret text. secret ++ text;
  number_text = λ d. d.bits ∷ [];
  number_of = λ t. record { bits = 0 };
  stringify = λ e. e.nonce;
  parse = λ t. some answer;
}

abbrev signed_zero : Text
signed_zero = codes "sha256=key" ++ 0 ∷ codes ".body"

verifies :
    verify_webhook platform (codes "key") (codes "body") signed_zero (record { bits = 0 }) none 0
    ≡ true
unfolding verify_webhook is_finite lt abs text_eq
verifies = refl

abbrev opts : WebhookOptions
opts = record {
  url = codes "https://approver.example";
  secret = codes "key";
  require_signed_response = none;
}

abbrev approver : WebhookRequest → Option Response
approver req = some (record {
  ok = true;
  signature = some (codes "sha256=key" ++ 0 ∷ codes ".yes");
  timestamp = some (codes "0");
  text = some (codes "yes");
})

escalation_iff_example :
    (create_webhook_escalation platform opts approver
        (codes "n-1")
        0
        0
        (payment (pos 40) alice)
        allowing
      ≡ true)
    ↔ ((res : Response) × (approver
            (request_for platform opts (codes "n-1") 0 (payment (pos 40) alice) allowing)
          ≡ some res)
        × Approval platform opts (codes "n-1") 0 res)
escalation_iff_example =
    escalation_iff platform opts approver (codes "n-1") 0 0 (payment (pos 40) alice) allowing

approved :
    create_webhook_escalation platform opts approver
      (codes "n-1")
      0
      0
      (payment (pos 40) alice)
      allowing
    ≡ true
unfolding create_webhook_escalation is_finite lt abs text_eq
approved = refl

other_nonce :
    create_webhook_escalation platform opts approver
      (codes "n-2")
      0
      0
      (payment (pos 40) alice)
      allowing
    ≡ false
unfolding create_webhook_escalation is_finite lt abs text_eq
other_nonce = refl
