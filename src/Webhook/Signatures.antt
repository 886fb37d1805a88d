-- ===== src/Webhook/Signatures.antt =====
-- Which signatures `verifyWebhook` accepts.
use agentct.Base.{◌⊎◌, ℕ, Text, text_eq_iff, true, false, Option, or_else, ◌≡◌, ◌↔◌, arith}
use agentct.Base.Double.{Double, is_finite, lt, abs}
use agentct.Webhook.{Platform, seconds, sign_webhook, too_far, verify_webhook}

-- The timestamp is a finite number and, unless the window is 0, the distance between the clock and the
-- timestamp, earlier or later, is not greater than the window.
abbrev pub Fresh : Platform → (window now : ℕ) → Double → Type 0
Fresh p window now timestamp =
    (is_finite timestamp ≡ true)
    × ((window ≡ 0)
        ⊎ (lt (seconds p window) (abs (p.floats.sub (seconds p now) timestamp)) ≡ false))

-- `verifyWebhook` accepts exactly the signature that `signWebhook` makes of the same secret, body and
-- timestamp, and only while the timestamp is finite and within the window of its tolerance, 300
-- seconds if none is given; a tolerance of 0 leaves out the window.
pub verify-sign :
    (p : Platform) (secret body signature : Text) (timestamp : Double) (tolerance : Option ℕ)
    (now : ℕ)
    → (verify_webhook p secret body signature timestamp tolerance now ≡ true) ↔ (
        Fresh p (or_else tolerance 300) now timestamp
        × (signature ≡ sign_webhook p secret body timestamp))
unfolding verify_webhook too_far
verify-sign p secret body signature timestamp tolerance now =
    ground (arith, text_eq_iff (sign_webhook p secret body timestamp) signature)
