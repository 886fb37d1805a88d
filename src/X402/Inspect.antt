-- ===== src/X402/Inspect.antt =====
-- assertAuthorizationMatches of packages/core/src/x402/inspect.ts: what was signed against what the
-- guard approved. The shape of a payload is found by the library's type guards, so a payload comes
-- here already told apart.
use agentct.Base.{
  ℤ, eqb_ℤ, eqb_ℤ_iff, Text, text_eq, text_eq_iff, lower, Bool, true, false, List, [], ◌∷◌, ◌++◌,
  ◌≡◌, refl, ◌↔◌, arith, if◌then◌else◌,
}
use agentct.Types.{PaymentRequest}

pub data Payload : Type 0 where
  eip3009 : (to : Text) (value : ℤ) → Payload
  permit2 : (token : Text) (amount : ℤ) (to : Text) → Payload
  -- a scheme of another chain
  other : Payload

-- One line of the error's list, with the value that was signed.
pub data Mismatch : Type 0 where
  wrong_recipient : Text → Mismatch
  wrong_amount : ℤ → Mismatch
  wrong_token : Text → Mismatch

abbrev eq : Text → Text → Bool
eq a b = text_eq (lower a) (lower b)

abbrev unless : Bool → Mismatch → List Mismatch
unless ok m = if ok then [] else m ∷ []

-- The mismatches that the error lists; the source throws when there is one.
unfoldable pub mismatches : Payload → PaymentRequest → List Mismatch
unfolding lower
mismatches (eip3009 to value) req =
    unless (eq to req.recipient) (wrong_recipient to)
    ++ unless (eqb_ℤ value req.amount) (wrong_amount value)
mismatches (permit2 token amount to) req =
    unless (eq to req.recipient) (wrong_recipient to)
    ++ unless (eqb_ℤ amount req.amount) (wrong_amount amount)
    ++ unless (eq token req.token) (wrong_token token)
mismatches other req = []

abbrev no_mismatch : List Mismatch → Bool
no_mismatch [] = true
no_mismatch (_ ∷ _) = false

-- Whether the assertion lets the payload through.
unfoldable pub authorization_matches : Payload → PaymentRequest → Bool
unfolding mismatches
authorization_matches payload req = no_mismatch (mismatches payload req)

-- What a payload that passes pays: one of the EVM schemes, as approved. Of another scheme nothing is
-- known.
abbrev pub PaysAs : Payload → PaymentRequest → Type 0
PaysAs (eip3009 to value) req = (lower to ≡ lower req.recipient) × (value ≡ req.amount)
PaysAs (permit2 token amount to) req =
    (lower to ≡ lower req.recipient) × (amount ≡ req.amount) × (lower token ≡ lower req.token)
PaysAs other req = Unit

-- A signed EVM payload passes exactly when it pays the approved recipient the approved amount, and
-- in the approved token where the payload names one. Payloads of other schemes always pass.
pub authorization_matches_iff :
    (payload : Payload) (req : PaymentRequest)
    → (authorization_matches payload req ≡ true) ↔ PaysAs payload req
unfolding authorization_matches
authorization_matches_iff (eip3009 to value) req =
    ground (arith, text_eq_iff (lower to) (lower req.recipient), eqb_ℤ_iff value req.amount)
authorization_matches_iff (permit2 token amount to) req = ground (
  arith,
  text_eq_iff (lower to) (lower req.recipient),
  text_eq_iff (lower token) (lower req.token),
  eqb_ℤ_iff amount req.amount,
)
authorization_matches_iff other req = (λ h. tt, λ h. refl)
