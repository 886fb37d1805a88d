-- ===== src/X402/Eip3009.antt =====
-- signEIP3009Authorization and inspectAuthorization of packages/core/src/x402/eip3009.ts. The account
-- that signs typed data is a parameter, and so are the nonces that `randomNonce` draws.
use agentct.Base.{
  ℕ, ◌+◌, ℤ, Text, or_else, lower, true, Option, none, some, List, [], ◌∷◌, ◌≡◌, inl, inr, arith,
  Option-cases, ap,
}
use agentct.Types.{PaymentRequest, Authorization}
use agentct.X402.Chains.{ChainConfig, Eip712Domain, get_chain}
use agentct.X402.Inspect.{PaysAs}
use agentct.X402.Inspect
use agentct.X402.Nonces.{Tracker, reserve}

-- The account: `signTypedData` of a transfer, `none` where it throws.
pub record Account : Type 0 where
  pub address : Text
  pub sign_transfer : Eip712Domain → Authorization → Option Text

pub record SignedAuthorization : Type 0 where
  pub signature : Text
  pub authorization : Authorization

pub record SignOptions : Type 0 where
  pub valid_for_seconds : Option ℕ
  pub nonce : Option Text
  pub tracker : Option Tracker

-- How signing ends. `drawing` is the loop of `reserve`, which still runs when the draws are used up.
pub data Signing : Type 0 where
  signed : SignedAuthorization → Signing
  threw drawing : Signing

-- `opts.tracker ? opts.tracker.reserve(opts.nonce) : (opts.nonce ?? randomNonce())`
unfoldable pub next_nonce : SignOptions → List Text → Option (Text × Option Tracker)
next_nonce opts draws = elim opts.tracker [
  | some t ↦ elim (reserve opts.nonce draws t) [ none ↦ none | some (n, t') ↦ some (n, some t') ]
  | none ↦ elim opts.nonce [
    | some n ↦ some (n, none)
    | none ↦ elim draws [ [] ↦ none | n ∷ _ ↦ some (n, none) ]
  ]
]

-- The authorization that is put before the account; `now` is in seconds.
unfoldable pub transfer_for : Account → PaymentRequest → ℕ → Option ℕ → Text → Authorization
transfer_for account req now valid_for nonce = record {
  from = account.address;
  to = req.recipient;
  value = req.amount;
  valid_after = 0;
  valid_before = now + or_else valid_for 3600;
  nonce = nonce;
}

unfoldable pub with_signature : Authorization → Option Text → Signing
with_signature authorization none = threw
with_signature authorization (some s) =
    signed (record { signature = s; authorization = authorization })

-- From the nonce on. The tracker keeps the nonce when the account throws.
unfoldable pub sign_with :
    Account
    → PaymentRequest
    → ℕ
    → SignOptions
    → ChainConfig
    → Option (Text × Option Tracker)
    → Signing × Option Tracker
unfolding with_signature transfer_for
sign_with account req now opts chain none = (drawing, opts.tracker)
sign_with account req now opts chain (some (n, t)) =
    let authorization = transfer_for account req now opts.valid_for_seconds n in
    (with_signature authorization (account.sign_transfer chain.usdc_domain authorization), t)

unfoldable pub sign_on :
    Account
    → PaymentRequest
    → ℕ
    → SignOptions
    → List Text
    → Option ChainConfig
    → Signing × Option Tracker
unfolding sign_with next_nonce
sign_on account req now opts draws none = (threw, opts.tracker)
sign_on account req now opts draws (some chain) =
    sign_with account req now opts chain (next_nonce opts draws)

-- The tracker, which the source changes in place, is returned with the result.
unfoldable pub sign_eip3009_authorization :
    Account → PaymentRequest → ℕ → SignOptions → List Text → Signing × Option Tracker
unfolding sign_on
sign_eip3009_authorization account req now opts draws =
    sign_on account req now opts draws (get_chain req.chain)

pub record InspectedAuthorization : Type 0 where
  pub from : Text
  pub recipient : Text
  pub amount : ℤ
  pub expires_at : ℕ
  pub nonce : Text

unfoldable pub inspect_authorization : SignedAuthorization → InspectedAuthorization
inspect_authorization s = record {
  from = s.authorization.from;
  recipient = s.authorization.to;
  amount = s.authorization.value;
  expires_at = s.authorization.valid_before;
  nonce = s.authorization.nonce;
}

-- The payload that carries a signed authorization to the facilitator.
abbrev pub payload_of : SignedAuthorization → Inspect.Payload
payload_of s = Inspect.eip3009 s.authorization.to s.authorization.value

module _ (account : Account) (req : PaymentRequest) (now : ℕ) (opts : SignOptions)
    (draws : List Text) where
  -- A signed authorization is the transfer for a nonce that `next_nonce` gave, on a known chain.
  pub signed_transfer :
      {s : SignedAuthorization} {t : Option Tracker}
      → sign_eip3009_authorization account req now opts draws ≡ (signed s, t)
      → (n : Text) × (next_nonce opts draws ≡ some (n, t))
        × (s.authorization ≡ transfer_for account req now opts.valid_for_seconds n)
  unfolding sign_eip3009_authorization sign_on sign_with with_signature
  signed_transfer {s} {t} h = elim (Option-cases (get_chain req.chain)) [
    | inl e ↦ ground arith
    | inr (chain, e) ↦ elim (Option-cases (next_nonce opts draws)) [
      | inl e2 ↦ ground arith
      | inr ((n, u), e2) ↦ (n, ground arith, ground arith)
    ]
  ]

  -- What `inspectAuthorization` reads from a signed authorization is the payment that was asked for:
  -- the account's address, the request's recipient and amount, and the expiry; the payload made of
  -- it passes the check against the request.
  pub inspect-sign :
      (s : SignedAuthorization) (t : Option Tracker)
      → sign_eip3009_authorization account req now opts draws ≡ (signed s, t)
      → ((inspect_authorization s).from ≡ account.address)
        × ((inspect_authorization s).recipient ≡ req.recipient)
        × ((inspect_authorization s).amount ≡ req.amount)
        × ((inspect_authorization s).expires_at ≡ now + or_else opts.valid_for_seconds 3600)
        × (Inspect.authorization_matches (payload_of s) req ≡ true)
  unfolding inspect_authorization transfer_for
  inspect-sign s t h =
      let made = (signed_transfer h).2 in
      let to_recipient : s.authorization.to ≡ req.recipient =
        ap (λ (a : Authorization). a.to) made in
      let of_amount : s.authorization.value ≡ req.amount =
        ap (λ (a : Authorization). a.value) made in
      (
        ap (λ (a : Authorization). a.from) made,
        to_recipient,
        of_amount,
        ap (λ (a : Authorization). a.valid_before) made,
        (Inspect.authorization_matches_iff (payload_of s) req).1 (ap lower to_recipient, of_amount),
      )
