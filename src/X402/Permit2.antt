-- ===== src/X402/Permit2.antt =====
-- packages/core/src/x402/permit2.ts: payments in any token by the Permit2 contract. The contract's and
-- the proxy's address, viem's chain ids and the allowance on the chain are parameters.
use agentct.Base.{
  ℕ, ◌+◌, ℤ, ltb_ℤ, Text, codes, or_else, Bool, true, Option, none, some, ◌≡◌, refl, inl, inr,
  arith, Option-cases,
}
use agentct.Types.{PaymentRequest}
use agentct.X402.Chains.{ChainConfig, get_chain}
use agentct.X402.Inspect

pub record Permit2Authorization : Type 0 where
  pub token : Text
  pub amount : ℤ
  pub spender : Text
  pub nonce : ℕ
  pub deadline : ℕ
  pub to : Text
  pub valid_after : ℕ

pub record Permit2Domain : Type 0 where
  pub name : Text
  pub chain_id : ℕ
  pub verifying_contract : Text

pub record SignedPermit2Authorization : Type 0 where
  pub signature : Text
  pub permit : Permit2Authorization

pub record Permit2SignOptions : Type 0 where
  pub valid_for_seconds : Option ℕ
  pub valid_after : Option ℕ
  pub nonce : Option ℕ
  pub spender : Option Text

-- What @x402/evm and viem supply.
pub record Permit2Library : Type 0 where
  pub permit2_address : Text
  pub exact_proxy : Text
  pub viem_chain_id : ChainConfig → ℕ
  -- the owner's allowance to Permit2 in a token, `none` where the call fails
  pub allowance : ChainConfig → (token owner : Text) → Option ℤ
  -- target and call data of `approve(PERMIT2, max)`
  pub approval_tx : Text → Text × Text

module _ (lib : Permit2Library) where
  unfoldable pub permit_for :
      PaymentRequest → (now : ℕ) → Permit2SignOptions → (drawn : ℕ) → Permit2Authorization
  permit_for req now opts drawn = record {
    token = req.token;
    amount = req.amount;
    spender = or_else opts.spender lib.exact_proxy;
    nonce = or_else opts.nonce drawn;
    deadline = now + or_else opts.valid_for_seconds 3600;
    to = req.recipient;
    valid_after = or_else opts.valid_after 0;
  }

  unfoldable pub permit2_domain : ChainConfig → Permit2Domain
  permit2_domain chain = record {
    name = codes "Permit2";
    chain_id = lib.viem_chain_id chain;
    verifying_contract = lib.permit2_address;
  }

  unfoldable pub with_signature :
      Permit2Authorization → Option Text → Option SignedPermit2Authorization
  with_signature permit none = none
  with_signature permit (some s) = some (record { signature = s; permit = permit })

  unfoldable pub sign_on :
      (sign : Permit2Domain → Permit2Authorization → Option Text)
      → PaymentRequest
      → ℕ
      → Permit2SignOptions
      → ℕ
      → Option ChainConfig
      → Option SignedPermit2Authorization
  unfolding with_signature permit_for permit2_domain
  sign_on sign req now opts drawn none = none
  sign_on sign req now opts drawn (some chain) =
      let permit = permit_for req now opts drawn in
      with_signature permit (sign (permit2_domain chain) permit)

  -- `sign` is the account's `signTypedData`; `none` stands for an error thrown.
  unfoldable pub sign_permit2_authorization :
      (sign : Permit2Domain → Permit2Authorization → Option Text)
      → PaymentRequest
      → ℕ
      → Permit2SignOptions
      → ℕ
      → Option SignedPermit2Authorization
  unfolding sign_on
  sign_permit2_authorization sign req now opts drawn =
      sign_on sign req now opts drawn (get_chain req.chain)

  -- `none` stands for an error thrown.
  unfoldable pub permit2_approval_needed :
      (token owner : Text) → (required : ℤ) → (chain : Text) → Option Bool
  permit2_approval_needed token owner required chain = elim (get_chain chain) [
    | none ↦ none
    | some c ↦ elim (lib.allowance c token owner) [
      | none ↦ none
      | some allowance ↦ some (ltb_ℤ allowance required)
    ]
  ]

  unfoldable pub build_permit2_approval : Text → Text × Text
  build_permit2_approval token = lib.approval_tx token

pub record InspectedPermit2 : Type 0 where
  pub token : Text
  pub recipient : Text
  pub amount : ℤ
  pub spender : Text
  pub deadline : ℕ
  pub nonce : ℕ

unfoldable pub inspect_permit2_authorization : SignedPermit2Authorization → InspectedPermit2
inspect_permit2_authorization s = record {
  token = s.permit.token;
  recipient = s.permit.to;
  amount = s.permit.amount;
  spender = s.permit.spender;
  deadline = s.permit.deadline;
  nonce = s.permit.nonce;
}

-- The payload that carries a signed permit to the facilitator.
abbrev pub payload_of : SignedPermit2Authorization → Inspect.Payload
payload_of s = Inspect.permit2 s.permit.token s.permit.amount s.permit.to

-- What `inspectPermit2Authorization` reads from a signed permit is the request's token, recipient and
-- amount, with the spender and the deadline of the options or their defaults; the payload made of
-- it passes the check against the request.
pub inspect-sign_permit2 :
    (lib : Permit2Library) (sign : Permit2Domain → Permit2Authorization → Option Text)
    (req : PaymentRequest) (now : ℕ) (opts : Permit2SignOptions) (drawn : ℕ)
    (s : SignedPermit2Authorization)
    → sign_permit2_authorization lib sign req now opts drawn ≡ some s
    → (inspect_permit2_authorization s ≡ record {
      token = req.token;
      recipient = req.recipient;
      amount = req.amount;
      spender = or_else opts.spender lib.exact_proxy;
      deadline = now + or_else opts.valid_for_seconds 3600;
      nonce = or_else opts.nonce drawn;
    })
      × (Inspect.authorization_matches (payload_of s) req ≡ true)
unfolding sign_permit2_authorization sign_on with_signature permit_for inspect_permit2_authorization
inspect-sign_permit2 lib sign req now opts drawn s h = elim (Option-cases (get_chain req.chain)) [
  | inl e ↦ ground arith
  | inr (chain, e) ↦
      let permit = permit_for lib req now opts drawn in
      let made : s.permit ≡ permit = ground arith in
      (
        ground arith,
        (Inspect.authorization_matches_iff (payload_of s) req).1 (rw made (refl, refl, refl)),
      )
]
