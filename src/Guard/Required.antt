-- ===== src/Guard/Required.antt =====
-- toPaymentRequired of packages/core/src/index.ts: the requirements that `execute` makes of a request, as
-- a server would have asked for it.
use agentct.Base.{ℕ, ℤ, Text, codes, or_else, Option, none, some, ◌++◌, ◌≡◌, ap, List}
use agentct.Base.Decimal.{int_text}
use agentct.Base.Decimal.RoundTrip.{int_of_text-int_text}
use agentct.Types.{PaymentRequest}
use agentct.X402.Chains.{ChainConfig, get_chain}
use agentct.X402.Interceptor.{Pending, PaymentRequirements, requirements_to_payment_request}

-- The one entry of `accepts`, with its fields that only the library reads, and the resource's address.
pub record PaymentRequired : Type 0 where
  pub requirements : PaymentRequirements
  pub scheme : Text
  pub max_timeout_seconds : ℕ
  pub domain_name : Text
  pub domain_version : Text
  pub resource : Text

abbrev required : PaymentRequest → ChainConfig → PaymentRequired
required req chain = record {
  requirements = record {
    amount = int_text req.amount;
    asset = req.token;
    pay_to = req.recipient;
    network = req.chain;
  };
  scheme = codes "exact";
  max_timeout_seconds = 3600;
  domain_name = chain.usdc_domain.name;
  domain_version = chain.usdc_domain.version;
  resource = or_else req.resource_url (codes "agentctl://manual/" ++ req.agent_id);
}

abbrev required_on : PaymentRequest → Option ChainConfig → Option PaymentRequired
required_on req none = none
required_on req (some chain) = some (required req chain)

-- `none` is the error for an unsupported chain.
unfoldable pub to_payment_required : PaymentRequest → Option PaymentRequired
unfolding int_text
to_payment_required req = required_on req (get_chain req.chain)

-- The requirements that execute makes of a request on a known chain ask for that request: read by
-- the guarded fetch in a store with its intent and its address, they are the same request, whatever
-- the sign and the size of its amount.
pub requirements-to_payment_required :
    (req : PaymentRequest) (chain : ChainConfig) (pending : List Pending)
    → get_chain req.chain ≡ some chain
    → (p : PaymentRequired) × (to_payment_required req ≡ some p)
      × (requirements_to_payment_request p.requirements req.agent_id (record {
        intent = some req.intent;
        resource_url = req.resource_url;
        pending = pending;
      })
          ≡ some req)
unfolding to_payment_required requirements_to_payment_request
requirements-to_payment_required req chain pending known = (
  required req chain,
  ap (required_on req) known,
  ap
      (λ (o : Option ℤ). elim o [
        | none ↦ none
        | some amount ↦ some (record req { amount = amount })
      ])
      (int_of_text-int_text req.amount),
)
