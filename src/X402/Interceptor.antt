-- ===== src/X402/Interceptor.antt =====
-- packages/core/src/x402/interceptor.ts: what belongs to one request of the guarded fetch, and the
-- payment that a server's requirements ask for.
use agentct.Base.{
  Text, codes, text_eq, lower, or_else, get_elem?, Bool, false, Option, none, some, List, [], ◌∷◌,
  ◌++◌, if◌then◌else◌,
}
use agentct.Base.Decimal.{int_of_text}
use agentct.Types.{PaymentRequest, PolicyDecision}

pub record Pending : Type 0 where
  pub req : PaymentRequest
  pub decision : PolicyDecision
  pub recorded : Bool

-- The newest decision is the first of the list; the source pushes and pops at the end of an array.
pub record IntentStore : Type 0 where
  pub intent : Option Text
  pub resource_url : Option Text
  pub pending : List Pending

-- The fields of PaymentRequirements that are read.
pub record PaymentRequirements : Type 0 where
  pub amount : Text
  pub asset : Text
  pub pay_to : Text
  pub network : Text

-- The shapes of headers that `fetch` takes. A Headers object is the platform's.
pub data FetchHeaders : Type 0 where
  absent : FetchHeaders
  headers : (Text → Option Text) → FetchHeaders
  pairs : List (List Text) → FetchHeaders
  fields : List (Text × Text) → FetchHeaders

abbrev named : Text → List Text → Bool
named lname [] = false
named lname (key ∷ _) = text_eq (lower key) lname

unfoldable pub find_pair : Text → List (List Text) → Option Text
find_pair lname [] = none
find_pair lname (pair ∷ rest) = if named lname pair then get_elem? pair 1 else find_pair lname rest

unfoldable pub find_field : Text → List (Text × Text) → Option Text
unfolding lower text_eq
find_field lname [] = none
find_field lname ((k, v) ∷ rest) = if text_eq (lower k) lname then some v else find_field lname rest

unfoldable pub header_value : FetchHeaders → Text → Option Text
unfolding find_pair find_field
header_value absent name = none
header_value (headers get) name = get name
header_value (pairs ps) name = find_pair (lower name) ps
header_value (fields fs) name = find_field (lower name) fs

-- `none` where the amount is no integer and BigInt throws.
unfoldable pub requirements_to_payment_request :
    PaymentRequirements → Text → IntentStore → Option PaymentRequest
unfolding int_of_text
requirements_to_payment_request r agent_id store = elim (int_of_text r.amount) [
  | none ↦ none
  | some amount ↦ some (record {
    intent =
        or_else store.intent (codes "Pay for resource at " ++ or_else store.resource_url r.pay_to);
    amount = amount;
    token = r.asset;
    recipient = r.pay_to;
    chain = r.network;
    agent_id = agent_id;
    resource_url = store.resource_url;
  })
]
