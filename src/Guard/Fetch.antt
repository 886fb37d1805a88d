-- ===== src/Guard/Fetch.antt =====
-- `guardedFetch` and the hooks of `ensureSpine` in packages/core/src/index.ts. The x402 library, which
-- calls the hooks, is a parameter: the events that it raises in one request, in order, and how it
-- ends when no hook stops it.
pub mod Trail
pub mod Recorded
use agentct.Base.{
  ℕ, Text, codes, Bool, true, false, Option, none, some, List, [], ◌∷◌, ◌++◌, if◌then◌else◌,
}
use agentct.Types.{PaymentRequest, PolicyDecision, Settlement, Verdict, verdict_eq}
use agentct.X402.Inspect.{Payload, authorization_matches}
use agentct.X402.Interceptor.{
  Pending, IntentStore, PaymentRequirements, FetchHeaders, header_value,
  requirements_to_payment_request,
}
use agentct.Guard.State.{SettleResponse, Outside, GuardConfig, Guard, Instants}
use agentct.Guard.Evaluation.{run_guard}
use agentct.Guard.Payment.{record_entry, learn, settlement_of}

pub record Request : Type 0 where
  pub guard : Guard
  pub store : IntentStore

-- How a hook ends: the library goes on, or the payment stops, by an abort or by an error thrown.
pub data Hook : Type 0 where
  continues aborts throws : Hook

-- What the library does in a request: it asks before it makes a payment, shows the payment made, and
-- shows the server's response. An event that may write a row brings its id and its readings.
pub data Event : Type 0 where
  before_payment : Text → PaymentRequirements → Instants → Event
  after_payment : Payload → Event
  payment_response : Text → Option SettleResponse → Instants → Event

-- What follows a hook, unless the hook stops the payment.
abbrev pub go_on : (Request → Hook × Request) → Hook × Request → Hook × Request
go_on f (continues, r) = f r
go_on f (aborts, r) = (aborts, r)
go_on f (throws, r) = (throws, r)

abbrev push : Pending → Guard → IntentStore → Request
push p g store = record { guard = g; store = record store { pending = p ∷ store.pending } }

module _ (out : Outside) (cfg : GuardConfig) where
  -- The hook before a payment, from the decision on.
  unfoldable pub decided :
      Text
      → PaymentRequest
      → Instants
      → IntentStore
      → Option Bool
      → PolicyDecision
      → Guard
      → Hook × Request
  unfolding record_entry
  decided id req at store none decision g = (throws, record { guard = g; store = store })
  decided id req at store (some false) decision g = (
    aborts,
    push (record { req = req; decision = decision; recorded = true })
        (record_entry out cfg id req decision none at.logged_at g) store,
  )
  decided id req at store (some true) decision g =
      (continues, push (record { req = req; decision = decision; recorded = false }) g store)

  unfoldable pub asked : Text → Instants → Option PaymentRequest → Request → Hook × Request
  unfolding decided
  asked id at none r = (throws, r)
  asked id at (some req) r =
      let (ok, decision, g) = run_guard out cfg r.guard req at in
      decided id req at r.store ok decision g

  -- `onBeforePaymentCreation`
  unfoldable pub on_before_payment_creation :
      Text → PaymentRequirements → Instants → Request → Hook × Request
  unfolding asked requirements_to_payment_request
  on_before_payment_creation id requirements at r =
      asked id at (requirements_to_payment_request requirements cfg.agent_id r.store) r

  -- `onAfterPaymentCreation`
  unfoldable pub on_after_payment_creation : Payload → Request → Hook × Request
  on_after_payment_creation payload r = elim r.store.pending [
    | [] ↦ (continues, r)
    | p ∷ _ ↦ if authorization_matches payload p.req then (continues, r) else (throws, r)
  ]

  abbrev settlement : Option SettleResponse → Option Settlement
  settlement none = none
  settlement (some s) = some (settlement_of out cfg s)

  abbrev learned : Option SettleResponse → PaymentRequest → Instants → Guard → Guard
  learned none req at g = g
  learned (some s) req at g = if s.success then learn out cfg req at g else g

  -- The response hook behind `pop`.
  unfoldable pub answered :
      Text → Option SettleResponse → Instants → Guard → IntentStore → List Pending → Request
  unfolding learn record_entry
  answered id response at g store [] = record { guard = g; store = store }
  answered id response at g store (p ∷ rest) = record {
    guard =
        let g' = learned response p.req at g in
        if p.recorded
        then g'
        else record_entry out cfg id p.req p.decision (settlement response) at.logged_at g';
    store = record store { pending = rest };
  }

  -- `onPaymentResponse`
  unfoldable pub on_payment_response : Text → Option SettleResponse → Instants → Request → Request
  unfolding answered
  on_payment_response id response at r = answered id response at r.guard r.store r.store.pending

  unfoldable pub on_event : Event → Request → Hook × Request
  unfolding on_before_payment_creation on_after_payment_creation on_payment_response
  on_event (before_payment id requirements at) r = on_before_payment_creation id requirements at r
  on_event (after_payment payload) r = on_after_payment_creation payload r
  on_event (payment_response id response at) r = (continues, on_payment_response id response at r)

  -- The events of a request, up to the first at which a hook stops it.
  unfoldable pub run_events : List Event → Request → Hook × Request
  unfolding on_event
  run_events [] r = (continues, r)
  run_events (e ∷ es) r = go_on (run_events es) (on_event e r)

-- What the caller gets: the library's response, the guard's own with status 403, or the error.
pub data Fetched : Type 0 where
  response rethrown : Fetched
  blocked : PolicyDecision → Fetched

unfoldable pub caught : List Pending → Fetched
caught [] = rethrown
caught (p ∷ _) =
    if verdict_eq p.decision.verdict Verdict.allow then rethrown else blocked p.decision

unfoldable pub concluded : Hook → Bool → List Pending → Fetched
unfolding caught
concluded Hook.continues true pending = response
concluded Hook.continues false pending = caught pending
concluded Hook.aborts returns pending = caught pending
concluded Hook.throws returns pending = caught pending

-- One call of the function that `guardedFetch` returns; `returns` is whether the library ends with a
-- response when no hook stops it.
unfoldable pub guarded_fetch :
    Outside
    → GuardConfig
    → FetchHeaders
    → (url : Text) → List Event
    → (returns : Bool) → Guard
    → Fetched × Guard
unfolding run_events concluded header_value
guarded_fetch out cfg sent url events returns g =
    let store : IntentStore = record {
      intent = header_value sent (codes "x-agent-intent");
      resource_url = some url;
      pending = [];
    } in
    let (hook, r) = run_events out cfg events (record { guard = g; store = store }) in
    (concluded hook returns r.store.pending, r.guard)
