-- ===== src/Guard/Fetch/Trail.antt =====
-- The guarded fetch against `execute`, and what its hooks leave in the audit log.
use agentct.Base.{
  Text, codes, Bool, true, false, Option, none, some, List, [], ◌∷◌, ◌≡◌, refl, ap, ◌∙◌, inl, inr,
  Bool-cases,
}
use agentct.Types.{PaymentRequest, PolicyDecision}
use agentct.X402.Chains.{ChainConfig, get_chain}
use agentct.X402.Inspect.{Payload, authorization_matches}
use agentct.X402.Interceptor.{
  IntentStore, PaymentRequirements, FetchHeaders, header_value, requirements_to_payment_request,
}
use agentct.Guard.State.{SettleResponse, Outside, GuardConfig, Guard, Instants}
use agentct.Guard.Evaluation.{run_guard}
use agentct.Guard.Payment.{finish, submit, pay, proceed, execute}
use agentct.Guard.Fetch.{
  Event, before_payment, after_payment, payment_response, decided, asked,
  on_before_payment_creation, on_after_payment_creation, answered, on_payment_response, on_event,
  go_on, run_events, guarded_fetch,
}

abbrev pub store_of : FetchHeaders → Text → IntentStore
store_of sent url = record {
  intent = header_value sent (codes "x-agent-intent");
  resource_url = some url;
  pending = [];
}

module _ (out : Outside) (cfg : GuardConfig) where
  -- The events of one payment that the library sees through.
  abbrev pub one_payment :
      Text → PaymentRequirements → Instants → Payload → SettleResponse → List Event
  one_payment id requirements at payload response =
      before_payment id requirements at
      ∷ after_payment payload
      ∷ payment_response id (some response) at
      ∷ []

  fetch-proceed :
      (id : Text) (req : PaymentRequest) (at : Instants) (payload : Payload)
      (response : SettleResponse) (store : IntentStore) (ok : Option Bool)
      (decision : PolicyDecision) (g : Guard)
      → out.spine_ready ≡ true
      → (chain : ChainConfig) → get_chain req.chain ≡ some chain
      → out.create_payload req ≡ some payload
      → out.settle payload req ≡ some response
      → store.pending ≡ []
      → let rest = after_payment payload ∷ payment_response id (some response) at ∷ [] in
        (go_on (run_events out cfg rest) (decided out cfg id req at store ok decision g)).1.guard
        ≡ (proceed out cfg id req at ok decision g).1
  unfolding decided proceed run_events on_event on_after_payment_creation on_payment_response
      answered pay submit finish
  fetch-proceed id req at payload response store none decision g ready chain c p s e = refl
  fetch-proceed id req at payload response store (some false) decision g ready chain c p s e = refl
  fetch-proceed id req at payload response store (some true) decision g ready chain c p s e =
      elim (Bool-cases (authorization_matches payload req)) [
        | inl good ↦ rw (ready, c, p, good, s) refl
        | inr bad ↦ rw (ready, c, p, bad) refl
      ]

  -- A payment that the x402 library makes through the guarded fetch leaves the same guard behind as
  -- `execute` of the payment that the server's requirements ask for, with its audit row and whatever
  -- the layers learned, whether it is blocked, refused by the human, stopped because the signed
  -- payload differs from the request, or settled or not; the two are given the same payload, the same
  -- answer of the facilitator and the same readings of the clock, and the wallet is ready, the chain
  -- known and the amount an integer.
  pub fetch-execute :
      (sent : FetchHeaders) (url id : Text) (requirements : PaymentRequirements) (at : Instants)
      (req : PaymentRequest) (payload : Payload) (response : SettleResponse) (returns : Bool)
      (chain : ChainConfig) (g : Guard)
      → requirements_to_payment_request requirements cfg.agent_id (store_of sent url) ≡ some req
      → out.spine_ready ≡ true
      → get_chain req.chain ≡ some chain
      → out.create_payload req ≡ some payload
      → out.settle payload req ≡ some response
      → (guarded_fetch out cfg sent url
          (one_payment id requirements at payload response)
          returns
          g).1
        ≡ (execute out cfg id g req at).1
  unfolding guarded_fetch run_events on_event on_before_payment_creation asked execute
  fetch-execute sent url id requirements at req payload response returns chain g q ready c p s =
      let store = store_of sent url in
      let rest = after_payment payload ∷ payment_response id (some response) at ∷ [] in
      let decision = run_guard out cfg g req at in
      ap
        (λ (o : Option PaymentRequest).
          (go_on (run_events out cfg rest)
            (asked out cfg id at o (record { guard = g; store = store }))).1.guard)
        q
      ∙ fetch-proceed id req at payload response store decision.0 decision.1 decision.2 ready chain
          c p s refl
