-- ===== src/Tests/Fetching.antt =====
-- A payment through the guarded fetch.
use agentct.Base.{◌+◌, pos, codes, some, true, List, [], ◌∷◌, ◌≡◌, refl}
use agentct.X402.Chains.{get_chain, base_sepolia}
use agentct.X402.Inspect
use agentct.X402.Interceptor.{
  PaymentRequirements, FetchHeaders, header_value, requirements_to_payment_request,
}
use agentct.Guard.Payment.{execute}
use agentct.Guard.Fetch.{Request, Event, run_events, guarded_fetch}
use agentct.Guard.Fetch.Trail.{store_of, one_payment, fetch-execute}
use agentct.Guard.Fetch.Recorded.{accounted, decisions, lost, run_events-accounted}
use agentct.Guard.Required.{PaymentRequired, to_payment_required, requirements-to_payment_required}
use agentct.Tests.Samples.{
  alice, payment, usdc, chain_id, shop_url, outside, config, new_guard, all_at,
}

abbrev requirements : PaymentRequirements
requirements = record { amount = codes "40"; asset = usdc; pay_to = alice; network = chain_id }

abbrev sent : FetchHeaders
sent = FetchHeaders.fields ((codes "X-Agent-Intent", codes "a quote") ∷ [])

abbrev events : List Event
events =
    one_payment outside config (codes "row") requirements (all_at 1000)
      (Inspect.eip3009 alice (pos 40)) (record { success = true; transaction = codes "0xAB" })

fetch-execute_example :
    (guarded_fetch outside config sent shop_url events true new_guard).1
    ≡ (execute outside config (codes "row") new_guard (payment (pos 40) alice) (all_at 1000)).1
unfolding get_chain requirements_to_payment_request header_value
fetch-execute_example =
    fetch-execute outside config sent shop_url (codes "row") requirements (all_at 1000)
      (payment (pos 40) alice) (Inspect.eip3009 alice (pos 40))
      (record { success = true; transaction = codes "0xAB" }) true base_sepolia new_guard refl refl
      refl refl refl

abbrev request : Request
request = record { guard = new_guard; store = store_of sent shop_url }

run_events-accounted_example :
    accounted (run_events outside config events request).1 + lost outside config events request
    ≡ accounted request + decisions outside config events request
run_events-accounted_example = run_events-accounted outside config events request

requirements-to_payment_required_example :
    let req = payment (pos 40) alice in
    (p : PaymentRequired) × (to_payment_required req ≡ some p)
    × (requirements_to_payment_request p.requirements req.agent_id
          (record { intent = some req.intent; resource_url = req.resource_url; pending = [] })
        ≡ some req)
unfolding get_chain
requirements-to_payment_required_example =
    requirements-to_payment_required (payment (pos 40) alice) base_sepolia [] refl
