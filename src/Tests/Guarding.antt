-- ===== src/Tests/Guarding.antt =====
-- A guard with an hourly cap of 100 units and two payments a minute, and the payments of an agent.
use agentct.Base.{
  ◌≤◌, pos, ◌+ℤ◌, ◌≤ℤ◌, codes, text_eq, starts_with, lower, true, false, none, some, ◌≡◌, refl, ◌↔◌,
  inl, inr, arith, int_laws,
}
use agentct.Base.Double.{Double, zero_double, one_double, le}
use agentct.Types.{
  PaymentRequest, PolicyCheck, PolicyDecision, Settlement, SpendWindow, AnomalyAction, PolicyRule,
  AuditEntry,
}
use agentct.Types
use agentct.Policy.Evaluator.{windowed_spend, recent_payment_count}
use agentct.Policy.Evaluator.Caps.{Within}
use agentct.Policy.Evaluator.Rates.{WithinRate}
use agentct.Base.Double
use agentct.Breaker
use agentct.Policy.Evaluator
use agentct.Policy.Rules.{check_spend_cap, check_rate_limit}
use agentct.Behavioral.Scorer
use agentct.Behavioral.Baseline.{z_score, extract_features}
use agentct.Intent.Registry
use agentct.Intent.Reconcile
use agentct.X402.Chains.{get_chain}
use agentct.X402.Inspect.{authorization_matches}
use agentct.Guard.Payment.{Executed, execute}
use agentct.Guard.Evaluation.{evaluate, breaker_open, decide, allowed, run_guard}
use agentct.Guard.Verdict.{validate_request, aggregate_verdict}
use agentct.Guard.Decisions.{Layers, decide-allow_iff}
use agentct.Guard.Execution.{after, Paid, execute-after, execute-settled}
use agentct.Guard.Caps.{Timed, Executes, History, History-capped, History-rated}
use agentct.Tests.Samples.{
  alice, payment, usdc, hourly_cap, two_a_minute, outside, config, new_guard, all_at,
}

abbrev req : PaymentRequest
req = payment (pos 40) alice

decide-allow_iff_example :
    ((decide outside config new_guard req (all_at 1000)).verdict ≡ Types.Verdict.allow) ↔ (
      ((breaker_open config.circuit 1000 new_guard.breaker).0 ≡ false)
      × (validate_request outside.is_address req ≡ none)
      × Layers outside config new_guard req (all_at 1000))
decide-allow_iff_example = decide-allow_iff outside config new_guard req (all_at 1000)

execute-after_example :
    let (o, g') = execute outside config (codes "row") new_guard req (all_at 1000) in
    g'
    ≡ after outside config
        (codes "row")
        req
        (all_at 1000)
        o
        (run_guard outside config new_guard req (all_at 1000)).2
execute-after_example = execute-after outside config (codes "row") new_guard req (all_at 1000)

abbrev decision : PolicyDecision
decision = decide outside config new_guard req (all_at 1000)

abbrev settlement : Settlement
settlement = record {
  tx_hash = some (codes "0xAB");
  nonce = none;
  facilitator = some config.facilitator_url;
  success = true;
}

settles :
    (execute outside config (codes "row") new_guard req (all_at 1000)).0
    ≡ Executed.settled decision settlement
unfolding execute run_guard evaluate decide starts_with text_eq Breaker.is_open validate_request
    aggregate_verdict Evaluator.evaluate check_spend_cap ◌+ℤ◌ check_rate_limit Scorer.score
    Double.abs z_score Scorer.new_scorer Double.neg extract_features Registry.check Reconcile.check
    le Double.max Double.min get_chain authorization_matches lower
settles = refl

execute-settled_example :
    (decision ≡ decide outside config new_guard req (all_at 1000))
    × (allowed outside config req decision decision.verdict ≡ some true)
    × Paid outside config req settlement
execute-settled_example =
    execute-settled outside config (codes "row") new_guard req (all_at 1000) decision settlement
      settles

abbrev start : Timed
start = record { guard = new_guard; clock = 0 }

abbrev finish : Timed
finish = record {
  guard = (execute outside config (codes "row") new_guard req (all_at 1000)).1;
  clock = 1000;
}

abbrev one_payment : History outside config start finish
one_payment =
    History.then_call History.start
      (Executes.call (codes "row") req (all_at 1000) (omega arith) (omega arith))

no_spend :
    Within outside.parse_url config.rules hourly_cap
      (record { evaluator = new_guard.evaluator; clock = 0 })
unfolding windowed_spend
no_spend = record { nonneg = tt; capped = λ t h. omega int_laws }

History-capped_example : windowed_spend finish.guard.evaluator 2000 SpendWindow.hour usdc ≤ℤ pos 100
History-capped_example =
    History-capped outside config hourly_cap (inl refl) (λ h. cc) no_spend one_payment 2000
      (omega arith)

none_recent : WithinRate two_a_minute (record { evaluator = new_guard.evaluator; clock = 0 })
unfolding recent_payment_count
none_recent t h = omega arith

History-rated_example : recent_payment_count finish.guard.evaluator 2000 60 ≤ 2
History-rated_example =
    History-rated outside config two_a_minute (inr (inl refl)) none_recent one_payment 2000
      (omega arith)
