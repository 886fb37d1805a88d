-- ===== src/Tests/Racing.antt =====
-- Two payments of 60 and 45 units at once, where at most 100 an hour may go out.
use agentct.Base.{pos, ◌+ℤ◌, codes, text_eq, starts_with, lower, true, ◌&&◌, some, none, ◌≡◌, refl}
use agentct.Types.{PaymentRequest, PolicyDecision, Settlement, SpendWindow}
use agentct.Base.Double
use agentct.Base.Double.{le}
use agentct.Breaker
use agentct.Policy.Evaluator
use agentct.Policy.Evaluator.{windowed_spend, after_cutoff}
use agentct.Policy.Evaluator.Windows.{amount_if}
use agentct.Policy.Rules.{check_spend_cap, check_rate_limit}
use agentct.Behavioral.Scorer
use agentct.Behavioral.Baseline.{z_score, extract_features}
use agentct.Intent.Registry
use agentct.Intent.Reconcile
use agentct.X402.Chains.{get_chain}
use agentct.X402.Inspect.{authorization_matches}
use agentct.Guard.State.{Guard}
use agentct.Guard.Payment.{Executed}
use agentct.Guard.Evaluation.{evaluate, decide, run_guard}
use agentct.Guard.Verdict.{validate_request, aggregate_verdict}
use agentct.Guard.Interleaving.{interleaved, interleaved-unaware}
use agentct.Tests.Samples.{alice, bob, payment, usdc, outside, config, new_guard, all_at}

abbrev req₁ : PaymentRequest
req₁ = payment (pos 60) alice

abbrev req₂ : PaymentRequest
req₂ = payment (pos 45) bob

abbrev after_first : Guard
after_first = record new_guard {
  breaker = (run_guard outside config new_guard req₁ (all_at 1000)).2.breaker;
}

abbrev d₁ : PolicyDecision
d₁ = decide outside config new_guard req₁ (all_at 1000)

abbrev d₂ : PolicyDecision
d₂ = decide outside config after_first req₂ (all_at 1001)

abbrev done : Settlement
done = record {
  tx_hash = some (codes "0xAB");
  nonce = none;
  facilitator = some config.facilitator_url;
  success = true;
}

settles₁ :
    (interleaved outside config
      (codes "a")
      (codes "b")
      new_guard
      req₁
      req₂
      (all_at 1000)
      (all_at 1001)).0
    ≡ Executed.settled d₁ done
unfolding interleaved run_guard evaluate decide starts_with text_eq Breaker.is_open validate_request
    aggregate_verdict Evaluator.evaluate check_spend_cap ◌+ℤ◌ check_rate_limit Scorer.score
    Double.abs z_score Scorer.new_scorer Double.neg extract_features Registry.check Reconcile.check
    le Double.max Double.min get_chain authorization_matches lower Breaker.record_event
settles₁ = refl

settles₂ :
    (interleaved outside config
      (codes "a")
      (codes "b")
      new_guard
      req₁
      req₂
      (all_at 1000)
      (all_at 1001)).1
    ≡ Executed.settled d₂ done
unfolding interleaved run_guard evaluate decide starts_with text_eq Breaker.is_open validate_request
    aggregate_verdict Evaluator.evaluate check_spend_cap ◌+ℤ◌ check_rate_limit Scorer.score
    Double.abs z_score Scorer.new_scorer Double.neg extract_features Registry.check Reconcile.check
    le Double.max Double.min get_chain authorization_matches lower Breaker.record_event
settles₂ = refl

interleaved-unaware_example :
    (d₁ ≡ decide outside config new_guard req₁ (all_at 1000))
    × (d₂ ≡ decide outside config after_first req₂ (all_at 1001))
    × (windowed_spend
          (interleaved outside config
            (codes "a")
            (codes "b")
            new_guard
            req₁
            req₂
            (all_at 1000)
            (all_at 1001)).2.evaluator
          2000
          SpendWindow.hour
          usdc
        ≡ windowed_spend new_guard.evaluator 2000 SpendWindow.hour usdc
          +ℤ amount_if
              (text_eq (lower usdc) (lower usdc) && after_cutoff SpendWindow.hour 2000 1000)
              (pos 60)
          +ℤ amount_if
              (text_eq (lower usdc) (lower usdc) && after_cutoff SpendWindow.hour 2000 1001)
              (pos 45))
interleaved-unaware_example =
    interleaved-unaware outside config (codes "a") (codes "b") new_guard req₁ req₂ (all_at 1000)
      (all_at 1001) d₁ d₂ done done 2000 SpendWindow.hour usdc settles₁ settles₂ refl refl
