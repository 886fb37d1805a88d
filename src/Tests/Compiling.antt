-- ===== src/Tests/Compiling.antt =====
-- A policy that a language model made up, and a tool that pays.
use agentct.Base.{
  pos, Text, codes, text_eq, starts_with, lower, All, true, Option, none, some, [], ◌∷◌, ◌+ℤ◌, ◌≡◌,
  refl,
}
use agentct.Base.Double
use agentct.Base.Double.{Double, zero_double, one_double, lt, le}
use agentct.Base.Js.{Value, str, num, arr, obj, field, no_fields, element, no_values}
use agentct.Types.{Policy, PolicyRule, SpendWindow, AnomalyAction, Settlement}
use agentct.Breaker
use agentct.Policy.Evaluator
use agentct.Policy.Rules.{check_spend_cap, check_rate_limit}
use agentct.Behavioral.Scorer
use agentct.Behavioral.Baseline.{z_score, extract_features}
use agentct.Intent.Registry
use agentct.Intent.Reconcile
use agentct.X402.Inspect.{authorization_matches}
use agentct.Guard.Payment.{execute}
use agentct.Guard.Evaluation.{evaluate, decide, run_guard}
use agentct.Guard.Verdict.{validate_request, aggregate_verdict}
use agentct.X402.Chains.{ChainConfig, get_chain}
use agentct.Policy.Schema.{Numbers, unit_interval, compiler_output, default_threshold}
use agentct.Policy.Compiler.{Units, compile_policy_object}
use agentct.Policy.Compiler.WellFormed.{WellFormed, compile_policy_object-WellFormed}
use agentct.Integrations.{PaymentToolInput, ToolAmount, ToolResult, wrap_payment_tool}
use agentct.Integrations.Tools.{Behind, wrap_payment_tool-ran}
use agentct.Tests.Samples.{alice, usdc, chain_id, outside, config, new_guard, all_at}

abbrev number_of : Option Value → Double
number_of (some (num d)) = d
number_of _ = zero_double

abbrev nums : Numbers
nums = record { number_of = number_of; is_integer = λ d. true }

abbrev units : Units
units = record { decimal = λ d. codes "1"; parse_units = λ t. some (pos 1000000); nat_of = λ d. 1 }

-- A dollar a day.
abbrev answer : Value
answer = obj (
    field (codes "rules")
      (arr (
        element
          (obj (
            field (codes "type") (str (codes "spend-cap")) (
              field (codes "window") (str (codes "day"))
                (field (codes "maxAmount") (num one_double) no_fields))))
          no_values))
      no_fields)

abbrev compiled : Policy
compiled = record {
  agent_id = codes "agent";
  rules =
      PolicyRule.spend_cap (record {
        window = SpendWindow.day;
        max_amount = pos 1000000;
        token = usdc;
        escalate_above = none;
      })
      ∷ [];
  anomaly_threshold = default_threshold;
  anomaly_action = AnomalyAction.escalate;
  source_text = some (codes "a dollar a day");
}

compiles :
    compile_policy_object units nums answer (codes "agent") (some (codes "a dollar a day")) none
    ≡ some compiled
unfolding compile_policy_object compiler_output text_eq lt get_chain Double.is_finite
compiles = refl

compile_policy_object-WellFormed_example :
    (cfg : ChainConfig) × (get_chain chain_id ≡ some cfg)
    × All (WellFormed nums units cfg.usdc) compiled.rules
    × (unit_interval default_threshold ≡ true)
    × (codes "agent" ≡ codes "agent")
    × (compiled.source_text ≡ some (codes "a dollar a day"))
compile_policy_object-WellFormed_example =
    compile_policy_object-WellFormed nums units answer (codes "agent")
      (some (codes "a dollar a day")) none compiled compiles

abbrev input : PaymentToolInput
input = record {
  intent = some (codes "a quote");
  reason = none;
  amount = ToolAmount.units (pos 40);
  token = some (codes "usdc");
  recipient = alice;
  chain = none;
}

abbrev run : PaymentToolInput → Settlement → Option Text
run i s = s.tx_hash

runs :
    (wrap_payment_tool units outside config run input (codes "row") (all_at 1000) new_guard).0
    ≡ ToolResult.ran (some (codes "0xAB"))
unfolding wrap_payment_tool execute run_guard evaluate decide starts_with text_eq Breaker.is_open
    validate_request aggregate_verdict Evaluator.evaluate check_spend_cap ◌+ℤ◌ check_rate_limit
    Scorer.score Double.abs z_score Scorer.new_scorer Double.neg extract_features Registry.check
    Reconcile.check le Double.max Double.min get_chain authorization_matches lower
runs = refl

wrap_payment_tool-ran_example :
    Behind units outside config run input
      (codes "row")
      (all_at 1000)
      new_guard
      (some (codes "0xAB"))
wrap_payment_tool-ran_example =
    wrap_payment_tool-ran units outside config run input (codes "row") (all_at 1000) new_guard
      (some (codes "0xAB")) runs
