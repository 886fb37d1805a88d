-- ===== src/Guard/Verdict/Meaning.antt =====
-- When a request is let in, and what each of the three verdicts says of the checks.
use agentct.Base.{
  pos, ◌<ℤ◌, Text, starts_with, any, Bool, true, false, ◌&&◌, ◌||◌, none, List, [], ◌∷◌, ◌≡◌, refl,
  ◌↔◌, ◌⊎◌, arith,
}
use agentct.Base.Double.{Double, le}
use agentct.Types.{PaymentRequest, PolicyCheck, Verdict, AnomalyAction, Severity}
use agentct.Policy.Rules.Outcomes.{is_critical, severity_critical}
use agentct.Guard.Verdict.{
  evm, is_caip2, check_field, address_problem, validate_request, critical, hard, soft,
  anomaly_triggered, aggregate_verdict,
}

module _ (is_address : Bool → Text → Bool) where
  -- An address that both forms of the test accept.
  abbrev pub address_ok : Text → Bool
  address_ok a = is_address false a && is_address true a

  -- A request is let in exactly when its amount is positive, its chain is a CAIP-2 id and, on an EVM
  -- chain, its recipient and its token are addresses by the loose and by the strict test.
  pub validate_request_iff :
      (req : PaymentRequest)
      → (validate_request is_address req ≡ none) ↔ (
          (pos 0 <ℤ req.amount)
          × (is_caip2 req.chain ≡ true)
          × ((starts_with req.chain evm ≡ false)
              ⊎ ((address_ok req.recipient ≡ true) × (address_ok req.token ≡ true))))
  unfolding validate_request check_field address_problem
  validate_request_iff req = (λ h. (ground arith, ground arith, ground arith), λ m. ground arith)

critical_same : (s : Severity) → severity_critical s ≡ critical s
critical_same Severity.info = refl
critical_same Severity.warning = refl
critical_same Severity.critical = refl

any-critical :
    (checks : List PolicyCheck) → any is_critical checks ≡ (any hard checks || any soft checks)
any-critical [] = refl
any-critical (c ∷ checks) = ground (arith, critical_same c.severity, any-critical checks)

-- The verdict over a list of checks is to allow exactly when no critical check failed, the score
-- does not reach the threshold and no rule asked for a human. It is to block exactly when a
-- critical check outside the behavioral layer failed, or the anomaly action is to block and the
-- score reaches the threshold or a critical behavioral check failed.
pub aggregate_verdict_iff :
    (checks : List PolicyCheck) (score threshold : Double) (action : AnomalyAction)
    (policy_escalate : Bool)
    → let v = aggregate_verdict checks score threshold action policy_escalate in
      ((v ≡ Verdict.allow) ↔ (
        (any is_critical checks ≡ false)
        × (le threshold score ≡ false)
        × (policy_escalate ≡ false)))
      × ((v ≡ Verdict.block) ↔ (
          (any hard checks ≡ true)
          ⊎ ((action ≡ AnomalyAction.block)
              × ((le threshold score ≡ true) ⊎ (any soft checks ≡ true)))))
unfolding aggregate_verdict anomaly_triggered
aggregate_verdict_iff checks score threshold AnomalyAction.block policy_escalate =
    let all_critical = any-critical checks in (ground arith, ground arith)
aggregate_verdict_iff checks score threshold AnomalyAction.escalate policy_escalate =
    let all_critical = any-critical checks in (ground arith, ground arith)
