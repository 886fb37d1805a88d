-- ===== src/Guard/Ids.antt =====
-- The ids of the rules' checks, by which aggregateVerdict of packages/core/src/index.ts tells them from
-- the behavioral layer's.
use agentct.Base.{
  ℕ, Text, starts_with, any, any-append, Bool, true, false, not, ◌&&◌, ◌||◌, Option, List, [], ◌∷◌,
  ◌≡◌, refl, sym, ap, ap₂, ◌∙◌, arith, if◌then◌else◌,
}
use agentct.Types.{
  PaymentRequest, PolicyRule, SpendCapRule, AllowlistRule, RateLimitRule, CounterpartyRule,
  TimeWindowRule,
}
use agentct.Policy.Allowlist.{Url}
use agentct.Policy.Rules.{
  RuleContext, RuleResult, check_spend_cap, check_allowlist, check_rate_limit, check_counterparty,
  check_time_window,
}
use agentct.Policy.Rules.Outcomes.{is_critical}
use agentct.Policy.Evaluator.{context, coverage, dispatch, to_list, is_spend_cap, evaluate}
use agentct.Policy.Evaluator
use agentct.Policy.Evaluator.Verdicts.{rule_checks, targets, evaluate_lem}
use agentct.Guard.Verdict.{hard}

-- A rule's check carries an id of its own, none of the behavioral layer's: if it is critical, it
-- counts as such.
abbrev OwnId : RuleResult → Type 0
OwnId res = any hard (to_list res.check) ≡ any is_critical (to_list res.check)

spend_cap-OwnId : (rule : SpendCapRule) (ctx : RuleContext) → OwnId (check_spend_cap rule ctx)
unfolding check_spend_cap starts_with
spend_cap-OwnId rule ctx = ground arith

rate_limit-OwnId : (rule : RateLimitRule) (ctx : RuleContext) → OwnId (check_rate_limit rule ctx)
unfolding check_rate_limit starts_with
rate_limit-OwnId rule ctx = ground arith

counterparty-OwnId :
    (rule : CounterpartyRule) (ctx : RuleContext) → OwnId (check_counterparty rule ctx)
unfolding check_counterparty starts_with
counterparty-OwnId rule ctx = ground arith

time_window-OwnId : (rule : TimeWindowRule) (ctx : RuleContext) → OwnId (check_time_window rule ctx)
unfolding check_time_window starts_with
time_window-OwnId rule ctx = ground arith

module _ (parse_url : Text → Option Url) where
  allowlist-OwnId :
      (rule : AllowlistRule) (ctx : RuleContext) → OwnId (check_allowlist parse_url rule ctx)
  unfolding check_allowlist starts_with
  allowlist-OwnId rule ctx = ground arith

  dispatch-OwnId : (rule : PolicyRule) (ctx : RuleContext) → OwnId (dispatch parse_url rule ctx)
  unfolding dispatch
  dispatch-OwnId (PolicyRule.spend_cap rule) ctx = spend_cap-OwnId rule ctx
  dispatch-OwnId (PolicyRule.allowlist rule) ctx = allowlist-OwnId rule ctx
  dispatch-OwnId (PolicyRule.rate_limit rule) ctx = rate_limit-OwnId rule ctx
  dispatch-OwnId (PolicyRule.counterparty rule) ctx = counterparty-OwnId rule ctx
  dispatch-OwnId (PolicyRule.time_window rule) ctx = time_window-OwnId rule ctx

  any-hard :
      (ctx : RuleContext) (rules : List PolicyRule)
      → any hard (rule_checks parse_url ctx rules)
        ≡ any is_critical (rule_checks parse_url ctx rules)
  any-hard ctx [] = refl
  any-hard ctx (r ∷ rules) =
      let own = to_list (dispatch parse_url r ctx).check in
      any-append hard own (rule_checks parse_url ctx rules)
      ∙ ap₂ ◌||◌ (dispatch-OwnId r ctx) (any-hard ctx rules)
      ∙ sym (any-append is_critical own (rule_checks parse_url ctx rules))

  covers-hard :
      (req : PaymentRequest) (b : Bool)
      → any hard (if b then coverage req ∷ [] else [])
        ≡ any is_critical (if b then coverage req ∷ [] else [])
  covers-hard req true = refl
  covers-hard req false = refl

  -- A failed critical check of an evaluation always counts as a hard one.
  pub evaluate-hard :
      (rules : List PolicyRule) (ev : Evaluator.Evaluator) (req : PaymentRequest) (now : ℕ)
      → any hard (evaluate parse_url rules ev req now).checks
        ≡ any is_critical (evaluate parse_url rules ev req now).checks
  evaluate-hard rules ev req now =
      let own = rule_checks parse_url (context ev req now) rules in
      let b = any is_spend_cap rules && not (any (targets req) rules) in
      let tail = if b then coverage req ∷ [] else [] in
      let listed = (evaluate_lem parse_url rules ev req now).0 in
      ap (any hard) listed
      ∙ any-append hard own tail
      ∙ ap₂ ◌||◌ (any-hard (context ev req now) rules) (covers-hard req b)
      ∙ sym (any-append is_critical own tail)
      ∙ sym (ap (any is_critical) listed)
