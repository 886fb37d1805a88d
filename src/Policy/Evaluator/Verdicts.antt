-- ===== src/Policy/Evaluator/Verdicts.antt =====
-- What an evaluation reports, rule by rule: the loop's accumulators against the list of rules.
use agentct.Base.{
  ℕ, ltb, Text, text_eq, lower, append_assoc, append-nil, any, any-append, Bool, false, not, ◌&&◌,
  ◌||◌, Option, List, [], ◌∷◌, ◌++◌, ◌≡◌, refl, sym, ap, ap₂, ◌∙◌, arith, if◌then◌else◌,
}
use agentct.Types.{PaymentRequest, PolicyCheck, PolicyRule, SpendCapRule}
use agentct.Policy.Allowlist.{Url}
use agentct.Policy.Rules.{RuleContext, check_spend_cap}
use agentct.Policy.Rules.Outcomes.{is_critical, blocks}
use agentct.Policy.Evaluator.{
  Evaluator, context, coverage, Tally, start_tally, is_spend_cap, to_list, is_some, dispatch,
  tally_rule, tally_rules, evaluate,
}

-- A spend cap for the payment's token.
abbrev pub targets : PaymentRequest → PolicyRule → Bool
targets req (PolicyRule.spend_cap r) = text_eq (lower r.token) (lower req.token)
targets req _ = false

leaves_check :
    (r : SpendCapRule) (ctx : RuleContext)
    → is_some (check_spend_cap r ctx).check ≡ text_eq (lower r.token) (lower ctx.req.token)
unfolding check_spend_cap
leaves_check r ctx = ground arith

module _ (parse_url : Text → Option Url) where
  -- The checks that the rules leave, in the rules' order.
  abbrev pub rule_checks : RuleContext → List PolicyRule → List PolicyCheck
  rule_checks ctx [] = []
  rule_checks ctx (r ∷ rules) = to_list (dispatch parse_url r ctx).check ++ rule_checks ctx rules

  tally-checks :
      (ctx : RuleContext) (rules : List PolicyRule) (t : Tally)
      → (tally_rules parse_url ctx rules t).checks ≡ t.checks ++ rule_checks ctx rules
  unfolding tally_rules
  tally-checks ctx [] t = sym (append-nil t.checks)
  tally-checks ctx (r ∷ rules) t =
      tally-checks ctx rules (tally_rule parse_url ctx r t)
      ∙ append_assoc t.checks (to_list (dispatch parse_url r ctx).check) (rule_checks ctx rules)

  tally-escalate :
      (ctx : RuleContext) (rules : List PolicyRule) (t : Tally)
      → (tally_rules parse_url ctx rules t).escalate
        ≡ (t.escalate || any (λ r. (dispatch parse_url r ctx).escalate) rules)
  unfolding tally_rules
  tally-escalate ctx [] t = ground arith
  tally-escalate ctx (r ∷ rules) t =
      ground (arith, tally-escalate ctx rules (tally_rule parse_url ctx r t))

  tally-rules_count :
      (ctx : RuleContext) (rules : List PolicyRule) (t : Tally)
      → ltb 0 (tally_rules parse_url ctx rules t).spend_cap_rules
        ≡ (ltb 0 t.spend_cap_rules || any is_spend_cap rules)
  unfolding tally_rules
  tally-rules_count ctx [] t = ground arith
  tally-rules_count ctx (r ∷ rules) t =
      ground (arith, tally-rules_count ctx rules (tally_rule parse_url ctx r t))

  -- A spend cap that leaves a check: one that targets the payment's token.
  abbrev pub applied : RuleContext → PolicyRule → Bool
  applied ctx r = is_spend_cap r && is_some (dispatch parse_url r ctx).check

  tally-applied_count :
      (ctx : RuleContext) (rules : List PolicyRule) (t : Tally)
      → ltb 0 (tally_rules parse_url ctx rules t).spend_cap_applied
        ≡ (ltb 0 t.spend_cap_applied || any (applied ctx) rules)
  unfolding tally_rules
  tally-applied_count ctx [] t = ground arith
  tally-applied_count ctx (r ∷ rules) t =
      ground (arith, tally-applied_count ctx rules (tally_rule parse_url ctx r t))

  applied-targets :
      (ev : Evaluator) (req : PaymentRequest) (now : ℕ) (rules : List PolicyRule)
      → any (applied (context ev req now)) rules ≡ any (targets req) rules
  unfolding dispatch
  applied-targets ev req now [] = refl
  applied-targets ev req now (PolicyRule.spend_cap r ∷ rules) =
      ap₂ ◌||◌ (leaves_check r (context ev req now)) (applied-targets ev req now rules)
  applied-targets ev req now (_ ∷ rules) = applied-targets ev req now rules

  -- An evaluation lists the checks of the rules, in order, and behind them the coverage warning
  -- exactly when the policy has spend caps and none of them is for the payment's token; it
  -- escalates exactly when some rule asks to.
  pub evaluate_lem :
      (rules : List PolicyRule) (ev : Evaluator) (req : PaymentRequest) (now : ℕ)
      → let ctx = context ev req now in
        ((evaluate parse_url rules ev req now).checks
          ≡ rule_checks ctx rules
            ++ (if any is_spend_cap rules && not (any (targets req) rules)
                then coverage req ∷ []
                else []))
        × ((evaluate parse_url rules ev req now).escalate
            ≡ any (λ r. (dispatch parse_url r ctx).escalate) rules)
  unfolding evaluate
  evaluate_lem rules ev req now =
      let ctx = context ev req now in
      (
        ground (
          arith,
          tally-checks ctx rules start_tally,
          tally-rules_count ctx rules start_tally,
          tally-applied_count ctx rules start_tally,
          applied-targets ev req now rules,
          append-nil (rule_checks ctx rules),
        ),
        tally-escalate ctx rules start_tally,
      )

  any-rule_checks :
      (ctx : RuleContext) (rules : List PolicyRule)
      → any is_critical (rule_checks ctx rules) ≡ any (λ r. blocks (dispatch parse_url r ctx)) rules
  any-rule_checks ctx [] = refl
  any-rule_checks ctx (r ∷ rules) = ground (
    arith,
    any-append is_critical (to_list (dispatch parse_url r ctx).check) (rule_checks ctx rules),
    any-rule_checks ctx rules,
  )

  -- An evaluation holds a failed critical check exactly when some rule blocks.
  pub any-evaluate :
      (rules : List PolicyRule) (ev : Evaluator) (req : PaymentRequest) (now : ℕ)
      → any is_critical (evaluate parse_url rules ev req now).checks
        ≡ any (λ r. blocks (dispatch parse_url r (context ev req now))) rules
  any-evaluate rules ev req now =
      let ctx = context ev req now in
      let tail =
        if any is_spend_cap rules && not (any (targets req) rules) then coverage req ∷ [] else [] in
      ap (any is_critical) (evaluate_lem rules ev req now).0
      ∙ any-append is_critical (rule_checks ctx rules) tail
      ∙ ground (arith, any-rule_checks ctx rules)
