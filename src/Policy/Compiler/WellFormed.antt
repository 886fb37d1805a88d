-- ===== src/Policy/Compiler/WellFormed.antt =====
-- What every compiled policy satisfies.
use agentct.Base.{
  Text, is_empty, codes, or_else, lower, trim, filter, filter-All, All, true, not, Option, some,
  List, [], ◌∷◌, map, ◌≡◌, refl, sym, ap,
}
use agentct.Base.Double.{Double}
use agentct.Base.Js.{Value}
use mathlib.Core.Path.{subst}
use agentct.Types.{PolicyRule, Policy}
use agentct.X402.Chains.{ChainConfig, get_chain}
use agentct.Policy.Schema.{
  Numbers, RuleInput, spend_cap, allowlist, rate_limit, counterparty, time_window, hour, positive,
  positive_integer, unit_interval, compiler_output,
}
use agentct.Policy.Schema.Refinements.{bind-some, Valid, output-Valid}
use agentct.Policy.Compiler.{
  Units, usd_to_token_units, optional_units, to_policy_rule, to_policy_rules, compile_policy_object,
}

module _ (nums : Numbers) where
  module _ (units : Units) (usdc : Text) where
    -- What a rule of a compiled policy is made of.
    abbrev pub WellFormed : PolicyRule → Type 0
    WellFormed (PolicyRule.spend_cap r) =
        (r.token ≡ usdc)
        × ((usd : Double) × (positive usd ≡ true)
            × (usd_to_token_units units usd ≡ some r.max_amount))
    WellFormed (PolicyRule.allowlist r) = All (λ (e : Text). not (is_empty e) ≡ true) r.entries
    WellFormed (PolicyRule.rate_limit r) =
        (n : Double) × (w : Double) × (positive_integer nums n ≡ true)
        × (positive_integer nums w ≡ true)
        × (r.max_payments ≡ units.nat_of n)
        × (r.window_seconds ≡ units.nat_of w)
    WellFormed (PolicyRule.counterparty r) = Unit
    WellFormed (PolicyRule.time_window r) =
        (a : Double) × (b : Double) × (hour nums a ≡ true)
        × (hour nums b ≡ true)
        × (r.allowed_hours ≡ (units.nat_of a, units.nat_of b))

    to_policy_rule-WellFormed :
        (r : RuleInput) (rule : PolicyRule)
        → Valid nums r
        → to_policy_rule units usdc r ≡ some rule
        → WellFormed rule
    unfolding to_policy_rule
    to_policy_rule-WellFormed (spend_cap r) rule valid h =
        let (max, amount, h1) = bind-some (usd_to_token_units units r.max_amount) _ h in
        let (above, escalate, h2) = bind-some (optional_units units r.escalate_above) _ h1 in
        let made : PolicyRule.spend_cap
              (record { window = r.window; max_amount = max; token = usdc; escalate_above = above })
            ≡ rule =
          cc in
        subst WellFormed made (refl, (r.max_amount, valid, amount))
    to_policy_rule-WellFormed (allowlist r) rule valid h =
        let kept = filter (λ e. not (is_empty e)) (map (λ e. trim (lower e)) r.entries) in
        let made : PolicyRule.allowlist
              (record { mode = r.mode; entries = kept; enforce = r.enforce })
            ≡ rule =
          cc in
        subst WellFormed made
          (filter-All (λ e. not (is_empty e)) (map (λ e. trim (lower e)) r.entries))
    to_policy_rule-WellFormed (rate_limit r) rule (n, w) h =
        let made : PolicyRule.rate_limit (record {
          max_payments = units.nat_of r.max_payments;
          window_seconds = units.nat_of r.window_seconds;
        })
            ≡ rule =
          cc in
        subst WellFormed made (r.max_payments, r.window_seconds, n, w, refl, refl)
    to_policy_rule-WellFormed (counterparty r) rule valid h =
        let made : PolicyRule.counterparty
              (record { flag_new_recipients = r.flag_new_recipients; action = r.action })
            ≡ rule =
          cc in
        subst WellFormed made tt
    to_policy_rule-WellFormed (time_window r) rule (a, b) h =
        let made : PolicyRule.time_window (record {
          allowed_hours = (units.nat_of r.allowed_hours.0, units.nat_of r.allowed_hours.1);
          action = r.action;
        })
            ≡ rule =
          cc in
        subst WellFormed made (r.allowed_hours.0, r.allowed_hours.1, a, b, refl)

    to_policy_rules-WellFormed :
        (rs : List RuleInput) (rules : List PolicyRule)
        → All (Valid nums) rs
        → to_policy_rules units usdc rs ≡ some rules
        → All WellFormed rules
    unfolding to_policy_rules
    to_policy_rules-WellFormed [] rules valid h =
        let e : [] ≡ rules = cc in subst (All WellFormed) e tt
    to_policy_rules-WellFormed (r ∷ rs) rules valid h =
        let (rule, first, h1) = bind-some (to_policy_rule units usdc r) _ h in
        let (rest, others, h2) = bind-some (to_policy_rules units usdc rs) _ h1 in
        let e : rule ∷ rest ≡ rules = cc in
        subst (All WellFormed) e (
          to_policy_rule-WellFormed r rule valid.0 first,
          to_policy_rules-WellFormed rs rest valid.1 others,
        )

  -- Every policy that compilePolicyObject returns, whatever the object that the language model made
  -- up, is on a known chain and well formed: each spend cap is in that chain's USDC and is the token
  -- units of a positive dollar amount, no allowlist has an empty entry, each rate limit is a positive
  -- integer over a positive integer of seconds, the hours of a time window are integers from 0 to 24,
  -- and the anomaly threshold lies between 0 and 1. The agent and the source text are those given.
  pub compile_policy_object-WellFormed :
      (units : Units) (input : Value) (agent : Text) (source chain : Option Text) (policy : Policy)
      → compile_policy_object units nums input agent source chain ≡ some policy
      → (cfg : ChainConfig) × (get_chain (or_else chain (codes "eip155:84532")) ≡ some cfg)
        × All (WellFormed units cfg.usdc) policy.rules
        × (unit_interval policy.anomaly_threshold ≡ true)
        × (policy.agent_id ≡ agent)
        × (policy.source_text ≡ source)
  unfolding compile_policy_object
  compile_policy_object-WellFormed units input agent source chain policy h =
      let (out, parsed, h1) = bind-some (compiler_output nums input) _ h in
      let (cfg, known, h2) = bind-some (get_chain (or_else chain (codes "eip155:84532"))) _ h1 in
      let (rules, converted, h3) = bind-some (to_policy_rules units cfg.usdc out.rules) _ h2 in
      let (valid, threshold) = output-Valid nums input out parsed in
      let made : ◌≡◌ {A = Policy}
          (record {
            agent_id = agent;
            rules = rules;
            anomaly_threshold = out.anomaly_threshold;
            anomaly_action = out.anomaly_action;
            source_text = source;
          })
          policy =
        cc in
      (
        cfg,
        known,
        subst (λ (p : Policy). All (WellFormed units cfg.usdc) p.rules) made
            (to_policy_rules-WellFormed units cfg.usdc out.rules rules valid converted),
        subst (λ (p : Policy). unit_interval p.anomaly_threshold ≡ true) made threshold,
        ap (λ (p : Policy). p.agent_id) (sym made),
        ap (λ (p : Policy). p.source_text) (sym made),
      )
