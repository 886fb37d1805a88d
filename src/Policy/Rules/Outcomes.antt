-- ===== src/Policy/Rules/Outcomes.antt =====
-- What each rule decides, on every branch: hard failure, escalation, warning, pass or no check.
use agentct.Base.{
  ℕ, ◌+◌, ◌-◌, ◌<◌, ◌≤◌, ◌%◌, ltb, ◌+ℤ◌, ◌<ℤ◌, ◌≤ℤ◌, lower, Bool, true, false, not, ◌&&◌, none,
  some, ◌≡◌, ◌≢◌, ◌↔◌, ◌⊎◌, arith, if◌then◌else◌, text_eq_iff,
}
use agentct.Types.{
  PolicyCheck, Severity, RuleAction, SpendCapRule, RateLimitRule, CounterpartyRule, TimeWindowRule,
}
use agentct.Policy.Rules.{
  RuleContext, RuleResult, prior_spend, over, check_spend_cap, check_rate_limit, check_counterparty,
  check_time_window, utc_hour, in_window,
}

abbrev pub severity_critical : Severity → Bool
severity_critical Severity.critical = true
severity_critical _ = false

-- A check that blocks outright.
abbrev pub is_critical : PolicyCheck → Bool
is_critical c = not c.passed && severity_critical c.severity

-- The rule's result holds a failed critical check.
abbrev pub blocks : RuleResult → Bool
blocks r = elim r.check [ none ↦ false | some c ↦ is_critical c ]

-- The rule's result holds a check that passed.
abbrev pub passes : RuleResult → Bool
passes r = elim r.check [ none ↦ false | some c ↦ c.passed ]

-- The payment is in the rule's token, whatever the case of the two addresses.
abbrev pub Applies : SpendCapRule → RuleContext → Type 0
Applies rule ctx = lower rule.token ≡ lower ctx.req.token

-- The three outcomes of a spend cap. It blocks exactly a payment in its token that takes the
-- window's total over the cap. It asks for a human exactly when the payment is in its token, stays
-- within the cap, and its amount is over the escalation threshold, where one is set. It leaves no
-- check exactly when the payment is in another token.
pub check_spend_cap_outcomes :
    (rule : SpendCapRule) (ctx : RuleContext)
    → let total = prior_spend rule ctx +ℤ ctx.req.amount in
      ((blocks (check_spend_cap rule ctx) ≡ true) ↔ (Applies rule ctx × (rule.max_amount <ℤ total)))
      × (((check_spend_cap rule ctx).escalate ≡ true) ↔ (
          Applies rule ctx
          × (total ≤ℤ rule.max_amount)
          × (over rule.escalate_above ctx.req.amount ≡ true)))
      × (((check_spend_cap rule ctx).check ≡ none) ↔ ¬ (Applies rule ctx))
unfolding check_spend_cap
check_spend_cap_outcomes rule ctx =
    let same = text_eq_iff (lower rule.token) (lower ctx.req.token) in
    (ground (arith, same), ground (arith, same), ground (arith, same))

-- A rate limit blocks exactly when the window already holds as many payments as it allows.
pub check_rate_limit-blocks_iff :
    (rule : RateLimitRule) (ctx : RuleContext)
    → (blocks (check_rate_limit rule ctx) ≡ true)
      ↔ (rule.max_payments ≤ ctx.recent_payment_count rule.window_seconds)
unfolding check_rate_limit
check_rate_limit-blocks_iff rule ctx = ground arith

-- With the flag on, a new recipient is blocked exactly under the action block and escalated exactly
-- under the action escalate, and a known one is neither; there is no check exactly when the flag is
-- off.
pub check_counterparty_outcomes :
    (rule : CounterpartyRule) (ctx : RuleContext)
    → let new = ctx.is_new_counterparty ctx.req.recipient in
      let flagged = rule.flag_new_recipients && new in
      ((blocks (check_counterparty rule ctx) ≡ true)
        ↔ ((flagged ≡ true) × (rule.action ≡ RuleAction.block)))
      × (((check_counterparty rule ctx).escalate ≡ true)
          ↔ ((flagged ≡ true) × (rule.action ≡ RuleAction.escalate)))
      × (((check_counterparty rule ctx).check ≡ none) ↔ (rule.flag_new_recipients ≡ false))
unfolding check_counterparty
check_counterparty_outcomes rule ctx = (ground arith, ground arith, ground arith)

-- How many hours a window that starts at `start` and ends before `end` lasts.
abbrev pub span : ℕ → ℕ → ℕ
span start end = if ltb start end then end - start else end + 24 - start

-- For bounds up to 24, an hour is in the window exactly when the window is the whole day (start and
-- end agree), or the hour comes up, counting on from the start round the clock, before the window's
-- span is over.
pub in_window_iff :
    (start end hour : ℕ)
    → start ≤ 24
    → end ≤ 24
    → hour < 24
    → (in_window start end hour ≡ true)
      ↔ ((start ≡ end) ⊎ ((hour + 24 - start) % 24 < span start end))
unfolding in_window
in_window_iff start end hour hs he hh = ground arith

-- Swapping the ends of a proper window gives exactly the other hours.
pub in_window_swap :
    (start end hour : ℕ) → start ≢ end → in_window end start hour ≡ not (in_window start end hour)
unfolding in_window
in_window_swap start end hour h = ground arith

-- Outside its window a time rule blocks, escalates or only warns, as its action says; inside it
-- passes.
pub check_time_window_outcomes :
    (rule : TimeWindowRule) (ctx : RuleContext)
    → let inside = in_window rule.allowed_hours.0 rule.allowed_hours.1 (utc_hour ctx.now) in
      ((blocks (check_time_window rule ctx) ≡ true)
        ↔ ((inside ≡ false) × (rule.action ≡ RuleAction.block)))
      × (((check_time_window rule ctx).escalate ≡ true)
          ↔ ((inside ≡ false) × (rule.action ≡ RuleAction.escalate)))
unfolding check_time_window
check_time_window_outcomes rule ctx = (ground arith, ground arith)
