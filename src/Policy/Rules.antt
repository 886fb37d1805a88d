-- ===== src/Policy/Rules.antt =====
-- The five rules of packages/core/src/policy/rules.ts, over the snapshot of the agent's state that
-- the evaluator hands them.
pub mod Outcomes
pub mod Listing
use agentct.Base.{
  ℕ, ◌+◌, ◌/◌, ◌%◌, ltb, leb, ◌==◌, ℤ, pos, ◌+ℤ◌, ltb_ℤ, Text, codes, text_eq, lower, trim, take,
  includes, is_empty, filter, or_else, Bool, true, false, not, ◌&&◌, ◌||◌, Option, none, some, List,
  [], map, ◌++◌, if◌then◌else◌,
}
use agentct.Types.{
  PaymentRequest, PolicyCheck, Severity, Message, SpendWindow, AllowlistMode, RuleAction,
  SpendCapRule, AllowlistRule, RateLimitRule, CounterpartyRule, TimeWindowRule,
}
use agentct.Policy.Allowlist.{Url, matches_resource}

pub record RuleContext : Type 0 where
  pub req : PaymentRequest
  pub now : ℕ
  pub windowed_spend : SpendWindow → Text → ℤ
  pub recent_payment_count : ℕ → ℕ
  pub is_new_counterparty : Text → Bool

pub record RuleResult : Type 0 where
  pub check : Option PolicyCheck
  pub escalate : Bool

abbrev pub pass : Text → Message → RuleResult
pass id message = record {
  check = some (record { id = id; passed = true; severity = Severity.info; message = message });
  escalate = false;
}

-- A check that did not pass, and whether it asks for a human.
abbrev pub fail : Text → Severity → Message → Bool → RuleResult
fail id severity message escalate = record {
  check = some (record { id = id; passed = false; severity = severity; message = message });
  escalate = escalate;
}

abbrev pub no_result : RuleResult
no_result = record { check = none; escalate = false }

abbrev pub window_name : SpendWindow → Text
window_name SpendWindow.transaction = codes "transaction"
window_name SpendWindow.session = codes "session"
window_name SpendWindow.hour = codes "hour"
window_name SpendWindow.day = codes "day"

abbrev pub mode_name : AllowlistMode → Text
mode_name AllowlistMode.recipients = codes "recipients"
mode_name AllowlistMode.resources = codes "resources"

-- What a spend window already holds; a transaction has no history.
unfoldable pub prior_spend : SpendCapRule → RuleContext → ℤ
prior_spend rule ctx = elim rule.window [
  | SpendWindow.transaction ↦ pos 0
  | _ ↦ ctx.windowed_spend rule.window rule.token
]

-- `rule.escalateAbove !== undefined && amount > rule.escalateAbove`
abbrev pub over : Option ℤ → ℤ → Bool
over none amount = false
over (some threshold) amount = ltb_ℤ threshold amount

unfoldable pub check_spend_cap : SpendCapRule → RuleContext → RuleResult
unfolding prior_spend lower
check_spend_cap rule ctx =
    let id = codes "spend-cap-" ++ window_name rule.window in
    let amount = ctx.req.amount in
    let total = prior_spend rule ctx +ℤ amount in
    if not (text_eq (lower rule.token) (lower ctx.req.token))
    then no_result
    else if ltb_ℤ rule.max_amount total
    then fail id Severity.critical (Message.over_cap rule.window total rule.max_amount) false
    else if over rule.escalate_above amount
    then fail id Severity.warning
        (Message.over_threshold amount (or_else rule.escalate_above (pos 0))) true
    else pass id (Message.within_cap rule.window total rule.max_amount)

-- The entries as the rule reads them: trimmed, lower case, the empty ones dropped.
unfoldable pub normal_entries : AllowlistRule → List Text
unfolding lower trim
normal_entries rule = filter (λ e. not (is_empty e)) (map (λ e. lower (trim e)) rule.entries)

-- What the rule looks for: the recipient, or the resource's URL.
abbrev pub allow_target : AllowlistMode → PaymentRequest → Text
allow_target AllowlistMode.recipients req = lower req.recipient
allow_target AllowlistMode.resources req = or_else req.resource_url []

module _ (parse_url : Text → Option Url) where
  abbrev pub is_listed : AllowlistMode → Text → List Text → Bool
  is_listed AllowlistMode.recipients target entries = includes entries target
  is_listed AllowlistMode.resources target entries = matches_resource parse_url target entries

  unfoldable pub check_allowlist : AllowlistRule → RuleContext → RuleResult
  unfolding normal_entries lower includes matches_resource
  check_allowlist rule ctx =
      let id = codes "allowlist-" ++ mode_name rule.mode in
      let target = allow_target rule.mode ctx.req in
      if is_listed rule.mode target (normal_entries rule)
      then pass id (Message.allowlisted rule.mode)
      else if rule.enforce
      then fail id Severity.critical (Message.not_allowlisted rule.mode target false) false
      else fail id Severity.warning (Message.not_allowlisted rule.mode target true) false

unfoldable pub check_rate_limit : RateLimitRule → RuleContext → RuleResult
check_rate_limit rule ctx =
    let id = codes "rate-limit" in
    let count = ctx.recent_payment_count rule.window_seconds + 1 in
    if ltb rule.max_payments count
    then fail id Severity.critical (Message.over_rate count rule.window_seconds rule.max_payments)
        false
    else pass id (Message.within_rate count rule.max_payments rule.window_seconds)

abbrev pub action_severity : RuleAction → Severity
action_severity RuleAction.block = Severity.critical
action_severity RuleAction.escalate = Severity.warning
action_severity RuleAction.warn = Severity.warning

abbrev pub action_escalates : RuleAction → Bool
action_escalates RuleAction.block = false
action_escalates RuleAction.escalate = true
action_escalates RuleAction.warn = false

unfoldable pub check_counterparty : CounterpartyRule → RuleContext → RuleResult
check_counterparty rule ctx =
    let id = codes "counterparty-new" in
    if not rule.flag_new_recipients
    then no_result
    else if not (ctx.is_new_counterparty ctx.req.recipient)
    then pass id Message.known_counterparty
    else fail id (action_severity rule.action) (Message.first_payment (take 10 ctx.req.recipient))
        (action_escalates rule.action)

-- `new Date(now).getUTCHours()`
unfoldable pub utc_hour : ℕ → ℕ
utc_hour now = now / 3600000 % 24

unfoldable pub in_window : (start end hour : ℕ) → Bool
in_window start end hour =
    if start == end
    then true
    else if ltb start end
    then leb start hour && ltb hour end
    else leb start hour || ltb hour end

unfoldable pub check_time_window : TimeWindowRule → RuleContext → RuleResult
unfolding utc_hour in_window
check_time_window rule ctx =
    let id = codes "time-window" in
    let hour = utc_hour ctx.now in
    let (start, end) = rule.allowed_hours in
    if in_window start end hour
    then pass id (Message.within_hours hour start end)
    else fail id (action_severity rule.action) (Message.outside_hours hour start end)
        (action_escalates rule.action)
