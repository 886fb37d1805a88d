-- ===== src/Policy/Evaluator.antt =====
-- PolicyEvaluator of packages/core/src/policy/evaluator.ts: the rules in order, over the spend
-- records and the counterparties that the evaluator remembers.

pub mod Windows
pub mod Verdicts
pub mod Restart
pub mod Caps
pub mod Rates
use agentct.Base.{
  ℕ, ◌+◌, ◌*◌, ltb, ℤ, pos, ◌+ℤ◌, Text, codes, text_eq, lower, includes, set_add, filter, length,
  Bool, true, false, not, ◌&&◌, ◌||◌, Option, none, some, List, [], ◌∷◌, ◌++◌, if◌then◌else◌, suc,
  ◌==◌,
}
use agentct.Base.Sorting.{sort_by}
use agentct.Types.{
  PaymentRequest, PolicyCheck, Severity, Message, SpendWindow, PolicyRule, AuditEntry,
}
use agentct.Policy.Allowlist.{Url}
use agentct.Policy.Rules.{
  RuleContext, RuleResult, check_spend_cap, check_allowlist, check_rate_limit, check_counterparty,
  check_time_window,
}

pub record SpendRecord : Type 0 where
  pub ts : ℕ
  pub amount : ℤ
  pub token : Text
  pub hydrated : Bool

-- The two private fields of the evaluator that change.
pub record Evaluator : Type 0 where
  pub payments : List SpendRecord
  pub seen : List Text

abbrev pub fresh : Evaluator
fresh = record { payments = []; seen = [] }

abbrev pub hour_ms : ℕ
hour_ms = 3600000

abbrev pub day_ms : ℕ
day_ms = 86400000

-- `p.ts > cutoff`, where the cutoff of a session is 0 and of the others lies before `now`; with
-- the window's length on the other side, no subtraction.
unfoldable pub after_cutoff : SpendWindow → ℕ → ℕ → Bool
after_cutoff SpendWindow.hour now ts = ltb now (ts + hour_ms)
after_cutoff SpendWindow.day now ts = ltb now (ts + day_ms)
after_cutoff _ now ts = ltb 0 ts

abbrev pub is_session : SpendWindow → Bool
is_session SpendWindow.session = true
is_session _ = false

-- Which records a window counts: both filters of `windowedSpend`.
unfoldable pub counted : SpendWindow → Text → ℕ → SpendRecord → Bool
unfolding after_cutoff
counted window t now p =
    text_eq p.token t && after_cutoff window now p.ts && (not (is_session window) || not p.hydrated)

-- `reduce((sum, p) => sum + p.amount, 0n)`
unfoldable pub sum_from : ℤ → List SpendRecord → ℤ
sum_from sum [] = sum
sum_from sum (p ∷ ps) = sum_from (sum +ℤ p.amount) ps

unfoldable pub windowed_spend : Evaluator → ℕ → SpendWindow → Text → ℤ
unfolding sum_from counted lower
windowed_spend ev now window token =
    sum_from (pos 0) (filter (counted window (lower token) now) ev.payments)

unfoldable pub recent_payment_count : Evaluator → ℕ → ℕ → ℕ
recent_payment_count ev now window_seconds =
    length (filter (λ p. ltb now (p.ts + window_seconds * 1000)) ev.payments)

abbrev pub context : Evaluator → PaymentRequest → ℕ → RuleContext
context ev req now = record {
  req = req;
  now = now;
  windowed_spend = windowed_spend ev now;
  recent_payment_count = recent_payment_count ev now;
  is_new_counterparty = λ addr. not (includes ev.seen (lower addr));
}

pub record EvaluationResult : Type 0 where
  pub checks : List PolicyCheck
  pub escalate : Bool

-- The variables of the loop over the rules.
pub record Tally : Type 0 where
  pub checks : List PolicyCheck
  pub escalate : Bool
  pub spend_cap_rules : ℕ
  pub spend_cap_applied : ℕ

abbrev pub start_tally : Tally
start_tally = record { checks = []; escalate = false; spend_cap_rules = 0; spend_cap_applied = 0 }

abbrev pub is_spend_cap : PolicyRule → Bool
is_spend_cap (PolicyRule.spend_cap _) = true
is_spend_cap _ = false

-- One payment's token that no cap covers is made visible.
abbrev pub coverage : PaymentRequest → PolicyCheck
coverage req = record {
  id = codes "spend-cap-coverage";
  passed = true;
  severity = Severity.warning;
  message = Message.no_cap_coverage req.token;
}

abbrev pub count_if : Bool → ℕ → ℕ
count_if b n = if b then n + 1 else n

abbrev pub to_list : Option PolicyCheck → List PolicyCheck
to_list none = []
to_list (some c) = c ∷ []

abbrev pub is_some : Option PolicyCheck → Bool
is_some none = false
is_some (some _) = true

module _ (parse_url : Text → Option Url) where
  unfoldable pub dispatch : PolicyRule → RuleContext → RuleResult
  dispatch (PolicyRule.spend_cap rule) ctx = check_spend_cap rule ctx
  dispatch (PolicyRule.allowlist rule) ctx = check_allowlist parse_url rule ctx
  dispatch (PolicyRule.rate_limit rule) ctx = check_rate_limit rule ctx
  dispatch (PolicyRule.counterparty rule) ctx = check_counterparty rule ctx
  dispatch (PolicyRule.time_window rule) ctx = check_time_window rule ctx

  -- The body of the loop.
  unfoldable pub tally_rule : RuleContext → PolicyRule → Tally → Tally
  unfolding dispatch
  tally_rule ctx rule t =
      let res = dispatch rule ctx in
      record {
        checks = t.checks ++ to_list res.check;
        escalate = t.escalate || res.escalate;
        spend_cap_rules = count_if (is_spend_cap rule) t.spend_cap_rules;
        spend_cap_applied = count_if (is_spend_cap rule && is_some res.check) t.spend_cap_applied;
      }

  unfoldable pub tally_rules : RuleContext → List PolicyRule → Tally → Tally
  unfolding tally_rule
  tally_rules ctx [] t = t
  tally_rules ctx (rule ∷ rules) t = tally_rules ctx rules (tally_rule ctx rule t)

  unfoldable pub evaluate : List PolicyRule → Evaluator → PaymentRequest → ℕ → EvaluationResult
  unfolding tally_rules windowed_spend recent_payment_count
  evaluate rules ev req now =
      let t = tally_rules (context ev req now) rules start_tally in
      record {
        checks =
            if ltb 0 t.spend_cap_rules && (t.spend_cap_applied == 0)
            then t.checks ++ coverage req ∷ []
            else t.checks;
        escalate = t.escalate;
      }

unfoldable pub observe : Evaluator → PaymentRequest → ℕ → Evaluator
unfolding set_add lower
observe ev req at = record {
  payments =
      ev.payments
      ++ record { ts = at; amount = req.amount; token = lower req.token; hydrated = false } ∷ [];
  seen = set_add (lower req.recipient) ev.seen;
}

-- One round of the loop of `hydrate`: the recipient always, the spend if it is less than a day old.
unfoldable pub hydrate_entry : ℕ → AuditEntry → Evaluator → Evaluator
unfolding set_add lower
hydrate_entry now e ev =
    let known = set_add (lower e.request.recipient) ev.seen in
    let replayed : SpendRecord = record {
      ts = e.timestamp;
      amount = e.request.amount;
      token = lower e.request.token;
      hydrated = true;
    } in
    if ltb now (e.timestamp + day_ms)
    then record { payments = ev.payments ++ replayed ∷ []; seen = known }
    else record { payments = ev.payments; seen = known }

unfoldable pub hydrate_entries : ℕ → List AuditEntry → Evaluator → Evaluator
unfolding hydrate_entry
hydrate_entries now [] ev = ev
hydrate_entries now (e ∷ es) ev = hydrate_entries now es (hydrate_entry now e ev)

unfoldable pub hydrate : List AuditEntry → ℕ → Evaluator → Evaluator
unfolding hydrate_entries sort_by
hydrate entries now ev =
    let loaded = hydrate_entries now entries ev in
    record { payments = sort_by (λ p. p.ts) loaded.payments; seen = loaded.seen }
