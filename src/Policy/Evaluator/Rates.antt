-- ===== src/Policy/Evaluator/Rates.antt =====
-- The promise of the rate limits, over the runs of payments of Caps.
use agentct.Base.{ℕ, ◌≤◌, leb, Text, Any, Option, List, ◌≡◌, inl, inr, arith, Bool-cases}
use agentct.Types.{PolicyRule, RateLimitRule}
use agentct.Policy.Allowlist.{Url}
use agentct.Policy.Rules.Outcomes.{check_rate_limit-blocks_iff}
use agentct.Policy.Evaluator.{context, dispatch, recent_payment_count}
use agentct.Policy.Evaluator.Windows.{recent_payment_count-observe, recent_payment_count_later}
use agentct.Policy.Evaluator.Caps.{Clocked, Run, here, next, pay, not_blocked}

-- The limit holds from now on.
abbrev pub WithinRate : RateLimitRule → Clocked → Type 0
WithinRate rule s =
    (t : ℕ)
    → s.clock ≤ t
    → recent_payment_count s.evaluator t rule.window_seconds ≤ rule.max_payments

module _ (parse_url : Text → Option Url) (rules : List PolicyRule) where
  -- Along every run of payments a rate limit of the policy holds: from the last payment on, its
  -- window never holds more payments than it allows.
  pub Run-WithinRate :
      (rule : RateLimitRule)
      → Any (λ x. x ≡ PolicyRule.rate_limit rule) rules
      → {s t : Clocked} → WithinRate rule s
      → Run parse_url rules s t
      → WithinRate rule t
  unfolding dispatch
  Run-WithinRate rule m v here later h = v later h
  Run-WithinRate rule m v (next {t} r (pay req now at h₁ h₂ positive free)) later h₃ =
      let ev = t.evaluator in
      let before = Run-WithinRate rule m v r later (omega arith) in
      let shrinks = recent_payment_count_later ev now later rule.window_seconds (omega arith) in
      let kept = not_blocked parse_url rules ev req now (PolicyRule.rate_limit rule) free m in
      let outcome = (check_rate_limit-blocks_iff rule (context ev req now)).1 in
      rw (recent_payment_count-observe ev req at later rule.window_seconds)
        (elim (Bool-cases
          (leb rule.max_payments (recent_payment_count ev now rule.window_seconds))) [
            | inl full ↦ absurd (cc (outcome (ground arith), kept))
            | inr room ↦ ground arith
          ])
