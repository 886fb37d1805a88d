-- ===== src/Policy/Evaluator/Caps.antt =====
-- The promise of the caps: along any sequence of payments, each evaluated and then observed, a
-- window never holds more than its cap, nor more payments than its limit.
use agentct.Base.{
  ℕ, ◌≤◌, pos, ◌+ℤ◌, ltb_ℤ, ◌≤ℤ◌, ◌<ℤ◌, int_laws, Text, text_eq, text_eq_iff, lower, any,
  All-append, Any, Option, Bool, false, List, [], ◌∷◌, ◌≡◌, ◌≢◌, sym, ◌∙◌, inl, inr, arith,
  Bool-cases,
}
use agentct.Types.{PaymentRequest, SpendWindow, PolicyRule, SpendCapRule}
use agentct.Policy.Allowlist.{Url}
use agentct.Policy.Rules.{RuleContext, prior_spend}
use agentct.Policy.Rules.Outcomes.{is_critical, blocks, check_spend_cap_outcomes}
use agentct.Policy.Evaluator.{
  Evaluator, after_cutoff, context, dispatch, evaluate, observe, windowed_spend,
}
use agentct.Policy.Evaluator.Windows.{
  AllNonneg, observed, windowed_spend-observe, windowed_spend_later,
}
use agentct.Policy.Evaluator.Verdicts.{any-evaluate}

-- The evaluator and the time of its last payment.
pub record Clocked : Type 0 where
  pub evaluator : Evaluator
  pub clock : ℕ

module _ (parse_url : Text → Option Url) (rules : List PolicyRule) where
  -- A payment of a positive amount is evaluated at `now`, no rule blocks it, and it is observed
  -- when it has settled, at `at`.
  pub data Pays (s : Clocked) : Clocked → Type 0 where
    pay :
        (req : PaymentRequest) (now at : ℕ)
        → s.clock ≤ now
        → now ≤ at
        → pos 0 <ℤ req.amount
        → any is_critical (evaluate parse_url rules s.evaluator req now).checks ≡ false
        → Pays s (record { evaluator = observe s.evaluator req at; clock = at })

  pub data Run (s : Clocked) : Clocked → Type 0 where
    here : Run s s
    next : {t u : Clocked} → Run s t → Pays t u → Run s u

any-false :
    {A : Type 0} (p : A → Bool) (a : A) (xs : List A)
    → any p xs ≡ false
    → Any (λ x. x ≡ a) xs
    → p a ≡ false
any-false p a [] h m = absurd m
any-false p a (x ∷ xs) h (inl e) = rw (← e) (ground arith)
any-false p a (x ∷ xs) h (inr m) = any-false p a xs (ground arith) m

prior_spend-window :
    (rule : SpendCapRule) (ctx : RuleContext)
    → rule.window ≢ SpendWindow.transaction
    → prior_spend rule ctx ≡ ctx.windowed_spend rule.window rule.token
unfolding prior_spend
prior_spend-window rule ctx h = ground arith

-- A rule of the policy that does not block, where the evaluation holds no failed critical check.
module _ (parse_url : Text → Option Url) (rules : List PolicyRule) where
  pub not_blocked :
      (ev : Evaluator) (req : PaymentRequest) (now : ℕ) (r : PolicyRule)
      → any is_critical (evaluate parse_url rules ev req now).checks ≡ false
      → Any (λ x. x ≡ r) rules
      → blocks (dispatch parse_url r (context ev req now)) ≡ false
  not_blocked ev req now r free m =
      any-false (λ x. blocks (dispatch parse_url x (context ev req now))) r rules
        (sym (any-evaluate parse_url rules ev req now) ∙ free) m

  -- What an unblocked evaluation says of a spend cap in the payment's token.
  cap_of_unblocked :
      (ev : Evaluator) (req : PaymentRequest) (now : ℕ) (rule : SpendCapRule)
      → any is_critical (evaluate parse_url rules ev req now).checks ≡ false
      → Any (λ x. x ≡ PolicyRule.spend_cap rule) rules
      → rule.window ≢ SpendWindow.transaction
      → lower rule.token ≡ lower req.token
      → windowed_spend ev now rule.window rule.token +ℤ req.amount ≤ℤ rule.max_amount
  unfolding dispatch
  cap_of_unblocked ev req now rule free m w same =
      let prior = prior_spend-window rule (context ev req now) w in
      let total = windowed_spend ev now rule.window rule.token +ℤ req.amount in
      elim (Bool-cases (ltb_ℤ rule.max_amount total)) [
        | inl over ↦
            let outcome = (check_spend_cap_outcomes rule (context ev req now)).0.1 in
            let kept = not_blocked ev req now (PolicyRule.spend_cap rule) free m in
            cc (outcome (same, rw prior (ground arith)), kept)
        | inr within ↦ ground arith
      ]

  -- The cap holds from now on, and no recorded amount is negative.
  pub record Within (rule : SpendCapRule) (s : Clocked) : Type 0 where
    pub nonneg : AllNonneg s.evaluator.payments
    pub capped :
        (t : ℕ)
        → s.clock ≤ t
        → windowed_spend s.evaluator t rule.window rule.token ≤ℤ rule.max_amount

  pay-capped :
      (rule : SpendCapRule) (s : Clocked) (req : PaymentRequest) (now at t : ℕ)
      → Within rule s
      → Any (λ x. x ≡ PolicyRule.spend_cap rule) rules
      → rule.window ≢ SpendWindow.transaction
      → s.clock ≤ now
      → now ≤ at
      → at ≤ t
      → any is_critical (evaluate parse_url rules s.evaluator req now).checks ≡ false
      → windowed_spend (observe s.evaluator req at) t rule.window rule.token ≤ℤ rule.max_amount
  pay-capped rule s req now at t v m w h₁ h₂ h₃ free =
      let ev = s.evaluator in
      let before = v.capped t (omega arith) in
      let shrinks = windowed_spend_later ev now t rule.window rule.token v.nonneg (omega arith) in
      rw (windowed_spend-observe ev req at t rule.window rule.token)
        (elim (Bool-cases (text_eq (lower req.token) (lower rule.token))) [
          | inl e ↦
              let same = sym ((text_eq_iff (lower req.token) (lower rule.token)).0 e) in
              let cap = cap_of_unblocked ev req now rule free m w same in
              rw e (elim (Bool-cases (after_cutoff rule.window t at)) [
                | inl inside ↦ rw inside (omega int_laws)
                | inr outside ↦ rw outside (omega int_laws)
              ])
          | inr other ↦ rw other (omega int_laws)
        ])

  -- Along every run of payments a spend cap of the policy holds: whatever its window (but for the
  -- single transaction, which has no history), from the last payment on the window's spend in the
  -- cap's token is at most the cap.
  pub Run-Within :
      (rule : SpendCapRule)
      → Any (λ x. x ≡ PolicyRule.spend_cap rule) rules
      → rule.window ≢ SpendWindow.transaction
      → {s t : Clocked} → Within rule s
      → Run parse_url rules s t
      → Within rule t
  unfolding observe
  Run-Within rule m w v here = v
  Run-Within rule m w v (next {t} r (pay req now at h₁ h₂ positive free)) =
      let u = Run-Within rule m w v r in
      record {
        nonneg =
            All-append (λ p. pos 0 ≤ℤ p.amount) t.evaluator.payments (observed req at ∷ []) u.nonneg
              (omega arith, tt);
        capped = λ later h₃. pay-capped rule t req now at later u m w h₁ h₂ h₃ free;
      }
