-- ===== src/Guard/Interleaving.antt =====
-- Two calls of `execute` of packages/core/src/index.ts at once. The method waits for the wallet and
-- the facilitator between the decision and the learning, and nothing keeps a second call from being
-- decided in between.
use agentct.Base.{
  ℕ, ◌+ℤ◌, Text, text_eq, lower, Bool, true, ◌&&◌, Option, ◌≡◌, refl, ap, ◌∙◌, if◌then◌else◌,
}
use agentct.Types.{PaymentRequest, PolicyDecision, Settlement, SpendWindow}
use agentct.Policy.Evaluator.{Evaluator, after_cutoff, windowed_spend}
use agentct.Policy.Evaluator
use agentct.Policy.Evaluator.Windows.{amount_if, windowed_spend-observe}
use agentct.Guard.State.{Outside, GuardConfig, Guard, Instants}
use agentct.Guard.Payment.{Executed, proceed}
use agentct.Guard.Evaluation.{evaluate, decide, run_guard}
use agentct.Guard.Execution.{is_paid, proceed-after, proceed-settled}
use agentct.Guard.Caps.{learned-evaluator}

module _ (out : Outside) (cfg : GuardConfig) where
  -- Both are decided before either goes on; the first goes on first.
  unfoldable pub interleaved :
      (id₁ id₂ : Text) (g : Guard) (req₁ req₂ : PaymentRequest) (at₁ at₂ : Instants)
      → Executed × Executed × Guard
  unfolding run_guard proceed
  interleaved id₁ id₂ g req₁ req₂ at₁ at₂ =
      let (ok₁, d₁, g₁) = run_guard out cfg g req₁ at₁ in
      let (ok₂, d₂, g₂) = run_guard out cfg g₁ req₂ at₂ in
      let (o₁, g₃) = proceed out cfg id₁ req₁ at₁ ok₁ d₁ g₂ in
      let (o₂, g₄) = proceed out cfg id₂ req₂ at₂ ok₂ d₂ g₃ in (o₁, o₂, g₄)

  proceed-evaluator :
      (id : Text) (req : PaymentRequest) (at : Instants) (ok : Option Bool) (d : PolicyDecision)
      (g : Guard)
      → let (o, g') = proceed out cfg id req at ok d g in
        g'.evaluator
        ≡ (if is_paid o then Evaluator.observe g.evaluator req at.observed_at else g.evaluator)
  proceed-evaluator id req at ok d g =
      ap (λ (r : Guard). r.evaluator) (proceed-after out cfg id req at ok d g)
      ∙ learned-evaluator out cfg (is_paid (proceed out cfg id req at ok d g).0) req at g

  -- A settled payment in the evaluator.
  paid-evaluator :
      (id : Text) (req : PaymentRequest) (at : Instants) (ok : Option Bool) (d e : PolicyDecision)
      (g : Guard) (s : Settlement)
      → (proceed out cfg id req at ok d g).0 ≡ Executed.settled e s
      → s.success ≡ true
      → (proceed out cfg id req at ok d g).1.evaluator
        ≡ Evaluator.observe g.evaluator req at.observed_at
  paid-evaluator id req at ok d e g s h done =
      rw (proceed-evaluator id req at ok d g) (rw h (rw done refl))

  -- Take two calls of `execute`, both decided before either goes on, that both settle with success.
  -- The second is decided on the spend records, bindings and baseline of the guard before the
  -- first, with only the breaker moved on; yet every spend window then holds the amounts of both
  -- that fall into it.
  pub interleaved-unaware :
      (id₁ id₂ : Text) (g : Guard) (req₁ req₂ : PaymentRequest) (at₁ at₂ : Instants)
      (d₁ d₂ : PolicyDecision) (s₁ s₂ : Settlement) (now : ℕ) (window : SpendWindow) (token : Text)
      → (interleaved id₁ id₂ g req₁ req₂ at₁ at₂).0 ≡ Executed.settled d₁ s₁
      → (interleaved id₁ id₂ g req₁ req₂ at₁ at₂).1 ≡ Executed.settled d₂ s₂
      → s₁.success ≡ true
      → s₂.success ≡ true
      → (d₁ ≡ decide out cfg g req₁ at₁)
        × (d₂
            ≡ decide out cfg
                (record g { breaker = (run_guard out cfg g req₁ at₁).2.breaker })
                req₂
                at₂)
        × (windowed_spend (interleaved id₁ id₂ g req₁ req₂ at₁ at₂).2.evaluator now window token
            ≡ windowed_spend g.evaluator now window token
              +ℤ amount_if
                  (text_eq (lower req₁.token) (lower token)
                    && after_cutoff window now at₁.observed_at)
                  req₁.amount
              +ℤ amount_if
                  (text_eq (lower req₂.token) (lower token)
                    && after_cutoff window now at₂.observed_at)
                  req₂.amount)
  unfolding interleaved run_guard evaluate
  interleaved-unaware id₁ id₂ g req₁ req₂ at₁ at₂ d₁ d₂ s₁ s₂ now window token h₁ h₂ done₁ done₂ =
      let ran₁ = run_guard out cfg g req₁ at₁ in
      let ran₂ = run_guard out cfg ran₁.2 req₂ at₂ in
      let mid = (proceed out cfg id₁ req₁ at₁ ran₁.0 ran₁.1 ran₂.2).1 in
      let first = paid-evaluator id₁ req₁ at₁ ran₁.0 ran₁.1 d₁ ran₂.2 s₁ h₁ done₁ in
      let second = paid-evaluator id₂ req₂ at₂ ran₂.0 ran₂.1 d₂ mid s₂ h₂ done₂ in
      (
        (proceed-settled out cfg id₁ req₁ at₁ ran₁.0 ran₁.1 d₁ ran₂.2 s₁ h₁).0,
        (proceed-settled out cfg id₂ req₂ at₂ ran₂.0 ran₂.1 d₂ mid s₂ h₂).0,
        ap (λ (ev : Evaluator.Evaluator). windowed_spend ev now window token)
              (second
                ∙ ap (λ (ev : Evaluator.Evaluator). Evaluator.observe ev req₂ at₂.observed_at)
                    first)
            ∙ windowed_spend-observe (Evaluator.observe g.evaluator req₁ at₁.observed_at) req₂
                at₂.observed_at now window token
            ∙ ap
                (λ s.
                  s
                  +ℤ amount_if
                      (text_eq (lower req₂.token) (lower token)
                        && after_cutoff window now at₂.observed_at)
                      req₂.amount)
                (windowed_spend-observe g.evaluator req₁ at₁.observed_at now window token),
      )
