-- ===== src/Guard/Caps.antt =====
-- The caps at the level of `execute` of packages/core/src/index.ts: a guard's history of payments is
-- one of the runs that the policy's promises speak of.
use agentct.Base.{
  ℕ, ◌≤◌, pos, ◌<ℤ◌, ◌≤ℤ◌, Text, any, any-append, Any, Bool, true, false, Option, none, some, List,
  [], ◌∷◌, ◌++◌, ◌≡◌, ◌≢◌, refl, sym, ap, ◌∙◌, ◌⊎◌, inl, inr, Bool-cases, arith, if◌then◌else◌,
}
use agentct.Types.{
  PaymentRequest, PolicyCheck, PolicyRule, SpendCapRule, RateLimitRule, SpendWindow, PolicyDecision,
  Settlement,
}
use agentct.Types
use agentct.Policy.Rules.Outcomes.{is_critical}
use agentct.Policy.Evaluator.{windowed_spend, recent_payment_count, observe}
use agentct.Policy.Evaluator.Rates.{WithinRate, Run-WithinRate}
use agentct.Policy.Evaluator
use agentct.Policy.Evaluator.Caps.{Clocked, Pays, Run, Within, Run-Within}
use agentct.Behavioral.Scorer
use agentct.Intent.Registry
use agentct.Intent.Reconcile
use agentct.Guard.State.{Outside, GuardConfig, Guard, Instants}
use agentct.Guard.Evaluation.{
  evaluate, breaker_open, layer_checks, decide_layers, decide_valid, decide, allowed, run_guard,
}
use agentct.Guard.Payment.{Executed, learn, execute}
use agentct.Guard.Ids.{evaluate-hard}
use agentct.Guard.Verdict.{hard, validate_request}
use agentct.Guard.Verdict.Meaning.{aggregate_verdict_iff, validate_request_iff}
use agentct.Guard.Execution.{is_paid, execute-after, execute-settled}

-- The guard and the time of its last payment.
pub record Timed : Type 0 where
  pub guard : Guard
  pub clock : ℕ

abbrev pub clocked : Timed → Clocked
clocked s = record { evaluator = s.guard.evaluator; clock = s.clock }

hard_left :
    (rules rest : List PolicyCheck) → any hard (rules ++ rest) ≡ false → any hard rules ≡ false
hard_left rules rest h = ground (arith, any-append hard rules rest)

module _ (out : Outside) (cfg : GuardConfig) where
  -- The evaluation of the rules finds nothing critical.
  abbrev Free : Guard → PaymentRequest → Instants → Type 0
  Free g req at =
      any is_critical
        (Evaluator.evaluate out.parse_url cfg.rules g.evaluator req at.rules_at).checks
      ≡ false

  decide_layers-Free :
      (g : Guard) (req : PaymentRequest) (at : Instants)
      → (decide_layers out cfg g req at).verdict ≢ Types.Verdict.block
      → Free g req at
  unfolding decide_layers layer_checks
  decide_layers-Free g req at h =
      let from_rules =
        (Evaluator.evaluate out.parse_url cfg.rules g.evaluator req at.rules_at).checks in
      let anomalies =
        (Scorer.score out.floats cfg.behavioral req at.score_at g.scorer).anomaly_checks in
      let last =
        Registry.check out.parse_url g.bindings req
        ∷ Reconcile.check out.ask cfg.reconciler req
        ∷ [] in
      elim (Bool-cases (any hard (layer_checks out cfg g req at))) [
        | inl found ↦ absurd (
            h (
              (aggregate_verdict_iff (layer_checks out cfg g req at)
                  (decide_layers out cfg g req at).risk_score cfg.anomaly_threshold
                  cfg.anomaly_action
                  (Evaluator.evaluate out.parse_url cfg.rules g.evaluator req
                    at.rules_at).escalate).1.1
                (inl found)))
        | inr nothing ↦
            sym (evaluate-hard out.parse_url cfg.rules g.evaluator req at.rules_at)
            ∙ hard_left from_rules anomalies (hard_left (from_rules ++ anomalies) last nothing)
      ]

  decide_valid-Free :
      (checked : Option PolicyCheck) (g : Guard) (req : PaymentRequest) (at : Instants)
      → (decide_valid out cfg checked g req at).verdict ≢ Types.Verdict.block
      → (checked ≡ none) × Free g req at
  unfolding decide_valid
  decide_valid-Free none g req at h = (refl, decide_layers-Free g req at h)
  decide_valid-Free (some invalid) g req at h = absurd (h refl)

  -- A decision other than a block is for a positive amount, and no rule blocks it.
  decide-Free :
      (g : Guard) (req : PaymentRequest) (at : Instants)
      → (decide out cfg g req at).verdict ≢ Types.Verdict.block
      → (pos 0 <ℤ req.amount) × Free g req at
  unfolding decide
  decide-Free g req at h = elim (Bool-cases (breaker_open cfg.circuit at.open_at g.breaker).0) [
    | inl frozen ↦ absurd (h (rw frozen refl))
    | inr closed ↦
        let (valid, free) =
          decide_valid-Free (validate_request out.is_address req) g req at (rw closed at h) in
        (((validate_request_iff out.is_address req).0 valid).0, free)
  ]

  let_through-not_block :
      (req : PaymentRequest) (d : PolicyDecision) (v : Types.Verdict)
      → allowed out cfg req d v ≡ some true
      → v ≢ Types.Verdict.block
  unfolding allowed
  let_through-not_block req d Types.Verdict.block h e = cc
  let_through-not_block req d Types.Verdict.allow h e = cc
  let_through-not_block req d Types.Verdict.escalate h e = cc

  -- One call of `execute` behind the last payment, its instants in order.
  pub data Executes (s : Timed) : Timed → Type 0 where
    call :
        (id : Text) (req : PaymentRequest) (at : Instants)
        → s.clock ≤ at.rules_at
        → at.rules_at ≤ at.observed_at
        → Executes s
            (record { guard = (execute out cfg id s.guard req at).1; clock = at.observed_at })

  pub data History (s : Timed) : Timed → Type 0 where
    start : History s s
    then_call : {t u : Timed} → History s t → Executes t u → History s u

  pub learned-evaluator :
      (b : Bool) (req : PaymentRequest) (at : Instants) (g : Guard)
      → (if b then learn out cfg req at g else g).evaluator
        ≡ (if b then observe g.evaluator req at.observed_at else g.evaluator)
  unfolding learn
  learned-evaluator true req at g = refl
  learned-evaluator false req at g = refl

  decided-evaluator :
      (g : Guard) (req : PaymentRequest) (at : Instants)
      → (run_guard out cfg g req at).2.evaluator ≡ g.evaluator
  unfolding run_guard evaluate
  decided-evaluator g req at = refl

  -- The spend records learn the payment if it is paid, and else stay.
  pub execute-evaluator :
      (id : Text) (g : Guard) (req : PaymentRequest) (at : Instants)
      → let (o, g') = execute out cfg id g req at in
        g'.evaluator ≡ (if is_paid o then observe g.evaluator req at.observed_at else g.evaluator)
  execute-evaluator id g req at =
      let o = (execute out cfg id g req at).0 in
      let decided = (run_guard out cfg g req at).2 in
      ap (λ (r : Guard). r.evaluator) (execute-after out cfg id g req at)
      ∙ learned-evaluator (is_paid o) req at decided
      ∙ ap (λ ev. if is_paid o then observe ev req at.observed_at else ev)
          (decided-evaluator g req at)

  paid-Free :
      (id : Text) (g : Guard) (req : PaymentRequest) (at : Instants) (o : Executed)
      → (execute out cfg id g req at).0 ≡ o
      → is_paid o ≡ true
      → (pos 0 <ℤ req.amount) × Free g req at
  paid-Free id g req at (Executed.settled d s) e paid =
      let (decided, ok, _) = execute-settled out cfg id g req at d s e in
      decide-Free g req at (λ blocked.
        let_through-not_block req d d.verdict ok
          (ap (λ (x : PolicyDecision). x.verdict) decided ∙ blocked))
  paid-Free id g req at (Executed.refused d) e paid = cc
  paid-Free id g req at (Executed.threw f) e paid = cc

  -- An execution pays, in the sense of the caps, or leaves the spend records alone.
  execute-Pays :
      (id : Text) (g : Guard) (req : PaymentRequest) (at : Instants) (clock : ℕ)
      → clock ≤ at.rules_at
      → at.rules_at ≤ at.observed_at
      → let g' = (execute out cfg id g req at).1 in
        (g'.evaluator ≡ g.evaluator)
        ⊎ Pays out.parse_url cfg.rules
            (record { evaluator = g.evaluator; clock = clock })
            (record { evaluator = g'.evaluator; clock = at.observed_at })
  execute-Pays id g req at clock h₁ h₂ =
      let left = execute-evaluator id g req at in
      elim (Bool-cases (is_paid (execute out cfg id g req at).0)) [
        | inl paid ↦
            let (positive, free) =
              paid-Free id g req at (execute out cfg id g req at).0 refl paid in
            inr (rw left (rw paid (Pays.pay req at.rules_at at.observed_at h₁ h₂ positive free)))
        | inr unpaid ↦ inl (left ∙ rw unpaid refl)
      ]

  -- The payments of a guard's history are a run of the caps, which ends with the guard's spend
  -- records and not after its clock.
  History-Run :
      {s t : Timed}
      → History s t
      → (c : ℕ) × (c ≤ t.clock)
        × (s.clock ≤ t.clock)
        × Run out.parse_url cfg.rules
            (clocked s)
            (record { evaluator = t.guard.evaluator; clock = c })
  History-Run {s} start = (s.clock, omega arith, omega arith, Run.here)
  History-Run (then_call {t} h (call id req at h₁ h₂)) =
      let (c, before, since, run) = History-Run h in
      elim (execute-Pays id t.guard req at c (omega arith) h₂) [
        | inl same ↦ (c, omega arith, omega arith, rw same run)
        | inr pays ↦ (at.observed_at, omega arith, omega arith, Run.next run pays)
      ]

  -- Take a spend cap of the guard's policy over the session, an hour or a day, which holds at the
  -- start. After every history of calls of `execute`, one behind the other with the clock not
  -- running backwards, and at every later time, the window's spend in the cap's token is at most
  -- the cap.
  pub History-capped :
      (rule : SpendCapRule)
      → Any (λ x. x ≡ PolicyRule.spend_cap rule) cfg.rules
      → rule.window ≢ SpendWindow.transaction
      → {s t : Timed} → Within out.parse_url cfg.rules rule (clocked s)
      → History s t
      → (now : ℕ) → t.clock ≤ now
      → windowed_spend t.guard.evaluator now rule.window rule.token ≤ℤ rule.max_amount
  History-capped rule m w v h now later =
      let (c, before, since, run) = History-Run h in
      (Run-Within out.parse_url cfg.rules rule m w v run).capped now (omega arith)

  -- Take a rate limit of the guard's policy that holds at the start. After every history of calls
  -- of `execute`, one behind the other with the clock not running backwards, and at every later
  -- time, its window holds no more payments than it allows.
  pub History-rated :
      (rule : RateLimitRule)
      → Any (λ x. x ≡ PolicyRule.rate_limit rule) cfg.rules
      → {s t : Timed} → WithinRate rule (clocked s)
      → History s t
      → (now : ℕ) → t.clock ≤ now
      → recent_payment_count t.guard.evaluator now rule.window_seconds ≤ rule.max_payments
  History-rated rule m w h now later =
      let (c, before, since, run) = History-Run h in
      Run-WithinRate out.parse_url cfg.rules rule m w run now (omega arith)
