-- ===== src/Guard/Evaluation.antt =====
-- `evaluate` and `runGuard` of packages/core/src/index.ts: the decision on a request.
use agentct.Base.{
  ℕ, codes, Bool, true, false, Option, none, some, List, [], ◌∷◌, ◌++◌, if◌then◌else◌,
}
use agentct.Base.Double.{one_double}
use agentct.Types.{
  PaymentRequest, PolicyCheck, PolicyDecision, PolicyRule, Severity, Message, Reason, Settlement,
  AuditEntry, AnomalyAction,
}
use agentct.Types
use agentct.Policy.Evaluator
use agentct.Policy.Evaluator.{Evaluator, EvaluationResult}
use agentct.Behavioral.Scorer
use agentct.Behavioral.Scorer.{Scorer, BehavioralResult}
use agentct.Breaker
use agentct.Breaker.{Breaker, is_anomaly}
use agentct.Intent.Registry
use agentct.Intent.Registry.{Bindings}
use agentct.Intent.Reconcile
use agentct.Intent.Reconcile.{Reply, Reconciler}
use agentct.Guard.Verdict.{validate_request, aggregate_verdict, build_reason}
use agentct.Guard.State.{Outside, GuardConfig, Guard, Instants}

-- `this.breaker?.isOpen()`
unfoldable pub breaker_open : Option Breaker.Config → ℕ → Breaker → Bool × Breaker
breaker_open none now b = (false, b)
breaker_open (some cfg) now b = Breaker.is_open cfg now b

unfoldable pub breaker_record : Option Breaker.Config → PolicyDecision → ℕ → Breaker → Breaker
unfolding is_anomaly
breaker_record none decision now b = b
breaker_record (some cfg) decision now b =
    Breaker.record_event cfg decision.verdict (is_anomaly decision.checks) now b

abbrev pub frozen_decision : PolicyDecision
frozen_decision = record {
  verdict = Types.Verdict.block;
  risk_score = one_double;
  checks =
      record {
        id = codes "circuit-breaker";
        passed = false;
        severity = Severity.critical;
        message = Message.agent_frozen;
      }
      ∷ [];
  reason = Reason.breaker_open;
  escalation = none;
}

abbrev pub invalid_decision : PolicyCheck → PolicyDecision
invalid_decision c = record {
  verdict = Types.Verdict.block;
  risk_score = one_double;
  checks = c ∷ [];
  reason = Reason.invalid c.message;
  escalation = none;
}

module _ (out : Outside) (cfg : GuardConfig) where
  -- The checks of the layers, in their order.
  unfoldable pub layer_checks : Guard → PaymentRequest → Instants → List PolicyCheck
  layer_checks g req at =
      (Evaluator.evaluate out.parse_url cfg.rules g.evaluator req at.rules_at).checks
      ++ (Scorer.score out.floats cfg.behavioral req at.score_at g.scorer).anomaly_checks
      ++ Registry.check out.parse_url g.bindings req
        ∷ Reconcile.check out.ask cfg.reconciler req
        ∷ []

  -- What `evaluate` decides on a valid request behind a closed breaker.
  unfoldable pub decide_layers : Guard → PaymentRequest → Instants → PolicyDecision
  unfolding layer_checks
  decide_layers g req at =
      let score = (Scorer.score out.floats cfg.behavioral req at.score_at g.scorer).score in
      let checks = layer_checks g req at in
      let verdict =
        aggregate_verdict checks score cfg.anomaly_threshold cfg.anomaly_action
          (Evaluator.evaluate out.parse_url cfg.rules g.evaluator req at.rules_at).escalate in
      record {
        verdict = verdict;
        risk_score = score;
        checks = checks;
        reason = build_reason verdict checks score;
        escalation = none;
      }

  -- From the boundary validation on.
  unfoldable pub decide_valid :
      Option PolicyCheck → Guard → PaymentRequest → Instants → PolicyDecision
  unfolding decide_layers
  decide_valid (some invalid) g req at = invalid_decision invalid
  decide_valid none g req at = decide_layers g req at

  unfoldable pub decide : Guard → PaymentRequest → Instants → PolicyDecision
  unfolding decide_valid breaker_open
  decide g req at =
      if (breaker_open cfg.circuit at.open_at g.breaker).0
      then frozen_decision
      else decide_valid (validate_request out.is_address req) g req at

  -- `evaluate`: the decision, and the guard, whose breaker closes when its cooldown is over.
  unfoldable pub evaluate : Guard → PaymentRequest → Instants → PolicyDecision × Guard
  unfolding decide breaker_open
  evaluate g req at =
      (decide g req at, record g { breaker = (breaker_open cfg.circuit at.open_at g.breaker).1 })

  -- Whether the payment may go on; `none` where `onEscalation` throws.
  unfoldable pub allowed : PaymentRequest → PolicyDecision → Types.Verdict → Option Bool
  allowed req decision Types.Verdict.block = some false
  allowed req decision Types.Verdict.escalate = elim out.on_escalation [
    | none ↦ some false
    | some ask ↦ ask req decision
  ]
  allowed req decision Types.Verdict.allow = some true

  unfoldable pub run_guard :
      Guard → PaymentRequest → Instants → Option Bool × PolicyDecision × Guard
  unfolding evaluate allowed breaker_record
  run_guard g req at =
      let (decision, g') = evaluate g req at in
      (
        allowed req decision decision.verdict,
        decision,
        record g' { breaker = breaker_record cfg.circuit decision at.breaker_at g'.breaker },
      )
