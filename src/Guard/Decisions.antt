-- ===== src/Guard/Decisions.antt =====
-- `evaluate` of packages/core/src/index.ts as a whole: what stands between a request and an allow.
use agentct.Base.{
  ◌++◌, any, any-append, Text, Bool, true, false, not, ◌||◌, Option, none, some, List, [], ◌∷◌,
  lookup, ◌≡◌, refl, sym, ap, ◌∙◌, ◌↔◌, inl, inr, arith, Bool-cases,
}
use agentct.Base.Double.{le}
use agentct.Types.{PaymentRequest, PolicyCheck}
use agentct.Types
use agentct.Policy.Rules.Outcomes.{is_critical, blocks}
use agentct.Policy.Allowlist.{Url}
use agentct.Policy.Evaluator.{context, dispatch}
use agentct.Policy.Evaluator
use agentct.Policy.Evaluator.Verdicts.{evaluate_lem, any-evaluate}
use agentct.Behavioral.Scorer
use agentct.Intent.Registry
use agentct.Intent.Registry.{Bindings, compare_payee, check_host}
use agentct.Intent.Reconcile
use agentct.Intent.Reconcile.Outcomes.{check-critical}
use agentct.Guard.State.{Outside, GuardConfig, Guard, Instants}
use agentct.Guard.Evaluation.{breaker_open, layer_checks, decide_layers, decide_valid, decide}
use agentct.Guard.Verdict.{validate_request}
use agentct.Guard.Verdict.Meaning.{aggregate_verdict_iff}

compare_payee-critical :
    (host : Text) (bound : Option (List Text)) (recipient : Text)
    → is_critical (compare_payee host bound recipient)
      ≡ not (compare_payee host bound recipient).passed
unfolding compare_payee
compare_payee-critical host none recipient = refl
compare_payee-critical host (some []) recipient = refl
compare_payee-critical host (some (k ∷ known)) recipient = ground arith

check_host-critical :
    (found : Option Text) (bindings : Bindings) (recipient : Text)
    → is_critical (check_host found bindings recipient)
      ≡ not (check_host found bindings recipient).passed
unfolding check_host
check_host-critical none bindings recipient = refl
check_host-critical (some host) bindings recipient =
    compare_payee-critical host (lookup host bindings) recipient

or_false :
    (a b c d : Bool)
    → ((a || b || not c || not d) ≡ false) ↔ ((a ≡ false) × (b ≡ false) × (c ≡ true) × (d ≡ true))
or_false a b c d = ground arith

registry-critical :
    (parse_url : Text → Option Url) (bindings : Bindings) (req : PaymentRequest)
    → is_critical (Registry.check parse_url bindings req)
      ≡ not (Registry.check parse_url bindings req).passed
unfolding Registry.check
registry-critical parse_url bindings req =
    check_host-critical (Registry.host_of parse_url req.resource_url) bindings req.recipient

or_regroup : (a b c d : Bool) → ((a || b) || (c || (d || false))) ≡ (a || b || c || d)
or_regroup a b c d = ground arith

any-layers :
    (rules anomalies : List PolicyCheck) (binding intent : PolicyCheck)
    → any is_critical (rules ++ anomalies ++ binding ∷ intent ∷ []) ≡ (
        any is_critical rules
        || any is_critical anomalies
        || is_critical binding
        || is_critical intent)
any-layers rules anomalies binding intent =
    let last = binding ∷ intent ∷ [] in
    any-append is_critical (rules ++ anomalies) last
    ∙ ap (λ b. b || any is_critical last) (any-append is_critical rules anomalies)
    ∙ or_regroup (any is_critical rules) (any is_critical anomalies) (is_critical binding)
        (is_critical intent)

module _ (out : Outside) (cfg : GuardConfig) where
  abbrev pub score_of : Guard → PaymentRequest → Instants → Scorer.BehavioralResult
  score_of g req at = Scorer.score out.floats cfg.behavioral req at.score_at g.scorer

  -- What the policy, the behavioral layer and the two intent checks have to say for an allow.
  pub record Layers (g : Guard) (req : PaymentRequest) (at : Instants) : Type 0 where
    pub unblocked :
        any (λ r. blocks (dispatch out.parse_url r (context g.evaluator req at.rules_at))) cfg.rules
        ≡ false
    pub unescalated :
        any
          (λ r. (dispatch out.parse_url r (context g.evaluator req at.rules_at)).escalate)
          cfg.rules
        ≡ false
    pub usual : any is_critical (score_of g req at).anomaly_checks ≡ false
    pub low : le cfg.anomaly_threshold (score_of g req at).score ≡ false
    pub payee : (Registry.check out.parse_url g.bindings req).passed ≡ true
    pub intent : (Reconcile.check out.ask cfg.reconciler req).passed ≡ true

  layer_checks-critical :
      (g : Guard) (req : PaymentRequest) (at : Instants)
      → any is_critical (layer_checks out cfg g req at) ≡ (
          any
            (λ r. blocks (dispatch out.parse_url r (context g.evaluator req at.rules_at)))
            cfg.rules
          || any is_critical (score_of g req at).anomaly_checks
          || not (Registry.check out.parse_url g.bindings req).passed
          || not (Reconcile.check out.ask cfg.reconciler req).passed)
  unfolding layer_checks
  layer_checks-critical g req at =
      any-layers (Evaluator.evaluate out.parse_url cfg.rules g.evaluator req at.rules_at).checks
        (score_of g req at).anomaly_checks (Registry.check out.parse_url g.bindings req)
        (Reconcile.check out.ask cfg.reconciler req)
      ∙ cc (
        any-evaluate out.parse_url cfg.rules g.evaluator req at.rules_at,
        registry-critical out.parse_url g.bindings req,
        check-critical out.ask cfg.reconciler req,
      )

  decide_layers-allow :
      (g : Guard) (req : PaymentRequest) (at : Instants)
      → ((decide_layers out cfg g req at).verdict ≡ Types.Verdict.allow) ↔ (
          (any is_critical (layer_checks out cfg g req at) ≡ false)
          × (le cfg.anomaly_threshold (score_of g req at).score ≡ false)
          × ((Evaluator.evaluate out.parse_url cfg.rules g.evaluator req at.rules_at).escalate
              ≡ false))
  unfolding decide_layers
  decide_layers-allow g req at =
      (aggregate_verdict_iff (layer_checks out cfg g req at) (score_of g req at).score
        cfg.anomaly_threshold cfg.anomaly_action
        (Evaluator.evaluate out.parse_url cfg.rules g.evaluator req at.rules_at).escalate).0

  decide_layers-allow_iff :
      (g : Guard) (req : PaymentRequest) (at : Instants)
      → ((decide_layers out cfg g req at).verdict ≡ Types.Verdict.allow) ↔ Layers g req at
  decide_layers-allow_iff g req at =
      let verdict = decide_layers-allow g req at in
      let critical = layer_checks-critical g req at in
      let asked = (evaluate_lem out.parse_url cfg.rules g.evaluator req at.rules_at).1 in
      let parts =
        or_false
          (any (λ r. blocks (dispatch out.parse_url r (context g.evaluator req at.rules_at)))
            cfg.rules)
          (any is_critical (score_of g req at).anomaly_checks)
          (Registry.check out.parse_url g.bindings req).passed
          (Reconcile.check out.ask cfg.reconciler req).passed in
      (
        λ h.
            let (none_critical, low, unasked) = verdict.0 h in
            let (unblocked, usual, payee, intent) = parts.0 (sym critical ∙ none_critical) in
            record {
              unblocked = unblocked;
              unescalated = sym asked ∙ unasked;
              usual = usual;
              low = low;
              payee = payee;
              intent = intent;
            },
        λ l. verdict.1 (
          critical ∙ parts.1 (l.unblocked, l.usual, l.payee, l.intent),
          l.low,
          asked ∙ l.unescalated,
        ),
      )

  decide_valid-allow_iff :
      (checked : Option PolicyCheck) (g : Guard) (req : PaymentRequest) (at : Instants)
      → ((decide_valid out cfg checked g req at).verdict ≡ Types.Verdict.allow)
        ↔ ((checked ≡ none) × Layers g req at)
  unfolding decide_valid
  decide_valid-allow_iff none g req at =
      let layers = decide_layers-allow_iff g req at in (λ h. (refl, layers.0 h), λ m. layers.1 m.1)
  decide_valid-allow_iff (some invalid) g req at = (λ h. cc, λ m. cc (m.0))

  -- The guard allows a payment exactly when the breaker is closed, the request is valid, no rule of
  -- the policy blocks it or asks for a human, no critical anomaly is found and the risk score does
  -- not reach the threshold, the payee is not a substituted one, and the intent check did not fail.
  pub decide-allow_iff :
      (g : Guard) (req : PaymentRequest) (at : Instants)
      → ((decide out cfg g req at).verdict ≡ Types.Verdict.allow) ↔ (
          ((breaker_open cfg.circuit at.open_at g.breaker).0 ≡ false)
          × (validate_request out.is_address req ≡ none)
          × Layers g req at)
  unfolding decide
  decide-allow_iff g req at =
      let valid = decide_valid-allow_iff (validate_request out.is_address req) g req at in
      elim (Bool-cases (breaker_open cfg.circuit at.open_at g.breaker).0) [
        | inl frozen ↦ rw frozen (λ h. cc, λ m. cc (m.0))
        | inr closed ↦
            rw closed (λ h. (refl, (valid.0 h).0, (valid.0 h).1), λ m. valid.1 (m.1, m.2))
      ]
