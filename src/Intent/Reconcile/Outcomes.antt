-- ===== src/Intent/Reconcile/Outcomes.antt =====
-- When the intent check fails a request.
use agentct.Base.{◌≤ℤ◌, Bool, true, false, not, ◌≡◌, refl, ◌↔◌, arith}
use agentct.Types.{PaymentRequest}
use agentct.Policy.Rules.Outcomes.{is_critical}
use agentct.Intent.Reconcile.{Reply, Reconciler, semantic_check, check}

abbrev pub denies : Reply → Bool
denies (Reply.answered true concern) = false
denies (Reply.answered false concern) = true
denies (Reply.failed error) = false

semantic_check-passed : (reply : Reply) → (semantic_check reply).passed ≡ not (denies reply)
unfolding semantic_check
semantic_check-passed (Reply.answered true concern) = refl
semantic_check-passed (Reply.answered false concern) = refl
semantic_check-passed (Reply.failed error) = refl

-- The intent check fails a request exactly when a model is configured, the amount is at least the
-- reconciler's minimum, and the model answered that the payment is inconsistent with the intent.
pub check-fails_iff :
    (ask : PaymentRequest → Reply) (r : Reconciler) (req : PaymentRequest)
    → ((check ask r req).passed ≡ false)
      ↔ ((r.configured ≡ true) × (r.min_amount ≤ℤ req.amount) × (denies (ask req) ≡ true))
unfolding check
check-fails_iff ask r req = ground (arith, semantic_check-passed (ask req))

semantic_check-critical :
    (reply : Reply) → is_critical (semantic_check reply) ≡ not (semantic_check reply).passed
unfolding semantic_check
semantic_check-critical (Reply.answered true concern) = refl
semantic_check-critical (Reply.answered false concern) = refl
semantic_check-critical (Reply.failed error) = refl

pub check-critical :
    (ask : PaymentRequest → Reply) (r : Reconciler) (req : PaymentRequest)
    → is_critical (check ask r req) ≡ not (check ask r req).passed
unfolding check
check-critical ask r req = ground (arith, semantic_check-critical (ask req))
