-- ===== src/Intent/Reconcile.antt =====
-- IntentReconciler.check of packages/core/src/intent/reconcile.ts. The language model is a parameter:
-- what `semanticCheck` gets back from it for a request, and whether one is configured at all.
pub mod Outcomes
use agentct.Base.{ℤ, ltb_ℤ, Text, codes, Bool, true, false, not, Option, if◌then◌else◌}
use agentct.Types.{PaymentRequest, PolicyCheck, Severity, Message}

-- A parsed verdict, or the error's message where the call or the parse fails.
pub data Reply : Type 0 where
  answered : (consistent : Bool) (concern : Option Text) → Reply
  failed : Text → Reply

pub record Reconciler : Type 0 where
  pub configured : Bool
  pub min_amount : ℤ

abbrev pub reconcile_id : Text
reconcile_id = codes "intent-reconcile"

abbrev info : Message → PolicyCheck
info message = record {
  id = reconcile_id;
  passed = true;
  severity = Severity.info;
  message = message;
}

unfoldable pub semantic_check : Reply → PolicyCheck
semantic_check (answered true concern) = info Message.intent_consistent
semantic_check (answered false concern) = record {
  id = reconcile_id;
  passed = false;
  severity = Severity.critical;
  message = Message.intent_mismatch concern;
}
semantic_check (failed error) = record {
  id = reconcile_id;
  passed = true;
  severity = Severity.warning;
  message = Message.intent_unavailable error;
}

unfoldable pub check : (PaymentRequest → Reply) → Reconciler → PaymentRequest → PolicyCheck
unfolding semantic_check
check ask r req =
    if not r.configured
    then info Message.no_llm
    else if ltb_ℤ req.amount r.min_amount
    then info (Message.below_llm_threshold r.min_amount)
    else semantic_check (ask req)
