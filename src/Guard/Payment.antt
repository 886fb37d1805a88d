-- ===== src/Guard/Payment.antt =====
-- `execute` of packages/core/src/index.ts: from the decision to the settlement and its record.
use agentct.Base.{ℕ, Text, Bool, true, false, Option, none, some, [], ◌∷◌, ◌++◌, if◌then◌else◌}
use agentct.Types.{PaymentRequest, PolicyDecision, Settlement, AuditEntry}
use agentct.Policy.Evaluator
use agentct.Policy.Evaluator.{Evaluator, EvaluationResult}
use agentct.Behavioral.Scorer
use agentct.Behavioral.Scorer.{Scorer, BehavioralResult}
use agentct.Intent.Registry
use agentct.Intent.Registry.{Bindings}
use agentct.X402.Chains.{ChainConfig, get_chain}
use agentct.X402.Inspect.{Payload, authorization_matches}
use agentct.Audit.Hash.{hash_entry}
use agentct.Guard.State.{SettleResponse, Outside, GuardConfig, Guard, Instants}
use agentct.Guard.Evaluation.{run_guard}

pub data Failure : Type 0 where
  escalation_failed spine_failed unsupported_chain payload_failed mismatch settle_failed : Failure

-- How `execute` ends.
pub data Executed : Type 0 where
  refused : PolicyDecision → Executed
  settled : PolicyDecision → Settlement → Executed
  threw : Failure → Executed

module _ (out : Outside) (cfg : GuardConfig) where
  abbrev pub new_entry : Text → PaymentRequest → PolicyDecision → Option Settlement → ℕ → AuditEntry
  new_entry id req decision settlement now = record {
    id = id;
    timestamp = now;
    agent_id = req.agent_id;
    request = req;
    decision = decision;
    settlement = settlement;
    entry_hash = hash_entry out.digest req decision settlement;
  }

  -- `AuditLogger.record`, with the identifier that it draws.
  unfoldable pub record_entry :
      Text → PaymentRequest → PolicyDecision → Option Settlement → ℕ → Guard → Guard
  record_entry id req decision settlement now g = record g {
    log = g.log ++ new_entry id req decision settlement now ∷ [];
  }

  -- What a settled payment teaches the three components.
  unfoldable pub learn : PaymentRequest → Instants → Guard → Guard
  learn req at g = record g {
    scorer = Scorer.observe out.floats cfg.behavioral req at.learned_at g.scorer;
    evaluator = Evaluator.observe g.evaluator req at.observed_at;
    bindings = Registry.bind out.parse_url req.resource_url req.recipient g.bindings;
  }

  abbrev pub settlement_of : SettleResponse → Settlement
  settlement_of r = record {
    tx_hash = if r.success then some r.transaction else none;
    nonce = none;
    facilitator = some cfg.facilitator_url;
    success = r.success;
  }

  -- From the facilitator's answer on.
  unfoldable pub finish :
      Text
      → PaymentRequest
      → PolicyDecision
      → Instants
      → Option SettleResponse
      → Guard
      → Executed × Guard
  unfolding learn record_entry
  finish id req decision at none g = (threw settle_failed, g)
  finish id req decision at (some r) g =
      let s = settlement_of r in
      (
        settled decision s,
        record_entry id req decision (some s) at.logged_at
            (if r.success then learn req at g else g),
      )

  -- From the signed payload on.
  unfoldable pub submit :
      Text → PaymentRequest → PolicyDecision → Instants → Option Payload → Guard → Executed × Guard
  unfolding finish
  submit id req decision at none g = (threw payload_failed, g)
  submit id req decision at (some payload) g =
      if authorization_matches payload req
      then finish id req decision at (out.settle payload req) g
      else (threw mismatch, g)

  -- `toPaymentRequired` throws on a chain that `getChain` does not know.
  unfoldable pub pay :
      Text
      → PaymentRequest
      → PolicyDecision
      → Instants
      → Bool
      → Option ChainConfig
      → Guard
      → Executed × Guard
  unfolding submit
  pay id req decision at false chain g = (threw spine_failed, g)
  pay id req decision at true none g = (threw unsupported_chain, g)
  pay id req decision at true (some chain) g = submit id req decision at (out.create_payload req) g

  unfoldable pub proceed :
      Text → PaymentRequest → Instants → Option Bool → PolicyDecision → Guard → Executed × Guard
  unfolding pay record_entry
  proceed id req at none decision g = (threw escalation_failed, g)
  proceed id req at (some false) decision g =
      (refused decision, record_entry id req decision none at.logged_at g)
  proceed id req at (some true) decision g =
      pay id req decision at out.spine_ready (get_chain req.chain) g

  unfoldable pub execute : Text → Guard → PaymentRequest → Instants → Executed × Guard
  unfolding run_guard proceed
  execute id g req at =
      let (ok, decision, g') = run_guard out cfg g req at in proceed id req at ok decision g'
