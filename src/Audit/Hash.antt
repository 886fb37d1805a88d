-- ===== src/Audit/Hash.antt =====
-- hashEntry and recomputeEntryHash of packages/core/src/audit/logger.ts: what of an entry its hash
-- covers. Rendering the preimage as JSON and hashing it is the parameter `digest`.
pub mod Coverage
use agentct.Base.{ℕ, ℤ, Text, lower, Bool, Option, none, some, List, map, ◌∷◌, []}
use mathlib.Core.Option
use agentct.Base.Double.{Double}
use agentct.Types.{PaymentRequest, PolicyCheck, PolicyDecision, Settlement, Verdict, AuditEntry}

pub record CanonicalSettlement : Type 0 where
  pub success : Bool
  pub tx_hash : Option Text
  pub nonce : Option Text
  pub facilitator : Option Text

-- The object that is rendered. A check is its id and whether it passed, the two sides of the text
-- `${c.id}:${c.passed}`.
pub record Canonical : Type 0 where
  pub intent : Text
  pub amount : ℤ
  pub token : Text
  pub recipient : Text
  pub chain : Text
  pub agent_id : Text
  pub resource_url : Option Text
  pub verdict : Verdict
  pub risk_score : Double
  pub checks : List (Text × Bool)
  pub settlement : Option CanonicalSettlement

unfoldable pub canonical_settlement : Settlement → CanonicalSettlement
unfolding lower
canonical_settlement s = record {
  success = s.success;
  tx_hash = Option.map lower s.tx_hash;
  nonce = Option.map lower s.nonce;
  facilitator = s.facilitator;
}

abbrev pub covered_check : PolicyCheck → Text × Bool
covered_check c = (c.id, c.passed)

unfoldable pub canonical : PaymentRequest → PolicyDecision → Option Settlement → Canonical
unfolding lower canonical_settlement
canonical req decision settlement = record {
  intent = req.intent;
  amount = req.amount;
  token = lower req.token;
  recipient = lower req.recipient;
  chain = req.chain;
  agent_id = req.agent_id;
  resource_url = req.resource_url;
  verdict = decision.verdict;
  risk_score = decision.risk_score;
  checks = map covered_check decision.checks;
  settlement = Option.map canonical_settlement settlement;
}

module _ (digest : Canonical → Text) where
  unfoldable pub hash_entry : PaymentRequest → PolicyDecision → Option Settlement → Text
  unfolding canonical
  hash_entry req decision settlement = digest (canonical req decision settlement)

  unfoldable pub recompute_entry_hash : AuditEntry → Text
  unfolding hash_entry
  recompute_entry_hash e = hash_entry e.request e.decision e.settlement
