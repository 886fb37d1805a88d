-- ===== src/Audit/Hash/Coverage.antt =====
-- Which changes of a stored row its hash shows, and which it does not.
use agentct.Base.{ℕ, Text, lower, map, ◌≡◌, refl}
use mathlib.Core.Option
use agentct.Types.{AuditEntry}
use agentct.Audit.Hash.{
  Canonical, canonical, canonical_settlement, covered_check, recompute_entry_hash,
}

-- What two rows agree on when no edit between them can be seen.
abbrev pub SameAudited : AuditEntry → AuditEntry → Type 0
SameAudited e e' =
    (e.request.intent ≡ e'.request.intent)
    × (e.request.amount ≡ e'.request.amount)
    × (lower e.request.token ≡ lower e'.request.token)
    × (lower e.request.recipient ≡ lower e'.request.recipient)
    × (e.request.chain ≡ e'.request.chain)
    × (e.request.agent_id ≡ e'.request.agent_id)
    × (e.request.resource_url ≡ e'.request.resource_url)
    × (e.decision.verdict ≡ e'.decision.verdict)
    × (e.decision.risk_score ≡ e'.decision.risk_score)
    × (map covered_check e.decision.checks ≡ map covered_check e'.decision.checks)
    × (Option.map canonical_settlement e.settlement ≡ Option.map canonical_settlement e'.settlement)

-- The preimage of a row's hash.
abbrev pub preimage : AuditEntry → Canonical
preimage e = canonical e.request e.decision e.settlement

-- A row's time is not covered: moving it to any other time leaves the recomputed hash.
pub recompute_entry_hash-retime :
    (digest : Canonical → Text) (e : AuditEntry) (t : ℕ)
    → recompute_entry_hash digest (record e { timestamp = t }) ≡ recompute_entry_hash digest e
unfolding recompute_entry_hash
recompute_entry_hash-retime digest e t = refl
