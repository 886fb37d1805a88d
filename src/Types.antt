-- ===== src/Types.antt =====
-- packages/core/src/types.ts: the data that every part of the guard shares. A message or a reason
-- keeps what its template is filled with; the rendering into English is left out.
mod Messages
use agentct.Base.{ℕ, ℤ, Text, Bool, true, false, Option, List}
use agentct.Base.Double.{Double}
pub use Messages.{Message, SpendWindow, AllowlistMode, RequestField, AddressProblem}

pub record PaymentRequest : Type 0 where
  pub intent : Text
  pub amount : ℤ
  pub token : Text
  pub recipient : Text
  pub chain : Text
  pub agent_id : Text
  pub resource_url : Option Text

pub data Verdict : Type 0 where
  allow block escalate : Verdict

-- `a === b`
abbrev pub verdict_eq : Verdict → Verdict → Bool
verdict_eq Verdict.allow Verdict.allow = true
verdict_eq Verdict.block Verdict.block = true
verdict_eq Verdict.escalate Verdict.escalate = true
verdict_eq _ _ = false

pub data Severity : Type 0 where
  info warning critical : Severity

pub record PolicyCheck : Type 0 where
  pub id : Text
  pub passed : Bool
  pub severity : Severity
  pub message : Message

-- What `buildReason` and the early returns of `evaluate` put into `reason`.
pub data Reason : Type 0 where
  allowed : Double → Reason
  refused : Verdict → Double → List Message → Reason
  breaker_open : Reason
  invalid : Message → Reason

pub data EscalationMethod : Type 0 where
  webhook push email : EscalationMethod

pub record EscalationTarget : Type 0 where
  pub method : EscalationMethod
  pub destination : Text
  pub timeout_seconds : ℕ

pub record PolicyDecision : Type 0 where
  pub verdict : Verdict
  pub risk_score : Double
  pub checks : List PolicyCheck
  pub reason : Reason
  pub escalation : Option EscalationTarget

pub data RuleAction : Type 0 where
  block escalate warn : RuleAction

pub record SpendCapRule : Type 0 where
  pub window : SpendWindow
  pub max_amount : ℤ
  pub token : Text
  pub escalate_above : Option ℤ

pub record AllowlistRule : Type 0 where
  pub mode : AllowlistMode
  pub entries : List Text
  pub enforce : Bool

pub record RateLimitRule : Type 0 where
  pub max_payments : ℕ
  pub window_seconds : ℕ

pub record CounterpartyRule : Type 0 where
  pub flag_new_recipients : Bool
  pub action : RuleAction

pub record TimeWindowRule : Type 0 where
  pub allowed_hours : ℕ × ℕ
  pub action : RuleAction

pub data PolicyRule : Type 0 where
  spend_cap : SpendCapRule → PolicyRule
  allowlist : AllowlistRule → PolicyRule
  rate_limit : RateLimitRule → PolicyRule
  counterparty : CounterpartyRule → PolicyRule
  time_window : TimeWindowRule → PolicyRule

pub data AnomalyAction : Type 0 where
  block escalate : AnomalyAction

pub record Policy : Type 0 where
  pub agent_id : Text
  pub rules : List PolicyRule
  pub anomaly_threshold : Double
  pub anomaly_action : AnomalyAction
  pub source_text : Option Text

pub record Settlement : Type 0 where
  pub tx_hash : Option Text
  pub nonce : Option Text
  pub facilitator : Option Text
  pub success : Bool

pub record AuditEntry : Type 0 where
  pub id : Text
  pub timestamp : ℕ
  pub agent_id : Text
  pub request : PaymentRequest
  pub decision : PolicyDecision
  pub settlement : Option Settlement
  pub entry_hash : Text

pub record Authorization : Type 0 where
  pub from : Text
  pub to : Text
  pub value : ℤ
  pub valid_after : ℕ
  pub valid_before : ℕ
  pub nonce : Text
