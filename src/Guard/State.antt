-- ===== src/Guard/State.antt =====
-- The guard of packages/core/src/index.ts: the fields of AgentGuard over the states of the components.
-- What stands outside (the platform's URL parser, viem's address test, the language model, the
-- wallet, the facilitator, the human asked on an escalation, the hash) is one record of functions,
-- and each reading of the clock is a field of another.
use agentct.Base.{ℕ, Text, Bool, Option, List}
use agentct.Base.Double.{Double}
use agentct.Types.{PaymentRequest, PolicyDecision, PolicyRule, AuditEntry, AnomalyAction}
use agentct.Policy.Allowlist.{Url}
use agentct.Policy.Evaluator.{Evaluator}
use agentct.Behavioral.Numbers.{FloatOps}
use agentct.Behavioral.Scorer
use agentct.Behavioral.Scorer.{Scorer, BehavioralResult}
use agentct.Breaker
use agentct.Breaker.{Breaker, is_anomaly}
use agentct.Intent.Registry.{Bindings}
use agentct.Intent.Reconcile.{Reply, Reconciler}
use agentct.X402.Inspect.{Payload}
use agentct.Audit.Hash.{Canonical}

-- What the facilitator answers.
pub record SettleResponse : Type 0 where
  pub success : Bool
  pub transaction : Text

-- The calls that leave the program; `none` is one that throws.
pub record Outside : Type 0 where
  pub parse_url : Text → Option Url
  pub is_address : Bool → Text → Bool
  pub floats : FloatOps
  pub ask : PaymentRequest → Reply
  -- `onEscalation`, where one is configured
  pub on_escalation : Option (PaymentRequest → PolicyDecision → Option Bool)
  -- whether `ensureSpine` gets its clients, for which it asks the wallet for a signer
  pub spine_ready : Bool
  -- `createPaymentPayload`, with the wallet's signer behind it
  pub create_payload : PaymentRequest → Option Payload
  pub settle : Payload → PaymentRequest → Option SettleResponse
  pub digest : Canonical → Text

pub record GuardConfig : Type 0 where
  pub agent_id : Text
  pub rules : List PolicyRule
  pub anomaly_threshold : Double
  pub anomaly_action : AnomalyAction
  pub circuit : Option Breaker.Config
  pub behavioral : Scorer.Options
  pub reconciler : Reconciler
  pub facilitator_url : Text

pub record HydrationReport : Type 0 where
  pub entries : ℕ
  pub settled : ℕ
  pub tampered : ℕ
  pub tampered_ids : List Text

-- The fields of the guard that change; the audit log stands for its table.
pub record Guard : Type 0 where
  pub evaluator : Evaluator
  pub scorer : Scorer
  pub bindings : Bindings
  pub breaker : Breaker
  pub log : List AuditEntry
  pub last_hydration : Option HydrationReport

-- The readings of the clock in one call, in the order in which they happen.
pub record Instants : Type 0 where
  pub open_at : ℕ
  pub rules_at : ℕ
  pub score_at : ℕ
  pub breaker_at : ℕ
  pub learned_at : ℕ
  pub observed_at : ℕ
  pub logged_at : ℕ
