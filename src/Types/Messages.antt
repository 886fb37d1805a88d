-- ===== src/Types/Messages.antt =====
-- The messages of the checks, one constructor for each template in the sources of
-- packages/core/src, and the two enumerations of types.ts that messages print.
use agentct.Base.{ℕ, ℤ, Text, Bool, Option, List}
use agentct.Base.Double.{Double}

pub data SpendWindow : Type 0 where
  transaction session hour day : SpendWindow

pub data AllowlistMode : Type 0 where
  recipients resources : AllowlistMode

pub data RequestField : Type 0 where
  recipient token : RequestField

pub data AddressProblem : Type 0 where
  not_an_address bad_checksum : AddressProblem

pub data Message : Type 0 where
  -- policy/rules.ts and policy/evaluator.ts
  over_cap : SpendWindow → (total cap : ℤ) → Message
  over_threshold : (amount threshold : ℤ) → Message
  within_cap : SpendWindow → (total cap : ℤ) → Message
  allowlisted : AllowlistMode → Message
  not_allowlisted : AllowlistMode → Text → (warn_only : Bool) → Message
  over_rate : (count window_seconds limit : ℕ) → Message
  within_rate : (count limit window_seconds : ℕ) → Message
  known_counterparty : Message
  first_payment : Text → Message
  within_hours : (hour start end : ℕ) → Message
  outside_hours : (hour start end : ℕ) → Message
  no_cap_coverage : Text → Message
  -- behavioral/isolation.ts
  amount_spike : Double → Message
  frequency_spike : Double → Message
  multivariate_anomaly : Double → Message
  -- intent/registry.ts and intent/reconcile.ts
  no_resource : Message
  first_for_resource : (host recipient : Text) → Message
  paid_before : (host recipient : Text) → Message
  payee_changed : (host : Text) → List Text → (recipient : Text) → Message
  no_llm : Message
  below_llm_threshold : ℤ → Message
  intent_unavailable : Text → Message
  intent_consistent : Message
  intent_mismatch : Option Text → Message
  -- index.ts
  agent_frozen : Message
  amount_not_positive : ℤ → Message
  bad_address : RequestField → AddressProblem → Text → Message
  bad_chain : Text → Message
