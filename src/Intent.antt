-- ===== src/Intent.antt =====
-- packages/core/src/intent: what ties a payment to the purpose that the agent states.
pub mod Registry
pub mod Reconcile
