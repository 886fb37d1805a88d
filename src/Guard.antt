-- ===== src/Guard.antt =====
-- AgentGuard of packages/core/src/index.ts: its state, its methods and what they promise.
pub mod State
pub mod Evaluation
pub mod Payment
pub mod Required
pub mod Fetch
pub mod Rehydration
pub mod Verdict
pub mod Decisions
pub mod Ids
pub mod Execution
pub mod Caps
pub mod Restart
pub mod Interleaving
