-- ===== src/Policy.antt =====
-- packages/core/src/policy: the deterministic rules, the evaluator that keeps their state, the
-- compiler of USD policies and the backtest.
pub mod Allowlist
pub mod Rules
pub mod Evaluator
pub mod Simulate
pub mod Serde
pub mod Schema
pub mod Compiler
