-- ===== src/Behavioral.antt =====
-- packages/core/src/behavioral: anomaly scores from an agent's own history.
pub mod Numbers
pub mod Baseline
pub mod Forest
pub mod Scorer
