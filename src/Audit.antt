-- ===== src/Audit.antt =====
pub mod Hash
pub mod Store
pub mod Logger
pub mod Proofs
pub mod AnchorClient
pub mod Postgres
