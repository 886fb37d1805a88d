-- ===== src/Server.antt =====
-- packages/server/src/index.ts: the control plane, a guard driven over HTTP.
pub mod Limiter
pub mod Requests
pub mod Handler
pub mod Access
pub mod Resolving
