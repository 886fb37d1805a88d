-- ===== src/X402.antt =====
-- packages/core/src/x402 and constants.ts: the chains, and what is signed and settled.
pub mod Chains
pub mod Inspect
pub mod Failover
pub mod Nonces
pub mod Eip3009
pub mod Permit2
pub mod Interceptor
