-- ===== src/Lib.antt =====
-- The payment guard of agentctl (packages/core): an agent asks to pay, three layers judge the
-- request, and the guard allows it, blocks it, or asks a human. This library models the guard and
-- its layers and proves what they promise.
--
-- The parts and their files:
-- - Base: texts as lists of code units, signed integers, maps and sets as lists, JavaScript
--   numbers as their 64 bits, and the lemmas on them.
-- - Types: packages/core/src/types.ts. Messages keep the values that they are filled with; the
--   English around these is left out.
-- - Policy: packages/core/src/policy. Allowlist and Rules are rules.ts, Evaluator is evaluator.ts
--   (PolicyEvaluator: payments and seen are the fields of the record Evaluator), Simulate is
--   simulate.ts, Schema and Compiler are schema.ts and compiler.ts behind the language model's
--   answer, Serde is serde.ts. The children hold the theorems.
-- - Breaker: packages/core/src/circuit-breaker.ts (CircuitBreaker: events and openedAt).
-- - Intent: packages/core/src/intent. Registry is registry.ts (ResourceRegistry: the bindings
--   from a host to its payees), Reconcile is reconcile.ts with the language model's reply as a
--   parameter.
-- - Behavioral: packages/core/src/behavioral. Baseline is baseline.ts with features.ts, Forest is
--   forest.ts, Scorer is isolation.ts.
-- - X402: Chains is packages/core/src/constants.ts; Inspect, Failover, Permit2 and Interceptor
--   are inspect.ts, facilitator.ts, permit2.ts and interceptor.ts of packages/core/src/x402;
--   Nonces and Eip3009 are eip3009.ts.
-- - Wallet: packages/core/src/adapters. The signing adapters of viem, Circle and Privy, with the
--   nonces that they hold.
-- - Audit: packages/core/src/audit. Hash is hashEntry and recomputeEntryHash of logger.ts, Store
--   is store.ts (the sqlite table as a list of rows), Postgres is postgres-store.ts (the rows
--   with their sequence numbers, in any order), Logger is flush, reconcile and anchorTick of
--   logger.ts with the leaves of merkle.ts, Proofs is proofFor and proofsForBatch, AnchorClient
--   is anchor.ts.
-- - Guard: packages/core/src/index.ts. Verdict is validateRequest, aggregateVerdict and
--   buildReason. AgentGuard is State (its fields), Evaluation (evaluate as decide and evaluate,
--   runGuard as run_guard), Payment (execute), Fetch (guardedFetch with the hooks of ensureSpine)
--   and Rehydration (hydrate), over the states of the parts above; Required is toPaymentRequired
--   and Interleaving is two calls of execute at once. The other children hold the theorems.
-- - Approvals: packages/core/src/approval-queue.ts (ApprovalQueue), with the promises as a list
--   of answers.
-- - Webhook: packages/core/src/escalation/webhook.ts, which asks a human over HTTP.
-- - Server: packages/server/src/index.ts. Limiter is RateLimiter, Requests reads a request,
--   Handler is the routes over a guard and a queue.
-- - Analytics, Integrations and Llm: analytics.ts, integrations.ts and llm/client.ts of
--   packages/core/src.
-- - Tests: concrete payments, and the theorems applied to them.
--
-- How the state is passed: a method that changes an object is a function from the old record to
-- the new one. Each reading of the clock is an argument, in milliseconds; the guard's calls take
-- all their readings in one record, Instants. A call that may throw returns an Option or a result
-- of the model's own.
--
-- What lies outside is a parameter: the platform's URL parser, its JSON and number texts, viem's
-- isAddress, its parser of units and its signer, zod's coercion of numbers, the language model
-- and the environment, the wallet, the x402 library, the facilitator, the anchor's chain, the
-- Merkle tree, the place that Postgres gives a row, the human asked on an escalation, HMAC and
-- the digest of a row, and the rounding operations on JavaScript numbers (comparisons are written
-- out). Guard.State.Outside collects those of the guard.
--
-- Bounds: amounts are integers of any size, as bigint is. Times and counts are natural numbers,
-- exact as long as they stay below 2^53. The forest's generator works on 32 bits, with the
-- wrap-around written out. Texts are lowered and trimmed as ASCII. Three loops run on fuel. The
-- digits of a number take as much as the number, which is more than its digits. The draw of a
-- nonce takes the candidates as a list, and one more candidate than there are outstanding nonces
-- is enough where the candidates are distinct. The wait of a commit takes the timeout in
-- milliseconds and two more, where each round takes at least a millisecond. A tree of the forest
-- is built by recursion on the levels that are left, which the source bounds by the logarithm of
-- the sample.
--
-- Not modelled: the connections of the stores; the timer of the anchoring; the JSON columns of
-- the store, where whether a row can be read is a parameter of hydrate; the contract behind the
-- anchor client; the CDP adapter; the registration of schemes and Solana; tracing and the command
-- line. Simplified: in the guard, the insert of an audit row always succeeds; the wallet, the
-- facilitator, the language model and the operator's callback answer by functions of what they
-- are given, so that the same request twice gets the same answer; a payload that the guard
-- compares has no nonce; the Merkle tree takes every leaf, also one whose recipient is no EVM
-- address, on which the library throws. Two calls of execute at once are modelled in one order
-- (Guard.Interleaving): both decided before either goes on.

pub mod Base
pub mod Types
pub mod Policy
pub mod Breaker
pub mod Intent
pub mod Behavioral
pub mod X402
pub mod Analytics
pub mod Integrations
pub mod Llm
pub mod Server
pub mod Wallet
pub mod Webhook
pub mod Guard
pub mod Audit
pub mod Approvals
pub mod Tests
