-- ===== src/Audit/Logger.antt =====
-- AuditLogger of packages/core/src/audit/logger.ts over the table of its store: flush, reconcile and
-- one tick of the scheduler, with the leaves of packages/core/src/audit/merkle.ts. The anchor client
-- and the Merkle tree are parameters; `none` is a call that throws.
pub mod Anchoring
use agentct.Base.{
  ℕ, ◌+◌, Text, codes, text_eq, lower, length, Bool, true, false, not, ◌&&◌, Option, none, some,
  List, [], ◌∷◌, ◌++◌, map, if◌then◌else◌,
}
use agentct.Types.{AuditEntry, Verdict}
use agentct.Audit.Hash.{Canonical, recompute_entry_hash}
use agentct.Audit.Store.{Table, unbatched, mark_batched, anchored_batches, release_batch}

abbrev pub zero_root : Text
zero_root = codes "0x0000000000000000000000000000000000000000000000000000000000000000"

pub record LeafContext : Type 0 where
  pub chain_id : ℕ
  pub anchor : Text
  pub operator : Text

pub record Leaf : Type 0 where
  pub context : LeafContext
  pub agent_id : Text
  pub timestamp : ℕ
  pub recipient : Text
  pub verdict : ℕ
  pub entry_hash : Text

unfoldable pub verdict_to_num : Verdict → ℕ
verdict_to_num Verdict.allow = 0
verdict_to_num Verdict.escalate = 1
verdict_to_num Verdict.block = 2

unfoldable pub entry_to_leaf : LeafContext → AuditEntry → Leaf
unfolding verdict_to_num
entry_to_leaf ctx e = record {
  context = ctx;
  agent_id = e.agent_id;
  timestamp = e.timestamp;
  recipient = e.request.recipient;
  verdict = verdict_to_num e.decision.verdict;
  entry_hash = e.entry_hash;
}

-- What `getBatch` says of an index.
pub record OnChainBatch : Type 0 where
  pub found : Bool
  pub root : Text

pub record Anchor : Type 0 where
  pub context : LeafContext
  pub head : Option Text
  -- `commit(prevRoot, root, count)`: the transaction and the index of its event
  pub commit : Text → Text → ℕ → Option (Text × ℕ)
  pub get_batch : ℕ → Option OnChainBatch

pub record FlushResult : Type 0 where
  pub batch_index : ℕ
  pub root : Text
  pub tx_hash : Text
  pub entry_count : ℕ

-- How `flush` ends: nothing to do, an exception, or a batch.
pub data Flushed : Type 0 where
  idle threw : Flushed
  anchored : FlushResult → Flushed

pub record ReconcileResult : Type 0 where
  pub stale_batches : List ℕ
  pub released_entries : ℕ

-- The table, and whether a tick is running.
pub record Logger : Type 0 where
  pub table : Table
  pub anchoring : Bool

-- From the answer of `commit` on.
unfoldable pub tag_batch : Option (Text × ℕ) → List AuditEntry → Text → Table → Flushed × Table
unfolding mark_batched
tag_batch none rows root table = (threw, table)
tag_batch (some (tx, index)) rows root table = (
  anchored (record { batch_index = index; root = root; tx_hash = tx; entry_count = length rows }),
  mark_batched (map (λ (e : AuditEntry). e.id) rows) index root table,
)

abbrev pub matches : OnChainBatch → Text → Bool
matches chain root = chain.found && text_eq (lower chain.root) (lower root)

-- What happens to a batch: `getBatch` throws, the chain holds the root, or it does not.
abbrev pub by_answer {ℓ} : {A : Type ℓ} → Option OnChainBatch → Text → (silent kept dropped : A) → A
by_answer none root silent kept dropped = silent
by_answer (some chain) root silent kept dropped = if matches chain root then kept else dropped

-- The loop over the batches. Where `getBatch` throws, what was released so far stays released.
unfoldable pub reconcile_batches :
    Anchor → List (ℕ × Text) → ReconcileResult → Table → Option ReconcileResult × Table
unfolding release_batch
reconcile_batches client [] result table = (some result, table)
reconcile_batches client ((index, root) ∷ batches) result table =
    let (count, released) = release_batch index table in
    let next : ReconcileResult = record {
      stale_batches = result.stale_batches ++ index ∷ [];
      released_entries = result.released_entries + count;
    } in
    let kept = reconcile_batches client batches result table in
    let dropped = reconcile_batches client batches next released in
    by_answer (client.get_batch index) root (none, table) kept dropped

-- `none` in the result is no client or an exception.
unfoldable pub reconcile : Option Anchor → Table → Option ReconcileResult × Table
unfolding reconcile_batches anchored_batches
reconcile none table = (none, table)
reconcile (some client) table =
    reconcile_batches client (anchored_batches table)
      (record { stale_batches = []; released_entries = 0 }) table

abbrev pub result_of : Flushed → Option FlushResult
result_of (anchored r) = some r
result_of _ = none

module _ (digest : Canonical → Text) (tree_root : List Leaf → Text) where
  unfoldable pub canonicalize : AuditEntry → AuditEntry
  canonicalize e = record e { entry_hash = recompute_entry_hash digest e }

  -- `MerkleAuditBatch.root` of a batch with these rows; the tree's root is a parameter.
  unfoldable pub batch_root : LeafContext → List AuditEntry → Text
  unfolding entry_to_leaf canonicalize
  batch_root ctx [] = zero_root
  batch_root ctx (e ∷ es) = tree_root (map (λ r. entry_to_leaf ctx (canonicalize r)) (e ∷ es))

  -- From the head on.
  unfoldable pub commit_batch : Option Text → Anchor → List AuditEntry → Table → Flushed × Table
  unfolding tag_batch batch_root
  commit_batch none client rows table = (threw, table)
  commit_batch (some head) client rows table =
      let root = batch_root client.context rows in
      tag_batch (client.commit head root (length rows)) rows root table

  -- On the rows that are not anchored yet.
  unfoldable pub flush_rows : List AuditEntry → Anchor → Table → Flushed × Table
  unfolding commit_batch
  flush_rows [] client table = (idle, table)
  flush_rows (e ∷ es) client table = commit_batch client.head client (e ∷ es) table

  unfoldable pub flush : Option Anchor → Table → Flushed × Table
  unfolding flush_rows unbatched
  flush none table = (idle, table)
  flush (some client) table = flush_rows (unbatched table) client table

  -- What a tick does after its reconciliation; an exception ends it.
  unfoldable pub tick_flush :
      Option Anchor → Option ReconcileResult × Table → Option FlushResult × Table
  unfolding flush
  tick_flush client (some result, table) =
      let (o, table') = flush client table in (result_of o, table')
  tick_flush none (none, table) = (none, table)
  tick_flush (some client) (none, table) = (none, table)

  unfoldable pub anchor_tick : Option Anchor → Logger → Option FlushResult × Logger
  unfolding reconcile tick_flush
  anchor_tick client logger =
      let (result, table) = tick_flush client (reconcile client logger.table) in
      if logger.anchoring
      then (none, logger)
      else (result, record { table = table; anchoring = false })
