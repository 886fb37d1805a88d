-- ===== src/Audit/Proofs.antt =====
-- proofFor and proofsForBatch of packages/core/src/audit/logger.ts, over MerkleAuditBatch of merkle.ts.
-- The tree, with its leaf hashes, proofs and verification, is a parameter.
pub mod Verified
use agentct.Base.{
  ℕ, ◌+◌, Text, text_eq, lookup, insert, get_elem?, length, Bool, true, false, Option, none, some,
  List, [], ◌∷◌, map, if◌then◌else◌,
}
use agentct.Types.{AuditEntry}
use agentct.Audit.Hash.{Canonical, recompute_entry_hash}
use agentct.Audit.Store.{Row, Table, get_by_id, entries_in_batch}
use agentct.Audit.Logger.{
  Leaf, LeafContext, entry_to_leaf, verdict_to_num, canonicalize, batch_root,
}

-- StandardMerkleTree of the leaves: its root, the hash and the proof of a leaf, and the check.
pub record Tree : Type 0 where
  pub root : List Leaf → Text
  pub leaf_hash : Leaf → Text
  pub proof : List Leaf → ℕ → List Text
  pub verify : (root : Text) → Leaf → List Text → Bool

pub record LeafFields : Type 0 where
  pub agent_id : Text
  pub timestamp : ℕ
  pub recipient : Text
  pub verdict : ℕ
  pub entry_hash : Text

pub record EntryProof : Type 0 where
  pub batch_index : ℕ
  pub leaf : Text
  pub proof : List Text
  pub local_root : Text
  pub fields : LeafFields
  pub stored_hash_matches : Bool

module _ (digest : Canonical → Text) (tree : Tree) (ctx : LeafContext) where
  abbrev pub leaves : List AuditEntry → List Leaf
  leaves rows = map (λ r. entry_to_leaf ctx (canonicalize digest tree.root r)) rows

  -- `verify(index)` of a batch with these rows.
  unfoldable pub verify_at : List AuditEntry → ℕ → Bool
  verify_at rows i = elim (get_elem? (leaves rows) i) [
    | none ↦ false
    | some leaf ↦ tree.verify (tree.root (leaves rows)) leaf (tree.proof (leaves rows) i)
  ]

  -- The proof of the row that stands at `i` in the batch.
  unfoldable pub proof_at : (index : ℕ) → List AuditEntry → ℕ → AuditEntry → EntryProof
  proof_at index rows i row =
      let entry = canonicalize digest tree.root row in
      record {
        batch_index = index;
        leaf = tree.leaf_hash (entry_to_leaf ctx entry);
        proof = tree.proof (leaves rows) i;
        local_root = batch_root digest tree.root ctx rows;
        fields = record {
          agent_id = entry.agent_id;
          timestamp = entry.timestamp;
          recipient = entry.request.recipient;
          verdict = verdict_to_num entry.decision.verdict;
          entry_hash = entry.entry_hash;
        };
        stored_hash_matches = text_eq entry.entry_hash row.entry_hash;
      }

  -- The rest of the loop over the rows, from place `i` on.
  unfoldable pub prove_rows :
      (index : ℕ)
      → List AuditEntry
      → ℕ
      → List AuditEntry
      → List (Text × EntryProof)
      → List (Text × EntryProof)
  prove_rows index rows i [] out = out
  prove_rows index rows i (row ∷ rest) out =
      prove_rows index rows (i + 1) rest (insert row.id (proof_at index rows i row) out)

  unfoldable pub proofs_for_batch : ℕ → Table → List (Text × EntryProof)
  unfolding prove_rows entries_in_batch
  proofs_for_batch index table =
      let rows = entries_in_batch index table in prove_rows index rows 0 rows []

  abbrev pub proof_in : Text → Option ℕ → Table → Option EntryProof
  proof_in id none table = none
  proof_in id (some index) table = lookup id (proofs_for_batch index table)

  abbrev pub proof_of_row : Text → Option Row → Table → Option EntryProof
  proof_of_row id none table = none
  proof_of_row id (some row) table = proof_in id row.batch_index table

  unfoldable pub proof_for : Text → Table → Option EntryProof
  unfolding proofs_for_batch
  proof_for id table = proof_of_row id (get_by_id id table) table
