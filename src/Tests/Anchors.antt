-- ===== src/Tests/Anchors.antt =====
-- Three rows of an audit log, one of them in a batch that the chain has dropped.
use agentct.Base.{◌==◌, pos, Text, text_eq, codes, true, none, some, List, [], ◌∷◌, ◌++◌, ◌≡◌, refl}
use agentct.Types.{AuditEntry}
use agentct.Audit.Hash.{Canonical}
use agentct.Audit.Store.{Table}
use agentct.Audit.Store.Batches.{is_distinct}
use agentct.Audit.Logger.{Leaf, Anchor, ReconcileResult, flush}
use agentct.Audit.Logger.Anchoring.{Leaves, flush-Leaves}
use agentct.Tests.Samples.{alice, payment, allowing, entry}

abbrev pub digest : Canonical → Text
digest c = c.intent ++ c.token

-- The hashes of the leaves, one behind the other.
abbrev tree_root : List Leaf → Text
tree_root [] = codes "0x0"
tree_root (leaf ∷ leaves) = leaf.entry_hash ++ tree_root leaves

-- The chain holds batch 4 and no other.
abbrev client : Anchor
client = record {
  context = record { chain_id = 84532; anchor = codes "0xaa"; operator = codes "0xbb" };
  head = some (codes "0x04");
  commit = λ head root count. some (codes "0xcc", 9);
  get_batch = λ i. some (record { found = i == 4; root = codes "0x04" });
}

abbrev named : Text → AuditEntry
named id = record (entry 1000 (payment (pos 60) alice) allowing) { id = id }

abbrev table : Table
table =
    record { entry = named (codes "a"); batch_index = some 4; batch_root = some (codes "0X04") }
    ∷ record { entry = named (codes "b"); batch_index = some 5; batch_root = some (codes "0x05") }
    ∷ record { entry = named (codes "c"); batch_index = none; batch_root = none }
    ∷ []

distinct_ids : is_distinct table ≡ true
unfolding text_eq
distinct_ids = refl

flush-Leaves_example :
    Leaves digest tree_root client table
      (flush digest tree_root (some client) table).0
      (flush digest tree_root (some client) table).1
flush-Leaves_example = flush-Leaves digest tree_root client table distinct_ids

abbrev dropped_five : ReconcileResult
dropped_five = record { stale_batches = 5 ∷ []; released_entries = 1 }
