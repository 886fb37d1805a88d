-- ===== src/Tests/Proving.antt =====
-- The proof of a row in an anchored batch, and commits on a chain whose durable head trails.
use agentct.Base.{
  ℕ, zero, suc, ◌+◌, ◌*◌, pos, Text, text_eq, text_eq_refl, codes, lower, includes, get_elem?, true,
  ◌&&◌, none, some, List, [], ◌∷◌, ◌++◌, map, ◌≡◌, ◌≢◌, refl, arith,
}
use agentct.Types.{AuditEntry}
use agentct.Audit.Store.{Row, Table, entries_in_batch, get_by_id}
use agentct.Audit.Logger.{Leaf, LeafContext, entry_to_leaf, canonicalize}
use agentct.Audit.Proofs.{Tree, proof_at, proof_for}
use agentct.Audit.Proofs.Verified.{proof_for-verified}
use agentct.Audit.AnchorClient.{
  AnchorClientConfig, Poll, at, BatchCommitted, Receipt, Rpc, CommitResult, committed, in_progress,
  timeout, commit, await_durable,
}
use agentct.Audit.AnchorClient.Durable.{Durably, commit-Durably, commit-ends}
use agentct.X402.Chains.{get_chain}
use agentct.Tests.Samples.{alice, bob, payment, allowing, entry, chain_id}
use agentct.Tests.Anchors.{digest}

abbrev hashes : List Leaf → List Text
hashes ls = map (λ (l : Leaf). l.entry_hash) ls

abbrev join : List Text → Text
join [] = codes "0x"
join (t ∷ ts) = t ++ join ts

-- A proof shows the hashes of all leaves; the root is these in a row.
abbrev tree : Tree
tree = record {
  root = λ ls. join (hashes ls);
  leaf_hash = λ l. l.entry_hash;
  proof = λ ls i. hashes ls;
  verify = λ root l path. text_eq root (join path) && includes path l.entry_hash;
}

shown :
    (ls : List Leaf) (j : ℕ) (l : Leaf)
    → get_elem? ls j ≡ some l
    → includes (hashes ls) l.entry_hash ≡ true
unfolding includes
shown [] j l h = cc
shown (x ∷ ls) zero l h =
    let same : x ≡ l = cc in rw (← same) (ground (arith, text_eq_refl x.entry_hash))
shown (x ∷ ls) (suc j) l h = ground (arith, shown ls j l h)

lawful :
    (ls : List Leaf) (j : ℕ) (l : Leaf)
    → get_elem? ls j ≡ some l
    → tree.verify (tree.root ls) l (tree.proof ls j) ≡ true
lawful ls j l h = rw (text_eq_refl (join (hashes ls)), shown ls j l h) refl

abbrev context : LeafContext
context = record { chain_id = 84532; anchor = codes "0xaa"; operator = codes "0xbb" }

abbrev second : Row
second = record {
  entry = record (entry 2000 (payment (pos 15) bob) allowing) { id = codes "b" };
  batch_index = some 4;
  batch_root = some (codes "0x04");
}

abbrev table : Table
table =
    record {
      entry = record (entry 1000 (payment (pos 60) alice) allowing) { id = codes "a" };
      batch_index = some 4;
      batch_root = some (codes "0x04");
    }
    ∷ second
    ∷ []

found : get_by_id (codes "b") table ≡ some second
unfolding get_by_id text_eq
found = refl

proof_for-verified_example :
    let rows = entries_in_batch 4 table in
    (j : ℕ) × (e : AuditEntry) × (get_elem? rows j ≡ some e)
    × (e.id ≡ codes "b")
    × (proof_for digest tree context (codes "b") table
        ≡ some (proof_at digest tree context 4 rows j e))
    × (tree.verify
          (proof_at digest tree context 4 rows j e).local_root
          (entry_to_leaf context (canonicalize digest tree.root e))
          (proof_at digest tree context 4 rows j e).proof
        ≡ true)
proof_for-verified_example =
    proof_for-verified digest tree context (codes "b") 4 table second found refl lawful

abbrev anchor_config : AnchorClientConfig
anchor_config = record {
  chain = chain_id;
  contract_address = codes "0xAA";
  committer_key = some (codes "0x1");
  confirmation_tag = none;
  confirmation_timeout_ms = some 60000;
}

abbrev event : BatchCommitted
event = record { address = codes "0xaa"; batch_index = 3 }

-- A receipt with an event of another contract before the anchor's own.
abbrev receipt : Receipt
receipt = record {
  block_number = 10;
  events = record { address = codes "0xbb"; batch_index = 7 } ∷ event ∷ [];
}

-- The safe head passes the block at the third poll; a poll takes two seconds.
abbrev trailing : ℕ → Poll
trailing zero = at none
trailing (suc zero) = at (some 9)
trailing (suc (suc k)) = at (some 11)

abbrev rpc : Rpc
rpc = record {
  viem_chain_id = λ c. 84532;
  address_of = λ key. codes "0xop";
  chain_id = some 84532;
  head = λ operator. some (codes "0x00");
  write = λ prev_root root count. some (codes "0xtx");
  receipt = λ tx. some receipt;
  poll = λ tag k. trailing k;
  clock = λ k. 5000 + 2000 * (k + 1);
  batch_count = λ operator. some 0;
  batch = λ operator i. none;
}

abbrev result : CommitResult
result = record { tx_hash = codes "0xtx"; batch_index = 3; root = codes "0x04" }

comes_through :
    commit anchor_config rpc 60002 5000 (codes "0x00") (codes "0x04") 2 ≡ committed result
unfolding commit get_chain lower text_eq await_durable
comes_through = refl

commit-Durably_example : Durably anchor_config rpc 60002 5000 (codes "0x00") (codes "0x04") 2 result
commit-Durably_example =
    commit-Durably anchor_config rpc 60002 5000 (codes "0x00") (codes "0x04") 2 result comes_through

commit-ends_example :
    commit anchor_config rpc (timeout anchor_config + 2) 5000 (codes "0x00") (codes "0x04") 2
    ≢ in_progress
commit-ends_example =
    commit-ends anchor_config rpc 5000 (codes "0x00") (codes "0x04") 2 (λ j. omega arith)
