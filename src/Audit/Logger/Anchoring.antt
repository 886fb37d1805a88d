-- ===== src/Audit/Logger/Anchoring.antt =====
-- What anchoring does to the table: which rows a flush tags and which a reconciliation releases.
use agentct.Base.{
  ℕ, Text, length, any, Bool, true, false, ◌&&◌, Option, none, some, List, [], ◌∷◌, map, ◌≡◌, refl,
  ap, ◌∙◌, arith, if◌then◌else◌,
}
use mathlib.Core.Path.{subst}
use agentct.Types.{AuditEntry}
use agentct.Audit.Hash.{Canonical}
use agentct.Audit.Store.{Row, Table, is_unbatched, unbatched, in_batch, release}
use agentct.Audit.Store.Batches.{is_distinct, tag_if, mark_batched-unbatched}
use agentct.Audit.Logger.{
  Anchor, Leaf, FlushResult, Flushed, batch_root, tag_batch, commit_batch, flush_rows, flush,
  by_answer,
}

-- No row is left over.
no_unbatched :
    (index : ℕ) (root : Text) (table : Table)
    → unbatched (map (λ row. tag_if index root (is_unbatched row) row) table) ≡ []
unfolding unbatched
no_unbatched index root [] = refl
no_unbatched index root (row ∷ rows) = ground (arith, no_unbatched index root rows)

module _ (digest : Canonical → Text) (tree_root : List Leaf → Text) where
  -- What a batch says of the table before and after.
  pub record Anchored (client : Anchor) (table table' : Table) (r : FlushResult) : Type 0 where
    pub tagged : table' ≡ map (λ row. tag_if r.batch_index r.root (is_unbatched row) row) table
    pub complete : unbatched table' ≡ []
    pub rooted : r.root ≡ batch_root digest tree_root client.context (unbatched table)
    pub counted : r.entry_count ≡ length (unbatched table)

  -- What a flush leaves, by its ending.
  abbrev pub Leaves : Anchor → Table → Flushed → Table → Type 0
  Leaves client table Flushed.idle table' = table' ≡ table
  Leaves client table Flushed.threw table' = table' ≡ table
  Leaves client table (Flushed.anchored r) table' = Anchored client table table' r

  tag_batch-Leaves :
      (client : Anchor) (answer : Option (Text × ℕ)) (table : Table)
      → is_distinct table ≡ true
      → let root = batch_root digest tree_root client.context (unbatched table) in
        let (o, table') = tag_batch answer (unbatched table) root table in
        Leaves client table o table'
  unfolding tag_batch
  tag_batch-Leaves client none table h = refl
  tag_batch-Leaves client (some (tx, index)) table h =
      let root = batch_root digest tree_root client.context (unbatched table) in
      let tagged = mark_batched-unbatched index root table h in
      record {
        tagged = tagged;
        complete = ap unbatched tagged ∙ no_unbatched index root table;
        rooted = refl;
        counted = refl;
      }

  commit_batch-Leaves :
      (client : Anchor) (head : Option Text) (table : Table)
      → is_distinct table ≡ true
      → let (o, table') = commit_batch digest tree_root head client (unbatched table) table in
        Leaves client table o table'
  unfolding commit_batch
  commit_batch-Leaves client none table h = refl
  commit_batch-Leaves client (some head) table h =
      let root = batch_root digest tree_root client.context (unbatched table) in
      tag_batch-Leaves client (client.commit head root (length (unbatched table))) table h

  flush_rows-Leaves :
      (client : Anchor) (rows : List AuditEntry) (table : Table)
      → unbatched table ≡ rows
      → is_distinct table ≡ true
      → let (o, table') = flush_rows digest tree_root rows client table in
        Leaves client table o table'
  unfolding flush_rows
  flush_rows-Leaves client [] table e h = refl
  flush_rows-Leaves client (row ∷ rows) table e h =
      subst
        (λ found.
          Leaves client table (commit_batch digest tree_root client.head client found table).0
            (commit_batch digest tree_root client.head client found table).1)
        e (commit_batch-Leaves client client.head table h)

  -- On a table with distinct ids, a flush that does nothing or throws leaves the table as it is.
  -- One that comes through tags exactly the rows that were not anchored, with the commit's index
  -- and the batch's root; then no row is left to anchor, the root is that of those rows with their
  -- hashes computed anew, and the reported count is theirs.
  pub flush-Leaves :
      (client : Anchor) (table : Table)
      → is_distinct table ≡ true
      → let (o, table') = flush digest tree_root (some client) table in Leaves client table o table'
  unfolding flush
  flush-Leaves client table h = flush_rows-Leaves client (unbatched table) table refl h

-- The chain does not hold the batch's root.
abbrev pub is_stale : Anchor → ℕ × Text → Bool
is_stale client (index, root) = by_answer (client.get_batch index) root false false true

abbrev pub release_if : Bool → Row → Row
release_if b row = if b then release row else row

-- The row is in a batch of the list that the chain does not hold.
abbrev pub is_released : Anchor → List (ℕ × Text) → Row → Bool
is_released client batches row = any (λ b. is_stale client b && in_batch b.0 row) batches
