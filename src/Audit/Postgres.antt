-- ===== src/Audit/Postgres.antt =====
-- PostgresAuditStore of packages/core/src/audit/postgres-store.ts: its statements on rows that carry the
-- sequence number they were inserted with. Where the database puts a row that is written is a
-- parameter; a query without an ORDER BY reads the rows as they lie.
pub mod Refining
pub mod Writes
pub mod Answers
use agentct.Base.{
  ℕ, ◌+◌, leb, Text, text_eq, filter, find?, any, length, Bool, true, false, ◌&&◌, Option, none,
  some, List, [], ◌∷◌, ◌++◌, map, if◌then◌else◌,
}
use agentct.Base.Sorting.{sort_by}
use agentct.Types.{AuditEntry}
use agentct.Audit.Store.{Row, has_id, is_unbatched, tag, in_batch, release, distinct_batches}

pub record PgRow : Type 0 where
  pub seq : ℕ
  pub row : Row

-- The table, and the next number of its sequence.
pub record PgTable : Type 0 where
  pub rows : List PgRow
  pub next_seq : ℕ

abbrev pub new_table : PgTable
new_table = record { rows = []; next_seq = 1 }

-- `SELECT * FROM audit_entries WHERE p ORDER BY seq`
abbrev pub in_order : (Row → Bool) → PgTable → List PgRow
in_order p t = sort_by (λ (r : PgRow). r.seq) (filter (λ (r : PgRow). p r.row) t.rows)

abbrev pub entry_of : PgRow → AuditEntry
entry_of r = r.row.entry

-- A missing or an empty agent id lists all.
unfoldable pub list : Option Text → PgTable → List AuditEntry
unfolding sort_by
list none t = map entry_of (in_order (λ row. true) t)
list (some []) t = map entry_of (in_order (λ row. true) t)
list (some (c ∷ agent)) t =
    map entry_of (in_order (λ row. text_eq row.entry.agent_id (c ∷ agent)) t)

-- `ORDER BY timestamp, seq`
unfoldable pub list_since : Text → ℕ → PgTable → List AuditEntry
unfolding sort_by
list_since agent since t = map entry_of (
    sort_by (λ (r : PgRow). r.row.entry.timestamp)
      (in_order (λ row. text_eq row.entry.agent_id agent && leb since row.entry.timestamp) t))

-- `rows[0]` of a query without an order.
unfoldable pub get_by_id : Text → PgTable → Option Row
get_by_id id t = elim (find? (λ (r : PgRow). has_id id r.row) t.rows) [
  | none ↦ none
  | some r ↦ some r.row
]

unfoldable pub unbatched : PgTable → List AuditEntry
unfolding sort_by
unbatched t = map entry_of (in_order is_unbatched t)

unfoldable pub entries_in_batch : ℕ → PgTable → List AuditEntry
unfolding sort_by
entries_in_batch index t = map entry_of (in_order (in_batch index) t)

-- What `DISTINCT` leaves comes in any order for one index; here in that of the rows.
unfoldable pub anchored_batches : PgTable → List (ℕ × Text)
unfolding distinct_batches sort_by
anchored_batches t =
    sort_by (λ (b : ℕ × Text). b.0) (distinct_batches (map (λ (r : PgRow). r.row) t.rows))

module _ (heap : List PgRow → List PgRow) where
  -- Whether the statement runs, and the table. A number of the sequence is used up also by a statement
  -- that the primary key refuses.
  unfoldable pub insert : AuditEntry → PgTable → Bool × PgTable
  insert e t =
      if any (λ (r : PgRow). has_id e.id r.row) t.rows
      then (false, record t { next_seq = t.next_seq + 1 })
      else (
        true,
        record {
          rows = heap (
              t.rows
              ++ record {
                seq = t.next_seq;
                row = record { entry = e; batch_index = none; batch_root = none };
              }
                ∷ []);
          next_seq = t.next_seq + 1;
        },
      )

  -- `UPDATE audit_entries SET ... WHERE p`
  unfoldable pub update : (Row → Bool) → (Row → Row) → PgTable → PgTable
  update p f t = record t {
    rows = heap (map (λ (r : PgRow). record r { row = if p r.row then f r.row else r.row }) t.rows);
  }

  unfoldable pub mark_each : List Text → ℕ → Text → PgTable → PgTable
  unfolding update
  mark_each [] index root t = t
  mark_each (id ∷ ids) index root t =
      mark_each ids index root (update (has_id id) (tag index root) t)

  -- `breaks` is whether a statement of the transaction fails; then it is rolled back, and the error
  -- thrown.
  unfoldable pub mark_batched : (breaks : Bool) → List Text → ℕ → Text → PgTable → Bool × PgTable
  unfolding mark_each
  mark_batched breaks ids index root t =
      let marked = mark_each ids index root t in if breaks then (false, t) else (true, marked)

  unfoldable pub release_batch : ℕ → PgTable → ℕ × PgTable
  unfolding update
  release_batch index t = (
    length (filter (λ (r : PgRow). in_batch index r.row) t.rows),
    update (in_batch index) release t,
  )
