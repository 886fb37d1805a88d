-- ===== src/Audit/Store.antt =====
-- SqliteAuditStore of packages/core/src/audit/store.ts as a table: its statements as functions on the
-- list of rows, in the order of their row ids. An entry is stored as it is; its JSON columns are read
-- back as they were written.
pub mod Batches
use agentct.Base.{
  ℕ, suc, ltb, leb, ◌==◌, Text, text_eq, filter, find?, any, length, is_empty, Bool, true, false,
  not, ◌&&◌, Option, none, some, List, [], ◌∷◌, ◌++◌, map, if◌then◌else◌,
}
use agentct.Base.Sorting.{sort_by}
use agentct.Types.{AuditEntry}

-- The columns of a row; NULL is `none`.
pub record Row : Type 0 where
  pub entry : AuditEntry
  pub batch_index : Option ℕ
  pub batch_root : Option Text

abbrev pub Table : Type 0
Table = List Row

abbrev pub has_id : Text → Row → Bool
has_id id row = text_eq row.entry.id id

-- `none` where the primary key is taken and the statement throws.
unfoldable pub insert_row : AuditEntry → Table → Option Table
insert_row e table =
    if any (has_id e.id) table
    then none
    else some (table ++ record { entry = e; batch_index = none; batch_root = none } ∷ [])

-- A missing or an empty agent id lists all.
unfoldable pub list : Option Text → Table → List AuditEntry
list none table = map (λ row. row.entry) table
list (some []) table = map (λ row. row.entry) table
list (some (c ∷ agent)) table =
    map (λ row. row.entry) (filter (λ row. text_eq row.entry.agent_id (c ∷ agent)) table)

unfoldable pub list_since : Text → ℕ → Table → List AuditEntry
unfolding sort_by
list_since agent since table =
    sort_by (λ (e : AuditEntry). e.timestamp)
      (map (λ row. row.entry)
        (filter (λ row. text_eq row.entry.agent_id agent && leb since row.entry.timestamp) table))

unfoldable pub get_by_id : Text → Table → Option Row
get_by_id id table = find? (has_id id) table

abbrev pub is_unbatched : Row → Bool
is_unbatched row = elim row.batch_index [ none ↦ true | some _ ↦ false ]

unfoldable pub unbatched : Table → List AuditEntry
unbatched table = map (λ row. row.entry) (filter is_unbatched table)

abbrev pub tag : ℕ → Text → Row → Row
tag index root row = record row { batch_index = some index; batch_root = some root }

-- One run of the statement of `markBatched`.
unfoldable pub mark_one : ℕ → Text → Text → Table → Table
mark_one index root id table = map (λ row. if has_id id row then tag index root row else row) table

unfoldable pub mark_batched : List Text → ℕ → Text → Table → Table
unfolding mark_one
mark_batched [] index root table = table
mark_batched (id ∷ ids) index root table =
    mark_batched ids index root (mark_one index root id table)

abbrev pub in_batch : ℕ → Row → Bool
in_batch index row = elim row.batch_index [ none ↦ false | some i ↦ i == index ]

unfoldable pub entries_in_batch : ℕ → Table → List AuditEntry
entries_in_batch index table = map (λ row. row.entry) (filter (in_batch index) table)

abbrev pub release : Row → Row
release row = record row { batch_index = none; batch_root = none }

-- The number of rows that the statement changed, and the table.
unfoldable pub release_batch : ℕ → Table → ℕ × Table
release_batch index table = (
  length (filter (in_batch index) table),
  map (λ row. if in_batch index row then release row else row) table,
)

abbrev batch_of : Row → Option (ℕ × Text)
batch_of row = elim row.batch_index [
  | none ↦ none
  | some index ↦ elim row.batch_root [ none ↦ none | some root ↦ some (index, root) ]
]

abbrev pub same_batch : ℕ × Text → ℕ × Text → Bool
same_batch (i, r) (j, s) = (i == j) && text_eq r s

abbrev add_batch : Option (ℕ × Text) → List (ℕ × Text) → List (ℕ × Text)
add_batch none found = found
add_batch (some b) found = if any (same_batch b) found then found else b ∷ found

-- The distinct pairs of index and root, before they are put in order.
unfoldable pub distinct_batches : Table → List (ℕ × Text)
unfolding text_eq
distinct_batches [] = []
distinct_batches (row ∷ rows) = add_batch (batch_of row) (distinct_batches rows)

unfoldable pub anchored_batches : Table → List (ℕ × Text)
unfolding distinct_batches sort_by
anchored_batches table = sort_by (λ (b : ℕ × Text). b.0) (distinct_batches table)
