-- ===== src/Audit/Postgres/Answers.antt =====
-- After the same writes, the two stores give the same answers.
use agentct.Base.{
  ℕ, suc, ◌≤◌, leb, Text, text_eq, text_eq_iff, filter, find?, any, length, Bool, true, false, ◌&&◌,
  Option, none, some, List, [], ◌∷◌, map, Bool-cases, inl, inr, arith, ◌≡◌, refl, sym, ap, ◌∙◌,
}
use mathlib.Core.List.{Permᴰ}
use mathlib.Core.Path.{subst}
use agentct.Base.Sorting.{sort_by, insert_by, length-sort_by}
use agentct.Base.Sorting.Orders.{sort_by-map}
use agentct.Types.{AuditEntry}
use agentct.Audit.Store
use agentct.Audit.Store.{Row, Table, has_id, is_unbatched, tag, in_batch, release, insert_row}
use agentct.Audit.Store.Batches.{is_distinct}
use agentct.Audit.Postgres
use agentct.Audit.Postgres.{
  PgRow, PgTable, new_table, in_order, entry_of, insert, mark_batched, release_batch,
}
use agentct.Audit.Postgres.Refining.{seq_of, row_of, view, entries-view, in_order-view}
use agentct.Audit.Postgres.Writes.{Write, sqlite_writes, pg_writes, pg_writes-view, writes-distinct}

-- With distinct ids, at most one row has an id.
no_other : (id : Text) (rows : Table) → any (has_id id) rows ≡ false → filter (has_id id) rows ≡ []
no_other id [] h = refl
no_other id (row ∷ rows) h = ground (arith, no_other id rows)

at_most_one :
    (id : Text) (rows : Table) → is_distinct rows ≡ true → length (filter (has_id id) rows) ≤ 1
at_most_one id [] d = omega arith
at_most_one id (row ∷ rows) d = elim (Bool-cases (has_id id row)) [
  | inr other ↦ rw other (at_most_one id rows (ground arith))
  | inl same ↦
      let named : row.entry.id ≡ id = ground (arith, text_eq_iff row.entry.id id) in
      let alone : any (has_id row.entry.id) rows ≡ false = ground arith in
      let none_left = no_other id rows (subst (λ i. any (has_id i) rows ≡ false) named alone) in
      rw (same, none_left) (omega arith)
]

abbrev first {ℓ} : {A : Type ℓ} → List A → Option A
first [] = none
first (x ∷ xs) = some x

find?-filter {ℓ} : {A : Type ℓ} (p : A → Bool) (xs : List A) → find? p xs ≡ first (filter p xs)
find?-filter p [] = refl
find?-filter p (x ∷ xs) = elim (Bool-cases (p x)) [
  | inl good ↦ rw good refl
  | inr bad ↦ rw bad (find?-filter p xs)
]

sort_one : (rs : List PgRow) → length rs ≤ 1 → sort_by seq_of rs ≡ rs
unfolding sort_by insert_by
sort_one [] h = refl
sort_one (r ∷ []) h = refl
sort_one (r ∷ x ∷ rs) h = absurd (omega arith)

length-map_row : (rs : List PgRow) → length (map row_of rs) ≡ length rs
length-map_row [] = refl
length-map_row (r ∷ rs) = ap suc (length-map_row rs)

all_rows_kept : (rows : Table) → filter (λ (row : Row). true) rows ≡ rows
all_rows_kept [] = refl
all_rows_kept (row ∷ rows) = ap (λ xs. row ∷ xs) (all_rows_kept rows)

list-view : (agent : Option Text) (t : PgTable) → Postgres.list agent t ≡ Store.list agent (view t)
unfolding Postgres.list Store.list
list-view none t =
    entries-view (λ row. true) t ∙ ap (map (λ (row : Row). row.entry)) (all_rows_kept (view t))
list-view (some []) t =
    entries-view (λ row. true) t ∙ ap (map (λ (row : Row). row.entry)) (all_rows_kept (view t))
list-view (some (c ∷ agent)) t = entries-view (λ row. text_eq row.entry.agent_id (c ∷ agent)) t

list_since-view :
    (agent : Text) (since : ℕ) (t : PgTable)
    → Postgres.list_since agent since t ≡ Store.list_since agent since (view t)
unfolding Postgres.list_since Store.list_since
list_since-view agent since t =
    let p : Row → Bool = λ row. text_eq row.entry.agent_id agent && leb since row.entry.timestamp in
    sym (
      sort_by-map (λ (r : PgRow). r.row.entry.timestamp) (λ (e : AuditEntry). e.timestamp) entry_of
        (λ r. refl) (in_order p t))
    ∙ ap (sort_by (λ (e : AuditEntry). e.timestamp)) (entries-view p t)

-- The rows that a test lets through, as they lie.
abbrev lying : (Row → Bool) → PgTable → List PgRow
lying p t = filter (λ (r : PgRow). p r.row) t.rows

length-lying : (p : Row → Bool) (t : PgTable) → length (lying p t) ≡ length (filter p (view t))
length-lying p t =
    sym (length-sort_by seq_of (lying p t))
    ∙ sym (length-map_row (sort_by seq_of (lying p t)))
    ∙ ap length (in_order-view p t)

first-map_row :
    (rs : List PgRow)
    → elim (first rs) [ none ↦ none | some r ↦ some r.row ] ≡ first (map row_of rs)
first-map_row [] = refl
first-map_row (r ∷ rs) = refl

get_by_id-view :
    (id : Text) (t : PgTable)
    → is_distinct (view t) ≡ true
    → Postgres.get_by_id id t ≡ Store.get_by_id id (view t)
unfolding Postgres.get_by_id Store.get_by_id
get_by_id-view id t d =
    let few = at_most_one id (view t) d in
    let alone = sort_one (lying (has_id id) t) (omega (arith, length-lying (has_id id) t, few)) in
    ap (λ (o : Option PgRow). elim o [ none ↦ none | some r ↦ some r.row ])
      (find?-filter (λ (r : PgRow). has_id id r.row) t.rows)
    ∙ first-map_row (lying (has_id id) t)
    ∙ ap (λ (rs : List PgRow). first (map row_of rs)) (sym alone)
    ∙ ap first (in_order-view (has_id id) t)
    ∙ sym (find?-filter (has_id id) (view t))

no_rows : view new_table ≡ []
unfolding view sort_by
no_rows = refl

module _ (heap : List PgRow → List PgRow) (moves : (rs : List PgRow) → Permᴰ rs (heap rs)) where
  -- The Postgres store refines the sqlite store: behind the same calls from an empty table, in which
  -- an insert may meet a taken id and a transaction may break off, every query that has an order gives
  -- the same entries in the same order, a row is found by its id, and a release reports the same
  -- count, wherever the database puts the rows that it writes.
  pub writes-answers :
      (ws : List Write) (agent : Option Text) (of : Text) (since : ℕ) (id : Text) (index : ℕ)
      → let t = pg_writes heap ws new_table in
        let s = sqlite_writes ws [] in
        (Postgres.list agent t ≡ Store.list agent s)
        × (Postgres.list_since of since t ≡ Store.list_since of since s)
        × (Postgres.get_by_id id t ≡ Store.get_by_id id s)
        × (Postgres.unbatched t ≡ Store.unbatched s)
        × (Postgres.entries_in_batch index t ≡ Store.entries_in_batch index s)
        × ((release_batch heap index t).0 ≡ (Store.release_batch index s).0)
  unfolding Postgres.unbatched Store.unbatched Postgres.entries_in_batch Store.entries_in_batch
      release_batch Store.release_batch
  writes-answers ws agent of since id index =
      let t = pg_writes heap ws new_table in
      let same =
        (pg_writes-view heap moves ws new_table (refl, tt)).0 ∙ ap (sqlite_writes ws) no_rows in
      let d : is_distinct (view t) ≡ true = ap is_distinct same ∙ writes-distinct ws [] refl in
      (
        list-view agent t ∙ ap (Store.list agent) same,
        list_since-view of since t ∙ ap (Store.list_since of since) same,
        get_by_id-view id t d ∙ ap (Store.get_by_id id) same,
        entries-view is_unbatched t ∙ ap Store.unbatched same,
        entries-view (in_batch index) t ∙ ap (Store.entries_in_batch index) same,
        length-lying (in_batch index) t
            ∙ ap (λ (x : Table). length (filter (in_batch index) x)) same,
      )
