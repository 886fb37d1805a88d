-- ===== src/Audit/Postgres/Writes.antt =====
-- The calls that change a store, and what they leave behind in the two stores.
use agentct.Base.{
  ℕ, Text, text_eq, any, Bool, true, false, not, ◌&&◌, ◌||◌, Option, none, some, List, [], ◌∷◌, map,
  if◌then◌else◌, ◌≡◌, refl, ap, ap₂, ◌∙◌,
}
use mathlib.Core.List.{Permᴰ}
use agentct.Types.{AuditEntry}
use agentct.Audit.Store
use agentct.Audit.Store.{Row, Table, has_id, is_unbatched, tag, in_batch, release, insert_row}
use agentct.Audit.Store.Batches.{is_distinct, insert_row-distinct}
use agentct.Audit.Postgres.{PgRow, PgTable, insert, mark_batched, release_batch}
use agentct.Audit.Postgres.Refining.{
  view, Sound, update-Sound, update-view, mark_each-view, insert-view, or_same,
}

-- The calls that change a store. `breaks` is whether a statement of the transaction fails.
pub data Write : Type 0 where
  inserts : AuditEntry → Write
  marks : (breaks : Bool) → List Text → ℕ → Text → Write
  releases : ℕ → Write

-- What the sqlite store makes of a call; one that throws changes nothing.
unfoldable pub sqlite_write : Write → Table → Table
sqlite_write (inserts e) t = or_same t (insert_row e t)
sqlite_write (marks breaks ids index root) t =
    if breaks then t else Store.mark_batched ids index root t
sqlite_write (releases index) t = (Store.release_batch index t).1

unfoldable pub sqlite_writes : List Write → Table → Table
unfolding sqlite_write
sqlite_writes [] t = t
sqlite_writes (w ∷ ws) t = sqlite_writes ws (sqlite_write w t)

any-kept :
    (p : Row → Bool) (f : Row → Row) (rows : Table)
    → ((row : Row) → p (f row) ≡ p row)
    → any p (map f rows) ≡ any p rows
any-kept p f [] h = refl
any-kept p f (row ∷ rows) h = ap₂ (λ a b. a || b) (h row) (any-kept p f rows h)

distinct-kept :
    (f : Row → Row) (rows : Table)
    → ((row : Row) → (f row).entry ≡ row.entry)
    → is_distinct (map f rows) ≡ is_distinct rows
distinct-kept f [] h = refl
distinct-kept f (row ∷ rows) h =
    ap₂ (λ a b. not a && b)
      (ap (λ (e : AuditEntry). any (has_id e.id) (map f rows)) (h row)
        ∙ any-kept (has_id row.entry.id) f rows
            (λ x. ap (λ (e : AuditEntry). text_eq e.id row.entry.id) (h x)))
      (distinct-kept f rows h)

kept_if :
    (b : Bool) (f : Row → Row) (row : Row)
    → (f row).entry ≡ row.entry
    → (if b then f row else row).entry ≡ row.entry
kept_if true f row h = h
kept_if false f row h = refl

marked-distinct :
    (ids : List Text) (index : ℕ) (root : Text) (t : Table)
    → is_distinct (Store.mark_batched ids index root t) ≡ is_distinct t
unfolding Store.mark_batched Store.mark_one
marked-distinct [] index root t = refl
marked-distinct (id ∷ ids) index root t =
    marked-distinct ids index root (Store.mark_one index root id t)
    ∙ distinct-kept (λ row. if has_id id row then tag index root row else row) t
        (λ row. kept_if (has_id id row) (tag index root) row refl)

inserted-distinct :
    (e : AuditEntry) (t : Table) (o : Option Table)
    → is_distinct t ≡ true
    → insert_row e t ≡ o
    → is_distinct (or_same t o) ≡ true
inserted-distinct e t none d h = d
inserted-distinct e t (some t') d h = insert_row-distinct e t t' d h

write-distinct :
    (w : Write) (t : Table) → is_distinct t ≡ true → is_distinct (sqlite_write w t) ≡ true
unfolding sqlite_write Store.release_batch
write-distinct (inserts e) t d = inserted-distinct e t (insert_row e t) d refl
write-distinct (marks true ids index root) t d = d
write-distinct (marks false ids index root) t d = marked-distinct ids index root t ∙ d
write-distinct (releases index) t d =
    distinct-kept (λ row. if in_batch index row then release row else row) t
      (λ row. kept_if (in_batch index row) release row refl)
    ∙ d

pub writes-distinct :
    (ws : List Write) (t : Table) → is_distinct t ≡ true → is_distinct (sqlite_writes ws t) ≡ true
unfolding sqlite_writes
writes-distinct [] t d = d
writes-distinct (w ∷ ws) t d = writes-distinct ws (sqlite_write w t) (write-distinct w t d)

module _ (heap : List PgRow → List PgRow) where
  -- What the Postgres store makes of a call.
  unfoldable pub pg_write : Write → PgTable → PgTable
  unfolding insert mark_batched release_batch
  pg_write (inserts e) t = (insert heap e t).1
  pg_write (marks breaks ids index root) t = (mark_batched heap breaks ids index root t).1
  pg_write (releases index) t = (release_batch heap index t).1

  unfoldable pub pg_writes : List Write → PgTable → PgTable
  unfolding pg_write
  pg_writes [] t = t
  pg_writes (w ∷ ws) t = pg_writes ws (pg_write w t)

module _ (heap : List PgRow → List PgRow) (moves : (rs : List PgRow) → Permᴰ rs (heap rs)) where
  pg_write-view :
      (w : Write) (t : PgTable)
      → Sound t
      → (view (pg_write heap w t) ≡ sqlite_write w (view t)) × Sound (pg_write heap w t)
  unfolding pg_write sqlite_write mark_batched release_batch Store.release_batch
  pg_write-view (inserts e) t s = insert-view heap moves e t s
  pg_write-view (marks true ids index root) t s = (refl, s)
  pg_write-view (marks false ids index root) t s = mark_each-view heap moves ids index root t s
  pg_write-view (releases index) t s = (
    update-view heap moves (in_batch index) release t s,
    update-Sound heap moves (in_batch index) release t s,
  )

  pub pg_writes-view :
      (ws : List Write) (t : PgTable)
      → Sound t
      → (view (pg_writes heap ws t) ≡ sqlite_writes ws (view t)) × Sound (pg_writes heap ws t)
  unfolding pg_writes sqlite_writes
  pg_writes-view [] t s = (refl, s)
  pg_writes-view (w ∷ ws) t s =
      let (one, sound) = pg_write-view w t s in
      let (same, sound') = pg_writes-view ws (pg_write heap w t) sound in
      (same ∙ ap (sqlite_writes ws) one, sound')
