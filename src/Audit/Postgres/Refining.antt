-- ===== src/Audit/Postgres/Refining.antt =====
-- The Postgres store keeps what the sqlite store keeps, in the same order.
use agentct.Base.{
  ℕ, ◌+◌, ◌<◌, Text, filter, any, All, Bool, true, false, not, ◌&&◌, ◌||◌, Option, none, some, List,
  [], ◌∷◌, ◌++◌, map, if◌then◌else◌, Bool-cases, inl, inr, arith, ◌≡◌, refl, sym, ap, ap₂, ◌∙◌,
}
use mathlib.Core.List.{Permᴰ}
use agentct.Base.Sorting.{sort_by}
use agentct.Base.Sorting.Orders.{
  All-Perm, apart, apart-Perm, same_key, sort_by-Perm, sort_by-append, sort_by-map, filter-sort_by,
  any-sort_by,
}
use agentct.Types.{AuditEntry}
use agentct.Audit.Store
use agentct.Audit.Store.{Row, Table, has_id, is_unbatched, tag, in_batch, release, insert_row}
use agentct.Audit.Postgres.{PgRow, PgTable, in_order, entry_of, insert, update, mark_each}

abbrev pub seq_of : PgRow → ℕ
seq_of r = r.seq

abbrev pub row_of : PgRow → Row
row_of r = r.row

-- The sqlite table that a table stands for: its rows by their sequence numbers.
unfoldable pub view : PgTable → Table
view t = map row_of (sort_by seq_of t.rows)

-- No sequence number is there twice, and none is still to come.
abbrev pub Sound : PgTable → Type 0
Sound t = (apart seq_of t.rows ≡ true) × All (λ (r : PgRow). r.seq < t.next_seq) t.rows

pub filter-row_of :
    (p : Row → Bool) (rs : List PgRow)
    → map row_of (filter (λ (r : PgRow). p r.row) rs) ≡ filter p (map row_of rs)
filter-row_of p [] = refl
filter-row_of p (r ∷ rs) = elim (Bool-cases (p r.row)) [
  | inl good ↦ rw good (ap (λ rows. r.row ∷ rows) (filter-row_of p rs))
  | inr bad ↦ rw bad (filter-row_of p rs)
]

any-row_of :
    (p : Row → Bool) (rs : List PgRow) → any (λ (r : PgRow). p r.row) rs ≡ any p (map row_of rs)
any-row_of p [] = refl
any-row_of p (r ∷ rs) = ap (λ b. p r.row || b) (any-row_of p rs)

pub entries-row_of :
    (rs : List PgRow) → map entry_of rs ≡ map (λ (row : Row). row.entry) (map row_of rs)
entries-row_of [] = refl
entries-row_of (r ∷ rs) = ap (λ es. r.row.entry ∷ es) (entries-row_of rs)

-- A query in order reads the rows of the view.
pub in_order-view : (p : Row → Bool) (t : PgTable) → map row_of (in_order p t) ≡ filter p (view t)
unfolding view
in_order-view p t =
    ap (map row_of) (sym (filter-sort_by seq_of (λ (r : PgRow). p r.row) t.rows))
    ∙ filter-row_of p (sort_by seq_of t.rows)

pub entries-view :
    (p : Row → Bool) (t : PgTable)
    → map entry_of (in_order p t) ≡ map (λ (row : Row). row.entry) (filter p (view t))
entries-view p t =
    entries-row_of (in_order p t) ∙ ap (map (λ (row : Row). row.entry)) (in_order-view p t)

abbrev changed : (Row → Row) → PgRow → PgRow
changed f r = record r { row = f r.row }

map-changed :
    (f : Row → Row) (rs : List PgRow) → map row_of (map (changed f) rs) ≡ map f (map row_of rs)
map-changed f [] = refl
map-changed f (r ∷ rs) = ap (λ rows. f r.row ∷ rows) (map-changed f rs)

any-changed :
    (f : Row → Row) (r : PgRow) (rs : List PgRow)
    → any (same_key seq_of (changed f r)) (map (changed f) rs) ≡ any (same_key seq_of r) rs
any-changed f r [] = refl
any-changed f r (x ∷ rs) = ap (λ b. same_key seq_of r x || b) (any-changed f r rs)

apart-changed :
    (f : Row → Row) (rs : List PgRow) → apart seq_of (map (changed f) rs) ≡ apart seq_of rs
apart-changed f [] = refl
apart-changed f (r ∷ rs) = ap₂ (λ a b. not a && b) (any-changed f r rs) (apart-changed f rs)

below-changed :
    (n : ℕ) (f : Row → Row) (rs : List PgRow)
    → All (λ (r : PgRow). r.seq < n) rs
    → All (λ (r : PgRow). r.seq < n) (map (changed f) rs)
below-changed n f [] h = tt
below-changed n f (r ∷ rs) (p, h) = (p, below-changed n f rs h)

later :
    (n : ℕ) (rs : List PgRow)
    → All (λ (r : PgRow). r.seq < n) rs
    → All (λ (r : PgRow). r.seq < n + 1) rs
later n [] h = tt
later n (r ∷ rs) (p, h) = (omega arith, later n rs h)

later-append :
    (n : ℕ) (rs : List PgRow) (new : PgRow)
    → All (λ (r : PgRow). r.seq < n) rs
    → new.seq ≡ n
    → All (λ (r : PgRow). r.seq < n + 1) (rs ++ new ∷ [])
later-append n [] new h e = (omega arith, tt)
later-append n (r ∷ rs) new (p, h) e = (omega arith, later-append n rs new h e)

any-new :
    (x : PgRow) (rs : List PgRow) (new : PgRow)
    → any (same_key seq_of x) rs ≡ false
    → x.seq < new.seq
    → any (same_key seq_of x) (rs ++ new ∷ []) ≡ false
any-new x [] new h lt = ground arith
any-new x (r ∷ rs) new h lt = ground (arith, any-new x rs new)

apart-append :
    (rs : List PgRow) (new : PgRow)
    → apart seq_of rs ≡ true
    → All (λ (r : PgRow). r.seq < new.seq) rs
    → apart seq_of (rs ++ new ∷ []) ≡ true
apart-append [] new h b = refl
apart-append (r ∷ rs) new h (p, b) = ground (arith, apart-append rs new, any-new r rs new)

-- The table behind a statement that may throw.
abbrev pub or_same : Table → Option Table → Table
or_same t none = t
or_same t (some t') = t'

module _ (heap : List PgRow → List PgRow) (moves : (rs : List PgRow) → Permᴰ rs (heap rs)) where
  heap-view :
      (rs : List PgRow) → apart seq_of rs ≡ true → sort_by seq_of (heap rs) ≡ sort_by seq_of rs
  heap-view rs h = sym (sort_by-Perm seq_of (moves rs) h)

  heap-Sound :
      (rs : List PgRow) (n : ℕ)
      → Sound (record { rows = rs; next_seq = n })
      → Sound (record { rows = heap rs; next_seq = n })
  heap-Sound rs n (a, b) =
      (sym (apart-Perm seq_of (moves rs)) ∙ a, All-Perm (λ (r : PgRow). r.seq < n) (moves rs) b)

  pub update-Sound :
      (p : Row → Bool) (f : Row → Row) (t : PgTable) → Sound t → Sound (update heap p f t)
  unfolding update
  update-Sound p f t (a, b) =
      let g : Row → Row = λ row. if p row then f row else row in
      heap-Sound (map (changed g) t.rows) t.next_seq
        (apart-changed g t.rows ∙ a, below-changed t.next_seq g t.rows b)

  pub update-view :
      (p : Row → Bool) (f : Row → Row) (t : PgTable)
      → Sound t
      → view (update heap p f t) ≡ map (λ row. if p row then f row else row) (view t)
  unfolding update view
  update-view p f t (a, b) =
      let g : Row → Row = λ row. if p row then f row else row in
      ap (map row_of) (
        heap-view (map (changed g) t.rows) (apart-changed g t.rows ∙ a)
        ∙ sort_by-map seq_of seq_of (changed g) (λ r. refl) t.rows)
      ∙ map-changed g (sort_by seq_of t.rows)

  pub mark_each-view :
      (ids : List Text) (index : ℕ) (root : Text) (t : PgTable)
      → Sound t
      → (view (mark_each heap ids index root t) ≡ Store.mark_batched ids index root (view t))
        × Sound (mark_each heap ids index root t)
  unfolding mark_each Store.mark_batched Store.mark_one
  mark_each-view [] index root t s = (refl, s)
  mark_each-view (id ∷ ids) index root t s =
      let t' = update heap (has_id id) (tag index root) t in
      let (same, sound) =
        mark_each-view ids index root t' (update-Sound (has_id id) (tag index root) t s) in
      (
        same
            ∙ ap (Store.mark_batched ids index root) (update-view (has_id id) (tag index root) t s),
        sound,
      )

  any-view : (p : Row → Bool) (t : PgTable) → any (λ (r : PgRow). p r.row) t.rows ≡ any p (view t)
  unfolding view
  any-view p t =
      sym (any-sort_by seq_of (λ (r : PgRow). p r.row) t.rows)
      ∙ any-row_of p (sort_by seq_of t.rows)

  map-append_row :
      (rs : List PgRow) (new : PgRow) → map row_of (rs ++ new ∷ []) ≡ map row_of rs ++ new.row ∷ []
  map-append_row [] new = refl
  map-append_row (r ∷ rs) new = ap (λ rows. r.row ∷ rows) (map-append_row rs new)

  pub insert-view :
      (e : AuditEntry) (t : PgTable)
      → Sound t
      → (view (insert heap e t).1 ≡ or_same (view t) (insert_row e (view t)))
        × Sound (insert heap e t).1
  unfolding insert insert_row view
  insert-view e t (a, b) = elim (Bool-cases (any (λ (r : PgRow). has_id e.id r.row) t.rows)) [
    | inl taken ↦
        let taken' : any (has_id e.id) (view t) ≡ true = sym (any-view (has_id e.id) t) ∙ taken in
        rw (taken, taken') (refl, (a, later t.next_seq t.rows b))
    | inr free ↦
        let free' : any (has_id e.id) (view t) ≡ false = sym (any-view (has_id e.id) t) ∙ free in
        let new : PgRow = record {
          seq = t.next_seq;
          row = record { entry = e; batch_index = none; batch_root = none };
        } in
        let grown = apart-append t.rows new a b in
        rw (free, free')
          (
            ap (map row_of)
                  (heap-view (t.rows ++ new ∷ []) grown ∙ sort_by-append seq_of t.rows new b)
                ∙ map-append_row (sort_by seq_of t.rows) new,
            heap-Sound (t.rows ++ new ∷ []) (t.next_seq + 1)
                (grown, later-append t.next_seq t.rows new b refl),
          )
  ]
