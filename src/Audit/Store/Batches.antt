-- ===== src/Audit/Store/Batches.antt =====
-- What tagging and releasing do to the table, row by row.
use agentct.Base.{
  ℕ, Text, text_eq, text_eq_iff, text_eq_refl, includes, any, All, Bool, true, false, not, ◌&&◌,
  ◌||◌, none, some, List, [], ◌∷◌, ◌++◌, map, ◌≡◌, refl, sym, ap, ap₂, ◌∙◌, inl, inr, Bool-cases,
  arith, if◌then◌else◌,
}
use mathlib.Core.Path.{subst}
use agentct.Types.{AuditEntry}
use agentct.Audit.Store.{
  Row, Table, has_id, insert_row, is_unbatched, unbatched, tag, mark_one, mark_batched,
}

-- No two rows have the same id, which the primary key sees to.
abbrev pub is_distinct : Table → Bool
is_distinct [] = true
is_distinct (row ∷ rows) = not (any (has_id row.entry.id) rows) && is_distinct rows

pub map-map {ℓ} :
    {A : Type ℓ} (f g : A → A) (xs : List A) → map f (map g xs) ≡ map (λ x. f (g x)) xs
map-map f g [] = refl
map-map f g (x ∷ xs) = ap (λ ys. f (g x) ∷ ys) (map-map f g xs)

pub map-All {ℓ} :
    {A : Type ℓ} (f g : A → A) (xs : List A) → All (λ x. f x ≡ g x) xs → map f xs ≡ map g xs
map-All f g [] h = refl
map-All f g (x ∷ xs) h = ap₂ (λ y ys. y ∷ ys) h.0 (map-All f g xs h.1)

pub all_rows {ℓ} :
    {A : Type ℓ} (f g : A → A) → ((x : A) → f x ≡ g x) → (xs : List A) → map f xs ≡ map g xs
all_rows f g h [] = refl
all_rows f g h (x ∷ xs) = ap₂ (λ y ys. y ∷ ys) (h x) (all_rows f g h xs)

pub map_id {ℓ} : {A : Type ℓ} (xs : List A) → map (λ x. x) xs ≡ xs
map_id [] = refl
map_id (x ∷ xs) = ap (λ ys. x ∷ ys) (map_id xs)

text_eq_comm : (s t : Text) → text_eq s t ≡ text_eq t s
text_eq_comm s t = ground (arith, text_eq_iff s t, text_eq_iff t s)

-- The ids of the rows that are not anchored.
abbrev pub unbatched_ids : Table → List Text
unbatched_ids table = map (λ (e : AuditEntry). e.id) (unbatched table)

absent :
    (id : Text) (rows : Table)
    → any (has_id id) rows ≡ false
    → includes (unbatched_ids rows) id ≡ false
unfolding unbatched includes
absent id [] h = refl
absent id (row ∷ rows) h = ground (arith, absent id rows)

-- One more id, which none of the rows has.
other_id :
    (id : Text) (ids : List Text) (rows : Table)
    → any (has_id id) rows ≡ false
    → All (λ x. includes ids x.entry.id ≡ is_unbatched x) rows
    → All (λ x. includes (id ∷ ids) x.entry.id ≡ is_unbatched x) rows
unfolding includes
other_id id ids [] h all_right = tt
other_id id ids (row ∷ rows) h all_right =
    (ground (arith, text_eq_comm id row.entry.id), other_id id ids rows (ground arith) all_right.1)

-- The list of ids marks the rows of a table that are not anchored.
abbrev Marks : List Text → Table → Type 0
Marks ids rows = All (λ x. includes ids x.entry.id ≡ is_unbatched x) rows

unbatched_ids-cons :
    (row : Row) (rows : Table)
    → unbatched_ids (row ∷ rows)
      ≡ (if is_unbatched row then row.entry.id ∷ unbatched_ids rows else unbatched_ids rows)
unfolding unbatched
unbatched_ids-cons row rows = elim (Bool-cases (is_unbatched row)) [
  | inl pending ↦ rw pending refl
  | inr done ↦ rw done refl
]

Marks-cons :
    (row : Row) (rows : Table) (b : Bool)
    → b ≡ is_unbatched row
    → any (has_id row.entry.id) rows ≡ false
    → Marks (unbatched_ids rows) rows
    → Marks (if b then row.entry.id ∷ unbatched_ids rows else unbatched_ids rows) (row ∷ rows)
unfolding includes
Marks-cons row rows true pending unique rest = (
  ground (arith, text_eq_refl row.entry.id),
  other_id row.entry.id (unbatched_ids rows) rows unique rest,
)
Marks-cons row rows false done unique rest = (absent row.entry.id rows unique ∙ done, rest)

pub includes-unbatched_ids :
    (table : Table) → is_distinct table ≡ true → Marks (unbatched_ids table) table
includes-unbatched_ids [] h = tt
includes-unbatched_ids (row ∷ rows) h =
    subst (λ ids. Marks ids (row ∷ rows)) (sym (unbatched_ids-cons row rows))
      (Marks-cons row rows (is_unbatched row) refl (ground arith)
        (includes-unbatched_ids rows (ground arith)))

All-map_if :
    (ids : List Text) (index : ℕ) (root : Text) (rows : Table)
    → All (λ x. includes ids x.entry.id ≡ is_unbatched x) rows
    → All
        (λ x.
          (if includes ids x.entry.id then tag index root x else x)
          ≡ (if is_unbatched x then tag index root x else x))
        rows
All-map_if ids index root [] h = tt
All-map_if ids index root (row ∷ rows) h =
    (ap (λ b. if b then tag index root row else row) h.0, All-map_if ids index root rows h.1)

module _ (index : ℕ) (root : Text) where
  abbrev pub tag_if : Bool → Row → Row
  tag_if b row = if b then tag index root row else row

  tag_if-twice : (b c : Bool) (row : Row) → tag_if c (tag_if b row) ≡ tag_if (b || c) row
  tag_if-twice true true row = refl
  tag_if-twice true false row = refl
  tag_if-twice false c row = refl

  tag_if-id : (b : Bool) (row : Row) → (tag_if b row).entry ≡ row.entry
  tag_if-id true row = refl
  tag_if-id false row = refl

  mark_batched-map :
      (ids : List Text) (table : Table)
      → mark_batched ids index root table
        ≡ map (λ row. tag_if (includes ids row.entry.id) row) table
  unfolding mark_batched mark_one includes
  mark_batched-map [] table = sym (map_id table)
  mark_batched-map (id ∷ ids) table =
      mark_batched-map ids (mark_one index root id table)
      ∙ map-map (λ row. tag_if (includes ids row.entry.id) row) (λ row. tag_if (has_id id row) row)
          table
      ∙ all_rows
          (λ row.
            tag_if (includes ids (tag_if (has_id id row) row).entry.id)
              (tag_if (has_id id row) row))
          (λ row. tag_if (text_eq id row.entry.id || includes ids row.entry.id) row)
          (λ row.
            ap (λ (e : AuditEntry). tag_if (includes ids e.id) (tag_if (has_id id row) row))
              (tag_if-id (has_id id row) row)
            ∙ tag_if-twice (has_id id row) (includes ids row.entry.id) row
            ∙ ap (λ b. tag_if (b || includes ids row.entry.id) row) (text_eq_comm row.entry.id id))
          table

  -- Marking the rows that are not anchored tags exactly those.
  pub mark_batched-unbatched :
      (table : Table)
      → is_distinct table ≡ true
      → mark_batched (unbatched_ids table) index root table
        ≡ map (λ row. tag_if (is_unbatched row) row) table
  mark_batched-unbatched table h =
      mark_batched-map (unbatched_ids table) table
      ∙ map-All (λ row. tag_if (includes (unbatched_ids table) row.entry.id) row)
          (λ row. tag_if (is_unbatched row) row) table
          (All-map_if (unbatched_ids table) index root table (includes-unbatched_ids table h))

-- The key stays unique.
any-last :
    (id : Text) (rows : Table) (row : Row)
    → any (has_id id) (rows ++ row ∷ []) ≡ (any (has_id id) rows || has_id id row)
any-last id [] row = ground arith
any-last id (r ∷ rows) row = ground (arith, any-last id rows row)

distinct-append :
    (rows : Table) (row : Row)
    → is_distinct rows ≡ true
    → any (has_id row.entry.id) rows ≡ false
    → is_distinct (rows ++ row ∷ []) ≡ true
distinct-append [] row h fresh_id = refl
distinct-append (r ∷ rows) row h fresh_id =
    let rest = distinct-append rows row (ground arith) (ground arith) in
    ground (arith, any-last r.entry.id rows row, text_eq_comm r.entry.id row.entry.id)

-- Inserting keeps the ids distinct, where it does not throw.
pub insert_row-distinct :
    (e : AuditEntry) (table table' : Table)
    → is_distinct table ≡ true
    → insert_row e table ≡ some table'
    → is_distinct table' ≡ true
unfolding insert_row
insert_row-distinct e table table' h inserted = elim (Bool-cases (any (has_id e.id) table)) [
  | inl taken ↦ cc (rw taken at inserted)
  | inr free ↦
      let new : Row = record { entry = e; batch_index = none; batch_root = none } in
      let same : some (table ++ new ∷ []) ≡ some table' = rw free at inserted in
      let grown = distinct-append table new h free in cc
]
