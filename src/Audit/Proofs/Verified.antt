-- ===== src/Audit/Proofs/Verified.antt =====
-- A proof of an anchored row is there, and it verifies against the batch's root.
use agentct.Base.{
  ℕ, suc, zero, ◌+◌, Text, text_eq, text_eq_iff, lookup, insert, lookup-insert, get_elem?, any,
  true, Option, Option-cases, none, some, List, [], ◌∷◌, ◌≡◌, refl, ap, ◌∙◌, inl, inr, Bool-cases,
  arith, if◌then◌else◌,
}
use mathlib.Core.Path.{subst}
use agentct.Types.{AuditEntry}
use agentct.Audit.Hash.{Canonical}
use agentct.Audit.Store.{Row, Table, has_id, in_batch, get_by_id, entries_in_batch}
use agentct.Audit.Logger.{Leaf, LeafContext, entry_to_leaf, canonicalize, batch_root}
use agentct.Audit.Proofs.{
  Tree, EntryProof, leaves, proof_at, prove_rows, proofs_for_batch, proof_for, proof_in,
  proof_of_row,
}

-- The last row with an id, and its place, counted from `i`.
last_with : Text → ℕ → List AuditEntry → Option (ℕ × AuditEntry)
last_with id i [] = none
last_with id i (row ∷ rest) = elim (last_with id (i + 1) rest) [
  | some found ↦ some found
  | none ↦ if text_eq row.id id then some (i, row) else none
]

-- What a place found means.
last_with-place :
    (id : Text) (i : ℕ) (rows : List AuditEntry) {j : ℕ} {e : AuditEntry}
    → last_with id i rows ≡ some (j, e)
    → (k : ℕ) × (j ≡ i + k) × (get_elem? rows k ≡ some e) × (e.id ≡ id)
unfolding last_with
last_with-place id i [] h = cc
last_with-place id i (row ∷ rest) {j} {e} h = elim (Option-cases (last_with id (i + 1) rest)) [
  | inr ((j', e'), found) ↦
      let r : ◌≡◌ {A = Option (ℕ × AuditEntry)} (some (j', e')) (some (j, e)) = rw found at h in
      let (k, place, elem, named) = last_with-place id (i + 1) rest found in
      (suc k, ground arith, ground arith, ground arith)
  | inl last ↦ elim (Bool-cases (text_eq row.id id)) [
    | inl same ↦
        let r : ◌≡◌ {A = Option (ℕ × AuditEntry)} (some (i, row)) (some (j, e)) = ground arith in
        (zero, ground arith, ground arith, ground (arith, text_eq_iff row.id id))
    | inr other ↦ ground arith
  ]
]

last_with-some :
    (id : Text) (i : ℕ) (rows : List AuditEntry)
    → any (λ (e : AuditEntry). text_eq e.id id) rows ≡ true
    → (p : ℕ × AuditEntry) × (last_with id i rows ≡ some p)
unfolding last_with
last_with-some id i [] h = cc
last_with-some id i (row ∷ rest) h = elim (Option-cases (last_with id (i + 1) rest)) [
  | inr (p, found) ↦ (p, rw found refl)
  | inl last ↦ elim (Bool-cases (text_eq row.id id)) [
    | inl same ↦ ((i, row), ground arith)
    | inr other ↦
        let (p, found) = last_with-some id (i + 1) rest (ground arith) in (p, ground arith)
  ]
]

any-in_batch :
    (id : Text) (index : ℕ) (table : Table) {row : Row}
    → get_by_id id table ≡ some row
    → row.batch_index ≡ some index
    → any (λ (e : AuditEntry). text_eq e.id id) (entries_in_batch index table) ≡ true
unfolding get_by_id entries_in_batch
any-in_batch id index [] h b = cc
any-in_batch id index (r ∷ rows) {row} h b = elim (Bool-cases (has_id id r)) [
  | inl same ↦
      let first : ◌≡◌ {A = Option Row} (some r) (some row) = rw same at h in
      let batch : r.batch_index ≡ some index =
        ap (λ (x : Row). x.batch_index) (some_inj first) ∙ b in
      ground arith
  | inr other ↦
      let rest = any-in_batch id index rows {row = row} (rw other at h) b in
      elim (Bool-cases (in_batch index r)) [
        | inl inside ↦ ground (arith, rest)
        | inr outside ↦ ground (arith, rest)
      ]
]
  where
    some_inj : {x y : Row} → ◌≡◌ {A = Option Row} (some x) (some y) → x ≡ y
    some_inj e = cc

module _ (digest : Canonical → Text) (tree : Tree) (ctx : LeafContext) where
  abbrev shown_at :
      ℕ → List AuditEntry → Option (ℕ × AuditEntry) → Option EntryProof → Option EntryProof
  shown_at index all none earlier = earlier
  shown_at index all (some (j, e)) earlier = some (proof_at digest tree ctx index all j e)

  lookup-prove_rows :
      (id : Text) (index : ℕ) (all : List AuditEntry) (i : ℕ) (rows : List AuditEntry)
      (out : List (Text × EntryProof))
      → lookup id (prove_rows digest tree ctx index all i rows out)
        ≡ shown_at index all (last_with id i rows) (lookup id out)
  unfolding prove_rows last_with
  lookup-prove_rows id index all i [] out = refl
  lookup-prove_rows id index all i (row ∷ rest) out =
      let new = proof_at digest tree ctx index all i row in
      lookup-prove_rows id index all (i + 1) rest (insert row.id new out)
      ∙ elim (Option-cases (last_with id (i + 1) rest)) [
        | inr (found, e) ↦ rw e refl
        | inl e ↦ elim (Bool-cases (text_eq row.id id)) [
          | inl same ↦ rw (e, same, lookup-insert row.id id new out) (rw same refl)
          | inr other ↦ rw (e, other, lookup-insert row.id id new out) (rw other refl)
        ]
      ]

  get_elem?-leaves :
      (rows : List AuditEntry) (j : ℕ) {e : AuditEntry}
      → get_elem? rows j ≡ some e
      → get_elem? (leaves digest tree ctx rows) j
        ≡ some (entry_to_leaf ctx (canonicalize digest tree.root e))
  get_elem?-leaves [] j h = cc
  get_elem?-leaves (r ∷ rows) zero {e} h =
      let same : r ≡ e = cc in
      ap (λ (x : AuditEntry). some (entry_to_leaf ctx (canonicalize digest tree.root x))) same
  get_elem?-leaves (r ∷ rows) (suc j) h = get_elem?-leaves rows j h

  rooted :
      (rows : List AuditEntry) (j : ℕ) (e : AuditEntry)
      → get_elem? rows j ≡ some e
      → let leaf = entry_to_leaf ctx (canonicalize digest tree.root e) in
        let path = tree.proof (leaves digest tree ctx rows) j in
        tree.verify (tree.root (leaves digest tree ctx rows)) leaf path ≡ true
        → tree.verify (batch_root digest tree.root ctx rows) leaf path ≡ true
  unfolding batch_root
  rooted [] j e h v = cc
  rooted (r ∷ rows) j e h v = v

  -- Of a row that carries a batch index there is a proof. It is made for a row of that batch with the
  -- same id: its leaf and its fields are those of the row with its hash computed anew, it stands on
  -- the root computed from all rows of the batch, and the tree verifies it against that root, where
  -- the tree verifies its own proofs.
  pub proof_for-verified :
      (id : Text) (index : ℕ) (table : Table) (row : Row)
      → get_by_id id table ≡ some row
      → row.batch_index ≡ some index
      → ((ls : List Leaf) (j : ℕ) (l : Leaf)
          → get_elem? ls j ≡ some l
          → tree.verify (tree.root ls) l (tree.proof ls j) ≡ true)
      → let rows = entries_in_batch index table in
        (j : ℕ) × (e : AuditEntry) × (get_elem? rows j ≡ some e)
        × (e.id ≡ id)
        × (proof_for digest tree ctx id table ≡ some (proof_at digest tree ctx index rows j e))
        × (tree.verify
              (proof_at digest tree ctx index rows j e).local_root
              (entry_to_leaf ctx (canonicalize digest tree.root e))
              (proof_at digest tree ctx index rows j e).proof
            ≡ true)
  unfolding proof_for proofs_for_batch proof_at
  proof_for-verified id index table row found batch lawful =
      let rows = entries_in_batch index table in
      let ((j, e), last) = last_with-some id 0 rows (any-in_batch id index table found batch) in
      let (k, place, elem, named) = last_with-place id 0 rows last in
      let here : k ≡ j = omega (arith, place) in
      let elem_j = subst (λ (n : ℕ). get_elem? rows n ≡ some e) here elem in
      let proof = proof_at digest tree ctx index rows j e in
      let listed =
        lookup-prove_rows id index rows 0 rows []
        ∙ ap (λ o. shown_at index rows o (lookup id [])) last in
      (
        j,
        e,
        elem_j,
        named,
        ap (λ (o : Option Row). proof_of_row digest tree ctx id o table) found
            ∙ ap (λ (o : Option ℕ). proof_in digest tree ctx id o table) batch
            ∙ listed,
        rooted rows j e elem_j
            (lawful (leaves digest tree ctx rows) j _ (get_elem?-leaves rows j elem_j)),
      )
