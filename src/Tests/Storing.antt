-- ===== src/Tests/Storing.antt =====
-- A Postgres table whose rows change their places, and its queries.
use agentct.Base.{ℕ, pos, Text, codes, true, false, none, List, [], ◌∷◌, ◌≡◌}
use mathlib.Core.List.{reverse}
use mathlib.Core.List.Permᴰ
use agentct.Types.{AuditEntry}
use agentct.Audit.Store
use agentct.Audit.Postgres
use agentct.Audit.Postgres.{PgRow, new_table, release_batch}
use agentct.Audit.Postgres.Writes.{Write, sqlite_writes, pg_writes}
use agentct.Audit.Postgres.Answers.{writes-answers}
use agentct.Tests.Samples.{alice, payment, allowing, entry}

abbrev named : Text → ℕ → AuditEntry
named id at = record (entry at (payment (pos 60) alice) allowing) { id = id }

-- The second insert meets a taken id, and the first transaction breaks off.
abbrev writes : List Write
writes =
    Write.inserts (named (codes "a") 3000)
    ∷ Write.inserts (named (codes "a") 1000)
    ∷ Write.inserts (named (codes "b") 2000)
    ∷ Write.marks true (codes "a" ∷ []) 4 (codes "0x04")
    ∷ Write.marks false (codes "b" ∷ []) 5 (codes "0x05")
    ∷ []

writes-answers_example :
    let t = pg_writes reverse writes new_table in
    let s = sqlite_writes writes [] in
    (Postgres.list none t ≡ Store.list none s)
    × (Postgres.list_since (codes "agent") 1500 t ≡ Store.list_since (codes "agent") 1500 s)
    × (Postgres.get_by_id (codes "b") t ≡ Store.get_by_id (codes "b") s)
    × (Postgres.unbatched t ≡ Store.unbatched s)
    × (Postgres.entries_in_batch 5 t ≡ Store.entries_in_batch 5 s)
    × ((release_batch reverse 5 t).0 ≡ (Store.release_batch 5 s).0)
writes-answers_example =
    writes-answers reverse (λ rs. Permᴰ.symm (Permᴰ.reverse rs)) writes none (codes "agent") 1500
      (codes "b") 5
