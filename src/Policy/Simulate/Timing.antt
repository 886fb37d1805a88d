-- ===== src/Policy/Simulate/Timing.antt =====
-- What a backtest makes of the times in the history: it reads them only to put the payments in
-- order. Every payment is evaluated and observed at the present time.
use agentct.Base.{ℕ, ◌+◌, suc, Text, length, map, Option, List, [], ◌∷◌, ◌≡◌, refl, ap, ◌∙◌}
use agentct.Base.Sorting.{IsSorted, sort_by-IsSorted_id}
use agentct.Types.{PolicyRule, AuditEntry}
use agentct.Policy.Allowlist.{Url}
use agentct.Policy.Simulate.{Loop, round, rounds, start_loop, simulate_policy}

-- The same history with other times.
abbrev pub retime : (AuditEntry → ℕ) → List AuditEntry → List AuditEntry
retime time es = map (λ (e : AuditEntry). record e { timestamp = time e }) es

module _ (parse_url : Text → Option Url) (clock : ℕ → ℕ) (rules : List PolicyRule)
    (time : AuditEntry → ℕ) where
  round-retime :
      (k : ℕ) (e : AuditEntry) (s : Loop)
      → round parse_url clock rules k (record e { timestamp = time e }) s
        ≡ round parse_url clock rules k e s
  unfolding round
  round-retime k e s = refl

  rounds-retime :
      (k : ℕ) (es : List AuditEntry) (s : Loop)
      → rounds parse_url clock rules k (retime time es) s ≡ rounds parse_url clock rules k es s
  unfolding rounds
  rounds-retime k [] s = refl
  rounds-retime k (e ∷ es) s =
      ap (rounds parse_url clock rules (k + 2) (retime time es)) (round-retime k e s)
      ∙ rounds-retime (k + 2) es (round parse_url clock rules k e s)

  length-retime : (es : List AuditEntry) → length (retime time es) ≡ length es
  length-retime [] = refl
  length-retime (e ∷ es) = ap suc (length-retime es)

  -- Moving the payments of a history to any other times, as long as both histories are in the order
  -- of their times, changes nothing of a backtest.
  pub simulate_policy-retime :
      (history : List AuditEntry)
      → IsSorted (λ (e : AuditEntry). e.timestamp) history
      → IsSorted (λ (e : AuditEntry). e.timestamp) (retime time history)
      → simulate_policy parse_url clock rules (retime time history)
        ≡ simulate_policy parse_url clock rules history
  unfolding simulate_policy
  simulate_policy-retime history h k =
      rw (sort_by-IsSorted_id (λ (e : AuditEntry). e.timestamp) history h) (
        rw (sort_by-IsSorted_id (λ (e : AuditEntry). e.timestamp) (retime time history) k)
          (rw (rounds-retime 0 history start_loop) (rw (length-retime history))))
