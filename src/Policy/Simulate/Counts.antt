-- ===== src/Policy/Simulate/Counts.antt =====
-- How the counters of a backtest relate to its entries.
use agentct.Base.{
  ℕ, ◌+◌, Text, filter, filter-append, length, length-append, Bool, not, ◌&&◌, Option, List, [],
  ◌∷◌, ◌++◌, ◌≡◌, refl, ap, ◌∙◌, arith, if◌then◌else◌,
}
use agentct.Base.Sorting.{sort_by, length-sort_by}
use agentct.Types.{PolicyRule, Verdict, verdict_eq, AuditEntry}
use agentct.Policy.Allowlist.{Url}
use agentct.Policy.Evaluator.{Evaluator, evaluate}
use agentct.Policy.Simulate.{
  SimulationEntry, Loop, rule_verdict, record_round, round, rounds, start_loop, simulate_policy,
}

-- A change that the three counters leave out: from block to escalate.
abbrev pub softened : SimulationEntry → Bool
softened x =
    verdict_eq x.simulated_verdict Verdict.escalate && verdict_eq x.recorded_verdict Verdict.block

abbrev pub count {ℓ} : {A : Type ℓ} → (A → Bool) → List A → ℕ
count p xs = length (filter p xs)

-- The loop's counters add up.
abbrev Balanced : Loop → Type 0
Balanced s =
    count (λ x. x.changed) s.entries
    ≡ s.newly_blocked + s.newly_escalated + s.newly_allowed + count softened s.entries

count-snoc :
    (p : SimulationEntry → Bool) (xs : List SimulationEntry) (x : SimulationEntry)
    → count p (xs ++ x ∷ []) ≡ count p xs + (if p x then 1 else 0)
count-snoc p xs x =
    ap length (filter-append p xs (x ∷ []))
    ∙ length-append (filter p xs) (filter p (x ∷ []))
    ∙ ap (λ n. length (filter p xs) + n) (ground arith)

record_round-Balanced :
    (simulated : Verdict) (next : Evaluator) (e : AuditEntry) (s : Loop)
    → Balanced s
    → Balanced (record_round simulated next e s)
unfolding record_round
record_round-Balanced simulated next e s h =
    let x : SimulationEntry = record {
      request = e.request;
      recorded_verdict = e.decision.verdict;
      simulated_verdict = simulated;
      changed = not (verdict_eq simulated e.decision.verdict);
    } in
    rw (count-snoc (λ y. y.changed) s.entries x)
      (rw (count-snoc softened s.entries x) (ground arith))

module _ (parse_url : Text → Option Url) (clock : ℕ → ℕ) (rules : List PolicyRule) where
  round-Balanced :
      (k : ℕ) (e : AuditEntry) (s : Loop)
      → Balanced s
      → Balanced (round parse_url clock rules k e s)
  unfolding round
  round-Balanced k e s h =
      let result = evaluate parse_url rules s.evaluator e.request (clock k) in
      record_round-Balanced (rule_verdict result.checks result.escalate)
        (round parse_url clock rules k e s).evaluator e s h

  rounds-Balanced :
      (k : ℕ) (es : List AuditEntry) (s : Loop)
      → Balanced s
      → Balanced (rounds parse_url clock rules k es s)
  unfolding rounds
  rounds-Balanced k [] s h = h
  rounds-Balanced k (e ∷ es) s h =
      rounds-Balanced (k + 2) es (round parse_url clock rules k e s) (round-Balanced k e s h)

  round-entries :
      (k : ℕ) (e : AuditEntry) (s : Loop)
      → length (round parse_url clock rules k e s).entries ≡ length s.entries + 1
  unfolding round
  round-entries k e s = length-append s.entries _

  rounds-entries :
      (k : ℕ) (es : List AuditEntry) (s : Loop)
      → length (rounds parse_url clock rules k es s).entries ≡ length s.entries + length es
  unfolding rounds
  rounds-entries k [] s = omega arith
  rounds-entries k (e ∷ es) s =
      omega
        (arith, rounds-entries (k + 2) es (round parse_url clock rules k e s), round-entries k e s)

  -- A backtest has one entry for each payment of the history. The entries that changed are those
  -- that are newly blocked, newly escalated or newly allowed, and those that go from a block to an
  -- escalation, which no counter reports.
  pub simulate_policy_counts :
      (history : List AuditEntry)
      → let r = simulate_policy parse_url clock rules history in
        (r.total ≡ length history)
        × (length r.entries ≡ length history)
        × (r.changed
            ≡ r.newly_blocked + r.newly_escalated + r.newly_allowed + count softened r.entries)
  unfolding simulate_policy
  simulate_policy_counts history =
      let sorted = sort_by (λ (e : AuditEntry). e.timestamp) history in
      let same = length-sort_by (λ (e : AuditEntry). e.timestamp) history in
      (
        same,
        omega (arith, rounds-entries 0 sorted start_loop),
        rounds-Balanced 0 sorted start_loop refl,
      )
