-- ===== src/Policy/Simulate.antt =====
-- packages/core/src/policy/simulate.ts: a candidate policy replayed against the recorded history.
-- `Date.now()` is a parameter: `clock k` is its k-th reading, one by `evaluate` and one by
-- `observe` for each entry.
pub mod Counts
pub mod Timing
use agentct.Base.{
  ℕ, ◌+◌, Text, any, filter, length, Bool, true, false, not, ◌&&◌, ◌||◌, Option, none, some, List,
  [], ◌∷◌, ◌++◌, if◌then◌else◌,
}
use agentct.Base.Sorting.{sort_by}
use agentct.Types.{
  PaymentRequest, PolicyCheck, PolicyRule, Verdict, verdict_eq, AuditEntry, Settlement,
}
use agentct.Policy.Allowlist.{Url}
use agentct.Policy.Rules.Outcomes.{is_critical}
use agentct.Policy.Evaluator.{Evaluator, fresh, evaluate, observe}

pub record SimulationEntry : Type 0 where
  pub request : PaymentRequest
  pub recorded_verdict : Verdict
  pub simulated_verdict : Verdict
  pub changed : Bool

pub record SimulationResult : Type 0 where
  pub total : ℕ
  pub changed : ℕ
  pub newly_blocked : ℕ
  pub newly_escalated : ℕ
  pub newly_allowed : ℕ
  pub entries : List SimulationEntry

unfoldable pub rule_verdict : List PolicyCheck → Bool → Verdict
rule_verdict checks escalate =
    if any is_critical checks
    then Verdict.block
    else if escalate
    then Verdict.escalate
    else Verdict.allow

-- `e.settlement?.success`
abbrev pub settled : Option Settlement → Bool
settled none = false
settled (some s) = s.success

-- The variables of the loop: the evaluator, the three counters and the entries so far.
pub record Loop : Type 0 where
  pub evaluator : Evaluator
  pub newly_blocked : ℕ
  pub newly_escalated : ℕ
  pub newly_allowed : ℕ
  pub entries : List SimulationEntry

abbrev pub plus_if : ℕ → Bool → ℕ
plus_if n b = if b then n + 1 else n

-- What a round records, once the candidate's verdict and the evaluator's next state are known.
unfoldable pub record_round : Verdict → Evaluator → AuditEntry → Loop → Loop
record_round simulated evaluator e s =
    let recorded = e.decision.verdict in
    let changed = not (verdict_eq simulated recorded) in
    record {
      evaluator = evaluator;
      newly_blocked = plus_if s.newly_blocked (changed && verdict_eq simulated Verdict.block);
      newly_escalated =
          plus_if s.newly_escalated
            (changed && verdict_eq simulated Verdict.escalate && verdict_eq recorded Verdict.allow);
      newly_allowed = plus_if s.newly_allowed (changed && verdict_eq simulated Verdict.allow);
      entries =
          s.entries
          ++ record {
            request = e.request;
            recorded_verdict = recorded;
            simulated_verdict = simulated;
            changed = changed;
          }
            ∷ [];
    }

abbrev pub start_loop : Loop
start_loop = record {
  evaluator = fresh;
  newly_blocked = 0;
  newly_escalated = 0;
  newly_allowed = 0;
  entries = [];
}

module _ (parse_url : Text → Option Url) (clock : ℕ → ℕ) (rules : List PolicyRule) where
  -- One round, with `k` readings of the clock before it.
  unfoldable pub round : ℕ → AuditEntry → Loop → Loop
  unfolding rule_verdict record_round
  round k e s =
      let result = evaluate parse_url rules s.evaluator e.request (clock k) in
      let next =
        if settled e.settlement || verdict_eq e.decision.verdict Verdict.allow
        then observe s.evaluator e.request (clock (k + 1))
        else s.evaluator in
      record_round (rule_verdict result.checks result.escalate) next e s

  unfoldable pub rounds : ℕ → List AuditEntry → Loop → Loop
  unfolding round
  rounds k [] s = s
  rounds k (e ∷ es) s = rounds (k + 2) es (round k e s)

  unfoldable pub simulate_policy : List AuditEntry → SimulationResult
  unfolding rounds sort_by
  simulate_policy history =
      let sorted = sort_by (λ e. e.timestamp) history in
      let s = rounds 0 sorted start_loop in
      record {
        total = length sorted;
        changed = length (filter (λ x. x.changed) s.entries);
        newly_blocked = s.newly_blocked;
        newly_escalated = s.newly_escalated;
        newly_allowed = s.newly_allowed;
        entries = s.entries;
      }
