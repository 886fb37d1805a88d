-- ===== src/Guard/Rehydration.antt =====
-- `hydrate` of packages/core/src/index.ts: the guard's state from the audit log. Whether a stored row can
-- be read is a parameter.
use agentct.Base.{
  ℕ, ◌-◌, all, text_eq, filter, if◌then◌else◌, Bool, false, not, Option, none, some, List, [], ◌∷◌,
  ◌++◌, length, map,
}
use agentct.Types.{AuditEntry}
use agentct.Policy.Evaluator
use agentct.Policy.Evaluator.{Evaluator, EvaluationResult}
use agentct.Behavioral.Scorer
use agentct.Behavioral.Scorer.{Scorer, BehavioralResult}
use agentct.Breaker
use agentct.Breaker.{Breaker, is_anomaly}
use agentct.Intent.Registry
use agentct.Intent.Registry.{Bindings}
use agentct.Audit.Hash.{recompute_entry_hash}
use agentct.Audit.Store.{Table, list_since}
use agentct.Guard.State.{Outside, GuardConfig, HydrationReport, Guard}

module _ (out : Outside) (cfg : GuardConfig) where
  abbrev pub succeeded : AuditEntry → Bool
  succeeded e = elim e.settlement [ none ↦ false | some s ↦ s.success ]

  abbrev pub is_intact : AuditEntry → Bool
  is_intact e = text_eq (recompute_entry_hash out.digest e) e.entry_hash

  abbrev pub hydrate_breaker : Option Breaker.Config → List AuditEntry → ℕ → Breaker → Breaker
  hydrate_breaker none entries now b = b
  hydrate_breaker (some c) entries now b = Breaker.hydrate c entries now b

  -- What `hydrate` does with the rows that it has read, which are newer than the lookback.
  unfoldable pub replay : List AuditEntry → (evaluator_at breaker_at : ℕ) → Guard → Guard
  replay [] evaluator_at breaker_at g = g
  replay (e ∷ es) evaluator_at breaker_at g =
      let entries = e ∷ es in
      let intact = filter is_intact entries in
      let tampered = filter (λ (r : AuditEntry). not (is_intact r)) entries in
      let settled_rows = filter succeeded intact in
      record g {
        evaluator = Evaluator.hydrate (settled_rows ++ tampered) evaluator_at g.evaluator;
        scorer = Scorer.hydrate out.floats cfg.behavioral settled_rows g.scorer;
        bindings = Registry.hydrate out.parse_url settled_rows g.bindings;
        breaker = hydrate_breaker cfg.circuit intact breaker_at g.breaker;
        last_hydration = some (record {
          entries = length entries;
          settled = length settled_rows;
          tampered = length tampered;
          tampered_ids = map (λ (r : AuditEntry). r.id) tampered;
        });
      }

  -- `hydrate`, on the rows that `listSince` returned, `none` where it throws.
  unfoldable pub hydrate :
      Option (List AuditEntry)
      → (evaluator_at breaker_at : ℕ) → Guard
      → Option HydrationReport × Guard
  unfolding replay
  hydrate none evaluator_at breaker_at g = (none, g)
  hydrate (some []) evaluator_at breaker_at g =
      (some (record { entries = 0; settled = 0; tampered = 0; tampered_ids = [] }), g)
  hydrate (some (e ∷ es)) evaluator_at breaker_at g =
      let g' = replay (e ∷ es) evaluator_at breaker_at g in (g'.last_hydration, g')

  -- `hydrate` from the table on: the agent's rows that are newer than the lookback. A row is readable
  -- where its JSON columns parse and its hash can be computed; one that is not throws before
  -- anything is rebuilt.
  unfoldable pub hydrate_log :
      (readable : AuditEntry → Bool)
      → (lookback read_at evaluator_at breaker_at : ℕ) → Table
      → Guard
      → Option HydrationReport × Guard
  unfolding hydrate
  hydrate_log readable lookback read_at evaluator_at breaker_at table g =
      let rows = list_since cfg.agent_id (read_at - lookback) table in
      hydrate (if all readable rows then some rows else none) evaluator_at breaker_at g
