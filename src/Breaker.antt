-- ===== src/Breaker.antt =====
-- CircuitBreaker of packages/core/src/circuit-breaker.ts. The clock is an argument, as it is in the
-- source; a method that changes the breaker returns the new one.
pub mod Frozen
pub mod History
pub mod Replay
use agentct.Base.{
  ℕ, ◌+◌, ◌*◌, ltb, leb, Text, codes, starts_with, any, filter, length, Bool, true, false, not,
  ◌&&◌, ◌||◌, Option, none, some, List, [], ◌∷◌, ◌++◌, if◌then◌else◌,
}
use agentct.Base.Sorting.{sort_by}
use agentct.Types.{PolicyCheck, Verdict, verdict_eq, AuditEntry}

pub record Config : Type 0 where
  pub window_seconds : ℕ
  pub max_blocks : Option ℕ
  pub max_escalations : Option ℕ
  pub max_anomalies : Option ℕ
  pub cooldown_seconds : Option ℕ

pub record BreakerEvent : Type 0 where
  pub ts : ℕ
  pub verdict : Verdict
  pub anomaly : Bool

pub record Breaker : Type 0 where
  pub events : List BreakerEvent
  pub opened_at : Option ℕ

pub record Counts : Type 0 where
  pub blocks : ℕ
  pub escalations : ℕ
  pub anomalies : ℕ

abbrev pub closed : Breaker
closed = record { events = []; opened_at = none }

-- Whether a cooldown is set and has run out: `now - openedAt >= cooldownSeconds * 1000`.
unfoldable pub cooled : Config → ℕ → ℕ → Bool
cooled cfg opened now = elim cfg.cooldown_seconds [
  | none ↦ false
  | some c ↦ ltb 0 c && leb (opened + c * 1000) now
]

-- `p.ts > now - windowSeconds * 1000`
abbrev pub in_window : Config → ℕ → ℕ → Bool
in_window cfg now ts = ltb now (ts + cfg.window_seconds * 1000)

unfoldable pub reset : Breaker → Breaker
reset b = record { events = []; opened_at = none }

unfoldable pub is_open : Config → ℕ → Breaker → Bool × Breaker
unfolding reset cooled
is_open cfg now b = elim b.opened_at [
  | none ↦ (false, b)
  | some opened ↦ if cooled cfg opened now then (false, reset b) else (true, b)
]

pub data CircuitState : Type 0 where
  open_state closed_state : CircuitState

unfoldable pub state : Config → ℕ → Breaker → CircuitState × Breaker
unfolding is_open
state cfg now b =
    let (o, b') = is_open cfg now b in
    (if o then CircuitState.open_state else CircuitState.closed_state, b')

unfoldable pub prune : Config → ℕ → Breaker → Breaker
prune cfg now b = record b { events = filter (λ e. in_window cfg now e.ts) b.events }

unfoldable pub count_events : List BreakerEvent → Counts
count_events events = record {
  blocks = length (filter (λ e. verdict_eq e.verdict Verdict.block) events);
  escalations = length (filter (λ e. verdict_eq e.verdict Verdict.escalate) events);
  anomalies = length (filter (λ e. e.anomaly) events);
}

-- `limit !== undefined && n >= limit`
abbrev pub reaches : ℕ → Option ℕ → Bool
reaches n none = false
reaches n (some limit) = leb limit n

unfoldable pub should_trip : Config → List BreakerEvent → Bool
unfolding count_events
should_trip cfg events =
    let c = count_events events in
    reaches c.blocks cfg.max_blocks
    || reaches c.escalations cfg.max_escalations
    || reaches c.anomalies cfg.max_anomalies

-- `if (this.openedAt === undefined && this.shouldTrip()) this.openedAt = now`
unfoldable pub trip : Config → ℕ → Breaker → Breaker
unfolding should_trip
trip cfg now b = elim b.opened_at [
  | none ↦ if should_trip cfg b.events then record b { opened_at = some now } else b
  | some _ ↦ b
]

unfoldable pub record_event : Config → Verdict → Bool → ℕ → Breaker → Breaker
unfolding trip prune
record_event cfg verdict anomaly now b =
    let event : BreakerEvent = record { ts = now; verdict = verdict; anomaly = anomaly } in
    trip cfg now (prune cfg now (record b { events = b.events ++ event ∷ [] }))

-- The predicate by which both the guard and `hydrate` tell an anomaly.
unfoldable pub is_anomaly : List PolicyCheck → Bool
is_anomaly checks = any (λ c. not c.passed && starts_with c.id (codes "behavioral-")) checks

unfoldable pub record_entries : Config → List AuditEntry → Breaker → Breaker
unfolding record_event is_anomaly
record_entries cfg [] b = b
record_entries cfg (e ∷ es) b =
    record_entries cfg es
      (record_event cfg e.decision.verdict (is_anomaly e.decision.checks) e.timestamp b)

unfoldable pub hydrate : Config → List AuditEntry → ℕ → Breaker → Breaker
unfolding record_entries sort_by
hydrate cfg entries now b =
    record_entries cfg
      (sort_by (λ e. e.timestamp) (filter (λ e. in_window cfg now e.timestamp) entries)) b

unfoldable pub counts : Config → ℕ → Breaker → Counts × Breaker
unfolding prune count_events
counts cfg now b = let b' = prune cfg now b in (count_events b'.events, b')
