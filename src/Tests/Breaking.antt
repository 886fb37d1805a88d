-- ===== src/Tests/Breaking.antt =====
-- The breaker of packages/core/src/circuit-breaker.ts: two blocks within a minute trip it.
use agentct.Base.{
  ℕ, pos, map, filter, length, true, false, Option, none, some, List, [], ◌∷◌, ◌≡◌, refl, ◌↔◌, inl,
  arith,
}
use agentct.Types.{AuditEntry, Verdict, verdict_eq}
use agentct.Breaker.{
  Config, BreakerEvent, Breaker, closed, is_open, record_event, record_entries, counts, hydrate,
}
use agentct.Breaker.Frozen.{Call, calls, calls-is_open}
use agentct.Breaker.History.{windowed, TooMany, record_event-trips_iff}
use agentct.Breaker.Replay.{event_of, counts-hydrate, hydrate_forgets}
use agentct.Tests.Samples.{payment, alice, blocking, entry, breaker_config}

abbrev tripped : Breaker
tripped = record { events = []; opened_at = some 1000 }

abbrev cooling : Config
cooling = record breaker_config { cooldown_seconds = some 5 }

abbrev later_calls : List Call
later_calls = Call.tell Verdict.allow false 2000 ∷ Call.query 90000 ∷ Call.look 95000 ∷ []

calls-is_open_example :
    is_open breaker_config 99000 (calls breaker_config later_calls tripped)
    ≡ (true, calls breaker_config later_calls tripped)
calls-is_open_example = calls-is_open breaker_config later_calls tripped 1000 99000 (inl refl) refl

abbrev blocked : ℕ → BreakerEvent
blocked t = record { ts = t; verdict = Verdict.block; anomaly = false }

abbrev two_blocks : List BreakerEvent
two_blocks = blocked 1000 ∷ blocked 2000 ∷ []

abbrev one_block : Breaker
one_block = record { events = blocked 1000 ∷ []; opened_at = none }

record_event-trips_iff_example :
    ((record_event breaker_config Verdict.block false 2000 one_block).opened_at ≡ some 2000)
    ↔ TooMany breaker_config (windowed breaker_config 2000 (blocked 1000 ∷ blocked 2000 ∷ []))
record_event-trips_iff_example =
    record_event-trips_iff breaker_config (blocked 1000 ∷ []) 1500 one_block (blocked 2000) refl
      (omega arith) refl

abbrev refused_twice : List AuditEntry
refused_twice =
    entry 1000 (payment (pos 60) alice) blocking ∷ entry 2000 (payment (pos 60) alice) blocking ∷ []

counts-hydrate_example :
    let kept = windowed breaker_config 61500 (map event_of refused_twice) in
    let c = (counts breaker_config 61500 (hydrate breaker_config refused_twice 61500 closed)).0 in
    (c.blocks ≡ length (filter (λ e. verdict_eq e.verdict Verdict.block) kept))
    × (c.escalations ≡ length (filter (λ e. verdict_eq e.verdict Verdict.escalate) kept))
    × (c.anomalies ≡ length (filter (λ e. e.anomaly) kept))
counts-hydrate_example =
    counts-hydrate breaker_config 61500 refused_twice (omega arith, (omega arith, tt))

-- Only the second of the two blocks is less than a minute old.
one_left :
    (counts breaker_config 61500 (hydrate breaker_config refused_twice 61500 closed)).0.blocks ≡ 1
unfolding counts hydrate
one_left = refl

abbrev record_twice : Option ℕ
record_twice = (record_entries breaker_config refused_twice closed).opened_at

twice_trips : record_twice ≡ some 2000
unfolding record_entries
twice_trips = refl

-- Two minutes later the process restarts.
hydrate_forgets_example :
    ((is_open breaker_config 120000 (record_entries breaker_config refused_twice closed)).0 ≡ true)
    × ((is_open breaker_config 120000 (hydrate breaker_config refused_twice 120000 closed)).0
        ≡ false)
hydrate_forgets_example =
    hydrate_forgets breaker_config 120000 2000 refused_twice (inl refl) twice_trips
      (omega arith, (omega arith, tt))
