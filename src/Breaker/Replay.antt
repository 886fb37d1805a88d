-- ===== src/Breaker/Replay.antt =====
-- The breaker across a restart: what `hydrate` replays, and what it leaves out.
use agentct.Base.{
  ℕ, ◌+◌, ◌*◌, ◌≤◌, Bool, not, ◌&&◌, true, false, All, All-filter, any, filter, length, map, codes,
  starts_with, some, List, [], ◌∷◌, ◌≡◌, refl, ap, ◌∙◌, arith,
}
use agentct.Base.Sorting.{IsSorted, insert_by, sort_by, sort_by-IsSorted, All-sort_by}
use agentct.Types.{AuditEntry, PolicyCheck, Verdict, verdict_eq}
use agentct.Breaker.{
  Config, BreakerEvent, Breaker, closed, in_window, is_open, is_anomaly, prune, count_events,
  counts, record_event, record_entries, hydrate,
}
use agentct.Breaker.Frozen.{IsManual, is_open-manual}
use agentct.Breaker.History.{
  windowed, windowed-windowed, Forward, final, record_all, record_all-Tracks,
}

abbrev Expired : Config → ℕ → List AuditEntry → Type 0
Expired cfg now = All (λ e. e.timestamp + cfg.window_seconds * 1000 ≤ now)

filter_expired :
    (cfg : Config) (now : ℕ) (es : List AuditEntry)
    → All (λ e. e.timestamp + cfg.window_seconds * 1000 ≤ now) es
    → filter (λ e. in_window cfg now e.timestamp) es ≡ []
filter_expired cfg now [] h = refl
filter_expired cfg now (e ∷ es) (p, h) = ground (arith, filter_expired cfg now es h)

-- A row of the log as a decision that the breaker counts.
abbrev pub event_of : AuditEntry → BreakerEvent
event_of e = record {
  ts = e.timestamp;
  verdict = e.decision.verdict;
  anomaly =
      any (λ (c : PolicyCheck). not c.passed && starts_with c.id (codes "behavioral-"))
        e.decision.checks;
}

record_entries-record_all :
    (cfg : Config) (es : List AuditEntry) (b : Breaker)
    → record_entries cfg es b ≡ record_all cfg (map event_of es) b
unfolding record_entries is_anomaly record_all
record_entries-record_all cfg [] b = refl
record_entries-record_all cfg (e ∷ es) b =
    record_entries-record_all cfg es
      (record_event cfg e.decision.verdict (event_of e).anomaly e.timestamp b)

map-Forward :
    (last : ℕ) (es : List AuditEntry)
    → All (λ (e : AuditEntry). last ≤ e.timestamp) es
    → IsSorted (λ (e : AuditEntry). e.timestamp) es
    → Forward last (map event_of es)
map-Forward last [] low h = tt
map-Forward last (e ∷ es) (p, low) (above, h) = (p, map-Forward e.timestamp es above h)

final-le :
    (last now : ℕ) (es : List AuditEntry)
    → last ≤ now
    → All (λ (e : AuditEntry). e.timestamp ≤ now) es
    → final last (map event_of es) ≤ now
final-le last now [] h all = h
final-le last now (e ∷ es) h (p, all) = final-le e.timestamp now es p all

from_zero : (es : List AuditEntry) → All (λ (e : AuditEntry). 0 ≤ e.timestamp) es
from_zero [] = tt
from_zero (e ∷ es) = (omega arith, from_zero es)

-- How many decisions of the log that a test picks lie in the window.
abbrev picked : Config → ℕ → (BreakerEvent → Bool) → List AuditEntry → ℕ
picked cfg now p es = length (filter p (windowed cfg now (map event_of es)))

picked-insert_by :
    (cfg : Config) (now : ℕ) (p : BreakerEvent → Bool) (e : AuditEntry) (es : List AuditEntry)
    → picked cfg now p (insert_by (λ (x : AuditEntry). x.timestamp) e es)
      ≡ picked cfg now p (e ∷ es)
unfolding insert_by
picked-insert_by cfg now p e [] = refl
picked-insert_by cfg now p e (x ∷ es) = ground (arith, picked-insert_by cfg now p e es)

picked-sort_by :
    (cfg : Config) (now : ℕ) (p : BreakerEvent → Bool) (es : List AuditEntry)
    → picked cfg now p (sort_by (λ (x : AuditEntry). x.timestamp) es) ≡ picked cfg now p es
unfolding sort_by
picked-sort_by cfg now p [] = refl
picked-sort_by cfg now p (e ∷ es) = ground (
  arith,
  picked-insert_by cfg now p e (sort_by (λ (x : AuditEntry). x.timestamp) es),
  picked-sort_by cfg now p es,
)

picked-filter :
    (cfg : Config) (now : ℕ) (p : BreakerEvent → Bool) (es : List AuditEntry)
    → picked cfg now p (filter (λ e. in_window cfg now e.timestamp) es) ≡ picked cfg now p es
picked-filter cfg now p [] = refl
picked-filter cfg now p (e ∷ es) = ground (arith, picked-filter cfg now p es)

-- What a replayed list of rows leaves in the window.
replayed-windowed :
    (cfg : Config) (now : ℕ) (es : List AuditEntry)
    → IsSorted (λ (e : AuditEntry). e.timestamp) es
    → All (λ (e : AuditEntry). e.timestamp ≤ now) es
    → windowed cfg now (record_entries cfg es closed).events ≡ windowed cfg now (map event_of es)
replayed-windowed cfg now es sorted past =
    let events = map event_of es in
    ap (λ (b : Breaker). windowed cfg now b.events) (record_entries-record_all cfg es closed)
    ∙ ap (windowed cfg now)
        (record_all-Tracks cfg [] 0 closed events refl (map-Forward 0 es (from_zero es) sorted))
    ∙ windowed-windowed cfg (final 0 events) now events (final-le 0 now es (omega arith) past)

-- A breaker that is rebuilt from a log, in any order and however old, none of it from the future,
-- counts exactly the blocks, the escalations and the anomalies of the log whose time lies in the
-- window: an anomaly is a decision with a behavioral check that did not pass.
pub counts-hydrate :
    (cfg : Config) (now : ℕ) (es : List AuditEntry)
    → All (λ (e : AuditEntry). e.timestamp ≤ now) es
    → let kept = windowed cfg now (map event_of es) in
      let c = (counts cfg now (hydrate cfg es now closed)).0 in
      (c.blocks ≡ length (filter (λ e. verdict_eq e.verdict Verdict.block) kept))
      × (c.escalations ≡ length (filter (λ e. verdict_eq e.verdict Verdict.escalate) kept))
      × (c.anomalies ≡ length (filter (λ e. e.anomaly) kept))
unfolding counts hydrate prune count_events
counts-hydrate cfg now es past =
    let ts : AuditEntry → ℕ = λ e. e.timestamp in
    let recent = filter (λ (e : AuditEntry). in_window cfg now e.timestamp) es in
    let late =
      All-filter (λ (e : AuditEntry). e.timestamp ≤ now) (λ e. in_window cfg now e.timestamp) es
        past in
    let left =
      replayed-windowed cfg now (sort_by ts recent) (sort_by-IsSorted ts recent)
        (All-sort_by ts (λ (e : AuditEntry). e.timestamp ≤ now) recent late) in
    let same : (p : BreakerEvent → Bool)
        → length
            (filter p (windowed cfg now (record_entries cfg (sort_by ts recent) closed).events))
          ≡ picked cfg now p es =
      λ p.
        ap (λ xs. length (filter p xs)) left
        ∙ picked-sort_by cfg now p recent
        ∙ picked-filter cfg now p es in
    (
      same (λ e. verdict_eq e.verdict Verdict.block),
      same (λ e. verdict_eq e.verdict Verdict.escalate),
      same (λ e. e.anomaly),
    )

-- Once all decisions of a history that tripped a breaker without a cooldown are older than the
-- window, the breaker that recorded them is still open, and the one rebuilt from them is closed.
pub hydrate_forgets :
    (cfg : Config) (now opened : ℕ) (es : List AuditEntry)
    → IsManual cfg
    → (record_entries cfg es closed).opened_at ≡ some opened
    → All (λ e. e.timestamp + cfg.window_seconds * 1000 ≤ now) es
    → ((is_open cfg now (record_entries cfg es closed)).0 ≡ true)
      × ((is_open cfg now (hydrate cfg es now closed)).0 ≡ false)
unfolding hydrate is_open
hydrate_forgets cfg now opened es m tripped h = (
  ap (λ r. r.0) (is_open-manual cfg (record_entries cfg es closed) opened now m tripped),
  rw (filter_expired cfg now es h) refl,
)
