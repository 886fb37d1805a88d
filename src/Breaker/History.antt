-- ===== src/Breaker/History.antt =====
-- The pruned event list against the whole history: what the breaker keeps is the part of its
-- history that lies in the window, and it trips on exactly that part.
use agentct.Base.{
  ℕ, ◌≤◌, Bool, true, ◌||◌, Option, none, some, List, [], ◌∷◌, ◌++◌, append_assoc, ◌≡◌, refl, sym,
  ap, ◌∙◌, ◌↔◌, ◌⊎◌, inl, inr, arith, if◌then◌else◌, length, filter, filter-append, filter-filter,
  append-nil,
}
use mathlib.Core.Bool.{false≢true}
use agentct.Types.{Verdict, verdict_eq}
use agentct.Breaker.{
  Config, BreakerEvent, Breaker, in_window, count_events, reaches, should_trip, record_event,
}

-- The events in the window that ends at `now`.
abbrev pub windowed : Config → ℕ → List BreakerEvent → List BreakerEvent
windowed cfg now = filter (λ e. in_window cfg now e.ts)

record_event-events :
    (cfg : Config) (e : BreakerEvent) (b : Breaker)
    → (record_event cfg e.verdict e.anomaly e.ts b).events ≡ windowed cfg e.ts (b.events ++ e ∷ [])
unfolding record_event
record_event-events cfg e b = ground arith

-- The breaker's events are those of its history in the window that ended at `last`.
abbrev pub Tracks : Config → List BreakerEvent → ℕ → Breaker → Type 0
Tracks cfg past last b = b.events ≡ windowed cfg last past

pub windowed-windowed :
    (cfg : Config) (last now : ℕ) (es : List BreakerEvent)
    → last ≤ now
    → windowed cfg now (windowed cfg last es) ≡ windowed cfg now es
windowed-windowed cfg last now es h =
    filter-filter (λ e. in_window cfg now e.ts) (λ e. in_window cfg last e.ts) es
      (λ e k. ground arith)

record_event-Tracks :
    (cfg : Config) (past : List BreakerEvent) (last : ℕ) (b : Breaker) (e : BreakerEvent)
    → Tracks cfg past last b
    → last ≤ e.ts
    → Tracks cfg (past ++ e ∷ []) e.ts (record_event cfg e.verdict e.anomaly e.ts b)
record_event-Tracks cfg past last b e t h =
    record_event-events cfg e b
    ∙ ap (λ es. windowed cfg e.ts (es ++ e ∷ [])) t
    ∙ filter-append (λ x. in_window cfg e.ts x.ts) (windowed cfg last past) (e ∷ [])
    ∙ ap (λ es. es ++ windowed cfg e.ts (e ∷ [])) (windowed-windowed cfg last e.ts past h)
    ∙ sym (filter-append (λ x. in_window cfg e.ts x.ts) past (e ∷ []))

-- A history recorded event by event.
unfoldable pub record_all : Config → List BreakerEvent → Breaker → Breaker
record_all cfg [] b = b
record_all cfg (e ∷ es) b = record_all cfg es (record_event cfg e.verdict e.anomaly e.ts b)

-- Times that do not go back, from `last` on, and the last of them.
abbrev pub Forward : ℕ → List BreakerEvent → Type 0
Forward last [] = Unit
Forward last (e ∷ es) = (last ≤ e.ts) × Forward e.ts es

abbrev pub final : ℕ → List BreakerEvent → ℕ
final last [] = last
final last (e ∷ es) = final e.ts es

-- If a breaker holds the events of its history that lie in the window, then it does so after
-- recording further events whose times do not go back, however many were pruned on the way.
pub record_all-Tracks :
    (cfg : Config) (past : List BreakerEvent) (last : ℕ) (b : Breaker) (es : List BreakerEvent)
    → Tracks cfg past last b
    → Forward last es
    → Tracks cfg (past ++ es) (final last es) (record_all cfg es b)
unfolding record_all
record_all-Tracks cfg past last b [] t f = rw (append-nil past) t
record_all-Tracks cfg past last b (e ∷ es) t (h, f) = rw (← append_assoc past (e ∷ []) es) (
    record_all-Tracks cfg (past ++ e ∷ []) e.ts (record_event cfg e.verdict e.anomaly e.ts b) es
      (record_event-Tracks cfg past last b e t h) f)

-- A configured limit is met.
abbrev pub Meets : ℕ → Option ℕ → Type 0
Meets n limit = (m : ℕ) × (limit ≡ some m) × (m ≤ n)

abbrev pub TooMany : Config → List BreakerEvent → Type 0
TooMany cfg es =
    Meets (length (filter (λ e. verdict_eq e.verdict Verdict.block) es)) cfg.max_blocks
    ⊎ (Meets (length (filter (λ e. verdict_eq e.verdict Verdict.escalate) es)) cfg.max_escalations
        ⊎ Meets (length (filter (λ e. e.anomaly) es)) cfg.max_anomalies)

none≢some : {a : ℕ} → none ≡ some a → ⊥
none≢some h = cc

reaches_iff : (n : ℕ) (limit : Option ℕ) → (reaches n limit ≡ true) ↔ Meets n limit
reaches_iff n none = (λ h. absurd (false≢true h), λ m. absurd (none≢some m.1))
reaches_iff n (some limit) = (λ h. (limit, refl, ground arith), λ m. ground arith)

any_of_three_iff :
    (a b c : Bool) → ((a || b || c) ≡ true) ↔ ((a ≡ true) ⊎ ((b ≡ true) ⊎ (c ≡ true)))
any_of_three_iff a b c = ground arith

should_trip_iff :
    (cfg : Config) (es : List BreakerEvent) → (should_trip cfg es ≡ true) ↔ TooMany cfg es
unfolding should_trip
should_trip_iff cfg es =
    let c = count_events es in
    let blocks = reaches_iff c.blocks cfg.max_blocks in
    let escalations = reaches_iff c.escalations cfg.max_escalations in
    let anomalies = reaches_iff c.anomalies cfg.max_anomalies in
    let any =
      any_of_three_iff (reaches c.blocks cfg.max_blocks) (reaches c.escalations cfg.max_escalations)
        (reaches c.anomalies cfg.max_anomalies) in
    (
      λ h. elim (any.0 h) [
        | inl x ↦ inl (blocks.0 x)
        | inr y ↦ elim y [ inl x ↦ inr (inl (escalations.0 x)) | inr x ↦ inr (inr (anomalies.0 x)) ]
      ],
      λ t. any.1 (elim t [
        | inl x ↦ inl (blocks.1 x)
        | inr y ↦ elim y [ inl x ↦ inr (inl (escalations.1 x)) | inr x ↦ inr (inr (anomalies.1 x)) ]
      ]),
    )

if_some : {t : ℕ} (b : Bool) → (if b then some t else none) ≡ some t → b ≡ true
if_some b h = ground arith

record_event-opened_at :
    (cfg : Config) (e : BreakerEvent) (b : Breaker)
    → b.opened_at ≡ none
    → (record_event cfg e.verdict e.anomaly e.ts b).opened_at ≡ (
        if should_trip cfg (record_event cfg e.verdict e.anomaly e.ts b).events
        then some e.ts
        else none)
unfolding record_event
record_event-opened_at cfg e b h = ground arith

-- A closed breaker that tracks its history trips at a next event, not earlier than the last,
-- exactly when in the window that ends there the whole history holds as many blocks, escalations or
-- anomalies as a configured limit; the time it opens is the event's.
pub record_event-trips_iff :
    (cfg : Config) (past : List BreakerEvent) (last : ℕ) (b : Breaker) (e : BreakerEvent)
    → Tracks cfg past last b
    → last ≤ e.ts
    → b.opened_at ≡ none
    → ((record_event cfg e.verdict e.anomaly e.ts b).opened_at ≡ some e.ts)
      ↔ TooMany cfg (windowed cfg e.ts (past ++ e ∷ []))
record_event-trips_iff cfg past last b e t h c =
    let opened = record_event-opened_at cfg e b c in
    let kept = record_event-Tracks cfg past last b e t h in
    let trips = should_trip_iff cfg (windowed cfg e.ts (past ++ e ∷ [])) in
    (λ o. trips.0 (if_some _ (rw kept at (sym opened ∙ o))), λ m. opened ∙ rw kept (rw (trips.1 m)))
