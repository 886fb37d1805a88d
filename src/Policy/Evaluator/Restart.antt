-- ===== src/Policy/Evaluator/Restart.antt =====
-- Enforcement state across a restart: an evaluator rebuilt from the audit log against the one that
-- saw every payment settle.
use agentct.Base.{
  ℕ, ◌+◌, ◌*◌, ◌≤◌, ◌<◌, ltb, pos, Text, lower, includes, set_add, filter, length, Bool, true,
  false, ◌⊎◌, List, [], ◌∷◌, ◌++◌, append_assoc, append-nil, ◌≡◌, refl, sym, ap, ◌∙◌, arith,
  if◌then◌else◌, All,
}
use agentct.Types.{AuditEntry, SpendWindow}
use agentct.Policy.Evaluator.{
  SpendRecord, Evaluator, fresh, day_ms, counted, windowed_spend, recent_payment_count, observe,
  hydrate_entry, hydrate_entries, hydrate,
}
use agentct.Policy.Evaluator.Windows.{
  spend, windowed_spend-eq, observed, spend-sort_by, count-sort_by,
}

-- The evaluator that observed each payment as it settled, at the time that the log records.
unfoldable pub observe_all : List AuditEntry → Evaluator → Evaluator
observe_all [] ev = ev
observe_all (e ∷ es) ev = observe_all es (observe ev e.request e.timestamp)

replayed : AuditEntry → SpendRecord
replayed e = record {
  ts = e.timestamp;
  amount = e.request.amount;
  token = lower e.request.token;
  hydrated = true;
}

abbrev recent : ℕ → AuditEntry → Bool
recent now e = ltb now (e.timestamp + day_ms)

-- What each of the two writes down of a log.
abbrev replays : ℕ → List AuditEntry → List SpendRecord
replays now [] = []
replays now (e ∷ es) = (if recent now e then replayed e ∷ [] else []) ++ replays now es

abbrev lives : List AuditEntry → List SpendRecord
lives [] = []
lives (e ∷ es) = observed e.request e.timestamp ∷ lives es

abbrev met : List AuditEntry → List Text → List Text
met [] seen = seen
met (e ∷ es) seen = met es (set_add (lower e.request.recipient) seen)

hydrate_entries-eq :
    (now : ℕ) (es : List AuditEntry) (ev : Evaluator)
    → ((hydrate_entries now es ev).payments ≡ ev.payments ++ replays now es)
      × ((hydrate_entries now es ev).seen ≡ met es ev.seen)
unfolding hydrate_entries replayed
hydrate_entries-eq now [] ev = (sym (append-nil ev.payments), refl)
hydrate_entries-eq now (e ∷ es) ev = ground (
  arith,
  hydrate_entries-eq now es (hydrate_entry now e ev),
  append_assoc ev.payments (replayed e ∷ []) (replays now es),
)

observe_all-eq :
    (es : List AuditEntry) (ev : Evaluator)
    → ((observe_all es ev).payments ≡ ev.payments ++ lives es)
      × ((observe_all es ev).seen ≡ met es ev.seen)
unfolding observe_all observe
observe_all-eq [] ev = (sym (append-nil ev.payments), refl)
observe_all-eq (e ∷ es) ev =
    let later = observe_all-eq es (observe ev e.request e.timestamp) in
    (later.0 ∙ append_assoc ev.payments (observed e.request e.timestamp ∷ []) (lives es), later.1)

-- Two tests that agree on what is recent, and of which the second needs it.
module _ (now : ℕ) (c : SpendRecord → Bool)
    (same : (e : AuditEntry)
      → recent now e ≡ true
      → c (replayed e) ≡ c (observed e.request e.timestamp))
    (needed : (e : AuditEntry)
      → recent now e ≡ false
      → c (observed e.request e.timestamp) ≡ false) where
  spend-replays :
      (es : List AuditEntry) → spend (filter c (replays now es)) ≡ spend (filter c (lives es))
  unfolding replayed
  spend-replays [] = refl
  spend-replays (e ∷ es) = ground (arith, same e, needed e, spend-replays es)

  count-replays :
      (es : List AuditEntry) → length (filter c (replays now es)) ≡ length (filter c (lives es))
  unfolding replayed
  count-replays [] = refl
  count-replays (e ∷ es) = ground (arith, same e, needed e, count-replays es)

-- The windows that look back a fixed time.
abbrev pub IsRolling : SpendWindow → Type 0
IsRolling window = (window ≡ SpendWindow.hour) ⊎ (window ≡ SpendWindow.day)

counted-replayed :
    (window : SpendWindow) (t : Text) (now : ℕ) (e : AuditEntry)
    → IsRolling window
    → counted window t now (replayed e) ≡ counted window t now (observed e.request e.timestamp)
unfolding counted replayed
counted-replayed window t now e rolling = ground arith

counted_old :
    (window : SpendWindow) (t : Text) (start now : ℕ) (e : AuditEntry)
    → IsRolling window
    → start ≤ now
    → recent start e ≡ false
    → counted window t now (observed e.request e.timestamp) ≡ false
unfolding counted
counted_old window t start now e rolling h old = ground arith

-- An evaluator rebuilt at `start` from the log's settled payments holds, in the hour and the day
-- window and at every later time, exactly what the evaluator that observed each of them at its time
-- holds.
pub windowed_spend-hydrate :
    (es : List AuditEntry) (start now : ℕ) (window : SpendWindow) (token : Text)
    → IsRolling window
    → start ≤ now
    → windowed_spend (hydrate es start fresh) now window token
      ≡ windowed_spend (observe_all es fresh) now window token
unfolding hydrate
windowed_spend-hydrate es start now window token rolling h =
    let c = counted window (lower token) now in
    windowed_spend-eq (hydrate es start fresh) now window token
    ∙ spend-sort_by (λ p. p.ts) c (hydrate_entries start es fresh).payments
    ∙ ap (λ ps. spend (filter c ps)) (hydrate_entries-eq start es fresh).0
    ∙ spend-replays start c (λ e _. counted-replayed window (lower token) now e rolling)
        (λ e. counted_old window (lower token) start now e rolling h) es
    ∙ ap (λ ps. spend (filter c ps)) (sym (observe_all-eq es fresh).0)
    ∙ sym (windowed_spend-eq (observe_all es fresh) now window token)

-- An evaluator rebuilt from the log knows the same counterparties as the one that observed each
-- payment, however long ago they were paid.
pub includes-hydrate :
    (es : List AuditEntry) (start : ℕ) (addr : Text)
    → includes (hydrate es start fresh).seen addr ≡ includes (observe_all es fresh).seen addr
unfolding hydrate
includes-hydrate es start addr =
    ap (λ ss. includes ss addr)
      ((hydrate_entries-eq start es fresh).1 ∙ sym (observe_all-eq es fresh).1)

abbrev in_seconds : ℕ → ℕ → SpendRecord → Bool
in_seconds now window_seconds p = ltb now (p.ts + window_seconds * 1000)

count-hydrate :
    (es : List AuditEntry) (start now window_seconds : ℕ)
    → recent_payment_count (hydrate es start fresh) now window_seconds
      ≡ length (filter (in_seconds now window_seconds) (replays start es))
unfolding hydrate recent_payment_count
count-hydrate es start now window_seconds =
    count-sort_by (λ p. p.ts) (in_seconds now window_seconds)
      (hydrate_entries start es fresh).payments
    ∙ ap (λ ps. length (filter (in_seconds now window_seconds) ps))
        (hydrate_entries-eq start es fresh).0

count-observe_all :
    (es : List AuditEntry) (now window_seconds : ℕ)
    → recent_payment_count (observe_all es fresh) now window_seconds
      ≡ length (filter (in_seconds now window_seconds) (lives es))
unfolding recent_payment_count
count-observe_all es now window_seconds =
    ap (λ ps. length (filter (in_seconds now window_seconds) ps)) (observe_all-eq es fresh).0

count-same :
    (now window_seconds : ℕ) (e : AuditEntry)
    → in_seconds now window_seconds (replayed e)
      ≡ in_seconds now window_seconds (observed e.request e.timestamp)
unfolding replayed
count-same now window_seconds e = refl

count_old :
    (start now window_seconds : ℕ) (e : AuditEntry)
    → window_seconds * 1000 ≤ day_ms
    → start ≤ now
    → recent start e ≡ false
    → in_seconds now window_seconds (observed e.request e.timestamp) ≡ false
count_old start now window_seconds e short h old = ground arith

-- For a rate limit over a day or less, an evaluator rebuilt from the log counts from then on the
-- same payments as the evaluator that observed each of them.
pub recent_payment_count-hydrate :
    (es : List AuditEntry) (start now window_seconds : ℕ)
    → window_seconds * 1000 ≤ day_ms
    → start ≤ now
    → recent_payment_count (hydrate es start fresh) now window_seconds
      ≡ recent_payment_count (observe_all es fresh) now window_seconds
recent_payment_count-hydrate es start now window_seconds short h =
    count-hydrate es start now window_seconds
    ∙ count-replays start (in_seconds now window_seconds) (λ e _. count-same now window_seconds e)
        (λ e. count_old start now window_seconds e short h) es
    ∙ sym (count-observe_all es now window_seconds)

-- For a rate limit over more than a day: a payment that settled a day or more before the restart,
-- and still lies in the limit's window, is counted by the evaluator that observed it, and by the
-- rebuilt one it is not.
pub recent_payment_count_forgets :
    (e : AuditEntry) (es : List AuditEntry) (start window_seconds : ℕ)
    → e.timestamp + day_ms ≤ start
    → start < e.timestamp + window_seconds * 1000
    → (recent_payment_count (hydrate (e ∷ es) start fresh) start window_seconds
        ≡ recent_payment_count (hydrate es start fresh) start window_seconds)
      × (recent_payment_count (observe_all (e ∷ es) fresh) start window_seconds
          ≡ recent_payment_count (observe_all es fresh) start window_seconds + 1)
recent_payment_count_forgets e es start window_seconds old inside = (
  rw (count-hydrate (e ∷ es) start start window_seconds)
      (rw (count-hydrate es start start window_seconds) (ground arith)),
  rw (count-observe_all (e ∷ es) start window_seconds)
      (rw (count-observe_all es start window_seconds) (ground arith)),
)

replays-hydrated : (now : ℕ) (es : List AuditEntry) → All (λ p. p.hydrated ≡ true) (replays now es)
unfolding replayed
replays-hydrated now [] = tt
replays-hydrated now (e ∷ es) = ground (arith, replays-hydrated now es)

spend-filter_session :
    (now : ℕ) (t : Text) (ps : List SpendRecord)
    → All (λ p. p.hydrated ≡ true) ps
    → spend (filter (counted SpendWindow.session t now) ps) ≡ pos 0
unfolding counted
spend-filter_session now t [] h = refl
spend-filter_session now t (p ∷ ps) (h, hs) = ground (arith, spend-filter_session now t ps hs)

-- The session window is this process's run: nothing that is replayed counts in it.
pub windowed_spend-hydrate_session :
    (es : List AuditEntry) (start now : ℕ) (token : Text)
    → windowed_spend (hydrate es start fresh) now SpendWindow.session token ≡ pos 0
unfolding hydrate
windowed_spend-hydrate_session es start now token =
    let c = counted SpendWindow.session (lower token) now in
    windowed_spend-eq (hydrate es start fresh) now SpendWindow.session token
    ∙ spend-sort_by (λ p. p.ts) c (hydrate_entries start es fresh).payments
    ∙ ap (λ ps. spend (filter c ps)) (hydrate_entries-eq start es fresh).0
    ∙ spend-filter_session now (lower token) (replays start es) (replays-hydrated start es)
