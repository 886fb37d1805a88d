-- ===== src/Guard/Restart.antt =====
-- `hydrate` of packages/core/src/index.ts on a log that somebody may have edited: what the spend
-- windows of the rebuilt guard hold.
use agentct.Base.{
  ℕ, ◌≤◌, ◌-◌, leb, all, map, none, if◌then◌else◌, ℤ, pos, ◌+ℤ◌, +ℤ_assoc, zero-+ℤ, int_laws, Text,
  text_eq, lower, filter, Bool, true, false, not, ◌&&◌, ◌||◌, some, List, [], ◌∷◌, ◌++◌, ◌≡◌, refl,
  sym, ap, ◌∙◌, inl, inr, Bool-cases, arith,
}
use agentct.Types.{AuditEntry, SpendWindow}
use agentct.Policy.Evaluator.{Evaluator, fresh, after_cutoff, windowed_spend}
use agentct.Policy.Evaluator
use agentct.Policy.Evaluator.Windows.{amount_if, windowed_spend-observe}
use agentct.Policy.Evaluator.Restart.{observe_all, IsRolling, windowed_spend-hydrate}
use agentct.Guard.State.{Outside, GuardConfig, Guard}
use agentct.Base.Sorting.{sort_by, insert_by}
use agentct.Audit.Store.{Row, Table, list_since}
use agentct.Guard.Rehydration.{is_intact, succeeded, replay, hydrate, hydrate_log}

exchange : (a b c : ℤ) → a +ℤ (b +ℤ c) ≡ b +ℤ (a +ℤ c)
exchange a b c = omega int_laws

no_spend :
    (window : SpendWindow) (token : Text) (now : ℕ) → windowed_spend fresh now window token ≡ pos 0
unfolding windowed_spend
no_spend window token now = refl

module _ (window : SpendWindow) (token : Text) (now : ℕ) where
  -- The row's payment is in the token and inside the window.
  abbrev pub is_live : AuditEntry → Bool
  is_live e = text_eq (lower e.request.token) (lower token) && after_cutoff window now e.timestamp

  -- What rows add to the window, if their money moved.
  abbrev pub charges : List AuditEntry → ℤ
  charges [] = pos 0
  charges (e ∷ es) = amount_if (is_live e) e.request.amount +ℤ charges es

  charges-append : (es fs : List AuditEntry) → charges (es ++ fs) ≡ charges es +ℤ charges fs
  charges-append [] fs = omega int_laws
  charges-append (e ∷ es) fs =
      let own = amount_if (is_live e) e.request.amount in
      ap (λ s. own +ℤ s) (charges-append es fs) ∙ sym (+ℤ_assoc own (charges es) (charges fs))

  charges-observe_all :
      (es : List AuditEntry) (ev : Evaluator.Evaluator)
      → windowed_spend (observe_all es ev) now window token
        ≡ windowed_spend ev now window token +ℤ charges es
  unfolding observe_all
  charges-observe_all [] ev = omega int_laws
  charges-observe_all (e ∷ es) ev =
      charges-observe_all es (Evaluator.observe ev e.request e.timestamp)
      ∙ ap (λ s. s +ℤ charges es) (windowed_spend-observe ev e.request e.timestamp now window token)
      ∙ +ℤ_assoc (windowed_spend ev now window token) (amount_if (is_live e) e.request.amount)
          (charges es)

  -- Which parts of a list a sum ranges over does not matter.
  charges-partition :
      (p q : AuditEntry → Bool) (es : List AuditEntry)
      → charges (filter q (filter p es) ++ filter (λ (e : AuditEntry). not (p e)) es)
        ≡ charges (filter (λ (e : AuditEntry). not (p e) || q e) es)
  charges-partition p q es =
      charges-append (filter q (filter p es)) (filter (λ (e : AuditEntry). not (p e)) es) ∙ parts es
    where
      parts :
          (es : List AuditEntry)
          → charges (filter q (filter p es)) +ℤ charges (filter (λ (e : AuditEntry). not (p e)) es)
            ≡ charges (filter (λ (e : AuditEntry). not (p e) || q e) es)
      parts [] = zero-+ℤ (pos 0)
      parts (e ∷ es) =
          let own = amount_if (is_live e) e.request.amount in
          let settled_rest = charges (filter q (filter p es)) in
          let edited_rest = charges (filter (λ (r : AuditEntry). not (p r)) es) in
          elim (Bool-cases (p e)) [
            | inl intact ↦ elim (Bool-cases (q e)) [
              | inl done ↦
                  rw intact (
                    rw done (+ℤ_assoc own settled_rest edited_rest ∙ ap (λ s. own +ℤ s) (parts es)))
              | inr open_ended ↦ rw intact (rw open_ended (parts es))
            ]
            | inr edited ↦
                rw edited (exchange settled_rest own edited_rest ∙ ap (λ s. own +ℤ s) (parts es))
          ]

module _ (out : Outside) (cfg : GuardConfig) where
  -- The rows that count: those that show an edit, and the settled ones among the others.
  abbrev pub is_charged : AuditEntry → Bool
  is_charged e = not (is_intact out cfg e) || succeeded out cfg e

  rebuilt-charges :
      (rows : List AuditEntry) (start now : ℕ) (g : Guard) (window : SpendWindow) (token : Text)
      → g.evaluator ≡ fresh
      → IsRolling window
      → start ≤ now
      → windowed_spend (Evaluator.hydrate rows start g.evaluator) now window token
        ≡ charges window token now rows
  rebuilt-charges rows start now g window token cold rolling later =
      ap
        (λ (ev : Evaluator.Evaluator).
          windowed_spend (Evaluator.hydrate rows start ev) now window token)
        cold
      ∙ windowed_spend-hydrate rows start now window token rolling later
      ∙ charges-observe_all window token now rows fresh
      ∙ ap (λ s. s +ℤ charges window token now rows) (no_spend window token now)
      ∙ zero-+ℤ (charges window token now rows)

  -- A guard with a fresh evaluator that starts on a log, edited or not, holds from then on in the
  -- hour and day windows the amounts of exactly these rows of the token and the window: every row
  -- that does not match its recorded hash, whatever it says of its settlement, and of the others
  -- those that record a success.
  pub hydrate-charges :
      (rows : List AuditEntry) (start breaker_at now : ℕ) (g : Guard) (window : SpendWindow)
      (token : Text)
      → g.evaluator ≡ fresh
      → IsRolling window
      → start ≤ now
      → windowed_spend (hydrate out cfg (some rows) start breaker_at g).1.evaluator now window token
        ≡ charges window token now (filter is_charged rows)
  unfolding hydrate replay
  hydrate-charges [] start breaker_at now g window token cold rolling later =
      ap (λ (ev : Evaluator.Evaluator). windowed_spend ev now window token) cold
      ∙ no_spend window token now
  hydrate-charges (e ∷ es) start breaker_at now g window token cold rolling later =
      let rows = e ∷ es in
      let intact = filter (is_intact out cfg) rows in
      let tampered = filter (λ (r : AuditEntry). not (is_intact out cfg r)) rows in
      rebuilt-charges (filter (succeeded out cfg) intact ++ tampered) start now g window token cold
        rolling later
      ∙ charges-partition window token now (is_intact out cfg) (succeeded out cfg) rows

  abbrev rest_of : SpendWindow → Text → ℕ → (Row → Bool) → Table → ℤ
  rest_of window token now p rows =
      charges window token now (filter is_charged (map (λ (row : Row). row.entry) (filter p rows)))

  -- Two rows that both count, for the same amount, in the same place.
  swap-charges :
      (p : Row → Bool) (before after : Table) (r r' : Row) (window : SpendWindow) (token : Text)
      (now : ℕ)
      → p r' ≡ p r
      → is_charged r.entry ≡ true
      → is_charged r'.entry ≡ true
      → amount_if (is_live window token now r'.entry) r'.entry.request.amount
        ≡ amount_if (is_live window token now r.entry) r.entry.request.amount
      → rest_of window token now p (before ++ r' ∷ after)
        ≡ rest_of window token now p (before ++ r ∷ after)
  swap-charges p [] after r r' window token now found h h' same = elim (Bool-cases (p r)) [
    | inl read ↦
        rw (found ∙ read, read, h, h') (ap (λ s. s +ℤ rest_of window token now p after) same)
    | inr skipped ↦ rw (found ∙ skipped, skipped) refl
  ]
  swap-charges p (b ∷ before) after r r' window token now found h h' same =
      let rest = swap-charges p before after r r' window token now found h h' same in
      elim (Bool-cases (p b)) [
        | inr skipped ↦ rw skipped rest
        | inl read ↦ elim (Bool-cases (is_charged b.entry)) [
          | inl kept ↦ rw read (
              rw kept (
                ap (λ s. amount_if (is_live window token now b.entry) b.entry.request.amount +ℤ s)
                  rest))
          | inr dropped ↦ rw read (rw dropped rest)
        ]
      ]

  -- The order in which rows are read does not matter.
  charges-insert_by :
      (window : SpendWindow) (token : Text) (now : ℕ) (q : AuditEntry → Bool) (e : AuditEntry)
      (es : List AuditEntry)
      → charges window token now (filter q (insert_by (λ (x : AuditEntry). x.timestamp) e es))
        ≡ charges window token now (filter q (e ∷ es))
  unfolding insert_by
  charges-insert_by window token now q e [] = refl
  charges-insert_by window token now q e (x ∷ es) =
      let rest = charges-insert_by window token now q e es in
      let own = amount_if (is_live window token now e) e.request.amount in
      let first = amount_if (is_live window token now x) x.request.amount in
      elim (Bool-cases (leb e.timestamp x.timestamp)) [
        | inl before ↦ rw before refl
        | inr behind ↦ elim (Bool-cases (q x)) [
          | inr dropped ↦ rw (behind, dropped) rest
          | inl kept ↦ elim (Bool-cases (q e)) [
            | inl chosen ↦
                rw (behind, kept, chosen)
                  (ap (λ s. first +ℤ s) (rw chosen at rest)
                    ∙ exchange first own (charges window token now (filter q es)))
            | inr unchosen ↦
                rw (behind, kept, unchosen) (ap (λ s. first +ℤ s) (rw unchosen at rest))
          ]
        ]
      ]

  charges-sort_by :
      (window : SpendWindow) (token : Text) (now : ℕ) (q : AuditEntry → Bool) (es : List AuditEntry)
      → charges window token now (filter q (sort_by (λ (x : AuditEntry). x.timestamp) es))
        ≡ charges window token now (filter q es)
  unfolding sort_by
  charges-sort_by window token now q [] = refl
  charges-sort_by window token now q (e ∷ es) =
      let rest = charges-sort_by window token now q es in
      charges-insert_by window token now q e (sort_by (λ (x : AuditEntry). x.timestamp) es)
      ∙ elim (Bool-cases (q e)) [
        | inl kept ↦
            rw kept (ap (λ s. amount_if (is_live window token now e) e.request.amount +ℤ s) rest)
        | inr dropped ↦ rw dropped rest
      ]

  -- What `list_since` lets through.
  abbrev is_read : ℕ → Row → Bool
  is_read since row = text_eq row.entry.agent_id cfg.agent_id && leb since row.entry.timestamp

  -- The windows behind a start on a table that can be read.
  log-charges :
      (readable : AuditEntry → Bool) (table : Table) (lookback read_at start breaker_at now : ℕ)
      (g : Guard) (window : SpendWindow) (token : Text)
      → all readable (list_since cfg.agent_id (read_at - lookback) table) ≡ true
      → g.evaluator ≡ fresh
      → IsRolling window
      → start ≤ now
      → windowed_spend
          (hydrate_log out cfg readable lookback read_at start breaker_at table g).1.evaluator
          now
          window
          token
        ≡ rest_of window token now (is_read (read_at - lookback)) table
  unfolding hydrate_log list_since
  log-charges readable table lookback read_at start breaker_at now g window token good cold rolling
        later =
      let rows = list_since cfg.agent_id (read_at - lookback) table in
      ap
        (λ (b : Bool).
          windowed_spend
            (hydrate out cfg (if b then some rows else none) start breaker_at g).1.evaluator now
            window token)
        good
      ∙ hydrate-charges rows start breaker_at now g window token cold rolling later
      ∙ charges-sort_by window token now is_charged
          (map (λ (row : Row). row.entry) (filter (is_read (read_at - lookback)) table))

  -- If a row that records a success is edited so that it no longer matches its hash, but keeps its
  -- amount, token and time and stays the agent's, then a guard with a fresh evaluator that starts on
  -- the edited log holds the same spend in the hour and day windows as on the log before, from the
  -- start on, whatever the lookback. Every row that is read must be readable, in both logs: JSON that
  -- does not parse, or that no hash can be computed of, is excluded.
  pub hydrate_log-edited :
      (readable : AuditEntry → Bool) (before after : Table) (r r' : Row)
      (lookback read_at start breaker_at now : ℕ) (g : Guard) (window : SpendWindow) (token : Text)
      → all readable (list_since cfg.agent_id (read_at - lookback) (before ++ r ∷ after)) ≡ true
      → all readable (list_since cfg.agent_id (read_at - lookback) (before ++ r' ∷ after)) ≡ true
      → succeeded out cfg r.entry ≡ true
      → is_intact out cfg r'.entry ≡ false
      → r'.entry.agent_id ≡ r.entry.agent_id
      → r'.entry.request.amount ≡ r.entry.request.amount
      → r'.entry.request.token ≡ r.entry.request.token
      → r'.entry.timestamp ≡ r.entry.timestamp
      → g.evaluator ≡ fresh
      → IsRolling window
      → start ≤ now
      → let held : Table → ℤ = λ table.
        windowed_spend
          (hydrate_log out cfg readable lookback read_at start breaker_at table g).1.evaluator
          now
          window
          token in
        held (before ++ r' ∷ after) ≡ held (before ++ r ∷ after)
  hydrate_log-edited readable before after r r' lookback read_at start breaker_at now g window token
        good good' done edited agent amount tok time cold rolling later =
      log-charges readable (before ++ r' ∷ after) lookback read_at start breaker_at now g window
        token good' cold rolling later
      ∙ swap-charges (is_read (read_at - lookback)) before after r r' window token now
          (cc (agent, time)) (ground arith) (ground arith) (cc (amount, tok, time))
      ∙ sym (
          log-charges readable (before ++ r ∷ after) lookback read_at start breaker_at now g window
            token good cold rolling later)
