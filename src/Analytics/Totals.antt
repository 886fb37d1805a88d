-- ===== src/Analytics/Totals.antt =====
-- The sums of a report, against sums over the log itself.
use agentct.Base.{
  ℕ, ◌+◌, ℤ, pos, ◌+ℤ◌, +ℤ_assoc, zero-+ℤ, Text, text_eq, text_eq_iff, lower, lookup, lookup-insert,
  or_else, Bool, ◌&&◌, Option, none, some, List, [], ◌∷◌, map, length, filter, ◌≡◌, refl, ap, ◌∙◌,
  inl, inr, arith, if◌then◌else◌, Bool-cases,
}
use agentct.Base.Decimal.{int_text}
use agentct.Types.{Verdict, verdict_eq, AuditEntry, PaymentRequest}
use agentct.Behavioral.Numbers.{FloatOps}
use agentct.Analytics.{
  VerdictCounts, Tally, empty_tally, count_verdict, is_settled, add_spend, add_settled, tally_entry,
  tally, report,
}

abbrev pub settles : AuditEntry → Bool
settles e = is_settled e.settlement

abbrev pub plus : Option ℤ → Option ℤ → Option ℤ
plus none o = o
plus (some a) none = some a
plus (some a) (some b) = some (a +ℤ b)

-- What the settled payments in a token come to, `none` if there are none.
abbrev pub spent_in : Text → List AuditEntry → Option ℤ
spent_in token [] = none
spent_in token (e ∷ es) =
    if settles e && text_eq (lower e.request.token) token
    then plus (some e.request.amount) (spent_in token es)
    else spent_in token es

plus_assoc : (a b c : Option ℤ) → plus (plus a b) c ≡ plus a (plus b c)
plus_assoc none b c = refl
plus_assoc (some a) none c = refl
plus_assoc (some a) (some b) none = refl
plus_assoc (some a) (some b) (some c) = ap some (+ℤ_assoc a b c)

lookup-add_spend :
    (req : PaymentRequest) (token : Text) (spends : List (Text × ℤ))
    → lookup token (add_spend req spends) ≡ (
        if text_eq (lower req.token) token
        then plus (lookup token spends) (some req.amount)
        else lookup token spends)
unfolding add_spend
lookup-add_spend req token spends =
    let key = lower req.token in
    let stored = or_else (lookup key spends) (pos 0) +ℤ req.amount in
    lookup-insert key token stored spends ∙ elim (Bool-cases (text_eq key token)) [
      | inl e ↦
          let same = (text_eq_iff key token).0 e in rw e (rw (← same) (added (lookup key spends)))
      | inr e ↦ rw e refl
    ]
  where
    added : (o : Option ℤ) → some (or_else o (pos 0) +ℤ req.amount) ≡ plus o (some req.amount)
    added none = ap some (zero-+ℤ req.amount)
    added (some a) = refl

lookup-tally :
    (token : Text) (es : List AuditEntry) (t : Tally)
    → lookup token (tally es t).spend_by_token
      ≡ plus (lookup token t.spend_by_token) (spent_in token es)
unfolding tally tally_entry add_settled
lookup-tally token [] t = plus_none (lookup token t.spend_by_token)
  where
    plus_none : (o : Option ℤ) → o ≡ plus o none
    plus_none none = refl
    plus_none (some a) = refl
lookup-tally token (e ∷ es) t =
    let before = lookup token t.spend_by_token in
    lookup-tally token es (tally_entry e t) ∙ elim (Bool-cases (settles e)) [
      | inr unsettled ↦ rw unsettled refl
      | inl settled ↦ elim (Bool-cases (text_eq (lower e.request.token) token)) [
        | inr other ↦ rw (settled, lookup-add_spend e.request token t.spend_by_token, other) refl
        | inl same ↦
            rw (settled, lookup-add_spend e.request token t.spend_by_token, same)
              (plus_assoc before (some e.request.amount) (spent_in token es))
      ]
    ]

abbrev pub of_verdict : Verdict → List AuditEntry → ℕ
of_verdict v es = length (filter (λ e. verdict_eq e.decision.verdict v) es)

abbrev counts_of : Verdict → VerdictCounts → VerdictCounts
counts_of v c = record {
  allow = c.allow + (if verdict_eq v Verdict.allow then 1 else 0);
  block = c.block + (if verdict_eq v Verdict.block then 1 else 0);
  escalate = c.escalate + (if verdict_eq v Verdict.escalate then 1 else 0);
}

count_verdict_lem : (v : Verdict) (c : VerdictCounts) → count_verdict v c ≡ counts_of v c
unfolding count_verdict
count_verdict_lem Verdict.allow c = ground arith
count_verdict_lem Verdict.block c = ground arith
count_verdict_lem Verdict.escalate c = ground arith

tally_entry-counts :
    (e : AuditEntry) (t : Tally)
    → ((tally_entry e t).verdicts ≡ counts_of e.decision.verdict t.verdicts)
      × ((tally_entry e t).settled ≡ t.settled + (if settles e then 1 else 0))
unfolding tally_entry add_settled
tally_entry-counts e t = elim (Bool-cases (settles e)) [
  | inl h ↦ rw h (count_verdict_lem e.decision.verdict t.verdicts, refl)
  | inr h ↦ rw h (count_verdict_lem e.decision.verdict t.verdicts, omega arith)
]

tally-counts :
    (es : List AuditEntry) (t : Tally)
    → ((tally es t).verdicts.allow ≡ t.verdicts.allow + of_verdict Verdict.allow es)
      × ((tally es t).verdicts.block ≡ t.verdicts.block + of_verdict Verdict.block es)
      × ((tally es t).verdicts.escalate ≡ t.verdicts.escalate + of_verdict Verdict.escalate es)
      × ((tally es t).settled ≡ t.settled + length (filter settles es))
unfolding tally
tally-counts [] t = omega arith
tally-counts (e ∷ es) t = ground (arith, tally-counts es (tally_entry e t), tally_entry-counts e t)

one_verdict :
    (v : Verdict)
    → (if verdict_eq v Verdict.allow then 1 else 0)
        + (if verdict_eq v Verdict.block then 1 else 0)
        + (if verdict_eq v Verdict.escalate then 1 else 0)
      ≡ 1
one_verdict Verdict.allow = refl
one_verdict Verdict.block = refl
one_verdict Verdict.escalate = refl

verdicts_partition :
    (es : List AuditEntry)
    → of_verdict Verdict.allow es + of_verdict Verdict.block es + of_verdict Verdict.escalate es
      ≡ length es
verdicts_partition [] = omega arith
verdicts_partition (e ∷ es) = ground (arith, verdicts_partition es, one_verdict e.decision.verdict)

abbrev pub shown : Option ℤ → Option Text
shown none = none
shown (some a) = some (int_text a)

lookup-shown :
    (token : Text) (spends : List (Text × ℤ))
    → lookup token (map (λ (p : Text × ℤ). (p.0, int_text p.1)) spends)
      ≡ shown (lookup token spends)
unfolding lookup
lookup-shown token [] = refl
lookup-shown token ((k, a) ∷ spends) = ground (arith, lookup-shown token spends)

-- A report counts every entry of the log under one verdict and counts the settled ones. The spend
-- that it gives for a token, named in lower case, is the decimal text of the sum of all settled
-- payments in that token, in any spelling of its letters; without such a payment the token is not
-- listed.
pub report_totals :
    (floats : FloatOps) (es : List AuditEntry) (top_n : Option ℕ) (token : Text)
    → let r = report floats es top_n in
      (r.verdicts.allow ≡ of_verdict Verdict.allow es)
      × (r.verdicts.block ≡ of_verdict Verdict.block es)
      × (r.verdicts.escalate ≡ of_verdict Verdict.escalate es)
      × (r.verdicts.allow + r.verdicts.block + r.verdicts.escalate ≡ r.total)
      × (r.settled ≡ length (filter settles es))
      × (lookup token r.total_spend_by_token ≡ shown (spent_in token es))
unfolding report lookup
report_totals floats es top_n token =
    let (a, b, c, d) = tally-counts es empty_tally in
    (
      omega (arith, a),
      omega (arith, b),
      omega (arith, c),
      omega (arith, a, b, c, verdicts_partition es),
      omega (arith, d),
      lookup-shown token (tally es empty_tally).spend_by_token
          ∙ ap shown (lookup-tally token es empty_tally),
    )
