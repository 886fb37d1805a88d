-- ===== src/Analytics.antt =====
-- packages/core/src/analytics.ts: an audit log summed up for an operator. The loop's variables are one
-- record; the two maps are lists in the order of insertion.
pub mod Totals
use agentct.Base.{
  ℕ, suc, ◌+◌, ltb, min, max, ℤ, pos, ◌+ℤ◌, ltb_ℤ, leb_ℤ, Text, lower, lookup, insert, or_else,
  take, Bool, true, false, Option, none, some, List, [], ◌∷◌, map, length, ◌==◌, if◌then◌else◌,
}
use agentct.Base.Double.{Double, zero_double}
use agentct.Base.Decimal.{int_text}
use agentct.Types.{Verdict, AuditEntry, PaymentRequest, Settlement}
use agentct.Behavioral.Numbers.{FloatOps}
use agentct.Breaker.{is_anomaly}

pub record VerdictCounts : Type 0 where
  pub allow : ℕ
  pub block : ℕ
  pub escalate : ℕ

pub record Spend : Type 0 where
  pub count : ℕ
  pub spend : ℤ

-- The variables of the loop.
pub record Tally : Type 0 where
  pub verdicts : VerdictCounts
  pub spend_by_token : List (Text × ℤ)
  pub counterparties : List (Text × Spend)
  pub settled : ℕ
  pub anomalies : ℕ
  pub first : Option ℕ
  pub last : Option ℕ

abbrev pub empty_tally : Tally
empty_tally = record {
  verdicts = record { allow = 0; block = 0; escalate = 0 };
  spend_by_token = [];
  counterparties = [];
  settled = 0;
  anomalies = 0;
  first = none;
  last = none;
}

-- `verdicts[e.decision.verdict]++`
unfoldable pub count_verdict : Verdict → VerdictCounts → VerdictCounts
count_verdict Verdict.allow c = record c { allow = c.allow + 1 }
count_verdict Verdict.block c = record c { block = c.block + 1 }
count_verdict Verdict.escalate c = record c { escalate = c.escalate + 1 }

abbrev pub is_settled : Option Settlement → Bool
is_settled none = false
is_settled (some s) = s.success

abbrev merge : (ℕ → ℕ → ℕ) → Option ℕ → ℕ → ℕ
merge f none t = t
merge f (some s) t = f s t

unfoldable pub add_spend : PaymentRequest → List (Text × ℤ) → List (Text × ℤ)
add_spend req spends =
    let token = lower req.token in
    insert token (or_else (lookup token spends) (pos 0) +ℤ req.amount) spends

unfoldable pub add_counterparty : PaymentRequest → List (Text × Spend) → List (Text × Spend)
add_counterparty req parties =
    let key = lower req.recipient in
    let cp = or_else (lookup key parties) (record { count = 0; spend = pos 0 }) in
    insert key (record { count = cp.count + 1; spend = cp.spend +ℤ req.amount }) parties

unfoldable pub add_settled : PaymentRequest → Tally → Tally
unfolding add_spend add_counterparty
add_settled req t = record t {
  settled = t.settled + 1;
  spend_by_token = add_spend req t.spend_by_token;
  counterparties = add_counterparty req t.counterparties;
}

-- One round of the loop.
unfoldable pub tally_entry : AuditEntry → Tally → Tally
unfolding count_verdict add_settled
tally_entry e t =
    let t' : Tally = record t {
      verdicts = count_verdict e.decision.verdict t.verdicts;
      anomalies = t.anomalies + (if is_anomaly e.decision.checks then 1 else 0);
      first = some (merge min t.first e.timestamp);
      last = some (merge max t.last e.timestamp);
    } in
    if is_settled e.settlement then add_settled e.request t' else t'

unfoldable pub tally : List AuditEntry → Tally → Tally
unfolding tally_entry
tally [] t = t
tally (e ∷ es) t = tally es (tally_entry e t)

pub record CounterpartyStat : Type 0 where
  pub recipient : Text
  pub count : ℕ
  pub total_spend : Text

-- A counterparty stands before those whose spend is no larger.
unfoldable pub insert_ranked : Text × Spend → List (Text × Spend) → List (Text × Spend)
insert_ranked p [] = p ∷ []
insert_ranked p (q ∷ qs) = if leb_ℤ q.1.spend p.1.spend then p ∷ q ∷ qs else q ∷ insert_ranked p qs

-- `sort` by the falling spend, which keeps the order of equal ones.
unfoldable pub rank : List (Text × Spend) → List (Text × Spend)
unfolding insert_ranked
rank [] = []
rank (p ∷ ps) = insert_ranked p (rank ps)

unfoldable pub top_counterparties : ℕ → List (Text × Spend) → List CounterpartyStat
unfolding rank int_text
top_counterparties n parties = take n (
    map
      (λ (p : Text × Spend). record {
        recipient = p.0;
        count = p.1.count;
        total_spend = int_text p.1.spend;
      })
      (rank parties))

pub record AnalyticsReport : Type 0 where
  pub total : ℕ
  pub verdicts : VerdictCounts
  pub settled : ℕ
  pub total_spend_by_token : List (Text × Text)
  pub top_counterparties : List CounterpartyStat
  pub anomalies : ℕ
  pub block_rate : Double
  pub escalate_rate : Double
  pub first_timestamp : Option ℕ
  pub last_timestamp : Option ℕ

-- `total ? n / total : 0`
unfoldable pub rate : FloatOps → ℕ → ℕ → Double
rate floats n total =
    if total == 0
    then zero_double
    else floats.div (floats.of_int (pos n)) (floats.of_int (pos total))

unfoldable pub report : FloatOps → List AuditEntry → (top_n : Option ℕ) → AnalyticsReport
unfolding tally top_counterparties rate
report floats entries top_n =
    let t = tally entries empty_tally in
    let total = length entries in
    record {
      total = total;
      verdicts = t.verdicts;
      settled = t.settled;
      total_spend_by_token = map (λ (p : Text × ℤ). (p.0, int_text p.1)) t.spend_by_token;
      top_counterparties = top_counterparties (or_else top_n 5) t.counterparties;
      anomalies = t.anomalies;
      block_rate = rate floats t.verdicts.block total;
      escalate_rate = rate floats t.verdicts.escalate total;
      first_timestamp = t.first;
      last_timestamp = t.last;
    }
