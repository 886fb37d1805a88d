-- ===== src/Tests/Reporting.antt =====
-- A policy written and read, and a report on three rows.
use agentct.Base.{
  ◌+◌, ◌+ℤ◌, pos, codes, text_eq, lower, lookup, length, filter, none, some, List, [], ◌∷◌, ◌≡◌,
  refl,
}
use agentct.Base.Js.{Value, obj, arr, str, big, field, no_fields, element, no_values, num, member}
use agentct.Base.Double.{one_double, is_finite}
use agentct.Base.Decimal.{int_text}
use agentct.Types.{AuditEntry, Verdict}
use agentct.Policy.Serde.{Json, encode, policy_to_json, policy_from_json}
use agentct.Policy.Serde.RoundTrip.{plain, policy_from_json-policy_to_json}
use agentct.Analytics.{report}
use agentct.Analytics.Totals.{of_verdict, settles, spent_in, shown, report_totals}
use agentct.Tests.Samples.{alice, bob, payment, allowing, blocking, entry, floats, usdc}

-- An hourly cap, as the object that the compiler makes.
abbrev cap : Value
cap = obj (
    field (codes "type") (str (codes "spend-cap"))
      (field (codes "maxAmount") (big (pos 1205)) no_fields))

abbrev policy : Value
policy = obj (
    field (codes "agentId") (str (codes "agent")) (
      field (codes "rules") (arr (element cap no_values))
        (field (codes "anomalyThreshold") (num one_double) no_fields)))

abbrev json : Json
json = record {
  print = λ v. codes "{}";
  parse = λ t. some (encode policy);
  int_of_other = λ v. none;
}

policy_from_json-policy_to_json_example :
    policy_from_json json (policy_to_json json policy) ≡ some policy
unfolding plain member text_eq is_finite
policy_from_json-policy_to_json_example = policy_from_json-policy_to_json json policy refl refl

abbrev log : List AuditEntry
log =
    entry 1000 (payment (pos 60) alice) allowing
    ∷ record (entry 2000 (payment (pos 500) alice) blocking) { settlement = none }
    ∷ entry 3000 (payment (pos 15) bob) allowing
    ∷ []

report_totals_example :
    let r = report floats log none in
    (r.verdicts.allow ≡ of_verdict Verdict.allow log)
    × (r.verdicts.block ≡ of_verdict Verdict.block log)
    × (r.verdicts.escalate ≡ of_verdict Verdict.escalate log)
    × (r.verdicts.allow + r.verdicts.block + r.verdicts.escalate ≡ r.total)
    × (r.settled ≡ length (filter settles log))
    × (lookup (lower usdc) r.total_spend_by_token ≡ shown (spent_in (lower usdc) log))
report_totals_example = report_totals floats log none (lower usdc)

spent : shown (spent_in (lower usdc) log) ≡ some (codes "75")
unfolding lower int_text text_eq ◌+ℤ◌
spent = refl
