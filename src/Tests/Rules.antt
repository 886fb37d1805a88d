-- ===== src/Tests/Rules.antt =====
-- The rules of packages/core/src/policy on concrete payments.
use agentct.Base.{pos, ◌+ℤ◌, text_eq, codes, true, false, [], ◌∷◌, ◌≡◌, refl}
use agentct.Types.{AllowlistMode, RuleAction, AllowlistRule, TimeWindowRule}
use agentct.Policy.Rules.{RuleContext, check_spend_cap, check_allowlist, check_time_window}
use agentct.Policy.Rules.Outcomes.{blocks, passes}
use agentct.Policy.Evaluator.{fresh, context, observe, windowed_spend}
use agentct.Tests.Samples.{alice, bob, payment, parse_https, hourly_cap}

abbrev ctx : RuleContext
ctx = context (observe fresh (payment (pos 60) alice) 1000) (payment (pos 60) bob) 2000

abbrev shops : AllowlistRule
shops = record {
  mode = AllowlistMode.resources;
  entries = codes "shop.example" ∷ [];
  enforce = true;
}

abbrev at_night : TimeWindowRule
at_night = record { allowed_hours = (22, 6); action = RuleAction.block }

-- 60 units were spent, so another 60 go over the cap of 100.
cap_test : blocks (check_spend_cap hourly_cap ctx) ≡ true
unfolding check_spend_cap text_eq ◌+ℤ◌ windowed_spend observe
cap_test = refl

allowlist_test : passes (check_allowlist parse_https shops ctx) ≡ true
unfolding check_allowlist
allowlist_test = refl

night_test : blocks (check_time_window at_night ctx) ≡ false
unfolding check_time_window
night_test = refl
