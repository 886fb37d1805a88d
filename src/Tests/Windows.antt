-- ===== src/Tests/Windows.antt =====
-- The evaluator's windows, restarts and backtests on a short log.
use agentct.Base.{ℕ, ◌+◌, ◌*◌, pos, List, [], ◌∷◌, ◌≡◌, refl, inr, arith}
use agentct.Types.{AuditEntry, SpendWindow}
use agentct.Policy.Evaluator.{fresh, hydrate, windowed_spend}
use agentct.Policy.Evaluator.Restart.{observe_all, windowed_spend-hydrate}
use agentct.Policy.Simulate.{simulate_policy}
use agentct.Policy.Simulate.Timing.{retime, simulate_policy-retime}
use agentct.Tests.Samples.{usdc, alice, bob, payment, parse_https, rules, allowing, entry}

abbrev paid : AuditEntry
paid = entry 1000 (payment (pos 60) alice) allowing

abbrev paid_again : AuditEntry
paid_again = entry 5000 (payment (pos 30) bob) allowing

abbrev history : List AuditEntry
history = paid ∷ paid_again ∷ []

windowed_spend-hydrate_example :
    windowed_spend (hydrate history 6000 fresh) 7000 SpendWindow.day usdc
    ≡ windowed_spend (observe_all history fresh) 7000 SpendWindow.day usdc
windowed_spend-hydrate_example =
    windowed_spend-hydrate history 6000 7000 SpendWindow.day usdc (inr refl) (omega arith)

abbrev clock : ℕ → ℕ
clock k = 9000 + k

-- A day between the two payments, or four seconds.
abbrev a_day_apart : AuditEntry → ℕ
a_day_apart e = e.timestamp * 21600

simulate_policy-retime_example :
    simulate_policy parse_https clock rules (retime a_day_apart history)
    ≡ simulate_policy parse_https clock rules history
simulate_policy-retime_example =
    simulate_policy-retime parse_https clock rules a_day_apart history ((omega arith, tt), (tt, tt))
      ((omega arith, tt), (tt, tt))
