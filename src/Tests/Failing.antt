-- ===== src/Tests/Failing.antt =====
-- Three facilitators, the first of which cannot be reached.
use agentct.Base.{ℕ, zero, suc, ◌⊎◌, Option, none, some, List, [], ◌∷◌}
use agentct.X402.Failover.{try_all, AllThrew, Answered, try_all-cases}

-- The facilitators are numbered; each answers with its number.
abbrev reach : ℕ → Option ℕ
reach zero = none
reach (suc n) = some (suc n)

abbrev three : List ℕ
three = 0 ∷ 1 ∷ 2 ∷ []

try_all-cases_example :
    AllThrew reach three (try_all reach three) ⊎ Answered reach three (try_all reach three)
try_all-cases_example = try_all-cases reach three
