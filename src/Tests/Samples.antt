-- ===== src/Tests/Samples.antt =====
-- The data that the tests share: one agent, two shops and stand-ins for what lies outside.
use agentct.Base.{
  ℕ, ◌+◌, ℤ, pos, Text, codes, starts_with, drop, length, true, Option, none, some, List, [], ◌∷◌,
  ◌++◌, ◌==◌, if◌then◌else◌,
}
use agentct.Base.Double.{zero_double, one_double}
use agentct.Types.{
  PaymentRequest, PolicyDecision, PolicyRule, SpendCapRule, RateLimitRule, SpendWindow, Settlement,
  AuditEntry, Verdict, Reason, AnomalyAction,
}
use agentct.Policy.Allowlist.{Url}
use agentct.Policy.Evaluator
use agentct.Policy.Evaluator.{Evaluator}
use agentct.Audit.Hash.{CanonicalSettlement}
use agentct.Behavioral.Numbers.{FloatOps}
use agentct.Behavioral.Scorer.{Options, new_scorer}
use agentct.Breaker.{Config}
use agentct.Intent.Reconcile.{Reply}
use agentct.X402.Inspect.{Payload}
use agentct.Guard.State.{Outside, GuardConfig, Guard, Instants}

abbrev pub usdc : Text
usdc = codes "0x036CbD53842c5426634e7929541eC2318f3dCF7e"

abbrev pub alice : Text
alice = codes "0x00000000000000000000000000000000000000a1"

abbrev pub bob : Text
bob = codes "0x00000000000000000000000000000000000000b2"

abbrev pub chain_id : Text
chain_id = codes "eip155:84532"

abbrev pub shop_url : Text
shop_url = codes "https://api.shop.example/v1/quote"

-- A payment of so many units, for the shop's resource.
abbrev pub payment : ℤ → Text → PaymentRequest
payment amount to = record {
  intent = codes "a quote";
  amount = amount;
  token = usdc;
  recipient = to;
  chain = chain_id;
  agent_id = codes "agent";
  resource_url = some shop_url;
}

abbrev until_slash : Text → Text
until_slash [] = []
until_slash (c ∷ s) = if c == 47 then [] else c ∷ until_slash s

-- A parser for plain https addresses, which stands in for the platform's.
abbrev pub parse_https : Text → Option Url
parse_https s =
    if starts_with s (codes "https://")
    then some (record {
      host = until_slash (drop 8 s);
      pathname = drop (8 + length (until_slash (drop 8 s))) s;
    })
    else none

-- Integer arithmetic in the place of the platform's.
abbrev pub floats : FloatOps
floats = record {
  of_int = λ n. zero_double;
  add = λ x y. record { bits = x.bits + y.bits };
  sub = λ x y. x;
  mul = λ x y. x;
  div = λ x y. x;
  pow = λ x y. x;
  sqrt = λ x. x;
  log = λ x. x;
  log2 = λ x. x;
  floor = λ x. x.bits;
  ceil = λ x. x.bits;
}

abbrev pub options : Options
options = record {
  forest_min_observations = some 2;
  forest_retrain_interval = none;
  forest = record { trees = some 1; sample_size = none; seed = some 7 };
  ewma_alpha = none;
  z_warn_threshold = none;
  z_critical_threshold = none;
  forest_warn_threshold = none;
  forest_critical_threshold = none;
}

-- At most 100 units an hour.
abbrev pub hourly_cap : SpendCapRule
hourly_cap = record {
  window = SpendWindow.hour;
  max_amount = pos 100;
  token = usdc;
  escalate_above = some (pos 50);
}

abbrev pub two_a_minute : RateLimitRule
two_a_minute = record { max_payments = 2; window_seconds = 60 }

abbrev pub rules : List PolicyRule
rules = PolicyRule.spend_cap hourly_cap ∷ PolicyRule.rate_limit two_a_minute ∷ []

abbrev pub allowing : PolicyDecision
allowing = record {
  verdict = Verdict.allow;
  risk_score = zero_double;
  checks = [];
  reason = Reason.allowed zero_double;
  escalation = none;
}

abbrev pub blocking : PolicyDecision
blocking = record allowing { verdict = Verdict.block }

abbrev pub success : Settlement
success = record { tx_hash = some (codes "0xAB"); nonce = none; facilitator = none; success = true }

abbrev pub entry : ℕ → PaymentRequest → PolicyDecision → AuditEntry
entry at req decision = record {
  id = codes "row";
  timestamp = at;
  agent_id = req.agent_id;
  request = req;
  decision = decision;
  settlement = some success;
  entry_hash = [];
}

abbrev pub breaker_config : Config
breaker_config = record {
  window_seconds = 60;
  max_blocks = some 2;
  max_escalations = none;
  max_anomalies = none;
  cooldown_seconds = none;
}

abbrev outcome : Option CanonicalSettlement → Text
outcome none = []
outcome (some s) = if s.success then codes "ok" else codes "failed"

-- A wallet that signs what it is asked to, and a facilitator that settles it.
abbrev pub outside : Outside
outside = record {
  parse_url = parse_https;
  is_address = λ strict a. starts_with a (codes "0x");
  floats = floats;
  ask = λ req. Reply.answered true none;
  on_escalation = some (λ req decision. some true);
  spine_ready = true;
  create_payload = λ req. some (Payload.eip3009 req.recipient req.amount);
  settle = λ payload req. some (record { success = true; transaction = codes "0xAB" });
  digest = λ c. c.intent ++ c.token ++ outcome c.settlement;
}

abbrev pub config : GuardConfig
config = record {
  agent_id = codes "agent";
  rules = rules;
  anomaly_threshold = one_double;
  anomaly_action = AnomalyAction.escalate;
  circuit = some breaker_config;
  behavioral = options;
  reconciler = record { configured = true; min_amount = pos 10 };
  facilitator_url = codes "https://facilitator.example";
}

abbrev pub new_guard : Guard
new_guard = record {
  evaluator = Evaluator.fresh;
  scorer = new_scorer options;
  bindings = [];
  breaker = record { events = []; opened_at = none };
  log = [];
  last_hydration = none;
}

-- One call's instants, all at the same millisecond.
abbrev pub all_at : ℕ → Instants
all_at t = record {
  open_at = t;
  rules_at = t;
  score_at = t;
  breaker_at = t;
  learned_at = t;
  observed_at = t;
  logged_at = t;
}
