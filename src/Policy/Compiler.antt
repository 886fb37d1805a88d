-- ===== src/Policy/Compiler.antt =====
-- packages/core/src/policy/compiler.ts: the policy made of a model's answer. The language model is a
-- parameter, and so are the text of a dollar amount and its reading in token units.
pub mod WellFormed
use agentct.Base.{
  ℕ, suc, zero, ◌+◌, ltb, ◌==◌, ◌-◌, ℤ, Text, codes, text_eq, starts_with, lower, trim, is_empty,
  index_of, take, drop, length, filter, Bool, true, false, not, ◌&&◌, Option, none, some, List, [],
  ◌∷◌, map, if◌then◌else◌, or_else,
}
use agentct.Base.Double.{Double}
use agentct.Base.Js.{Value}
use agentct.Types.{
  PolicyRule, SpendCapRule, AllowlistRule, RateLimitRule, CounterpartyRule, TimeWindowRule, Policy,
}
use agentct.Types
use agentct.X402.Chains.{ChainConfig, get_chain}
use agentct.Policy.Schema.{
  Numbers, SpendCapInput, RuleInput, CompilerOutput, spend_cap, allowlist, rate_limit, counterparty,
  time_window, compiler_output, ◌>>=◌,
}

pub record Units : Type 0 where
  -- `n.toLocaleString` with up to six decimals and no grouping
  pub decimal : Double → Text
  -- viem's `parseUnits(text, 6)`; `none` where it throws
  pub parse_units : Text → Option ℤ
  -- an integer that is not negative, as a natural number
  pub nat_of : Double → ℕ

-- Behind an opening fence there is nothing to copy: how many code units a fence has.
unfoldable pub fence : Text → ℕ
unfolding starts_with
fence s =
    if starts_with s (codes "```json") then 7 else if starts_with s (codes "```") then 3 else 0

-- `text.replace(/```json|```/g, "")`, with so many code units of a fence still to leave out.
unfoldable pub strip_fences : ℕ → Text → Text
strip_fences skip [] = []
strip_fences (suc k) (c ∷ s) = strip_fences k s
strip_fences zero (c ∷ s) = elim (fence (c ∷ s)) [
  | zero ↦ c ∷ strip_fences zero s
  | suc k ↦ strip_fences k s
]

-- `s.lastIndexOf(c)`
unfoldable pub last_index_of : ℕ → Text → Option ℕ
last_index_of c [] = none
last_index_of c (d ∷ s) = elim (last_index_of c s) [
  | some n ↦ some (suc n)
  | none ↦ if d == c then some 0 else none
]

-- From the first opening brace to the last closing one, if they stand in this order.
unfoldable pub braced : Text → Option ℕ → Option ℕ → Text
braced s none end = s
braced s (some start) none = s
braced s (some start) (some end) =
    if ltb start end then take (end + 1 - start) (drop start s) else s

-- The text that `extractJson` parses.
unfoldable pub json_text : Text → Text
unfolding strip_fences last_index_of braced
json_text text =
    let cleaned = trim (strip_fences 0 text) in
    braced cleaned (index_of 123 cleaned) (last_index_of 125 cleaned)

unfoldable pub extract_json : (Text → Option Value) → Text → Option Value
unfolding json_text
extract_json parse text = parse (json_text text)

module _ (units : Units) where
  unfoldable pub usd_to_token_units : Double → Option ℤ
  usd_to_token_units usd = units.parse_units (units.decimal usd)

  abbrev pub optional_units : Option Double → Option (Option ℤ)
  optional_units none = some none
  optional_units (some d) = usd_to_token_units d >>= λ a. some (some a)

  unfoldable pub to_policy_rule : Text → RuleInput → Option PolicyRule
  unfolding usd_to_token_units
  to_policy_rule usdc (spend_cap r) = usd_to_token_units r.max_amount >>= λ max.
      optional_units r.escalate_above >>= λ above. some (
        PolicyRule.spend_cap
          (record { window = r.window; max_amount = max; token = usdc; escalate_above = above }))
  to_policy_rule usdc (allowlist r) = some (
      PolicyRule.allowlist (record {
        mode = r.mode;
        entries = filter (λ e. not (is_empty e)) (map (λ e. trim (lower e)) r.entries);
        enforce = r.enforce;
      }))
  to_policy_rule usdc (rate_limit r) = some (
      PolicyRule.rate_limit (record {
        max_payments = units.nat_of r.max_payments;
        window_seconds = units.nat_of r.window_seconds;
      }))
  to_policy_rule usdc (counterparty r) = some (
      PolicyRule.counterparty
        (record { flag_new_recipients = r.flag_new_recipients; action = r.action }))
  to_policy_rule usdc (time_window r) = some (
      PolicyRule.time_window (record {
        allowed_hours = (units.nat_of r.allowed_hours.0, units.nat_of r.allowed_hours.1);
        action = r.action;
      }))

  unfoldable pub to_policy_rules : Text → List RuleInput → Option (List PolicyRule)
  unfolding to_policy_rule
  to_policy_rules usdc [] = some []
  to_policy_rules usdc (r ∷ rs) =
      to_policy_rule usdc r >>= λ rule. to_policy_rules usdc rs >>= λ rest. some (rule ∷ rest)

  -- `none` is an error thrown: the input does not fit the schema, the chain is unknown, or an amount
  -- cannot be read.
  unfoldable pub compile_policy_object :
      Numbers → Value → (agent_id : Text) → (source_text chain : Option Text) → Option Policy
  unfolding to_policy_rules
  compile_policy_object nums input agent_id source_text chain =
      compiler_output nums input >>= λ parsed.
      get_chain (or_else chain (codes "eip155:84532")) >>= λ cfg.
      to_policy_rules cfg.usdc parsed.rules >>= λ rules. some (record {
        agent_id = agent_id;
        rules = rules;
        anomaly_threshold = parsed.anomaly_threshold;
        anomaly_action = parsed.anomaly_action;
        source_text = source_text;
      })

  -- `compilePolicy`; `call` is the language model on the user's words.
  unfoldable pub compile_policy :
      Numbers
      → (call : Text → Option Text) → (parse : Text → Option Value)
      → (natural_language agent_id : Text) → (chain : Option Text) → Option Policy
  unfolding compile_policy_object extract_json
  compile_policy nums call parse natural_language agent_id chain = call natural_language >>= λ text.
      extract_json parse text >>= λ json.
      compile_policy_object nums json agent_id (some natural_language) chain
