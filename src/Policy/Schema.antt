-- ===== src/Policy/Schema.antt =====
-- packages/core/src/policy/schema.ts: what the compiler accepts of the language model, in US dollars.
-- Coercion of a value to a number and the test for an integer are the platform's.
pub mod Refinements
use agentct.Base.{
  ℕ, Text, codes, text_eq, Bool, true, false, not, ◌&&◌, Option, none, some, List, [], ◌∷◌,
  if◌then◌else◌,
}
use agentct.Base.Double.{Double, zero_double, one_double, lt, le, is_finite}
use agentct.Base.Js.{Value, Values, bool, str, arr, obj, no_values, element, get_member}
use agentct.Types.{SpendWindow, AllowlistMode, RuleAction, AnomalyAction}

pub record Numbers : Type 0 where
  -- `Number(v)`, also of a member that is not there
  pub number_of : Option Value → Double
  pub is_integer : Double → Bool

pub record SpendCapInput : Type 0 where
  pub window : SpendWindow
  pub max_amount : Double
  pub escalate_above : Option Double

pub record AllowlistInput : Type 0 where
  pub mode : AllowlistMode
  pub entries : List Text
  pub enforce : Bool

pub record RateLimitInput : Type 0 where
  pub max_payments : Double
  pub window_seconds : Double

pub record CounterpartyInput : Type 0 where
  pub flag_new_recipients : Bool
  pub action : RuleAction

pub record TimeWindowInput : Type 0 where
  pub allowed_hours : Double × Double
  pub action : RuleAction

pub data RuleInput : Type 0 where
  spend_cap : SpendCapInput → RuleInput
  allowlist : AllowlistInput → RuleInput
  rate_limit : RateLimitInput → RuleInput
  counterparty : CounterpartyInput → RuleInput
  time_window : TimeWindowInput → RuleInput

pub record CompilerOutput : Type 0 where
  pub rules : List RuleInput
  pub anomaly_threshold : Double
  pub anomaly_action : AnomalyAction

infixl 5 ◌>>=◌
abbrev pub ◌>>=◌ {ℓ κ} : {A : Type ℓ} {B : Type κ} → Option A → (A → Option B) → Option B
none >>= f = none
some a >>= f = f a

-- A refinement of a schema: the value, if it passes.
abbrev pub check {ℓ} : {A : Type ℓ} → (A → Bool) → A → Option A
check p a = if p a then some a else none

-- `z.enum` of the names, each with what it stands for.
abbrev pub enum {ℓ} : {A : Type ℓ} → List (Text × A) → Option Value → Option A
enum [] v = none
enum ((name, a) ∷ names) (some (str s)) =
    if text_eq s name then some a else enum names (some (str s))
enum names v = none

-- `.default(d)`
abbrev pub default {ℓ} : {A : Type ℓ} → A → (Option Value → Option A) → Option Value → Option A
default d read none = some d
default d read (some v) = read (some v)

abbrev pub boolean : Option Value → Option Bool
boolean (some (bool b)) = some b
boolean v = none

unfoldable pub strings_of : Values → Option (List Text)
strings_of no_values = some []
strings_of (element (str s) vs) = strings_of vs >>= λ rest. some (s ∷ rest)
strings_of (element v vs) = none

abbrev pub strings : Option Value → Option (List Text)
strings (some (arr vs)) = strings_of vs
strings v = none

abbrev pub windows : List (Text × SpendWindow)
windows =
    (codes "transaction", SpendWindow.transaction)
    ∷ (codes "session", SpendWindow.session)
    ∷ (codes "hour", SpendWindow.hour)
    ∷ (codes "day", SpendWindow.day)
    ∷ []

abbrev pub modes : List (Text × AllowlistMode)
modes =
    (codes "recipients", AllowlistMode.recipients)
    ∷ (codes "resources", AllowlistMode.resources)
    ∷ []

abbrev pub actions : List (Text × RuleAction)
actions =
    (codes "block", RuleAction.block)
    ∷ (codes "escalate", RuleAction.escalate)
    ∷ (codes "warn", RuleAction.warn)
    ∷ []

abbrev pub anomaly_actions : List (Text × AnomalyAction)
anomaly_actions =
    (codes "block", AnomalyAction.block) ∷ (codes "escalate", AnomalyAction.escalate) ∷ []

-- 24 and 0.8
abbrev pub hours_a_day : Double
hours_a_day = record { bits = 0x4038_0000_0000_0000 }

abbrev pub default_threshold : Double
default_threshold = record { bits = 0x3fe9_9999_9999_999a }

abbrev pub positive : Double → Bool
positive d = lt zero_double d

abbrev pub unit_interval : Double → Bool
unit_interval d = le zero_double d && le d one_double

module _ (nums : Numbers) where
  abbrev pub positive_integer : Double → Bool
  positive_integer d = nums.is_integer d && positive d

  abbrev pub hour : Double → Bool
  hour d = nums.is_integer d && le zero_double d && le d hours_a_day

  -- `z.coerce.number()` with its refinements; neither NaN nor an infinity is a number.
  abbrev pub number : (Double → Bool) → Option Value → Option Double
  number p v = check (λ d. is_finite d && p d) (nums.number_of v)

  abbrev pub optional_number : (Double → Bool) → Option Value → Option (Option Double)
  optional_number p none = some none
  optional_number p (some v) = number p (some v) >>= λ d. some (some d)

  abbrev pub hours : Option Value → Option (Double × Double)
  hours (some (arr (element a (element b no_values)))) =
      number hour (some a) >>= λ x. number hour (some b) >>= λ y. some (x, y)
  hours v = none

  unfoldable pub spend_cap_input : Value → Option RuleInput
  unfolding get_member
  spend_cap_input v = enum windows (get_member (codes "window") v) >>= λ window.
      number positive (get_member (codes "maxAmount") v) >>= λ max.
      optional_number positive (get_member (codes "escalateAbove") v) >>= λ above.
      some (spend_cap (record { window = window; max_amount = max; escalate_above = above }))

  unfoldable pub allowlist_input : Value → Option RuleInput
  unfolding get_member strings_of
  allowlist_input v = enum modes (get_member (codes "mode") v) >>= λ mode.
      default [] strings (get_member (codes "entries") v) >>= λ entries.
      default true boolean (get_member (codes "enforce") v) >>= λ enforce.
      some (allowlist (record { mode = mode; entries = entries; enforce = enforce }))

  unfoldable pub rate_limit_input : Value → Option RuleInput
  unfolding get_member
  rate_limit_input v = number positive_integer (get_member (codes "maxPayments") v) >>= λ max.
      number positive_integer (get_member (codes "windowSeconds") v) >>= λ window.
      some (rate_limit (record { max_payments = max; window_seconds = window }))

  unfoldable pub counterparty_input : Value → Option RuleInput
  unfolding get_member
  counterparty_input v = default true boolean (get_member (codes "flagNewRecipients") v) >>= λ flag.
      default RuleAction.escalate (enum actions) (get_member (codes "action") v) >>= λ action.
      some (counterparty (record { flag_new_recipients = flag; action = action }))

  unfoldable pub time_window_input : Value → Option RuleInput
  unfolding get_member
  time_window_input v = hours (get_member (codes "allowedHours") v) >>= λ allowed.
      default RuleAction.escalate (enum actions) (get_member (codes "action") v) >>= λ action.
      some (time_window (record { allowed_hours = allowed; action = action }))

  abbrev pub kinds : List (Text × (Value → Option RuleInput))
  kinds =
      (codes "spend-cap", spend_cap_input)
      ∷ (codes "allowlist", allowlist_input)
      ∷ (codes "rate-limit", rate_limit_input)
      ∷ (codes "counterparty", counterparty_input)
      ∷ (codes "time-window", time_window_input)
      ∷ []

  -- `ruleInputSchema`: the member type chooses the schema.
  unfoldable pub rule_input : Value → Option RuleInput
  unfolding spend_cap_input allowlist_input rate_limit_input counterparty_input time_window_input
  rule_input v = enum kinds (get_member (codes "type") v) >>= λ read. read v

  unfoldable pub rule_inputs : Values → Option (List RuleInput)
  unfolding rule_input
  rule_inputs no_values = some []
  rule_inputs (element v vs) = rule_input v >>= λ r. rule_inputs vs >>= λ rest. some (r ∷ rest)

  abbrev pub rule_list : Option Value → Option (List RuleInput)
  rule_list (some (arr vs)) = rule_inputs vs
  rule_list v = none

  abbrev pub output_of : Value → Option CompilerOutput
  output_of v = default [] rule_list (get_member (codes "rules") v) >>= λ rules.
      default default_threshold (number unit_interval) (get_member (codes "anomalyThreshold") v)
      >>= λ threshold.
          default AnomalyAction.escalate (enum anomaly_actions)
            (get_member (codes "anomalyAction") v)
          >>= λ action.
              some
                (record { rules = rules; anomaly_threshold = threshold; anomaly_action = action })

  -- `compilerOutputSchema.safeParse`: only an object passes.
  unfoldable pub compiler_output : Value → Option CompilerOutput
  unfolding rule_inputs
  compiler_output (obj fs) = output_of (obj fs)
  compiler_output v = none
