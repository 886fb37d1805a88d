-- ===== src/Policy/Schema/Refinements.antt =====
-- What the refinements of the schema let through.
use agentct.Base.{
  Text, text_eq, codes, All, Bool, true, Option, none, some, List, [], ◌∷◌, ◌≡◌, refl, inl, inr,
  ◌&&◌, Bool-cases, arith,
}
use agentct.Base.Double.{Double, le, is_finite}
use agentct.Base.Js.{Value, Values, str, arr, obj, no_values, element, get_member}
use mathlib.Core.Path.{subst}
use agentct.Types.{PolicyRule, Policy}
use agentct.Types
use agentct.Policy.Schema.{
  Numbers, RuleInput, CompilerOutput, spend_cap, allowlist, rate_limit, counterparty, time_window,
  ◌>>=◌, check, enum, default, number, optional_number, hours, hour, positive, positive_integer,
  unit_interval, default_threshold, spend_cap_input, allowlist_input, rate_limit_input,
  counterparty_input, time_window_input, kinds, rule_input, rule_inputs, rule_list, compiler_output,
  windows, modes, actions, anomaly_actions, strings, boolean,
}

pub bind-some {ℓ κ} :
    {A : Type ℓ} {B : Type κ} (m : Option A) (f : A → Option B) {b : B}
    → (m >>= f) ≡ some b
    → (a : A) × (m ≡ some a) × (f a ≡ some b)
bind-some none f h = cc
bind-some (some a) f h = (a, refl, h)

check-some {ℓ} : {A : Type ℓ} (p : A → Bool) (a : A) {b : A} → check p a ≡ some b → p b ≡ true
check-some p a {b} h = elim (Bool-cases (p a)) [
  | inl good ↦
      let e : ◌≡◌ {A = Option _} (some a) (some b) = rw good at h in
      let same : a ≡ b = cc in rw (← same) good
  | inr bad ↦ let e : ◌≡◌ {A = Option _} none (some b) = rw bad at h in cc
]

-- A number that passes is finite, and passes its own test.
number-some :
    (p : Double → Bool) (a : Double) {b : Double}
    → check (λ d. is_finite d && p d) a ≡ some b
    → p b ≡ true
number-some p a {b} h =
    let both = check-some (λ d. is_finite d && p d) a {b = b} h in ground (arith, both)

enum-All {ℓ κ} :
    {A : Type ℓ} (P : A → Type κ) (names : List (Text × A)) (v : Option Value) {a : A}
    → All (λ (n : Text × A). P n.1) names
    → enum names v ≡ some a
    → P a
enum-All P [] v all h = cc
enum-All P ((name, b) ∷ names) none all h = cc
enum-All P ((name, b) ∷ names) (some (str s)) {a} all h = elim (Bool-cases (text_eq s name)) [
  | inl same ↦
      let e : ◌≡◌ {A = Option _} (some b) (some a) = rw same at h in
      let eq : b ≡ a = cc in rw (← eq) all.0
  | inr other ↦ enum-All P names (some (str s)) all.1 (rw other at h)
]
enum-All P ((name, b) ∷ names) (some v) all h = cc

module _ (nums : Numbers) where
  -- What the refinements of the schema say of a rule.
  abbrev pub Valid : RuleInput → Type 0
  Valid (spend_cap r) = positive r.max_amount ≡ true
  Valid (allowlist r) = Unit
  Valid (rate_limit r) =
      (positive_integer nums r.max_payments ≡ true)
      × (positive_integer nums r.window_seconds ≡ true)
  Valid (counterparty r) = Unit
  Valid (time_window r) =
      (hour nums r.allowed_hours.0 ≡ true) × (hour nums r.allowed_hours.1 ≡ true)

  -- What a reader of rules lets through.
  abbrev Reads : (Value → Option RuleInput) → Type 0
  Reads read = (v : Value) (r : RuleInput) → read v ≡ some r → Valid r

  spend_cap_input-Reads : Reads (spend_cap_input nums)
  unfolding spend_cap_input
  spend_cap_input-Reads v r h =
      let (w, window, h1) = bind-some (enum windows (get_member (codes "window") v)) _ h in
      let (max, amount, h2) =
        bind-some (number nums positive (get_member (codes "maxAmount") v)) _ h1 in
      let (above, escalate, h3) =
        bind-some (optional_number nums positive (get_member (codes "escalateAbove") v)) _ h2 in
      let made : spend_cap (record { window = w; max_amount = max; escalate_above = above }) ≡ r =
        cc in
      subst Valid made
        (number-some positive (nums.number_of (get_member (codes "maxAmount") v)) amount)

  allowlist_input-Reads : Reads (allowlist_input nums)
  unfolding allowlist_input
  allowlist_input-Reads v r h =
      let (m, mode, h1) = bind-some (enum modes (get_member (codes "mode") v)) _ h in
      let (es, entries, h2) =
        bind-some (default [] strings (get_member (codes "entries") v)) _ h1 in
      let (b, enforce, h3) =
        bind-some (default true boolean (get_member (codes "enforce") v)) _ h2 in
      let made : allowlist (record { mode = m; entries = es; enforce = b }) ≡ r = cc in
      subst Valid made tt

  rate_limit_input-Reads : Reads (rate_limit_input nums)
  unfolding rate_limit_input
  rate_limit_input-Reads v r h =
      let count = get_member (codes "maxPayments") v in
      let span = get_member (codes "windowSeconds") v in
      let (m, max, h1) = bind-some (number nums (positive_integer nums) count) _ h in
      let (w, window, h2) = bind-some (number nums (positive_integer nums) span) _ h1 in
      let made : rate_limit (record { max_payments = m; window_seconds = w }) ≡ r = cc in
      subst Valid made (
        number-some (positive_integer nums) (nums.number_of count) max,
        number-some (positive_integer nums) (nums.number_of span) window,
      )

  counterparty_input-Reads : Reads (counterparty_input nums)
  unfolding counterparty_input
  counterparty_input-Reads v r h =
      let (b, flag, h1) =
        bind-some (default true boolean (get_member (codes "flagNewRecipients") v)) _ h in
      let (a, action, h2) =
        bind-some (default Types.RuleAction.escalate (enum actions) (get_member (codes "action") v))
          _ h1 in
      let made : counterparty (record { flag_new_recipients = b; action = a }) ≡ r = cc in
      subst Valid made tt

  hours-hour :
      (v : Option Value) (p : Double × Double)
      → hours nums v ≡ some p
      → (hour nums p.0 ≡ true) × (hour nums p.1 ≡ true)
  hours-hour (some (arr (element a (element b no_values)))) p h =
      let (x, first, h1) = bind-some (number nums (hour nums) (some a)) _ h in
      let (y, second, h2) = bind-some (number nums (hour nums) (some b)) _ h1 in
      let made : ◌≡◌ {A = Double × Double} (x, y) p = cc in
      subst (λ (q : Double × Double). (hour nums q.0 ≡ true) × (hour nums q.1 ≡ true)) made
        (
          number-some (hour nums) (nums.number_of (some a)) first,
          number-some (hour nums) (nums.number_of (some b)) second,
        )
  hours-hour v p h = cc

  time_window_input-Reads : Reads (time_window_input nums)
  unfolding time_window_input
  time_window_input-Reads v r h =
      let allowed = get_member (codes "allowedHours") v in
      let (p, span, h1) = bind-some (hours nums allowed) _ h in
      let (a, action, h2) =
        bind-some (default Types.RuleAction.escalate (enum actions) (get_member (codes "action") v))
          _ h1 in
      let made : time_window (record { allowed_hours = p; action = a }) ≡ r = cc in
      subst Valid made (hours-hour allowed p span)

  rule_input-Reads : Reads (rule_input nums)
  unfolding rule_input
  rule_input-Reads v r h =
      let (read, named, h1) = bind-some (enum (kinds nums) (get_member (codes "type") v)) _ h in
      enum-All Reads (kinds nums) (get_member (codes "type") v)
        (
          spend_cap_input-Reads,
          (
            allowlist_input-Reads,
            (rate_limit_input-Reads, (counterparty_input-Reads, (time_window_input-Reads, tt))),
          ),
        )
        named v r h1

  rule_inputs-Valid :
      (vs : Values) (rs : List RuleInput) → rule_inputs nums vs ≡ some rs → All Valid rs
  unfolding rule_inputs
  rule_inputs-Valid no_values rs h = let e : [] ≡ rs = cc in subst (All Valid) e tt
  rule_inputs-Valid (element v vs) rs h =
      let (r, first, h1) = bind-some (rule_input nums v) _ h in
      let (rest, others, h2) = bind-some (rule_inputs nums vs) _ h1 in
      let e : r ∷ rest ≡ rs = cc in
      subst (All Valid) e (rule_input-Reads v r first, rule_inputs-Valid vs rest others)

  rule_list-Valid :
      (v : Option Value) (rs : List RuleInput)
      → default [] (rule_list nums) v ≡ some rs
      → All Valid rs
  rule_list-Valid none rs h = let e : [] ≡ rs = cc in subst (All Valid) e tt
  rule_list-Valid (some (arr vs)) rs h = rule_inputs-Valid vs rs h
  rule_list-Valid (some v) rs h = cc

  threshold_in_unit :
      (v : Option Value) (d : Double)
      → default default_threshold (number nums unit_interval) v ≡ some d
      → unit_interval d ≡ true
  unfolding le
  threshold_in_unit none d h = let e : default_threshold ≡ d = cc in rw (← e) refl
  threshold_in_unit (some v) d h = number-some unit_interval (nums.number_of (some v)) h

  pub output-Valid :
      (v : Value) (out : CompilerOutput)
      → compiler_output nums v ≡ some out
      → All Valid out.rules × (unit_interval out.anomaly_threshold ≡ true)
  unfolding compiler_output
  output-Valid (obj fs) out h =
      let v = obj fs in
      let (rs, rules, h1) =
        bind-some (default [] (rule_list nums) (get_member (codes "rules") v)) _ h in
      let (t, threshold, h2) =
        bind-some
          (default default_threshold (number nums unit_interval)
            (get_member (codes "anomalyThreshold") v))
          _ h1 in
      let (a, action, h3) =
        bind-some
          (default Types.AnomalyAction.escalate (enum anomaly_actions)
            (get_member (codes "anomalyAction") v))
          _ h2 in
      let made : ◌≡◌ {A = CompilerOutput}
          (record { rules = rs; anomaly_threshold = t; anomaly_action = a }) out =
        cc in
      subst (λ (o : CompilerOutput). All Valid o.rules × (unit_interval o.anomaly_threshold ≡ true))
        made
        (
          rule_list-Valid (get_member (codes "rules") v) rs rules,
          threshold_in_unit (get_member (codes "anomalyThreshold") v) t threshold,
        )
  output-Valid v out h = cc
