-- ===== src/Behavioral/Baseline.antt =====
-- EWMABaseline and extractFeatures of packages/core/src/behavioral (baseline.ts, features.ts). An
-- update returns the new baseline.
use agentct.Base.{
  ℕ, ◌+◌, ltb, pos, sub_ℕ, Text, lower, includes, set_add, lookup, insert, length, drop, or_else,
  Bool, not, Option, none, some, List, [], ◌∷◌, ◌++◌, if◌then◌else◌,
}
use agentct.Base.Double.{Double, lt, zero_double, one_double}
use agentct.Types.{PaymentRequest}
use agentct.Policy.Rules.{utc_hour}
use agentct.Behavioral.Numbers.{FloatOps}

abbrev pub Vector : Type 0
Vector = List Double

pub record Baseline : Type 0 where
  pub means : List (Text × Double)
  pub variances : List (Text × Double)
  pub alpha : Double
  pub seen : List Text
  pub timestamps : List ℕ
  pub vectors : List Vector

abbrev pub cold : Double → Baseline
cold alpha = record {
  means = [];
  variances = [];
  alpha = alpha;
  seen = [];
  timestamps = [];
  vectors = [];
}

-- `xs.push(x); if (xs.length > 10000) xs.shift()`
abbrev pub ring_size : ℕ
ring_size = 10000

unfoldable pub push_ring {ℓ} : {A : Type ℓ} → ℕ → List A → A → List A
push_ring cap xs x = if ltb cap (length xs + 1) then drop 1 (xs ++ x ∷ []) else xs ++ x ∷ []

-- `xs.at(-1)`
unfoldable pub last? {ℓ} : {A : Type ℓ} → List A → Option A
last? [] = none
last? (x ∷ []) = some x
last? (x ∷ y ∷ xs) = last? (y ∷ xs)

unfoldable pub is_new_counterparty : Baseline → Text → Bool
unfolding includes lower
is_new_counterparty b addr = not (includes b.seen (lower addr))

unfoldable pub record_counterparty : Text → Baseline → Baseline
unfolding set_add lower
record_counterparty addr b = record b { seen = set_add (lower addr) b.seen }

unfoldable pub record_timestamp : ℕ → Baseline → Baseline
unfolding push_ring
record_timestamp ts b = record b { timestamps = push_ring ring_size b.timestamps ts }

unfoldable pub record_vector : Vector → Baseline → Baseline
unfolding push_ring
record_vector v b = record b { vectors = push_ring ring_size b.vectors v }

pub record Features : Type 0 where
  pub amount : Double
  pub seconds_since_last : Double
  pub hour_of_day : ℕ
  pub is_new : Bool
  pub vector : Vector

-- The score once both statistics are known: 0 unless the variance is above 0.
abbrev z_of : FloatOps → Option Double → Option Double → Double → Double
z_of F (some mean) (some variance) value =
    if lt zero_double variance then F.div (F.sub value mean) (F.sqrt variance) else zero_double
z_of F _ _ value = zero_double

module _ (F : FloatOps) where
  unfoldable pub z_score : Baseline → Text → Double → Double
  unfolding lookup lt
  z_score b feature value = z_of F (lookup feature b.means) (lookup feature b.variances) value

  unfoldable pub update : Text → Double → Baseline → Baseline
  unfolding lookup insert
  update feature value b =
      let keep = F.sub one_double b.alpha in
      let old_mean = or_else (lookup feature b.means) value in
      let new_mean = F.add (F.mul b.alpha value) (F.mul keep old_mean) in
      let old_var = or_else (lookup feature b.variances) zero_double in
      let deviation = F.pow (F.sub value new_mean) (F.of_int (pos 2)) in
      let new_var = F.add (F.mul b.alpha deviation) (F.mul keep old_var) in
      record b {
        means = insert feature new_mean b.means;
        variances = insert feature new_var b.variances;
      }

  abbrev since : Option ℕ → ℕ → Double
  since none now = zero_double
  since (some last) now = F.div (F.of_int (sub_ℕ now last)) (F.of_int (pos 1000))

  unfoldable pub extract_features : PaymentRequest → Baseline → ℕ → Features
  unfolding last? utc_hour is_new_counterparty
  extract_features req b now =
      let seconds = since (last? b.timestamps) now in
      let hour = utc_hour now in
      let amount = F.of_int req.amount in
      let is_new = is_new_counterparty b req.recipient in
      record {
        amount = amount;
        seconds_since_last = seconds;
        hour_of_day = hour;
        is_new = is_new;
        vector =
            amount
            ∷ seconds
            ∷ F.of_int (pos hour)
            ∷ (if is_new then F.of_int (pos 1) else F.of_int (pos 0))
            ∷ [];
      }
