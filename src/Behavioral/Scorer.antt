-- ===== src/Behavioral/Scorer.antt =====
-- BehavioralScorer of packages/core/src/behavioral/isolation.ts. The clock is an argument; the
-- forest keeps the options that it is trained with.
pub mod Checks
pub mod Learning
use agentct.Base.{
  ℕ, ◌+◌, ◌%◌, ltb, leb, ◌==◌, ℤ, pos, Text, codes, take, or_else, Bool, true, false, not, ◌&&◌,
  ◌||◌, Option, none, some, List, [], ◌∷◌, ◌++◌, take_last, if◌then◌else◌,
}
use agentct.Base.Double
use agentct.Base.Double.{Double, lt, zero_double, one_double}
use agentct.Base.Sorting.{sort_by}
use agentct.Types.{PaymentRequest, PolicyCheck, Severity, Message, AuditEntry}
use agentct.Behavioral.Numbers.{FloatOps}
use agentct.Behavioral.Baseline.{
  Baseline, cold, Features, extract_features, z_score, update, record_counterparty,
  record_timestamp, record_vector,
}
use agentct.Behavioral.Forest.{Forest, ForestOptions, new_forest, anomaly_score}

pub record Options : Type 0 where
  pub forest_min_observations : Option ℕ
  pub forest_retrain_interval : Option ℕ
  pub forest : ForestOptions
  pub ewma_alpha : Option Double
  pub z_warn_threshold : Option Double
  pub z_critical_threshold : Option Double
  pub forest_warn_threshold : Option Double
  pub forest_critical_threshold : Option Double

pub record Scorer : Type 0 where
  pub baseline : Baseline
  pub observation_count : ℕ
  pub forest : Option Forest

pub record BehavioralResult : Type 0 where
  pub score : Double
  pub anomaly_checks : List PolicyCheck

-- 3, 5, 0.7, 0.85, 0.1 and 10.
abbrev default_z_warn : Double
default_z_warn = record { bits = 0x4008_0000_0000_0000 }

abbrev default_z_critical : Double
default_z_critical = record { bits = 0x4014_0000_0000_0000 }

abbrev default_forest_warn : Double
default_forest_warn = record { bits = 0x3fe6_6666_6666_6666 }

abbrev default_forest_critical : Double
default_forest_critical = record { bits = 0x3feb_3333_3333_3333 }

abbrev default_alpha : Double
default_alpha = record { bits = 0x3fb9_9999_9999_999a }

abbrev pub max_replay : ℕ
max_replay = 10000

unfoldable pub new_scorer : Options → Scorer
new_scorer opts = record {
  baseline = cold (or_else opts.ewma_alpha default_alpha);
  observation_count = 0;
  forest = none;
}

abbrev pub min_observations : Options → ℕ
min_observations opts = or_else opts.forest_min_observations 1000

abbrev anomaly : Text → Severity → Message → PolicyCheck
anomaly id severity message = record {
  id = id;
  passed = false;
  severity = severity;
  message = message;
}

-- A check that is pushed where its test fires.
abbrev pub push_if : Bool → PolicyCheck → List PolicyCheck
push_if b c = if b then c ∷ [] else []

abbrev graded : Bool → Severity
graded critical = if critical then Severity.critical else Severity.warning

-- The three checks on single features.
unfoldable pub feature_checks : Options → Double → Double → Bool → Text → List PolicyCheck
unfolding lt
feature_checks opts amount_z interval_z is_new recipient =
    let z_warn = or_else opts.z_warn_threshold default_z_warn in
    let z_critical = or_else opts.z_critical_threshold default_z_critical in
    push_if (lt z_warn (Double.abs amount_z)) (
      anomaly (codes "behavioral-amount-spike") (graded (lt z_critical (Double.abs amount_z)))
        (Message.amount_spike amount_z))
    ++ push_if (lt interval_z (Double.neg z_warn)) (
        anomaly (codes "behavioral-frequency-spike") Severity.warning
          (Message.frequency_spike (Double.abs interval_z)))
    ++ push_if is_new (
        anomaly (codes "behavioral-new-counterparty") Severity.warning
          (Message.first_payment (take 10 recipient)))

-- The check on the forest's score, where there is one.
unfoldable pub forest_checks : Options → Option Double → List PolicyCheck
unfolding lt
forest_checks opts none = []
forest_checks opts (some score) =
    let forest_warn = or_else opts.forest_warn_threshold default_forest_warn in
    let forest_critical = or_else opts.forest_critical_threshold default_forest_critical in
    push_if (lt forest_warn score) (
      anomaly (codes "behavioral-multivariate-anomaly") (graded (lt forest_critical score))
        (Message.multivariate_anomaly score))

module _ (F : FloatOps) (opts : Options) where
  -- The forest's score, once it is trained and enough has been observed.
  unfoldable pub forest_score : Option Forest → ℕ → Features → Option Double
  forest_score none count f = none
  forest_score (some forest) count f =
      if leb (min_observations opts) count then some (anomaly_score F forest f.vector) else none

  unfoldable pub score : PaymentRequest → ℕ → Scorer → BehavioralResult
  unfolding feature_checks forest_checks forest_score
  score req now s =
      let f = extract_features F req s.baseline now in
      let amount_z = z_score F s.baseline (codes "amount") f.amount in
      let interval_z = z_score F s.baseline (codes "interval") f.seconds_since_last in
      let from_forest = forest_score s.forest s.observation_count f in
      let feature_score = Double.min one_double (
        F.div (F.add (Double.abs amount_z) (Double.abs (Double.min zero_double interval_z)))
          (F.of_int (pos 10))) in
      record {
        score = Double.max feature_score (or_else from_forest zero_double);
        anomaly_checks =
            feature_checks opts amount_z interval_z (f.is_new && ltb 0 s.observation_count)
              req.recipient
            ++ forest_checks opts from_forest;
      }

  -- When `observe` trains the forest anew, by the count after the observation.
  unfoldable pub retrains : ℕ → Bool
  retrains count =
      let min = min_observations opts in
      leb min count && ((count == min) || (count % or_else opts.forest_retrain_interval 500 == 0))

  unfoldable pub observe : PaymentRequest → ℕ → Scorer → Scorer
  unfolding retrains record_counterparty record_timestamp record_vector
  observe req at s =
      let f = extract_features F req s.baseline at in
      let with_amount = update F (codes "amount") f.amount s.baseline in
      let with_interval =
        if ltb 0 s.observation_count
        then update F (codes "interval") f.seconds_since_last with_amount
        else with_amount in
      let learned =
        record_vector f.vector
          (record_timestamp at (record_counterparty req.recipient with_interval)) in
      let count = s.observation_count + 1 in
      record {
        baseline = learned;
        observation_count = count;
        forest =
            if retrains count then some (new_forest F learned.vectors opts.forest) else s.forest;
      }

  unfoldable pub observe_entries : List AuditEntry → Scorer → Scorer
  unfolding observe
  observe_entries [] s = s
  observe_entries (e ∷ es) s = observe_entries es (observe e.request e.timestamp s)

  unfoldable pub hydrate : List AuditEntry → Scorer → Scorer
  unfolding observe_entries sort_by
  hydrate entries s =
      observe_entries (take_last max_replay (sort_by (λ (e : AuditEntry). e.timestamp) entries)) s
