-- ===== src/Behavioral/Scorer/Checks.antt =====
-- What the scorer reports: anomalies only, each under an id that routes it to the anomaly action.
use agentct.Base.{
  ℕ, ltb, Text, codes, starts_with, Bool, true, false, ◌&&◌, Option, none, some, All, All-append,
  ◌≡◌, arith,
}
use agentct.Base.Double.{Double}
use agentct.Types.{PaymentRequest, PolicyCheck}
use agentct.Behavioral.Numbers.{FloatOps}
use agentct.Behavioral.Scorer.{Options, Scorer, feature_checks, forest_checks, forest_score, score}
use agentct.Behavioral.Baseline.{extract_features, z_score}

-- A failed check whose id the verdict reads as behavioral.
abbrev pub IsAnomaly : PolicyCheck → Type 0
IsAnomaly c = (c.passed ≡ false) × (starts_with c.id (codes "behavioral-") ≡ true)

feature_checks-IsAnomaly :
    (opts : Options) (amount_z interval_z : Double) (is_new : Bool) (recipient : Text)
    → All IsAnomaly (feature_checks opts amount_z interval_z is_new recipient)
unfolding feature_checks starts_with
feature_checks-IsAnomaly opts amount_z interval_z is_new recipient = ground arith

forest_checks-IsAnomaly :
    (opts : Options) (found : Option Double) → All IsAnomaly (forest_checks opts found)
unfolding forest_checks starts_with
forest_checks-IsAnomaly opts none = tt
forest_checks-IsAnomaly opts (some s) = ground arith

-- Every check of a score is a failed one, under an id by which the verdict tells behavioral checks
-- from the others.
pub score-IsAnomaly :
    (F : FloatOps) (opts : Options) (req : PaymentRequest) (now : ℕ) (s : Scorer)
    → All IsAnomaly (score F opts req now s).anomaly_checks
unfolding score
score-IsAnomaly F opts req now s =
    let f = extract_features F req s.baseline now in
    let amount_z = z_score F s.baseline (codes "amount") f.amount in
    let interval_z = z_score F s.baseline (codes "interval") f.seconds_since_last in
    let is_new = f.is_new && ltb 0 s.observation_count in
    let from_forest = forest_score F opts s.forest s.observation_count f in
    All-append IsAnomaly (feature_checks opts amount_z interval_z is_new req.recipient)
      (forest_checks opts from_forest)
      (feature_checks-IsAnomaly opts amount_z interval_z is_new req.recipient)
      (forest_checks-IsAnomaly opts from_forest)
