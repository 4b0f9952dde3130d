-- ===== src/Stats/Verdict.antt =====
-- internal/stats/verdict.go: z-scores, and the pairwise and lookback verdicts.
pub mod Direction
use conbench.Base.{ℕ, Bool, true, false, Option, none, some, ◌&&◌, not, if◌then◌else◌}
use conbench.Floats.{Floats}

pub record PairwiseResult (Float : Type 0) : Type 0 where
  pub percent_change : Float
  pub percent_threshold : Float
  pub regression_indicated : Bool
  pub improvement_indicated : Bool

pub record LookbackResult (Float : Type 0) : Type 0 where
  pub z_threshold : Float
  pub z_score : Float
  pub regression_indicated : Bool
  pub improvement_indicated : Bool

module _ (fl : Floats) where
  open fl use {Float, is_nan, lit, sub, mul, div, neg, abs, lt, eq}

  abbrev pub orient : Bool → Float → Float
  orient less_is_better x = if less_is_better then neg x else x

  unfoldable pub z_score_of : Float → Bool → Float → Float → Option Float
  z_score_of data_point less_is_better dist_mean dist_stddev =
      let z = div (sub data_point dist_mean) dist_stddev in
      if eq dist_stddev (lit 0 0)
      then none
      else some (if not (eq z (lit 0 0)) && less_is_better then neg z else z)

  -- A nil pointer among the inputs gives nil.
  unfoldable pub z_score : Option Float → Bool → Option Float → Option Float → Option Float
  unfolding z_score_of
  z_score (some data_point) less_is_better (some dist_mean) (some dist_stddev) =
      z_score_of data_point less_is_better dist_mean dist_stddev
  z_score data_point less_is_better dist_mean dist_stddev = none

  unfoldable pub pairwise_verdict : Float → Float → Bool → Float → Option (PairwiseResult Float)
  pairwise_verdict baseline_svs contender_svs less_is_better percent_threshold =
      let rel = orient less_is_better (div (sub contender_svs baseline_svs) (abs baseline_svs)) in
      let pct = mul rel (lit 100 0) in
      if eq baseline_svs (lit 0 0)
      then none
      else some (record {
        percent_change = pct;
        percent_threshold = percent_threshold;
        regression_indicated = lt percent_threshold (neg pct);
        improvement_indicated = lt percent_threshold pct;
      })

  unfoldable pub lookback_z_verdict : Option Float → Float → Option (LookbackResult Float)
  lookback_z_verdict none threshold_z = none
  lookback_z_verdict (some z) threshold_z =
      if is_nan z
      then none
      else some (record {
        z_threshold = threshold_z;
        z_score = z;
        regression_indicated = lt threshold_z (neg z);
        improvement_indicated = lt threshold_z z;
      })
