-- ===== src/Stats/Verdict/Direction.antt =====
-- The verdicts (internal/stats/verdict.go) under the two directions of a unit.
use conbench.Base.{
  ◌≡◌, refl, sym, ◌∙◌, ap, inl, inr, Bool, true, false, Option, none, some, ◌&&◌, arith, Bool-cases,
}
use mathlib.Core.Option as Options
use conbench.Floats.{Floats}
use conbench.Stats.Verdict.{
  PairwiseResult, LookbackResult, orient, pairwise_verdict, lookback_z_verdict, z_score,
}

module _ (fl : Floats) where
  open fl use {Float, is_nan, lit, sub, mul, div, neg, abs, lt, eq}

  -- No number is above a threshold together with its negation, unless the threshold is negative.
  not_both_above : (t x : Float) → lt t (lit 0 0) ≡ false → lt t (neg x) ≡ true → lt t x ≡ false
  not_both_above t x h k = elim (Bool-cases (lt t x)) [
    | inr e ↦ e
    | inl e ↦
        let below : lt x (lit 0 0) ≡ true =
          sym (fl.lt-neg_zero x) ∙ fl.lt_split t (lit 0 0) (neg x) fl.is_nan-zero k h in
        let above = fl.lt_split t (lit 0 0) x fl.is_nan-zero e h in
        absurd (cc (fl.lt_asymm (lit 0 0) x above))
  ]

  -- With a threshold that is not negative, a pairwise verdict indicates a regression or an
  -- improvement or neither, never both.
  pub pairwise_verdict_exclusive :
      (base cont : Float) (dir : Bool) (t : Float) {v : PairwiseResult Float}
      → lt t (lit 0 0) ≡ false
      → pairwise_verdict fl base cont dir t ≡ some v
      → v.regression_indicated && v.improvement_indicated ≡ false
  unfolding pairwise_verdict
  pairwise_verdict_exclusive base cont dir t h e =
      ground
        (arith, not_both_above t (mul (orient fl dir (div (sub cont base) (abs base))) (lit 100 0)))

  abbrev pub flags : PairwiseResult Float → Bool × Bool
  flags v = (v.regression_indicated, v.improvement_indicated)

  abbrev pub swapped : PairwiseResult Float → Bool × Bool
  swapped v = (v.improvement_indicated, v.regression_indicated)

  -- Reading a unit in the other direction exchanges regression and improvement, and there is a
  -- verdict for one direction exactly when there is for the other.
  pub pairwise_verdict_swap :
      (base cont t : Float)
      → Options.map flags (pairwise_verdict fl base cont true t)
        ≡ Options.map swapped (pairwise_verdict fl base cont false t)
  unfolding pairwise_verdict
  pairwise_verdict_swap base cont t =
      let rel = div (sub cont base) (abs base) in
      let x = lit 100 0 in
      let turned : neg (mul (neg rel) x) ≡ mul rel x =
        ap neg (fl.mul-neg rel x) ∙ fl.neg_neg (mul rel x) in
      elim (Bool-cases (eq base (lit 0 0))) [
        | inl zero ↦ rw zero
        | inr e ↦ rw (e, turned, fl.mul-neg rel x)
      ]

  -- With a threshold that is not negative, a lookback verdict indicates a regression or an
  -- improvement or neither, never both.
  pub lookback_z_verdict_exclusive :
      (z : Option Float) (t : Float) {v : LookbackResult Float}
      → lt t (lit 0 0) ≡ false
      → lookback_z_verdict fl z t ≡ some v
      → v.regression_indicated && v.improvement_indicated ≡ false
  unfolding lookback_z_verdict
  lookback_z_verdict_exclusive none t h e = cc
  lookback_z_verdict_exclusive (some z) t h e = ground (arith, not_both_above t z)

  abbrev pub lookback_flags : LookbackResult Float → Bool × Bool
  lookback_flags v = (v.regression_indicated, v.improvement_indicated)

  abbrev pub lookback_swapped : LookbackResult Float → Bool × Bool
  lookback_swapped v = (v.improvement_indicated, v.regression_indicated)

  lookback_turned :
      (z t : Float)
      → Options.map lookback_flags (lookback_z_verdict fl (some (neg z)) t)
        ≡ Options.map lookback_swapped (lookback_z_verdict fl (some z) t)
  unfolding lookback_z_verdict
  lookback_turned z t = elim (Bool-cases (is_nan z)) [
    | inl e ↦ rw (fl.is_nan-neg z, e)
    | inr e ↦ rw (fl.is_nan-neg z, e, fl.neg_neg z)
  ]

  lookback_zero :
      (z t : Float)
      → eq z (lit 0 0) ≡ true
      → Options.map lookback_flags (lookback_z_verdict fl (some z) t)
        ≡ Options.map lookback_swapped (lookback_z_verdict fl (some z) t)
  unfolding lookback_z_verdict
  lookback_zero z t h = elim (Bool-cases (is_nan z)) [
    | inl e ↦ rw e
    | inr e ↦ rw (e, fl.lt-neg_of_zero t z h)
  ]

  lookback_none :
      (t : Float)
      → Options.map lookback_flags (lookback_z_verdict fl none t)
        ≡ Options.map lookback_swapped (lookback_z_verdict fl none t)
  unfolding lookback_z_verdict
  lookback_none t = refl

  -- For a z-score and its lookback verdict, reading a unit in the other direction exchanges
  -- regression and improvement, and there is a verdict for one direction exactly when there is for
  -- the other; at a score of zero too, whose sign the code leaves alone.
  pub lookback_verdict_swap :
      (x mean stddev : Option Float) (t : Float)
      → Options.map lookback_flags (lookback_z_verdict fl (z_score fl x true mean stddev) t)
        ≡ Options.map lookback_swapped (lookback_z_verdict fl (z_score fl x false mean stddev) t)
  unfolding z_score
  lookback_verdict_swap (some x) (some m) (some d) t =
      let z = div (sub x m) d in
      elim (Bool-cases (eq d (lit 0 0))) [
        | inl e ↦ rw e (lookback_none t)
        | inr e ↦ elim (Bool-cases (eq z (lit 0 0))) [
          | inl zero ↦ rw (e, zero) (lookback_zero z t zero)
          | inr turns ↦ rw (e, turns) (lookback_turned z t)
        ]
      ]
  lookback_verdict_swap none mean stddev t = lookback_none t
  lookback_verdict_swap (some x) none stddev t = lookback_none t
  lookback_verdict_swap (some x) (some m) none t = lookback_none t
