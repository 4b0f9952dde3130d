-- ===== src/Stats/Summary.antt =====
-- internal/stats/svs.go: failed results, their measurements, and the single value summary.
-- A pointer is an `Option`; the nil slice of data is `none`, and an empty one `some []`.
pub mod Laws
use conbench.Base.{
  ◌≡◌, Bool, true, false, Option, none, some, List, [], ◌∷◌, String, str_eq, if◌then◌else◌,
}
use conbench.Base.Results.{Result, ok, err}
use conbench.Floats.{Floats}
use conbench.Units
use conbench.Stats.Reduce.{mean}

pub data SummaryError : Type 0 where
  unknown_mode missing_unit unknown_unit : SummaryError

abbrev pub svs_mode_best : String
svs_mode_best = "best"

abbrev pub svs_mode_mean : String
svs_mode_mean = "mean"

-- units.LessIsBetter with its error.
abbrev pub direction : Option Bool → Result SummaryError Bool
direction none = err unknown_unit
direction (some b) = ok b

abbrev svs_name : Bool → String
svs_name less_is_better = if less_is_better then "min" else "max"

abbrev svs_type_of : Result SummaryError Bool → Result SummaryError String
svs_type_of (ok less_is_better) = ok (svs_name less_is_better)
svs_type_of (err e) = err e

abbrev svs_type_best : Option String → Result SummaryError String
svs_type_best none = ok "n/a"
svs_type_best (some unit) = svs_type_of (direction (Units.less_is_better unit))

unfoldable pub svs_type : Option String → String → Result SummaryError String
svs_type unit mode =
    if str_eq mode svs_mode_mean
    then ok "mean"
    else if str_eq mode svs_mode_best
    then svs_type_best unit
    else err unknown_mode

module _ {ℓ} {A : Type ℓ} where
  -- The loop over the iterations: a null among them is a failure.
  unfoldable pub has_null : List (Option A) → Bool
  has_null [] = false
  has_null (none ∷ ds) = true
  has_null (some d ∷ ds) = has_null ds

  abbrev empty_or_null : List (Option A) → Bool
  empty_or_null [] = true
  empty_or_null (d ∷ ds) = has_null (d ∷ ds)

  unfoldable pub is_failed : Option String → Option (List (Option A)) → Bool → Bool
  unfolding has_null
  is_failed (some unit) (some values) false = empty_or_null values
  is_failed unit values has_error = true

  -- `*d` of every pointer; a nil among them would panic, and is left out here.
  unfoldable pub dereference : List (Option A) → List A
  dereference [] = []
  dereference (none ∷ ds) = dereference ds
  dereference (some d ∷ ds) = d ∷ dereference ds

  abbrev values_of : Option (List (Option A)) → List A
  values_of none = []
  values_of (some values) = dereference values

  unfoldable pub measurements : Option String → Option (List (Option A)) → Bool → List A
  unfolding is_failed dereference
  measurements unit values has_error =
      if is_failed unit values has_error then [] else values_of values

module _ (fl : Floats) where
  open fl use {Float, nan, lt}

  unfoldable pub min_from : Float → List Float → Float
  min_from m [] = m
  min_from m (x ∷ xs) = min_from (if lt x m then x else m) xs

  unfoldable pub max_from : Float → List Float → Float
  max_from m [] = m
  max_from m (x ∷ xs) = max_from (if lt m x then x else m) xs

  abbrev best_of : Float → List Float → Result SummaryError Bool → Result SummaryError Float
  best_of x xs (ok less_is_better) = ok (if less_is_better then min_from x xs else max_from x xs)
  best_of x xs (err e) = err e

  abbrev best_summary : Float → List Float → Option String → Result SummaryError Float
  best_summary x xs none = err missing_unit
  best_summary x xs (some unit) = best_of x xs (direction (Units.less_is_better unit))

  unfoldable pub single_value_summary :
      List Float → Option String → String → Result SummaryError Float
  unfolding min_from max_from
  single_value_summary [] unit mode = ok nan
  single_value_summary (x ∷ xs) unit mode =
      if str_eq mode svs_mode_mean
      then ok (mean fl (x ∷ xs))
      else if str_eq mode svs_mode_best
      then best_summary x xs unit
      else err unknown_mode
