-- ===== src/Stats/Shifts.antt =====
-- internal/stats/rolling.go: the points of a series, their order in time, and the detection of
-- shifts. A time is its number of nanoseconds from the one that is 2^63 + 11 * 2^64 nanoseconds
-- before the Unix epoch, which is earlier than the first that the database can hold.
pub mod Flags
use conbench.Base.{
  ℕ, zero, suc, ◌+◌, Bool, true, false, not, ◌&&◌, ◌||◌, Option, none, some, List, [], ◌∷◌, map,
  ltb, ◌==◌, if◌then◌else◌, length, get_or, set, replicate,
}
use conbench.Base.Sort.{sort}
use conbench.Base.Range.{range}
use conbench.Floats.{Floats}
use conbench.Stats.Window.{rolling_row_count}
use conbench.Stats.Reduce.{mean_skip_nan, sample_std_skip_nan, quantile_linear}

pub record SeriesPoint (Float : Type 0) : Type 0 where
  pub commit_timestamp : ℕ
  pub result_timestamp : ℕ
  pub svs : Float
  pub begins_distribution_change : Bool

pub record ShiftFlags : Type 0 where
  pub is_step : Bool
  pub is_outlier : Bool

-- `for i, idx := range order { out[idx] = rows[i] }`.
unfoldable pub scatter {ℓ} : {A : Type ℓ} → List ℕ → List A → List A → List A
scatter [] rows out = out
scatter (i ∷ is) [] out = out
scatter (i ∷ is) (row ∷ rows) out = scatter is rows (set out i row)

-- isShift[i+1], false behind the last row.
abbrev pub next_shift : List Bool → Bool
next_shift [] = false
next_shift (s ∷ ss) = s

-- The flags of the rows in time order, from isShift; `prev_revert` is reverts[i-1].
unfoldable pub flag_rows : Bool → List Bool → List ShiftFlags
flag_rows prev_revert [] = []
flag_rows prev_revert (s ∷ ss) =
    let reverts = s && next_shift ss in
    record { is_step = s && (not reverts && not prev_revert); is_outlier = s && reverts }
    ∷ flag_rows reverts ss

module _ (fl : Floats) where
  open fl use {Float, nan, is_nan, lit, sub, div, abs, lt}

  -- What a read past the end of `points` gives here; the positions of `stable_order` are in range.
  abbrev pub no_point : SeriesPoint Float
  no_point = record {
    commit_timestamp = 0;
    result_timestamp = 0;
    svs = nan;
    begins_distribution_change = false;
  }

  abbrev pub point_at : List (SeriesPoint Float) → ℕ → SeriesPoint Float
  point_at points i = get_or points i no_point

  -- The comparison of two positions.
  abbrev pub before : List (SeriesPoint Float) → Bool → ℕ → ℕ → Bool
  before points with_result_tie a b =
      let pa = point_at points a in
      let pb = point_at points b in
      if not (pa.commit_timestamp == pb.commit_timestamp)
      then ltb pa.commit_timestamp pb.commit_timestamp
      else with_result_tie && ltb pa.result_timestamp pb.result_timestamp

  unfoldable pub stable_order : List (SeriesPoint Float) → Bool → List ℕ
  stable_order points with_result_tie = sort (before points with_result_tie) (range (length points))

  -- svs.diff(), whose first row is NaN.
  unfoldable pub diff_from : Float → List Float → List Float
  diff_from prev [] = []
  diff_from prev (x ∷ xs) = sub x prev ∷ diff_from x xs

  unfoldable pub diffs : List Float → List Float
  unfolding diff_from
  diffs [] = []
  diffs (x ∷ xs) = nan ∷ diff_from x xs

  unfoldable pub clip : Float → Float → Float → Float
  clip q05 q95 d = if is_nan d || (lt d q05 || lt q95 d) then nan else d

  -- `!math.IsNaN(z) && math.Abs(z) > shiftZScoreThreshold`, row by row.
  unfoldable pub shift_rows : List Float → List Float → List Float → List Bool
  shift_rows (d ∷ ds) (m ∷ ms) (s ∷ ss) =
      let z = div (sub d m) s in (not (is_nan z) && lt (lit 5 0) (abs z)) ∷ shift_rows ds ms ss
  shift_rows ds ms ss = []

  unfoldable pub is_shift : List Float → ℕ → List Bool
  unfolding shift_rows diffs clip
  is_shift svs distribution_commits =
      let diff = diffs svs in
      let q05 = quantile_linear fl diff (lit 5 2) in
      let q95 = quantile_linear fl diff (lit 95 2) in
      let clipped = map (clip q05 q95) diff in
      let rmean = rolling_row_count clipped distribution_commits (mean_skip_nan fl) in
      let rstd = rolling_row_count clipped distribution_commits (sample_std_skip_nan fl) in
      shift_rows diff rmean rstd

  unfoldable pub detect_shifts : List (SeriesPoint Float) → ℕ → List ShiftFlags
  unfolding stable_order is_shift flag_rows scatter
  detect_shifts points distribution_commits =
      let order = stable_order points true in
      let svs = map (λ idx. (point_at points idx).svs) order in
      let out = replicate (length points) (record { is_step = false; is_outlier = false }) in
      scatter order (flag_rows false (is_shift svs distribution_commits)) out
