-- ===== src/Stats/Rolling.antt =====
-- internal/stats/rolling.go: the rolling statistics of a series, and its baseline distribution.
pub mod Segments
pub mod Nanos
pub mod Boundaries
use conbench.Base.{
  ℕ, zero, suc, ◌+◌, ◌-◌, ◌%◌, ◌^◌, Bool, true, false, not, ◌&&◌, Option, none, some, List, [], ◌∷◌,
  ◌++◌, map, ltb, ◌==◌, if◌then◌else◌, length, get_or, set, replicate, keep,
}
use conbench.Base.Range.{range}
use conbench.Base.Maps.{Map, lookup, insert, nat_key}
use conbench.Floats.{Floats}
use conbench.Stats.Window.{dense_rank, rolling_commit_rank, or_zero}
use conbench.Stats.Reduce.{mean_skip_nan, sample_std_skip_nan}
use conbench.Stats.Shifts.{
  SeriesPoint, ShiftFlags, scatter, no_point, point_at, stable_order, detect_shifts,
}

pub record RollingStats (Float : Type 0) : Type 0 where
  pub begins_distribution_change : Bool
  pub segment_id : ℕ
  pub rolling_mean_excluding_this : Option Float
  pub rolling_mean : Option Float
  pub residual : Option Float
  pub rolling_stddev : Option Float
  pub is_step : Bool
  pub is_outlier : Bool

-- `if begins[i] { rankCum[ranks[i]]++ }`.
unfoldable pub tally : List ℕ → List Bool → List ℕ → List ℕ
tally (r ∷ rs) (b ∷ bs) cum = tally rs bs (if b then set cum r (get_or cum r 0 + 1) else cum)
tally rs bs cum = cum

-- `rankCum[r] += rankCum[r-1]`.
unfoldable pub accumulate : ℕ → List ℕ → List ℕ
accumulate sum [] = []
accumulate sum (x ∷ xs) = (sum + x) ∷ accumulate (sum + x) xs

-- The segments of the rows in time order; maxRank is the rank of the last row.
-- Where a rank is above it, which takes commit times that UnixNano does not hold, the code panics at
-- an index; here a write past the end is left out and a read past it gives 0.
unfoldable pub segments : List ℕ → List Bool → List ℕ
unfolding tally accumulate
segments ranks begins =
    let max_rank = get_or ranks (length ranks - 1) 0 in
    let rank_cum = accumulate 0 (tally ranks begins (replicate (max_rank + 1) 0)) in
    map (λ r. get_or rank_cum r 0) ranks

abbrev group_of : Option (List ℕ) → List ℕ
group_of none = []
group_of (some idx) = idx

-- The rows that are no outliers, grouped by segment.
unfoldable pub group_rows : List ℕ → List ℕ → List Bool → Map ℕ (List ℕ) → Map ℕ (List ℕ)
unfolding lookup insert
group_rows [] segment is_outlier groups = groups
group_rows (i ∷ is) segment is_outlier groups =
    let s = get_or segment i 0 in
    group_rows is segment is_outlier (
      if get_or is_outlier i false
      then groups
      else insert s (group_of (lookup s groups) ++ i ∷ []) groups)

-- time.Time.UnixNano, whose int64 wraps around: a value v of it is written v + 2^63.
unfoldable pub unix_nano : ℕ → ℕ
unix_nano t = t % 2 ^ 64

module _ (fl : Floats) where
  open fl use {Float, nan, is_nan, sub}

  -- One group: its windows, written back to the rows that it came from.
  unfoldable pub roll_group :
      (List Float → Float) → List Float → List ℕ → ℕ → Bool → List ℕ → List Float → List Float
  unfolding scatter
  roll_group reduce values tsv window closed_right idx out =
      let vals = map (λ i. get_or values i nan) idx in
      let ts = map (λ i. get_or tsv i 0) idx in
      scatter idx (rolling_commit_rank nan vals ts window closed_right reduce) out

  unfoldable pub roll_groups :
      List Float → List ℕ → ℕ → Bool → Map ℕ (List ℕ) → List Float → List Float
  unfolding roll_group
  roll_groups svs tsv window closed_right [] out = out
  roll_groups svs tsv window closed_right ((s, idx) ∷ groups) out =
      roll_groups svs tsv window closed_right groups
        (roll_group (mean_skip_nan fl) svs tsv window closed_right idx out)

  unfoldable pub grouped_commit_rolling_mean :
      List Float → List ℕ → List ℕ → List Bool → ℕ → Bool → List Float
  unfolding roll_groups group_rows
  grouped_commit_rolling_mean svs tsv segment is_outlier window closed_right =
      let n = length svs in
      roll_groups svs tsv window closed_right (group_rows (range n) segment is_outlier [])
        (replicate n nan)

  unfoldable pub fingerprint_commit_rolling_std :
      List Float → List ℕ → List Bool → ℕ → Bool → List Float
  unfolding roll_group
  fingerprint_commit_rolling_std residual tsv is_outlier window closed_right =
      let n = length residual in
      let idx = keep (λ i. not (get_or is_outlier i false)) (range n) in
      roll_group (sample_std_skip_nan fl) residual tsv window closed_right idx (replicate n nan)

  unfoldable pub nil_if_nan : Float → Option Float
  nil_if_nan x = if is_nan x then none else some x

  -- `combine_first`: a row that starts a segment takes its own value.
  unfoldable pub fill_own : Float → Bool → Float → Float
  fill_own own is_outlier mean = if not is_outlier && is_nan mean then own else mean

  -- The zero value of a row.
  abbrev pub no_stats : RollingStats Float
  no_stats = record {
    begins_distribution_change = false;
    segment_id = 0;
    rolling_mean_excluding_this = none;
    rolling_mean = none;
    residual = none;
    rolling_stddev = none;
    is_step = false;
    is_outlier = false;
  }

  -- The loops over the rows in time order: the row at a position, from the points, their shift
  -- flags in the order of the input, and the positions in time order.
  unfoldable pub series_row :
      List (SeriesPoint Float) → List ShiftFlags → List ℕ → Bool → ℕ → ℕ → RollingStats Float
  unfolding segments fill_own nil_if_nan
  series_row points flags order include_current distribution_commits =
      let n = length points in
      let no_flags : ShiftFlags = record { is_step = false; is_outlier = false } in
      let svs = map (λ idx. (point_at fl points idx).svs) order in
      let tsv = map (λ idx. unix_nano (point_at fl points idx).commit_timestamp) order in
      let begins = map (λ idx. (point_at fl points idx).begins_distribution_change) order in
      let is_outlier = map (λ idx. (get_or flags idx no_flags).is_outlier) order in
      let is_step = map (λ idx. (get_or flags idx no_flags).is_step) order in
      let segment = segments (dense_rank tsv) begins in
      let excl =
        grouped_commit_rolling_mean svs tsv segment is_outlier distribution_commits false in
      let rmean_excl =
        map (λ i. fill_own (get_or svs i nan) (get_or is_outlier i false) (get_or excl i nan))
          (range n) in
      let rmean =
        if include_current
        then grouped_commit_rolling_mean svs tsv segment is_outlier distribution_commits true
        else rmean_excl in
      let residual = map (λ i. sub (get_or svs i nan) (get_or rmean_excl i nan)) (range n) in
      let rstd =
        fingerprint_commit_rolling_std residual tsv is_outlier distribution_commits
          include_current in
      λ i. record {
        begins_distribution_change = get_or begins i false;
        segment_id = get_or segment i 0;
        rolling_mean_excluding_this = nil_if_nan (get_or rmean_excl i nan);
        rolling_mean = nil_if_nan (get_or rmean i nan);
        residual = nil_if_nan (get_or residual i nan);
        rolling_stddev = nil_if_nan (get_or rstd i nan);
        is_step = get_or is_step i false;
        is_outlier = get_or is_outlier i false;
      }

  unfoldable pub rolling_stats_for_series :
      List (SeriesPoint Float) → Bool → ℕ → List (RollingStats Float)
  unfolding stable_order scatter series_row
  rolling_stats_for_series points include_current distribution_commits =
      let n = length points in
      let flags = detect_shifts fl points distribution_commits in
      let order = stable_order fl points false in
      let row = series_row points flags order include_current distribution_commits in
      scatter order (map row (range n)) (replicate n no_stats)

  -- The first position with the latest commit timestamp among those from `i` on and `max_idx`.
  unfoldable pub max_index : ℕ → ℕ → ℕ → List (SeriesPoint Float) → ℕ
  max_index max_idx max_ts i [] = max_idx
  max_index max_idx max_ts i (p ∷ ps) =
      let later = ltb max_ts p.commit_timestamp in
      max_index (if later then i else max_idx) (if later then p.commit_timestamp else max_ts)
        (i + 1) ps

  unfoldable pub baseline_distribution : List (SeriesPoint Float) → ℕ → Option Float × Option Float
  unfolding max_index
  baseline_distribution [] distribution_commits = (none, none)
  baseline_distribution (p ∷ ps) distribution_commits =
      let rs = rolling_stats_for_series (p ∷ ps) true distribution_commits in
      let r = get_or rs (max_index 0 p.commit_timestamp 1 ps) no_stats in
      (r.rolling_mean, r.rolling_stddev)
