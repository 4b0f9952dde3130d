-- ===== src/Examples/SeriesRuns.antt =====
-- The statistics (internal/stats, internal/units) on small inputs, with whole numbers as floats.
use conbench.Base.{
  ℕ, ◌+◌, ◌≤◌, ◌↔◌, ◌≡◌, refl, true, false, Option, some, List, [], ◌∷◌, map, arith, leb→le,
  if◌then◌else◌, length, get_or, take,
}
use conbench.Base.Int.{ℤ, pos, negsuc}
use conbench.Base.Results.{ok}
use conbench.Base.Sort.{contains, sort}
use conbench.Base.Maps.{lookup, insert}
use conbench.Floats.{whole_floats}
use conbench.Units.{less_is_better}
use conbench.Stats.Window.{dense_rank, rank_in, rolling_commit_rank, rolling_row_count}
use conbench.Stats.Window.Ranks.{rank_in-le_iff, rank_in_gapless}
use conbench.Stats.Window.Slices.{aligned, reduce_or}
use conbench.Stats.Window.Windows.{
  in_window, take_last, rolling_commit_rank-windows, rolling_row_count-take_last,
}
use conbench.Stats.Verdict.{
  PairwiseResult, LookbackResult, pairwise_verdict, lookback_z_verdict, z_score,
}
use conbench.Stats.Verdict.Direction.{
  flags, swapped, lookback_flags, lookback_swapped, pairwise_verdict_swap, lookback_verdict_swap,
}
use conbench.Stats.Summary.{single_value_summary, svs_mode_best}
use conbench.Stats.Summary.Laws.{single_value_summary-IsBest, IsBest, gt}
use conbench.Stats.Shifts.{SeriesPoint, flag_rows}
use conbench.Stats.Shifts.Flags.{flag_rows-get_or, no_flags}
use conbench.Stats.Rolling.{RollingStats, rolling_stats_for_series, segments}
use conbench.Stats.Rolling.Segments.{segments-count_flagged, count_flagged}
use conbench.Stats.Rolling.Boundaries.{rolling_stats_for_series-segment_id}
use mathlib.Core.Option as Options

abbrev whole : ℕ → Option ℤ
whole n = some (pos n)

-- 2000-01-01.
abbrev year_2000 : ℕ
year_2000 = 213084241647659843584

-- Two points of one commit time around a boundary, an earlier point, and a later one.
abbrev four_points : List (SeriesPoint (Option ℤ))
four_points =
    record {
      commit_timestamp = year_2000 + 20;
      result_timestamp = 1;
      svs = whole 7;
      begins_distribution_change = false;
    }
    ∷ record {
      commit_timestamp = year_2000 + 10;
      result_timestamp = 1;
      svs = whole 5;
      begins_distribution_change = false;
    }
    ∷ record {
      commit_timestamp = year_2000 + 20;
      result_timestamp = 2;
      svs = whole 9;
      begins_distribution_change = true;
    }
    ∷ record {
      commit_timestamp = year_2000 + 30;
      result_timestamp = 1;
      svs = whole 9;
      begins_distribution_change = false;
    }
    ∷ []

segment_id_example :
    map
      (λ (r : RollingStats (Option ℤ)). r.segment_id)
      (rolling_stats_for_series whole_floats four_points true 2)
    ≡ 1 ∷ 0 ∷ 1 ∷ 1 ∷ []
segment_id_example = rolling_stats_for_series-segment_id whole_floats four_points true 2 (
  (omega arith, omega arith),
  ((omega arith, omega arith), ((omega arith, omega arith), ((omega arith, omega arith), tt))),
)

segments_example :
    segments (1 ∷ 2 ∷ 2 ∷ 3 ∷ []) (false ∷ false ∷ true ∷ true ∷ []) ≡ 0 ∷ 1 ∷ 1 ∷ 2 ∷ []
unfolding count_flagged
segments_example =
    segments-count_flagged (1 ∷ 2 ∷ 2 ∷ 3 ∷ []) (false ∷ false ∷ true ∷ true ∷ []) (omega arith)

abbrev readings : List ℕ
readings = 5 ∷ 7 ∷ 9 ∷ 11 ∷ []

abbrev times : List ℕ
times = 10 ∷ 20 ∷ 20 ∷ 40 ∷ []

rolling_commit_rank_example :
    rolling_commit_rank 0 readings times 2 false length
    ≡ map
        (λ rank. reduce_or 0 length (aligned (in_window 2 false rank) (dense_rank times) readings))
        (dense_rank times)
rolling_commit_rank_example =
    rolling_commit_rank-windows 0 readings times 2 false length (omega arith) refl

rolling_row_count_example :
    get_or (rolling_row_count times 2 length) 3 0 ≡ length (take_last 2 (take 4 times))
rolling_row_count_example = rolling_row_count-take_last times 2 length 0 3 (omega arith)

rank_order_example : (rank_in times 20 ≤ rank_in times 40) ↔ (20 ≤ 40)
rank_order_example = rank_in-le_iff times 20 40 refl refl

rank_gapless_example : (a : ℕ) × (contains a times ≡ true) × (rank_in times a ≡ 2)
unfolding rank_in lookup sort insert
rank_gapless_example =
    rank_in_gapless times 40 2 refl (omega arith) (leb→le 2 (rank_in times 40) refl)

flag_rows_example :
    get_or (flag_rows false (true ∷ true ∷ false ∷ [])) 1 no_flags
    ≡ record { is_step = false; is_outlier = false }
flag_rows_example = flag_rows-get_or (true ∷ true ∷ false ∷ []) 1

-- A run that takes three times as long as its baseline.
abbrev slower : PairwiseResult (Option ℤ)
slower = record {
  percent_change = some (negsuc 199);
  percent_threshold = whole 5;
  regression_indicated = true;
  improvement_indicated = false;
}

pairwise_swap_example :
    Options.map
      (flags whole_floats)
      (pairwise_verdict whole_floats (whole 1) (whole 3) true (whole 5))
    ≡ Options.map
        (swapped whole_floats)
        (pairwise_verdict whole_floats (whole 1) (whole 3) false (whole 5))
pairwise_swap_example = pairwise_verdict_swap whole_floats (whole 1) (whole 3) (whole 5)

abbrev far_above : LookbackResult (Option ℤ)
far_above = record {
  z_threshold = whole 5;
  z_score = whole 8;
  regression_indicated = false;
  improvement_indicated = true;
}

lookback_swap_example :
    Options.map (lookback_flags whole_floats) (
      lookback_z_verdict whole_floats
        (z_score whole_floats (some (whole 20)) true (some (whole 4)) (some (whole 2)))
        (whole 5))
    ≡ Options.map (lookback_swapped whole_floats) (
        lookback_z_verdict whole_floats
          (z_score whole_floats (some (whole 20)) false (some (whole 4)) (some (whole 2)))
          (whole 5))
lookback_swap_example =
    lookback_verdict_swap whole_floats (some (whole 20)) (some (whole 4)) (some (whole 2)) (whole 5)

abbrev iterations : Option (List (Option (Option ℤ)))
iterations = some (some (whole 4) ∷ some (whole 3) ∷ [])

single_value_example :
    (m : Option ℤ) × (single_value_summary whole_floats
        (whole 4 ∷ whole 3 ∷ [])
        (some "s")
        svs_mode_best
      ≡ ok m)
    × IsBest (if true then whole_floats.lt else gt whole_floats) m (whole 4 ∷ whole 3 ∷ [])
unfolding less_is_better
single_value_example =
    single_value_summary-IsBest whole_floats (whole 4) (whole 3 ∷ []) "s" true (refl, (refl, tt))
      refl
