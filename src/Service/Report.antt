-- ===== src/Service/Report.antt =====
-- internal/service/ci_report.go: the rows of a CI report, its summary and its status. The columns
-- that are only displayed (tags, context, hardware, links, analysis numbers) are left out.
pub mod Status
use conbench.Base.{
  ℕ, zero, suc, ◌+◌, Bool, true, false, not, ◌||◌, Option, none, some, List, [], ◌∷◌, map, String,
  str_eq, ltb, ◌==◌, if◌then◌else◌, keep,
}

pub data ReportStatus : Type 0 where
  success failure action_required skipped : ReportStatus

pub data RowStatus : Type 0 where
  regressed improved stable insufficient errored missing_baseline not_comparable : RowStatus

pub record Comparison : Type 0 where
  pub status : RowStatus
  pub run_id : String
  pub history_fingerprint : String
  pub begins_distribution_change : Bool
  pub reason : Option String

pub record Summary : Type 0 where
  pub runs : ℕ
  pub missing_runs : ℕ
  pub contender_results : ℕ
  pub compared : ℕ
  pub analyzed : ℕ
  pub regressions : ℕ
  pub improvements : ℕ
  pub benchmark_errors : ℕ
  pub missing_baselines : ℕ
  pub not_comparables : ℕ
  pub commitless_runs : ℕ
  pub baseline_errors : ℕ
  pub baseline_action_err : ℕ
  pub insufficients : ℕ
  pub stables : ℕ

pub record ReportRun : Type 0 where
  pub run_id : String
  pub comparisons : List Comparison

pub record Report : Type 0 where
  pub status : ReportStatus
  pub status_reason : String
  pub summary : Summary
  pub runs : List ReportRun
  pub comparisons : List Comparison
  pub report_url : String

-- ciReportComparisonStatus: the lookback verdict, if there is one.
unfoldable pub comparison_status : Option (Bool × Bool) → RowStatus
comparison_status none = insufficient
comparison_status (some (regression, improvement)) =
    if regression then regressed else if improvement then improved else stable

-- The `switch` of deriveSummaryFromComparisons.
unfoldable pub count_row : RowStatus → Summary → Summary
count_row errored s = record s { benchmark_errors = s.benchmark_errors + 1 }
count_row missing_baseline s = record s { missing_baselines = s.missing_baselines + 1 }
count_row not_comparable s = record s { not_comparables = s.not_comparables + 1 }
count_row insufficient s = record s {
  insufficients = s.insufficients + 1;
  compared = s.compared + 1;
}
count_row regressed s = record s {
  regressions = s.regressions + 1;
  compared = s.compared + 1;
  analyzed = s.analyzed + 1;
}
count_row improved s = record s {
  improvements = s.improvements + 1;
  compared = s.compared + 1;
  analyzed = s.analyzed + 1;
}
count_row stable s = record s {
  stables = s.stables + 1;
  compared = s.compared + 1;
  analyzed = s.analyzed + 1;
}

unfoldable pub derive_summary : List Comparison → Summary → Summary
unfolding count_row
derive_summary [] s = s
derive_summary (c ∷ cs) s = derive_summary cs (count_row c.status s)

unfoldable pub needs_action : Summary → Bool
needs_action s =
    ltb 0 s.missing_runs
    || (ltb 0 s.commitless_runs
        || (s.contender_results == 0 || (ltb 0 s.benchmark_errors || ltb 0 s.baseline_action_err)))

unfoldable pub derive_status : Summary → ReportStatus
unfolding needs_action
derive_status s =
    if needs_action s
    then action_required
    else if ltb 0 s.regressions
    then failure
    else if s.analyzed == 0
    then skipped
    else success

abbrev action_reason : Summary → String
action_reason s =
    if ltb 0 s.missing_runs
    then "explicit run IDs were not found"
    else if ltb 0 s.commitless_runs
    then "selected runs are not connected to commit metadata"
    else if s.contender_results == 0
    then "selected runs contain no benchmark results"
    else if ltb 0 s.benchmark_errors
    then "benchmark errors require inspection"
    else if ltb 0 s.baseline_action_err
    then "baseline commit metadata is incomplete"
    else "action required"

unfoldable pub derive_status_reason : ReportStatus → Summary → String
derive_status_reason action_required s = action_reason s
derive_status_reason failure s = "lookback regression detected"
derive_status_reason skipped s = "no row has enough baseline history for z-score analysis"
derive_status_reason success s = "no regressions"

-- attachComparisonsToRuns: a run without comparisons gets an empty list.
unfoldable pub attach_comparisons : List Comparison → List ReportRun → List ReportRun
attach_comparisons comparisons runs =
    map
      (λ (run : ReportRun). record run {
        comparisons = keep (λ (c : Comparison). str_eq c.run_id run.run_id) comparisons;
      })
      runs
