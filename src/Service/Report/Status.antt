-- ===== src/Service/Report/Status.antt =====
-- The summary of a CI report and its status, by its rows (internal/service/ci_report.go).
use conbench.Base.{
  ℕ, ◌+◌, ◌≡◌, refl, Bool, true, false, ◌||◌, List, [], ◌∷◌, arith, ltb, ◌==◌, if◌then◌else◌,
  count_if, length, any,
}
use conbench.Service.Report.{
  ReportStatus, success, failure, action_required, skipped, RowStatus, regressed, improved, stable,
  insufficient, errored, missing_baseline, not_comparable, Comparison, Summary, count_row,
  derive_summary, derive_status,
}

pub RowStatus-discrete : Discrete RowStatus
RowStatus-discrete = hlevel

abbrev pub is_regressed : RowStatus → Bool
is_regressed regressed = true
is_regressed _ = false

abbrev pub is_improved : RowStatus → Bool
is_improved improved = true
is_improved _ = false

abbrev pub is_stable : RowStatus → Bool
is_stable stable = true
is_stable _ = false

abbrev pub is_insufficient : RowStatus → Bool
is_insufficient insufficient = true
is_insufficient _ = false

abbrev pub is_errored : RowStatus → Bool
is_errored errored = true
is_errored _ = false

abbrev pub is_missing_baseline : RowStatus → Bool
is_missing_baseline missing_baseline = true
is_missing_baseline _ = false

abbrev pub is_not_comparable : RowStatus → Bool
is_not_comparable not_comparable = true
is_not_comparable _ = false

abbrev pub rows : (RowStatus → Bool) → List Comparison → ℕ
rows p cs = count_if (λ (c : Comparison). p c.status) cs

-- What the loop has added to a summary after the rows `cs`.
pub record Counts (cs : List Comparison) (s t : Summary) : Type 0 where
  pub regressions : t.regressions ≡ s.regressions + rows is_regressed cs
  pub improvements : t.improvements ≡ s.improvements + rows is_improved cs
  pub stables : t.stables ≡ s.stables + rows is_stable cs
  pub insufficients : t.insufficients ≡ s.insufficients + rows is_insufficient cs
  pub benchmark_errors : t.benchmark_errors ≡ s.benchmark_errors + rows is_errored cs
  pub missing_baselines : t.missing_baselines ≡ s.missing_baselines + rows is_missing_baseline cs
  pub not_comparables : t.not_comparables ≡ s.not_comparables + rows is_not_comparable cs
  pub analyzed :
      t.analyzed + s.regressions + s.improvements + s.stables
      ≡ s.analyzed + t.regressions + t.improvements + t.stables
  pub compared :
      t.compared + s.analyzed + s.insufficients ≡ s.compared + t.analyzed + t.insufficients
  pub every_row :
      t.compared + t.benchmark_errors + t.missing_baselines + t.not_comparables
      ≡ s.compared + s.benchmark_errors + s.missing_baselines + s.not_comparables + length cs
  pub runs_kept : t.runs ≡ s.runs
  pub missing_runs_kept : t.missing_runs ≡ s.missing_runs
  pub contender_results_kept : t.contender_results ≡ s.contender_results
  pub commitless_runs_kept : t.commitless_runs ≡ s.commitless_runs
  pub baseline_errors_kept : t.baseline_errors ≡ s.baseline_errors
  pub baseline_action_err_kept : t.baseline_action_err ≡ s.baseline_action_err

Counts-cons :
    (c : Comparison) (cs : List Comparison) (s t : Summary)
    → Counts cs (count_row c.status s) t
    → Counts (c ∷ cs) s t
unfolding count_row
Counts-cons c cs s t h = ground arith

-- The loop counts every row once, under its status; what it calls compared and analyzed are the
-- sums of these counts; and the counters that are no row counts stay.
pub derive_summary-Counts : (cs : List Comparison) (s : Summary) → Counts cs s (derive_summary cs s)
unfolding derive_summary
derive_summary-Counts [] s = omega arith
derive_summary-Counts (c ∷ cs) s =
    Counts-cons c cs s (derive_summary cs (count_row c.status s))
      (derive_summary-Counts cs (count_row c.status s))

-- A summary before any row was counted.
pub record IsFresh (s : Summary) : Type 0 where
  pub no_regressions : s.regressions ≡ 0
  pub no_improvements : s.improvements ≡ 0
  pub no_stables : s.stables ≡ 0
  pub no_analyzed : s.analyzed ≡ 0
  pub no_errors : s.benchmark_errors ≡ 0

abbrev pub some_row : (RowStatus → Bool) → List Comparison → Bool
some_row p cs = any (λ (c : Comparison). p c.status) cs

some_row-rows : (p : RowStatus → Bool) (cs : List Comparison) → ltb 0 (rows p cs) ≡ some_row p cs
some_row-rows p [] = refl
some_row-rows p (c ∷ cs) = ground (arith, some_row-rows p cs)

-- What makes a report need an action besides its rows.
abbrev pub is_incomplete : Summary → Bool
is_incomplete s =
    ltb 0 s.missing_runs
    || (ltb 0 s.commitless_runs || (s.contender_results == 0 || ltb 0 s.baseline_action_err))

abbrev pub is_analyzed : RowStatus → Bool
is_analyzed regressed = true
is_analyzed improved = true
is_analyzed stable = true
is_analyzed _ = false

-- The status in terms of the rows.
abbrev pub status_of_rows : Summary → List Comparison → ReportStatus
status_of_rows s cs =
    if is_incomplete s || some_row is_errored cs
    then action_required
    else if some_row is_regressed cs
    then failure
    else if some_row is_improved cs || some_row is_stable cs
    then success
    else skipped

-- From a summary without row counts: a report needs an action exactly if runs are missing or have
-- no commit, there are no contender results, a baseline error needs an action, or a row is
-- errored; else it fails exactly if a row regressed; else it succeeds exactly if a row improved or
-- is stable; else it is skipped.
pub derive_status-rows :
    (cs : List Comparison) (s : Summary)
    → IsFresh s
    → derive_status (derive_summary cs s) ≡ status_of_rows s cs
unfolding derive_status
derive_status-rows cs s f =
    let h = derive_summary-Counts cs s in
    rw
      (
        ← some_row-rows is_errored cs,
        ← some_row-rows is_regressed cs,
        ← some_row-rows is_improved cs,
        ← some_row-rows is_stable cs,
      )
      (ground arith)
