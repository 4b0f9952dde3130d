-- ===== src/Examples/ReportRuns.antt =====
-- The selection of runs and baselines (internal/service/ci_report.go) on small inputs.
use conbench.Base.{◌≡◌, refl, true, not, ◌&&◌, none, some, List, [], ◌∷◌, String, All}
use conbench.Base.Maps.{string_key}
use conbench.Base.Results.{ok, err}
use conbench.Service.Alerts.{not_found}
use conbench.Service.Selection.{
  UrlStrings, RunRow, RunStore, RunSelection, SelectionQuery, member, has_run, normalize_repo_url,
  commit_selection, id_selection, select_ci_report_runs, select_commit_mode_runs,
  select_run_only_runs, row_agrees,
}
use conbench.Service.Selection.Laws.{
  distinct, select_ci_report_runs-Splits, select_run_only_runs-All,
}
use conbench.Service.Baselines.{BaselineStore, BaselineSelection}
use conbench.Base.{Option}
use conbench.Service.Baselines.{CommitRow, ResultRow, BaselineCandidate}

abbrev plain_urls : UrlStrings
plain_urls = record {
  cut_prefix = λ s prefix. none;
  trim_right = λ s end. s;
  trim_space = λ s. s;
  concat = λ a b. a;
}

abbrev run_of : String → RunRow
run_of id = record {
  run_id = id;
  run_reason = none;
  commit_repo_url = "repo";
  commit_id = some "k1";
  commit_sha = some "c1";
  commit_repository = some "repo";
  commit_parent = none;
  commit_fork_point_sha = none;
}

abbrev two_runs : RunStore
two_runs = record {
  runs_by_commit = λ repository sha. ok (run_of "r1" ∷ run_of "r2" ∷ []);
  runs_by_ids = λ ids. ok (run_of "r1" ∷ run_of "r2" ∷ []);
}

abbrev asked_ids : List String
asked_ids = "r1" ∷ "r9" ∷ []

abbrev by_commit : SelectionQuery
by_commit = record {
  repository = "repo";
  commit_sha = "c1";
  run_ids = asked_ids;
  baseline_run_ids = [];
  baseline = "";
}

abbrev selected : RunSelection
selected = commit_selection plain_urls two_runs by_commit (run_of "r1" ∷ run_of "r2" ∷ [])

selection_splits_example :
    ((id : String)
      → member id selected.missing_run_ids ≡ member id asked_ids && not (has_run id selected.runs))
    × (distinct selected.missing_run_ids ≡ true)
unfolding select_ci_report_runs select_commit_mode_runs
selection_splits_example =
    select_ci_report_runs-Splits plain_urls two_runs by_commit selected refl refl

abbrev by_ids : RunSelection
by_ids = id_selection plain_urls two_runs asked_ids (run_of "r1") (run_of "r2" ∷ [])

run_only_example :
    All
      (λ (row : RunRow).
        (normalize_repo_url plain_urls row.commit_repo_url ≡ by_ids.repository)
        × (row.commit_sha ≡ by_ids.commit_sha))
      by_ids.runs
unfolding select_run_only_runs row_agrees normalize_repo_url
run_only_example = select_run_only_runs-All plain_urls two_runs asked_ids by_ids refl

-- Two runs at one ancestor, of which the second has the reason of the contender.
abbrev older : CommitRow
older = record { commit_id = "k0"; commit_sha = "c0"; timestamp = some 3 }

abbrev base_run : String → Option String → RunRow
base_run id reason = record {
  run_id = id;
  run_reason = reason;
  commit_repo_url = "repo";
  commit_id = some "k0";
  commit_sha = some "c0";
  commit_repository = some "repo";
  commit_parent = none;
  commit_fork_point_sha = none;
}

abbrev base_row : String → ResultRow
base_row id = record {
  run_id = id;
  commit_id = some "k0";
  result_timestamp = 5;
  history_fingerprint = "f1";
}

abbrev one_ancestor : BaselineStore
one_ancestor = record {
  latest_default_commit = λ repository. err not_found;
  baseline_ancestry = λ repository sha limit. ok (older ∷ []);
  runs_by_commit = λ repository sha. ok (base_run "b1" (some "manual") ∷ base_run "b2" none ∷ []);
  runs_by_ids = λ ids. ok [];
  result_rows = λ keys. ok (base_row "b1" ∷ base_row "b2" ∷ []);
  commit_of = λ repository sha. err not_found;
}

abbrev preferred : BaselineCandidate
preferred = record {
  run_id = "b2";
  commit_id = "k0";
  commit = older;
  depth = 0;
  result_timestamp = 5;
  same_reason = true;
}

-- A run whose parent is the ancestor, and the selection of the second run there.
abbrev child : RunRow
child = record (run_of "r1") { commit_parent = some "c0" }

abbrev b2_selected : BaselineSelection
b2_selected = record {
  run_id = "r1";
  contender_commit_id = "k1";
  baseline_run_id = some "b2";
  baseline_commit_id = "k0";
  commit = some older;
  commits_skipped = [];
  baseline_error = none;
}

abbrev child_row : ResultRow
child_row = record {
  run_id = "r1";
  commit_id = some "k1";
  result_timestamp = 9;
  history_fingerprint = "f1";
}

abbrev given_run : BaselineStore
given_run = record one_ancestor {
  runs_by_ids = λ ids. ok (base_run "b1" none ∷ base_run "b2" none ∷ []);
  commit_of = λ repository sha. ok older;
}
