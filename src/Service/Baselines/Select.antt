-- ===== src/Service/Baselines/Select.antt =====
-- The selection of a baseline for each run (internal/service/ci_report.go):
-- resolveBaselineCandidate, selectBaselineRuns and selectExplicitBaselineRuns.
use conbench.Base.{
  Bool, ◌&&◌, Option, none, some, List, [], ◌∷◌, String, str_eq, if◌then◌else◌, keep, map, take,
}
use conbench.Base.Maps.{Map, lookup, insert, string_key}
use conbench.Base.Results.{Result, ok, err, ◌>>=◌}
use conbench.Service.Alerts.{StoreError, not_found, store_failed}
use conbench.Service.Selection.{
  UrlStrings, RunRow, ReportError, invalid, query_failed, normalize_repo_url,
}
use conbench.Service.Baselines.{
  Baseline, fork_point, parent, latest_default, explicit_run, BaselineErrorCode,
  missing_commit_metadata, no_baseline_run, unknown_parent, unknown_fork_point, default_branch_run,
  unknown_latest_default, unknown_candidate, explicit_run_not_found, ambiguous_baseline_run,
  CommitRow, ResultRow, BaselineSelection, BaselineCandidate, BaselineStore,
  baseline_ancestor_limit, no_selection, with_error, same_string_ptr, asked,
}
use conbench.Service.Baselines.Search.{find_baseline_run}

-- A candidate's commit, or why there is none.
pub data Resolved : Type 0 where
  candidate : String → Resolved
  unresolved : BaselineErrorCode → Resolved

abbrev on_parent : Option String → Resolved
on_parent none = unresolved unknown_parent
on_parent (some sha) = if str_eq sha "" then unresolved unknown_parent else candidate sha

abbrev on_fork_point : Option String → Option String → Resolved
on_fork_point none sha = unresolved unknown_fork_point
on_fork_point (some fork) sha =
    if str_eq fork ""
    then unresolved unknown_fork_point
    else if same_string_ptr (some fork) sha
    then unresolved default_branch_run
    else candidate fork

abbrev on_latest : Result StoreError String → Result ReportError Resolved
on_latest (err not_found) = ok (unresolved unknown_latest_default)
on_latest (err (store_failed e)) = err (query_failed e)
on_latest (ok sha) = ok (candidate sha)

abbrev pub rows_of : Option (List ResultRow) → List ResultRow
rows_of none = []
rows_of (some rows) = rows

abbrev shas : List CommitRow → List String
shas cs = map (λ (c : CommitRow). c.commit_sha) cs

-- The loop over the runs, which both selections share: a selection per run id.
unfoldable pub collect :
    (RunRow → Result ReportError BaselineSelection)
    → List RunRow
    → Map String BaselineSelection
    → Result ReportError (Map String BaselineSelection)
collect select [] m = ok m
collect select (run ∷ runs) m =
    select run >>= λ selection. collect select runs (insert run.run_id selection m)

module _ (strings : UrlStrings) (string_lt : String → String → Bool) (store : BaselineStore) where
  unfoldable pub resolve_baseline_candidate : Baseline → RunRow → Result ReportError Resolved
  resolve_baseline_candidate parent run = ok (on_parent run.commit_parent)
  resolve_baseline_candidate fork_point run =
      ok (on_fork_point run.commit_fork_point_sha run.commit_sha)
  resolve_baseline_candidate latest_default run =
      on_latest (store.latest_default_commit (normalize_repo_url strings run.commit_repo_url))
  resolve_baseline_candidate explicit_run run = err (invalid "invalid baseline")

  abbrev pub on_found : RunRow → List CommitRow → Option BaselineCandidate → BaselineSelection
  on_found run ancestry none = with_error run no_baseline_run (shas ancestry)
  on_found run ancestry (some c) = record (no_selection run) {
    baseline_run_id = some c.run_id;
    baseline_commit_id = c.commit_id;
    commit = some c.commit;
    commits_skipped = shas (take c.depth ancestry);
  }

  abbrev pub on_ancestry :
      RunRow → List ResultRow → List CommitRow → Result ReportError BaselineSelection
  on_ancestry run rows [] = ok (with_error run unknown_candidate [])
  on_ancestry run rows (c ∷ cs) =
      find_baseline_run strings string_lt store run
        (map (λ (r : ResultRow). r.history_fingerprint) rows) (c ∷ cs)
      >>= λ found. ok (on_found run (c ∷ cs) found)

  abbrev pub on_resolved : RunRow → List ResultRow → Resolved → Result ReportError BaselineSelection
  on_resolved run rows (unresolved code) = ok (with_error run code [])
  on_resolved run rows (candidate sha) =
      asked (
        store.baseline_ancestry (normalize_repo_url strings run.commit_repo_url) sha
          baseline_ancestor_limit)
      >>= λ ancestry. on_ancestry run rows ancestry

  -- The body of the loop for one run.
  abbrev pub on_commit_sha :
      Baseline → RunRow → List ResultRow → Option String → Result ReportError BaselineSelection
  on_commit_sha baseline run rows none = ok (no_selection run)
  on_commit_sha baseline run rows (some sha) =
      resolve_baseline_candidate baseline run >>= on_resolved run rows

  unfoldable pub select_baseline_runs :
      Baseline
      → List RunRow
      → Map String (List ResultRow)
      → Result ReportError (Map String BaselineSelection)
  unfolding collect
  select_baseline_runs baseline runs contenders =
      collect
        (λ run. on_commit_sha baseline run (rows_of (lookup run.run_id contenders)) run.commit_sha)
        runs []

  -- baselineByRunID: the later of two entries for one run stays.
  abbrev pub baseline_by_run_id : List String → List String → Map String String → Map String String
  baseline_by_run_id [] bs m = m
  baseline_by_run_id (id ∷ ids) [] m = m
  baseline_by_run_id (id ∷ ids) (b ∷ bs) m = baseline_by_run_id ids bs (insert id b m)

  abbrev pub or_empty : Option String → String
  or_empty none = ""
  or_empty (some s) = s

  abbrev pub on_commit_of :
      RunRow → String → String → Result StoreError CommitRow → Result ReportError BaselineSelection
  on_commit_of run baseline_id commit_id (err not_found) =
      ok (with_error run missing_commit_metadata [])
  on_commit_of run baseline_id commit_id (err (store_failed e)) = err (query_failed e)
  on_commit_of run baseline_id commit_id (ok c) = ok (record (no_selection run) {
    baseline_run_id = some baseline_id;
    baseline_commit_id = commit_id;
    commit = some c;
  })

  abbrev pub on_base :
      RunRow
      → String
      → RunRow
      → Option String
      → Option String
      → Result ReportError BaselineSelection
  on_base run baseline_id base none sha = ok (with_error run missing_commit_metadata [])
  on_base run baseline_id base (some commit_id) none =
      ok (with_error run missing_commit_metadata [])
  on_base run baseline_id base (some commit_id) (some sha) =
      on_commit_of run baseline_id commit_id
        (store.commit_of (normalize_repo_url strings base.commit_repo_url) sha)

  abbrev pub on_rows : RunRow → String → List RunRow → Result ReportError BaselineSelection
  on_rows run baseline_id [] = ok (with_error run explicit_run_not_found [])
  on_rows run baseline_id (base ∷ []) = on_base run baseline_id base base.commit_id base.commit_sha
  on_rows run baseline_id (base ∷ other ∷ rows) = ok (with_error run ambiguous_baseline_run [])

  -- The rows of the baseline run in the contender's repository.
  abbrev pub same_repo_rows : List RunRow → RunRow → String → List RunRow
  same_repo_rows baseline_rows run baseline_id =
      keep
        (λ (row : RunRow).
          str_eq row.run_id baseline_id
          && str_eq (normalize_repo_url strings row.commit_repo_url)
              (normalize_repo_url strings run.commit_repo_url))
        baseline_rows

  -- One run with the id of its baseline, empty where it has none.
  unfoldable pub select_explicit :
      List RunRow → RunRow → String → Result ReportError BaselineSelection
  select_explicit baseline_rows run baseline_id =
      if str_eq baseline_id ""
      then ok (no_selection run)
      else on_rows run baseline_id (same_repo_rows baseline_rows run baseline_id)

  unfoldable pub select_explicit_baseline_runs :
      List String → List String → List RunRow → Result ReportError (Map String BaselineSelection)
  unfolding collect
  select_explicit_baseline_runs run_ids baseline_run_ids runs =
      asked (store.runs_by_ids baseline_run_ids) >>= λ baseline_rows.
      let ids = baseline_by_run_id run_ids baseline_run_ids [] in
      collect (λ run. select_explicit baseline_rows run (or_empty (lookup run.run_id ids))) runs []
