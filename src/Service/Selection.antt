-- ===== src/Service/Selection.antt =====
-- Which runs a CI report is about (internal/service/ci_report.go): validateExplicitBaselineRunIDs,
-- selectCIReportRuns and its helpers, with NormalizeRepoURL (internal/commit/commit.go). A map of
-- Go to true is the list of its keys.
pub mod Laws
use conbench.Base.{
  ℕ, Bool, true, false, not, ◌&&◌, ◌||◌, Option, none, some, List, [], ◌∷◌, String, str_eq,
  if◌then◌else◌, length, ◌==◌, any, keep, map,
}
use conbench.Base.Results.{Result, ok, err, ◌>>=◌}

-- The functions of the package strings that the code calls, and `+`.
pub record UrlStrings : Type 0 where
  pub cut_prefix : String → String → Option String
  pub trim_right : String → String → String
  pub trim_space : String → String
  pub concat : String → String → String

abbrev from_ssh : UrlStrings → String → Option String → String
from_ssh strings raw none = raw
from_ssh strings raw (some rest) = strings.concat "https://github.com/" rest

unfoldable pub normalize_repo_url : UrlStrings → String → String
normalize_repo_url strings raw =
    strings.trim_right (from_ssh strings raw (strings.cut_prefix raw "git@github.com:")) "/"

pub record RunRow : Type 0 where
  pub run_id : String
  pub run_reason : Option String
  pub commit_repo_url : String
  pub commit_id : Option String
  pub commit_sha : Option String
  pub commit_repository : Option String
  pub commit_parent : Option String
  pub commit_fork_point_sha : Option String

pub data ReportError : Type 0 where
  invalid : String → ReportError
  nothing_found : ReportError
  query_failed : String → ReportError

pub record SelectionQuery : Type 0 where
  pub repository : String
  pub commit_sha : String
  pub run_ids : List String
  pub baseline_run_ids : List String
  pub baseline : String

pub record RunSelection : Type 0 where
  pub repository : String
  pub commit_sha : Option String
  pub runs : List RunRow
  pub missing_run_ids : List String
  pub all_commitless : Bool
  pub commit_selector : Bool

-- SelectCIReportRunsByCommit and SelectCIReportRunsByIDs.
pub record RunStore : Type 0 where
  pub runs_by_commit : String → String → Result String (List RunRow)
  pub runs_by_ids : List String → Result String (List RunRow)

unfoldable pub validate_explicit_baseline_run_ids : SelectionQuery → Result ReportError (Unit {0})
validate_explicit_baseline_run_ids q =
    if length q.baseline_run_ids == 0
    then ok tt
    else if length q.run_ids == 0
    then err (invalid "baseline_run_ids requires run_ids")
    else if not (str_eq q.baseline "")
    then err (invalid "baseline cannot be set with baseline_run_ids")
    else if not (length q.baseline_run_ids == length q.run_ids)
    then err (invalid "baseline_run_ids must match run_ids count")
    else ok tt

abbrev pub member : String → List String → Bool
member id ids = any (str_eq id) ids

abbrev pub has_run : String → List RunRow → Bool
has_run id rows = any (λ (row : RunRow). str_eq id row.run_id) rows

-- The loop over the explicit ids; `seen` holds the keys of seenMissing.
unfoldable pub missing_from : List RunRow → List String → List String → List String
missing_from rows seen [] = []
missing_from rows seen (id ∷ ids) =
    let rest = missing_from rows seen ids in
    let rest' = missing_from rows (id ∷ seen) ids in
    if has_run id rows || member id seen then rest else id ∷ rest'

unfoldable pub missing_run_ids : List String → List RunRow → List String
missing_run_ids explicit rows = missing_from rows [] explicit

unfoldable pub filter_runs_by_ids : List RunRow → List String → List RunRow
filter_runs_by_ids rows run_ids = keep (λ (row : RunRow). member row.run_id run_ids) rows

abbrev is_nil : Option String → Bool
is_nil none = true
is_nil (some s) = false

abbrev same_repository : UrlStrings → String → Option String → Bool
same_repository strings repository none = false
same_repository strings repository (some url) = str_eq (normalize_repo_url strings url) repository

abbrev same_sha : Option String → Option String → Bool
same_sha (some a) (some b) = str_eq a b
same_sha a b = false

-- One turn of the loop of ciReportValidateRunOnlyRows: whether the row agrees with the first.
unfoldable pub row_agrees : UrlStrings → String → Option String → RunRow → Bool
row_agrees strings repository sha row =
    str_eq (normalize_repo_url strings row.commit_repo_url) repository
    && (if is_nil sha
        then is_nil row.commit_sha
        else same_repository strings repository row.commit_repository
          && same_sha row.commit_sha sha)

abbrev pub all_agree : UrlStrings → String → Option String → List RunRow → Bool
all_agree strings repository sha [] = true
all_agree strings repository sha (row ∷ rows) =
    row_agrees strings repository sha row && all_agree strings repository sha rows

module _ (strings : UrlStrings) (store : RunStore) where
  abbrev pub commit_selection : SelectionQuery → List RunRow → RunSelection
  commit_selection q rows =
      let all_runs = length q.run_ids == 0 in
      record {
        repository = normalize_repo_url strings q.repository;
        commit_sha = some (strings.trim_space q.commit_sha);
        runs = if all_runs then rows else filter_runs_by_ids rows q.run_ids;
        missing_run_ids = if all_runs then [] else missing_run_ids q.run_ids rows;
        all_commitless = false;
        commit_selector = true;
      }

  abbrev pub on_commit_rows :
      SelectionQuery → Result String (List RunRow) → Result ReportError RunSelection
  on_commit_rows q (err e) = err (query_failed e)
  on_commit_rows q (ok rows) = ok (commit_selection q rows)

  unfoldable pub select_commit_mode_runs : SelectionQuery → Result ReportError RunSelection
  select_commit_mode_runs q = on_commit_rows q (
      store.runs_by_commit (normalize_repo_url strings q.repository)
        (strings.trim_space q.commit_sha))

  abbrev pub id_selection : List String → RunRow → List RunRow → RunSelection
  id_selection run_ids row rows = record {
    repository = normalize_repo_url strings row.commit_repo_url;
    commit_sha = row.commit_sha;
    runs = row ∷ rows;
    missing_run_ids = missing_run_ids run_ids (row ∷ rows);
    all_commitless = is_nil row.commit_sha;
    commit_selector = false;
  }

  abbrev pub on_id_rows :
      List String → Result String (List RunRow) → Result ReportError RunSelection
  on_id_rows run_ids (err e) = err (query_failed e)
  on_id_rows run_ids (ok []) = err nothing_found
  on_id_rows run_ids (ok (row ∷ rows)) =
      if all_agree strings (normalize_repo_url strings row.commit_repo_url) row.commit_sha
        (row ∷ rows)
      then ok (id_selection run_ids row rows)
      else err (invalid "run_ids must share the same repository and commit")

  unfoldable pub select_run_only_runs : List String → Result ReportError RunSelection
  select_run_only_runs run_ids = on_id_rows run_ids (store.runs_by_ids run_ids)

  unfoldable pub select_ci_report_runs : SelectionQuery → Result ReportError RunSelection
  select_ci_report_runs q =
      let has_repo = not (str_eq (strings.trim_space q.repository) "") in
      let has_commit = not (str_eq (strings.trim_space q.commit_sha) "") in
      let has_run_ids = not (length q.run_ids == 0) in
      if (has_repo && not has_commit) || (not has_repo && has_commit)
      then err (invalid "repository and commit_sha must be provided together")
      else if not has_repo && not has_run_ids
      then err (invalid "provide repository and commit_sha or run_ids")
      else if has_repo
      then select_commit_mode_runs q
      else select_run_only_runs q.run_ids
