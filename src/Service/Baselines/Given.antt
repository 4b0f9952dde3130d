-- ===== src/Service/Baselines/Given.antt =====
-- The selection of baselines by explicit run ids (selectExplicitBaselineRuns,
-- internal/service/ci_report.go).
use conbench.Base.{◌≡◌, ◌⊎◌, Bool, none, some, List, [], String}
use conbench.Base.Maps.{lookup, string_key}
use conbench.Base.Results.{ok}
use conbench.Service.Selection.{UrlStrings, RunRow, normalize_repo_url}
use conbench.Service.Baselines.{CommitRow, BaselineSelection, BaselineStore}
use conbench.Service.Baselines.Sources.{Among}
use conbench.Service.Baselines.Found.{HasNone}
use conbench.Service.Baselines.Select.{baseline_by_run_id, or_empty}

module _ (strings : UrlStrings) (string_lt : String → String → Bool) (store : BaselineStore)
    (rows : List RunRow) where
  -- The baseline is the row of the given id in the contender's repository, with its commit.
  abbrev pub HasGiven : String → RunRow → BaselineSelection → Type 0
  HasGiven id run s =
      (base : RunRow) × (sha : String) × (commit : CommitRow) × Among base rows
      × (base.run_id ≡ id)
      × (normalize_repo_url strings base.commit_repo_url
          ≡ normalize_repo_url strings run.commit_repo_url)
      × (base.commit_sha ≡ some sha)
      × (store.commit_of (normalize_repo_url strings base.commit_repo_url) sha ≡ ok commit)
      × (s.run_id ≡ run.run_id)
      × (s.baseline_run_id ≡ some id)
      × (base.commit_id ≡ some s.baseline_commit_id)
      × (s.commit ≡ some commit)
      × (s.baseline_error ≡ none)

  abbrev pub IsGivenSelection : String → RunRow → BaselineSelection → Type 0
  IsGivenSelection id run s = HasNone run s ⊎ HasGiven id run s

module _ (strings : UrlStrings) (string_lt : String → String → Bool) (store : BaselineStore) where
  -- The id of the baseline that was given for a run.
  abbrev pub given_id : List String → List String → RunRow → String
  given_id run_ids baseline_run_ids run =
      or_empty strings string_lt store
        (lookup run.run_id (baseline_by_run_id strings string_lt store run_ids baseline_run_ids []))
