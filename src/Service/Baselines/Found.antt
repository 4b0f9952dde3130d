-- ===== src/Service/Baselines/Found.antt =====
-- The selection of a baseline by ancestry (selectBaselineRuns, internal/service/ci_report.go).
use conbench.Base.{◌≡◌, ◌⊎◌, Bool, none, some, List, String}
use conbench.Base.Maps.{string_key}
use conbench.Base.Results.{ok}
use conbench.Service.Selection.{UrlStrings, RunRow, normalize_repo_url}
use conbench.Service.Baselines.{
  CommitRow, BaselineSelection, BaselineCandidate, BaselineStore, baseline_ancestor_limit,
}
use conbench.Service.Baselines.Sources.{IsFrom}

-- A selection without a baseline.
abbrev pub HasNone : RunRow → BaselineSelection → Type 0
HasNone run s =
    (s.run_id ≡ run.run_id)
    × (s.baseline_run_id ≡ none)
    × (s.baseline_commit_id ≡ "")
    × (s.commit ≡ none)

module _ (strings : UrlStrings) (string_lt : String → String → Bool) (store : BaselineStore) where
  -- The baseline is a candidate at an ancestor, from a run of its commit, with no error.
  abbrev pub HasFound : RunRow → BaselineSelection → Type 0
  HasFound run s =
      (c : BaselineCandidate) × (sha : String) × (ancestry : List CommitRow)
      × (store.baseline_ancestry (normalize_repo_url strings run.commit_repo_url) sha
            baseline_ancestor_limit
          ≡ ok ancestry)
      × IsFrom strings string_lt store run ancestry c
      × (s.run_id ≡ run.run_id)
      × (s.baseline_run_id ≡ some c.run_id)
      × (s.baseline_commit_id ≡ c.commit_id)
      × (s.commit ≡ some c.commit)
      × (s.baseline_error ≡ none)

  abbrev pub IsSelection : RunRow → BaselineSelection → Type 0
  IsSelection run s = HasNone run s ⊎ HasFound run s
