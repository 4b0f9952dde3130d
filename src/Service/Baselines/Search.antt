-- ===== src/Service/Baselines/Search.antt =====
-- findBaselineRun: the search for a baseline run among ancestors
-- (internal/service/ci_report.go).
use conbench.Base.{
  ℕ, suc, Bool, Option, none, some, List, [], ◌∷◌, ◌++◌, String, if◌then◌else◌, length, ◌==◌, map,
}
use conbench.Base.Maps.{Map, lookup, string_key}
use conbench.Base.Sort.{sort}
use conbench.Base.Results.{Result, ok, ◌>>=◌}
use conbench.Service.Selection.{UrlStrings, RunRow, ReportError, normalize_repo_url}
use conbench.Service.Baselines.{
  CommitRow, BaselineCandidate, BaselineStore, meta_commit_id, same_string_ptr, goes_first, asked,
  eligible, run_meta, latest_by_run_key,
}

abbrev pub no_run : RunRow
no_run = record {
  run_id = "";
  run_reason = none;
  commit_repo_url = "";
  commit_id = none;
  commit_sha = none;
  commit_repository = none;
  commit_parent = none;
  commit_fork_point_sha = none;
}

-- A missing key of runMeta reads as the zero row.
abbrev pub or_no_run : Option RunRow → RunRow
or_no_run none = no_run
or_no_run (some run) = run

-- candidates[0].
abbrev pub first : List BaselineCandidate → Option BaselineCandidate
first [] = none
first (c ∷ cs) = some c

module _ (strings : UrlStrings) (string_lt : String → String → Bool) (store : BaselineStore) where
  abbrev pub candidate_of :
      RunRow → CommitRow → ℕ → Map String RunRow → String × ℕ → BaselineCandidate
  candidate_of contender c depth runs (key, ts) =
      let meta = or_no_run (lookup key runs) in
      record {
        run_id = meta.run_id;
        commit_id = meta_commit_id meta.commit_id;
        commit = c;
        depth = depth;
        result_timestamp = ts;
        same_reason = same_string_ptr contender.run_reason meta.run_reason;
      }

  -- The candidates at one ancestor.
  unfoldable pub candidates_at :
      RunRow → List String → CommitRow → ℕ → Result ReportError (List BaselineCandidate)
  candidates_at contender fingerprints c depth =
      asked
        (store.runs_by_commit (normalize_repo_url strings contender.commit_repo_url) c.commit_sha)
      >>= λ runs.
          let kept = eligible strings string_lt store contender runs in
          if length kept == 0
          then ok []
          else asked (store.result_rows (map (λ r. (r.0.run_id, r.1)) kept)) >>= λ rows. ok (
              map (candidate_of contender c depth (run_meta strings string_lt store kept []))
                (latest_by_run_key strings string_lt store fingerprints rows []))

  unfoldable pub candidates_from :
      RunRow → List String → ℕ → List CommitRow → Result ReportError (List BaselineCandidate)
  candidates_from contender fingerprints depth [] = ok []
  candidates_from contender fingerprints depth (c ∷ cs) =
      let rest = candidates_from contender fingerprints (suc depth) cs in
      candidates_at contender fingerprints c depth >>= λ here. rest >>= λ there. ok (here ++ there)

  unfoldable pub find_baseline_run :
      RunRow → List String → List CommitRow → Result ReportError (Option BaselineCandidate)
  find_baseline_run contender fingerprints ancestry =
      if length fingerprints == 0
      then ok none
      else candidates_from contender fingerprints 0 ancestry >>= λ found.
          ok (first (sort (goes_first string_lt) found))
