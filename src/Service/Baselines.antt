-- ===== src/Service/Baselines.antt =====
-- The baseline run of each run of a CI report (internal/service/ci_report.go):
-- resolveBaselineCandidate, findBaselineRun, selectBaselineRuns and selectExplicitBaselineRuns.
-- The store answers reads; times are opaque numbers. Messages and the time spent are left out.
pub mod Search
pub mod Sources
pub mod Select
pub mod Entries
pub mod Found
pub mod Given
pub mod Preference
use conbench.Base.{
  ℕ, suc, ◌+◌, Bool, true, false, not, ◌&&◌, ◌||◌, Option, none, some, List, [], ◌∷◌, ◌++◌, String,
  str_eq, if◌then◌else◌, length, ◌==◌, ltb, any, keep, map, take,
}
use conbench.Base.Maps.{Map, lookup, insert, string_key}
use conbench.Base.Sort.{sort}
use conbench.Base.Results.{Result, ok, err, ◌>>=◌}
use conbench.Service.Alerts.{StoreError, not_found, store_failed}
use conbench.Service.Selection.{
  UrlStrings, RunRow, ReportError, invalid, query_failed, normalize_repo_url, member,
}

-- The baselines that a query may name, and the one that explicit run ids stand for.
pub data Baseline : Type 0 where
  fork_point parent latest_default explicit_run : Baseline

pub data BaselineErrorCode : Type 0 where
  missing_commit_metadata no_baseline_run unknown_parent unknown_fork_point default_branch_run :
      BaselineErrorCode
  unknown_latest_default unknown_candidate explicit_run_not_found ambiguous_baseline_run :
      BaselineErrorCode

pub record CommitRow : Type 0 where
  pub commit_id : String
  pub commit_sha : String
  pub timestamp : Option ℕ

pub record ResultRow : Type 0 where
  pub run_id : String
  pub commit_id : Option String
  pub result_timestamp : ℕ
  pub history_fingerprint : String

pub record BaselineError : Type 0 where
  pub code : BaselineErrorCode
  pub run_id : String
  pub searched_commit_shas : List String

pub record BaselineSelection : Type 0 where
  pub run_id : String
  pub contender_commit_id : String
  pub baseline_run_id : Option String
  pub baseline_commit_id : String
  pub commit : Option CommitRow
  pub commits_skipped : List String
  pub baseline_error : Option BaselineError

pub record BaselineCandidate : Type 0 where
  pub run_id : String
  pub commit_id : String
  pub commit : CommitRow
  pub depth : ℕ
  pub result_timestamp : ℕ
  pub same_reason : Bool

-- The reads of the store. A result row is asked for by run and commit.
pub record BaselineStore : Type 0 where
  pub latest_default_commit : String → Result StoreError String
  pub baseline_ancestry : String → String → ℕ → Result String (List CommitRow)
  pub runs_by_commit : String → String → Result String (List RunRow)
  pub runs_by_ids : List String → Result String (List RunRow)
  pub result_rows : List (String × String) → Result String (List ResultRow)
  pub commit_of : String → String → Result StoreError CommitRow

abbrev pub baseline_ancestor_limit : ℕ
baseline_ancestor_limit = 20

abbrev pub meta_commit_id : Option String → String
meta_commit_id none = ""
meta_commit_id (some id) = id

abbrev pub no_selection : RunRow → BaselineSelection
no_selection run = record {
  run_id = run.run_id;
  contender_commit_id = meta_commit_id run.commit_id;
  baseline_run_id = none;
  baseline_commit_id = "";
  commit = none;
  commits_skipped = [];
  baseline_error = none;
}

abbrev pub with_error : RunRow → BaselineErrorCode → List String → BaselineSelection
with_error run code shas = record (no_selection run) {
  baseline_error = some (record { code = code; run_id = run.run_id; searched_commit_shas = shas });
}

abbrev pub same_string_ptr : Option String → Option String → Bool
same_string_ptr none none = true
same_string_ptr (some a) (some b) = str_eq a b
same_string_ptr a b = false

-- How two times that may be missing compare: alike, or whether the first goes first.
abbrev later_first : Option ℕ → Option ℕ → Option Bool
later_first none none = none
later_first none (some b) = some false
later_first (some a) none = some true
later_first (some a) (some b) = if a == b then none else some (ltb b a)

abbrev or_else : Option Bool → Bool → Bool
or_else none next = next
or_else (some b) next = b

-- The comparison that findBaselineRun sorts by, over the order of strings.
unfoldable pub goes_first : (String → String → Bool) → BaselineCandidate → BaselineCandidate → Bool
goes_first string_lt a b =
    if (a.same_reason && not b.same_reason) || (not a.same_reason && b.same_reason)
    then a.same_reason
    else or_else (later_first a.commit.timestamp b.commit.timestamp) (
        or_else (later_first (some a.result_timestamp) (some b.result_timestamp)) (
          if not (str_eq a.run_id b.run_id)
          then string_lt b.run_id a.run_id
          else string_lt b.commit_id a.commit_id))

abbrev pub asked : {A : Type 0} → Result String A → Result ReportError A
asked (err e) = err (query_failed e)
asked (ok a) = ok a

module _ (strings : UrlStrings) (string_lt : String → String → Bool) (store : BaselineStore) where
  abbrev pub run_key_string : String → String → String
  run_key_string run_id commit_id = strings.concat (strings.concat run_id "\0") commit_id

  -- Whether the run is the contender itself.
  abbrev pub is_contender : RunRow → RunRow → String → Bool
  is_contender contender run commit_id =
      str_eq run.run_id contender.run_id && same_string_ptr (some commit_id) contender.commit_id

  abbrev pub with_commit :
      RunRow → RunRow → Option String → List (RunRow × String) → List (RunRow × String)
  with_commit contender run none rest = rest
  with_commit contender run (some id) rest =
      if is_contender contender run id then rest else (run, id) ∷ rest

  -- The runs that may be a baseline, with their commits: runMeta and candidateRunKeys in order.
  abbrev pub eligible : RunRow → List RunRow → List (RunRow × String)
  eligible contender [] = []
  eligible contender (run ∷ runs) =
      with_commit contender run run.commit_id (eligible contender runs)

  abbrev pub run_meta : List (RunRow × String) → Map String RunRow → Map String RunRow
  run_meta [] m = m
  run_meta ((run, id) ∷ rest) m = run_meta rest (insert (run_key_string run.run_id id) run m)

  abbrev is_newer : ℕ → Option ℕ → Bool
  is_newer t none = true
  is_newer t (some old) = ltb old t

  -- One row of the loop that fills latestByRunKey.
  abbrev note_row : List String → ResultRow → Option String → Map String ℕ → Map String ℕ
  note_row fingerprints row none m = m
  note_row fingerprints row (some id) m =
      let key = run_key_string row.run_id id in
      if member row.history_fingerprint fingerprints && is_newer row.result_timestamp (lookup key m)
      then insert key row.result_timestamp m
      else m

  abbrev pub latest_by_run_key : List String → List ResultRow → Map String ℕ → Map String ℕ
  latest_by_run_key fingerprints [] m = m
  latest_by_run_key fingerprints (row ∷ rows) m =
      latest_by_run_key fingerprints rows (note_row fingerprints row row.commit_id m)
