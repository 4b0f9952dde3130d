-- ===== src/Commit/Window.antt =====
-- One job of the backfiller (Backfiller.runOne, internal/commit/backfill.go): the window of commits
-- of a default branch, and their rows. Times are seconds from the Unix epoch.
pub mod Inserts
use conbench.Base.{
  ℕ, zero, suc, ◌+◌, ◌-◌, Bool, true, false, Option, none, some, List, [], ◌∷◌, String, leb,
  if◌then◌else◌, length, slice,
}
use conbench.Base.Results.{Result, ok, err}
use conbench.CommitRepair.{BackfillJob}
use conbench.Commit.Client.{
  ClientError, Network, Client, ClientState, Fetched, fetched, failed, out_of_fuel, Fetch,
}
use conbench.Commit.Endpoints.{
  CommitJson, ParsedCommit, Codec, GithubText, parse_commit, commits_on_branch,
}
use conbench.Commit.Providers.{CommitInfo}

pub record BackfillStore (World : Type 0) : Type 0 where
  -- Repository, branch and time.
  pub latest_commit_timestamp_on_branch : String → String → ℕ → World → Result String (Option ℕ)
  -- The row of the commit; its id is not read.
  pub get_or_create_commit : CommitInfo → World → Result String String × World

abbrev pub epoch_or : Option ℕ → ℕ
epoch_or none = 0
epoch_or (some ts) = ts

-- The row of a commit on the default branch: it is its own fork point.
abbrev pub backfilled : BackfillJob → CommitJson → ParsedCommit → CommitInfo
backfilled job cj parsed = record {
  sha = cj.sha;
  repository = job.repo_url;
  parent = parsed.parent;
  message = parsed.message;
  author_name = parsed.author_name;
  author_login = parsed.author_login;
  author_avatar = parsed.author_avatar;
  timestamp = some parsed.timestamp;
  branch = some job.default_branch;
  fork_point_sha = some cj.sha;
}

-- The window without its two ends; `none` where nothing is left.
unfoldable pub trim_window : List CommitJson → Option (List CommitJson)
trim_window commits =
    if leb (length commits) 2 then none else some (slice 1 (length commits - 1) commits)

module _ {World : Type 0} (store : BackfillStore World) (client : Client World) (codec : Codec)
    (text : GithubText) (fuel page_fuel : ℕ) (net : Network World) where
  abbrev pub on_inserted :
      Result String String × World → ClientState World → Bool × ClientState World
  on_inserted (ok id, w) st = (true, record st { world = w })
  on_inserted (err e, w) st = (false, record st { world = w })

  abbrev pub insert_parsed :
      BackfillJob
      → CommitJson
      → Result ClientError ParsedCommit
      → ClientState World
      → Bool × ClientState World
  insert_parsed job cj (err e) st = (false, st)
  insert_parsed job cj (ok parsed) st =
      on_inserted (store.get_or_create_commit (backfilled job cj parsed) st.world) st

  unfoldable pub insert_one :
      BackfillJob → CommitJson → ClientState World → Bool × ClientState World
  insert_one job cj st = insert_parsed job cj (parse_commit codec text cj) st

  -- The loop over the window, which counts the commits that were inserted.
  unfoldable pub insert_each :
      BackfillJob → List CommitJson → ℕ → ClientState World → ℕ × ClientState World
  insert_each job [] inserted st = (inserted, st)
  insert_each job (cj ∷ commits) inserted st =
      let (done, t) = insert_one job cj st in
      insert_each job commits (if done then inserted + 1 else inserted) t

  abbrev pub on_window :
      BackfillJob → Option (List CommitJson) → ClientState World → ℕ × ClientState World
  on_window job none st = (0, st)
  on_window job (some commits) st = insert_each job commits 0 st

  abbrev pub on_fetched : BackfillJob → Fetch World (List CommitJson) → ℕ × ClientState World
  on_fetched job (fetched commits, st) = on_window job (trim_window commits) st
  on_fetched job (_, st) = (0, st)

  abbrev pub on_since :
      BackfillJob → Result String (Option ℕ) → ClientState World → ℕ × ClientState World
  on_since job (err e) st = (0, st)
  on_since job (ok ts) st = on_fetched job (
      commits_on_branch client codec text fuel net page_fuel job.spec job.default_branch
        (epoch_or ts) job.until st)

  -- The number of inserted commits, which the code logs.
  unfoldable pub run_one : BackfillJob → ClientState World → ℕ × ClientState World
  run_one job st =
      on_since job
        (store.latest_commit_timestamp_on_branch job.repo_url job.default_branch job.until st.world)
        st
