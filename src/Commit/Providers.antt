-- ===== src/Commit/Providers.antt =====
-- The providers of commit metadata (internal/commit/github.go, local.go and map.go). The context with
-- its budget is part of the network; a backfill queue is the caller's, over an open `World`.
use conbench.Base.{ℕ, ◌+◌, Option, none, some, String, str_eq, if◌then◌else◌}
use conbench.Base.Maps.{Map, lookup, string_key}
use conbench.CommitRepair.{BackfillJob}
use conbench.Service.Selection.{UrlStrings, normalize_repo_url}
use conbench.Commit.Client.{
  unsupported_repository, Network, Client, ClientState, fetched, failed, Fetch,
}
use conbench.Commit.Endpoints.{
  ParsedCommit, Codec, GithubText, and_then, wrap, commit_info, default_branch, pr_branch,
  merge_base,
}

pub record Request : Type 0 where
  pub commit : String
  pub repository : String
  pub result_timestamp : ℕ
  pub branch : String
  pub pr_number : Option ℕ

pub record CommitInfo : Type 0 where
  pub sha : String
  pub repository : String
  pub parent : Option String
  pub message : String
  pub author_name : String
  pub author_login : Option String
  pub author_avatar : Option String
  pub timestamp : Option ℕ
  pub branch : Option String
  pub fork_point_sha : Option String

-- The row of a commit of which only its sha is known.
abbrev pub unknown_commit : String → String → CommitInfo
unknown_commit sha repo_url = record {
  sha = sha;
  repository = repo_url;
  parent = none;
  message = "";
  author_name = "";
  author_login = none;
  author_avatar = none;
  timestamp = none;
  branch = none;
  fork_point_sha = none;
}

-- LocalProvider.Resolve: `none` where no commit is given.
unfoldable pub resolve_local : UrlStrings → Request → Option CommitInfo
resolve_local strings req =
    if str_eq req.commit ""
    then none
    else some (record (unknown_commit req.commit (normalize_repo_url strings req.repository)) {
      fork_point_sha = some req.commit;
      timestamp = some req.result_timestamp;
    })

abbrev pub or_own : String → Option String → Option String
or_own sha none = some sha
or_own sha (some fork_point) = some fork_point

abbrev pub on_mapped : UrlStrings → Request → Option CommitInfo → Option CommitInfo
on_mapped strings req none = none
on_mapped strings req (some info) = some (record info {
  sha = req.commit;
  repository = normalize_repo_url strings req.repository;
  fork_point_sha = or_own req.commit info.fork_point_sha;
})

-- MapProvider.Resolve.
unfoldable pub resolve_mapped : UrlStrings → Map String CommitInfo → Request → Option CommitInfo
resolve_mapped strings commits req =
    if str_eq req.commit "" then none else on_mapped strings req (lookup req.commit commits)

abbrev pub not_empty : Option String → Option String
not_empty none = none
not_empty (some rest) = if str_eq rest "" then none else some rest

-- "org/repo" of a normalized address.
unfoldable pub repo_spec : UrlStrings → String → Option String
repo_spec strings repo_url = not_empty (strings.cut_prefix repo_url "https://github.com/")

-- The `enrichment` of the code.
pub record Enriched : Type 0 where
  pub info : CommitInfo
  pub spec : String
  pub default_branch : String

abbrev pub enriched_info : String → Request → ParsedCommit → String → String → CommitInfo
enriched_info repo_url req meta branch fork_point = record {
  sha = req.commit;
  repository = repo_url;
  parent = meta.parent;
  message = meta.message;
  author_name = meta.author_name;
  author_login = meta.author_login;
  author_avatar = meta.author_avatar;
  timestamp = some meta.timestamp;
  branch = some branch;
  fork_point_sha = some fork_point;
}

abbrev pub or_default : String → String → String
or_default branch default = if str_eq branch "" then default else branch

-- The job for the default branch, where the commit is on it.
abbrev pub job_for : String → Enriched → Option ℕ → Option String → Option BackfillJob
job_for repo_url e (some ts) (some fork_point) =
    if str_eq fork_point e.info.sha
    then some (record {
      repo_url = repo_url;
      spec = e.spec;
      default_branch = e.default_branch;
      until = ts;
    })
    else none
job_for repo_url e _ _ = none

module _ {World : Type 0} (client : Client World) (codec : Codec) (text : GithubText)
    (strings : UrlStrings) (fuel : ℕ) (net : Network World) where
  abbrev pub branch_of_pr : String → Option ℕ → ClientState World → Fetch World String
  branch_of_pr spec none st = (fetched "", st)
  branch_of_pr spec (some pr) st =
      wrap "resolve branch from pr" (pr_branch client codec text fuel net spec pr st)

  -- An explicit branch, else that of the pull request, else the default branch.
  unfoldable pub resolve_branch : String → Request → String → ClientState World → Fetch World String
  resolve_branch spec req default st =
      and_then
        (if str_eq req.branch ""
          then branch_of_pr spec req.pr_number st
          else (fetched req.branch, st))
        (λ branch t. (fetched (or_default branch default), t))

  abbrev pub enrich_spec :
      String → Request → Option String → ClientState World → Fetch World Enriched
  enrich_spec repo_url req none st = (failed (unsupported_repository repo_url), st)
  enrich_spec repo_url req (some spec) st =
      and_then
        (wrap "fetch commit metadata" (commit_info client codec text fuel net spec req.commit st))
        (λ meta t.
          and_then
            (wrap "resolve default branch" (default_branch client codec text fuel net spec t))
            (λ default u. and_then (resolve_branch spec req default u) (λ branch v.
              and_then
                (wrap "resolve fork point"
                  (merge_base client codec text fuel net spec default req.commit v))
                (λ fork_point w. (
                  fetched (record {
                    info = enriched_info repo_url req meta branch fork_point;
                    spec = spec;
                    default_branch = default;
                  }),
                  w,
                )))))

  unfoldable pub enrich_from_api : String → Request → ClientState World → Fetch World Enriched
  enrich_from_api repo_url req st = enrich_spec repo_url req (repo_spec strings repo_url) st

  -- Enrich: no metadata and no job where no commit is given.
  unfoldable pub enrich :
      Request → ClientState World → Fetch World (Option CommitInfo × Option BackfillJob)
  enrich req st =
      if str_eq req.commit ""
      then (fetched (none, none), st)
      else (let repo_url = normalize_repo_url strings req.repository in
          and_then (enrich_from_api repo_url req st) (λ e t.
            (fetched (some e.info, job_for repo_url e e.info.timestamp e.info.fork_point_sha), t)))

  abbrev pub offer :
      Option (BackfillJob → World → World)
      → Option BackfillJob
      → ClientState World
      → ClientState World
  offer (some enqueue) (some job) st = record st { world = enqueue job st.world }
  offer _ _ st = st

  -- Resolve, with the count of the commits that stayed unknown.
  abbrev pub on_enriched :
      Option (BackfillJob → World → World)
      → Request
      → ℕ
      → Fetch World (Option CommitInfo × Option BackfillJob)
      → (Option CommitInfo × ℕ) × ClientState World
  on_enriched backfill req unknown (fetched (info, job), st) =
      ((info, unknown), offer backfill job st)
  on_enriched backfill req unknown (_, st) = (
    (some (unknown_commit req.commit (normalize_repo_url strings req.repository)), unknown + 1),
    st,
  )

  unfoldable pub resolve :
      Option (BackfillJob → World → World)
      → Request
      → ℕ
      → ClientState World
      → (Option CommitInfo × ℕ) × ClientState World
  resolve backfill req unknown st = on_enriched backfill req unknown (enrich req st)
