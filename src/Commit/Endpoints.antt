-- ===== src/Commit/Endpoints.antt =====
-- The endpoints of GitHub (internal/commit/github_client.go): commitInfo with parseCommit,
-- defaultBranch, prBranch, mergeBase and commitsOnBranch. JSON, URLs and dates are the caller's; a
-- string is also read as its runes. The network of a page is that of its own context.
pub mod Pages
use conbench.Base.{
  ℕ, zero, suc, ◌+◌, Bool, true, false, ◌&&◌, Option, none, some, List, [], ◌∷◌, ◌++◌, String, ltb,
  if◌then◌else◌, length, take,
}
use conbench.Base.Results.{Result, ok, err}
use conbench.Commit.Client.{
  ClientError, bad_date, wrapped, Network, Client, ClientState, Fetched, fetched, failed,
  out_of_fuel, Fetch, get_json,
}

pub record CommitJson : Type 0 where
  pub sha : String
  pub author_name : String
  pub author_date : String
  pub message : String
  -- The login and the avatar of the account, where GitHub knows it.
  pub author : Option (String × String)
  pub parents : List String

pub record ParsedCommit : Type 0 where
  pub parent : Option String
  pub timestamp : ℕ
  pub message : String
  pub author_name : String
  pub author_login : Option String
  pub author_avatar : Option String

-- The login of an owner and a default branch.
pub record BranchJson : Type 0 where
  pub owner : String
  pub default_branch : String

pub record RepoJson : Type 0 where
  pub fork : Bool
  pub own : BranchJson
  pub source : Option BranchJson

pub record Codec : Type 0 where
  pub commit : String → Result String CommitJson
  pub repo : String → Result String RepoJson
  pub pull_label : String → Result String String
  pub merge_base_sha : String → Result String String
  pub commits : String → Result String (List CommitJson)
  -- time.Parse with RFC3339, in UTC.
  pub parse_time : String → Result String ℕ

-- strings.Cut, the runes of a string, and the addresses of the endpoints.
pub record GithubText : Type 0 where
  pub cut : String → String → Option (String × String)
  pub runes : String → List ℕ
  pub of_runes : List ℕ → String
  pub colon : String → String → String
  pub commit_url : String → String → String
  pub repo_url : String → String
  pub pull_url : String → ℕ → String
  pub compare_url : String → String → String → String
  -- Repository, branch, since, until and page.
  pub page_url : String → String → ℕ → ℕ → ℕ → String

abbrev pub before_cut : String → Option (String × String) → String
before_cut s none = s
before_cut s (some (b, a)) = b

unfoldable pub first_line_240 : GithubText → String → String
first_line_240 text msg =
    let r = text.runes (before_cut msg (text.cut msg "\n")) in
    text.of_runes (if ltb 240 (length r) then take 240 r else r)

abbrev pub first_of : List String → Option String
first_of [] = none
first_of (s ∷ rest) = some s

abbrev pub with_author : Option (String × String) → ParsedCommit → ParsedCommit
with_author none p = p
with_author (some (login, avatar)) p = record p {
  author_login = some login;
  author_avatar = some avatar;
}

abbrev pub parsed_at : GithubText → CommitJson → Result String ℕ → Result ClientError ParsedCommit
parsed_at text cj (err e) = err (bad_date e)
parsed_at text cj (ok ts) =
    let plain : ParsedCommit = record {
      parent = first_of cj.parents;
      timestamp = ts;
      message = first_line_240 text cj.message;
      author_name = cj.author_name;
      author_login = none;
      author_avatar = none;
    } in
    ok (with_author cj.author plain)

unfoldable pub parse_commit : Codec → GithubText → CommitJson → Result ClientError ParsedCommit
parse_commit codec text cj = parsed_at text cj (codec.parse_time cj.author_date)

module _ {World : Type 0} where
  -- `if err != nil { return err }` after a request.
  abbrev pub and_then {ℓ κ} :
      {A : Type ℓ} {B : Type κ}
      → Fetch World A
      → (A → ClientState World → Fetch World B)
      → Fetch World B
  and_then (fetched a, st) k = k a st
  and_then (failed e, st) k = (failed e, st)
  and_then (out_of_fuel, st) k = (out_of_fuel, st)

  -- fmt.Errorf("what: %w", err).
  abbrev pub wrap {ℓ} : {A : Type ℓ} → String → Fetch World A → Fetch World A
  wrap what (fetched a, st) = (fetched a, st)
  wrap what (failed e, st) = (failed (wrapped what e), st)
  wrap what (out_of_fuel, st) = (out_of_fuel, st)

  abbrev pub from_result {ℓ} :
      {A : Type ℓ} → Result ClientError A → ClientState World → Fetch World A
  from_result (ok a) st = (fetched a, st)
  from_result (err e) st = (failed e, st)

abbrev pub branch_label : GithubText → BranchJson → String
branch_label text b = text.colon b.owner b.default_branch

abbrev pub default_label : GithubText → RepoJson → Option BranchJson → String
default_label text repo none = branch_label text repo.own
default_label text repo (some source) =
    if repo.fork then branch_label text source else branch_label text repo.own

abbrev pub query_branch : String → Option (String × String) → String
query_branch branch none = branch
query_branch branch (some (org, b)) = b

-- A page that is not full is the last.
abbrev pub full_page : ℕ
full_page = 100

module _ {World : Type 0} (client : Client World) (codec : Codec) (text : GithubText) (fuel : ℕ)
    (net : Network World) where
  unfoldable pub commit_info : String → String → ClientState World → Fetch World ParsedCommit
  commit_info spec sha st =
      and_then (get_json client net codec.commit fuel (text.commit_url spec sha) st)
        (λ cj t. from_result (parse_commit codec text cj) t)

  unfoldable pub default_branch : String → ClientState World → Fetch World String
  default_branch spec st =
      and_then (get_json client net codec.repo fuel (text.repo_url spec) st)
        (λ repo t. (fetched (default_label text repo repo.source), t))

  unfoldable pub pr_branch : String → ℕ → ClientState World → Fetch World String
  pr_branch spec pr st = get_json client net codec.pull_label fuel (text.pull_url spec pr) st

  unfoldable pub merge_base : String → String → String → ClientState World → Fetch World String
  merge_base spec base sha st =
      get_json client net codec.merge_base_sha fuel (text.compare_url spec base sha) st

  -- The paging loop, with fuel for its pages.
  unfoldable pub pages :
      ℕ → (ℕ → String) → ℕ → List CommitJson → ClientState World → Fetch World (List CommitJson)
  pages zero url page found st = (out_of_fuel, st)
  pages (suc n) url page found st =
      and_then (get_json client net codec.commits fuel (url page) st) (λ batch t.
        if ltb (length batch) full_page
        then (fetched (found ++ batch), t)
        else pages n url (page + 1) (found ++ batch) t)

  unfoldable pub commits_on_branch :
      ℕ → String → String → ℕ → ℕ → ClientState World → Fetch World (List CommitJson)
  commits_on_branch n spec branch since until st =
      let b = query_branch branch (text.cut branch ":") in
      pages n (text.page_url spec b since until) 1 [] st
