-- ===== src/Examples/WindowRuns.antt =====
-- A backfill of three commits from a server in memory, and the theorems about it
-- (Backfiller.runOne, internal/commit/backfill.go).
use conbench.Base.{
  ℕ, zero, suc, ◌+◌, ◌*◌, ◌≤◌, ◌≡◌, refl, true, false, none, List, [], ◌∷◌, String, arith, length,
  length-drop, ◌==◌, str_eq, if◌then◌else◌, take, drop,
}
use conbench.Base.Results.{ok, err}
use conbench.CommitRepair.{BackfillJob}
use conbench.Commit.Client.{
  Network, Client, ClientState, fetched, reply, get_json, get_json_loop, attempt, token,
}
use conbench.Commit.Endpoints.{
  CommitJson, Codec, GithubText, commits_on_branch, pages, parse_commit, first_line_240, full_page,
}
use conbench.Commit.Endpoints.Pages.{commits_on_branch-fetched}
use conbench.Commit.Window.{BackfillStore, insert_each, insert_one, run_one, trim_window}

abbrev commit_json : String → CommitJson
commit_json sha = record {
  sha = sha;
  author_name = "a";
  author_date = "d";
  message = "m";
  author = none;
  parents = [];
}

abbrev history : List CommitJson
history = commit_json "c3" ∷ commit_json "c2" ∷ commit_json "c1" ∷ []

abbrev codec : Codec
codec = record {
  commit = λ body. err "no commit";
  repo = λ body. err "no repository";
  pull_label = λ body. err "no pull request";
  merge_base_sha = λ body. err "no merge base";
  commits = λ body. ok (if str_eq body "first" then history else []);
  parse_time = λ date. ok 7;
}

abbrev text : GithubText
text = record {
  cut = λ s sep. none;
  runes = λ s. [];
  of_runes = λ r. "";
  colon = λ a b. b;
  commit_url = λ spec sha. sha;
  repo_url = λ spec. spec;
  pull_url = λ spec pr. spec;
  compare_url = λ spec base sha. sha;
  page_url = λ spec branch since until page. if page == 1 then "first" else "later";
}

-- The server answers with the address; the world counts the requests.
abbrev echo : Network ℕ
echo = record {
  build = λ u. none;
  send = λ u tok w. (reply 200 "" u, w + 1);
  wait = λ k w. (true, w);
}

abbrev plain_client : Client ℕ
plain_client = record { tokens = []; token_source = none }

abbrev started_at : ClientState ℕ
started_at = record { world = 0; cur = 0 }

abbrev counting : BackfillStore ℕ
counting = record {
  latest_commit_timestamp_on_branch = λ repo branch before w. ok none;
  get_or_create_commit = λ info w. (ok info.sha, w + 100);
}

abbrev job : BackfillJob
job = record { repo_url = "u"; spec = "org/repo"; default_branch = "main"; until = 9 }

nothing_left : (xs : List CommitJson) → length xs ≡ 0 → xs ≡ []
nothing_left [] h = refl
nothing_left (x ∷ xs) h = absurd (omega arith)

past_end : (n : ℕ) → 3 ≤ n → drop n history ≡ []
past_end n h = nothing_left (drop n history) (omega (arith, length-drop n history))

serves_history :
    (p : ℕ) (st : ClientState ℕ)
    → (t : ClientState ℕ) × (get_json plain_client echo codec.commits 1
          (if (p + 1) == 1 then "first" else "later")
          st
        ≡ (fetched (take full_page (drop (full_page * p) history)), t))
unfolding get_json get_json_loop attempt token
serves_history zero st = (record st { world = st.world + 1 }, refl)
serves_history (suc p) st =
    let later : (suc p + 1 == 1) ≡ false = ground arith in
    (
      record st { world = st.world + 1 },
      rw (later, past_end (full_page * suc p) (omega arith)) refl,
    )

one_row_inserted :
    run_one counting plain_client codec text 1 1 echo job started_at
    ≡ (1, record { world = 101; cur = 0 })
unfolding run_one get_json get_json_loop attempt token commits_on_branch insert_each insert_one
    parse_commit first_line_240 pages trim_window
one_row_inserted = refl

all_commits_example :
    (commits_on_branch plain_client codec text 1 echo 1 "org/repo" "main" 0 9 started_at).0
    ≡ fetched history
all_commits_example =
    commits_on_branch-fetched plain_client codec text 1 echo history 1 "org/repo" "main" 0 9
      started_at serves_history (omega arith)
