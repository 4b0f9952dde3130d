-- ===== src/Commit/Client.antt =====
-- The requests to GitHub (GitHubClient, internal/commit/github_client.go): getJSON, attempt, token,
-- handle403 and parseTokenEnv. The network, the clock with the deadline of the context, and the
-- source of tokens are the caller's, over a `World` that each of them may change. The rotating
-- index is a number that does not wrap: the code adds to an int64 once per exhausted quota.
pub mod Ends
pub mod Exhausted
use conbench.Base.{
  ℕ, zero, suc, ◌+◌, ◌%◌, Bool, true, false, not, ◌||◌, Option, none, some, List, [], ◌∷◌, String,
  str_eq, ltb, leb, ◌==◌, if◌then◌else◌, length, get_or, keep, map,
}
use conbench.Base.Results.{Result, ok, err}

pub data ClientError : Type 0 where
  bad_request : String → ClientError
  no_token : String → ClientError
  transport : String → ClientError
  unreadable : String → ClientError
  unauthorized : String → ClientError
  rate_limited : ClientError
  token_rotated : ClientError
  quota_exhausted : ClientError
  server_error : ℕ → ClientError
  unexpected : ℕ → ClientError
  budget_exceeded : ClientError → ClientError
  undecodable : String → ClientError
  bad_date : String → ClientError
  unsupported_repository : String → ClientError
  wrapped : String → ClientError → ClientError

-- What the HTTP client gives back: an error of it, a body that cannot be read, or the status, the
-- header x-ratelimit-remaining and the body.
pub data Reply : Type 0 where
  no_reply : String → Reply
  broken_reply : String → Reply
  reply : ℕ → String → String → Reply

-- `wait k` is the select after attempt `k`: true when the timer of the backoff fired, false when
-- the context was done.
pub record Network (World : Type 0) : Type 0 where
  pub build : String → Option String
  pub send : String → String → World → Reply × World
  pub wait : ℕ → World → Bool × World

pub record TokenSource (World : Type 0) : Type 0 where
  pub token : World → Result String String × World
  pub invalidate : String → World → World

pub record Client (World : Type 0) : Type 0 where
  pub tokens : List String
  pub token_source : Option (TokenSource World)

pub record ClientState (World : Type 0) : Type 0 where
  pub world : World
  pub cur : ℕ

-- strings.SplitSeq, strings.TrimSpace and the length in bytes.
pub record TokenStrings : Type 0 where
  pub split : String → String → List String
  pub trim_space : String → String
  pub len : String → ℕ

abbrev pub is_plausible : TokenStrings → String → Bool
is_plausible strings token = not (ltb (strings.len token) 5 || ltb 130 (strings.len token))

unfoldable pub parse_token_env : TokenStrings → String → List String
parse_token_env strings env =
    keep (is_plausible strings) (map strings.trim_space (strings.split env ","))

abbrev pub first_usable_token : TokenStrings → String → String
first_usable_token strings env = get_or (parse_token_env strings env) 0 ""

-- One request: its body, or whether it may be sent again and the error.
pub data Attempt : Type 0 where
  answered : String → Attempt
  refused : Bool → ClientError → Attempt

pub data Fetched {ℓ} (A : Type ℓ) : Type ℓ where
  fetched : A → Fetched A
  failed : ClientError → Fetched A
  out_of_fuel : Fetched A

-- An attempt, the rotations of this call, and the state.
abbrev pub Attempted : Type 0 → Type 0
Attempted World = Attempt × ℕ × ClientState World

module _ {World : Type 0} (client : Client World) where
  unfoldable pub handle_403 : String → ℕ → ClientState World → Attempted World
  handle_403 remaining rotations st =
      if not (str_eq remaining "0")
      then (refused true rate_limited, rotations, st)
      else (if ltb 1 (length client.tokens)
          then (
            (if leb (rotations + 1) (length client.tokens)
                then refused true token_rotated
                else refused false quota_exhausted),
            rotations + 1,
            record st { cur = st.cur + 1 },
          )
          else (refused false quota_exhausted, rotations, st))

  abbrev pub pool_token : ClientState World → String
  pool_token st =
      if length client.tokens == 0
      then ""
      else get_or client.tokens (st.cur % length client.tokens) ""

  abbrev pub token_from :
      Option (TokenSource World) → ClientState World → Result String String × ClientState World
  token_from none st = (ok (pool_token st), st)
  token_from (some source) st = let (t, w) = source.token st.world in (t, record st { world = w })

  unfoldable pub token : ClientState World → Result String String × ClientState World
  token st = token_from client.token_source st

  abbrev pub on_status : String → ℕ → ℕ → String → String → ClientState World → Attempted World
  on_status tok rotations status remaining body st =
      if status == 200
      then (answered body, rotations, st)
      else (if status == 401
          then (refused false (unauthorized tok), rotations, st)
          else (if status == 403
              then handle_403 remaining rotations st
              else (if leb 500 status
                  then (refused true (server_error status), rotations, st)
                  else (refused false (unexpected status), rotations, st))))

  abbrev pub on_reply : String → ℕ → ClientState World → Reply → Attempted World
  on_reply tok rotations st (no_reply e) = (refused true (transport e), rotations, st)
  on_reply tok rotations st (broken_reply e) = (refused true (unreadable e), rotations, st)
  on_reply tok rotations st (reply status remaining body) =
      on_status tok rotations status remaining body st

  module _ (net : Network World) where
    abbrev pub on_token : String → ℕ → Result String String × ClientState World → Attempted World
    on_token u rotations (err e, st) = (refused false (no_token e), rotations, st)
    on_token u rotations (ok tok, st) =
        let (r, w) = net.send u tok st.world in on_reply tok rotations (record st { world = w }) r

    abbrev pub on_built : String → ℕ → ClientState World → Option String → Attempted World
    on_built u rotations st (some e) = (refused false (bad_request e), rotations, st)
    on_built u rotations st none = on_token u rotations (token st)

    unfoldable pub attempt : String → ℕ → ClientState World → Attempted World
    attempt u rotations st = on_built u rotations st (net.build u)

-- A refused token of a source that has not been renewed in this call.
abbrev pub to_renew :
    {World : Type 0}
    → Option (TokenSource World)
    → Bool
    → ClientError
    → Option (String × TokenSource World)
to_renew (some source) false (unauthorized tok) = some (tok, source)
to_renew _ _ _ = none

abbrev pub decoded {ℓ} : {A : Type ℓ} → Result String A → Fetched A
decoded (ok a) = fetched a
decoded (err e) = failed (undecodable e)

abbrev pub Fetch {ℓ} : Type 0 → Type ℓ → Type ℓ
Fetch World A = Fetched A × ClientState World

module _ {ℓ} {World : Type 0} {A : Type ℓ} where
  abbrev pub after_wait :
      (ClientState World → Fetch World A)
      → ClientError
      → ClientState World
      → Bool × World
      → Fetch World A
  after_wait again e st (true, w) = again (record st { world = w })
  after_wait again e st (false, w) = (failed (budget_exceeded e), record st { world = w })

  -- `again` is the next round: from the rotations and whether the source was renewed.
  abbrev pub on_refused :
      Network World
      → (ℕ → Bool → ClientState World → Fetch World A)
      → ℕ
      → Bool
      → Bool
      → ClientError
      → ℕ
      → ClientState World
      → Option (String × TokenSource World)
      → Fetch World A
  on_refused net again k renewed retryable e rotations st (some (tok, source)) =
      again rotations true (record st { world = source.invalidate tok st.world })
  on_refused net again k renewed false e rotations st none = (failed e, st)
  on_refused net again k renewed true e rotations st none =
      after_wait (again rotations renewed) e st (net.wait k st.world)

  module _ (client : Client World) (net : Network World) (decode : String → Result String A) where
    abbrev pub on_attempt :
        (ℕ → Bool → ClientState World → Fetch World A) → ℕ → Bool → Attempted World → Fetch World A
    on_attempt again k renewed (answered body, rotations, st) = (decoded (decode body), st)
    on_attempt again k renewed (refused retryable e, rotations, st) =
        on_refused net again k renewed retryable e rotations st
          (to_renew client.token_source renewed e)

    -- The loop from attempt `k` on, with fuel for its rounds.
    unfoldable pub get_json_loop : ℕ → String → ℕ → ℕ → Bool → ClientState World → Fetch World A
    get_json_loop zero u k rotations renewed st = (out_of_fuel, st)
    get_json_loop (suc n) u k rotations renewed st =
        on_attempt (get_json_loop n u (k + 1)) k renewed (attempt client net u rotations st)

    unfoldable pub get_json : ℕ → String → ClientState World → Fetch World A
    unfolding get_json_loop
    get_json n u st = get_json_loop n u 1 0 false st
