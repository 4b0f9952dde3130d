-- ===== src/Examples/CommitRuns.antt =====
-- Runs of the backfiller and of the requests to GitHub, and the theorems about them at concrete
-- inputs (internal/commit).
use conbench.Base.{ℕ, ◌+◌, ◌≡◌, ◌≢◌, refl, true, false, none, [], ◌∷◌, String, arith, ltb}
use conbench.Base.Results.{Result, ok}
use conbench.Base.Maps.{string_key, lookup, insert}
use conbench.CommitRepair.{BackfillJob}
use conbench.Commit.Backfill.{
  Backfiller, System, Reachable, start, then_step, enqueues, Finish, takes_next, new_system,
  after_enqueue, enqueue, end_of_round,
}
use conbench.Commit.Backfill.Invariant.{IsSound, Reachable-IsSound}
use conbench.Commit.Backfill.Queues.{view, QueueStep}
use conbench.Commit.Backfill.Fifo.{Step-QueueStep}
use conbench.Commit.Backfill.Drain.{Drains, Reachable-Drains}
use conbench.Commit.Client.{Network, Client, ClientState, reply, get_json, out_of_fuel}
use conbench.Commit.Client.Ends.{get_json-ends}
use conbench.Commit.Client.Exhausted.{GivesUp, get_json-GivesUp}

abbrev job_of : String → ℕ → BackfillJob
job_of repo until = record {
  repo_url = repo;
  spec = repo;
  default_branch = "org:main";
  until = until;
}

abbrev first_job : BackfillJob
first_job = job_of "a" 1

abbrev second_job : BackfillJob
second_job = job_of "a" 2

-- Two jobs of one repository: the first is in work, the second waits.
abbrev one_job : System
one_job = after_enqueue first_job new_system (enqueue first_job new_system.backfiller)

abbrev two_jobs : System
two_jobs = after_enqueue second_job one_job (enqueue second_job one_job.backfiller)

abbrev two_jobs_reachable : Reachable two_jobs
two_jobs_reachable = then_step (then_step start (enqueues first_job)) (enqueues second_job)

two_jobs_accounts :
    (two_jobs.loops ≡ first_job ∷ []) × (two_jobs.accepted ≡ first_job ∷ second_job ∷ [])
unfolding enqueue lookup insert
two_jobs_accounts = (refl, refl)

two_jobs_example : IsSound two_jobs
two_jobs_example = Reachable-IsSound two_jobs_reachable

second_job_example : QueueStep "a" (view "a" one_job) (view "a" two_jobs)
second_job_example =
    Step-QueueStep "a" (enqueues second_job)
      (Reachable-IsSound (then_step start (enqueues first_job)))

two_jobs_end_example : Drains two_jobs
two_jobs_end_example = Reachable-Drains two_jobs two_jobs_reachable

abbrev after_first : Backfiller
after_first = record {
  state = insert "a" (record { running = true; pending = [] }) two_jobs.backfiller.state;
  closed = false;
  wg = 1;
}

first_finishes : Finish two_jobs (record two_jobs {
  backfiller = after_first;
  loops = second_job ∷ [];
  finished = first_job ∷ [];
})
unfolding enqueue lookup insert end_of_round
first_finishes = takes_next [] first_job second_job [] after_first refl refl

-- A server that fails, with a deadline by the second attempt.
abbrev failing : Network ℕ
failing = record {
  build = λ u. none;
  send = λ u tok w. (reply 500 "" "", w + 1);
  wait = λ k w. (ltb k 2, w);
}

-- A server without quota.
abbrev without_quota : Network ℕ
without_quota = record {
  build = λ u. none;
  send = λ u tok w. (reply 403 "0" "", w + 1);
  wait = λ k w. (true, w);
}

abbrev two_tokens : Client ℕ
two_tokens = record { tokens = "first" ∷ "second" ∷ []; token_source = none }

abbrev fresh_state : ClientState ℕ
fresh_state = record { world = 0; cur = 0 }

abbrev decode_text : String → Result String String
decode_text body = ok body

get_json_ends_example :
    (get_json two_tokens failing decode_text 4 "/repos" fresh_state).0 ≢ out_of_fuel
get_json_ends_example =
    get_json-ends two_tokens failing decode_text 2 (λ k w h. ground arith) "/repos" 4 fresh_state
      (omega arith)

exhausted_pool_example :
    GivesUp 2 0 0 (get_json two_tokens without_quota decode_text 3 "/repos" fresh_state)
exhausted_pool_example =
    get_json-GivesUp two_tokens without_quota decode_text "/repos"
      (refl, (λ tok w. ("", refl)), λ k w. refl) refl 3 fresh_state (omega arith) (omega arith)
