-- ===== src/Commit/Backfill.antt =====
-- Backfiller (internal/commit/backfill.go): the queue of jobs of each repository, and the goroutines
-- that work on them. What the mutex guards is one step: Enqueue, the end of a round of runLoop, and
-- the write of Shutdown. A goroutine is the job that it runs; `accepted` and `finished` log the jobs
-- in the order in which the steps took and completed them.
pub mod Rounds
pub mod Invariant
pub mod Queues
pub mod Views
pub mod Fifo
pub mod Drain
use conbench.Base.{
  ℕ, ◌+◌, ◌-◌, ◌≡◌, Bool, true, false, Option, none, some, List, [], ◌∷◌, ◌++◌, String,
  if◌then◌else◌, length,
}
use conbench.Base.Maps.{Map, string_key, lookup, insert, remove}
use conbench.CommitRepair.{BackfillJob}

pub record RepoState : Type 0 where
  pub running : Bool
  pub pending : List BackfillJob

-- `wg` is the counter of the wait group, which Shutdown waits on.
pub record Backfiller : Type 0 where
  pub state : Map String RepoState
  pub closed : Bool
  pub wg : ℕ

abbrev pub new_backfiller : Backfiller
new_backfiller = record { state = []; closed = false; wg = 0 }

-- What Enqueue does with a job.
pub data Enqueued : Type 0 where
  dropped : Enqueued
  queued : Enqueued
  started : Enqueued

abbrev pub state_or_new : Option RepoState → RepoState
state_or_new none = record { running = false; pending = [] }
state_or_new (some st) = st

-- `b.state[job.RepoURL]` is a pointer: what is written through it, is in the map.
abbrev pub enqueue_open : BackfillJob → Backfiller → RepoState → Enqueued × Backfiller
enqueue_open job b st =
    if st.running
    then (
      queued,
      record b {
        state = insert job.repo_url (record st { pending = st.pending ++ job ∷ [] }) b.state;
      },
    )
    else (
      started,
      record b {
        state = insert job.repo_url (record st { running = true }) b.state;
        wg = b.wg + 1;
      },
    )

unfoldable pub enqueue : BackfillJob → Backfiller → Enqueued × Backfiller
enqueue job b =
    if b.closed
    then (dropped, b)
    else enqueue_open job b (state_or_new (lookup job.repo_url b.state))

-- What runLoop does after a job: a job that waits, or its return, with the deferred `wg.Done()`.
pub data Round : Type 0 where
  panics : Round
  returns : Backfiller → Round
  goes_on : BackfillJob → Backfiller → Round

abbrev pub round_on : BackfillJob → Backfiller → RepoState → List BackfillJob → Round
round_on job b st [] = returns (record b { state = remove job.repo_url b.state; wg = b.wg - 1 })
round_on job b st (next ∷ rest) =
    goes_on next (record b { state = insert job.repo_url (record st { pending = rest }) b.state })

-- A nil `st` has no field `pending`.
abbrev pub round_with : BackfillJob → Backfiller → Option RepoState → Round
round_with job b none = panics
round_with job b (some st) = round_on job b st st.pending

unfoldable pub end_of_round : BackfillJob → Backfiller → Round
end_of_round job b = round_with job b (lookup job.repo_url b.state)

abbrev pub close : Backfiller → Backfiller
close b = record b { closed = true }

-- The backfiller, the jobs that its goroutines run, and the logs.
pub record System : Type 0 where
  pub backfiller : Backfiller
  pub loops : List BackfillJob
  pub accepted : List BackfillJob
  pub finished : List BackfillJob

abbrev pub new_system : System
new_system = record { backfiller = new_backfiller; loops = []; accepted = []; finished = [] }

abbrev pub after_enqueue : BackfillJob → System → Enqueued × Backfiller → System
after_enqueue job s (dropped, b) = record s { backfiller = b }
after_enqueue job s (queued, b) = record s { backfiller = b; accepted = s.accepted ++ job ∷ [] }
after_enqueue job s (started, b) = record s {
  backfiller = b;
  loops = s.loops ++ job ∷ [];
  accepted = s.accepted ++ job ∷ [];
}

-- A goroutine among others completes its job.
pub data Finish : System → System → Type 0 where
  ends :
      {s : System} (before : List BackfillJob) (job : BackfillJob) (others : List BackfillJob)
      (b : Backfiller)
      → s.loops ≡ before ++ job ∷ others
      → end_of_round job s.backfiller ≡ returns b
      → Finish s
          (record s { backfiller = b; loops = before ++ others; finished = s.finished ++ job ∷ [] })
  takes_next :
      {s : System} (before : List BackfillJob) (job next : BackfillJob) (others : List BackfillJob)
      (b : Backfiller)
      → s.loops ≡ before ++ job ∷ others
      → end_of_round job s.backfiller ≡ goes_on next b
      → Finish s (record s {
        backfiller = b;
        loops = before ++ next ∷ others;
        finished = s.finished ++ job ∷ [];
      })

pub data Step : System → System → Type 0 where
  enqueues :
      {s : System} (job : BackfillJob) → Step s (after_enqueue job s (enqueue job s.backfiller))
  finishes : {s t : System} → Finish s t → Step s t
  closes : {s : System} → Step s (record s { backfiller = close s.backfiller })

pub data Reachable : System → Type 0 where
  start : Reachable new_system
  then_step : {s t : System} → Reachable s → Step s t → Reachable t
