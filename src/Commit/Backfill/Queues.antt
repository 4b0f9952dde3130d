-- ===== src/Commit/Backfill/Queues.antt =====
-- A queue for each repository, and the view of the backfiller as one (Backfiller, internal/commit/backfill.go).
use conbench.Base.{
  ◌≡◌, refl, Bool, true, false, Option, none, some, List, [], ◌∷◌, ◌++◌, String, keep,
}
use mathlib.Core.List.{append_assoc}
use conbench.Base.Maps.{string_key, lookup}
use conbench.CommitRepair.{BackfillJob}
use conbench.Commit.Backfill.{RepoState, System}
use conbench.Commit.Backfill.Invariant.{is_of}

-- What a repository sees: the job in work in front of those that wait, and the logs.
pub record Queue : Type 0 where
  pub accepted : List BackfillJob
  pub waiting : List BackfillJob
  pub finished : List BackfillJob
  pub closed : Bool

abbrev pub new_queue : Queue
new_queue = record { accepted = []; waiting = []; finished = []; closed = false }

pub data QueueStep (repo : String) : Queue → Queue → Type 0 where
  stays : {q : Queue} → QueueStep repo q q
  takes :
      {q : Queue} (job : BackfillJob)
      → job.repo_url ≡ repo
      → q.closed ≡ false
      → QueueStep repo q
          (record q { accepted = q.accepted ++ job ∷ []; waiting = q.waiting ++ job ∷ [] })
  serves :
      {q : Queue} (job : BackfillJob) (rest : List BackfillJob)
      → q.waiting ≡ job ∷ rest
      → QueueStep repo q (record q { waiting = rest; finished = q.finished ++ job ∷ [] })
  shuts : {q : Queue} → QueueStep repo q (record q { closed = true })

pub data QueueReachable (repo : String) : Queue → Type 0 where
  fresh : QueueReachable repo new_queue
  later : {p q : Queue} → QueueReachable repo p → QueueStep repo p q → QueueReachable repo q

abbrev pub pending_of : Option RepoState → List BackfillJob
pending_of none = []
pending_of (some st) = st.pending

abbrev pub waiting_at : String → System → List BackfillJob
waiting_at repo s = keep (is_of repo) s.loops ++ pending_of (lookup repo s.backfiller.state)

abbrev pub view : String → System → Queue
view repo s = record {
  accepted = keep (is_of repo) s.accepted;
  waiting = waiting_at repo s;
  finished = keep (is_of repo) s.finished;
  closed = s.backfiller.closed;
}

-- The accepted jobs are those finished and those that wait, in this order.
pub QueueReachable-order :
    {repo : String} {q : Queue} → QueueReachable repo q → q.accepted ≡ q.finished ++ q.waiting
QueueReachable-order fresh = refl
QueueReachable-order (later {q = q} r stays) = QueueReachable-order r
QueueReachable-order (later r (takes {q = q} job own accepts)) =
    cc (append_assoc q.finished q.waiting (job ∷ []), QueueReachable-order r)
QueueReachable-order (later r (serves {q = q} job rest e)) =
    cc (append_assoc q.finished (job ∷ []) rest, QueueReachable-order r)
QueueReachable-order (later r shuts) = QueueReachable-order r
