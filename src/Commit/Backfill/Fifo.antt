-- ===== src/Commit/Backfill/Fifo.antt =====
-- The backfiller as a queue for each repository (Backfiller, internal/commit/backfill.go).
use conbench.Base.{
  ◌+◌, ◌≡◌, refl, ap, Bool, true, false, Option, none, some, List, [], ◌∷◌, ◌++◌, String, str_eq,
  str_eq_iff, arith, if◌then◌else◌, keep, keep-append, count_if, Bool-cases, inl, inr,
}
use mathlib.Core.List.{append_assoc, append-nil}
use conbench.Base.Maps.{string_key, lookup, insert}
use conbench.CommitRepair.{BackfillJob}
use conbench.Commit.Backfill.{
  RepoState, dropped, state_or_new, enqueue_open, enqueue, System, after_enqueue, Finish, ends,
  takes_next, Step, enqueues, finishes, closes, Reachable, start, then_step,
}
use conbench.Commit.Backfill.Rounds.{end_of_round-Returned, end_of_round-WentOn}
use conbench.Commit.Backfill.Invariant.{
  is_of, AllOf, IsBusy, IsSound, count_picked, Reachable-IsSound,
}
use conbench.Commit.Backfill.Queues.{
  QueueStep, stays, shuts, QueueReachable, fresh, later, waiting_at, view, QueueReachable-order,
}
use conbench.Commit.Backfill.Views.{
  accepts, completes, keep_one, keep_none, pending_of-insert, pending_of-remove,
}

enqueue-QueueStep :
    (repo : String) (job : BackfillJob) (s : System)
    → IsSound s
    → QueueStep repo (view repo s) (view repo (after_enqueue job s (enqueue job s.backfiller)))
unfolding enqueue
enqueue-QueueStep repo job s h = by_closed s.backfiller.closed refl
  where
    by_entry :
        (entry : Option RepoState)
        → lookup job.repo_url s.backfiller.state ≡ entry
        → IsBusy job.repo_url s.loops entry
        → s.backfiller.closed ≡ false
        → QueueStep repo
            (view repo s)
            (view repo (after_enqueue job s (enqueue_open job s.backfiller (state_or_new entry))))
    by_entry none found k op =
        accepts repo job s (after_enqueue job s (enqueue_open job s.backfiller (state_or_new none)))
          op refl refl refl
          (rw
            (
              keep-append (is_of repo) s.loops (job ∷ []),
              keep_one repo job,
              pending_of-insert job.repo_url repo (record { running = true; pending = [] })
                  s.backfiller.state,
            )
            elim (Bool-cases (str_eq job.repo_url repo)) [
              | inl e ↦
                  let own : job.repo_url ≡ repo = (str_eq_iff job.repo_url repo).0 e in
                  rw
                    (
                      e,
                      ← own,
                      found,
                      append-nil (keep (is_of job.repo_url) s.loops),
                      append-nil (keep (is_of job.repo_url) s.loops ++ job ∷ []),
                    )
                    refl
              | inr e ↦ rw (e, append-nil (keep (is_of repo) s.loops)) refl
            ])
    by_entry (some st) found k op = rw (k.1) (
        accepts repo job s
          (record s {
            backfiller = record s.backfiller {
              state =
                  insert job.repo_url (record { running = true; pending = st.pending ++ job ∷ [] })
                    s.backfiller.state;
            };
            accepted = s.accepted ++ job ∷ [];
          })
          op refl refl refl
          (rw
            (pending_of-insert job.repo_url repo
              (record { running = true; pending = st.pending ++ job ∷ [] }) s.backfiller.state)
            elim (Bool-cases (str_eq job.repo_url repo)) [
              | inl e ↦
                  let own : job.repo_url ≡ repo = (str_eq_iff job.repo_url repo).0 e in
                  rw
                    (
                      e,
                      ← own,
                      found,
                      append_assoc (keep (is_of job.repo_url) s.loops) st.pending (job ∷ []),
                    )
                    refl
              | inr e ↦ rw e refl
            ]))

    by_closed :
        (closed : Bool)
        → s.backfiller.closed ≡ closed
        → QueueStep repo (view repo s) (
            view repo (
              after_enqueue job s (
                if closed
                then (dropped, s.backfiller)
                else enqueue_open job s.backfiller
                    (state_or_new (lookup job.repo_url s.backfiller.state)))))
    by_closed true op = stays
    by_closed false op =
        by_entry (lookup job.repo_url s.backfiller.state) refl (h.0 job.repo_url) op

-- The picked goroutine is the only one of its repository.
keep_picked :
    (loops before : List BackfillJob) (job : BackfillJob) (others : List BackfillJob)
    → loops ≡ before ++ job ∷ others
    → count_if (is_of job.repo_url) loops ≡ 1
    → (keep (is_of job.repo_url) before ≡ []) × (keep (is_of job.repo_url) others ≡ [])
keep_picked loops before job others e one =
    let all : count_if (is_of job.repo_url) loops
        ≡ count_if (is_of job.repo_url) before + count_if (is_of job.repo_url) (job ∷ others) =
      count_picked job.repo_url loops before job others e in
    (
      keep_none job.repo_url before (ground (arith, str_eq_iff job.repo_url job.repo_url)),
      keep_none job.repo_url others (ground (arith, str_eq_iff job.repo_url job.repo_url)),
    )

-- The jobs of a repository among goroutines of which one is picked.
keep_around :
    (repo : String) (before : List BackfillJob) (job : BackfillJob) (others : List BackfillJob)
    → keep (is_of repo) (before ++ job ∷ others)
      ≡ keep (is_of repo) before
        ++ (if str_eq job.repo_url repo
            then job ∷ keep (is_of repo) others
            else keep (is_of repo) others)
keep_around repo before job others = keep-append (is_of repo) before (job ∷ others)

Finish-QueueStep :
    (repo : String) {s t : System}
    → Finish s t
    → IsSound s
    → QueueStep repo (view repo s) (view repo t)
Finish-QueueStep repo (ends {s = s} before job others c e r) h =
    let (st, found, empty, same) = end_of_round-Returned job s.backfiller c r in
    let k : IsBusy job.repo_url s.loops (some st) = rw found at (h.0 job.repo_url) in
    let alone = keep_picked s.loops before job others e k.0 in
    completes repo job s
      (record s { backfiller = c; loops = before ++ others; finished = s.finished ++ job ∷ [] })
      (rw same refl) refl refl
      (rw
        (
          e,
          same,
          keep_around repo before job others,
          keep-append (is_of repo) before others,
          pending_of-remove job.repo_url repo s.backfiller.state,
        )
        elim (Bool-cases (str_eq job.repo_url repo)) [
          | inl q ↦
              let own : job.repo_url ≡ repo = (str_eq_iff job.repo_url repo).0 q in
              rw (q, ← own, found, alone.0, alone.1, empty) refl
          | inr q ↦ rw q refl
        ])
Finish-QueueStep repo (takes_next {s = s} before job next others c e r) h =
    let (st, rest, found, waits, same) = end_of_round-WentOn job next s.backfiller c r in
    let k : IsBusy job.repo_url s.loops (some st) = rw found at (h.0 job.repo_url) in
    let alone = keep_picked s.loops before job others e k.0 in
    let its : AllOf job.repo_url (next ∷ rest) = rw waits at (k.2) in
    let same_repo : str_eq next.repo_url repo ≡ str_eq job.repo_url repo =
      ap (λ u. str_eq u repo) its.0 in
    completes repo job s
      (record s {
        backfiller = c;
        loops = before ++ next ∷ others;
        finished = s.finished ++ job ∷ [];
      })
      (rw same refl) refl refl
      (rw
        (
          e,
          same,
          keep_around repo before job others,
          keep_around repo before next others,
          pending_of-insert job.repo_url repo (record st { pending = rest }) s.backfiller.state,
          same_repo,
        )
        elim (Bool-cases (str_eq job.repo_url repo)) [
          | inl q ↦
              let own : job.repo_url ≡ repo = (str_eq_iff job.repo_url repo).0 q in
              rw (q, ← own, found, alone.0, alone.1, waits) refl
          | inr q ↦ rw q refl
        ])

-- In a state that is sound, as every reachable one is, each step of the backfiller is, for each
-- repository, a step of a queue: nothing, an accepted job at the end while it is open, the first
-- job finished, or the queue closed.
pub Step-QueueStep :
    (repo : String) {s t : System}
    → Step s t
    → IsSound s
    → QueueStep repo (view repo s) (view repo t)
Step-QueueStep repo (enqueues {s = s} job) h = enqueue-QueueStep repo job s h
Step-QueueStep repo (finishes f) h = Finish-QueueStep repo f h
Step-QueueStep repo closes h = shuts

pub Reachable-QueueReachable :
    (repo : String) {s : System} → Reachable s → QueueReachable repo (view repo s)
unfolding lookup
Reachable-QueueReachable repo start = fresh
Reachable-QueueReachable repo (then_step r s) =
    later (Reachable-QueueReachable repo r) (Step-QueueStep repo s (Reachable-IsSound r))

pub Reachable-order :
    (repo : String) {s : System}
    → Reachable s
    → keep (is_of repo) s.accepted ≡ keep (is_of repo) s.finished ++ waiting_at repo s
Reachable-order repo r = QueueReachable-order (Reachable-QueueReachable repo r)
