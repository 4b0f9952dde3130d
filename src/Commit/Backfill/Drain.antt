-- ===== src/Commit/Backfill/Drain.antt =====
-- The end of the work of the backfiller, which Shutdown waits for (Backfiller,
-- internal/commit/backfill.go).
use conbench.Base.{
  ℕ, zero, suc, ◌+◌, ◌≤◌, ◌≡◌, refl, true, Option, none, some, List, [], ◌∷◌, ◌++◌, String,
  str_eq_iff, arith, length, length-append, keep, inl, inr, ◌⊎◌,
}
use mathlib.Core.List.{append-nil}
use conbench.Base.Maps.{string_key, lookup, total, weight_of, total-insert, total-remove}
use conbench.CommitRepair.{BackfillJob}
use conbench.Commit.Backfill.{
  RepoState, enqueue, round_on, end_of_round, System, Finish, ends, takes_next, Step, enqueues,
  finishes, closes, Reachable, then_step,
}
use conbench.Commit.Backfill.Rounds.{end_of_round-Returned, end_of_round-WentOn}
use conbench.Commit.Backfill.Invariant.{
  is_of, IsBusy, IsSound, length_picked, count_picked, Reachable-IsSound,
}
use conbench.Commit.Backfill.Fifo.{Reachable-order}

abbrev pub waits : RepoState → ℕ
waits st = length st.pending

-- The jobs in work and those that wait, of all repositories.
abbrev pub unfinished : System → ℕ
unfinished s = length s.loops + total waits s.backfiller.state

-- A job that is completed leaves fewer jobs in work and waiting than before, over all
-- repositories.
pub Finish-unfinished : {s t : System} → Finish s t → unfinished t + 1 ≤ unfinished s
Finish-unfinished (ends {s = s} before job others c e r) =
    let (st, found, empty, same) = end_of_round-Returned job s.backfiller c r in
    rw same omega (
      arith,
      total-remove waits job.repo_url s.backfiller.state,
      length_picked s.loops before job others e,
      length-append before others,
    )
Finish-unfinished (takes_next {s = s} before job next others c e r) =
    let (st, rest, found, some_wait, same) = end_of_round-WentOn job next s.backfiller c r in
    let weight : weight_of waits (lookup job.repo_url s.backfiller.state) ≡ suc (length rest) =
      rw (found, some_wait) refl in
    rw same omega (
      arith,
      weight,
      total-insert waits job.repo_url (record st { pending = rest }) s.backfiller.state,
      length_picked s.loops before job others e,
      length-append before (next ∷ others),
    )

-- A goroutine never finds its entry gone: it goes on or returns.
pub IsSound-Finish :
    (s : System) (before : List BackfillJob) (job : BackfillJob) (others : List BackfillJob)
    → IsSound s
    → s.loops ≡ before ++ job ∷ others
    → (t : System) × Finish s t
unfolding end_of_round
IsSound-Finish s before job others h e =
    by_entry (lookup job.repo_url s.backfiller.state) refl (h.0 job.repo_url)
  where
    by_pending :
        (st : RepoState) (jobs : List BackfillJob)
        → end_of_round job s.backfiller ≡ round_on job s.backfiller st jobs
        → (t : System) × Finish s t
    by_pending st [] r = (_, ends before job others _ e r)
    by_pending st (next ∷ rest) r = (_, takes_next before job next others _ e r)

    by_entry :
        (entry : Option RepoState)
        → lookup job.repo_url s.backfiller.state ≡ entry
        → IsBusy job.repo_url s.loops entry
        → (t : System) × Finish s t
    by_entry none found k = ground (
      arith,
      count_picked job.repo_url s.loops before job others e,
      str_eq_iff job.repo_url job.repo_url,
    )
    by_entry (some st) found k = by_pending st st.pending (rw found refl)

-- Whatever goroutine is the next to complete its job, again and again, the wait group comes to
-- zero, with no entry left and each accepted job finished, in the order of its repository.
pub data Drains : System → Type 0 where
  idle :
      {s : System}
      → s.backfiller.wg ≡ 0
      → ((repo : String) → lookup repo s.backfiller.state ≡ none)
      → ((repo : String) → keep (is_of repo) s.finished ≡ keep (is_of repo) s.accepted)
      → Drains s
  works : {s t : System} → Finish s t → ((u : System) → Finish s u → Drains u) → Drains s

no_entry : (repo : String) (entry : Option RepoState) → IsBusy repo [] entry → entry ≡ none
no_entry repo none h = refl
no_entry repo (some st) h = ground (arith, h.0)

-- Without goroutines there is nothing left to do.
pub Reachable-idle : (s : System) → s.loops ≡ [] → Reachable s → Drains s
Reachable-idle s e r =
    let h : IsSound s = Reachable-IsSound r in
    let gone : (repo : String) → lookup repo s.backfiller.state ≡ none =
      (λ repo. no_entry repo (lookup repo s.backfiller.state) (rw e at (h.0 repo))) in
    idle (rw (h.1, e) refl) gone (λ repo.
      rw (Reachable-order repo r, e, gone repo, append-nil (keep (is_of repo) s.finished)) refl)

Reachable-Drains_within :
    (n : ℕ) (loops : List BackfillJob) (s : System)
    → s.loops ≡ loops
    → unfinished s ≤ n
    → Reachable s
    → Drains s
Reachable-Drains_within n [] s e le r = Reachable-idle s e r
Reachable-Drains_within zero (job ∷ others) s e le r =
    absurd (omega (arith, length_picked s.loops [] job others e))
Reachable-Drains_within (suc n) (job ∷ others) s e le r =
    let (t, f) = IsSound-Finish s [] job others (Reachable-IsSound r) e in
    works f (λ u g.
      Reachable-Drains_within n u.loops u refl (omega (arith, le, Finish-unfinished g))
        (then_step r (finishes g)))

-- From every reachable state, whichever goroutine is the next to complete its job, again and
-- again, the goroutines come to an end: until then one of them can complete, and in the end the
-- counter of the wait group is zero, no entry is left, and the jobs of each repository were
-- finished in the order in which they were accepted.
pub Reachable-Drains : (s : System) → Reachable s → Drains s
Reachable-Drains s r = Reachable-Drains_within (unfinished s) s.loops s refl (omega arith) r

-- Once closed, the jobs that come are dropped: only goroutines change the backfiller.
pub closed-Step : {s t : System} → Step s t → s.backfiller.closed ≡ true → (t ≡ s) ⊎ Finish s t
unfolding enqueue
closed-Step (enqueues {s = s} job) h = inl (rw h refl)
closed-Step (finishes f) h = inr f
closed-Step (closes {s = s}) h = inl (rw h refl)
