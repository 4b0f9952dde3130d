-- ===== src/Commit/Backfill/Invariant.antt =====
-- What holds of the backfiller after every step (Backfiller, internal/commit/backfill.go).
use conbench.Base.{
  ◌+◌, ◌≡◌, refl, sym, Bool, true, false, Option, none, some, List, [], ◌∷◌, ◌++◌, String, str_eq,
  str_eq_iff, arith, if◌then◌else◌, length, length-append, count_if, count_if-append, All,
  All-append, Bool-cases, inl, inr,
}
use conbench.Base.Maps.{Map, string_key, lookup, insert, remove, lookup-insert, lookup-remove}
use conbench.CommitRepair.{BackfillJob}
use conbench.Commit.Backfill.{
  RepoState, dropped, state_or_new, enqueue_open, enqueue, System, after_enqueue, Finish, ends,
  takes_next, Step, enqueues, finishes, closes, Reachable, start, then_step,
}
use conbench.Commit.Backfill.Rounds.{end_of_round-Returned, end_of_round-WentOn}

abbrev pub is_of : String → BackfillJob → Bool
is_of repo job = str_eq job.repo_url repo

abbrev pub AllOf : String → List BackfillJob → Type 0
AllOf repo jobs = All (λ j. j.repo_url ≡ repo) jobs

-- A repository has an entry exactly while one goroutine works on it.
abbrev pub IsBusy : String → List BackfillJob → Option RepoState → Type 0
IsBusy repo loops none = count_if (is_of repo) loops ≡ 0
IsBusy repo loops (some st) =
    (count_if (is_of repo) loops ≡ 1) × (st.running ≡ true) × AllOf repo st.pending

abbrev pub IsSound : System → Type 0
IsSound s =
    ((repo : String) → IsBusy repo s.loops (lookup repo s.backfiller.state))
    × (s.backfiller.wg ≡ length s.loops)

IsBusy-ext :
    (repo : String) (xs ys : List BackfillJob) (entry : Option RepoState)
    → count_if (is_of repo) xs ≡ count_if (is_of repo) ys
    → IsBusy repo xs entry
    → IsBusy repo ys entry
IsBusy-ext repo xs ys none e h = cc
IsBusy-ext repo xs ys (some st) e h = (cc, h.1, h.2)

-- An entry is written for the repository of a job; the others keep theirs.
IsBusy-insert :
    (key : String) (st : RepoState) (m : Map String RepoState) (xs ys : List BackfillJob)
    → ((repo : String) → IsBusy repo xs (lookup repo m))
    → ((repo : String)
        → str_eq key repo ≡ false
        → count_if (is_of repo) xs ≡ count_if (is_of repo) ys)
    → IsBusy key ys (some st)
    → (repo : String) → IsBusy repo ys (lookup repo (insert key st m))
IsBusy-insert key st m xs ys h same new repo =
    rw (lookup-insert key repo st m) elim (Bool-cases (str_eq key repo)) [
      | inl e ↦ rw (e, sym ((str_eq_iff key repo).0 e)) new
      | inr e ↦ rw e (IsBusy-ext repo xs ys (lookup repo m) (same repo e) (h repo))
    ]

IsBusy-remove :
    (key : String) (m : Map String RepoState) (xs ys : List BackfillJob)
    → ((repo : String) → IsBusy repo xs (lookup repo m))
    → ((repo : String)
        → str_eq key repo ≡ false
        → count_if (is_of repo) xs ≡ count_if (is_of repo) ys)
    → count_if (is_of key) ys ≡ 0
    → (repo : String) → IsBusy repo ys (lookup repo (remove key m))
IsBusy-remove key m xs ys h same new repo =
    rw (lookup-remove key repo m) elim (Bool-cases (str_eq key repo)) [
      | inl e ↦ rw (e, sym ((str_eq_iff key repo).0 e)) new
      | inr e ↦ rw e (IsBusy-ext repo xs ys (lookup repo m) (same repo e) (h repo))
    ]

pub enqueue-IsSound :
    (job : BackfillJob) (s : System)
    → IsSound s
    → IsSound (after_enqueue job s (enqueue job s.backfiller))
unfolding enqueue
enqueue-IsSound job s h = by_closed s.backfiller.closed
  where
    by_entry :
        (entry : Option RepoState)
        → IsBusy job.repo_url s.loops entry
        → IsSound (after_enqueue job s (enqueue_open job s.backfiller (state_or_new entry)))
    by_entry none k = (
      IsBusy-insert job.repo_url (record { running = true; pending = [] }) s.backfiller.state
          s.loops (s.loops ++ job ∷ []) h.0
          (λ repo e. ground (arith, count_if-append (is_of repo) s.loops (job ∷ [])))
          (
            ground (
              arith,
              count_if-append (is_of job.repo_url) s.loops (job ∷ []),
              str_eq_iff job.repo_url job.repo_url,
            ),
            refl,
            tt,
          ),
      omega (arith, h.1, length-append s.loops (job ∷ [])),
    )
    by_entry (some st) k = rw (k.1) (
      IsBusy-insert job.repo_url (record { running = true; pending = st.pending ++ job ∷ [] })
          s.backfiller.state s.loops s.loops h.0 (λ repo e. refl)
          (
            k.0,
            refl,
            All-append (λ j. j.repo_url ≡ job.repo_url) st.pending (job ∷ []) k.2 (refl, tt),
          ),
      h.1,
    )

    by_closed :
        (closed : Bool)
        → IsSound (
            after_enqueue job s (
              if closed
              then (dropped, s.backfiller)
              else enqueue_open job s.backfiller
                  (state_or_new (lookup job.repo_url s.backfiller.state))))
    by_closed true = h
    by_closed false = by_entry (lookup job.repo_url s.backfiller.state) (h.0 job.repo_url)

-- How often a repository stands among goroutines of which one is picked.
pub count_picked :
    (repo : String) (loops before : List BackfillJob) (job : BackfillJob)
    (others : List BackfillJob)
    → loops ≡ before ++ job ∷ others
    → count_if (is_of repo) loops
      ≡ count_if (is_of repo) before + count_if (is_of repo) (job ∷ others)
count_picked repo loops before job others e =
    rw e (count_if-append (is_of repo) before (job ∷ others))

pub length_picked :
    (loops before : List BackfillJob) (job : BackfillJob) (others : List BackfillJob)
    → loops ≡ before ++ job ∷ others
    → length loops ≡ length before + length (job ∷ others)
length_picked loops before job others e = rw e (length-append before (job ∷ others))

pub Finish-IsSound : {s t : System} → Finish s t → IsSound s → IsSound t
Finish-IsSound (ends {s = s} before job others c e r) h =
    let (st, found, empty, same) = end_of_round-Returned job s.backfiller c r in
    let k : IsBusy job.repo_url s.loops (some st) = rw found at (h.0 job.repo_url) in
    rw same (
      IsBusy-remove job.repo_url s.backfiller.state s.loops (before ++ others) h.0
          (λ repo apart. ground (
            arith,
            count_picked repo s.loops before job others e,
            count_if-append (is_of repo) before others,
          ))
          (ground (
            arith,
            k.0,
            str_eq_iff job.repo_url job.repo_url,
            count_picked job.repo_url s.loops before job others e,
            count_if-append (is_of job.repo_url) before others,
          )),
      omega (arith, h.1, length_picked s.loops before job others e, length-append before others),
    )
Finish-IsSound (takes_next {s = s} before job next others c e r) h =
    let (st, rest, found, waits, same) = end_of_round-WentOn job next s.backfiller c r in
    let k : IsBusy job.repo_url s.loops (some st) = rw found at (h.0 job.repo_url) in
    let own : AllOf job.repo_url (next ∷ rest) = rw waits at (k.2) in
    rw same (
      IsBusy-insert job.repo_url (record st { pending = rest }) s.backfiller.state s.loops
          (before ++ next ∷ others) h.0
          (λ repo apart. ground (
            arith,
            own.0,
            count_picked repo s.loops before job others e,
            count_if-append (is_of repo) before (next ∷ others),
          ))
          (
            ground (
              arith,
              k.0,
              own.0,
              str_eq_iff job.repo_url job.repo_url,
              str_eq_iff next.repo_url job.repo_url,
              count_picked job.repo_url s.loops before job others e,
              count_if-append (is_of job.repo_url) before (next ∷ others),
            ),
            k.1,
            own.1,
          ),
      omega (
        arith,
        h.1,
        length_picked s.loops before job others e,
        length-append before (next ∷ others),
      ),
    )

pub Step-IsSound : {s t : System} → Step s t → IsSound s → IsSound t
Step-IsSound (enqueues {s = s} job) h = enqueue-IsSound job s h
Step-IsSound (finishes f) h = Finish-IsSound f h
Step-IsSound closes h = h

-- In every reachable state a repository has an entry exactly while one goroutine works on it, and
-- then just one; the entry is marked as running, its waiting jobs are of that repository, and the
-- counter of the wait group is the number of goroutines.
pub Reachable-IsSound : {s : System} → Reachable s → IsSound s
unfolding lookup
Reachable-IsSound start = ((λ repo. refl), refl)
Reachable-IsSound (then_step r s) = Step-IsSound s (Reachable-IsSound r)
