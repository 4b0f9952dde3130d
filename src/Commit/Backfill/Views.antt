-- ===== src/Commit/Backfill/Views.antt =====
-- How a step that accepts or completes a job changes the view of the backfiller (Backfiller,
-- internal/commit/backfill.go).
use conbench.Base.{
  ◌≡◌, refl, sym, false, List, [], ◌∷◌, ◌++◌, String, str_eq, str_eq_iff, arith, if◌then◌else◌,
  keep, keep-append, count_if, Bool-cases, inl, inr,
}
use mathlib.Core.List.{append-nil}
use conbench.Base.Maps.{Map, string_key, lookup, insert, remove, lookup-insert, lookup-remove}
use conbench.CommitRepair.{BackfillJob}
use conbench.Commit.Backfill.{RepoState, System}
use conbench.Commit.Backfill.Invariant.{is_of}
use conbench.Commit.Backfill.Queues.{
  Queue, QueueStep, stays, takes, serves, pending_of, waiting_at, view,
}

Queue-ext :
    {p q r : Queue} {repo : String}
    → QueueStep repo p q
    → q.accepted ≡ r.accepted
    → q.waiting ≡ r.waiting
    → q.finished ≡ r.finished
    → q.closed ≡ r.closed
    → QueueStep repo p r
Queue-ext {p = p} {q = q} {r = r} {repo = repo} s a w f c = let same : q ≡ r = cc in rw (← same) s

pub keep_none :
    (repo : String) (jobs : List BackfillJob)
    → count_if (is_of repo) jobs ≡ 0
    → keep (is_of repo) jobs ≡ []
keep_none repo [] h = refl
keep_none repo (job ∷ jobs) h = ground (arith, keep_none repo jobs)

pub keep_one :
    (repo : String) (job : BackfillJob)
    → keep (is_of repo) (job ∷ []) ≡ (if str_eq job.repo_url repo then job ∷ [] else [])
keep_one repo job = ground arith

pub pending_of-insert :
    (key repo : String) (st : RepoState) (m : Map String RepoState)
    → pending_of (lookup repo (insert key st m))
      ≡ (if str_eq key repo then st.pending else pending_of (lookup repo m))
pending_of-insert key repo st m =
    rw (lookup-insert key repo st m)
      elim (Bool-cases (str_eq key repo)) [ inl e ↦ rw e refl | inr e ↦ rw e refl ]

pub pending_of-remove :
    (key repo : String) (m : Map String RepoState)
    → pending_of (lookup repo (remove key m))
      ≡ (if str_eq key repo then [] else pending_of (lookup repo m))
pending_of-remove key repo m =
    rw (lookup-remove key repo m)
      elim (Bool-cases (str_eq key repo)) [ inl e ↦ rw e refl | inr e ↦ rw e refl ]

-- A step that accepts a job, and one that completes it, from what they do to the waiting jobs.
pub accepts :
    (repo : String) (job : BackfillJob) (s t : System)
    → s.backfiller.closed ≡ false
    → t.backfiller.closed ≡ s.backfiller.closed
    → t.accepted ≡ s.accepted ++ job ∷ []
    → t.finished ≡ s.finished
    → waiting_at repo t
      ≡ (if str_eq job.repo_url repo then waiting_at repo s ++ job ∷ [] else waiting_at repo s)
    → QueueStep repo (view repo s) (view repo t)
accepts repo job s t f c a d w = elim (Bool-cases (str_eq job.repo_url repo)) [
  | inl e ↦
      Queue-ext (takes job ((str_eq_iff job.repo_url repo).0 e) f)
        (rw (a, keep-append (is_of repo) s.accepted (job ∷ []), keep_one repo job, e))
        (sym (rw e at w)) (rw d) (rw c)
  | inr e ↦
      Queue-ext stays
        (rw (
          a,
          keep-append (is_of repo) s.accepted (job ∷ []),
          keep_one repo job,
          e,
          append-nil (keep (is_of repo) s.accepted),
        ))
        (sym (rw e at w)) (rw d) (rw c)
]

pub completes :
    (repo : String) (job : BackfillJob) (s t : System)
    → t.backfiller.closed ≡ s.backfiller.closed
    → t.accepted ≡ s.accepted
    → t.finished ≡ s.finished ++ job ∷ []
    → waiting_at repo s
      ≡ (if str_eq job.repo_url repo then job ∷ waiting_at repo t else waiting_at repo t)
    → QueueStep repo (view repo s) (view repo t)
completes repo job s t c a d w = elim (Bool-cases (str_eq job.repo_url repo)) [
  | inl e ↦
      Queue-ext (serves job (waiting_at repo t) (rw e at w)) (rw a) refl
        (rw (d, keep-append (is_of repo) s.finished (job ∷ []), keep_one repo job, e)) (rw c)
  | inr e ↦
      Queue-ext stays (rw a) (rw e at w)
        (rw (
          d,
          keep-append (is_of repo) s.finished (job ∷ []),
          keep_one repo job,
          e,
          append-nil (keep (is_of repo) s.finished),
        ))
        (rw c)
]
