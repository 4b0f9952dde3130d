-- ===== src/Commit/Backfill/Rounds.antt =====
-- The outcomes of a round of runLoop (Backfiller, internal/commit/backfill.go).
use conbench.Base.{◌-◌, ◌≡◌, refl, Option, none, some, List, [], ◌∷◌}
use conbench.Base.Maps.{string_key, lookup, insert, remove}
use conbench.CommitRepair.{BackfillJob}
use conbench.Commit.Backfill.{
  RepoState, Backfiller, returns, goes_on, round_on, round_with, end_of_round,
}

-- What the end of a round did, from its outcome.
abbrev pub Returned : BackfillJob → Backfiller → Backfiller → Option RepoState → Type 0
Returned job b c entry =
    (st : RepoState) × (entry ≡ some st)
    × (st.pending ≡ [])
    × (c ≡ record b { state = remove job.repo_url b.state; wg = b.wg - 1 })

abbrev pub WentOn : BackfillJob → BackfillJob → Backfiller → Backfiller → Option RepoState → Type 0
WentOn job next b c entry =
    (st : RepoState) × (rest : List BackfillJob) × (entry ≡ some st)
    × (st.pending ≡ next ∷ rest)
    × (c ≡ record b { state = insert job.repo_url (record st { pending = rest }) b.state })

pub end_of_round-Returned :
    (job : BackfillJob) (b c : Backfiller)
    → end_of_round job b ≡ returns c
    → Returned job b c (lookup job.repo_url b.state)
unfolding end_of_round
end_of_round-Returned job b c = by_entry (lookup job.repo_url b.state)
  where
    by_pending :
        (st : RepoState) (jobs : List BackfillJob)
        → st.pending ≡ jobs
        → round_on job b st jobs ≡ returns c
        → Returned job b c (some st)
    by_pending st [] e h = (st, refl, e, cc)
    by_pending st (next ∷ rest) e h = cc

    by_entry :
        (entry : Option RepoState) → round_with job b entry ≡ returns c → Returned job b c entry
    by_entry none h = cc
    by_entry (some st) h = by_pending st st.pending refl h

pub end_of_round-WentOn :
    (job next : BackfillJob) (b c : Backfiller)
    → end_of_round job b ≡ goes_on next c
    → WentOn job next b c (lookup job.repo_url b.state)
unfolding end_of_round
end_of_round-WentOn job next b c = by_entry (lookup job.repo_url b.state)
  where
    by_pending :
        (st : RepoState) (jobs : List BackfillJob)
        → st.pending ≡ jobs
        → round_on job b st jobs ≡ goes_on next c
        → WentOn job next b c (some st)
    by_pending st [] e h = cc
    by_pending st (first ∷ rest) e h = (st, rest, refl, cc, cc)

    by_entry :
        (entry : Option RepoState)
        → round_with job b entry ≡ goes_on next c
        → WentOn job next b c entry
    by_entry none h = cc
    by_entry (some st) h = by_pending st st.pending refl h
