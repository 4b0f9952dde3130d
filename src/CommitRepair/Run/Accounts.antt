-- ===== src/CommitRepair/Run/Accounts.antt =====
-- The counters of a repair (internal/commitrepair/repair.go): what each candidate adds to them.
use conbench.Base.{
  ℕ, ◌+◌, ◌≡◌, refl, ap, ◌∙◌, inl, inr, ◌≤◌, min, Bool, true, false, ◌&&◌, Option, none, some,
  String, arith, leb, ◌==◌, if◌then◌else◌, length, length-append, Bool-cases,
}
use conbench.Base.Results.{Result, ok, err}
use conbench.CommitRepair.Cursors.{RepairError}
use conbench.CommitRepair.{
  Candidate, Info, BackfillJob, EnrichError, Enrichment, CommitStore, RepairOptions, Summary,
  complete_info, update_params,
}
use conbench.CommitRepair.Run.{
  GoStrings, record_failure, repair_candidate, on_update, on_info, on_error, on_enrichment,
  on_context, offer_job, incomplete, count_job,
}

abbrev pub outcomes : Summary → ℕ
outcomes sm =
    sm.repaired + sm.would_repair + sm.unsupported_repository + sm.failed + sm.already_repaired

abbrev pub open_item : Option RepairError → ℕ
open_item none = 0
open_item (some e) = 1

-- At most `extra` scanned candidates have no outcome.
pub record Accounts (extra : ℕ) (sm : Summary) : Type 0 where
  pub outcomes_bound : outcomes sm ≤ sm.scanned
  pub scanned_bound : sm.scanned ≤ outcomes sm + extra
  pub quota_bound : sm.auth_or_quota_failures ≤ sm.failed
  pub samples : length sm.failures ≡ min 10 sm.failed
  pub jobs_bound : sm.backfill_enqueued + sm.would_backfill ≤ sm.repaired + sm.would_repair

-- One candidate more than in `a` was scanned, and the counters fit.
abbrev pub Settled : ℕ → Summary → Summary → Type 0
Settled extra a b = Accounts extra b × (b.scanned ≡ a.scanned + 1)

min-step : (n m k : ℕ) → m ≡ min 10 n → k ≡ (if leb 10 m then m else m + 1) → k ≡ min 10 (n + 1)
min-step n m k h e = ground (arith, h, e)

failures-record_failure :
    (strings : GoStrings) (sm : Summary) (c : Candidate) (e : EnrichError)
    → length (record_failure strings sm c e).failures
      ≡ (if leb 10 (length sm.failures) then length sm.failures else length sm.failures + 1)
unfolding record_failure
failures-record_failure strings sm c e = elim (Bool-cases (leb 10 (length sm.failures))) [
  | inl full ↦ rw full refl
  | inr room ↦ rw room (length-append sm.failures _)
]

counts-record_failure :
    (strings : GoStrings) (sm : Summary) (c : Candidate) (e : EnrichError)
    → let b = record_failure strings sm c e in
      (b.scanned ≡ sm.scanned)
      × (outcomes b ≡ outcomes sm + 1)
      × (b.failed ≡ sm.failed + 1)
      × (b.auth_or_quota_failures ≤ sm.auth_or_quota_failures + 1)
      × (b.backfill_enqueued + b.would_backfill + (sm.repaired + sm.would_repair)
          ≡ sm.backfill_enqueued + sm.would_backfill + (b.repaired + b.would_repair))
unfolding record_failure
counts-record_failure strings sm c e = elim (Bool-cases (leb 10 (length sm.failures))) [
  | inl full ↦ rw full (refl, omega arith, refl, ground arith, refl)
  | inr room ↦ rw room (refl, omega arith, refl, ground arith, refl)
]

Accounts-record_failure :
    (strings : GoStrings) (sm : Summary) (c : Candidate) (e : EnrichError)
    → Accounts 0 sm
    → Settled 0 sm (record_failure strings (record sm { scanned = sm.scanned + 1 }) c e)
Accounts-record_failure strings sm c e h =
    let a : Summary = record sm { scanned = sm.scanned + 1 } in
    let (scans, outs, fails, quota, jobs) = counts-record_failure strings a c e in
    (
      record {
        outcomes_bound = omega (arith, h);
        scanned_bound = omega (arith, h);
        quota_bound = omega (arith, h);
        samples =
            min-step sm.failed (length sm.failures) _ h.samples
              (failures-record_failure strings a c e)
            ∙ ap (min 10) (omega arith);
        jobs_bound = omega (arith, h);
      },
      scans,
    )

booked :
    (extra : ℕ) (a b : Summary)
    → Accounts 0 a
    → b.scanned ≡ a.scanned + 1
    → outcomes b + extra ≡ outcomes a + 1
    → b.failed ≡ a.failed
    → b.auth_or_quota_failures ≡ a.auth_or_quota_failures
    → b.failures ≡ a.failures
    → b.backfill_enqueued + b.would_backfill + (a.repaired + a.would_repair)
      ≤ a.backfill_enqueued + a.would_backfill + (b.repaired + b.would_repair)
    → Settled extra a b
booked extra a b h scans outs fails quota samples jobs = (
  record {
    outcomes_bound = omega (arith, h);
    scanned_bound = omega (arith, h);
    quota_bound = omega (arith, h);
    samples = rw (samples, fails) h.samples;
    jobs_bound = omega (arith, h);
  },
  scans,
)

module _ {World : Type 0} (strings : GoStrings) (ctx_err : World → Option String)
    (store : CommitStore World) (enrich : String → String → World → Enrichment × World)
    (backfill : Option (BackfillJob → World → World)) (opts : RepairOptions) where
  -- After a candidate that came to `p` from the counters `sm`.
  Booked : Summary → Option RepairError × Summary × World → Type 0
  Booked sm p = Settled (open_item p.0) sm p.1

  scan : Summary → Summary
  scan sm = record sm { scanned = sm.scanned + 1 }

  offer_job-Booked :
      (job : Option BackfillJob) (rows : ℕ) (sm : Summary) (w : World)
      (queue : Option (BackfillJob → World → World))
      → Accounts 0 sm
      → Booked sm (
          offer_job strings ctx_err store enrich backfill opts job rows queue
            (record sm { scanned = sm.scanned + 1; repaired = sm.repaired + 1 })
            w)
  unfolding Booked
  offer_job-Booked none rows sm w queue h =
      booked 0 sm _ h refl (omega arith) refl refl refl (omega arith)
  offer_job-Booked (some job) rows sm w none h =
      booked 0 sm _ h refl (omega arith) refl refl refl (omega arith)
  offer_job-Booked (some job) rows sm w (some enqueue) h =
      elim (Bool-cases (opts.use_backfill && rows == 1)) [
        | inl enqueued ↦
            rw enqueued (booked 0 sm _ h refl (omega arith) refl refl refl (omega arith))
        | inr kept ↦ rw kept (booked 0 sm _ h refl (omega arith) refl refl refl (omega arith))
      ]

  on_update-Booked :
      (job : Option BackfillJob) (answer : Result String ℕ × World) (sm : Summary)
      → Accounts 0 sm
      → Booked sm (on_update strings ctx_err store enrich backfill opts job answer (scan sm))
  unfolding Booked scan
  on_update-Booked job (err e, w) sm h =
      booked 1 sm _ h refl (omega arith) refl refl refl (omega arith)
  on_update-Booked job (ok rows, w) sm h = elim (Bool-cases (rows == 0)) [
    | inl none_left ↦ rw none_left (booked 0 sm _ h refl (omega arith) refl refl refl (omega arith))
    | inr repaired ↦ rw repaired (offer_job-Booked job rows sm w backfill h)
  ]

  on_info-Booked :
      (c : Candidate) (job : Option BackfillJob) (info : Option (Info × ℕ)) (sm : Summary)
      (w : World)
      → Accounts 0 sm
      → Booked sm (on_info strings ctx_err store enrich backfill opts c job info (scan sm) w)
  unfolding Booked scan
  on_info-Booked c job none sm w h = Accounts-record_failure strings sm c incomplete h
  on_info-Booked c job (some (info, t)) sm w h = elim (Bool-cases opts.dry_run) [
    | inl dry ↦ rw dry (by_job job)
    | inr wet ↦
        rw wet
          (on_update-Booked job (store.update_unknown_commit (update_params c.id info t) w) sm h)
  ]
    where
      by_job :
          (job : Option BackfillJob)
          → Settled 0 sm (
              count_job strings ctx_err store enrich backfill opts job
                (record sm { scanned = sm.scanned + 1; would_repair = sm.would_repair + 1 }))
      by_job none = booked 0 sm _ h refl (omega arith) refl refl refl (omega arith)
      by_job (some j) = booked 0 sm _ h refl (omega arith) refl refl refl (omega arith)

  on_error-Booked :
      (c : Candidate) (e : EnrichError) (ctx : Option String) (sm : Summary) (w : World)
      → Accounts 0 sm
      → Booked sm (on_error strings ctx_err store enrich backfill opts c e ctx (scan sm) w)
  unfolding Booked scan
  on_error-Booked c e (some ctx) sm w h =
      booked 1 sm _ h refl (omega arith) refl refl refl (omega arith)
  on_error-Booked c e none sm w h = by_support e.unsupported_repository
    where
      by_support :
          (b : Bool)
          → Booked sm (
              if b
              then (
                none,
                record (scan sm) { unsupported_repository = sm.unsupported_repository + 1 },
                w,
              )
              else (none, record_failure strings (scan sm) c e, w))
      by_support true = booked 0 sm _ h refl (omega arith) refl refl refl (omega arith)
      by_support false = Accounts-record_failure strings sm c e h

  pub repair_candidate-Accounts :
      (c : Candidate) (sm : Summary) (w : World)
      → Accounts 0 sm
      → let p = repair_candidate strings ctx_err store enrich backfill opts c sm w in
        Accounts (open_item p.0) p.1 × (p.0 ≡ none → p.1.scanned ≡ sm.scanned + 1)
  unfolding Booked scan repair_candidate
  repair_candidate-Accounts c sm w h = by_context (ctx_err w)
    where
      by_error :
          (r : Enrichment) (o : Option EnrichError) (w : World)
          → Booked sm (on_enrichment strings ctx_err store enrich backfill opts c r o (scan sm) w)
      by_error r none w = on_info-Booked c r.job (complete_info r.info) sm w h
      by_error r (some e) w = on_error-Booked c e (ctx_err w) sm w h

      by_context :
          (ctx : Option String)
          → let p = on_context strings ctx_err store enrich backfill opts c ctx sm w in
            Accounts (open_item p.0) p.1 × (p.0 ≡ none → p.1.scanned ≡ sm.scanned + 1)
      by_context (some ctx) = (
        record {
          outcomes_bound = h.outcomes_bound;
          scanned_bound = omega (arith, h);
          quota_bound = h.quota_bound;
          samples = h.samples;
          jobs_bound = h.jobs_bound;
        },
        λ e. cc,
      )
      by_context none =
          let (r, w') = enrich c.sha c.repository w in
          let (fits, scans) = by_error r r.error w' in (fits, λ e. scans)
