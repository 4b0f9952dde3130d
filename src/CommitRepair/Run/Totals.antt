-- ===== src/CommitRepair/Run/Totals.antt =====
-- The counters of a whole repair (internal/commitrepair/repair.go).
use conbench.Base.{
  ℕ, ◌+◌, ◌≡◌, refl, ◌∙◌, ap, min, Option, none, some, List, [], ◌∷◌, String, arith, ltb, length,
  length-take, take, Bool-cases, inl, inr,
}
use conbench.Base.Int.{pos_part}
use conbench.Base.Results.{Result, ok, err}
use conbench.CommitRepair.Cursors.{
  RepairError, CursorCodec, store_missing, enricher_missing, repairer_missing, cancelled,
  failed_call,
}
use conbench.CommitRepair.{
  Candidate, BackfillJob, Enrichment, CommitStore, Repairer, RepairOptions, Summary, empty_summary,
  check_options, candidate_params,
}
use conbench.CommitRepair.Run.{
  GoStrings, after_candidate, repair_candidate, repair_each, run, on_cursor, on_candidates,
  on_start, on_parts, on_check,
}
use conbench.CommitRepair.Run.Accounts.{Accounts, open_item, repair_candidate-Accounts}

module _ {World : Type 0} (strings : GoStrings) (ctx_err : World → Option String)
    (store : CommitStore World) (enrich : String → String → World → Enrichment × World)
    (backfill : Option (BackfillJob → World → World)) (opts : RepairOptions) where
  -- `n` candidates more were scanned, if the pass did not end with an error.
  Totals : ℕ → Option RepairError × Summary × World → Type 0
  Totals n p = Accounts (open_item p.0) p.1 × (p.0 ≡ none → p.1.scanned ≡ n)

  after_candidate-Totals :
      (rest : Summary → World → Option RepairError × Summary × World) (m n : ℕ)
      (p : Option RepairError × Summary × World)
      → ((sm : Summary) (w : World) → Accounts 0 sm → Totals (sm.scanned + n) (rest sm w))
      → Totals m p
      → Totals (m + n) (after_candidate strings ctx_err store enrich backfill opts rest p)
  unfolding Totals
  after_candidate-Totals rest m n (none, sm, w) k h =
      let (fits, scans) = k sm w h.0 in (fits, λ e. scans e ∙ ap (λ i. i + n) (h.1 refl))
  after_candidate-Totals rest m n (some e, sm, w) k h = (h.0, λ absurd. cc)

  repair_each-Totals :
      (cs : List Candidate) (sm : Summary) (w : World)
      → Accounts 0 sm
      → Totals
          (sm.scanned + length cs)
          (repair_each strings ctx_err store enrich backfill opts cs sm w)
  unfolding Totals repair_each
  repair_each-Totals [] sm w h = (h, λ e. omega arith)
  repair_each-Totals (c ∷ cs) sm w h =
      let (fits, scans) =
        after_candidate-Totals
          (λ sm' w'. repair_each strings ctx_err store enrich backfill opts cs sm' w')
          (sm.scanned + 1) (length cs)
          (repair_candidate strings ctx_err store enrich backfill opts c sm w)
          (λ sm' w' h'. repair_each-Totals cs sm' w' h')
          (repair_candidate-Accounts strings ctx_err store enrich backfill opts c sm w h) in
      (fits, λ e. scans e ∙ omega arith)

  empty-Accounts :
      (extra : ℕ) (next : Option String)
      → Accounts extra (record empty_summary { next_cursor = next })
  empty-Accounts extra next = record {
    outcomes_bound = omega arith;
    scanned_bound = omega arith;
    quota_bound = omega arith;
    samples = refl;
    jobs_bound = omega arith;
  }

  -- A pass from the start that does not end with an error scans what it is given.
  repair_each-count :
      (cs : List Candidate) (next : Option String) (n : ℕ) (w : World)
      → length cs ≡ n
      → Totals n (
          repair_each strings ctx_err store enrich backfill opts cs
            (record empty_summary { next_cursor = next })
            w)
  unfolding Totals
  repair_each-count cs next n w size =
      let (fits, scans) = repair_each-Totals cs _ w (empty-Accounts 0 next) in
      (fits, λ e. scans e ∙ omega arith)

  on_cursor-Totals :
      (inspect : List Candidate) (cursor : Result RepairError String) (n : ℕ) (w : World)
      → length inspect ≡ n
      → Totals n (on_cursor strings ctx_err store enrich backfill opts inspect cursor w)
  unfolding Totals
  on_cursor-Totals inspect (err e) n w size = (empty-Accounts 1 none, λ absurd. cc)
  on_cursor-Totals inspect (ok encoded) n w size = repair_each-count inspect (some encoded) n w size

  pub on_candidates-Totals :
      (codec : CursorCodec) (cs : List Candidate) (w : World)
      → let p = on_candidates strings ctx_err store enrich backfill opts codec (ok cs) w in
        Accounts (open_item p.0) p.1
        × (p.0 ≡ none → p.1.scanned ≡ min (pos_part opts.limit) (length cs))
  unfolding Totals
  on_candidates-Totals codec cs w = elim (Bool-cases (ltb (pos_part opts.limit) (length cs))) [
    | inl more ↦ rw more (
        on_cursor-Totals (take (pos_part opts.limit) cs) _ _ w
          (length-take (pos_part opts.limit) cs))
    | inr all_read ↦ rw all_read (repair_each-count cs none _ w (ground (arith, all_read)))
  ]

abbrev pub with_parts :
    {World : Type 0}
    → CommitStore World
    → (String → String → World → Enrichment × World)
    → Option (BackfillJob → World → World)
    → Repairer World
with_parts store enrich backfill = record {
  store = some store;
  enricher = some enrich;
  backfill = backfill;
}

module _ {World : Type 0} (strings : GoStrings) (codec : CursorCodec)
    (ctx_err : World → Option String) where
  stopped : (e : RepairError) → Accounts 1 empty_summary
  stopped e = record {
    outcomes_bound = omega arith;
    scanned_bound = omega arith;
    quota_bound = omega arith;
    samples = refl;
    jobs_bound = omega arith;
  }

  on_start-Accounts :
      (store : CommitStore World) (enrich : String → String → World → Enrichment × World)
      (backfill : Option (BackfillJob → World → World)) (opts : RepairOptions) (ctx : Option String)
      (answer : Result String (List Candidate)) (w : World)
      → store.select_candidates (candidate_params opts) w ≡ answer
      → let p = on_start strings ctx_err store enrich backfill opts codec ctx w in
        Accounts (open_item p.0) p.1
  on_start-Accounts store enrich backfill opts (some e) answer w h = stopped (cancelled e)
  on_start-Accounts store enrich backfill opts none (err e) w h = rw h (stopped (failed_call e))
  on_start-Accounts store enrich backfill opts none (ok cs) w h =
      rw h (on_candidates-Totals strings ctx_err store enrich backfill opts codec cs w).0

  on_parts-Accounts :
      (store : Option (CommitStore World))
      (enricher : Option (String → String → World → Enrichment × World))
      (backfill : Option (BackfillJob → World → World)) (opts : RepairOptions) (w : World)
      → let p = on_parts strings codec ctx_err store enricher backfill opts w in
        Accounts (open_item p.0) p.1
  on_parts-Accounts none enricher backfill opts w = stopped store_missing
  on_parts-Accounts (some store) none backfill opts w = stopped enricher_missing
  on_parts-Accounts (some store) (some enrich) backfill opts w =
      on_start-Accounts store enrich backfill opts (ctx_err w) _ w refl

  on_check-Accounts :
      (check : Result RepairError (Unit {0})) (r : Option (Repairer World)) (opts : RepairOptions)
      (w : World)
      → let p = on_check strings codec ctx_err check r opts w in Accounts (open_item p.0) p.1
  on_check-Accounts (err e) r opts w = stopped e
  on_check-Accounts (ok _) none opts w = stopped repairer_missing
  on_check-Accounts (ok _) (some r) opts w = on_parts-Accounts r.store r.enricher r.backfill opts w

  on_start-scanned :
      (store : CommitStore World) (enrich : String → String → World → Enrichment × World)
      (backfill : Option (BackfillJob → World → World)) (opts : RepairOptions) (w : World)
      (cs : List Candidate) (ctx : Option String)
      → store.select_candidates (candidate_params opts) w ≡ ok cs
      → (on_start strings ctx_err store enrich backfill opts codec ctx w).0 ≡ none
      → (on_start strings ctx_err store enrich backfill opts codec ctx w).1.scanned
        ≡ min (pos_part opts.limit) (length cs)
  on_start-scanned store enrich backfill opts w cs (some e) h done = cc
  on_start-scanned store enrich backfill opts w cs none h done =
      let total = (on_candidates-Totals strings ctx_err store enrich backfill opts codec cs w).1 in
      rw h (total (rw h at done))

  on_check-scanned :
      (check : Result RepairError (Unit {0})) (store : CommitStore World)
      (enrich : String → String → World → Enrichment × World)
      (backfill : Option (BackfillJob → World → World)) (opts : RepairOptions) (w : World)
      (cs : List Candidate)
      → store.select_candidates (candidate_params opts) w ≡ ok cs
      → let r = some (with_parts store enrich backfill) in
        (on_check strings codec ctx_err check r opts w).0 ≡ none
        → (on_check strings codec ctx_err check r opts w).1.scanned
          ≡ min (pos_part opts.limit) (length cs)
  on_check-scanned (err e) store enrich backfill opts w cs h done = cc
  on_check-scanned (ok _) store enrich backfill opts w cs h done =
      on_start-scanned store enrich backfill opts w cs (ctx_err w) h done

-- Whatever the collaborators answer and wherever a repair stops, its counters fit together: each
-- scanned candidate is counted under one of repaired, would-repair, unsupported, failed and
-- already repaired, but for the one that an error stopped at; no more failures are due to
-- authentication or quota than there are failures; the sample has an entry for each failure, but
-- never more than ten; and no more backfill jobs are counted than repairs, made or possible.
pub run-Accounts :
    {World : Type 0} (strings : GoStrings) (codec : CursorCodec) (ctx_err : World → Option String)
    (r : Option (Repairer World)) (opts : RepairOptions) (w : World)
    → let p = run strings codec ctx_err r opts w in Accounts (open_item p.0) p.1
unfolding run
run-Accounts strings codec ctx_err r opts w =
    on_check-Accounts strings codec ctx_err (check_options opts) r opts w

-- A repair over a store, an enricher and a backfill queue that ends without an error has scanned as
-- many candidates as the store selected for it, but never more than the limit.
pub run-scanned :
    {World : Type 0} (strings : GoStrings) (codec : CursorCodec) (ctx_err : World → Option String)
    (store : CommitStore World) (enrich : String → String → World → Enrichment × World)
    (backfill : Option (BackfillJob → World → World)) (opts : RepairOptions) (w : World)
    (cs : List Candidate)
    → store.select_candidates (candidate_params opts) w ≡ ok cs
    → (run strings codec ctx_err (some (with_parts store enrich backfill)) opts w).0 ≡ none
    → (run strings codec ctx_err (some (with_parts store enrich backfill)) opts w).1.scanned
      ≡ min (pos_part opts.limit) (length cs)
unfolding run
run-scanned strings codec ctx_err store enrich backfill opts w cs h done =
    on_check-scanned strings codec ctx_err (check_options opts) store enrich backfill opts w cs h
      done
