-- ===== src/CommitRepair/Run/Keeps.antt =====
-- What a repair leaves alone in a dry run (internal/commitrepair/repair.go).
use conbench.Base.{
  ◌≡◌, refl, ℕ, Bool, true, false, Option, none, some, List, [], ◌∷◌, String, if◌then◌else◌,
  Bool-cases, inl, inr, ltb, length,
}
use conbench.Base.Int.{pos_part}
use conbench.Base.Results.{Result, ok, err}
use conbench.CommitRepair.Cursors.{RepairError, CursorCodec}
use conbench.CommitRepair.{
  Candidate, Info, BackfillJob, EnrichError, Enrichment, CommitStore, Repairer, RepairOptions,
  Summary, check_options, complete_info, candidate_params,
}
use conbench.CommitRepair.Run.{
  GoStrings, after_candidate, repair_candidate, repair_each, run, on_info, on_error, on_enrichment,
  on_context, on_cursor, on_candidates, on_start, on_parts, on_check,
}

module _ {World : Type 0} (strings : GoStrings) (ctx_err : World → Option String)
    (store : CommitStore World) (enrich : String → String → World → Enrichment × World)
    (backfill : Option (BackfillJob → World → World)) (opts : RepairOptions) (P : World → Type 0)
    (enrich_keeps : (sha repository : String) (w : World) → P w → P (enrich sha repository w).1)
    (dry : opts.dry_run ≡ true) where
  repair_candidate_keeps :
      (c : Candidate) (sm : Summary) (w : World)
      → P w
      → P (repair_candidate strings ctx_err store enrich backfill opts c sm w).2
  unfolding repair_candidate
  repair_candidate_keeps c sm w h = by_context (ctx_err w)
    where
      by_support :
          (b : Bool) (a a' : Summary) (w : World)
          → P w
          → P
              (if◌then◌else◌ {A = Option RepairError × Summary × World} b
                (none, a, w)
                (none, a', w)).2
      by_support true a a' w h = h
      by_support false a a' w h = h

      by_info :
          (job : Option BackfillJob) (info : Option (Info × ℕ)) (sm : Summary) (w : World)
          → P w
          → P (on_info strings ctx_err store enrich backfill opts c job info sm w).2
      by_info job none sm w h = h
      by_info job (some (info, t)) sm w h = rw dry h

      by_error :
          (e : EnrichError) (ctx : Option String) (sm : Summary) (w : World)
          → P w
          → P (on_error strings ctx_err store enrich backfill opts c e ctx sm w).2
      by_error e (some ctx) sm w h = h
      by_error e none sm w h = by_support e.unsupported_repository _ _ w h

      by_result :
          (r : Enrichment) (o : Option EnrichError) (sm : Summary) (w : World)
          → P w
          → P (on_enrichment strings ctx_err store enrich backfill opts c r o sm w).2
      by_result r none sm w h = by_info r.job (complete_info r.info) sm w h
      by_result r (some e) sm w h = by_error e (ctx_err w) sm w h

      by_context :
          (ctx : Option String)
          → P (on_context strings ctx_err store enrich backfill opts c ctx sm w).2
      by_context (some ctx) = h
      by_context none =
          let (r, w') = enrich c.sha c.repository w in
          by_result r r.error _ w' (enrich_keeps c.sha c.repository w h)

  after_candidate_keeps :
      (rest : Summary → World → Option RepairError × Summary × World)
      (p : Option RepairError × Summary × World)
      → ((sm : Summary) (w : World) → P w → P (rest sm w).2)
      → P p.2
      → P (after_candidate strings ctx_err store enrich backfill opts rest p).2
  after_candidate_keeps rest (none, sm, w) k h = k sm w h
  after_candidate_keeps rest (some e, sm, w) k h = h

  repair_each_keeps :
      (cs : List Candidate) (sm : Summary) (w : World)
      → P w
      → P (repair_each strings ctx_err store enrich backfill opts cs sm w).2
  unfolding repair_each
  repair_each_keeps [] sm w h = h
  repair_each_keeps (c ∷ cs) sm w h =
      after_candidate_keeps _ (repair_candidate strings ctx_err store enrich backfill opts c sm w)
        (λ sm' w' h'. repair_each_keeps cs sm' w' h') (repair_candidate_keeps c sm w h)

  on_start_keeps :
      (codec : CursorCodec) (ctx : Option String) (w : World)
      → P w
      → P (on_start strings ctx_err store enrich backfill opts codec ctx w).2
  on_start_keeps codec (some ctx) w h = h
  on_start_keeps codec none w h = by_answer (store.select_candidates (candidate_params opts) w)
    where
      by_cursor :
          (inspect : List Candidate) (cursor : Result RepairError String)
          → P (on_cursor strings ctx_err store enrich backfill opts inspect cursor w).2
      by_cursor inspect (err e) = h
      by_cursor inspect (ok encoded) = repair_each_keeps inspect _ w h

      by_answer :
          (answer : Result String (List Candidate))
          → P (on_candidates strings ctx_err store enrich backfill opts codec answer w).2
      by_answer (err e) = h
      by_answer (ok cs) = elim (Bool-cases (ltb (pos_part opts.limit) (length cs))) [
        | inl more ↦ rw more (by_cursor _ _)
        | inr all_read ↦ rw all_read (repair_each_keeps cs _ w h)
      ]

module _ {World : Type 0} (strings : GoStrings) (codec : CursorCodec)
    (ctx_err : World → Option String) where
  on_check_keeps :
      (check : Result RepairError (Unit {0})) (r : Repairer World) (opts : RepairOptions)
      (P : World → Type 0) (w : World)
      → ((enrich : String → String → World → Enrichment × World)
          → r.enricher ≡ some enrich
          → (sha repository : String) (w : World) → P w
          → P (enrich sha repository w).1)
      → opts.dry_run ≡ true
      → P w
      → P (on_check strings codec ctx_err check (some r) opts w).2
  on_check_keeps (err e) r opts P w k dry h = h
  on_check_keeps (ok _) r opts P w k dry h = by_parts r.store r.enricher k
    where
      by_parts :
          (store : Option (CommitStore World))
          (enricher : Option (String → String → World → Enrichment × World))
          → ((enrich : String → String → World → Enrichment × World)
              → enricher ≡ some enrich
              → (sha repository : String) (w : World) → P w
              → P (enrich sha repository w).1)
          → P (on_parts strings codec ctx_err store enricher r.backfill opts w).2
      by_parts none enricher k = h
      by_parts (some store) none k = h
      by_parts (some store) (some enrich) k =
          on_start_keeps strings ctx_err store enrich r.backfill opts P (k enrich refl) dry codec
            (ctx_err w) w h

-- A dry run changes the world by calls of the enricher only: what those keep, the run keeps,
-- however it ends.
pub run-dry_run_keeps :
    {World : Type 0} (strings : GoStrings) (codec : CursorCodec) (ctx_err : World → Option String)
    (r : Repairer World) (opts : RepairOptions) (P : World → Type 0) (w : World)
    → ((enrich : String → String → World → Enrichment × World)
        → r.enricher ≡ some enrich
        → (sha repository : String) (w : World) → P w
        → P (enrich sha repository w).1)
    → opts.dry_run ≡ true
    → P w
    → P (run strings codec ctx_err (some r) opts w).2
unfolding run
run-dry_run_keeps strings codec ctx_err r opts P w k dry h =
    on_check_keeps strings codec ctx_err (check_options opts) r opts P w k dry h
