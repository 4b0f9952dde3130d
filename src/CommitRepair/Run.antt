-- ===== src/CommitRepair/Run.antt =====
-- Repairer.Run (internal/commitrepair/repair.go): the pass over the candidates and what stops it.
pub mod Accounts
pub mod Totals
pub mod Keeps
use conbench.Base.{
  ℕ, ◌+◌, ◌-◌, ◌≡◌, Bool, true, false, not, ◌&&◌, ◌||◌, Option, none, some, List, [], ◌∷◌, ◌++◌,
  String, arith, ltb, leb, ◌==◌, if◌then◌else◌, length, take, get_or, any,
}
use conbench.Base.Int.{ℤ, pos, negsuc, pos_part}
use conbench.Base.Results.{Result, ok, err, ◌>>=◌, ◌>>◌, refuse_if}
use conbench.CommitRepair.Cursors.{
  Cursor, RepairError, CursorCodec, encode_cursor, validate_cursor, repairer_missing, store_missing,
  enricher_missing, cancelled, failed_call,
}
use conbench.CommitRepair.{
  Candidate, Info, BackfillJob, CandidateParams, UpdateParams, EnrichError, Enrichment, CommitStore,
  Repairer, RepairOptions, Failure, Summary, empty_summary, update_params, complete_info,
  candidate_params, check_options, max_failure_samples,
}

-- strings.ToLower and strings.Contains.
pub record GoStrings : Type 0 where
  pub to_lower : String → String
  pub contains : String → String → Bool

abbrev is_status : Option ℕ → Bool
is_status none = false
is_status (some code) = code == 401 || code == 403

module _ (strings : GoStrings) where
  unfoldable pub is_github_auth_or_quota_failure : EnrichError → Bool
  is_github_auth_or_quota_failure e =
      is_status e.status_code
      || any (strings.contains (strings.to_lower e.message)) (
          "unexpected github response 401" ∷ "unexpected github response 403" ∷ "github 403"
          ∷ "bad credentials" ∷ "quota exhausted" ∷ [])

  unfoldable pub record_failure : Summary → Candidate → EnrichError → Summary
  record_failure sm c e =
      let counted : Summary = record sm {
        failed = sm.failed + 1;
        auth_or_quota_failures =
            if is_github_auth_or_quota_failure e
            then sm.auth_or_quota_failures + 1
            else sm.auth_or_quota_failures;
      } in
      let sample : Failure = record { repository = c.repository; sha = c.sha; error = e.message } in
      if leb max_failure_samples (length sm.failures)
      then counted
      else record counted { failures = sm.failures ++ (sample ∷ []) }

abbrev pub incomplete : EnrichError
incomplete = record {
  unsupported_repository = false;
  status_code = none;
  message = "enrichment returned incomplete commit metadata";
}

module _ {World : Type 0} (strings : GoStrings) (ctx_err : World → Option String)
    (store : CommitStore World) (enrich : String → String → World → Enrichment × World)
    (backfill : Option (BackfillJob → World → World)) (opts : RepairOptions) where
  abbrev pub Pass : Type 0
  Pass = Option RepairError × Summary × World

  -- After an update of `rows` rows: what becomes of the backfill job.
  abbrev pub offer_job :
      Option BackfillJob → ℕ → Option (BackfillJob → World → World) → Summary → World → Pass
  offer_job none rows queue sm w = (none, sm, w)
  offer_job (some job) rows none sm w =
      (none, record sm { would_backfill = sm.would_backfill + 1 }, w)
  offer_job (some job) rows (some enqueue) sm w =
      if opts.use_backfill && rows == 1
      then (none, record sm { backfill_enqueued = sm.backfill_enqueued + 1 }, enqueue job w)
      else (none, record sm { would_backfill = sm.would_backfill + 1 }, w)

  abbrev pub on_update : Option BackfillJob → Result String ℕ × World → Summary → Pass
  on_update job (err e, w) sm = (some (failed_call e), sm, w)
  on_update job (ok rows, w) sm =
      if rows == 0
      then (none, record sm { already_repaired = sm.already_repaired + 1 }, w)
      else offer_job job rows backfill (record sm { repaired = sm.repaired + 1 }) w

  abbrev pub count_job : Option BackfillJob → Summary → Summary
  count_job none sm = sm
  count_job (some job) sm = record sm { would_backfill = sm.would_backfill + 1 }

  abbrev pub on_info : Candidate → Option BackfillJob → Option (Info × ℕ) → Summary → World → Pass
  on_info c job none sm w = (none, record_failure strings sm c incomplete, w)
  on_info c job (some (info, t)) sm w =
      if opts.dry_run
      then (none, count_job job (record sm { would_repair = sm.would_repair + 1 }), w)
      else on_update job (store.update_unknown_commit (update_params c.id info t) w) sm

  abbrev pub on_error : Candidate → EnrichError → Option String → Summary → World → Pass
  on_error c e (some ctx) sm w = (some (cancelled ctx), sm, w)
  on_error c e none sm w =
      if e.unsupported_repository
      then (none, record sm { unsupported_repository = sm.unsupported_repository + 1 }, w)
      else (none, record_failure strings sm c e, w)

  abbrev pub on_enrichment : Candidate → Enrichment → Option EnrichError → Summary → World → Pass
  on_enrichment c r none sm w = on_info c r.job (complete_info r.info) sm w
  on_enrichment c r (some e) sm w = on_error c e (ctx_err w) sm w

  abbrev pub on_context : Candidate → Option String → Summary → World → Pass
  on_context c (some ctx) sm w = (some (cancelled ctx), sm, w)
  on_context c none sm w =
      let (r, w') = enrich c.sha c.repository w in
      on_enrichment c r r.error (record sm { scanned = sm.scanned + 1 }) w'

  unfoldable pub repair_candidate : Candidate → Summary → World → Pass
  repair_candidate c sm w = on_context c (ctx_err w) sm w

  abbrev pub after_candidate : (Summary → World → Pass) → Pass → Pass
  after_candidate rest (none, sm, w) = rest sm w
  after_candidate rest (some e, sm, w) = (some e, sm, w)

  -- The loop: `repair_each` over the rest once a candidate ended without an error.
  unfoldable pub repair_each : List Candidate → Summary → World → Pass
  repair_each [] sm w = (none, sm, w)
  repair_each (c ∷ cs) sm w =
      after_candidate (λ sm' w'. repair_each cs sm' w') (repair_candidate c sm w)

  abbrev no_candidate : Candidate
  no_candidate = record { id = ""; repository = ""; sha = "" }

  abbrev pub on_cursor : List Candidate → Result RepairError String → World → Pass
  on_cursor inspect (err e) w = (some e, empty_summary, w)
  on_cursor inspect (ok encoded) w =
      repair_each inspect (record empty_summary { next_cursor = some encoded }) w

  abbrev pub on_candidates : CursorCodec → Result String (List Candidate) → World → Pass
  on_candidates codec (err e) w = (some (failed_call e), empty_summary, w)
  on_candidates codec (ok candidates) w =
      let limit = pos_part opts.limit in
      let inspect = take limit candidates in
      let last = get_or inspect (length inspect - 1) no_candidate in
      if ltb limit (length candidates)
      then on_cursor inspect
          (encode_cursor codec (record { repository = last.repository; sha = last.sha })) w
      else repair_each candidates empty_summary w

  abbrev pub on_start : CursorCodec → Option String → World → Pass
  on_start codec (some ctx) w = (some (cancelled ctx), empty_summary, w)
  on_start codec none w = on_candidates codec (store.select_candidates (candidate_params opts) w) w

module _ {World : Type 0} (strings : GoStrings) (codec : CursorCodec)
    (ctx_err : World → Option String) where
  abbrev pub on_parts :
      Option (CommitStore World)
      → Option (String → String → World → Enrichment × World)
      → Option (BackfillJob → World → World)
      → RepairOptions
      → World
      → Option RepairError × Summary × World
  on_parts none enricher backfill opts w = (some store_missing, empty_summary, w)
  on_parts (some store) none backfill opts w = (some enricher_missing, empty_summary, w)
  on_parts (some store) (some enrich) backfill opts w =
      on_start strings ctx_err store enrich backfill opts codec (ctx_err w) w

  abbrev pub on_repairer :
      Option (Repairer World) → RepairOptions → World → Option RepairError × Summary × World
  on_repairer none opts w = (some repairer_missing, empty_summary, w)
  on_repairer (some r) opts w = on_parts r.store r.enricher r.backfill opts w

  abbrev pub on_check :
      Result RepairError (Unit {0})
      → Option (Repairer World)
      → RepairOptions
      → World
      → Option RepairError × Summary × World
  on_check (err e) r opts w = (some e, empty_summary, w)
  on_check (ok _) r opts w = on_repairer r opts w

  unfoldable pub run :
      Option (Repairer World) → RepairOptions → World → Option RepairError × Summary × World
  run r opts w = on_check (check_options opts) r opts w
