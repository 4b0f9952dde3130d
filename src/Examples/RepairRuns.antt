-- ===== src/Examples/RepairRuns.antt =====
-- A repair (internal/commitrepair) of two of three commits, with a store that counts its updates.
use conbench.Base.{
  ℕ, ◌+◌, ◌≡◌, refl, Bool, true, false, Option, none, some, List, [], ◌∷◌, String, sym, ap, ◌∙◌,
}
use conbench.Base.Int.{pos}
use conbench.Base.Results.{ok}
use conbench.CommitRepair.Cursors.{Cursor, CursorCodec, validate_cursor, encode_cursor}
use conbench.CommitRepair.{
  Candidate, CommitStore, Enrichment, Info, RepairOptions, Repairer, check_options,
}
use conbench.Base.{◌≤◌}
use conbench.CommitRepair.{candidate_params}
use conbench.CommitRepair.Bounds.{check_options-limit_plus_one}
use conbench.CommitRepair.Run.{GoStrings, run, repair_each, repair_candidate}
use conbench.CommitRepair.Run.Accounts.{Accounts, open_item}
use conbench.CommitRepair.Run.Totals.{with_parts, run-Accounts, run-scanned}
use conbench.CommitRepair.Run.Keeps.{run-dry_run_keeps}

abbrev plain_strings : GoStrings
plain_strings = record { to_lower = λ s. s; contains = λ s part. false }

-- A codec that knows one cursor.
abbrev one_cursor : Cursor
one_cursor = record { repository = "org/repo"; sha = "c2" }

abbrev plain_codec : CursorCodec
plain_codec = record {
  marshal = λ c. ok "cursor";
  unmarshal = λ s. ok one_cursor;
  encode_to_string = λ s. s;
  decode_string = λ s. ok s;
}

abbrev candidate : String → Candidate
candidate sha = record { id = sha; repository = "org/repo"; sha = sha }

abbrev candidates : List Candidate
candidates = candidate "c1" ∷ candidate "c2" ∷ candidate "c3" ∷ []

-- The world is the number of updates made.
abbrev counting_store : CommitStore ℕ
counting_store = record {
  select_candidates = λ p w. ok candidates;
  update_unknown_commit = λ p w. (ok 1, w + 1);
}

abbrev found_info : Info
found_info = record {
  parent = none;
  message = "m";
  author_name = "a";
  author_login = none;
  author_avatar = none;
  timestamp = some 5;
  branch = none;
  fork_point_sha = some "f";
}

abbrev always_found : String → String → ℕ → Enrichment × ℕ
always_found sha repository w = (record { info = some found_info; job = none; error = none }, w)

abbrev never_cancelled : ℕ → Option String
never_cancelled w = none

abbrev options : Bool → RepairOptions
options dry = record {
  repository = none;
  limit = pos 2;
  cursor = none;
  dry_run = dry;
  use_backfill = false;
}

abbrev whole_repairer : Repairer ℕ
whole_repairer = with_parts counting_store always_found none

repair_totals_example :
    let p = run plain_strings plain_codec never_cancelled (some whole_repairer) (options false) 0 in
    Accounts (open_item p.0) p.1
repair_totals_example =
    run-Accounts plain_strings plain_codec never_cancelled (some whole_repairer) (options false) 0

repair_scanned_example :
    (run plain_strings plain_codec never_cancelled
      (some whole_repairer)
      (options false)
      0).1.scanned
    ≡ 2
unfolding run repair_each repair_candidate check_options encode_cursor validate_cursor
repair_scanned_example =
    run-scanned plain_strings plain_codec never_cancelled counting_store always_found none
      (options false) 0 candidates refl refl

enricher_keeps :
    (enrich : String → String → ℕ → Enrichment × ℕ)
    → whole_repairer.enricher ≡ some enrich
    → (sha repository : String) (w : ℕ) → w ≡ 4
    → (enrich sha repository w).1 ≡ 4
enricher_keeps enrich e sha repository w h =
    let same : always_found ≡ enrich = cc in ap (λ f. (f sha repository w).1) (sym same) ∙ h

dry_run_example :
    (run plain_strings plain_codec never_cancelled (some whole_repairer) (options true) 4).2 ≡ 4
dry_run_example =
    run-dry_run_keeps plain_strings plain_codec never_cancelled whole_repairer (options true)
      (λ w. w ≡ 4) 4 enricher_keeps refl refl

limit_example : (1 ≤ 2) × ((candidate_params (options false)).limit_plus_one ≡ pos 3)
unfolding check_options
limit_example = check_options-limit_plus_one (options false) tt refl
