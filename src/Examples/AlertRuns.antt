-- ===== src/Examples/AlertRuns.antt =====
-- CI reports and alert rules (internal/service) on small inputs.
use conbench.Base.{
  ℕ, ◌+◌, ◌≤◌, ◌≡◌, ◌≢◌, refl, Bool, true, false, Option, none, some, List, [], ◌∷◌, String, arith,
  length, ◌==◌, str_eq, Bool-cases, inl, inr,
}
use conbench.Base.Maps.{lookup, string_key}
use conbench.Base.Results.{Result, ok}
use conbench.Service.Report.{
  success, failure, RowStatus, regressed, stable, Comparison, Summary, Report, derive_summary,
  derive_status,
}
use conbench.Service.Report.Status.{Counts, IsFresh, derive_summary-Counts, derive_status-rows}
use conbench.Service.Alerts.{
  automated_alert_report, AlertRule, AlertEvent, CiReportQuery, opened, opening,
}
use conbench.Service.Alerts.Evaluate.{evaluate}
use conbench.Service.Alerts.Filter.{automated_alert_report-status}
use conbench.Service.Alerts.Counts.{Accounts, evaluate-Accounts}
use conbench.Db.AlertRules.{AlertDb, alert_db_store}
use conbench.Db.AlertRules.History.{HasHistory, history, follows, evaluate-HasHistory}

abbrev row : RowStatus → Bool → Comparison
row status begins = record {
  status = status;
  run_id = "r1";
  history_fingerprint = "f1";
  begins_distribution_change = begins;
  reason = none;
}

-- A regression that begins a distribution change, and a stable row.
abbrev two_rows : List Comparison
two_rows = row regressed true ∷ row stable false ∷ []

abbrev fresh_summary : Summary
fresh_summary = record {
  runs = 1;
  missing_runs = 0;
  contender_results = 2;
  compared = 0;
  analyzed = 0;
  regressions = 0;
  improvements = 0;
  benchmark_errors = 0;
  missing_baselines = 0;
  not_comparables = 0;
  commitless_runs = 0;
  baseline_errors = 0;
  baseline_action_err = 0;
  insufficients = 0;
  stables = 0;
}

fresh_summary-IsFresh : IsFresh fresh_summary
fresh_summary-IsFresh = record {
  no_regressions = refl;
  no_improvements = refl;
  no_stables = refl;
  no_analyzed = refl;
  no_errors = refl;
}

report_summary_example : Counts two_rows fresh_summary (derive_summary two_rows fresh_summary)
report_summary_example = derive_summary-Counts two_rows fresh_summary

status_example : derive_status (derive_summary two_rows fresh_summary) ≡ failure
status_example = derive_status-rows two_rows fresh_summary fresh_summary-IsFresh

abbrev failing_report : Report
failing_report = record {
  status = derive_status (derive_summary two_rows fresh_summary);
  status_reason = "benchmark regressions detected";
  summary = derive_summary two_rows fresh_summary;
  runs = record { run_id = "r1"; comparisons = two_rows } ∷ [];
  comparisons = two_rows;
  report_url = "/ci";
}

alert_status_example : (automated_alert_report failing_report).status ≡ success
alert_status_example = automated_alert_report-status fresh_summary failing_report (record {
  fresh = fresh_summary-IsFresh;
  counted = refl;
  summary_derived = refl;
  status_derived = refl;
})

abbrev one_rule : AlertRule ℕ
one_rule = record {
  id = "a1";
  repository = "https://github.com/org/repo";
  baseline = "parent";
  threshold = 5;
  threshold_z = 5;
  run_reason = none;
  enabled = true;
  state = opened;
  last_evaluated_at = none;
}

abbrev opening_event : AlertEvent
opening_event = record {
  rule_id = "a1";
  repository = "https://github.com/org/repo";
  kind = opening;
  status = failure;
  status_reason = "";
  run_id = "r0";
  commit_sha = "c0";
  report_url = "/ci";
  summary = fresh_summary;
  created_at = 1;
}

abbrev one_rule_db : AlertDb ℕ
one_rule_db = record {
  rules = ("a1", one_rule) ∷ [];
  events = opening_event ∷ [];
  latest_run = λ repository reason. some (record { run_id = "r1"; commit_sha = "c1" });
}

abbrev report_of : CiReportQuery ℕ → AlertDb ℕ → Result String (Option Report)
report_of q db = ok (some failing_report)

abbrev clock : AlertDb ℕ → ℕ
clock db = 7

evaluation_totals_example :
    let (error, sm, db) = evaluate (alert_db_store ◌==◌) report_of clock one_rule_db in
    Accounts 1 sm
    × ((error ≡ none
          → 1
            ≡ sm.opened_rules + sm.resolved_rules + sm.unchanged + sm.skipped_rules
              + sm.no_candidate)
        × (error ≢ none → 1 ≤ length sm.failures))
evaluation_totals_example =
    evaluate-Accounts (alert_db_store ◌==◌) report_of clock one_rule_db (one_rule ∷ []) refl

only_rule :
    (id : String) (r : AlertRule ℕ)
    → lookup id one_rule_db.rules ≡ some r
    → follows r.state (history id one_rule_db.events) ≡ true
unfolding lookup
only_rule id r found = elim (Bool-cases (str_eq "a1" id)) [
  | inl same ↦
      let both : some one_rule ≡ some r = rw same at found in
      let equal : one_rule ≡ r = cc in rw (same, ← equal) refl
  | inr other ↦ absurd (ground (arith, rw other at found))
]

one_rule_db-HasHistory : HasHistory one_rule_db
one_rule_db-HasHistory = record { at = only_rule }

history_example : HasHistory (evaluate (alert_db_store ◌==◌) report_of clock one_rule_db).2
history_example = evaluate-HasHistory ◌==◌ report_of clock one_rule_db one_rule_db-HasHistory
