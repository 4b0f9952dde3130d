-- ===== src/Service/Alerts.antt =====
-- internal/service/alerts.go: the types of alert rules, and the report that an alert is derived
-- from.
pub mod Filter
pub mod Evaluate
pub mod Counts
pub mod Preserves
use conbench.Base.{
  ℕ, zero, suc, ◌+◌, Bool, true, false, not, Option, none, some, List, [], ◌∷◌, ◌++◌, map, String,
  length, ◌==◌, ltb, if◌then◌else◌, keep,
}
use conbench.Base.Results.{Result, ok, err}
use conbench.Service.Report.{
  Report, ReportRun, Comparison, Summary, ReportStatus, success, failure, action_required, skipped,
  derive_summary, derive_status, derive_status_reason,
}

-- Rows whose contender begins a distribution change are no reason for an alert.
abbrev pub is_automated : Comparison → Bool
is_automated c = not c.begins_distribution_change

abbrev pub filtered_run : ReportRun → ReportRun
filtered_run run = record run { comparisons = keep is_automated run.comparisons }

abbrev pub filtered_summary : Summary → ℕ → Summary
filtered_summary s n = record {
  runs = s.runs;
  missing_runs = s.missing_runs;
  contender_results = n;
  compared = 0;
  analyzed = 0;
  regressions = 0;
  improvements = 0;
  benchmark_errors = 0;
  missing_baselines = 0;
  not_comparables = 0;
  commitless_runs = s.commitless_runs;
  baseline_errors = s.baseline_errors;
  baseline_action_err = s.baseline_action_err;
  insufficients = 0;
  stables = 0;
}

unfoldable pub automated_alert_report : Report → Report
automated_alert_report report =
    let comparisons = keep is_automated report.comparisons in
    let summary = filtered_summary report.summary (length comparisons) in
    let derived = derive_summary comparisons summary in
    let status = derive_status derived in
    if length comparisons == length report.comparisons
    then report
    else if length comparisons == 0
    then record report {
      comparisons = comparisons;
      runs = map filtered_run report.runs;
      summary = summary;
      status = skipped;
      status_reason = "all contender rows begin a distribution change";
    }
    else record report {
      comparisons = comparisons;
      runs = map filtered_run report.runs;
      summary = derived;
      status = status;
      status_reason = derive_status_reason status derived;
    }

pub data RuleState : Type 0 where
  inactive opened : RuleState

pub data EventKind : Type 0 where
  opening resolving : EventKind

-- Thresholds are of a type of floats.
pub record AlertRule (Float : Type 0) : Type 0 where
  pub id : String
  pub repository : String
  pub baseline : String
  pub threshold : Float
  pub threshold_z : Float
  pub run_reason : Option String
  pub enabled : Bool
  pub state : RuleState
  pub last_evaluated_at : Option ℕ

pub record AlertEvent : Type 0 where
  pub rule_id : String
  pub repository : String
  pub kind : EventKind
  pub status : ReportStatus
  pub status_reason : String
  pub run_id : String
  pub commit_sha : String
  pub report_url : String
  pub summary : Summary
  pub created_at : ℕ

pub record CandidateRun : Type 0 where
  pub run_id : String
  pub commit_sha : String

pub data StoreError : Type 0 where
  not_found : StoreError
  store_failed : String → StoreError

-- TransitionAlertRuleParams: the rule as it was listed, and what is to happen to it.
pub record TransitionParams (Float : Type 0) : Type 0 where
  pub rule : AlertRule Float
  pub from_state : RuleState
  pub to_state : RuleState
  pub kind : EventKind
  pub status : ReportStatus
  pub status_reason : String
  pub run_id : String
  pub commit_sha : String
  pub report_url : String
  pub summary : Summary
  pub evaluated_at : ℕ

pub record Transition : Type 0 where
  pub transitioned : Bool
  pub event : Option AlertEvent

-- The interface AlertStore over a state of the outside world. A touch hands over the rule as it was
-- listed and the time; of its result the code looks at the error only.
pub record AlertStore (Float World : Type 0) : Type 0 where
  pub list_enabled_alert_rules : World → Result String (List (AlertRule Float))
  pub select_latest_alert_run : String → Option String → World → Result StoreError CandidateRun
  pub touch_rule : AlertRule Float → ℕ → World → Option String × World
  pub transition_rule : TransitionParams Float → World → Result String Transition × World

pub record CiReportQuery (Float : Type 0) : Type 0 where
  pub repository : String
  pub commit_sha : String
  pub run_ids : List String
  pub baseline : String
  pub threshold : Float
  pub threshold_z : Float

pub record EvaluationSummary : Type 0 where
  pub rules : ℕ
  pub evaluated : ℕ
  pub opened_rules : ℕ
  pub resolved_rules : ℕ
  pub unchanged : ℕ
  pub skipped_rules : ℕ
  pub no_candidate : ℕ
  pub failed : ℕ
  pub failures : List (String × String)
  pub events : List AlertEvent
