-- ===== src/Service/Alerts/Evaluate.antt =====
-- AlertEvaluator.Evaluate (internal/service/alerts.go): the evaluation of the rules against a store
-- and a reporter, which are parameters as in the code.
use conbench.Base.{
  ℕ, ◌+◌, Option, none, some, List, [], ◌∷◌, ◌++◌, String, length, ltb, if◌then◌else◌,
}
use conbench.Base.Results.{Result, ok, err}
use conbench.Service.Report.{Report, ReportStatus, success, failure}
use conbench.Service.Alerts.{
  AlertRule, AlertEvent, CandidateRun, StoreError, not_found, store_failed, TransitionParams,
  Transition, AlertStore, CiReportQuery, EvaluationSummary, RuleState, inactive, opened, EventKind,
  opening, resolving, automated_alert_report,
}

-- What a step of the evaluation returns: an error or none, the summary, and the world.
abbrev pub Outcome : Type 0 → Type 0
Outcome World = Option String × EvaluationSummary × World

abbrev pub events_of : Option AlertEvent → List AlertEvent
events_of none = []
events_of (some e) = e ∷ []

-- A rule's error is recorded, and the next rule follows.
abbrev pub note_failure :
    {Float : Type 0} → AlertRule Float → Option String → EvaluationSummary → EvaluationSummary
note_failure rule none sm = sm
note_failure rule (some e) sm = record sm {
  failed = sm.failed + 1;
  failures = sm.failures ++ (rule.id, e) ∷ [];
}

abbrev pub start : ℕ → EvaluationSummary
start n = record {
  rules = n;
  evaluated = 0;
  opened_rules = 0;
  resolved_rules = 0;
  unchanged = 0;
  skipped_rules = 0;
  no_candidate = 0;
  failed = 0;
  failures = [];
  events = [];
}

abbrev pub note_opened :
    EvaluationSummary → Result String Transition → Option String × EvaluationSummary
note_opened sm (err e) = (some e, sm)
note_opened sm (ok t) =
    if t.transitioned
    then (
      none,
      record sm { opened_rules = sm.opened_rules + 1; events = sm.events ++ events_of t.event },
    )
    else (none, record sm { unchanged = sm.unchanged + 1 })

abbrev pub note_resolved :
    EvaluationSummary → Result String Transition → Option String × EvaluationSummary
note_resolved sm (err e) = (some e, sm)
note_resolved sm (ok t) =
    if t.transitioned
    then (
      none,
      record sm { resolved_rules = sm.resolved_rules + 1; events = sm.events ++ events_of t.event },
    )
    else (none, record sm { unchanged = sm.unchanged + 1 })

abbrev pub verdict : EvaluationSummary → Option String
verdict sm = if ltb 0 sm.failed then some "one or more alert rules failed to evaluate" else none

module _ {Float World : Type 0} (store : AlertStore Float World)
    (reporter : CiReportQuery Float → World → Result String (Option Report)) (now : World → ℕ) where
  -- `_, err := e.touchRule(ctx, rule, now); return err`.
  abbrev pub touch : AlertRule Float → ℕ → EvaluationSummary → World → Outcome World
  touch rule t sm w = let (error, w') = store.touch_rule rule t w in (error, sm, w')

  -- The summary is handed over as it is; json.Marshal does not fail on its counters.
  abbrev transition_params :
      AlertRule Float
      → CandidateRun
      → Report
      → RuleState
      → RuleState
      → EventKind
      → ℕ
      → TransitionParams Float
  transition_params rule candidate report from to kind t = record {
    rule = rule;
    from_state = from;
    to_state = to;
    kind = kind;
    status = report.status;
    status_reason = report.status_reason;
    run_id = candidate.run_id;
    commit_sha = candidate.commit_sha;
    report_url = report.report_url;
    summary = report.summary;
    evaluated_at = t;
  }

  abbrev pub open_by_state :
      RuleState
      → AlertRule Float
      → CandidateRun
      → Report
      → ℕ
      → EvaluationSummary
      → World
      → Outcome World
  open_by_state opened rule candidate report t sm w =
      touch rule t (record sm { unchanged = sm.unchanged + 1 }) w
  open_by_state inactive rule candidate report t sm w =
      let (result, w') =
        store.transition_rule (transition_params rule candidate report inactive opened opening t)
          w in
      let (error, sm') = note_opened sm result in (error, sm', w')

  unfoldable pub open_if_needed :
      AlertRule Float → CandidateRun → Report → ℕ → EvaluationSummary → World → Outcome World
  open_if_needed rule = open_by_state rule.state rule

  abbrev pub resolve_by_state :
      RuleState
      → AlertRule Float
      → CandidateRun
      → Report
      → ℕ
      → EvaluationSummary
      → World
      → Outcome World
  resolve_by_state inactive rule candidate report t sm w =
      touch rule t (record sm { unchanged = sm.unchanged + 1 }) w
  resolve_by_state opened rule candidate report t sm w =
      let (result, w') =
        store.transition_rule (transition_params rule candidate report opened inactive resolving t)
          w in
      let (error, sm') = note_resolved sm result in (error, sm', w')

  unfoldable pub resolve_if_needed :
      AlertRule Float → CandidateRun → Report → ℕ → EvaluationSummary → World → Outcome World
  resolve_if_needed rule = resolve_by_state rule.state rule

  -- The `switch alertReport.Status`.
  unfoldable pub act_on :
      ReportStatus
      → AlertRule Float
      → CandidateRun
      → Report
      → ℕ
      → EvaluationSummary
      → World
      → Outcome World
  unfolding open_if_needed resolve_if_needed
  act_on failure rule candidate report t sm w = open_if_needed rule candidate report t sm w
  act_on success rule candidate report t sm w = resolve_if_needed rule candidate report t sm w
  act_on _ rule candidate report t sm w =
      touch rule t (record sm { skipped_rules = sm.skipped_rules + 1 }) w

  abbrev query_of : AlertRule Float → CandidateRun → CiReportQuery Float
  query_of rule candidate = record {
    repository = rule.repository;
    commit_sha = candidate.commit_sha;
    run_ids = candidate.run_id ∷ [];
    baseline = rule.baseline;
    threshold = rule.threshold;
    threshold_z = rule.threshold_z;
  }

  unfoldable pub on_report :
      AlertRule Float
      → CandidateRun
      → ℕ
      → Result String (Option Report)
      → EvaluationSummary
      → World
      → Outcome World
  unfolding act_on
  on_report rule candidate t (err e) sm w = (some e, sm, w)
  on_report rule candidate t (ok none) sm w = (some "nil CI report", sm, w)
  on_report rule candidate t (ok (some report)) sm w =
      let alert_report = automated_alert_report report in
      act_on alert_report.status rule candidate alert_report t
        (record sm { evaluated = sm.evaluated + 1 }) w

  unfoldable pub on_candidate :
      AlertRule Float
      → ℕ
      → Result StoreError CandidateRun
      → EvaluationSummary
      → World
      → Outcome World
  unfolding on_report
  on_candidate rule t (err not_found) sm w =
      touch rule t (record sm { no_candidate = sm.no_candidate + 1 }) w
  on_candidate rule t (err (store_failed e)) sm w = (some e, sm, w)
  on_candidate rule t (ok candidate) sm w =
      on_report rule candidate t (reporter (query_of rule candidate) w) sm w

  unfoldable pub evaluate_rule : AlertRule Float → EvaluationSummary → World → Outcome World
  unfolding on_candidate
  evaluate_rule rule sm w =
      on_candidate rule (now w) (store.select_latest_alert_run rule.repository rule.run_reason w) sm
        w

  unfoldable pub evaluate_rules :
      List (AlertRule Float) → EvaluationSummary → World → EvaluationSummary × World
  unfolding evaluate_rule
  evaluate_rules [] sm w = (sm, w)
  evaluate_rules (rule ∷ rules) sm w =
      let (error, sm', w') = evaluate_rule rule sm w in
      evaluate_rules rules (note_failure rule error sm') w'

  abbrev pub evaluate_listed : Result String (List (AlertRule Float)) → World → Outcome World
  evaluate_listed (err e) w = (some e, start 0, w)
  evaluate_listed (ok rules) w =
      let (sm, w') = evaluate_rules rules (start (length rules)) w in (verdict sm, sm, w')

  unfoldable pub evaluate : World → Outcome World
  unfolding evaluate_rules
  evaluate w = evaluate_listed (store.list_enabled_alert_rules w) w
