-- ===== src/Service/Alerts/Preserves.antt =====
-- Invariants of the outside world under an evaluation (internal/service/alerts.go).
use conbench.Base.{ℕ, ◌≡◌, refl, Option, none, some, List, [], ◌∷◌, String}
use conbench.Base.Results.{Result, ok, err}
use conbench.Service.Report.{Report, ReportStatus, success, failure}
use conbench.Service.Alerts.{
  AlertRule, AlertStore, CandidateRun, CiReportQuery, EvaluationSummary, TransitionParams,
  StoreError, not_found, store_failed, RuleState, inactive, opened, opening, resolving,
  automated_alert_report,
}
use conbench.Service.Alerts.Evaluate.{
  open_by_state, resolve_by_state, act_on, on_report, on_candidate, evaluate_rule, evaluate_rules,
  evaluate, note_failure, evaluate_listed, start,
}
use conbench.Base.{length}

-- The transitions that the code asks for.
pub data IsAlertMove {Float : Type 0} (p : TransitionParams Float) : Type 0 where
  opens :
      p.from_state ≡ inactive
      → p.to_state ≡ opened
      → p.kind ≡ opening
      → p.status ≡ failure
      → IsAlertMove p
  resolves :
      p.from_state ≡ opened
      → p.to_state ≡ inactive
      → p.kind ≡ resolving
      → p.status ≡ success
      → IsAlertMove p

module _ {Float World : Type 0} (store : AlertStore Float World)
    (reporter : CiReportQuery Float → World → Result String (Option Report)) (now : World → ℕ)
    (P : World → Type 0)
    (touch_keeps : (rule : AlertRule Float) (t : ℕ) (w : World)
      → P w
      → P (store.touch_rule rule t w).1)
    (move_keeps : (p : TransitionParams Float) (w : World)
      → IsAlertMove p
      → P w
      → P (store.transition_rule p w).1) where
  act_on_keeps :
      (status : ReportStatus) (rule : AlertRule Float) (candidate : CandidateRun) (report : Report)
      (t : ℕ) (sm : EvaluationSummary) (w : World)
      → report.status ≡ status
      → P w
      → P (act_on store reporter now status rule candidate report t sm w).2
  unfolding act_on
  act_on_keeps failure rule candidate report t sm w e h = by_state rule.state
    where
      by_state :
          (s : RuleState) → P (open_by_state store reporter now s rule candidate report t sm w).2
      by_state opened = touch_keeps rule t w h
      by_state inactive = move_keeps _ w (opens refl refl refl e) h
  act_on_keeps success rule candidate report t sm w e h = by_state rule.state
    where
      by_state :
          (s : RuleState) → P (resolve_by_state store reporter now s rule candidate report t sm w).2
      by_state inactive = touch_keeps rule t w h
      by_state opened = move_keeps _ w (resolves refl refl refl e) h
  act_on_keeps _ rule candidate report t sm w e h = touch_keeps rule t w h

  on_report_keeps :
      (rule : AlertRule Float) (candidate : CandidateRun) (t : ℕ)
      (result : Result String (Option Report)) (sm : EvaluationSummary) (w : World)
      → P w
      → P (on_report store reporter now rule candidate t result sm w).2
  unfolding on_report
  on_report_keeps rule candidate t (err e) sm w h = h
  on_report_keeps rule candidate t (ok none) sm w h = h
  on_report_keeps rule candidate t (ok (some report)) sm w h =
      let r = automated_alert_report report in act_on_keeps r.status rule candidate r t _ w refl h

  on_candidate_keeps :
      (rule : AlertRule Float) (t : ℕ) (result : Result StoreError CandidateRun)
      (sm : EvaluationSummary) (w : World)
      → P w
      → P (on_candidate store reporter now rule t result sm w).2
  unfolding on_candidate
  on_candidate_keeps rule t (err not_found) sm w h = touch_keeps rule t w h
  on_candidate_keeps rule t (err (store_failed e)) sm w h = h
  on_candidate_keeps rule t (ok candidate) sm w h = on_report_keeps rule candidate t _ sm w h

  evaluate_rules_keeps :
      (rules : List (AlertRule Float)) (sm : EvaluationSummary) (w : World)
      → P w
      → P (evaluate_rules store reporter now rules sm w).1
  unfolding evaluate_rules
  evaluate_rules_keeps [] sm w h = h
  evaluate_rules_keeps (rule ∷ rules) sm w h =
      let (error, sm', w') = evaluate_rule store reporter now rule sm w in
      evaluate_rules_keeps rules (note_failure rule error sm') w' (
        on_candidate_keeps rule (now w)
          (store.select_latest_alert_run rule.repository rule.run_reason w) sm w h)

  listed_keeps :
      (result : Result String (List (AlertRule Float))) (w : World)
      → P w
      → P (evaluate_listed store reporter now result w).2
  unfolding evaluate_rules
  listed_keeps (err e) w h = h
  listed_keeps (ok rules) w h = evaluate_rules_keeps rules (start (length rules)) w h

  -- What every touch keeps, and every opening of an inactive rule upon a failing report and every
  -- resolving of an open one upon a passing report, that an evaluation keeps.
  pub evaluate_keeps : (w : World) → P w → P (evaluate store reporter now w).2
  unfolding evaluate
  evaluate_keeps w h = listed_keeps (store.list_enabled_alert_rules w) w h
