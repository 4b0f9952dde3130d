-- ===== src/Service/Alerts/Counts.antt =====
-- The counters of an evaluation (internal/service/alerts.go).
use conbench.Base.{
  ℕ, suc, ◌+◌, ◌≤◌, ◌≡◌, ◌≢◌, refl, ◌∙◌, ap, inl, inr, Option, none, some, List, [], ◌∷◌, String,
  arith, ltb, length, length-append, Bool-cases,
}
use native.Mathlib.Nat.{add-zero, zero-add}
use conbench.Base.Results.{Result, ok, err}
use conbench.Service.Report.{Report, ReportStatus, success, failure}
use conbench.Service.Alerts.{
  AlertRule, AlertStore, AlertEvent, CandidateRun, CiReportQuery, EvaluationSummary, Transition,
  StoreError, not_found, store_failed, RuleState, inactive, opened, automated_alert_report,
}
use conbench.Service.Alerts.Evaluate.{
  Outcome, events_of, act_on, on_report, on_candidate, evaluate_rule, evaluate_rules, evaluate,
  start, verdict, note_failure, note_opened, note_resolved, open_by_state, resolve_by_state,
}

-- The counters after `n` of the rules.
pub record Accounts (n : ℕ) (sm : EvaluationSummary) : Type 0 where
  pub failures_listed : length sm.failures ≡ sm.failed
  pub failed_bound : sm.failed ≤ n
  pub done_bound :
      sm.opened_rules + sm.resolved_rules + sm.unchanged + sm.skipped_rules ≤ sm.evaluated
  pub evaluated_bound :
      sm.evaluated
      ≤ sm.opened_rules + sm.resolved_rules + sm.unchanged + sm.skipped_rules + sm.failed
  pub reached_bound : sm.evaluated + sm.no_candidate ≤ n
  pub rules_bound : n ≤ sm.evaluated + sm.no_candidate + sm.failed
  pub events_bound : length sm.events ≤ sm.opened_rules + sm.resolved_rules

abbrev done : EvaluationSummary → ℕ
done sm = sm.opened_rules + sm.resolved_rules + sm.unchanged + sm.skipped_rules

abbrev weight : Option String → ℕ
weight none = 0
weight (some e) = 1

-- What one rule adds to the counters, before its error is noted.
record Effect (a : EvaluationSummary) (error : Option String) (b : EvaluationSummary) : Type 0 where
  failures_kept : b.failures ≡ a.failures
  failed_kept : b.failed ≡ a.failed
  done_step : done b + a.evaluated ≤ b.evaluated + done a
  evaluated_step : b.evaluated + done a ≤ a.evaluated + done b + weight error
  reached_step : b.evaluated + b.no_candidate ≤ a.evaluated + a.no_candidate + 1
  rule_step : a.evaluated + a.no_candidate + 1 ≤ b.evaluated + b.no_candidate + weight error
  events_step :
      length b.events + a.opened_rules + a.resolved_rules
      ≤ length a.events + b.opened_rules + b.resolved_rules

Accounts-note_failure :
    {Float : Type 0} (n : ℕ) (rule : AlertRule Float) (a b : EvaluationSummary)
    (error : Option String)
    → Accounts n a
    → Effect a error b
    → Accounts (n + 1) (note_failure rule error b)
Accounts-note_failure n rule a b none h e = record {
  failures_listed = ap length e.failures_kept ∙ omega (arith, h, e);
  failed_bound = omega arith;
  done_bound = omega arith;
  evaluated_bound = omega arith;
  reached_bound = omega arith;
  rules_bound = omega arith;
  events_bound = omega arith;
}
Accounts-note_failure n rule a b (some x) h e =
    let listed = ap length e.failures_kept in
    record {
      failures_listed = length-append b.failures _ ∙ omega arith;
      failed_bound = omega arith;
      done_bound = omega arith;
      evaluated_bound = omega arith;
      reached_bound = omega arith;
      rules_bound = omega arith;
      events_bound = omega arith;
    }

length-events_of : (e : Option AlertEvent) → length (events_of e) ≤ 1
length-events_of none = omega arith
length-events_of (some e) = omega arith

-- From the summary in which the report was counted as evaluated.
abbrev counted : EvaluationSummary → EvaluationSummary
counted sm = record sm { evaluated = sm.evaluated + 1 }

Effect-unchanged :
    (sm : EvaluationSummary) (error : Option String)
    → Effect sm error (record sm { evaluated = sm.evaluated + 1; unchanged = sm.unchanged + 1 })
Effect-unchanged sm none = ground arith
Effect-unchanged sm (some e) = ground arith

Effect-skipped :
    (sm : EvaluationSummary) (error : Option String)
    → Effect sm error
        (record sm { evaluated = sm.evaluated + 1; skipped_rules = sm.skipped_rules + 1 })
Effect-skipped sm none = ground arith
Effect-skipped sm (some e) = ground arith

Effect-no_candidate :
    (sm : EvaluationSummary) (error : Option String)
    → Effect sm error (record sm { no_candidate = sm.no_candidate + 1 })
Effect-no_candidate sm none = ground arith
Effect-no_candidate sm (some e) = ground arith

Effect-note_opened :
    (sm : EvaluationSummary) (result : Result String Transition)
    → Effect sm (note_opened (counted sm) result).0 (note_opened (counted sm) result).1
Effect-note_opened sm (err e) = ground arith
Effect-note_opened sm (ok t) = elim (Bool-cases t.transitioned) [
  | inl e ↦
      rw e (ground (arith, length-append sm.events (events_of t.event), length-events_of t.event))
  | inr e ↦ rw e (ground arith)
]

Effect-note_resolved :
    (sm : EvaluationSummary) (result : Result String Transition)
    → Effect sm (note_resolved (counted sm) result).0 (note_resolved (counted sm) result).1
Effect-note_resolved sm (err e) = ground arith
Effect-note_resolved sm (ok t) = elim (Bool-cases t.transitioned) [
  | inl e ↦
      rw e (ground (arith, length-append sm.events (events_of t.event), length-events_of t.event))
  | inr e ↦ rw e (ground arith)
]

totals :
    (n : ℕ) (sm : EvaluationSummary)
    → Accounts n sm
    → (verdict sm ≡ none
        → n
          ≡ sm.opened_rules + sm.resolved_rules + sm.unchanged + sm.skipped_rules + sm.no_candidate)
      × (verdict sm ≢ none → 1 ≤ length sm.failures)
totals n sm a = elim (Bool-cases (ltb 0 sm.failed)) [
  | inl e ↦ rw e ((λ h. absurd (cc)), λ h. ground arith)
  | inr e ↦ rw e ((λ h. ground arith), λ h. absurd (h refl))
]

module _ {Float World : Type 0} (store : AlertStore Float World)
    (reporter : CiReportQuery Float → World → Result String (Option Report)) (now : World → ℕ) where
  abbrev Effects : EvaluationSummary → Outcome World → Type 0
  Effects a o = Effect a o.0 o.1

  open_by_state-Effect :
      (state : RuleState) (rule : AlertRule Float) (candidate : CandidateRun) (report : Report)
      (t : ℕ) (sm : EvaluationSummary) (w : World)
      → Effects sm (open_by_state store reporter now state rule candidate report t (counted sm) w)
  open_by_state-Effect opened rule candidate report t sm w = Effect-unchanged sm _
  open_by_state-Effect inactive rule candidate report t sm w = Effect-note_opened sm _

  resolve_by_state-Effect :
      (state : RuleState) (rule : AlertRule Float) (candidate : CandidateRun) (report : Report)
      (t : ℕ) (sm : EvaluationSummary) (w : World)
      → Effects sm
          (resolve_by_state store reporter now state rule candidate report t (counted sm) w)
  resolve_by_state-Effect inactive rule candidate report t sm w = Effect-unchanged sm _
  resolve_by_state-Effect opened rule candidate report t sm w = Effect-note_resolved sm _

  act_on-Effect :
      (status : ReportStatus) (rule : AlertRule Float) (candidate : CandidateRun) (report : Report)
      (t : ℕ) (sm : EvaluationSummary) (w : World)
      → Effects sm (act_on store reporter now status rule candidate report t (counted sm) w)
  unfolding act_on
  act_on-Effect failure rule candidate report t sm w =
      open_by_state-Effect rule.state rule candidate report t sm w
  act_on-Effect success rule candidate report t sm w =
      resolve_by_state-Effect rule.state rule candidate report t sm w
  act_on-Effect _ rule candidate report t sm w = Effect-skipped sm _

  on_report-Effect :
      (rule : AlertRule Float) (candidate : CandidateRun) (t : ℕ)
      (result : Result String (Option Report)) (sm : EvaluationSummary) (w : World)
      → Effects sm (on_report store reporter now rule candidate t result sm w)
  unfolding on_report
  on_report-Effect rule candidate t (err e) sm w = ground arith
  on_report-Effect rule candidate t (ok none) sm w = ground arith
  on_report-Effect rule candidate t (ok (some report)) sm w =
      let r = automated_alert_report report in act_on-Effect r.status rule candidate r t sm w

  on_candidate-Effect :
      (rule : AlertRule Float) (t : ℕ) (result : Result StoreError CandidateRun)
      (sm : EvaluationSummary) (w : World)
      → Effects sm (on_candidate store reporter now rule t result sm w)
  unfolding on_candidate
  on_candidate-Effect rule t (err not_found) sm w = Effect-no_candidate sm _
  on_candidate-Effect rule t (err (store_failed e)) sm w = ground arith
  on_candidate-Effect rule t (ok candidate) sm w = on_report-Effect rule candidate t _ sm w

  -- Counters that account for `n` rules account, after any list of rules and whatever the store and
  -- the reporter answer, for these rules too.
  pub evaluate_rules-Accounts :
      (rules : List (AlertRule Float)) (n : ℕ) (sm : EvaluationSummary) (w : World)
      → Accounts n sm
      → Accounts (n + length rules) (evaluate_rules store reporter now rules sm w).0
  unfolding evaluate_rules
  evaluate_rules-Accounts [] n sm w h = rw add-zero h
  evaluate_rules-Accounts (rule ∷ rules) n sm w h =
      let (error, sm', w') = evaluate_rule store reporter now rule sm w in
      let step =
        on_candidate-Effect rule (now w)
          (store.select_latest_alert_run rule.repository rule.run_reason w) sm w in
      let total : n + 1 + length rules ≡ n + suc (length rules) = omega arith in
      rw (← total) (
        evaluate_rules-Accounts rules (n + 1) (note_failure rule error sm') w'
          (Accounts-note_failure n rule sm sm' error h step))

  -- Whatever the store and the reporter answer, once the enabled rules are listed: there are no
  -- more of them than rules evaluated, without a candidate, or failed, and no fewer than rules
  -- evaluated or without a candidate, and than failed ones; as many rules are evaluated as opened,
  -- resolved, unchanged or skipped, and at most as many more as failed; each failure has an entry;
  -- there are no more events than rules opened or resolved. If no error is reported, the listed
  -- rules are as many as opened, resolved, unchanged, skipped or without a candidate; if one is,
  -- there is an entry.
  pub evaluate-Accounts :
      (w : World) (rules : List (AlertRule Float))
      → store.list_enabled_alert_rules w ≡ ok rules
      → let (error, sm, w') = evaluate store reporter now w in
        Accounts (length rules) sm
        × ((error ≡ none
              → length rules
                ≡ sm.opened_rules + sm.resolved_rules + sm.unchanged + sm.skipped_rules
                  + sm.no_candidate)
            × (error ≢ none → 1 ≤ length sm.failures))
  unfolding evaluate
  evaluate-Accounts w rules h = rw h (
      let a = evaluate_rules-Accounts rules 0 (start (length rules)) w (omega arith) in
      (rw zero-add at a, totals _ _ (rw zero-add at a)))
