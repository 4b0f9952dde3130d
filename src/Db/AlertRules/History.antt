-- ===== src/Db/AlertRules/History.antt =====
-- The events of a rule, newest first, and its state (internal/db/alert.sql.go,
-- internal/service/alerts.go).
use conbench.Base.{
  ℕ, ◌≡◌, refl, sym, ◌∙◌, inl, inr, Bool, true, false, Option, none, some, List, [], ◌∷◌, String,
  str_eq, str_eq_iff, if◌then◌else◌, arith, Bool-cases,
}
use conbench.Base.Maps.{lookup, insert, lookup-insert, string_key}
use conbench.Base.Results.{Result}
use conbench.Service.Report.{Report}
use conbench.Service.Alerts.{
  AlertRule, AlertEvent, CiReportQuery, TransitionParams, RuleState, inactive, opened, EventKind,
  opening, resolving,
}
use conbench.Service.Alerts.Evaluate.{evaluate}
use conbench.Service.Alerts.Preserves.{IsAlertMove, opens, resolves, evaluate_keeps}
use conbench.Db.AlertRules.{
  AlertDb, same_state, is_current, touch_alert_rule_evaluation, transition_alert_rule, event_of,
  alert_db_store, touch_row, transition_row,
}

-- The kinds of a rule's events, newest first.
abbrev pub history : String → List AlertEvent → List EventKind
history id [] = []
history id (e ∷ es) = if str_eq e.rule_id id then e.kind ∷ history id es else history id es

-- `opened` after an opening, `inactive` after a resolving or at the start, and so on back.
abbrev pub follows : RuleState → List EventKind → Bool
follows inactive [] = true
follows opened [] = false
follows opened (opening ∷ ks) = follows inactive ks
follows inactive (resolving ∷ ks) = follows opened ks
follows s (k ∷ ks) = false

pub record HasHistory {Float : Type 0} (db : AlertDb Float) : Type 0 where
  pub at :
      (id : String) (row : AlertRule Float)
      → lookup id db.rules ≡ some row
      → follows row.state (history id db.events) ≡ true

module _ {Float : Type 0} (float_eq : Float → Float → Bool) where
  touch_keeps :
      (listed : AlertRule Float) (t : ℕ) (db : AlertDb Float)
      → HasHistory db
      → HasHistory (touch_alert_rule_evaluation float_eq listed t db).1
  unfolding touch_alert_rule_evaluation
  touch_keeps listed t db h = by_row (lookup listed.id db.rules) refl
    where
      by_row :
          (o : Option (AlertRule Float))
          → lookup listed.id db.rules ≡ o
          → HasHistory (touch_row float_eq listed t db o).1
      by_row none e = h
      by_row (some row) e = elim (Bool-cases (is_current float_eq listed listed.state row)) [
        | inr old ↦ rw old h
        | inl current ↦ rw current (record {
          at = λ id r found. ground (
            arith,
            lookup-insert listed.id id (record row { last_evaluated_at = some t }) db.rules,
            str_eq_iff listed.id id,
            h.at id row,
            h.at id r,
          );
        })
      ]

  is_current-state :
      (listed : AlertRule Float) (state : RuleState) (row : AlertRule Float)
      → is_current float_eq listed state row ≡ true
      → row.state ≡ state
  unfolding is_current
  is_current-state listed state row h = by_states row.state state (ground arith)
    where
      by_states : (a b : RuleState) → same_state a b ≡ true → a ≡ b
      by_states inactive inactive e = refl
      by_states opened opened e = refl
      by_states inactive opened e = cc
      by_states opened inactive e = cc

  follows_move :
      (p : TransitionParams Float) (ks : List EventKind)
      → IsAlertMove p
      → follows p.from_state ks ≡ true
      → follows p.to_state (p.kind ∷ ks) ≡ true
  follows_move p ks (opens a b c d) h = rw (b, c) (rw a at h)
  follows_move p ks (resolves a b c d) h = rw (b, c) (rw a at h)

  at_move :
      (id : String) (r next : AlertRule Float) (p : TransitionParams Float) (row : AlertRule Float)
      (db : AlertDb Float)
      → follows next.state (p.kind ∷ history p.rule.id db.events) ≡ true
      → lookup id (insert p.rule.id next db.rules) ≡ some r
      → (lookup id db.rules ≡ some r → follows r.state (history id db.events) ≡ true)
      → follows r.state (history id (event_of float_eq p row ∷ db.events)) ≡ true
  at_move id r next p row db moved found h =
      let look = lookup-insert p.rule.id id next db.rules in
      elim (Bool-cases (str_eq p.rule.id id)) [
        | inl same ↦
            let e = (str_eq_iff p.rule.id id).0 same in
            let read = rw same at (look) in
            let both : some next ≡ some r = sym read ∙ found in
            let equal : next ≡ r = cc in rw same (rw (sym equal) (rw e at moved))
        | inr other ↦ let read = rw other at (look) in rw other (h (sym read ∙ found))
      ]

  move_keeps :
      (p : TransitionParams Float) (db : AlertDb Float)
      → IsAlertMove p
      → HasHistory db
      → HasHistory (transition_alert_rule float_eq p db).1
  unfolding transition_alert_rule
  move_keeps p db m h = by_row (lookup p.rule.id db.rules) refl
    where
      by_row :
          (o : Option (AlertRule Float))
          → lookup p.rule.id db.rules ≡ o
          → HasHistory (transition_row float_eq p db o).1
      by_row none e = h
      by_row (some row) e = elim (Bool-cases (is_current float_eq p.rule p.from_state row)) [
        | inr old ↦ rw old h
        | inl current ↦
            let was = is_current-state p.rule p.from_state row current in
            let moved =
              follows_move p (history p.rule.id db.events) m (rw was at (h.at p.rule.id row e)) in
            let next = record row { state = p.to_state; last_evaluated_at = some p.evaluated_at } in
            rw current
              (record { at = λ id r found. at_move id r next p row db moved found (h.at id r) })
      ]

-- Over the alert tables, whatever the report component answers and whatever the clock: if before an
-- evaluation each rule's events alternate, oldest an opening, and the rule is open exactly when the
-- newest of them is an opening, then so it is after the evaluation.
pub evaluate-HasHistory :
    {Float : Type 0} (float_eq : Float → Float → Bool)
    (reporter : CiReportQuery Float → AlertDb Float → Result String (Option Report))
    (now : AlertDb Float → ℕ) (db : AlertDb Float)
    → HasHistory db
    → HasHistory (evaluate (alert_db_store float_eq) reporter now db).2
evaluate-HasHistory float_eq reporter now db h =
    evaluate_keeps (alert_db_store float_eq) reporter now HasHistory (touch_keeps float_eq)
      (move_keeps float_eq) db h
