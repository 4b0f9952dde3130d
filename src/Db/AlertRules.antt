-- ===== src/Db/AlertRules.antt =====
-- The alert_rule and alert_event tables: TouchAlertRuleEvaluation and TransitionAlertRule of
-- internal/db/store.go with their SQL (internal/db/alert.sql.go). The rule table is keyed by its
-- primary key; events stand newest first. Failures of the database itself are not modelled here.
pub mod History
use conbench.Base.{
  ℕ, ◌+◌, ◌≡◌, Bool, true, false, ◌&&◌, Option, none, some, List, [], ◌∷◌, ◌++◌, String, str_eq,
  if◌then◌else◌,
}
use conbench.Base.Maps.{Map, lookup, insert, string_key}
use conbench.Base.Results.{Result, ok, err}
use conbench.Service.Alerts.{
  AlertRule, AlertEvent, AlertStore, CandidateRun, TransitionParams, Transition, RuleState,
  inactive, opened, StoreError, not_found,
}

pub record AlertDb (Float : Type 0) : Type 0 where
  pub rules : Map String (AlertRule Float)
  pub events : List AlertEvent
  -- SelectLatestAlertRun by repository and run reason, over the result tables.
  pub latest_run : String → Option String → Option CandidateRun

-- IS NOT DISTINCT FROM: two NULLs are equal.
abbrev pub not_distinct : Option String → Option String → Bool
not_distinct none none = true
not_distinct (some a) (some b) = str_eq a b
not_distinct a b = false

abbrev pub same_state : RuleState → RuleState → Bool
same_state inactive inactive = true
same_state opened opened = true
same_state a b = false

module _ {Float : Type 0} (float_eq : Float → Float → Bool) where
  -- The WHERE clause that both statements share: the row is still the rule that was listed.
  unfoldable pub is_current : AlertRule Float → RuleState → AlertRule Float → Bool
  is_current listed state row =
      same_state row.state state
      && (row.enabled
          && (str_eq row.repository listed.repository
              && (str_eq row.baseline listed.baseline
                  && (float_eq row.threshold listed.threshold
                      && (float_eq row.threshold_z listed.threshold_z
                          && not_distinct row.run_reason listed.run_reason)))))

  abbrev touch_row :
      AlertRule Float → ℕ → AlertDb Float → Option (AlertRule Float) → Option String × AlertDb Float
  touch_row listed t db none = (some "not found", db)
  touch_row listed t db (some row) =
      if is_current listed listed.state row
      then (
        none,
        record db { rules = insert listed.id (record row { last_evaluated_at = some t }) db.rules },
      )
      else (none, db)

  unfoldable pub touch_alert_rule_evaluation :
      AlertRule Float → ℕ → AlertDb Float → Option String × AlertDb Float
  unfolding is_current
  touch_alert_rule_evaluation listed t db = touch_row listed t db (lookup listed.id db.rules)

  abbrev pub event_of : TransitionParams Float → AlertRule Float → AlertEvent
  event_of p row = record {
    rule_id = p.rule.id;
    repository = row.repository;
    kind = p.kind;
    status = p.status;
    status_reason = p.status_reason;
    run_id = p.run_id;
    commit_sha = p.commit_sha;
    report_url = p.report_url;
    summary = p.summary;
    created_at = p.evaluated_at;
  }

  -- One statement updates the row and inserts the event, or does neither.
  abbrev transition_row :
      TransitionParams Float
      → AlertDb Float
      → Option (AlertRule Float)
      → Result String Transition × AlertDb Float
  transition_row p db none = (err "not found", db)
  transition_row p db (some row) =
      if is_current p.rule p.from_state row
      then (
        ok (record { transitioned = true; event = some (event_of p row) }),
        record db {
          rules =
              insert p.rule.id
                (record row { state = p.to_state; last_evaluated_at = some p.evaluated_at })
                db.rules;
          events = event_of p row ∷ db.events;
        },
      )
      else (ok (record { transitioned = false; event = none }), db)

  unfoldable pub transition_alert_rule :
      TransitionParams Float → AlertDb Float → Result String Transition × AlertDb Float
  unfolding is_current
  transition_alert_rule p db = transition_row p db (lookup p.rule.id db.rules)

  -- The table stands in the order of creation, which the statement lists by.
  abbrev enabled_rules : Map String (AlertRule Float) → List (AlertRule Float)
  enabled_rules [] = []
  enabled_rules ((id, row) ∷ rows) =
      let rest = enabled_rules rows in if row.enabled then row ∷ rest else rest

  abbrev run_or_missing : Option CandidateRun → Result StoreError CandidateRun
  run_or_missing none = err not_found
  run_or_missing (some run) = ok run

  abbrev pub alert_db_store : AlertStore Float (AlertDb Float)
  alert_db_store = record {
    list_enabled_alert_rules = λ db. ok (enabled_rules db.rules);
    select_latest_alert_run =
        λ repository reason db. run_or_missing (db.latest_run repository reason);
    touch_rule = touch_alert_rule_evaluation;
    transition_rule = transition_alert_rule;
  }
