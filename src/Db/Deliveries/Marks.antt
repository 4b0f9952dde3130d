-- ===== src/Db/Deliveries/Marks.antt =====
-- MarkAlertDeliveryDelivered and MarkAlertDeliveryFailed (internal/db/store.go) with their SQL
-- (internal/db/alert.sql.go), without the row that they give back and no caller reads.
use conbench.Base.{ℕ, Bool, not, ◌&&◌, Option, none, some, String, str_eq, if◌then◌else◌, any}
use conbench.Db.Deliveries.{delivered, failed, DeliveryRow, DeliveryDb, is_delivered, update_where}

abbrev pub deliver_row : ℕ → DeliveryRow → DeliveryRow
deliver_row attempted_at row = record row {
  status = delivered;
  last_attempt_at = some attempted_at;
  next_attempt_at = none;
  delivered_at = some attempted_at;
  last_error = none;
  updated_at = attempted_at;
}

abbrev pub fail_row : ℕ → ℕ → String → DeliveryRow → DeliveryRow
fail_row attempted_at next_attempt_at e row = record row {
  status = failed;
  last_attempt_at = some attempted_at;
  next_attempt_at = some next_attempt_at;
  last_error = some e;
  updated_at = attempted_at;
}

abbrev pub row_not_found : String
row_not_found = "not found"

-- An UPDATE that gives the row back, or ErrNotFound where no row matches.
abbrev pub marked :
    (DeliveryRow → Bool) → (DeliveryRow → DeliveryRow) → DeliveryDb → Option String × DeliveryDb
marked p f db =
    if any p db.deliveries
    then (none, record db { deliveries = update_where p f db.deliveries })
    else (some row_not_found, db)

unfoldable pub mark_alert_delivery_delivered : String → ℕ → DeliveryDb → Option String × DeliveryDb
mark_alert_delivery_delivered id attempted_at db =
    marked (λ row. str_eq row.id id) (deliver_row attempted_at) db

unfoldable pub mark_alert_delivery_failed :
    String → String → ℕ → ℕ → DeliveryDb → Option String × DeliveryDb
mark_alert_delivery_failed id e attempted_at next_attempt_at db =
    marked (λ row. str_eq row.id id && not (is_delivered row))
      (fail_row attempted_at next_attempt_at e) db
