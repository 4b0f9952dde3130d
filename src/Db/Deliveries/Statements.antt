-- ===== src/Db/Deliveries/Statements.antt =====
-- The statements that change the alert_delivery table (internal/db/alert.sql.go).
use conbench.Base.{ℕ, Bool, String}
use conbench.Base.Int.{ℤ}
use conbench.Base.Results.{Result}
use conbench.Db.Deliveries.{DeliveryDb, claim_pending_alert_deliveries}
use conbench.Db.Deliveries.Enqueue.{enqueue_alert_deliveries}
use conbench.Db.Deliveries.Marks.{mark_alert_delivery_delivered, mark_alert_delivery_failed}

-- A statement, from the table before it to the table after it.
pub data Statement (gen_id : ℕ → Result String String) (id_less : String → String → Bool)
    : DeliveryDb → DeliveryDb → Type 0 where
  enqueues :
      {db : DeliveryDb} (channel target : String) (limit : ℤ) (created_at : ℕ)
      → Statement gen_id id_less db
          (enqueue_alert_deliveries gen_id id_less channel target limit created_at db).1
  claims :
      {db : DeliveryDb} (channel target : String) (now lease_until : ℕ) (limit : ℤ)
      → Statement gen_id id_less db
          (claim_pending_alert_deliveries id_less channel target now lease_until limit db).1
  delivers :
      {db : DeliveryDb} (id : String) (attempted_at : ℕ)
      → Statement gen_id id_less db (mark_alert_delivery_delivered id attempted_at db).1
  fails :
      {db : DeliveryDb} (id e : String) (attempted_at next_attempt_at : ℕ)
      → Statement gen_id id_less db
          (mark_alert_delivery_failed id e attempted_at next_attempt_at db).1
