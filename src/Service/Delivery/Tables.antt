-- ===== src/Service/Delivery/Tables.antt =====
-- The store that Deliver works on (internal/service/alert_delivery.go), over the tables of
-- internal/db.
use conbench.Base.{ℕ, Bool, Option, none, some, String}
use conbench.Base.Int.{pos}
use conbench.Base.Results.{Result, ok, err}
use conbench.Db.Deliveries.{DeliveryDb, claim_pending_alert_deliveries}
use conbench.Db.Deliveries.Enqueue.{enqueue_alert_deliveries}
use conbench.Db.Deliveries.Marks.{mark_alert_delivery_delivered, mark_alert_delivery_failed}
use conbench.Service.Delivery.{DeliveryStore}

-- The caller reads no count next to an error.
abbrev pub counted : (ℕ × Option String) × DeliveryDb → Result String ℕ × DeliveryDb
counted ((n, none), db) = (ok n, db)
counted ((n, some e), db) = (err e, db)

module _ (gen_id : ℕ → Result String String) (id_less : String → String → Bool) where
  abbrev pub tables : DeliveryStore DeliveryDb
  tables = record {
    enqueue_alert_deliveries = λ channel target limit created_at db.
        counted (enqueue_alert_deliveries gen_id id_less channel target limit created_at db);
    claim_pending_alert_deliveries = λ channel target now lease_until limit db.
        claim_pending_alert_deliveries id_less channel target now lease_until (pos limit) db;
    mark_alert_delivery_delivered = mark_alert_delivery_delivered;
    mark_alert_delivery_failed = mark_alert_delivery_failed;
  }
