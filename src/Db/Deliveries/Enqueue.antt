-- ===== src/Db/Deliveries/Enqueue.antt =====
-- EnqueueAlertDeliveries (internal/db/store.go) with its SQL (internal/db/alert.sql.go). The ids are
-- those of genID, the caller's.
use conbench.Base.{
  ℕ, ◌+◌, Bool, not, ◌&&◌, ◌||◌, Option, none, some, List, [], ◌∷◌, ◌++◌, String, str_eq, ltb, ◌==◌,
  if◌then◌else◌, take, keep, any,
}
use conbench.Base.Int.{ℤ, pos, negsuc}
use conbench.Base.Sort.{sort}
use conbench.Base.Results.{Result, ok, err}
use conbench.Db.Deliveries.{pending, StoredEvent, DeliveryRow, DeliveryDb, is_for, negative_limit}

module _ (id_less : String → String → Bool) where
  abbrev pub earlier_event : StoredEvent → StoredEvent → Bool
  earlier_event a b =
      ltb a.created_at b.created_at || (a.created_at == b.created_at && id_less a.id b.id)

  abbrev pub is_github : String → Bool
  is_github channel = str_eq channel "github-check" || str_eq channel "github-comment"

  abbrev pub lacks_delivery : String → String → List DeliveryRow → StoredEvent → Bool
  lacks_delivery channel target rows e =
      not (any (is_for e.id channel target) rows)
      && (not (is_github channel) || str_eq e.repository target)

  unfoldable pub select_alert_events_without_delivery :
      String → String → ℤ → DeliveryDb → Result String (List StoredEvent)
  select_alert_events_without_delivery channel target (negsuc n) db = err negative_limit
  select_alert_events_without_delivery channel target (pos limit) db = ok (
      take limit
        (sort earlier_event (keep (lacks_delivery channel target db.deliveries) db.events)))

abbrev pub new_row : String → String → String → String → ℕ → DeliveryRow
new_row id event_id channel target created_at = record {
  id = id;
  event_id = event_id;
  channel = channel;
  target = target;
  status = pending;
  attempt_count = 0;
  last_attempt_at = none;
  next_attempt_at = none;
  delivered_at = none;
  last_error = none;
  created_at = created_at;
  updated_at = created_at;
}

abbrev pub duplicate_key : String
duplicate_key = "duplicate key value violates unique constraint"

-- ON CONFLICT (event_id, channel, target) DO NOTHING, which gives no row; an id that is taken is an
-- error.
unfoldable pub insert_alert_delivery :
    String
    → String
    → String
    → String
    → ℕ
    → DeliveryDb
    → Result String (Option DeliveryRow) × DeliveryDb
insert_alert_delivery id event_id channel target created_at db =
    if any (is_for event_id channel target) db.deliveries
    then (ok none, db)
    else (if any (λ row. str_eq row.id id) db.deliveries then (err duplicate_key, db) else (
      ok (some (new_row id event_id channel target created_at)),
      record db {
        deliveries = db.deliveries ++ new_row id event_id channel target created_at ∷ [];
      },
    ))

module _ (gen_id : ℕ → Result String String) where
  -- The count and the error that EnqueueAlertDeliveries returns.
  abbrev pub Enqueuing : Type 0
  Enqueuing = (ℕ × Option String) × DeliveryDb

  abbrev pub after_insert :
      (ℕ → DeliveryDb → Enqueuing) → ℕ → Result String (Option DeliveryRow) × DeliveryDb → Enqueuing
  after_insert rest enqueued (err e, db) = ((enqueued, some e), db)
  after_insert rest enqueued (ok none, db) = rest enqueued db
  after_insert rest enqueued (ok (some row), db) = rest (enqueued + 1) db

  abbrev pub with_id :
      (ℕ → DeliveryDb → Enqueuing)
      → ℕ
      → String
      → String
      → String
      → ℕ
      → DeliveryDb
      → Result String String
      → Enqueuing
  with_id rest enqueued event_id channel target created_at db (err e) = ((enqueued, some e), db)
  with_id rest enqueued event_id channel target created_at db (ok id) = after_insert rest enqueued (
      insert_alert_delivery id event_id channel target created_at
        (record db { drawn = db.drawn + 1 }))

  unfoldable pub enqueue_each : String → String → ℕ → List StoredEvent → ℕ → DeliveryDb → Enqueuing
  enqueue_each channel target created_at [] enqueued db = ((enqueued, none), db)
  enqueue_each channel target created_at (e ∷ events) enqueued db =
      with_id (enqueue_each channel target created_at events) enqueued e.id channel target
        created_at db (gen_id db.drawn)

  abbrev pub on_events :
      String → String → ℕ → DeliveryDb → Result String (List StoredEvent) → Enqueuing
  on_events channel target created_at db (err e) = ((0, some e), db)
  on_events channel target created_at db (ok events) =
      enqueue_each channel target created_at events 0 db

  unfoldable pub enqueue_alert_deliveries :
      (String → String → Bool) → String → String → ℤ → ℕ → DeliveryDb → Enqueuing
  enqueue_alert_deliveries id_less channel target limit created_at db =
      on_events channel target created_at db
        (select_alert_events_without_delivery id_less channel target limit db)
