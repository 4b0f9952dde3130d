-- ===== src/Db/Deliveries/Between.antt =====
-- Statements on the alert_delivery table while a delivery is held (internal/db/alert.sql.go).
use conbench.Base.{ℕ, ◌+◌, ◌≡◌, Bool, true, Option, none, some, List, [], ◌∷◌, String}
use conbench.Base.Int.{ℤ}
use conbench.Base.Results.{Result, ok, err}
use conbench.Db.Deliveries.{StoredEvent, DeliveryRow, DeliveryDb, claim_pending_alert_deliveries}
use conbench.Db.Deliveries.Enqueue.{
  insert_alert_delivery, after_insert, with_id, enqueue_each, on_events, enqueue_alert_deliveries,
  select_alert_events_without_delivery,
}
use conbench.Db.Deliveries.Marks.{mark_alert_delivery_delivered, mark_alert_delivery_failed}
use conbench.Db.Deliveries.Holds.{
  lasts, IsHeld, MayFail, claim-IsHeld, deliver-IsHeld, fail-IsHeld, insert-IsHeld,
}

module _ (gen_id : ℕ → Result String String) (until : Option ℕ) (held : String) where
  enqueue_each-IsHeld :
      (channel target : String) (created_at : ℕ) (events : List StoredEvent) (n : ℕ)
      (db : DeliveryDb)
      → IsHeld until held db.deliveries
      → IsHeld until held (enqueue_each gen_id channel target created_at events n db).1.deliveries
  unfolding enqueue_each
  enqueue_each-IsHeld channel target created_at [] n db h = h
  enqueue_each-IsHeld channel target created_at (e ∷ events) n db h =
      by_id (gen_id db.drawn) (λ m t u. enqueue_each-IsHeld channel target created_at events m t u)
    where
      by_insert :
          (r : Result String (Option DeliveryRow) × DeliveryDb)
          → IsHeld until held r.1.deliveries
          → ((m : ℕ) (t : DeliveryDb)
              → IsHeld until held t.deliveries
              → IsHeld until held
                  (enqueue_each gen_id channel target created_at events m t).1.deliveries)
          → IsHeld until held
              (after_insert gen_id
                (enqueue_each gen_id channel target created_at events)
                n
                r).1.deliveries
      by_insert (err q, t) u ih = u
      by_insert (ok none, t) u ih = ih n t u
      by_insert (ok (some row), t) u ih = ih (n + 1) t u

      by_id :
          (r : Result String String)
          → ((m : ℕ) (t : DeliveryDb)
              → IsHeld until held t.deliveries
              → IsHeld until held
                  (enqueue_each gen_id channel target created_at events m t).1.deliveries)
          → IsHeld until held
              (with_id gen_id
                (enqueue_each gen_id channel target created_at events)
                n
                e.id
                channel
                target
                created_at
                db
                r).1.deliveries
      by_id (err q) ih = h
      by_id (ok id) ih =
          by_insert
            (insert_alert_delivery id e.id channel target created_at
              (record db { drawn = db.drawn + 1 }))
            (insert-IsHeld until held id e.id channel target created_at
              (record db { drawn = db.drawn + 1 }) h)
            ih

  enqueue-IsHeld :
      (id_less : String → String → Bool) (channel target : String) (limit : ℤ) (created_at : ℕ)
      (db : DeliveryDb)
      → IsHeld until held db.deliveries
      → IsHeld until held
          (enqueue_alert_deliveries gen_id id_less channel target limit created_at db).1.deliveries
  unfolding enqueue_alert_deliveries
  enqueue-IsHeld id_less channel target limit created_at db h =
      by_events (select_alert_events_without_delivery id_less channel target limit db)
    where
      by_events :
          (r : Result String (List StoredEvent))
          → IsHeld until held (on_events gen_id channel target created_at db r).1.deliveries
      by_events (err e) = h
      by_events (ok events) = enqueue_each-IsHeld channel target created_at events 0 db h

-- Statements one after another, while a hold on a delivery lasts: any may run, but a claim runs
-- before the end of the hold, and a failure of the delivery itself does not set its next attempt to
-- a time before that end.
pub data Meanwhile (gen_id : ℕ → Result String String) (id_less : String → String → Bool)
    (until : Option ℕ) (held : String) : DeliveryDb → DeliveryDb → Type 0 where
  at_once : {s : DeliveryDb} → Meanwhile gen_id id_less until held s s
  then_enqueue :
      {s t : DeliveryDb} (channel target : String) (limit : ℤ) (created_at : ℕ)
      → Meanwhile gen_id id_less until held s t
      → Meanwhile gen_id id_less until held s
          (enqueue_alert_deliveries gen_id id_less channel target limit created_at t).1
  then_claim :
      {s t : DeliveryDb} (channel target : String) (now lease_until : ℕ) (limit : ℤ)
      → Meanwhile gen_id id_less until held s t
      → lasts until now ≡ true
      → Meanwhile gen_id id_less until held s
          (claim_pending_alert_deliveries id_less channel target now lease_until limit t).1
  then_deliver :
      {s t : DeliveryDb} (id : String) (attempted_at : ℕ)
      → Meanwhile gen_id id_less until held s t
      → Meanwhile gen_id id_less until held s (mark_alert_delivery_delivered id attempted_at t).1
  then_fail :
      {s t : DeliveryDb} (id e : String) (attempted_at next_attempt_at : ℕ)
      → Meanwhile gen_id id_less until held s t
      → MayFail until held id next_attempt_at
      → Meanwhile gen_id id_less until held s
          (mark_alert_delivery_failed id e attempted_at next_attempt_at t).1

-- A delivery that is held stays so.
pub Meanwhile-IsHeld :
    {gen_id : ℕ → Result String String} {id_less : String → String → Bool} {until : Option ℕ}
    {held : String} {s t : DeliveryDb}
    → Meanwhile gen_id id_less until held s t
    → IsHeld until held s.deliveries
    → IsHeld until held t.deliveries
Meanwhile-IsHeld at_once h = h
Meanwhile-IsHeld {gen_id = gen_id} {id_less = id_less} {until = until} {held = held}
      (then_enqueue {t = t} channel target limit created_at m) h =
    enqueue-IsHeld gen_id until held id_less channel target limit created_at t
      (Meanwhile-IsHeld m h)
Meanwhile-IsHeld {id_less = id_less} {until = until} {held = held}
      (then_claim {t = t} channel target now lease_until limit m before) h =
    claim-IsHeld id_less until held channel target now lease_until limit t before
      (Meanwhile-IsHeld m h)
Meanwhile-IsHeld {until = until} {held = held} (then_deliver {t = t} id attempted_at m) h =
    deliver-IsHeld until held id attempted_at t (Meanwhile-IsHeld m h)
Meanwhile-IsHeld {until = until} {held = held}
      (then_fail {t = t} id e attempted_at next_attempt_at m may) h =
    fail-IsHeld until held id e attempted_at next_attempt_at t may (Meanwhile-IsHeld m h)
