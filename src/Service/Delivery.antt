-- ===== src/Service/Delivery.antt =====
-- AlertDeliveryDispatcher.Deliver (internal/service/alert_delivery.go): one pass over the deliveries
-- of a channel and target. The store, the sender and the clock are the caller's, over a `World` that
-- each of them may change; Db/Deliveries models the tables of the store. Times and durations are
-- numbers of one unit, RetryAfter is not negative.
pub mod Accounts
pub mod Tables
pub mod Senders
pub mod Posts
pub mod Recipients
use conbench.Base.{
  ℕ, zero, suc, ◌+◌, Bool, true, false, Option, none, some, List, [], ◌∷◌, ◌++◌, String, str_eq,
  ltb, if◌then◌else◌,
}
use conbench.Base.Int.{ℤ, pos_part}
use conbench.Base.Results.{Result, ok, err}
use conbench.Db.Deliveries.{DeliveryRow, StoredEvent}

pub record DeliveryStore (World : Type 0) : Type 0 where
  -- Channel, target, limit and time.
  pub enqueue_alert_deliveries : String → String → ℤ → ℕ → World → Result String ℕ × World
  -- Channel, target, now, the end of the lease and the limit.
  pub claim_pending_alert_deliveries :
      String → String → ℕ → ℕ → ℕ → World → Result String (List (DeliveryRow × StoredEvent)) × World
  -- Id and time.
  pub mark_alert_delivery_delivered : String → ℕ → World → Option String × World
  -- Id, error, time and time of the next attempt.
  pub mark_alert_delivery_failed : String → String → ℕ → ℕ → World → Option String × World

pub record DeliveryPayload : Type 0 where
  pub delivery_id : String
  pub channel : String
  pub target : String
  pub event : StoredEvent

pub record Dispatcher (World : Type 0) : Type 0 where
  pub store : DeliveryStore World
  pub send : DeliveryPayload → World → Option String × World
  pub now : World → ℕ × World

pub record DeliveryOptions : Type 0 where
  pub channel : String
  pub target : String
  pub limit : ℤ
  pub retry_after : ℕ

pub record DeliveryFailure : Type 0 where
  pub delivery_id : String
  pub event_id : String
  pub error : String

pub record DeliverySummary : Type 0 where
  pub enqueued : ℕ
  pub attempted : ℕ
  pub delivered : ℕ
  pub failed : ℕ
  pub failures : List DeliveryFailure

abbrev pub empty_summary : DeliverySummary
empty_summary = record { enqueued = 0; attempted = 0; delivered = 0; failed = 0; failures = [] }

-- The event as it is sent: a summary that is missing is the text `null`.
unfoldable pub alert_delivery_event_of : StoredEvent → StoredEvent
alert_delivery_event_of event = record event {
  summary = if str_eq event.summary "" then "null" else event.summary;
}

abbrev pub some_failed : String
some_failed = "one or more alert deliveries failed"

-- The summary, the error and the world.
abbrev pub Delivered : Type 0 → Type 0
Delivered World = (DeliverySummary × Option String) × World

module _ {World : Type 0} (d : Dispatcher World) (options : DeliveryOptions) where
  abbrev pub payload_of : DeliveryRow → StoredEvent → DeliveryPayload
  payload_of row event = record {
    delivery_id = row.id;
    channel = row.channel;
    target = row.target;
    event = alert_delivery_event_of event;
  }

  abbrev pub after_failed_mark :
      (DeliverySummary → World → Delivered World)
      → DeliverySummary
      → Option String × World
      → Delivered World
  after_failed_mark next sm (some e, w) = ((sm, some e), w)
  after_failed_mark next sm (none, w) = next sm w

  abbrev pub after_delivered_mark :
      (DeliverySummary → World → Delivered World)
      → DeliverySummary
      → Option String × World
      → Delivered World
  after_delivered_mark next sm (some e, w) = ((sm, some e), w)
  after_delivered_mark next sm (none, w) = next (record sm { delivered = sm.delivered + 1 }) w

  abbrev pub with_failure : DeliverySummary → DeliveryRow → String → DeliverySummary
  with_failure sm row e =
      let failure : DeliveryFailure = record {
        delivery_id = row.id;
        event_id = row.event_id;
        error = e;
      } in
      record sm { failed = sm.failed + 1; failures = sm.failures ++ failure ∷ [] }

  unfoldable pub after_send :
      (DeliverySummary → World → Delivered World)
      → DeliveryRow
      → DeliverySummary
      → Option String × World
      → Delivered World
  after_send next row sm (some e, w) =
      let (attempted_at, w1) = d.now w in
      after_failed_mark next (with_failure sm row e) (
        d.store.mark_alert_delivery_failed row.id e attempted_at
          (attempted_at + options.retry_after) w1)
  after_send next row sm (none, w) =
      let (attempted_at, w1) = d.now w in
      after_delivered_mark next sm (d.store.mark_alert_delivery_delivered row.id attempted_at w1)

  -- The claim gives one delivery at most; the code reads the first.
  abbrev pub after_claim :
      (DeliverySummary → World → Delivered World)
      → DeliverySummary
      → Result String (List (DeliveryRow × StoredEvent)) × World
      → Delivered World
  after_claim next sm (err e, w) = ((sm, some e), w)
  after_claim next sm (ok [], w) = ((sm, (if ltb 0 sm.failed then some some_failed else none)), w)
  after_claim next sm (ok ((row, event) ∷ others), w) =
      after_send next row (record sm { attempted = sm.attempted + 1 })
        (d.send (payload_of row event) w)

  -- The loop over `remaining`.
  unfoldable pub deliver_each : ℕ → DeliverySummary → World → Delivered World
  deliver_each zero sm w = ((sm, (if ltb 0 sm.failed then some some_failed else none)), w)
  deliver_each (suc n) sm w =
      let (claim_at, w1) = d.now w in
      after_claim (deliver_each n) sm (
        d.store.claim_pending_alert_deliveries options.channel options.target claim_at
          (claim_at + options.retry_after) 1 w1)

  abbrev pub after_enqueue : Result String ℕ × World → Delivered World
  after_enqueue (err e, w) = ((empty_summary, some e), w)
  after_enqueue (ok enqueued, w) =
      deliver_each (pos_part options.limit) (record empty_summary { enqueued = enqueued }) w

  unfoldable pub deliver : World → Delivered World
  unfolding deliver_each
  deliver w =
      let (created_at, w1) = d.now w in
      after_enqueue (
        d.store.enqueue_alert_deliveries options.channel options.target options.limit created_at w1)
