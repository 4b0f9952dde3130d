-- ===== src/Service/Delivery/Accounts.antt =====
-- What the summary of Deliver says (internal/service/alert_delivery.go).
use conbench.Base.{
  ℕ, zero, suc, ◌+◌, ◌≤◌, ◌≡◌, inl, inr, refl, Option, none, some, List, [], ◌∷◌, String, ltb,
  if◌then◌else◌, length, length-append, arith, Bool-cases,
}
use conbench.Base.Int.{pos_part}
use conbench.Base.Results.{Result, ok, err}
use conbench.Db.Deliveries.{DeliveryRow, StoredEvent}
use conbench.Service.Delivery.{
  Dispatcher, DeliveryOptions, DeliveryFailure, DeliverySummary, empty_summary, some_failed,
  Delivered, payload_of, after_failed_mark, after_delivered_mark, with_failure, after_send,
  after_claim, deliver_each, after_enqueue, deliver,
}

-- The summary accounts for each attempt but one whose delivery could not be marked: then there is an
-- error. Without an error nothing failed, and every attempt was delivered.
abbrev pub IsAccounted : ℕ → DeliverySummary × Option String → Type 0
IsAccounted limit (sm, e) =
    (sm.attempted ≤ limit)
    × (length sm.failures ≡ sm.failed)
    × (sm.delivered + sm.failed ≤ sm.attempted)
    × (sm.attempted ≤ sm.delivered + sm.failed + 1)
    × (e ≡ none → (sm.failed ≡ 0) × (sm.attempted ≡ sm.delivered))

-- In the loop: every attempt is accounted for.
abbrev Settled : DeliverySummary → Type 0
Settled sm = (length sm.failures ≡ sm.failed) × (sm.attempted ≡ sm.delivered + sm.failed)

module _ {World : Type 0} (d : Dispatcher World) (options : DeliveryOptions) where
  finished-IsAccounted :
      (limit : ℕ) (sm : DeliverySummary)
      → Settled sm
      → sm.attempted ≤ limit
      → IsAccounted limit (sm, (if ltb 0 sm.failed then some some_failed else none))
  finished-IsAccounted limit sm h le = elim (Bool-cases (ltb 0 sm.failed)) [
    | inl e ↦ rw e (le, h.0, omega (arith, h.1), omega (arith, h.1), λ q. absurd cc)
    | inr e ↦
        rw e (
          le,
          h.0,
          omega (arith, h.1),
          omega (arith, h.1),
          λ q. (ground arith, ground (arith, h.1)),
        )
  ]

  after_send-IsAccounted :
      (limit : ℕ) (next : DeliverySummary → World → Delivered World) (row : DeliveryRow)
      (sm : DeliverySummary) (r : Option String × World)
      → ((s : DeliverySummary) (w : World)
          → Settled s
          → s.attempted ≡ sm.attempted + 1
          → IsAccounted limit (next s w).0)
      → Settled sm
      → sm.attempted + 1 ≤ limit
      → IsAccounted limit
          (after_send d options next row (record sm { attempted = sm.attempted + 1 }) r).0
  unfolding after_send
  after_send-IsAccounted limit next row sm (some e, w) ih h le =
      by_mark (d.store.mark_alert_delivery_failed row.id e _ _ _)
    where
      failure : DeliveryFailure
      failure = record { delivery_id = row.id; event_id = row.event_id; error = e }

      now_failed : DeliverySummary
      now_failed = with_failure d options (record sm { attempted = sm.attempted + 1 }) row e

      settled : Settled now_failed
      settled = (omega (arith, h.0, length-append sm.failures (failure ∷ [])), omega (arith, h.1))

      by_mark :
          (m : Option String × World)
          → IsAccounted limit (after_failed_mark d options next now_failed m).0
      by_mark (some q, v) = (le, settled.0, omega (arith, h.1), omega (arith, h.1), λ k. absurd cc)
      by_mark (none, v) = ih now_failed v settled refl
  after_send-IsAccounted limit next row sm (none, w) ih h le =
      by_mark (d.store.mark_alert_delivery_delivered row.id _ _)
    where
      by_mark :
          (m : Option String × World)
          → IsAccounted limit
              (after_delivered_mark d options next (record sm { attempted = sm.attempted + 1 }) m).0
      by_mark (some q, v) = (le, h.0, omega (arith, h.1), omega (arith, h.1), λ k. absurd cc)
      by_mark (none, v) =
          ih (record sm { attempted = sm.attempted + 1; delivered = sm.delivered + 1 }) v
            (h.0, omega (arith, h.1)) refl

  after_claim-IsAccounted :
      (limit : ℕ) (next : DeliverySummary → World → Delivered World) (sm : DeliverySummary)
      (r : Result String (List (DeliveryRow × StoredEvent)) × World)
      → ((s : DeliverySummary) (w : World)
          → Settled s
          → s.attempted ≡ sm.attempted + 1
          → IsAccounted limit (next s w).0)
      → Settled sm
      → sm.attempted + 1 ≤ limit
      → IsAccounted limit (after_claim d options next sm r).0
  after_claim-IsAccounted limit next sm (err e, w) ih h le =
      (omega (arith, le), h.0, omega (arith, h.1), omega (arith, h.1), λ k. absurd cc)
  after_claim-IsAccounted limit next sm (ok [], w) ih h le =
      finished-IsAccounted limit sm h (omega (arith, le))
  after_claim-IsAccounted limit next sm (ok ((row, event) ∷ others), w) ih h le =
      after_send-IsAccounted limit next row sm (d.send (payload_of d options row event) w) ih h le

  deliver_each-IsAccounted :
      (limit n : ℕ) (sm : DeliverySummary) (w : World)
      → Settled sm
      → sm.attempted + n ≤ limit
      → IsAccounted limit (deliver_each d options n sm w).0
  unfolding deliver_each
  deliver_each-IsAccounted limit zero sm w h le =
      finished-IsAccounted limit sm h (omega (arith, le))
  deliver_each-IsAccounted limit (suc n) sm w h le =
      after_claim-IsAccounted limit (deliver_each d options n) sm
        (d.store.claim_pending_alert_deliveries options.channel options.target _ _ 1 _)
        (λ s v k e. deliver_each-IsAccounted limit n s v k (omega (arith, le, e))) h
        (omega (arith, le))

  -- Whatever the store and the sender do, the summary of Deliver has no more attempts than the
  -- limit, a sample for each failure, and accounts for each attempt but one at most; without an
  -- error nothing failed and every attempt was delivered.
  pub deliver-IsAccounted :
      (w : World) → IsAccounted (pos_part options.limit) (deliver d options w).0
  unfolding deliver
  deliver-IsAccounted w =
      by_enqueue (d.store.enqueue_alert_deliveries options.channel options.target options.limit _ _)
    where
      by_enqueue :
          (r : Result String ℕ × World)
          → IsAccounted (pos_part options.limit) (after_enqueue d options r).0
      by_enqueue (err e, v) = (omega arith, refl, omega arith, omega arith, λ k. absurd cc)
      by_enqueue (ok n, v) =
          deliver_each-IsAccounted (pos_part options.limit) (pos_part options.limit)
            (record empty_summary { enqueued = n }) v (refl, omega arith) (omega arith)
