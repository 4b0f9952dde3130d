-- ===== src/Db/Deliveries.antt =====
-- The alert_delivery table: its rows and ClaimPendingAlertDeliveries
-- (internal/db/store.go) with its SQL (internal/db/alert.sql.go). Each statement is one step, so no
-- row is locked while another statement runs; failures of the database are not modelled, but for a
-- negative LIMIT. The order of ids is the database's, genID is the caller's.
pub mod Enqueue
pub mod Marks
pub mod Statements
pub mod Stays
pub mod Leases
pub mod Holds
pub mod Between
pub mod Later
use conbench.Base.{
  ℕ, ◌+◌, Bool, true, false, not, ◌&&◌, ◌||◌, Option, none, some, List, [], ◌∷◌, ◌++◌, String,
  str_eq, ltb, leb, ◌==◌, if◌then◌else◌, take, keep, any, map,
}
use conbench.Base.Int.{ℤ, pos, negsuc}
use conbench.Base.Sort.{sort}
use conbench.Base.Results.{Result, ok, err}

pub data DeliveryStatus : Type 0 where
  pending : DeliveryStatus
  delivered : DeliveryStatus
  failed : DeliveryStatus

pub record StoredEvent : Type 0 where
  pub id : String
  pub rule_id : String
  pub kind : String
  pub status : String
  pub status_reason : String
  pub run_id : Option String
  pub commit_sha : Option String
  pub repository : String
  pub report_url : String
  pub summary : String
  pub created_at : ℕ

pub record DeliveryRow : Type 0 where
  pub id : String
  pub event_id : String
  pub channel : String
  pub target : String
  pub status : DeliveryStatus
  pub attempt_count : ℕ
  pub last_attempt_at : Option ℕ
  pub next_attempt_at : Option ℕ
  pub delivered_at : Option ℕ
  pub last_error : Option String
  pub created_at : ℕ
  pub updated_at : ℕ

-- `drawn` counts the ids that genID gave out.
pub record DeliveryDb : Type 0 where
  pub deliveries : List DeliveryRow
  pub events : List StoredEvent
  pub drawn : ℕ

abbrev pub is_delivered : DeliveryRow → Bool
is_delivered row = by_status row.status
  where
    by_status : DeliveryStatus → Bool
    by_status delivered = true
    by_status _ = false

-- The key of the unique constraint.
abbrev pub is_for : String → String → String → DeliveryRow → Bool
is_for event_id channel target row =
    str_eq row.event_id event_id && (str_eq row.channel channel && str_eq row.target target)

abbrev pub is_due_at : Option ℕ → ℕ → Bool
is_due_at none now = true
is_due_at (some t) now = leb t now

-- The WHERE clause of the claim.
unfoldable pub is_claimable : String → String → ℕ → DeliveryRow → Bool
is_claimable channel target now row =
    str_eq row.channel channel
    && (str_eq row.target target && (not (is_delivered row) && is_due_at row.next_attempt_at now))

abbrev pub member : String → List String → Bool
member id ids = any (str_eq id) ids

abbrev pub claim_row : ℕ → ℕ → DeliveryRow → DeliveryRow
claim_row now lease_until row = record row {
  attempt_count = row.attempt_count + 1;
  last_attempt_at = some now;
  next_attempt_at = some lease_until;
  updated_at = now;
}

-- UPDATE ... WHERE.
abbrev pub update_where :
    (DeliveryRow → Bool) → (DeliveryRow → DeliveryRow) → List DeliveryRow → List DeliveryRow
update_where p f [] = []
update_where p f (row ∷ rows) = (if p row then f row else row) ∷ update_where p f rows

abbrev pub find_event : String → List StoredEvent → Option StoredEvent
find_event id [] = none
find_event id (e ∷ events) = if str_eq e.id id then some e else find_event id events

-- JOIN alert_event.
abbrev pub with_event :
    DeliveryRow
    → Option StoredEvent
    → List (DeliveryRow × StoredEvent)
    → List (DeliveryRow × StoredEvent)
with_event row none rest = rest
with_event row (some e) rest = (row, e) ∷ rest

abbrev pub join_events : List StoredEvent → List DeliveryRow → List (DeliveryRow × StoredEvent)
join_events events [] = []
join_events events (row ∷ rows) =
    with_event row (find_event row.event_id events) (join_events events rows)

abbrev pub negative_limit : String
negative_limit = "LIMIT must not be negative"

module _ (id_less : String → String → Bool) where
  -- ORDER BY created_at ASC, id ASC.
  abbrev pub earlier : DeliveryRow → DeliveryRow → Bool
  earlier a b = ltb a.created_at b.created_at || (a.created_at == b.created_at && id_less a.id b.id)

  unfoldable pub claimed_ids : String → String → ℕ → ℕ → List DeliveryRow → List String
  claimed_ids channel target now limit rows =
      map (λ row. row.id) (take limit (sort earlier (keep (is_claimable channel target now) rows)))

  abbrev pub claim_rows : String → String → ℕ → ℕ → ℕ → List DeliveryRow → List DeliveryRow
  claim_rows channel target now lease_until limit rows =
      let ids = claimed_ids channel target now limit rows in
      update_where (λ row. member row.id ids) (claim_row now lease_until) rows

  unfoldable pub claim_pending_alert_deliveries :
      String
      → String
      → ℕ
      → ℕ
      → ℤ
      → DeliveryDb
      → Result String (List (DeliveryRow × StoredEvent)) × DeliveryDb
  claim_pending_alert_deliveries channel target now lease_until (negsuc n) db =
      (err negative_limit, db)
  claim_pending_alert_deliveries channel target now lease_until (pos limit) db =
      let rows = claim_rows channel target now lease_until limit db.deliveries in
      let ids = claimed_ids channel target now limit db.deliveries in
      (
        ok (join_events db.events (sort earlier (keep (λ row. member row.id ids) rows))),
        record db { deliveries = rows },
      )
