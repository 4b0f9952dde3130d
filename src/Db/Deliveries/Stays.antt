-- ===== src/Db/Deliveries/Stays.antt =====
-- What a statement does to the delivered rows of the alert_delivery table
-- (internal/db/alert.sql.go).
use conbench.Base.{
  ℕ, ◌+◌, ◌≡◌, Bool, true, not, ◌&&◌, Option, none, some, List, [], ◌∷◌, ◌++◌, String, str_eq,
  arith, any, Bool-cases, inl, inr,
}
use conbench.Base.Int.{ℤ, pos, negsuc}
use conbench.Base.Results.{Result, ok, err}
use conbench.Db.Deliveries.{
  StoredEvent, DeliveryRow, DeliveryDb, is_delivered, is_for, update_where, member, claim_row,
  claimed_ids, claim_pending_alert_deliveries,
}
use conbench.Db.Deliveries.Enqueue.{
  new_row, insert_alert_delivery, after_insert, with_id, enqueue_each, on_events,
  enqueue_alert_deliveries, select_alert_events_without_delivery,
}
use conbench.Db.Deliveries.Marks.{
  deliver_row, fail_row, marked, mark_alert_delivery_delivered, mark_alert_delivery_failed,
}
use conbench.Db.Deliveries.Statements.{Statement, enqueues, claims, delivers, fails}

abbrev pub is_delivered_id : String → DeliveryRow → Bool
is_delivered_id id row = str_eq row.id id && is_delivered row

-- A delivery that was delivered stays so.
abbrev pub StaysDelivered : DeliveryDb → DeliveryDb → Type 0
StaysDelivered s t =
    (id : String)
    → any (is_delivered_id id) s.deliveries ≡ true
    → any (is_delivered_id id) t.deliveries ≡ true

pub any-update_where :
    (q p : DeliveryRow → Bool) (f : DeliveryRow → DeliveryRow) (rows : List DeliveryRow)
    → ((row : DeliveryRow) → p row ≡ true → q row ≡ true → q (f row) ≡ true)
    → any q rows ≡ true
    → any q (update_where p f rows) ≡ true
any-update_where q p f [] h e = cc
any-update_where q p f (row ∷ rows) h e =
    let rest : any q rows ≡ true → any q (update_where p f rows) ≡ true =
      any-update_where q p f rows h in
    elim (Bool-cases (p row)) [
      | inr k ↦ rw k ground (arith, rest)
      | inl k ↦
          let head : q row ≡ true → q (f row) ≡ true = h row k in rw k ground (arith, rest, head)
    ]

StaysDelivered-update :
    (p : DeliveryRow → Bool) (f : DeliveryRow → DeliveryRow) (db : DeliveryDb)
    → ((id : String) (row : DeliveryRow)
        → p row ≡ true
        → is_delivered_id id row ≡ true
        → is_delivered_id id (f row) ≡ true)
    → StaysDelivered db (record db { deliveries = update_where p f db.deliveries })
StaysDelivered-update p f db h id e =
    any-update_where (is_delivered_id id) p f db.deliveries (h id) e

StaysDelivered-marked :
    (p : DeliveryRow → Bool) (f : DeliveryRow → DeliveryRow) (db : DeliveryDb)
    → ((id : String) (row : DeliveryRow)
        → p row ≡ true
        → is_delivered_id id row ≡ true
        → is_delivered_id id (f row) ≡ true)
    → StaysDelivered db (marked p f db).1
StaysDelivered-marked p f db h = elim (Bool-cases (any p db.deliveries)) [
  | inl e ↦ rw e (StaysDelivered-update p f db h)
  | inr e ↦ rw e (λ id k. k)
]

pub any-append :
    (q : DeliveryRow → Bool) (xs ys : List DeliveryRow) → any q xs ≡ true → any q (xs ++ ys) ≡ true
any-append q [] ys h = cc
any-append q (x ∷ xs) ys h =
    let rest : any q xs ≡ true → any q (xs ++ ys) ≡ true = any-append q xs ys in
    ground (arith, rest)

insert-StaysDelivered :
    (id event_id channel target : String) (created_at : ℕ) (db : DeliveryDb)
    → StaysDelivered db (insert_alert_delivery id event_id channel target created_at db).1
unfolding insert_alert_delivery
insert-StaysDelivered id event_id channel target created_at db key k =
    elim (Bool-cases (any (is_for event_id channel target) db.deliveries)) [
      | inl q ↦ rw q k
      | inr q ↦ rw q (elim (Bool-cases (any (λ row. str_eq row.id id) db.deliveries)) [
        | inl r ↦ rw r k
        | inr r ↦ rw r (
            any-append (is_delivered_id key) db.deliveries
              (new_row id event_id channel target created_at ∷ []) k)
      ])
    ]

module _ (gen_id : ℕ → Result String String) where
  enqueue_each-StaysDelivered :
      (channel target : String) (created_at : ℕ) (events : List StoredEvent) (n : ℕ)
      (db : DeliveryDb)
      → StaysDelivered db (enqueue_each gen_id channel target created_at events n db).1
  unfolding enqueue_each
  enqueue_each-StaysDelivered channel target created_at [] n db = λ id k. k
  enqueue_each-StaysDelivered channel target created_at (e ∷ events) n db =
      by_id (gen_id db.drawn)
        (λ m t. enqueue_each-StaysDelivered channel target created_at events m t)
    where
      by_insert :
          (r : Result String (Option DeliveryRow) × DeliveryDb)
          → StaysDelivered db r.1
          → ((m : ℕ) (t : DeliveryDb)
              → StaysDelivered t (enqueue_each gen_id channel target created_at events m t).1)
          → StaysDelivered db
              (after_insert gen_id (enqueue_each gen_id channel target created_at events) n r).1
      by_insert (err q, t) u ih = u
      by_insert (ok none, t) u ih = λ id k. ih n t id (u id k)
      by_insert (ok (some row), t) u ih = λ id k. ih (n + 1) t id (u id k)

      by_id :
          (r : Result String String)
          → ((m : ℕ) (t : DeliveryDb)
              → StaysDelivered t (enqueue_each gen_id channel target created_at events m t).1)
          → StaysDelivered db
              (with_id gen_id
                (enqueue_each gen_id channel target created_at events)
                n
                e.id
                channel
                target
                created_at
                db
                r).1
      by_id (err q) ih = λ id k. k
      by_id (ok id) ih =
          by_insert
            (insert_alert_delivery id e.id channel target created_at
              (record db { drawn = db.drawn + 1 }))
            (insert-StaysDelivered id e.id channel target created_at
              (record db { drawn = db.drawn + 1 }))
            ih

  enqueue-StaysDelivered :
      (id_less : String → String → Bool) (channel target : String) (limit : ℤ) (created_at : ℕ)
      (db : DeliveryDb)
      → StaysDelivered db
          (enqueue_alert_deliveries gen_id id_less channel target limit created_at db).1
  unfolding enqueue_alert_deliveries
  enqueue-StaysDelivered id_less channel target limit created_at db =
      by_events (select_alert_events_without_delivery id_less channel target limit db)
    where
      by_events :
          (r : Result String (List StoredEvent))
          → StaysDelivered db (on_events gen_id channel target created_at db r).1
      by_events (err e) = λ id k. k
      by_events (ok events) = enqueue_each-StaysDelivered channel target created_at events 0 db

claim-StaysDelivered :
    (id_less : String → String → Bool) (channel target : String) (now lease_until : ℕ) (limit : ℤ)
    (db : DeliveryDb)
    → StaysDelivered db
        (claim_pending_alert_deliveries id_less channel target now lease_until limit db).1
unfolding claim_pending_alert_deliveries
claim-StaysDelivered id_less channel target now lease_until (negsuc n) db = λ id k. k
claim-StaysDelivered id_less channel target now lease_until (pos n) db =
    StaysDelivered-update
      (λ row. member row.id (claimed_ids id_less channel target now n db.deliveries))
      (claim_row now lease_until) db (λ id row p q. q)

-- After each statement on the delivery table, an id that stood for a delivered row still does.
pub Statement-StaysDelivered :
    {gen_id : ℕ → Result String String} {id_less : String → String → Bool} {s t : DeliveryDb}
    → Statement gen_id id_less s t
    → StaysDelivered s t
unfolding mark_alert_delivery_delivered mark_alert_delivery_failed
Statement-StaysDelivered {gen_id = gen_id} {id_less = id_less}
      (enqueues {db = db} channel target limit created_at) =
    enqueue-StaysDelivered gen_id id_less channel target limit created_at db
Statement-StaysDelivered {id_less = id_less}
      (claims {db = db} channel target now lease_until limit) =
    claim-StaysDelivered id_less channel target now lease_until limit db
Statement-StaysDelivered (delivers {db = db} id attempted_at) =
    StaysDelivered-marked (λ row. str_eq row.id id) (deliver_row attempted_at) db
      (λ key row p q. ground arith)
Statement-StaysDelivered (fails {db = db} id e attempted_at next_attempt_at) =
    StaysDelivered-marked (λ row. str_eq row.id id && not (is_delivered row))
      (fail_row attempted_at next_attempt_at e) db (λ key row p q. absurd (ground arith))
