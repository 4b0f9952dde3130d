-- ===== src/Db/Deliveries/Holds.antt =====
-- Which deliveries a claim cannot take, and the statements that keep them so
-- (internal/db/alert.sql.go).
use conbench.Base.{
  ℕ, ◌≤◌, ◌≡◌, ◌≢◌, ◌⊎◌, refl, sym, Bool, true, false, not, ◌&&◌, ◌||◌, Option, none, some, List,
  [], ◌∷◌, ◌++◌, String, str_eq, str_eq_iff, arith, any, all, ◌∙◌, ltb, leb, Bool-cases, inl, inr,
}
use conbench.Base.Int.{ℤ, pos, negsuc}
use conbench.Db.Deliveries.{
  DeliveryRow, DeliveryDb, is_delivered, is_for, update_where, member, claim_row, claimed_ids,
  claim_pending_alert_deliveries, is_claimable, is_due_at,
}
use conbench.Db.Deliveries.Enqueue.{new_row, insert_alert_delivery}
use conbench.Db.Deliveries.Marks.{
  deliver_row, fail_row, marked, mark_alert_delivery_delivered, mark_alert_delivery_failed,
}
use conbench.Db.Deliveries.Stays.{any-update_where, any-append}
use conbench.Db.Deliveries.Leases.{claimable_id, claimed_ids-claimable}

-- A hold lasts until a time, or for ever.
abbrev pub lasts : Option ℕ → ℕ → Bool
lasts none t = true
lasts (some until) t = ltb t until

abbrev pub is_late : Option ℕ → Option ℕ → Bool
is_late (some until) (some next) = leb until next
is_late (some until) none = false
is_late none next = false

-- The row was delivered, or its next attempt is not before the end of the hold.
abbrev pub is_held : Option ℕ → DeliveryRow → Bool
is_held until row = is_delivered row || is_late until row.next_attempt_at

abbrev pub held_if : Option ℕ → String → DeliveryRow → Bool
held_if until id row = not (str_eq row.id id) || is_held until row

-- A row has the id, and every row with it is held.
abbrev pub IsHeld : Option ℕ → String → List DeliveryRow → Type 0
IsHeld until id rows =
    (any (λ row. str_eq row.id id) rows ≡ true) × (all (held_if until id) rows ≡ true)

-- A failure may be noted for another delivery, or with a next attempt at the end of the hold or
-- later; where the hold lasts for ever, for every delivery.
abbrev pub MayFail : Option ℕ → String → String → ℕ → Type 0
MayFail none id other next = Unit {0}
MayFail (some until) id other next = (other ≢ id) ⊎ (until ≤ next)

str_eq_sym : (a b : String) → str_eq a b ≡ str_eq b a
str_eq_sym a b = ground (arith, str_eq_iff a b, str_eq_iff b a)

not_due :
    (delivered : Bool) (until next : Option ℕ) (t : ℕ)
    → (delivered || is_late until next) ≡ true
    → lasts until t ≡ true
    → (not delivered && is_due_at next t) ≡ false
not_due true until next t h k = refl
not_due false none next t h k = absurd cc
not_due false (some until) none t h k = absurd cc
not_due false (some until) (some next) t h k = ground arith

not_claimable :
    (until : Option ℕ) (channel target : String) (t : ℕ) (row : DeliveryRow)
    → is_held until row ≡ true
    → lasts until t ≡ true
    → is_claimable channel target t row ≡ false
unfolding is_claimable
not_claimable until channel target t row h k =
    let due = not_due (is_delivered row) until row.next_attempt_at t h k in ground (arith, due)

all-update_where :
    (q p : DeliveryRow → Bool) (f : DeliveryRow → DeliveryRow) (rows : List DeliveryRow)
    → ((row : DeliveryRow) → p row ≡ true → q row ≡ true → q (f row) ≡ true)
    → all q rows ≡ true
    → all q (update_where p f rows) ≡ true
all-update_where q p f [] h e = refl
all-update_where q p f (row ∷ rows) h e =
    let rest : all q rows ≡ true → all q (update_where p f rows) ≡ true =
      all-update_where q p f rows h in
    elim (Bool-cases (p row)) [
      | inr k ↦ rw k ground (arith, rest)
      | inl k ↦
          let head : q row ≡ true → q (f row) ≡ true = h row k in rw k ground (arith, rest, head)
    ]

all-append :
    (q : DeliveryRow → Bool) (xs ys : List DeliveryRow)
    → all q xs ≡ true
    → all q ys ≡ true
    → all q (xs ++ ys) ≡ true
all-append q [] ys h k = k
all-append q (x ∷ xs) ys h k =
    let rest : all q xs ≡ true → all q (xs ++ ys) ≡ true = λ e. all-append q xs ys e k in
    ground (arith, rest)

update-IsHeld :
    (until : Option ℕ) (id : String) (p : DeliveryRow → Bool) (f : DeliveryRow → DeliveryRow)
    (rows : List DeliveryRow)
    → ((row : DeliveryRow) → (f row).id ≡ row.id)
    → ((row : DeliveryRow)
        → p row ≡ true
        → held_if until id row ≡ true
        → held_if until id (f row) ≡ true)
    → IsHeld until id rows
    → IsHeld until id (update_where p f rows)
update-IsHeld until id p f rows same h k = (
  any-update_where (λ row. str_eq row.id id) p f rows (λ row a b. rw (same row) b) k.0,
  all-update_where (held_if until id) p f rows h k.1,
)

marked-IsHeld :
    (until : Option ℕ) (id : String) (p : DeliveryRow → Bool) (f : DeliveryRow → DeliveryRow)
    (db : DeliveryDb)
    → ((row : DeliveryRow) → (f row).id ≡ row.id)
    → ((row : DeliveryRow)
        → p row ≡ true
        → held_if until id row ≡ true
        → held_if until id (f row) ≡ true)
    → IsHeld until id db.deliveries
    → IsHeld until id (marked p f db).1.deliveries
marked-IsHeld until id p f db same h k = elim (Bool-cases (any p db.deliveries)) [
  | inl e ↦ rw e (update-IsHeld until id p f db.deliveries same h k)
  | inr e ↦ rw e k
]

held-not_claimable :
    (until : Option ℕ) (id channel target : String) (t : ℕ) (rows : List DeliveryRow)
    → all (held_if until id) rows ≡ true
    → lasts until t ≡ true
    → claimable_id id channel target t rows ≡ false
held-not_claimable until id channel target t [] h k = refl
held-not_claimable until id channel target t (row ∷ rows) h k =
    let rest : claimable_id id channel target t rows ≡ false =
      held-not_claimable until id channel target t rows (ground arith) k in
    let head : is_held until row ≡ true → is_claimable channel target t row ≡ false =
      λ e. not_claimable until channel target t row e k in
    ground (arith, rest, head, str_eq_sym id row.id)

-- A delivery that is held is not among those that a claim leases.
pub IsHeld-claimed_ids :
    (id_less : String → String → Bool) (until : Option ℕ) (id channel target : String) (t n : ℕ)
    (rows : List DeliveryRow)
    → IsHeld until id rows
    → lasts until t ≡ true
    → member id (claimed_ids id_less channel target t n rows) ≡ false
IsHeld-claimed_ids id_less until id channel target t n rows h k =
    elim (Bool-cases (member id (claimed_ids id_less channel target t n rows))) [
      | inr e ↦ e
      | inl e ↦
          let some_row = claimed_ids-claimable id_less id channel target t n rows e in
          let no_row = held-not_claimable until id channel target t rows h.1 k in
          absurd (cc (some_row, no_row))
    ]

pub claim-IsHeld :
    (id_less : String → String → Bool) (until : Option ℕ) (id channel target : String)
    (t lease_until : ℕ) (limit : ℤ) (db : DeliveryDb)
    → lasts until t ≡ true
    → IsHeld until id db.deliveries
    → IsHeld until id
        (claim_pending_alert_deliveries id_less channel target t lease_until limit db).1.deliveries
unfolding claim_pending_alert_deliveries
claim-IsHeld id_less until id channel target t lease_until (negsuc n) db k h = h
claim-IsHeld id_less until id channel target t lease_until (pos n) db k h =
    let ids = claimed_ids id_less channel target t n db.deliveries in
    update-IsHeld until id (λ row. member row.id ids) (claim_row t lease_until) db.deliveries
      (λ row. refl)
      (λ row p q. elim (Bool-cases (str_eq row.id id)) [
        | inr other ↦ rw other refl
        | inl same ↦
            let equal : row.id ≡ id = (str_eq_iff row.id id).0 same in
            let out = IsHeld-claimed_ids id_less until id channel target t n db.deliveries h k in
            absurd (cc (out, rw equal at p))
      ])
      h

pub deliver-IsHeld :
    (until : Option ℕ) (id other : String) (attempted_at : ℕ) (db : DeliveryDb)
    → IsHeld until id db.deliveries
    → IsHeld until id (mark_alert_delivery_delivered other attempted_at db).1.deliveries
unfolding mark_alert_delivery_delivered
deliver-IsHeld until id other attempted_at db h =
    marked-IsHeld until id (λ row. str_eq row.id other) (deliver_row attempted_at) db (λ row. refl)
      (λ row p q. ground arith) h

fail_row-held :
    (until : Option ℕ) (id other e : String) (attempted_at next : ℕ) (row : DeliveryRow)
    → MayFail until id other next
    → (str_eq row.id other && not (is_delivered row)) ≡ true
    → held_if until id row ≡ true
    → held_if until id (fail_row attempted_at next e row) ≡ true
fail_row-held none id other e attempted_at next row may p q = ground arith
fail_row-held (some until) id other e attempted_at next row (inr late) p q = ground arith
fail_row-held (some until) id other e attempted_at next row (inl differs) p q =
    elim (Bool-cases (str_eq row.id id)) [
      | inr k ↦ rw k refl
      | inl same ↦
          let own : row.id ≡ id = (str_eq_iff row.id id).0 same in
          let named : str_eq row.id other ≡ true = ground arith in
          absurd (differs (sym ((str_eq_iff row.id other).0 named) ∙ own))
    ]

pub fail-IsHeld :
    (until : Option ℕ) (id other e : String) (attempted_at next : ℕ) (db : DeliveryDb)
    → MayFail until id other next
    → IsHeld until id db.deliveries
    → IsHeld until id (mark_alert_delivery_failed other e attempted_at next db).1.deliveries
unfolding mark_alert_delivery_failed
fail-IsHeld until id other e attempted_at next db may h =
    marked-IsHeld until id (λ row. str_eq row.id other && not (is_delivered row))
      (fail_row attempted_at next e) db (λ row. refl)
      (λ row p q. fail_row-held until id other e attempted_at next row may p q) h

other_id :
    (id fresh : String) (rows : List DeliveryRow)
    → any (λ row. str_eq row.id id) rows ≡ true
    → any (λ row. str_eq row.id fresh) rows ≡ false
    → str_eq fresh id ≡ false
other_id id fresh rows h k = elim (Bool-cases (str_eq fresh id)) [
  | inr e ↦ e
  | inl e ↦ let same : fresh ≡ id = (str_eq_iff fresh id).0 e in absurd (cc (h, rw same at k))
]

pub insert-IsHeld :
    (until : Option ℕ) (id fresh event_id channel target : String) (created_at : ℕ)
    (db : DeliveryDb)
    → IsHeld until id db.deliveries
    → IsHeld until id
        (insert_alert_delivery fresh event_id channel target created_at db).1.deliveries
unfolding insert_alert_delivery
insert-IsHeld until id fresh event_id channel target created_at db h =
    elim (Bool-cases (any (is_for event_id channel target) db.deliveries)) [
      | inl q ↦ rw q h
      | inr q ↦ rw q (elim (Bool-cases (any (λ row. str_eq row.id fresh) db.deliveries)) [
        | inl r ↦ rw r h
        | inr r ↦
            let row = new_row fresh event_id channel target created_at in
            rw r (
              any-append (λ row. str_eq row.id id) db.deliveries (row ∷ []) h.0,
              all-append (held_if until id) db.deliveries (row ∷ []) h.1
                  (rw (other_id id fresh db.deliveries h.0 r) refl),
            )
      ])
    ]
