-- ===== src/Db/Deliveries/Later.antt =====
-- Claims after other statements on the alert_delivery table (internal/db/alert.sql.go).
use conbench.Base.{
  ℕ, ◌<◌, ◌≡◌, refl, Bool, true, false, Option, none, some, List, [], ◌∷◌, String, str_eq,
  str_eq_iff, arith, any, all, Bool-cases, inl, inr,
}
use conbench.Base.Int.{pos}
use conbench.Base.Results.{Result}
use conbench.Db.Deliveries.{
  DeliveryRow, DeliveryDb, update_where, member, claim_row, claimed_ids,
  claim_pending_alert_deliveries,
}
use conbench.Db.Deliveries.Marks.{deliver_row, mark_alert_delivery_delivered}
use conbench.Db.Deliveries.Stays.{any-update_where}
use conbench.Db.Deliveries.Leases.{claimed, claim-claimed_ids, claimable_id, claimed_ids-claimable}
use conbench.Db.Deliveries.Holds.{lasts, held_if, IsHeld, IsHeld-claimed_ids}
use conbench.Db.Deliveries.Between.{Meanwhile, Meanwhile-IsHeld}

leased-held :
    (ids : List String) (id : String) (now lease_until : ℕ) (rows : List DeliveryRow)
    → member id ids ≡ true
    → all
        (held_if (some lease_until) id)
        (update_where (λ row. member row.id ids) (claim_row now lease_until) rows)
      ≡ true
leased-held ids id now lease_until [] own = refl
leased-held ids id now lease_until (row ∷ rows) own =
    let rest = leased-held ids id now lease_until rows own in
    let row_held : member row.id ids ≡ false → str_eq row.id id ≡ false = λ out.
      elim (Bool-cases (str_eq row.id id)) [
        | inr e ↦ e
        | inl e ↦
            let same : row.id ≡ id = (str_eq_iff row.id id).0 e in absurd (cc (own, rw same at out))
      ] in
    elim (Bool-cases (member row.id ids)) [
      | inl e ↦ rw e (ground (arith, rest))
      | inr e ↦ rw (e, row_held e) rest
    ]

any-claimable :
    (id channel target : String) (t : ℕ) (rows : List DeliveryRow)
    → claimable_id id channel target t rows ≡ true
    → any (λ row. str_eq row.id id) rows ≡ true
any-claimable id channel target t [] h = absurd cc
any-claimable id channel target t (row ∷ rows) h =
    let rest : claimable_id id channel target t rows ≡ true
        → any (λ row. str_eq row.id id) rows ≡ true =
      any-claimable id channel target t rows in
    ground (arith, rest, str_eq_iff row.id id, str_eq_iff id row.id)

all-delivered :
    (id : String) (attempted_at : ℕ) (rows : List DeliveryRow)
    → all (held_if none id) (update_where (λ row. str_eq row.id id) (deliver_row attempted_at) rows)
      ≡ true
all-delivered id attempted_at [] = refl
all-delivered id attempted_at (row ∷ rows) =
    let rest = all-delivered id attempted_at rows in
    elim (Bool-cases (str_eq row.id id)) [
      | inl e ↦ rw e (ground (arith, rest))
      | inr e ↦ rw e (ground (arith, e, rest))
    ]

delivered-IsHeld :
    (id : String) (attempted_at : ℕ) (db : DeliveryDb)
    → (mark_alert_delivery_delivered id attempted_at db).0 ≡ none
    → IsHeld none id (mark_alert_delivery_delivered id attempted_at db).1.deliveries
unfolding mark_alert_delivery_delivered
delivered-IsHeld id attempted_at db h =
    elim (Bool-cases (any (λ row. str_eq row.id id) db.deliveries)) [
      | inr e ↦ absurd (cc (rw e at h))
      | inl e ↦ rw e (
        any-update_where (λ row. str_eq row.id id) (λ row. str_eq row.id id)
            (deliver_row attempted_at) db.deliveries (λ row p q. q) e,
        all-delivered id attempted_at db.deliveries,
      )
    ]

module _ (gen_id : ℕ → Result String String) (id_less : String → String → Bool) where
  claimed-IsHeld :
      (id channel target : String) (now lease_until limit : ℕ) (db : DeliveryDb)
      → member id (
          claimed
            (claim_pending_alert_deliveries id_less channel target now lease_until
              (pos limit)
              db).0)
        ≡ true
      → IsHeld
          (some lease_until)
          id
          (claim_pending_alert_deliveries id_less channel target now lease_until
            (pos limit)
            db).1.deliveries
  unfolding claim_pending_alert_deliveries
  claimed-IsHeld id channel target now lease_until limit db first =
      let ids = claimed_ids id_less channel target now limit db.deliveries in
      let own : member id ids ≡ true =
        claim-claimed_ids id_less id channel target now lease_until limit db first in
      let some_row = claimed_ids-claimable id_less id channel target now limit db.deliveries own in
      (
        any-update_where (λ row. str_eq row.id id) (λ row. member row.id ids)
            (claim_row now lease_until) db.deliveries (λ row p q. q)
            (any-claimable id channel target now db.deliveries some_row),
        leased-held ids id now lease_until db.deliveries own,
      )

  claim_held :
      (until : Option ℕ) (id channel target : String) (t lease_until limit : ℕ) (db : DeliveryDb)
      → IsHeld until id db.deliveries
      → lasts until t ≡ true
      → member id (
          claimed
            (claim_pending_alert_deliveries id_less channel target t lease_until (pos limit) db).0)
        ≡ false
  claim_held until id channel target t lease_until limit db h k =
      elim (Bool-cases (
        member id (
          claimed
            (claim_pending_alert_deliveries id_less channel target t lease_until (pos limit)
              db).0))) [
                | inr e ↦ e
                | inl e ↦
                    let taken =
                      claim-claimed_ids id_less id channel target t lease_until limit db e in
                    let free =
                      IsHeld-claimed_ids id_less until id channel target t limit db.deliveries h
                        k in
                    absurd (cc (taken, free))
              ]

  -- After a claim gave a delivery, and after any statements while its lease lasts, of which claims
  -- run before the lease ends and a failure of this delivery sets its next attempt no earlier, a
  -- claim at a time before the lease ends, with any channel, target and limit, does not give it.
  pub claim_later-claimed :
      (id channel target channel2 target2 : String) (now lease_until limit t lease2 limit2 : ℕ)
      (db later : DeliveryDb)
      → member id (
          claimed
            (claim_pending_alert_deliveries id_less channel target now lease_until
              (pos limit)
              db).0)
        ≡ true
      → Meanwhile gen_id id_less
          (some lease_until)
          id
          (claim_pending_alert_deliveries id_less channel target now lease_until (pos limit) db).1
          later
      → t < lease_until
      → member id (
          claimed
            (claim_pending_alert_deliveries id_less channel2 target2 t lease2 (pos limit2) later).0)
        ≡ false
  claim_later-claimed id channel target channel2 target2 now lease_until limit t lease2 limit2 db
        later first between early =
      claim_held (some lease_until) id channel2 target2 t lease2 limit2 later
        (Meanwhile-IsHeld between (claimed-IsHeld id channel target now lease_until limit db first))
        (ground arith)

  -- After a delivery was marked as delivered, and after any statements, a claim at any time, with
  -- any channel, target and limit, does not give it.
  pub claim_later-delivered :
      (id channel target : String) (attempted_at t lease_until limit : ℕ) (db later : DeliveryDb)
      → (mark_alert_delivery_delivered id attempted_at db).0 ≡ none
      → Meanwhile gen_id id_less none id (mark_alert_delivery_delivered id attempted_at db).1 later
      → member id (
          claimed
            (claim_pending_alert_deliveries id_less channel target t lease_until
              (pos limit)
              later).0)
        ≡ false
  claim_later-delivered id channel target attempted_at t lease_until limit db later done after =
      claim_held none id channel target t lease_until limit later
        (Meanwhile-IsHeld after (delivered-IsHeld id attempted_at db done)) refl
