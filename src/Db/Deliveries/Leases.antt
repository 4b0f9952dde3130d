-- ===== src/Db/Deliveries/Leases.antt =====
-- The deliveries that a claim gives and the rows it leases (ClaimPendingAlertDeliveries,
-- internal/db/alert.sql.go).
use conbench.Base.{
  ℕ, zero, suc, ◌≡◌, refl, sym, Bool, true, ◌&&◌, ◌||◌, Option, none, some, List, [], ◌∷◌, String,
  str_eq, str_eq_iff, arith, any, keep, take, map, Bool-cases, inl, inr,
}
use conbench.Base.Int.{pos}
use conbench.Base.Sort.{sort, insert_sorted}
use conbench.Base.Results.{Result, ok, err}
use conbench.Db.Deliveries.{
  StoredEvent, DeliveryRow, DeliveryDb, member, claim_rows, claimed_ids,
  claim_pending_alert_deliveries, is_claimable, earlier, join_events, with_event, find_event,
}

module _ {ℓ} {A : Type ℓ} (p : A → Bool) where
  any-take : (n : ℕ) (xs : List A) → any p (take n xs) ≡ true → any p xs ≡ true
  any-take zero xs h = absurd cc
  any-take (suc n) [] h = absurd cc
  any-take (suc n) (x ∷ xs) h =
      let rest : any p (take n xs) ≡ true → any p xs ≡ true = any-take n xs in ground (arith, rest)

  any-insert_sorted :
      (less : A → A → Bool) (x : A) (xs : List A)
      → any p (insert_sorted less x xs) ≡ (p x || any p xs)
  unfolding insert_sorted
  any-insert_sorted less x [] = refl
  any-insert_sorted less x (y ∷ ys) = ground (arith, any-insert_sorted less x ys)

  any-sort : (less : A → A → Bool) (xs : List A) → any p (sort less xs) ≡ any p xs
  unfolding sort
  any-sort less [] = refl
  any-sort less (x ∷ xs) = rw (any-insert_sorted less x (sort less xs), any-sort less xs) refl

  any-keep : (q : A → Bool) (xs : List A) → any p (keep q xs) ≡ any (λ x. q x && p x) xs
  any-keep q [] = refl
  any-keep q (x ∷ xs) = ground (arith, any-keep q xs)

any-map {ℓ κ} :
    {A : Type ℓ} {B : Type κ} (p : B → Bool) (f : A → B) (xs : List A)
    → any p (map f xs) ≡ any (λ x. p (f x)) xs
any-map p f [] = refl
any-map p f (x ∷ xs) = rw (any-map p f xs) refl

any_within {ℓ} :
    {A : Type ℓ} (p q : A → Bool) (xs : List A)
    → ((x : A) → p x ≡ true → q x ≡ true)
    → any p xs ≡ true
    → any q xs ≡ true
any_within p q [] h e = absurd cc
any_within p q (x ∷ xs) h e =
    let rest : any p xs ≡ true → any q xs ≡ true = any_within p q xs h in
    let head : p x ≡ true → q x ≡ true = h x in ground (arith, rest, head)

-- Some row with the id can be claimed.
abbrev pub claimable_id : String → String → String → ℕ → List DeliveryRow → Bool
claimable_id id channel target now rows =
    any (λ row. is_claimable channel target now row && str_eq id row.id) rows

pub claimed_ids-claimable :
    (id_less : String → String → Bool) (id channel target : String) (now n : ℕ)
    (rows : List DeliveryRow)
    → member id (claimed_ids id_less channel target now n rows) ≡ true
    → claimable_id id channel target now rows ≡ true
unfolding claimed_ids
claimed_ids-claimable id_less id channel target now n rows h =
    let due : List DeliveryRow = keep (is_claimable channel target now) rows in
    let sorted : List DeliveryRow = sort (earlier id_less) due in
    let a : any (λ row. str_eq id row.id) (take n sorted) ≡ true =
      rw (sym (any-map (str_eq id) (λ row. row.id) (take n sorted))) h in
    let b : any (λ row. str_eq id row.id) sorted ≡ true =
      any-take (λ row. str_eq id row.id) n sorted a in
    let c : any (λ row. str_eq id row.id) due ≡ true =
      rw (sym (any-sort (λ row. str_eq id row.id) (earlier id_less) due)) b in
    rw (sym (any-keep (λ row. str_eq id row.id) (is_claimable channel target now) rows)) c

-- The ids of the deliveries that a claim gave.
abbrev pub claimed : Result String (List (DeliveryRow × StoredEvent)) → List String
claimed (err e) = []
claimed (ok items) = map (λ item. item.0.id) items

join_within :
    (id : String) (events : List StoredEvent) (rows : List DeliveryRow)
    → any (λ item. str_eq id item.0.id) (join_events events rows) ≡ true
    → any (λ row. str_eq id row.id) rows ≡ true
join_within id events [] h = absurd cc
join_within id events (row ∷ rows) h =
    by_event (find_event row.event_id events) (join_within id events rows) h
  where
    by_event :
        (e : Option StoredEvent)
        → (any (λ item. str_eq id item.0.id) (join_events events rows) ≡ true
            → any (λ row. str_eq id row.id) rows ≡ true)
        → any (λ item. str_eq id item.0.id) (with_event row e (join_events events rows)) ≡ true
        → any (λ row. str_eq id row.id) (row ∷ rows) ≡ true
    by_event none ih k = let rest : any (λ row. str_eq id row.id) rows ≡ true = ih k in ground arith
    by_event (some e) ih k = ground (arith, ih)

module _ (id_less : String → String → Bool) where
  -- What a claim gives is among the ids that it leased.
  pub claim-claimed_ids :
      (id channel target : String) (now lease_until n : ℕ) (db : DeliveryDb)
      → member id (
          claimed
            (claim_pending_alert_deliveries id_less channel target now lease_until (pos n) db).0)
        ≡ true
      → member id (claimed_ids id_less channel target now n db.deliveries) ≡ true
  unfolding claim_pending_alert_deliveries
  claim-claimed_ids id channel target now lease_until n db h =
      let ids : List String = claimed_ids id_less channel target now n db.deliveries in
      let rows : List DeliveryRow =
        claim_rows id_less channel target now lease_until n db.deliveries in
      let kept : List DeliveryRow = keep (λ row. member row.id ids) rows in
      let a : any (λ item. str_eq id item.0.id)
            (join_events db.events (sort (earlier id_less) kept))
          ≡ true =
        rw
          (sym (
            any-map (str_eq id) (λ item. item.0.id)
              (join_events db.events (sort (earlier id_less) kept))))
          h in
      let b : any (λ row. str_eq id row.id) (sort (earlier id_less) kept) ≡ true =
        join_within id db.events (sort (earlier id_less) kept) a in
      let c : any (λ row. str_eq id row.id) kept ≡ true =
        rw (sym (any-sort (λ row. str_eq id row.id) (earlier id_less) kept)) b in
      let d : any (λ row. member row.id ids && str_eq id row.id) rows ≡ true =
        rw (sym (any-keep (λ row. str_eq id row.id) (λ row. member row.id ids) rows)) c in
      some_member rows d
    where
      some_member :
          (rows : List DeliveryRow)
          → any
              (λ row.
                member row.id (claimed_ids id_less channel target now n db.deliveries)
                && str_eq id row.id)
              rows
            ≡ true
          → member id (claimed_ids id_less channel target now n db.deliveries) ≡ true
      some_member [] k = absurd cc
      some_member (row ∷ rows) k = elim (Bool-cases (str_eq id row.id)) [
        | inl q ↦
            let same : id ≡ row.id = (str_eq_iff id row.id).0 q in
            elim (Bool-cases
              (member row.id (claimed_ids id_less channel target now n db.deliveries))) [
                | inl m ↦ rw same m
                | inr m ↦ some_member rows (rw (q, m) at k)
              ]
        | inr q ↦ some_member rows (ground (arith, q, k))
      ]
