-- ===== src/Service/Delivery/Recipients.antt =====
-- The recipients of an email (NormalizeAlertEmailRecipients, internal/service/alert_delivery.go).
use conbench.Base.{
  ◌≡◌, refl, true, false, ◌||◌, Option, some, List, [], ◌∷◌, String, str_eq, str_eq_iff, arith,
  Bool-cases, inl, inr, All, map,
}
use conbench.Base.Results.{Result, ok, err}
use conbench.Db.Deliveries.{member}
use conbench.Service.Delivery.Posts.{
  new_recipients, with_recipient, not_empty_list, on_addresses, normalize_alert_email_recipients,
}

module _ (to_lower : String → String) where
  -- No two addresses, and none of `seen`, are alike in lower case.
  abbrev pub AreDistinct : List String → List String → Type 0
  AreDistinct seen [] = Unit {0}
  AreDistinct seen (address ∷ addresses) =
      (member (to_lower address) seen ≡ false) × AreDistinct (to_lower address ∷ seen) addresses

  -- Each address stands, in lower case, among `seen` or the recipients.
  abbrev pub AreReached : List String → List String → List String → Type 0
  AreReached seen found addresses =
      All
        (λ address.
          (member (to_lower address) seen || member (to_lower address) (map to_lower found)) ≡ true)
        addresses

  -- A new recipient counts for those after it.
  reached_later :
      (seen found whole addresses : List String) (address : String)
      → address ∷ found ≡ whole
      → AreReached (to_lower address ∷ seen) found addresses
      → AreReached seen whole addresses
  reached_later seen found whole [] address e h = tt
  reached_later seen found whole (a ∷ addresses) address e h =
      (rw (← e) (ground (arith, h.0)), reached_later seen found whole addresses address e h.1)

  new_recipients-AreDistinct :
      (seen addresses found : List String)
      → new_recipients to_lower seen addresses ≡ ok found
      → AreDistinct seen found × AreReached seen found addresses
  unfolding new_recipients
  new_recipients-AreDistinct seen [] found h = let same : [] ≡ found = cc in rw (← same) (tt, tt)
  new_recipients-AreDistinct seen (address ∷ addresses) found h =
      elim (Bool-cases (str_eq address "")) [
        | inl e ↦ absurd (cc (rw e at h))
        | inr e ↦ elim (Bool-cases (member (to_lower address) seen)) [
          | inl m ↦
              let ih = new_recipients-AreDistinct seen addresses found (rw (e, m) at h) in
              (ih.0, (rw m refl, ih.1))
          | inr m ↦
              by_rest (new_recipients to_lower (to_lower address ∷ seen) addresses) m
                (λ f q. new_recipients-AreDistinct (to_lower address ∷ seen) addresses f q)
                (rw (e, m) at h)
        ]
      ]
    where
      by_rest :
          (r : Result String (List String))
          → member (to_lower address) seen ≡ false
          → ((f : List String)
              → r ≡ ok f
              → AreDistinct (to_lower address ∷ seen) f
                × AreReached (to_lower address ∷ seen) f addresses)
          → with_recipient to_lower address r ≡ ok found
          → AreDistinct seen found × AreReached seen found (address ∷ addresses)
      by_rest (err q) m ih k = absurd cc
      by_rest (ok rest) m ih k =
          let same : address ∷ rest ≡ found = cc in
          let done = ih rest refl in
          let first : AreDistinct seen found = rw (← same) (m, done.0) in
          let own : (member (to_lower address) seen
                || member (to_lower address) (map to_lower found))
              ≡ true =
            rw (← same) (ground (arith, str_eq_iff (to_lower address) (to_lower address))) in
          (first, (own, reached_later seen rest found addresses address same done.1))

  -- When a text is read as a list of addresses and its recipients are accepted, no two of the
  -- recipients are alike in lower case, and each address of the list is one of them up to case.
  pub recipients-AreDistinct :
      (parse : String → Option (List String)) (raw : String) (addresses found : List String)
      → parse raw ≡ some addresses
      → normalize_alert_email_recipients to_lower parse raw ≡ ok found
      → AreDistinct [] found × AreReached [] found addresses
  unfolding normalize_alert_email_recipients
  recipients-AreDistinct parse raw addresses found p h = by_addresses addresses (rw p at h)
    where
      same_list :
          (r : Result String (List String)) → not_empty_list to_lower r ≡ ok found → r ≡ ok found
      same_list (err e) k = absurd cc
      same_list (ok []) k = absurd cc
      same_list (ok (x ∷ xs)) k = k

      by_addresses :
          (xs : List String)
          → on_addresses to_lower (some xs) ≡ ok found
          → AreDistinct [] found × AreReached [] found xs
      by_addresses [] k = absurd cc
      by_addresses (x ∷ xs) k =
          new_recipients-AreDistinct [] (x ∷ xs) found
            (same_list (new_recipients to_lower [] (x ∷ xs)) k)
