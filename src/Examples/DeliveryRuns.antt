-- ===== src/Examples/DeliveryRuns.antt =====
-- Deliveries of one event, over tables in memory, and the theorems about them
-- (internal/service/alert_delivery.go, internal/db/alert.sql.go).
use conbench.Base.{
  List, some, ℕ, ◌≡◌, refl, Bool, true, false, none, [], ◌∷◌, String, arith, inl, ◌≢◌, str_eq,
  str_eq_iff,
}
use conbench.Base.Int.{pos}
use conbench.Base.Results.{Result, ok}
use conbench.Base.Sort.{sort, insert_sorted}
use conbench.Db.Deliveries.{
  StoredEvent, DeliveryDb, member, claim_pending_alert_deliveries, claimed_ids, is_claimable,
}
use conbench.Db.Deliveries.Enqueue.{
  enqueue_alert_deliveries, enqueue_each, insert_alert_delivery,
  select_alert_events_without_delivery, new_row,
}
use conbench.Db.Deliveries.Statements.{fails}
use conbench.Db.Deliveries.Between.{at_once, then_claim, then_fail}
use conbench.Db.Deliveries.Later.{claim_later-claimed, claim_later-delivered}
use conbench.Db.Deliveries.Marks.{mark_alert_delivery_delivered, mark_alert_delivery_failed}
use conbench.Db.Deliveries.Stays.{StaysDelivered, Statement-StaysDelivered}
use conbench.Db.Deliveries.Leases.{claimed}
use conbench.Service.Delivery.{
  Dispatcher, DeliveryOptions, deliver, deliver_each, after_send, alert_delivery_event_of,
}
use conbench.Service.Delivery.{DeliveryPayload}
use conbench.Service.Delivery.Senders.{Http, SenderText}
use conbench.Service.Delivery.Posts.{
  send_webhook, post_body, send_github_check, normalize_alert_email_recipients, new_recipients,
}
use conbench.Service.Delivery.Recipients.{AreDistinct, AreReached, recipients-AreDistinct}
use conbench.Service.Delivery.Tables.{tables}
use conbench.Service.Delivery.Accounts.{IsAccounted, deliver-IsAccounted}

abbrev event : StoredEvent
event = record {
  id = "e1";
  rule_id = "r1";
  kind = "opened";
  status = "failure";
  status_reason = "slower";
  run_id = none;
  commit_sha = none;
  repository = "org/repo";
  report_url = "";
  summary = "";
  created_at = 1;
}

abbrev named : ℕ → Result String String
named n = ok "d1"

abbrev in_order : String → String → Bool
in_order a b = false

abbrev undelivered : DeliveryDb
undelivered = record { deliveries = []; events = event ∷ []; drawn = 0 }

abbrev one_row : DeliveryDb
one_row = record {
  deliveries = new_row "d1" "e1" "webhook" "t" 5 ∷ [];
  events = event ∷ [];
  drawn = 1;
}

enqueue_once :
    (enqueue_alert_deliveries named in_order "webhook" "t" (pos 3) 5 undelivered).1 ≡ one_row
unfolding enqueue_alert_deliveries enqueue_each insert_alert_delivery
    select_alert_events_without_delivery sort insert_sorted
enqueue_once = refl

-- The table after the delivery was marked as delivered.
abbrev delivered_row : DeliveryDb
delivered_row = (mark_alert_delivery_delivered "d1" 7 one_row).1

delivered_keeps_example :
    StaysDelivered delivered_row (mark_alert_delivery_failed "d1" "late" 8 9 delivered_row).1
delivered_keeps_example =
    Statement-StaysDelivered {gen_id = named} {id_less = in_order}
      (fails {db = delivered_row} "d1" "late" 8 9)

first_claim :
    member "d1"
      (claimed (claim_pending_alert_deliveries in_order "webhook" "t" 10 20 (pos 1) one_row).0)
    ≡ true
unfolding claim_pending_alert_deliveries claimed_ids is_claimable sort insert_sorted
first_claim = refl

-- The table after the first claim, another claim and a failure of another delivery.
abbrev claimed_row : DeliveryDb
claimed_row = (claim_pending_alert_deliveries in_order "webhook" "t" 10 20 (pos 1) one_row).1

abbrev busy : DeliveryDb
busy =
    (mark_alert_delivery_failed "d2" "refused" 12 13
      (claim_pending_alert_deliveries in_order "webhook" "t" 11 12 (pos 5) claimed_row).1).1

other_delivery : ◌≢◌ {A = String} "d2" "d1"
other_delivery e =
    let same : str_eq "d2" "d1" ≡ true = (str_eq_iff "d2" "d1").1 e in
    let differs : str_eq "d2" "d1" ≡ false = refl in absurd (cc (same, differs))

second_claim_example :
    member "d1"
      (claimed (claim_pending_alert_deliveries in_order "webhook" "t" 19 29 (pos 1) busy).0)
    ≡ false
second_claim_example =
    claim_later-claimed named in_order "d1" "webhook" "t" "webhook" "t" 10 20 1 19 29 1 one_row busy
      first_claim
      (then_fail "d2" "refused" 12 13 (then_claim "webhook" "t" 11 12 (pos 5) at_once refl)
        (inl other_delivery))
      (omega arith)

was_marked : (mark_alert_delivery_delivered "d1" 7 one_row).0 ≡ none
unfolding mark_alert_delivery_delivered
was_marked = refl

no_claim_example :
    member "d1" (
      claimed
        (claim_pending_alert_deliveries in_order "webhook" "t" 99 109
          (pos 1)
          (mark_alert_delivery_failed "d1" "late" 8 9 delivered_row).1).0)
    ≡ false
no_claim_example =
    claim_later-delivered named in_order "d1" "webhook" "t" 7 99 109 1 one_row
      (mark_alert_delivery_failed "d1" "late" 8 9 delivered_row).1 was_marked
      (then_fail "d1" "late" 8 9 at_once tt)

-- A sender that always succeeds, and a clock that stands still.
abbrev dispatcher : Dispatcher DeliveryDb
dispatcher = record {
  store = tables named in_order;
  send = λ payload db. (none, db);
  now = λ db. (7, db);
}

abbrev options : DeliveryOptions
options = record { channel = "webhook"; target = "t"; limit = pos 2; retry_after = 60 }

deliver_once : (deliver dispatcher options undelivered).0.0.delivered ≡ 1
unfolding deliver deliver_each after_send alert_delivery_event_of enqueue_alert_deliveries
    enqueue_each insert_alert_delivery select_alert_events_without_delivery
    claim_pending_alert_deliveries claimed_ids is_claimable mark_alert_delivery_delivered sort
    insert_sorted
deliver_once = refl

delivery_accounts_example : IsAccounted 2 (deliver dispatcher options undelivered).0
delivery_accounts_example = deliver-IsAccounted dispatcher options undelivered

-- A post that is answered with 204, and one with 302.
abbrev http_with : ℕ → Http (Unit {0})
http_with status = record {
  marshal = λ body. ok "{}";
  build = λ u. none;
  post = λ u body w. (ok status, w);
}

abbrev plain_text : SenderText
plain_text = record {
  itoa = λ n. "302";
  parse_url = λ raw. none;
  cut_prefix = λ s p. none;
  trim_right = λ s c. s;
  trim = λ s c. s;
  trim_suffix = λ s c. s;
  split = λ s sep. s ∷ [];
  path_escape = λ s. s;
}

abbrev payload : DeliveryPayload
payload = record { delivery_id = "d1"; channel = "webhook"; target = "t"; event = event }

posts_by_status :
    ((send_webhook (http_with 204) plain_text payload tt).0 ≡ none)
    × ((send_webhook (http_with 302) plain_text payload tt).0
        ≡ some "post webhook: unexpected HTTP status 302")
unfolding send_webhook post_body
posts_by_status = (refl, refl)

check_needs_commit :
    (send_github_check (http_with 201) plain_text "u" payload tt).0
    ≡ some "post github check run: alert event has no commit sha"
unfolding send_github_check
check_needs_commit = refl

abbrev three_addresses : List String
three_addresses = "a" ∷ "b" ∷ "a" ∷ []

recipients_once :
    normalize_alert_email_recipients (λ s. s) (λ raw. some three_addresses) "" ≡ ok ("a" ∷ "b" ∷ [])
unfolding normalize_alert_email_recipients new_recipients
recipients_once = refl

email_list_example :
    AreDistinct (λ s. s) [] ("a" ∷ "b" ∷ [])
    × AreReached (λ s. s) [] ("a" ∷ "b" ∷ []) three_addresses
email_list_example =
    recipients-AreDistinct (λ s. s) (λ raw. some three_addresses) "" three_addresses
      ("a" ∷ "b" ∷ []) refl recipients_once
