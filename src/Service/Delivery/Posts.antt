-- ===== src/Service/Delivery/Posts.antt =====
-- SendAlertDelivery of the webhook, Slack and GitHub senders, and the addresses of an email
-- (internal/service/alert_delivery.go).
use Prim.Native.String.{◌++◌}
use conbench.Base.{
  ℕ, ◌||◌, Option, none, some, List, [], ◌∷◌, String, str_eq, ltb, leb, if◌then◌else◌,
}
use conbench.Base.Results.{Result, ok, err}
use conbench.Db.Deliveries.{StoredEvent, member}
use conbench.Service.Delivery.{DeliveryPayload}
use conbench.Service.Delivery.Senders.{
  CheckRun, Body, webhook_body, slack_body, check_body, comment_body, Http, SenderText, text_of,
  is_absolute_http_url, slack_alert_delivery_message, github_check_summary, github_comment_body,
  github_repository_spec, github_check_conclusion,
}

-- What a sender names in its errors.
pub record Wording : Type 0 where
  pub encode : String
  pub build : String
  pub post : String

abbrev pub webhook_wording : Wording
webhook_wording = record {
  encode = "encode webhook payload: ";
  build = "build webhook request: ";
  post = "post webhook: ";
}

abbrev pub slack_wording : Wording
slack_wording = record {
  encode = "encode slack payload: ";
  build = "build slack request: ";
  post = "post slack webhook: ";
}

abbrev pub check_wording : Wording
check_wording = record {
  encode = "encode github check run: ";
  build = "build github check run request: ";
  post = "post github check run: ";
}

abbrev pub comment_wording : Wording
comment_wording = record {
  encode = "encode github commit comment: ";
  build = "build github commit comment request: ";
  post = "post github commit comment: ";
}

module _ {World : Type 0} (http : Http World) (text : SenderText) where
  abbrev pub on_status : Wording → ℕ → Option String
  on_status wording status =
      if ltb status 200 || leb 300 status
      then some (wording.post ++ "unexpected HTTP status " ++ text.itoa status)
      else none

  abbrev pub on_response : Wording → Result String ℕ × World → Option String × World
  on_response wording (err e, w) = (some (wording.post ++ "request failed"), w)
  on_response wording (ok status, w) = (on_status wording status, w)

  abbrev pub on_request : Wording → String → String → World → Option String → Option String × World
  on_request wording target body w (some e) = (some (wording.build ++ e), w)
  on_request wording target body w none = on_response wording (http.post target body w)

  abbrev pub on_encoded : Wording → String → World → Result String String → Option String × World
  on_encoded wording target w (err e) = (some (wording.encode ++ e), w)
  on_encoded wording target w (ok body) = on_request wording target body w (http.build target)

  -- The steps that the senders share: encode, build, send, and a status of 200 to 299.
  unfoldable pub post_body : Wording → String → Body → World → Option String × World
  post_body wording target body w = on_encoded wording target w (http.marshal body)

  unfoldable pub send_webhook : DeliveryPayload → World → Option String × World
  send_webhook payload w = post_body webhook_wording payload.target (webhook_body payload) w

  unfoldable pub send_slack : DeliveryPayload → World → Option String × World
  send_slack payload w =
      post_body slack_wording payload.target
        (slack_body (slack_alert_delivery_message text payload.event)) w

  abbrev pub repository_of : DeliveryPayload → String
  repository_of payload =
      if str_eq payload.target "" then payload.event.repository else payload.target

  abbrev pub check_run_of : StoredEvent → String → CheckRun
  check_run_of event sha = record {
    name = "Conbench alert";
    head_sha = sha;
    status = "completed";
    conclusion = github_check_conclusion event.status;
    details_url = if is_absolute_http_url text event.report_url then event.report_url else "";
    external_id = event.id;
    title = "Conbench alert: " ++ event.status;
    summary = github_check_summary text event;
  }

  abbrev pub send_to_spec :
      Wording → Body → (String → String) → World → Result String String → Option String × World
  send_to_spec wording body url w (err e) = (some (wording.post ++ e), w)
  send_to_spec wording body url w (ok spec) = post_body wording (url spec) body w

  unfoldable pub send_github_check : String → DeliveryPayload → World → Option String × World
  send_github_check base_url payload w =
      let sha = text_of payload.event.commit_sha in
      if str_eq sha ""
      then (some (check_wording.post ++ "alert event has no commit sha"), w)
      else send_to_spec check_wording (check_body (check_run_of payload.event sha))
          (λ spec. base_url ++ "/repos/" ++ spec ++ "/check-runs") w
          (github_repository_spec text (repository_of payload))

  unfoldable pub send_github_comment : String → DeliveryPayload → World → Option String × World
  send_github_comment base_url payload w =
      let sha = text_of payload.event.commit_sha in
      if str_eq sha ""
      then (some (comment_wording.post ++ "alert event has no commit sha"), w)
      else send_to_spec comment_wording (comment_body (github_comment_body text payload.event))
          (λ spec.
            base_url ++ "/repos/" ++ spec ++ "/commits/" ++ text.path_escape sha ++ "/comments")
          w (github_repository_spec text (repository_of payload))

abbrev pub invalid_recipients : String
invalid_recipients = "email recipients are invalid"

-- The loop over the addresses of a list: those already seen, by their lower case, are left out.
module _ (to_lower : String → String) where
  abbrev pub with_recipient : String → Result String (List String) → Result String (List String)
  with_recipient address (err e) = err e
  with_recipient address (ok found) = ok (address ∷ found)

  unfoldable pub new_recipients : List String → List String → Result String (List String)
  new_recipients seen [] = ok []
  new_recipients seen (address ∷ addresses) =
      let again = new_recipients seen addresses in
      let rest = new_recipients (to_lower address ∷ seen) addresses in
      if str_eq address ""
      then err invalid_recipients
      else (if member (to_lower address) seen then again else with_recipient address rest)

  -- A list without addresses is refused before and after the loop.
  abbrev pub not_empty_list : Result String (List String) → Result String (List String)
  not_empty_list (err e) = err e
  not_empty_list (ok []) = err invalid_recipients
  not_empty_list (ok (address ∷ found)) = ok (address ∷ found)

  abbrev pub on_addresses : Option (List String) → Result String (List String)
  on_addresses none = err invalid_recipients
  on_addresses (some []) = err invalid_recipients
  on_addresses (some (address ∷ addresses)) =
      not_empty_list (new_recipients [] (address ∷ addresses))

  -- mail.ParseAddressList is the caller's; the code also gives the list joined by commas.
  unfoldable pub normalize_alert_email_recipients :
      (String → Option (List String)) → String → Result String (List String)
  normalize_alert_email_recipients parse raw = on_addresses (parse raw)
