-- ===== src/Service/Delivery/Senders.antt =====
-- The senders of alert deliveries and what they send (internal/service/alert_delivery.go): webhook,
-- Slack, GitHub checks and comments, and the texts of an email. The HTTP client, JSON and the
-- reading of addresses are the caller's, over an open `World`; SMTP is not modelled.
use Prim.Native.String.{◌++◌}
use conbench.Base.{
  ℕ, Bool, false, not, ◌&&◌, ◌||◌, Option, none, some, List, [], ◌∷◌, String, str_eq, if◌then◌else◌,
}
use conbench.Base.Results.{Result, ok, err}
use conbench.Db.Deliveries.{StoredEvent}
use conbench.Service.Delivery.{DeliveryPayload}

pub record SlackMessage : Type 0 where
  pub text : String
  -- The texts of the sections.
  pub blocks : List String

pub record CheckRun : Type 0 where
  pub name : String
  pub head_sha : String
  pub status : String
  pub conclusion : String
  pub details_url : String
  pub external_id : String
  pub title : String
  pub summary : String

pub data Body : Type 0 where
  webhook_body : DeliveryPayload → Body
  slack_body : SlackMessage → Body
  check_body : CheckRun → Body
  comment_body : String → Body

-- json.Marshal, the building of a request to an address, and the client: a status or an error.
pub record Http (World : Type 0) : Type 0 where
  pub marshal : Body → Result String String
  pub build : String → Option String
  pub post : String → String → World → Result String ℕ × World

pub record Address : Type 0 where
  pub scheme : String
  pub host : String
  pub path : String

pub record SenderText : Type 0 where
  pub itoa : ℕ → String
  pub parse_url : String → Option Address
  pub cut_prefix : String → String → Option String
  pub trim_right : String → String → String
  pub trim : String → String → String
  pub trim_suffix : String → String → String
  pub split : String → String → List String
  pub path_escape : String → String

abbrev pub text_of : Option String → String
text_of none = ""
text_of (some s) = s

-- A part that is written where its value is there and not empty.
abbrev pub when_given : String → (String → String) → String
when_given value line = if str_eq value "" then "" else line value

module _ (text : SenderText) where
  abbrev pub is_absolute : Option Address → Bool
  is_absolute none = false
  is_absolute (some u) =
      not (str_eq u.host "") && (str_eq u.scheme "http" || str_eq u.scheme "https")

  unfoldable pub is_absolute_http_url : String → Bool
  is_absolute_http_url raw = is_absolute (text.parse_url raw)

  unfoldable pub slack_alert_delivery_message : StoredEvent → SlackMessage
  slack_alert_delivery_message event =
      let status = "*Conbench alert:* " ++ event.status ++ "\n" ++ event.status_reason in
      record {
        text =
            "Conbench alert: " ++ event.status ++ " - " ++ event.status_reason ++ " - "
            ++ event.report_url;
        blocks =
            status
            ∷ (if is_absolute_http_url event.report_url
                then ("<" ++ event.report_url ++ "|Open report>") ∷ []
                else []);
      }

  unfoldable pub github_check_summary : StoredEvent → String
  github_check_summary event =
      event.status_reason
      ++ when_given event.report_url (λ u. "\n\nReport: " ++ u)
      ++ when_given (text_of event.run_id) (λ r. "\nRun: " ++ r)

  unfoldable pub github_comment_body : StoredEvent → String
  github_comment_body event =
      "### Conbench alert: "
      ++ event.status
      ++ "\n\n"
      ++ event.status_reason
      ++ when_given event.report_url (λ u.
        if is_absolute_http_url u
        then "\n\n[Open Conbench report](" ++ u ++ ")"
        else "\n\nReport: `" ++ u ++ "`")
      ++ when_given (text_of event.run_id) (λ r. "\n\nRun: `" ++ r ++ "`")
      ++ "\n\nAlert event: `"
      ++ event.id
      ++ "`"

  unfoldable pub email_alert_body : (ℕ → String) → StoredEvent → String
  email_alert_body rfc3339 event =
      "Conbench alert: "
      ++ event.status
      ++ "\n\n"
      ++ "Kind: "
      ++ event.kind
      ++ "\n"
      ++ "Reason: "
      ++ event.status_reason
      ++ "\n"
      ++ when_given event.report_url (λ u. "Report: " ++ u ++ "\n")
      ++ when_given event.repository (λ r. "Repository: " ++ r ++ "\n")
      ++ when_given (text_of event.commit_sha) (λ c. "Commit: " ++ c ++ "\n")
      ++ when_given (text_of event.run_id) (λ r. "Run: " ++ r ++ "\n")
      ++ "Alert event: "
      ++ event.id
      ++ "\n"
      ++ "Alert rule: "
      ++ event.rule_id
      ++ "\n"
      ++ "Created at: "
      ++ rfc3339 event.created_at
      ++ "\n"

  abbrev pub not_github : String
  not_github = "target must be a github.com repository URL"

  abbrev pub spec_of_parts : List String → Result String String
  spec_of_parts (owner ∷ raw_repo ∷ []) =
      let repo = text.trim_suffix raw_repo ".git" in
      if str_eq owner "" || (str_eq raw_repo "" || str_eq repo "")
      then err not_github
      else ok (text.path_escape owner ++ "/" ++ text.path_escape repo)
  spec_of_parts parts = err not_github

  abbrev pub spec_of_url : Option Address → Result String String
  spec_of_url none = err not_github
  spec_of_url (some u) =
      if str_eq u.scheme "https" && str_eq u.host "github.com"
      then spec_of_parts (text.split (text.trim u.path "/") "/")
      else err not_github

  abbrev pub https_form : String → Option String → String
  https_form raw none = raw
  https_form raw (some rest) = "https://github.com/" ++ rest

  unfoldable pub github_repository_spec : String → Result String String
  github_repository_spec raw = spec_of_url (
      text.parse_url (text.trim_right (https_form raw (text.cut_prefix raw "git@github.com:")) "/"))

unfoldable pub github_check_conclusion : String → String
github_check_conclusion status =
    if str_eq status "success"
    then "success"
    else (if str_eq status "failure" then "failure" else "neutral")
