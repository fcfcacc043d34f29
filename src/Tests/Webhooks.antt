-- ===== src/Tests/Webhooks.antt =====
-- Runs of the HTTP server.
use forum_relay.Common.{
  ℕ, ◌≤◌, ◌≡◌, ◌≢◌, ap, arith, ◌⊎◌, refl, String, Bool, true, false, none, some, Option, List, [],
  ◌∷◌, length, ◌==◌, string_eq, if◌then◌else◌,
}
use forum_relay.Common.Json.{Json, str, num, obj, field, end}
use forum_relay.Retry.{ok}
use forum_relay.Schema.Jobs.{Database}
use forum_relay.Jobs.Inbox.{enqueue_inbox}
use forum_relay.Jobs.Order.{claims, inbox_run}
use forum_relay.Webhook.{
  Http, NormalizedGitHubWebhook, verify_github_signature, normalize_github_webhook,
}
use forum_relay.Webhook.Server.{ReadinessState, Request, max_webhook_bytes, handle}
use forum_relay.Webhook.Authentic.{handle-Admitted}
use forum_relay.Webhook.Once.{handle_once}
use forum_relay.Tests.Queues.{empty}
use forum_relay.Tests.Tables.{normalized}

abbrev payload : Json
payload = obj (
    field "action" (str "opened") (
      field "repository"
        (obj (field "full_name" (str "autoplus-gg/forum-relay") (field "id" (num 9) end)))
        (field "issue" (obj (field "number" (num 3) end)) end)))

-- A digest of the body itself, and one text of hexadecimal digits that stands for it.
abbrev http : Http
http = record {
  hmac = λ secret bytes. bytes;
  from_hex = λ text. 7 ∷ 8 ∷ [];
  decode = λ bytes. "{}";
  number = λ text. 2;
  show = λ n. "1";
  trim = λ text. text;
  lower = λ text. text;
  codec = record { stringify = λ v. "null"; parse = λ text. some payload };
}

abbrev ready : ReadinessState
ready = record { database = true; discord = true; github = true; lease = false }

abbrev signature : String
signature = "sha256=00000000000000000000000000000000000000000000000000000000000000ff"

abbrev header : String → Option String
header name =
    if name == "content-type"
    then some "application/json"
    else if name == "x-github-delivery"
    then some "0123456789abcdef"
    else if name == "x-github-event"
    then some "issues"
    else if name == "x-hub-signature-256"
    then some signature
    else none

abbrev delivery : Request
delivery = record {
  method = "POST";
  pathname = "/webhooks/github";
  header = header;
  body = 7 ∷ 8 ∷ [];
}

-- The signature of the delivery is good.
delivery_is_signed : verify_github_signature http delivery.body signature "secret" ≡ true
unfolding verify_github_signature forum_relay.Common.Texts.starts_with
    forum_relay.Common.Texts.drop_chars forum_relay.Common.Texts.all_chars
delivery_is_signed = refl

delivery_is_stored :
    let result = handle http normalized "secret" ready empty delivery "id" 5 in
    (result.1.status ≡ 202) × (length result.0.inbox_events ≡ 1)
unfolding handle forum_relay.Common.Texts.starts_with forum_relay.Common.Texts.drop_chars
    forum_relay.Common.Texts.all_chars forum_relay.Common.Texts.split_at forum_relay.Common.Json.get
    forum_relay.Common.Json.json_string
delivery_is_stored = (refl, refl)

handle-Admitted_example :
    let db' = (handle http normalized "secret" ready empty delivery "id" 5).0 in
    (db' ≡ empty)
    ⊎ ((delivery.method ≡ "POST")
        × (delivery.pathname ≡ "/webhooks/github")
        × ((length delivery.body ≤ max_webhook_bytes)
            × (verify_github_signature http delivery.body signature "secret" ≡ true)
            × ((w : NormalizedGitHubWebhook) × (normalize_github_webhook http normalized
                    "0123456789abcdef" "issues" "{}"
                  ≡ ok w)
                × (w.reason ≡ none)
                × (db' ≡ (enqueue_inbox http.codec empty w.event "id" "id" 5).0))))
handle-Admitted_example = handle-Admitted http normalized "secret" ready empty delivery "id" 5

delivery_changes : (handle http normalized "secret" ready empty delivery "id" 5).0 ≢ empty
delivery_changes e =
    let one = delivery_is_stored.1 in
    let none_left : length
          (handle http normalized "secret" ready empty delivery "id" 5).0.inbox_events
        ≡ 0 =
      ap (λ (d : Database). length d.inbox_events) e in
    ground (arith, one, none_left)

handle_once_example :
    let db' =
      inbox_run http.codec
        (handle http normalized "secret" ready empty delivery "id" 5).0
        (claims "w" 60000 6 ∷ []) in
    (handle http normalized "secret" ready db' delivery "id2" 9).0 ≡ db'
handle_once_example =
    handle_once http normalized "secret" ready empty delivery "id" "id2" 5 9
      (claims "w" 60000 6 ∷ []) delivery_changes
