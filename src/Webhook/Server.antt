-- ===== src/Webhook/Server.antt =====
-- http/server.ts: the requests that the HTTP server answers. Starting and stopping it are left out.
use forum_relay.Common.{
  ℕ, ◌*◌, String, Bool, true, false, not, ◌&&◌, List, Option, none, some, length, ltb, ◌==◌,
  string_eq, if◌then◌else◌,
}
use forum_relay.Common.Texts.{split_at}
use forum_relay.Common.Json.{Json, str, bool, obj, field, end}
use forum_relay.Schema.Jobs.{Database}
use forum_relay.Retry.{Result, ok, err}
use forum_relay.Config.{Config, NormalizedMaintenanceConfig}
use forum_relay.Jobs.Inbox.{enqueue_inbox}
use forum_relay.Engine.Payloads.{or_value}
use forum_relay.Engine.Messages.{first_of}
use forum_relay.Webhook.{
  Http, NormalizedGitHubWebhook, verify_github_signature, normalize_github_webhook,
}

pub record ReadinessState : Type 0 where
  pub database : Bool
  pub discord : Bool
  pub github : Bool
  pub lease : Bool

-- `header` is `headers.get`, of a name in lower case.
pub record Request : Type 0 where
  pub method : String
  pub pathname : String
  pub header : String → Option String
  pub body : List ℕ

pub record Response : Type 0 where
  pub status : ℕ
  pub body : Json

abbrev pub max_webhook_bytes : ℕ
max_webhook_bytes = 2 * 1024 * 1024

abbrev pub refusal : ℕ → String → Response
refusal status error = record { status = status; body = obj (field "error" (str error) end) }

abbrev readiness_json : ReadinessState → Json
readiness_json r = obj (
    field "database" (bool r.database) (
      field "discord" (bool r.discord)
        (field "github" (bool r.github) (field "lease" (bool r.lease) end))))

abbrev pub header_or : Request → String → String → String
header_or request name default = or_value (request.header name) default

module _ (http : Http) (config : Config NormalizedMaintenanceConfig) (secret : String)
    (readiness : ReadinessState) where
  abbrev pub is_json : Option String → Bool
  is_json none = false
  is_json (some type) =
      http.lower (http.trim (or_value (first_of (split_at ";" type)) "")) == "application/json"

  -- A webhook that was read: it is left aside, or its event is enqueued. `id` is the fresh UUID.
  abbrev pub accept :
      Database → String → ℕ → Option String → NormalizedGitHubWebhook → Database × Response
  accept db id now (some reason) webhook = (
    db,
    record {
      status = 202;
      body = obj (field "accepted" (bool true) (field "ignored" (str reason) end));
    },
  )
  accept db id now none webhook =
      let (db', inserted) = enqueue_inbox http.codec db webhook.event id id now in
      (
        db',
        record {
          status = 202;
          body = obj (field "accepted" (bool true) (field "duplicate" (bool (not inserted)) end));
        },
      )

  abbrev pub answer : Database → String → ℕ → Result NormalizedGitHubWebhook → Database × Response
  answer db id now (err e) = (db, refusal 400 "invalid_payload")
  answer db id now (ok webhook) = accept db id now webhook.reason webhook

  -- `#githubWebhook`
  unfoldable pub github_webhook : Database → Request → String → ℕ → Database × Response
  unfolding verify_github_signature normalize_github_webhook enqueue_inbox
  github_webhook db request id now =
      if not (is_json (request.header "content-type"))
      then (db, refusal 415 "unsupported_media_type")
      else if ltb max_webhook_bytes (http.number (header_or request "content-length" "0"))
      then (db, refusal 413 "payload_too_large")
      else if ltb max_webhook_bytes (length request.body)
      then (db, refusal 413 "payload_too_large")
      else if not (
          verify_github_signature http request.body (header_or request "x-hub-signature-256" "")
            secret)
      then (db, refusal 401 "invalid_signature")
      else answer db id now (
          normalize_github_webhook http config (header_or request "x-github-delivery" "")
            (header_or request "x-github-event" "") (http.decode request.body))

  abbrev is_ready : Bool
  is_ready = readiness.database && readiness.discord && readiness.github && readiness.lease

  abbrev pub readiness_answer : Response
  readiness_answer = record {
    status = if is_ready then 200 else 503;
    body = obj (field "ready" (bool is_ready) (field "checks" (readiness_json readiness) end));
  }

  unfoldable pub handle : Database → Request → String → ℕ → Database × Response
  unfolding github_webhook
  handle db request id now =
      if request.method == "GET" && request.pathname == "/health/live"
      then (db, record { status = 200; body = obj (field "live" (bool true) end) })
      else if request.method == "GET" && request.pathname == "/health/ready"
      then (db, readiness_answer)
      else if request.method == "POST" && request.pathname == "/webhooks/github"
      then github_webhook db request id now
      else (db, refusal 404 "not_found")
