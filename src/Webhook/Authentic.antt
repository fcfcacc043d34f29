-- ===== src/Webhook/Authentic.antt =====
-- http/server.ts: which requests reach the inbox.
use forum_relay.Common.{
  ℕ, ◌≤◌, ◌≡◌, ◌⊎◌, inl, inr, refl, sym, String, Bool, true, false, not, ◌&&◌, Option, none, some,
  length, ltb, ◌==◌, string_eq, arith, text_iff, if◌then◌else◌,
}
use forum_relay.Common.Json.{bool, obj, field, end}
use forum_relay.Schema.Jobs.{Database}
use forum_relay.Retry.{Result, ok, err}
use forum_relay.Config.{Config, NormalizedMaintenanceConfig}
use forum_relay.Jobs.Inbox.{enqueue_inbox}
use forum_relay.Webhook.{
  Http, NormalizedGitHubWebhook, verify_github_signature, normalize_github_webhook,
}
use forum_relay.Webhook.Server.{
  is_json, refusal, readiness_answer, ReadinessState, Request, Response, max_webhook_bytes,
  header_or, accept, answer, github_webhook, handle,
}

module _ (http : Http) (config : Config NormalizedMaintenanceConfig) (secret : String) where
  abbrev read : Request → Result NormalizedGitHubWebhook
  read request =
      normalize_github_webhook http config (header_or request "x-github-delivery" "")
        (header_or request "x-github-event" "") (http.decode request.body)

if_both :
    {A : Type 0} (P : A → Type 0) (test : Bool) (a b : A)
    → (test ≡ true → P a)
    → (test ≡ false → P b)
    → P (if test then a else b)
if_both P true a b taken skipped = taken refl
if_both P false a b taken skipped = skipped refl

both : (a b : Bool) → (a && b) ≡ true → (a ≡ true) × (b ≡ true)
both a b h = (ground (arith, h), ground (arith, h))

within : (bound n : ℕ) → ltb bound n ≡ false → n ≤ bound
within bound n h = ground (arith, h)

not-not : (b : Bool) → not b ≡ false → b ≡ true
not-not true h = refl
not-not false h = sym h

named : (s t : String) → (s == t) ≡ true → s ≡ t
named s t h = ground (arith, text_iff s t, h)

module _ (http : Http) (config : Config NormalizedMaintenanceConfig) (secret : String)
    (readiness : ReadinessState) where
  abbrev Stored : Database → String → ℕ → Result NormalizedGitHubWebhook → Database → Type 0
  Stored db id now webhook db' =
      (w : NormalizedGitHubWebhook) × (webhook ≡ ok w)
      × (w.reason ≡ none)
      × (db' ≡ (enqueue_inbox http.codec db w.event id id now).0)

  accept-Stored :
      (db : Database) (id : String) (now : ℕ) (w : NormalizedGitHubWebhook) (reason : Option String)
      → w.reason ≡ reason
      → let result = accept http config secret readiness db id now reason w in
        (result.0 ≡ db) ⊎ Stored db id now (ok w) result.0
  accept-Stored db id now w (some reason) e = inl refl
  accept-Stored db id now w none e = inr (w, refl, e, refl)

  answer-Stored :
      (db : Database) (id : String) (now : ℕ) (webhook : Result NormalizedGitHubWebhook)
      → let result = answer http config secret readiness db id now webhook in
        (result.0 ≡ db) ⊎ Stored db id now webhook result.0
  answer-Stored db id now (err e) = inl refl
  answer-Stored db id now (ok w) = accept-Stored db id now w w.reason refl

  abbrev Admitted : Database → Request → String → ℕ → Database → Type 0
  Admitted db request id now db' =
      (length request.body ≤ max_webhook_bytes)
      × (verify_github_signature http request.body (header_or request "x-hub-signature-256" "")
            secret
          ≡ true)
      × Stored db id now (read http config secret request) db'

  github_webhook-Admitted :
      (db : Database) (request : Request) (id : String) (now : ℕ)
      → let result = github_webhook http config secret readiness db request id now in
        (result.0 ≡ db) ⊎ Admitted db request id now result.0
  unfolding github_webhook
  github_webhook-Admitted db request id now =
      let Q : Database × Response → Type 0 = λ r. (r.0 ≡ db) ⊎ Admitted db request id now r.0 in
      let webhook = read http config secret request in
      let signature = header_or request "x-hub-signature-256" "" in
      let signed = verify_github_signature http request.body signature secret in
      let too_large : Database × Response = (db, refusal 413 "payload_too_large") in
      let stored : Database × Response = answer http config secret readiness db id now webhook in
      let signed_part : Database × Response =
        if not signed then (db, refusal 401 "invalid_signature") else stored in
      let small_part : Database × Response =
        if ltb max_webhook_bytes (length request.body) then too_large else signed_part in
      let told = ltb max_webhook_bytes (http.number (header_or request "content-length" "0")) in
      if_both Q (not (is_json http config secret readiness (request.header "content-type")))
        (db, refusal 415 "unsupported_media_type") (if told then too_large else small_part)
        (λ h. inl refl)
        (λ typed.
          if_both Q told too_large small_part (λ h. inl refl)
            (λ told.
              if_both Q (ltb max_webhook_bytes (length request.body)) too_large signed_part
                (λ h. inl refl)
                (λ small.
                  if_both Q (not signed) (db, refusal 401 "invalid_signature") stored
                    (λ h. inl refl)
                    (λ good. elim (answer-Stored db id now webhook) [
                      | inl e ↦ inl e
                      | inr s ↦ inr (within _ _ small, not-not _ good, s)
                    ]))))

  -- A request leaves the database as it is, or it is a POST to /webhooks/github whose body is within
  -- the limit and signed with the secret, whose body and headers read as a webhook that has no
  -- reason to be left aside, and the new database is the old one with that webhook's event enqueued.
  pub handle-Admitted :
      (db : Database) (request : Request) (id : String) (now : ℕ)
      → let db' = (handle http config secret readiness db request id now).0 in
        (db' ≡ db)
        ⊎ ((request.method ≡ "POST")
            × (request.pathname ≡ "/webhooks/github")
            × Admitted db request id now db')
  unfolding handle
  handle-Admitted db request id now =
      let Q : Database × Response → Type 0 = λ r.
        (r.0 ≡ db)
        ⊎ ((request.method ≡ "POST")
            × (request.pathname ≡ "/webhooks/github")
            × Admitted db request id now r.0) in
      let live = request.method == "GET" && request.pathname == "/health/live" in
      let ready = request.method == "GET" && request.pathname == "/health/ready" in
      let post = request.method == "POST" && request.pathname == "/webhooks/github" in
      let missing : Database × Response = (db, refusal 404 "not_found") in
      let hook : Database × Response =
        github_webhook http config secret readiness db request id now in
      let posted : Database × Response = if post then hook else missing in
      let ready_answer : Database × Response =
        (db, readiness_answer http config secret readiness) in
      if_both Q live (db, record { status = 200; body = obj (field "live" (bool true) end) })
        (if ready then ready_answer else posted) (λ h. inl refl)
        (λ not_live.
          if_both Q ready ready_answer posted (λ h. inl refl)
            (λ not_ready.
              if_both Q post hook missing
                (λ h. elim (github_webhook-Admitted db request id now) [
                  | inl e ↦ inl e
                  | inr s ↦ inr (named _ _ (both _ _ h).0, named _ _ (both _ _ h).1, s)
                ])
                (λ other. inl refl)))
