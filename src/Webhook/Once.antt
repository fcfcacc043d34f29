-- ===== src/Webhook/Once.antt =====
-- http/server.ts: a delivery that GitHub sends twice.
use forum_relay.Common.{
  ℕ, ◌≡◌, ◌≢◌, ◌∙◌, inl, inr, ap, sym, subst, String, false, List, Bool-cases, arith,
}
use forum_relay.Schema.Jobs.{Database}
use forum_relay.Retry.{ok_inj}
use forum_relay.Config.{Config, NormalizedMaintenanceConfig}
use forum_relay.Jobs.{Codec, insert_or_ignore}
use forum_relay.Jobs.Inbox.{EnqueueInbox, enqueue_inbox}
use forum_relay.Jobs.Order.{InboxCall, inbox_run}
use forum_relay.Jobs.Once.{enqueue_inbox_once}
use forum_relay.Webhook.{Http}
use forum_relay.Webhook.Server.{ReadinessState, Request, handle}
use forum_relay.Webhook.Authentic.{handle-Admitted}

enqueue_inbox-refused :
    (codec : Codec) (db : Database) (e : EnqueueInbox) (id correlation : String) (now : ℕ)
    → (enqueue_inbox codec db e id correlation now).1 ≡ false
    → (enqueue_inbox codec db e id correlation now).0 ≡ db
unfolding enqueue_inbox insert_or_ignore
enqueue_inbox-refused codec db e id correlation now h = ground (arith, h)

module _ (http : Http) (config : Config NormalizedMaintenanceConfig) (secret : String)
    (readiness : ReadinessState) where
  -- Once a request has changed the database, the same request leaves it as it is, whenever it is sent
  -- again and whatever calls on the inbox are made in between.
  pub handle_once :
      (db : Database) (request : Request) (id id' : String) (now now' : ℕ) (calls : List InboxCall)
      → (handle http config secret readiness db request id now).0 ≢ db
      → let db' =
          inbox_run http.codec (handle http config secret readiness db request id now).0 calls in
        (handle http config secret readiness db' request id' now').0 ≡ db'
  handle_once db request id id' now now' calls changed =
      let first = (handle http config secret readiness db request id now).0 in
      let db' = inbox_run http.codec first calls in
      elim (handle-Admitted http config secret readiness db' request id' now') [
        | inl e ↦ e
        | inr (post', path', (small', signed', (w', read', reason', stored'))) ↦
            elim (handle-Admitted http config secret readiness db request id now) [
              | inl e ↦ absurd (changed e)
              | inr (post, path, (small, signed, (w, read, reason, stored))) ↦
                  let codec = http.codec in
                  let same : w' ≡ w = ok_inj (sym read' ∙ read) in
                  elim (Bool-cases (enqueue_inbox codec db w.event id id now).1) [
                    | inl accepted ↦
                        stored'
                        ∙ subst
                            (λ d.
                              (enqueue_inbox codec (inbox_run codec d calls) w'.event id' id'
                                now').0
                              ≡ inbox_run codec d calls)
                            (sym stored)
                            (ap (λ r. r.0)
                              (enqueue_inbox_once codec db w.event w'.event id id' id id' now now'
                                calls accepted (ap (λ x. x.event.idempotency_key) same)))
                    | inr refused ↦ absurd (
                        changed (stored ∙ enqueue_inbox-refused codec db w.event id id now refused))
                  ]
            ]
      ]
