-- ===== src/Worker.antt =====
-- jobs/durable-worker.ts: the loop that claims work, hands it to a handler and records the outcome.
-- A handler is a parameter: it acts on the database and returns or throws. The times of the claim
-- and of the report are arguments, and so is the random number of the retry policy.
pub mod Outcomes
use forum_relay.Common.{ℕ, String, Bool, true, false, ◌||◌, Option, none, some, if◌then◌else◌}
use forum_relay.Common.Json.{Json}
use forum_relay.Schema.Jobs.{Database}
use forum_relay.Retry.{
  Fraction, Result, ok, err, Thrown, normalize_failure, retry_decision, default_retry_policy,
}
use forum_relay.Jobs.{Codec}
use forum_relay.Jobs.Inbox.{ClaimedJob, claim_inbox, complete_inbox, fail_inbox}
use forum_relay.Jobs.Outbox.{ClaimedOperation, claim_outbox, complete_outbox, fail_outbox}

abbrev pub InboxHandler : Type 0
InboxHandler = Database → ClaimedJob → Database × Result (Unit {0})

abbrev pub OutboxHandler : Type 0
OutboxHandler = Database → ClaimedOperation → Database × Result Json

-- What a worker is made with; `claim_duration_ms` and `poll_interval_ms` have defaults.
pub record WorkerOptions : Type 0 where
  pub claim_duration_ms : ℕ
  pub instance_id : String
  pub poll_interval_ms : ℕ

abbrev pub default_poll_interval_ms : ℕ
default_poll_interval_ms = 250

abbrev pub default_claim_duration_ms : ℕ
default_claim_duration_ms = 60000

-- The times that one round reads from the clock, and its random number.
pub record Moment : Type 0 where
  pub claimed_at : ℕ
  pub reported_at : ℕ
  pub random : Fraction

module _ (codec : Codec) (o : WorkerOptions) (t : Moment) where
  -- The body of the `try` and its `catch`.
  unfoldable pub settle_inbox : ClaimedJob → Database × Result (Unit {0}) → Database
  settle_inbox job (db, ok done) = (complete_inbox db job.id o.instance_id t.reported_at).0
  settle_inbox job (db, err thrown) =
      let f = normalize_failure thrown in
      (fail_inbox db job.id o.instance_id f
        (retry_decision f job.attempt_count t.random default_retry_policy) t.reported_at).0

  unfoldable pub process_inbox : InboxHandler → Database → Database × Result Bool
  unfolding settle_inbox
  process_inbox handler db =
      let (db', claim) = claim_inbox codec db o.instance_id o.claim_duration_ms t.claimed_at in
      elim claim [
        | err thrown ↦ (db', err thrown)
        | ok none ↦ (db', ok false)
        | ok (some job) ↦ (settle_inbox job (handler db' job), ok true)
      ]

  unfoldable pub settle_outbox : ClaimedOperation → Database × Result Json → Database
  settle_outbox operation (db, ok result) =
      (complete_outbox codec db operation.id o.instance_id result t.reported_at).0
  settle_outbox operation (db, err thrown) =
      let f = normalize_failure thrown in
      (fail_outbox db operation.id o.instance_id f
        (retry_decision f operation.attempt_count t.random default_retry_policy) t.reported_at).0

  unfoldable pub process_outbox : OutboxHandler → Database → Database × Result Bool
  unfolding settle_outbox
  process_outbox handler db =
      let (db', claim) = claim_outbox codec db o.instance_id o.claim_duration_ms t.claimed_at in
      elim claim [
        | err thrown ↦ (db', err thrown)
        | ok none ↦ (db', ok false)
        | ok (some operation) ↦ (settle_outbox operation (handler db' operation), ok true)
      ]

-- `#active`, and the delay of the timer that is set.
pub record Worker : Type 0 where
  pub active : Bool
  pub timer : Option ℕ

abbrev pub schedule : ℕ → Worker → Worker
schedule delay w = if w.active then record w { timer = some delay } else w

unfoldable pub start : Worker → Worker
start w = if w.active then w else schedule 0 (record w { active = true })

unfoldable pub stop : Worker → Worker
stop w = record { active = false; timer = none }

-- The delay until the next round.
abbrev pub pause : ℕ → Result Bool → Result Bool → ℕ
pause poll (ok a) (ok b) = if a || b then 0 else poll
pause poll a b = poll

-- `#tick`: a throw in the inbox half skips the outbox half. The worker may have been stopped
-- meanwhile: `w'` is its state when the round ends.
unfoldable pub tick :
    Codec
    → WorkerOptions
    → Moment
    → Moment
    → InboxHandler
    → OutboxHandler
    → Worker
    → Worker
    → Database
    → Database × Worker
unfolding process_inbox process_outbox
tick codec o t u inbox_handler outbox_handler w w' db = if w.active then round else (db, w)
  where
    round : Database × Worker
    round =
        let (db', in_result) = process_inbox codec o t inbox_handler db in
        elim in_result [
          | err thrown ↦ (db', schedule o.poll_interval_ms w')
          | ok a ↦
              let (db'', out_result) = process_outbox codec o u outbox_handler db' in
              (db'', schedule (pause o.poll_interval_ms (ok a) out_result) w')
        ]
