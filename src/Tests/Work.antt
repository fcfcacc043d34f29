-- ===== src/Tests/Work.antt =====
-- Runs of jobs/durable-worker.ts and jobs/retry-policy.ts.
use forum_relay.Common.{
  ℕ, ◌+◌, ◌-◌, ◌*◌, ◌^◌, ◌≤◌, ◌≡◌, ◌≢◌, ◌⊎◌, arith, refl, ◌||◌, leb, none, some, if◌then◌else◌,
}
use forum_relay.Schema.Jobs.{Database, JobState}
use forum_relay.Retry.{
  RelayFailure, failure, FailureCategory, Fraction, retry_decision, default_retry_policy, is_final,
  ok, err, Thrown, normalize_failure,
}
use forum_relay.Retry.Attempts.{IsLast, GoesOn, retry_decision-ends}
use forum_relay.Retry.Bounds.{retry_decision-delay_le}
use forum_relay.Jobs.Inbox.{claim_inbox}
use forum_relay.Worker.{WorkerOptions, Moment, InboxHandler, process_inbox}
use forum_relay.Worker.Outcomes.{Became, process_inbox-completes, process_inbox-fails}
use forum_relay.Tests.Queues.{codec, two_events, two_events-Distinct, first_job, first_job_taken}

abbrev options : WorkerOptions
options = record { claim_duration_ms = 60000; instance_id = "w"; poll_interval_ms = 250 }

abbrev moment : Moment
moment = record { claimed_at = 5; reported_at = 9; random = record { num = 1; den = 2 } }

abbrev succeeds : InboxHandler
succeeds db job = (db, ok tt)

abbrev fails : InboxHandler
fails db job = (db, err (Thrown.plain "boom"))

abbrev throttled : RelayFailure
throttled = failure "slow down" FailureCategory.rate_limit "GITHUB_RATE"

abbrev half : Fraction
half = record { num = 1; den = 2 }

waits : (retry_decision throttled 2 half default_retry_policy).delay_ms ≡ some 1000
unfolding retry_decision
waits = refl

retry_decision-delay_le_example :
    (1000 ≤ 900000) × ((1000 ≤ 1000 * 2 ^ (2 - 1)) ⊎ (throttled.retry_after_ms ≢ none))
retry_decision-delay_le_example =
    retry_decision-delay_le throttled 2 half default_retry_policy 1000 waits

-- The third attempt fails for good.
abbrev failures : ℕ → RelayFailure
failures n = if leb 3 n then failure "gone" FailureCategory.not_found "GITHUB_404" else throttled

retry_decision-ends_example :
    (l : ℕ) × (1 ≤ l)
    × (l ≤ 10)
    × IsLast failures (λ n. half) default_retry_policy l
    × GoesOn failures (λ n. half) default_retry_policy l
retry_decision-ends_example =
    retry_decision-ends failures (λ n. half) default_retry_policy (omega arith)

abbrev claimed_db : Database
claimed_db = (claim_inbox codec two_events "w" 60000 5).0

process_inbox-completes_example :
    Became two_events.inbox_events
      (process_inbox codec options moment succeeds two_events).0.inbox_events
      (λ r r'.
        (r.id ≡ "a")
        × (r'.id ≡ "a")
        × (r'.state ≡ JobState.completed)
        × (r'.claim_owner ≡ none)
        × (r'.columns.processed_at ≡ some 9))
process_inbox-completes_example =
    process_inbox-completes codec options moment succeeds two_events claimed_db first_job
      two_events-Distinct first_job_taken refl refl

process_inbox-fails_example :
    Became two_events.inbox_events
      (process_inbox codec options moment fails two_events).0.inbox_events
      (λ r r'.
        (r.id ≡ "a")
        × (r'.id ≡ "a")
        × (r'.claim_owner ≡ none)
        × (r'.last_error_code ≡ some "UNEXPECTED")
        × (r'.attempt_count ≡ r.attempt_count + 1)
        × (r'.state ≡ (
            if leb 10 (r.attempt_count + 1) || is_final FailureCategory.temporary
            then JobState.dead
            else JobState.pending))
        × ((r'.state ≡ JobState.dead)
            ⊎ ((d : ℕ) × (r'.next_attempt_at ≡ some d) × (d ≤ 9 + 900000))))
unfolding normalize_failure
process_inbox-fails_example =
    process_inbox-fails codec options moment fails two_events claimed_db first_job
      two_events-Distinct first_job_taken refl (Thrown.plain "boom") refl
