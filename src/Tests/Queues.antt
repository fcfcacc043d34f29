-- ===== src/Tests/Queues.antt =====
-- Runs of db/job-repository.ts.
use forum_relay.Common.{◌≡◌, ◌≢◌, refl, String, true, false, none, some, [], ◌∷◌, ◌==◌, string_eq}
use forum_relay.Tests.{apart}
use forum_relay.Common.Json.{null}
use forum_relay.Schema.Jobs.{
  Row, InboxColumns, OutboxColumns, Database, Mapping, MappingState, JobPlatform, JobState,
}
use forum_relay.Retry.{RelayFailure, failure, FailureCategory, RetryDecision, RetryState, ok}
use forum_relay.Jobs.{Codec, claim_first}
use forum_relay.Jobs.Claims.{Distinct}
use forum_relay.Jobs.Inbox.{
  EnqueueInbox, ClaimedJob, claim_inbox, complete_inbox, fail_inbox, enqueue_inbox, to_claimed_job,
}
use forum_relay.Jobs.Outbox.{ClaimedOperation, claim_outbox, to_claimed_operation}
use forum_relay.Jobs.Serial.{Inv}
use forum_relay.Jobs.Order.{enqueues, claims, inbox_run, inbox_run-Inv}
use forum_relay.Jobs.Turns.{InTurn, claim_inbox-InTurn, claim_inbox_progress}
use forum_relay.Jobs.Ownership.{claim_inbox-owner, claim_inbox-stale}
use forum_relay.Jobs.Once.{enqueue_inbox_once}
use forum_relay.Jobs.Ready.{IsReady, claim_outbox-IsReady}
use forum_relay.Jobs.Final.{OutboxCall, Keeps, outbox_run, outbox_run-Keeps}

-- Texts that hold only `null`.
abbrev pub codec : Codec
codec = record { stringify = λ v. "null"; parse = λ s. some null }

abbrev pub event : String → EnqueueInbox
event key = record {
  correlation_id = none;
  event_kind = "message.create";
  idempotency_key = key;
  mapping_key = none;
  partition_key = some "discord:thread:1";
  payload = null;
  platform = JobPlatform.discord;
}

abbrev pub empty : Database
empty = record {
  mappings = [];
  inbox_events = [];
  outbox_operations = [];
  operation_dependencies = [];
}

-- An event of the inbox, as the first of two of one thread.
abbrev pub waiting : String → Row InboxColumns
waiting id = record {
  id = id;
  idempotency_key = id;
  platform = JobPlatform.discord;
  payload_json = "null";
  state = JobState.pending;
  attempt_count = 0;
  next_attempt_at = some 0;
  claim_owner = none;
  claim_expires_at = none;
  last_error_code = none;
  last_error_message = none;
  correlation_id = "c";
  redacted_at = none;
  created_at = 0;
  updated_at = 0;
  columns = record {
    event_kind = "message.create";
    mapping_key = none;
    partition_key = some "discord:thread:1";
    processed_at = none;
  };
}

abbrev pub two_events : Database
two_events = record empty { inbox_events = waiting "a" ∷ waiting "b" ∷ [] }

abbrev pub two_events-Distinct : Distinct two_events.inbox_events
two_events-Distinct = ((apart "a" "b" refl, tt), (tt, tt))

-- The job that a claim of `two_events` returns.
abbrev pub first_job : ClaimedJob
first_job = record {
  attempt_count = 1;
  correlation_id = "c";
  event_kind = "message.create";
  id = "a";
  mapping_key = none;
  partition_key = some "discord:thread:1";
  payload = null;
  platform = JobPlatform.discord;
}

pub first_job_taken : (claim_inbox codec two_events "w" 60000 5).1 ≡ ok (some first_job)
unfolding claim_inbox claim_first to_claimed_job
first_job_taken = refl

claim_inbox-InTurn_example :
    InTurn [] "w" 60000 5 two_events.inbox_events
      (claim_inbox codec two_events "w" 60000 5).0.inbox_events
      first_job
claim_inbox-InTurn_example =
    claim_inbox-InTurn codec two_events "w" 60000 5 two_events-Distinct first_job first_job_taken

claim_inbox_progress_example : (claim_inbox codec two_events "w" 60000 5).1 ≢ ok none
claim_inbox_progress_example =
    claim_inbox_progress codec two_events "w" 60000 5 [] (waiting "a") (waiting "b" ∷ [])
      two_events-Distinct refl refl refl tt

abbrev refused : RelayFailure
refused = failure "later" FailureCategory.temporary "T"

abbrev again : RetryDecision
again = record { delay_ms = some 10; state = RetryState.pending }

claim_inbox-owner_example :
    ((complete_inbox (claim_inbox codec two_events "w" 60000 5).0 "a" "w" 9).1
      ≡ ◌==◌ {T = String} "w" "w")
    × ((fail_inbox (claim_inbox codec two_events "w" 60000 5).0 "a" "w" refused again 9).1
        ≡ ◌==◌ {T = String} "w" "w")
claim_inbox-owner_example =
    claim_inbox-owner codec two_events "w" 60000 5 two_events-Distinct first_job first_job_taken "w"
      refused again 9

claim_inbox-stale_example :
    ((complete_inbox (claim_inbox codec two_events "w" 60000 5).0 "a" "v" 9).0
      ≡ (claim_inbox codec two_events "w" 60000 5).0)
    × ((fail_inbox (claim_inbox codec two_events "w" 60000 5).0 "a" "v" refused again 9).0
        ≡ (claim_inbox codec two_events "w" 60000 5).0)
claim_inbox-stale_example =
    claim_inbox-stale codec two_events "w" 60000 5 two_events-Distinct first_job first_job_taken "v"
      refused again 9 (apart "w" "v" refl)

inbox_run-Inv_example :
    Inv
      (inbox_run codec empty (
        enqueues (event "k") "a" "c" 1
        ∷ enqueues (event "l") "b" "c" 2
        ∷ claims "w" 60000 5
        ∷ [])).inbox_events
inbox_run-Inv_example =
    inbox_run-Inv codec empty
      (enqueues (event "k") "a" "c" 1 ∷ enqueues (event "l") "b" "c" 2 ∷ claims "w" 60000 5 ∷ [])
      refl

accepted : (enqueue_inbox codec empty (event "k") "a" "c" 1).1 ≡ true
unfolding enqueue_inbox
accepted = refl

enqueue_inbox_once_example :
    enqueue_inbox codec
      (inbox_run codec
        (enqueue_inbox codec empty (event "k") "a" "c" 1).0
        (claims "w" 60000 5 ∷ []))
      (event "k")
      "b"
      "d"
      7
    ≡ (
      inbox_run codec (enqueue_inbox codec empty (event "k") "a" "c" 1).0 (claims "w" 60000 5 ∷ []),
      false,
    )
enqueue_inbox_once_example =
    enqueue_inbox_once codec empty (event "k") (event "k") "a" "b" "c" "d" 1 7
      (claims "w" 60000 5 ∷ []) accepted refl

-- Two operations of which the second depends on the first, which is completed.
abbrev operation : String → JobState → Row OutboxColumns
operation id state = record {
  id = id;
  idempotency_key = id;
  platform = JobPlatform.github;
  payload_json = "null";
  state = state;
  attempt_count = 0;
  next_attempt_at = some 0;
  claim_owner = none;
  claim_expires_at = none;
  last_error_code = none;
  last_error_message = none;
  correlation_id = "c";
  redacted_at = none;
  created_at = 0;
  updated_at = 0;
  columns = record {
    operation_kind = "github.comment.sync";
    mapping_key = "m";
    partition_key = "link:1";
    relay_item_id = none;
    expected_source_revision = none;
    result_json = none;
    completed_at = none;
  };
}

abbrev running : Mapping
running = record {
  key = "m";
  guild_id = "g";
  forum_channel_id = "f";
  github_owner = "o";
  github_repository = "r";
  state = MappingState.active;
  config_fingerprint = "";
  bootstrap_completed_at = none;
  disabled_at = none;
  last_error_code = none;
  last_error_message = none;
  created_at = 0;
  updated_at = 0;
}

abbrev two_operations : Database
two_operations = record {
  mappings = running ∷ [];
  inbox_events = [];
  outbox_operations = operation "a" JobState.completed ∷ operation "b" JobState.pending ∷ [];
  operation_dependencies = record { operation_id = "b"; depends_on_operation_id = "a" } ∷ [];
}

abbrev second_operation : ClaimedOperation
second_operation = record {
  attempt_count = 1;
  correlation_id = "c";
  expected_source_revision = none;
  id = "b";
  mapping_key = "m";
  operation_kind = "github.comment.sync";
  partition_key = "link:1";
  payload = null;
  platform = JobPlatform.github;
  relay_item_id = none;
}

second_operation_taken :
    (claim_outbox codec two_operations "w" 60000 5).1 ≡ ok (some second_operation)
unfolding claim_outbox claim_first to_claimed_operation
second_operation_taken = refl

abbrev two_operations-Distinct : Distinct two_operations.outbox_operations
two_operations-Distinct = ((apart "a" "b" refl, tt), (tt, tt))

claim_outbox-IsReady_example :
    IsReady two_operations "w" 60000 5
      (claim_outbox codec two_operations "w" 60000 5).0.outbox_operations
      second_operation
claim_outbox-IsReady_example =
    claim_outbox-IsReady codec two_operations "w" 60000 5 two_operations-Distinct second_operation
      second_operation_taken

outbox_run-Keeps_example :
    Keeps "a"
      (outbox_run codec two_operations (OutboxCall.claims "w" 60000 5 ∷ [])).outbox_operations
outbox_run-Keeps_example =
    outbox_run-Keeps "a" codec two_operations (OutboxCall.claims "w" 60000 5 ∷ [])
      (record { distinct = two_operations-Distinct; done = refl })
