-- ===== src/Jobs/Outbox.antt =====
-- db/job-repository.ts: the outbox of operations, with dependencies between them.
use forum_relay.Common.{
  ℕ, String, Bool, true, false, not, ◌&&◌, Option, none, some, List, [], ◌∷◌, ◌++◌, ◌==◌, string_eq,
  ℕ_eq, any, update_where, count_where, if◌then◌else◌,
}
use forum_relay.Common.Json.{Json}
use forum_relay.Schema.Jobs.{
  Row, OutboxColumns, JobPlatform, system, JobState, Dependency, Database,
}
use forum_relay.Retry.{RelayFailure, RetryDecision, Result, ok, err, plain, ◌>>=◌}
use forum_relay.Jobs.{
  Codec, column_is, is_open, is_completed, mapping_runs, may_start, claim_first, held_by,
  fail_claim, insert_or_ignore,
}

pub record EnqueueOutbox : Type 0 where
  pub correlation_id : String
  pub depends_on : List String
  pub expected_source_revision : Option String
  pub idempotency_key : String
  pub mapping_key : String
  pub operation_kind : String
  pub partition_key : String
  pub payload : Json
  pub platform : JobPlatform
  pub relay_item_id : Option String

pub record ClaimedOperation : Type 0 where
  pub attempt_count : ℕ
  pub correlation_id : String
  pub expected_source_revision : Option String
  pub id : String
  pub mapping_key : String
  pub operation_kind : String
  pub partition_key : String
  pub payload : Json
  pub platform : JobPlatform
  pub relay_item_id : Option String

abbrev pub outbox_row : Codec → EnqueueOutbox → String → ℕ → Row OutboxColumns
outbox_row codec operation id now = record {
  id = id;
  idempotency_key = operation.idempotency_key;
  platform = operation.platform;
  payload_json = codec.stringify operation.payload;
  state = JobState.pending;
  attempt_count = 0;
  next_attempt_at = some now;
  claim_owner = none;
  claim_expires_at = none;
  last_error_code = none;
  last_error_message = none;
  correlation_id = operation.correlation_id;
  redacted_at = none;
  created_at = now;
  updated_at = now;
  columns = record {
    operation_kind = operation.operation_kind;
    mapping_key = operation.mapping_key;
    partition_key = operation.partition_key;
    relay_item_id = operation.relay_item_id;
    expected_source_revision = operation.expected_source_revision;
    result_json = none;
    completed_at = none;
  };
}

-- One INSERT after another; the unique index on the pair makes a repeated one throw.
unfoldable pub insert_dependencies :
    String → List String → List Dependency → Result (List Dependency)
insert_dependencies id [] rows = ok rows
insert_dependencies id (d ∷ ds) rows =
    if any (λ r. r.operation_id == id && r.depends_on_operation_id == d) rows
    then err (plain "SQLITE_CONSTRAINT")
    else insert_dependencies id ds
        (rows ++ record { operation_id = id; depends_on_operation_id = d } ∷ [])

-- The transaction: an error rolls it back. The result is the id of a new row.
unfoldable pub enqueue_outbox :
    Codec → Database → EnqueueOutbox → String → ℕ → Database × Result (Option String)
unfolding insert_or_ignore insert_dependencies
enqueue_outbox codec db operation id now =
    let (rows, inserted) =
      insert_or_ignore (outbox_row codec operation id now) db.outbox_operations in
    if inserted
    then elim (insert_dependencies id operation.depends_on db.operation_dependencies) [
      | err e ↦ (db, err e)
      | ok dependencies ↦ (
        record db { outbox_operations = rows; operation_dependencies = dependencies },
        ok (some id),
      )
    ]
    else (db, ok none)

-- A prerequisite of the operation that is not completed.
abbrev pub is_unmet : String → List (Row OutboxColumns) → Dependency → Bool
is_unmet id operations d =
    d.operation_id == id
    && any (λ p. p.id == d.depends_on_operation_id && not (is_completed p.state)) operations

-- A lifecycle operation of the partition that found no thread.
abbrev pub is_thread_waiter : String → Row OutboxColumns → Bool
is_thread_waiter partition w =
    w.columns.partition_key == partition
    && w.columns.operation_kind == "discord.issue.lifecycle"
    && column_is w.last_error_code "THREAD_PENDING"

-- The repair: the sync that creates the thread may pass the lifecycle operations before it.
abbrev pub may_pass : Row OutboxColumns → List (Row OutboxColumns) → Row OutboxColumns → Bool
may_pass candidate earlier e =
    candidate.columns.operation_kind == "discord.item.sync"
    && e.columns.operation_kind == "discord.issue.lifecycle"
    && any (is_thread_waiter candidate.columns.partition_key) earlier

abbrev pub outbox_blocks : Row OutboxColumns → List (Row OutboxColumns) → Row OutboxColumns → Bool
outbox_blocks candidate earlier e =
    e.columns.partition_key == candidate.columns.partition_key
    && is_open e.state
    && not (may_pass candidate earlier e)

abbrev pub outbox_claimable : Database → ℕ → List (Row OutboxColumns) → Row OutboxColumns → Bool
outbox_claimable db now earlier r =
    may_start r.state r.next_attempt_at r.claim_expires_at now
    && mapping_runs r.columns.mapping_key db.mappings
    && not (any (is_unmet r.id db.outbox_operations) db.operation_dependencies)
    && not (any (outbox_blocks r earlier) earlier)

abbrev is_system : JobPlatform → Bool
is_system system = true
is_system _ = false

-- `toClaimedOperation`
unfoldable pub to_claimed_operation : Codec → Row OutboxColumns → Result ClaimedOperation
to_claimed_operation codec r =
    if is_system r.platform
    then err (plain "An outbox operation cannot target the system platform.")
    else elim (codec.parse r.payload_json) [
      | none ↦ err (plain "JSON Parse error")
      | some payload ↦ ok (record {
        attempt_count = r.attempt_count;
        correlation_id = r.correlation_id;
        expected_source_revision = r.columns.expected_source_revision;
        id = r.id;
        mapping_key = r.columns.mapping_key;
        operation_kind = r.columns.operation_kind;
        partition_key = r.columns.partition_key;
        payload = payload;
        platform = r.platform;
        relay_item_id = r.columns.relay_item_id;
      })
    ]

abbrev pub claimed_operation : Codec → Option (Row OutboxColumns) → Result (Option ClaimedOperation)
claimed_operation codec none = ok none
claimed_operation codec (some r) = do operation ← to_claimed_operation codec r; ok (some operation)

unfoldable pub claim_outbox :
    Codec → Database → String → ℕ → ℕ → Database × Result (Option ClaimedOperation)
claim_outbox codec db owner duration now =
    let (rows, row) =
      claim_first (outbox_claimable db now) owner duration now db.outbox_operations in
    (record db { outbox_operations = rows }, claimed_operation codec row)

abbrev pub completed_with : Codec → Json → ℕ → Row OutboxColumns → Row OutboxColumns
completed_with codec result now r = record r {
  state = JobState.completed;
  claim_owner = none;
  claim_expires_at = none;
  last_error_code = none;
  last_error_message = none;
  updated_at = now;
  columns = record (r.columns) {
    result_json = some (codec.stringify result);
    completed_at = some now;
  };
}

unfoldable pub complete_outbox : Codec → Database → String → String → Json → ℕ → Database × Bool
complete_outbox codec db id owner result now = (
  record db {
    outbox_operations =
        update_where (held_by id owner) (completed_with codec result now) db.outbox_operations;
  },
  count_where (held_by id owner) db.outbox_operations == 1,
)

unfoldable pub fail_outbox :
    Database → String → String → RelayFailure → RetryDecision → ℕ → Database × Bool
unfolding fail_claim
fail_outbox db id owner f decision now =
    let (rows, done) = fail_claim db.outbox_operations id owner f decision now in
    (record db { outbox_operations = rows }, done)
