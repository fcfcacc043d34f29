-- ===== src/Jobs/Upkeep.antt =====
-- db/job-repository.ts: operations that are resumed, and payloads that are redacted.
use forum_relay.Common.{
  ℕ, ◌+◌, String, Bool, true, false, ◌&&◌, none, some, ◌==◌, string_eq, ℕ_eq, update_where,
  count_where,
}
use forum_relay.Schema.Jobs.{Row, OutboxColumns, JobState, Database}
use forum_relay.Jobs.{Codec, column_is, is_completed}
use forum_relay.Jobs.Inbox.{is_before, is_null, placeholder, redact_inbox}

-- `state IN ('dead', 'pending')`
abbrev pub is_resumable : JobState → Bool
is_resumable JobState.dead = true
is_resumable JobState.pending = true
is_resumable _ = false

abbrev pub is_dead : JobState → Bool
is_dead JobState.dead = true
is_dead _ = false

abbrev pub resumed : ℕ → Row OutboxColumns → Row OutboxColumns
resumed now r = record r {
  state = JobState.pending;
  attempt_count = 0;
  next_attempt_at = some now;
  claim_owner = none;
  claim_expires_at = none;
  last_error_code = none;
  last_error_message = none;
  updated_at = now;
}

abbrev pub waits_in_partition : String → Row OutboxColumns → Bool
waits_in_partition partition r =
    r.columns.partition_key == partition
    && r.columns.operation_kind == "discord.issue.lifecycle"
    && is_resumable r.state
    && column_is r.last_error_code "THREAD_PENDING"

unfoldable pub resume_thread_pending_lifecycles : Database → String → ℕ → Database × ℕ
resume_thread_pending_lifecycles db partition now = (
  record db {
    outbox_operations =
        update_where (waits_in_partition partition) (resumed now) db.outbox_operations;
  },
  count_where (waits_in_partition partition) db.outbox_operations,
)

abbrev pub died_in_mapping : String → Row OutboxColumns → Bool
died_in_mapping mapping_key r =
    r.columns.mapping_key == mapping_key
    && r.columns.operation_kind == "discord.issue.lifecycle"
    && is_dead r.state
    && column_is r.last_error_code "THREAD_PENDING"

unfoldable pub resume_dead_thread_pending_lifecycles : Database → String → ℕ → Database × ℕ
resume_dead_thread_pending_lifecycles db mapping_key now = (
  record db {
    outbox_operations =
        update_where (died_in_mapping mapping_key) (resumed now) db.outbox_operations;
  },
  count_where (died_in_mapping mapping_key) db.outbox_operations,
)

abbrev pub redactable_operation : ℕ → Row OutboxColumns → Bool
redactable_operation before r =
    is_completed r.state && is_before r.columns.completed_at before && is_null r.redacted_at

abbrev pub redacted_operation : Codec → ℕ → Row OutboxColumns → Row OutboxColumns
redacted_operation codec now r = record r {
  payload_json = codec.stringify placeholder;
  redacted_at = some now;
  updated_at = now;
  columns = record (r.columns) { result_json = none };
}

-- `redactCompletedPayloads`: both tables, and the rows that it affects in all.
unfoldable pub redact_completed_payloads : Codec → Database → ℕ → ℕ → Database × ℕ
unfolding redact_inbox
redact_completed_payloads codec db before now =
    let (db', events) = redact_inbox codec db before now in
    (
      record db' {
        outbox_operations =
            update_where (redactable_operation before) (redacted_operation codec now)
              db'.outbox_operations;
      },
      events + count_where (redactable_operation before) db'.outbox_operations,
    )
