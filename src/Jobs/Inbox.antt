-- ===== src/Jobs/Inbox.antt =====
-- db/job-repository.ts: the inbox of events.
use forum_relay.Common.{
  ℕ, String, Bool, true, false, not, ◌&&◌, Option, none, some, List, ◌==◌, string_eq, ltb, any,
  update_where, count_where, ℕ_eq,
}
use forum_relay.Common.Json.{Json, obj, field, end, bool}
use forum_relay.Schema.Jobs.{Row, InboxColumns, Mapping, JobPlatform, JobState, Database}
use forum_relay.Retry.{RelayFailure, RetryDecision, Result, ok, err, plain, ◌>>=◌}
use forum_relay.Jobs.{
  Codec, column_is, is_open, is_completed, mapping_runs, may_start, claim_first, held_by,
  fail_claim, insert_or_ignore,
}

pub record EnqueueInbox : Type 0 where
  pub correlation_id : Option String
  pub event_kind : String
  pub idempotency_key : String
  pub mapping_key : Option String
  pub partition_key : Option String
  pub payload : Json
  pub platform : JobPlatform

pub record ClaimedJob : Type 0 where
  pub attempt_count : ℕ
  pub correlation_id : String
  pub event_kind : String
  pub id : String
  pub mapping_key : Option String
  pub partition_key : Option String
  pub payload : Json
  pub platform : JobPlatform

abbrev or_else {ℓ} : {A : Type ℓ} → Option A → A → A
or_else none a = a
or_else (some b) a = b

-- `id` and `correlation` are the fresh UUIDs of the call.
abbrev pub inbox_row : Codec → EnqueueInbox → String → String → ℕ → Row InboxColumns
inbox_row codec event id correlation now = record {
  id = id;
  idempotency_key = event.idempotency_key;
  platform = event.platform;
  payload_json = codec.stringify event.payload;
  state = JobState.pending;
  attempt_count = 0;
  next_attempt_at = some now;
  claim_owner = none;
  claim_expires_at = none;
  last_error_code = none;
  last_error_message = none;
  correlation_id = or_else event.correlation_id correlation;
  redacted_at = none;
  created_at = now;
  updated_at = now;
  columns = record {
    event_kind = event.event_kind;
    mapping_key = event.mapping_key;
    partition_key = event.partition_key;
    processed_at = none;
  };
}

unfoldable pub enqueue_inbox :
    Codec → Database → EnqueueInbox → String → String → ℕ → Database × Bool
unfolding insert_or_ignore
enqueue_inbox codec db event id correlation now =
    let (rows, inserted) =
      insert_or_ignore (inbox_row codec event id correlation now) db.inbox_events in
    (record db { inbox_events = rows }, inserted)

-- `candidate.mapping_key IS NULL OR EXISTS …`
abbrev pub mapping_allows : Option String → List Mapping → Bool
mapping_allows none mappings = true
mapping_allows (some key) mappings = mapping_runs key mappings

-- An earlier open row of the candidate's partition.
abbrev pub inbox_blocks : Option String → Row InboxColumns → Bool
inbox_blocks none earlier = false
inbox_blocks (some p) earlier = column_is earlier.columns.partition_key p && is_open earlier.state

abbrev pub inbox_claimable : List Mapping → ℕ → List (Row InboxColumns) → Row InboxColumns → Bool
inbox_claimable mappings now earlier r =
    may_start r.state r.next_attempt_at r.claim_expires_at now
    && mapping_allows r.columns.mapping_key mappings
    && not (any (inbox_blocks r.columns.partition_key) earlier)

-- `toClaimedJob`; the column types are those of the schema, so only the payload can fail.
unfoldable pub to_claimed_job : Codec → Row InboxColumns → Result ClaimedJob
to_claimed_job codec r = elim (codec.parse r.payload_json) [
  | none ↦ err (plain "JSON Parse error")
  | some payload ↦ ok (record {
    attempt_count = r.attempt_count;
    correlation_id = r.correlation_id;
    event_kind = r.columns.event_kind;
    id = r.id;
    mapping_key = r.columns.mapping_key;
    partition_key = r.columns.partition_key;
    payload = payload;
    platform = r.platform;
  })
]

-- `result.rows[0] ? toClaimedJob(result.rows[0]) : undefined`
abbrev pub claimed_job : Codec → Option (Row InboxColumns) → Result (Option ClaimedJob)
claimed_job codec none = ok none
claimed_job codec (some r) = do job ← to_claimed_job codec r; ok (some job)

unfoldable pub claim_inbox :
    Codec → Database → String → ℕ → ℕ → Database × Result (Option ClaimedJob)
claim_inbox codec db owner duration now =
    let (rows, row) =
      claim_first (inbox_claimable db.mappings now) owner duration now db.inbox_events in
    (record db { inbox_events = rows }, claimed_job codec row)

abbrev pub finished : ℕ → Row InboxColumns → Row InboxColumns
finished now r = record r {
  state = JobState.completed;
  claim_owner = none;
  claim_expires_at = none;
  last_error_code = none;
  last_error_message = none;
  updated_at = now;
  columns = record (r.columns) { processed_at = some now };
}

unfoldable pub complete_inbox : Database → String → String → ℕ → Database × Bool
complete_inbox db id owner now = (
  record db { inbox_events = update_where (held_by id owner) (finished now) db.inbox_events },
  count_where (held_by id owner) db.inbox_events == 1,
)

unfoldable pub fail_inbox :
    Database → String → String → RelayFailure → RetryDecision → ℕ → Database × Bool
unfolding fail_claim
fail_inbox db id owner f decision now =
    let (rows, done) = fail_claim db.inbox_events id owner f decision now in
    (record db { inbox_events = rows }, done)

abbrev pub is_before : Option ℕ → ℕ → Bool
is_before none t = false
is_before (some s) t = ltb s t

abbrev pub is_null {ℓ} : {A : Type ℓ} → Option A → Bool
is_null none = true
is_null (some a) = false

-- `{ redacted: true }`
abbrev pub placeholder : Json
placeholder = obj (field "redacted" (bool true) end)

abbrev pub redactable_event : ℕ → Row InboxColumns → Bool
redactable_event before r =
    is_completed r.state && is_before r.columns.processed_at before && is_null r.redacted_at

abbrev pub redacted_event : Codec → ℕ → Row InboxColumns → Row InboxColumns
redacted_event codec now r = record r {
  payload_json = codec.stringify placeholder;
  redacted_at = some now;
  updated_at = now;
}

-- The inbox half of `redactCompletedPayloads`, and the rows that it affects.
unfoldable pub redact_inbox : Codec → Database → ℕ → ℕ → Database × ℕ
redact_inbox codec db before now = (
  record db {
    inbox_events =
        update_where (redactable_event before) (redacted_event codec now) db.inbox_events;
  },
  count_where (redactable_event before) db.inbox_events,
)
