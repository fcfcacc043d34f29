-- ===== src/Schema/Jobs.antt =====
-- db/schema.ts: `mappings`, `inbox_events`, `outbox_operations` and `operation_dependencies`.
use forum_relay.Common.{ℕ, String, List, Option}

-- The states of `mappings.state`.
pub data MappingState : Type 0 where
  pending_bootstrap bootstrapping active paused disabled degraded : MappingState

-- The ids of the repository and of the installation, which nothing here reads, are left out.
pub record Mapping : Type 0 where
  pub key : String
  pub guild_id : String
  pub forum_channel_id : String
  pub github_owner : String
  pub github_repository : String
  pub state : MappingState
  pub config_fingerprint : String
  pub bootstrap_completed_at : Option ℕ
  pub disabled_at : Option ℕ
  pub last_error_code : Option String
  pub last_error_message : Option String
  pub created_at : ℕ
  pub updated_at : ℕ

pub data JobPlatform : Type 0 where
  discord github media system : JobPlatform

-- The states that the workers use; the one in which the relay command leaves discarded work is left out.
pub data JobState : Type 0 where
  completed dead pending processing : JobState

-- The columns that the two queues share, and those of one queue.
pub record Row (A : Type 0) : Type 0 where
  pub id : String
  pub idempotency_key : String
  pub platform : JobPlatform
  pub payload_json : String
  pub state : JobState
  pub attempt_count : ℕ
  pub next_attempt_at : Option ℕ
  pub claim_owner : Option String
  pub claim_expires_at : Option ℕ
  pub last_error_code : Option String
  pub last_error_message : Option String
  pub correlation_id : String
  pub redacted_at : Option ℕ
  pub created_at : ℕ
  pub updated_at : ℕ
  pub columns : A

pub record InboxColumns : Type 0 where
  pub event_kind : String
  pub mapping_key : Option String
  pub partition_key : Option String
  pub processed_at : Option ℕ

pub record OutboxColumns : Type 0 where
  pub operation_kind : String
  pub mapping_key : String
  pub partition_key : String
  pub relay_item_id : Option String
  pub expected_source_revision : Option String
  pub result_json : Option String
  pub completed_at : Option ℕ

-- `depends_on_operation_id` must be completed before `operation_id` starts.
pub record Dependency : Type 0 where
  pub operation_id : String
  pub depends_on_operation_id : String

pub record Database : Type 0 where
  pub mappings : List Mapping
  pub inbox_events : List (Row InboxColumns)
  pub outbox_operations : List (Row OutboxColumns)
  pub operation_dependencies : List Dependency
