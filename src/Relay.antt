-- ===== src/Relay.antt =====
-- db/relay-repository.ts: the links between issues and threads, the relayed items, the messages that
-- show them and their attachments. The rows are those of `issue_thread_links`, `relay_items`,
-- `relay_segments`, `revision_shadows` and `attachment_links` in db/schema.ts. Columns whose values the
-- code's types enumerate have those types, so the readers' checks of them are not repeated. A statement
-- that a UNIQUE index refuses throws; the foreign keys are left out.
pub mod Links
pub mod Items
pub mod Sources
pub mod Refresh
pub mod Segments
pub mod Attachments
pub mod Tags
use forum_relay.Common.{ℕ, String, Bool, List, Option}
use forum_relay.Retry.{Thrown}

pub data IssueState : Type 0 where
  open_issue closed_issue : IssueState

pub data Platform : Type 0 where
  discord github : Platform

pub record GitHubIssueIdentity : Type 0 where
  pub id : ℕ
  pub locked : Bool
  pub node_id : String
  pub number : ℕ
  pub state : IssueState
  pub title : String

pub record IssueThreadLink : Type 0 where
  pub discord_thread_id : Option String
  pub full_title : String
  pub github_issue_id : ℕ
  pub github_issue_node_id : String
  pub github_issue_number : ℕ
  pub id : ℕ
  pub locked : Bool
  pub mapping_key : String
  pub state : IssueState
  pub status : String

-- A row of `issue_thread_links`: the link and the columns that `toLink` does not read.
pub record LinkRow : Type 0 where
  pub link : IssueThreadLink
  pub previous_discord_thread_ids_json : String
  pub created_at : ℕ
  pub updated_at : ℕ

pub record RelayAuthor : Type 0 where
  pub avatar_url : Option String
  pub display_name : String
  pub id : String
  pub username : String

pub record UpsertRelayItem : Type 0 where
  pub author : RelayAuthor
  pub destination_kind : String
  pub destination_platform : Platform
  pub issue_thread_link_id : ℕ
  pub mapping_key : String
  pub parent_source_id : Option String
  pub source_body : String
  pub source_id : String
  pub source_kind : String
  pub source_platform : Platform
  pub source_revision : String

pub record RelayItem : Type 0 where
  pub author : RelayAuthor
  pub destination_id : Option String
  pub destination_kind : String
  pub destination_platform : Platform
  pub id : String
  pub issue_thread_link_id : ℕ
  pub mapping_key : String
  pub render_hash : Option String
  pub source_body : String
  pub source_id : String
  pub source_kind : String
  pub source_platform : Platform
  pub state : String

-- A row of `relay_items`: the item and the columns that `toRelayItem` does not read.
pub record ItemRow : Type 0 where
  pub item : RelayItem
  pub parent_source_id : Option String
  pub source_revision : String
  pub source_hash : String
  pub canonical_hash : String
  pub deleted_at : Option ℕ
  pub created_at : ℕ
  pub updated_at : ℕ

pub record SegmentRow : Type 0 where
  pub relay_item_id : String
  pub position : ℕ
  pub discord_message_id : String
  pub render_hash : String
  pub created_at : ℕ
  pub updated_at : ℕ

pub record ShadowRow : Type 0 where
  pub relay_item_id : String
  pub discord_message_id : String
  pub canonical_hash : String
  pub created_at : ℕ
  pub updated_at : ℕ

pub record StoredAttachment : Type 0 where
  pub content_type : Option String
  pub filename : String
  pub id : String
  pub proxy_hash : Option String
  pub proxy_url : Option String
  pub size : Option ℕ
  pub source_attachment_id : String
  pub source_url : String
  pub state : String

-- A row of `attachment_links`; the source platform is Discord in each.
pub record AttachmentRow : Type 0 where
  pub attachment : StoredAttachment
  pub relay_item_id : String
  pub last_error_code : Option String
  pub created_at : ℕ
  pub updated_at : ℕ

abbrev pub unique_failed : Thrown
unique_failed = Thrown.plain "SQLITE_CONSTRAINT: UNIQUE constraint failed"
