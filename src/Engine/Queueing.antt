-- ===== src/Engine/Queueing.antt =====
-- relay/engine.ts: the operations that the engine enqueues, and the attachments that it stores.
use Prim.Native.String.{◌++◌ as ◌<>◌}
use forum_relay.Common.{String, List, [], Option, none, some, ◌==◌, string_eq}
use forum_relay.Common.Json.{Json, str, num, arr, obj, Fields, field, end}
use forum_relay.Schema.Jobs.{JobPlatform}
use forum_relay.Jobs.Outbox.{EnqueueOutbox}
use forum_relay.Relay.{IssueThreadLink, RelayItem, StoredAttachment}
use forum_relay.Relay.Attachments.{Attachment}
use forum_relay.Engine.{Env, M, ◌>>=◌, ◌>>◌, pure, each, when, truthy}
use forum_relay.Engine.Payloads.{json_strings}
use forum_relay.Engine.Decisions.{discord_sync_fingerprint}
use forum_relay.Engine.Store.{fresh, enqueue_operation, store_attachment, attachments_of}

-- An operation on an item, in its partition.
abbrev pub item_operation :
    String → String → JobPlatform → String → String → String → Fields → String → EnqueueOutbox
item_operation mapping_key kind platform key partition item_id extra correlation = record {
  correlation_id = correlation;
  depends_on = [];
  expected_source_revision = none;
  idempotency_key = key;
  mapping_key = mapping_key;
  operation_kind = kind;
  partition_key = partition;
  payload = obj extra;
  platform = platform;
  relay_item_id = some item_id;
}

-- The payload `{ relayItemId }`.
abbrev pub item_payload : String → Fields
item_payload item_id = field "relayItemId" (str item_id) end

module _ (env : Env) where
  abbrev pub link_partition : IssueThreadLink → String
  link_partition link = "link:" <> env.show link.id

  -- `#enqueueDiscordSync`
  unfoldable pub enqueue_discord_sync :
      String
      → IssueThreadLink
      → RelayItem
      → String
      → String
      → String
      → List String
      → M (Option String)
  enqueue_discord_sync mapping_key link item jump_url repository title labels = do
    correlation ← fresh env
    enqueue_operation env (
        item_operation mapping_key "discord.item.sync" JobPlatform.discord
          ("discord:sync:"
            <> item.id
            <> ":"
            <> discord_sync_fingerprint env item.source_body jump_url labels repository title)
          (link_partition link) item.id
          (field "jumpUrl" (str jump_url) (
            field "labels" (arr (json_strings labels)) (
              field "relayItemId" (str item.id)
                (field "repository" (str repository) (field "title" (str title) end)))))
          correlation)

  -- `#enqueueGitHubSync`
  unfoldable pub enqueue_github_sync :
      String → IssueThreadLink → RelayItem → String → List String → M (Option String)
  enqueue_github_sync mapping_key link item revision dependencies = do
    correlation ← fresh env
    enqueue_operation env
        (record (item_operation mapping_key "github.item.sync" JobPlatform.github
          ("github:sync:" <> item.id <> ":" <> revision) (link_partition link) item.id
          (item_payload item.id) correlation) { depends_on = dependencies })

  -- An operation on a link, which names no item.
  abbrev link_operation :
      String → String → JobPlatform → String → IssueThreadLink → Fields → String → EnqueueOutbox
  link_operation mapping_key kind platform key link extra correlation =
      record (item_operation mapping_key kind platform key (link_partition link) "" extra
        correlation) { relay_item_id = none }

  abbrev lifecycle_payload : String → Option String → IssueThreadLink → Json → Fields
  lifecycle_payload action none link payload =
      field "action" (str action) (field "linkId" (num link.id) (field "webhook" payload end))
  lifecycle_payload action (some kind) link payload =
      field "action" (str action) (
        field "activityKind" (str kind)
          (field "linkId" (num link.id) (field "webhook" payload end)))

  -- `#enqueueLifecycle`; each caller gives an event id, so `eventRevision` is never called.
  unfoldable pub enqueue_lifecycle :
      String → IssueThreadLink → String → Json → String → Option String → M (Unit {0})
  unfolding truthy
  enqueue_lifecycle mapping_key link action payload event_id activity_kind = do
    correlation ← fresh env
    enqueue_operation env (
        link_operation mapping_key "discord.issue.lifecycle" JobPlatform.discord
          ("discord:lifecycle:" <> env.show link.id <> ":" <> action <> ":" <> event_id) link
          (lifecycle_payload action (truthy activity_kind) link payload) correlation)
    pure tt

  -- `#enqueueGitHubLifecycle`
  unfoldable pub enqueue_github_lifecycle :
      String → IssueThreadLink → String → Fields → List String → M (Option String)
  enqueue_github_lifecycle mapping_key link action extra dependencies = do
    correlation ← fresh env
    enqueue_operation env
        (record (link_operation mapping_key "github.issue.lifecycle" JobPlatform.github
          ("github:lifecycle:bootstrap:" <> env.show link.id <> ":" <> action) link
          (field "action" (str action) (field "linkId" (num link.id) extra)) correlation) {
            depends_on = dependencies;
          })

  -- The operation that deletes what shows an item.
  unfoldable pub enqueue_delete :
      String → String → JobPlatform → String → String → String → M (Unit {0})
  enqueue_delete mapping_key kind platform key partition item_id = do
    correlation ← fresh env
    enqueue_operation env (
        item_operation mapping_key kind platform key partition item_id (item_payload item_id)
          correlation)
    pure tt

  -- The reopening of a closed issue by a message.
  unfoldable pub enqueue_reopen : String → IssueThreadLink → String → Json → M (Option String)
  enqueue_reopen mapping_key link revision actor = do
    correlation ← fresh env
    enqueue_operation env (
        link_operation mapping_key "github.issue.lifecycle" JobPlatform.github
          ("github:lifecycle:" <> env.show link.id <> ":reopen:message:" <> revision) link
          (field "action" (str "reopen") (field "actor" actor (field "linkId" (num link.id) end)))
          correlation)

  abbrev pub upload_operation : RelayItem → StoredAttachment → String → EnqueueOutbox
  upload_operation item attachment =
      item_operation item.mapping_key "media.attachment.upload" JobPlatform.media
        ("media:attachment:"
          <> attachment.source_attachment_id
          <> ":"
          <> env.hash attachment.source_url)
        ("attachment:" <> attachment.id) item.id
        (field "attachmentId" (str attachment.id)
          (field "relayItemId" (str item.id) (field "sourceUrl" (str attachment.source_url) end)))

  abbrev pub upload : RelayItem → StoredAttachment → M (Unit {0})
  upload item attachment = do
    correlation ← fresh env
    enqueue_operation env (upload_operation item attachment correlation)
    pure tt

  -- The upload of an attachment, if it is pending.
  unfoldable pub enqueue_upload : RelayItem → StoredAttachment → M (Unit {0})
  enqueue_upload item attachment = when (attachment.state == "PENDING") (upload item attachment)

  -- `#persistAttachments`
  unfoldable pub persist_attachments : RelayItem → List Attachment → M (Unit {0})
  unfolding enqueue_upload
  persist_attachments item given = do
    each given (store_attachment env item.id)
    stored ← attachments_of item.id
    each stored (enqueue_upload item)
