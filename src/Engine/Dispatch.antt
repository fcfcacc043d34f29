-- ===== src/Engine/Dispatch.antt =====
-- relay/engine.ts: `processInbox` and `processOutbox`, which choose the method for a job.
use Prim.Native.String.{◌++◌ as ◌<>◌}
use forum_relay.Common.{String, Bool, true, false, ◌&&◌, none, some, ◌==◌, string_eq, if◌then◌else◌}
use forum_relay.Common.Json.{Json}
use forum_relay.Common.Texts.{starts_with}
use forum_relay.Schema.Jobs.{JobPlatform}
use forum_relay.Retry.{FailureCategory}
use forum_relay.Jobs.Inbox.{ClaimedJob}
use forum_relay.Jobs.Outbox.{ClaimedOperation}
use forum_relay.Engine.{Env, M, ◌>>=◌, pure, lift, raise, truthy}
use forum_relay.Engine.Payloads.{required_object}
use forum_relay.Engine.Messages.{sync_discord_item, delete_discord_item}
use forum_relay.Engine.Comments.{
  create_github_issue, sync_github_item, delete_github_item, upload_attachment,
}
use forum_relay.Engine.Closing.{sync_github_lifecycle}
use forum_relay.Engine.Lifecycle.{sync_discord_lifecycle}
use forum_relay.Engine.Events.{process_github, process_github_project}
use forum_relay.Engine.Gateway.{process_discord}

abbrev is_github : JobPlatform → Bool
is_github JobPlatform.github = true
is_github _ = false

module _ (env : Env) where
  abbrev process_for : ClaimedJob → String → M (Unit {0})
  process_for job mapping_key = elim job.platform [
    | JobPlatform.github ↦ do
      payload ← lift (required_object (some job.payload) "GitHub webhook")
      process_github env mapping_key payload job.correlation_id job.event_kind
    | JobPlatform.discord ↦ do
      payload ← lift (required_object (some job.payload) "Discord event")
      process_discord env mapping_key payload job.event_kind
    | _ ↦ pure tt
  ]

  -- `processInbox`; a job without a mapping, or of another platform, does nothing.
  unfoldable pub process_inbox : ClaimedJob → M (Unit {0})
  unfolding required_object truthy process_github process_discord process_github_project
  process_inbox job =
      if is_github job.platform && starts_with "projects_v2_item." job.event_kind
      then (do
        payload ← lift (required_object (some job.payload) "GitHub Project webhook")
        process_github_project env job.event_kind payload job.correlation_id)
      else elim (truthy job.mapping_key) [
        | none ↦ pure tt
        | some mapping_key ↦ process_for job mapping_key
      ]

  -- `processOutbox`
  unfoldable pub process_outbox : ClaimedOperation → M Json
  unfolding required_object sync_discord_item delete_discord_item sync_discord_lifecycle
      create_github_issue sync_github_item delete_github_item sync_github_lifecycle
      upload_attachment
  process_outbox operation = do
    payload ← lift (required_object (some operation.payload) "outbox operation")
    carried payload operation.operation_kind
    where
      carried : Json → String → M Json
      carried payload kind =
          if kind == "discord.item.sync"
          then sync_discord_item env operation.mapping_key payload
          else if kind == "discord.item.delete"
          then delete_discord_item env operation.mapping_key payload
          else if kind == "discord.issue.lifecycle"
          then sync_discord_lifecycle env operation.mapping_key payload
          else if kind == "github.issue.create"
          then create_github_issue env operation.mapping_key payload
          else if kind == "github.item.sync"
          then sync_github_item env operation.mapping_key payload
          else if kind == "github.item.delete"
          then delete_github_item env operation.mapping_key payload
          else if kind == "github.issue.lifecycle"
          then sync_github_lifecycle env operation.mapping_key payload
          else if kind == "media.attachment.upload"
          then upload_attachment env operation.mapping_key payload operation.correlation_id
          else raise ("Unsupported outbox operation " <> kind <> ".") FailureCategory.invalid
              "OPERATION_UNSUPPORTED"
