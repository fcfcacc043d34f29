-- ===== src/Engine/Gateway.antt =====
-- relay/engine.ts: what an event of Discord enqueues: `#processDiscord`.
use Prim.Native.String.{◌++◌ as ◌<>◌}
use forum_relay.Common.{
  ℕ, String, Bool, false, not, ◌&&◌, List, [], ◌∷◌, Option, none, some, ◌==◌, string_eq, ℕ_eq,
  if◌then◌else◌,
}
use forum_relay.Common.Json.{Json, str, obj, field, end, Fields, arr}
use forum_relay.Common.Texts.{starts_with}
use forum_relay.Schema.Jobs.{JobPlatform}
use forum_relay.Retry.{FailureCategory}
use forum_relay.Jobs.Outbox.{EnqueueOutbox}
use forum_relay.Intake.Origin.{member, is_true, should_ignore_stored_discord_message}
use forum_relay.Relay.{IssueThreadLink, UpsertRelayItem, Platform, RelayItem, RelayAuthor}
use forum_relay.Engine.{Env, M, ◌>>=◌, ◌>>◌, pure, lift, raise, when, truthy, Call}
use forum_relay.Engine.Payloads.{
  required_object, required_string, string_array, json_strings, parse_discord_message,
  DiscordMessage,
}
use forum_relay.Engine.Decisions.{is_closed}
use forum_relay.Engine.Store.{
  ask, fresh, find_thread_link, find_item, upsert_item, labels_for, enqueue_audit,
  enqueue_operation,
}
use forum_relay.Engine.Queueing.{
  link_partition, enqueue_github_sync, enqueue_github_lifecycle, enqueue_delete, enqueue_reopen,
  persist_attachments,
}

abbrev message_item : String → ℕ → DiscordMessage → UpsertRelayItem
message_item mapping_key link_id message = record {
  author = message.author;
  destination_kind = "issue-comment";
  destination_platform = Platform.github;
  issue_thread_link_id = link_id;
  mapping_key = mapping_key;
  parent_source_id = none;
  source_body = message.content;
  source_id = message.id;
  source_kind = "forum-message";
  source_platform = Platform.discord;
  source_revision = message.revision;
}

-- A relayed author as JSON.
abbrev author_json : RelayAuthor → Json
author_json a =
    obj (elim a.avatar_url [ none ↦ named | some url ↦ field "avatarUrl" (str url) named ])
  where
    named : Fields
    named =
        field "displayName" (str a.display_name)
          (field "id" (str a.id) (field "username" (str a.username) end))

module _ (env : Env) where
  abbrev one_of : Option String → List String
  one_of none = []
  one_of (some s) = s ∷ []

  module _ (mapping_key : String) (payload : Json) where
    abbrev is_closed_state : Option Json → Bool
    is_closed_state (some (str s)) = s == "closed"
    is_closed_state _ = false

    -- `bootstrap.discord.state`
    abbrev process_thread_state : M (Unit {0})
    process_thread_state = do
      thread_id ← lift (required_string payload "threadId")
      found ← find_thread_link mapping_key thread_id
      elim found [
        | none ↦
            raise "Bootstrap thread relationship is not ready." FailureCategory.temporary
              "LINK_PENDING"
        | some link ↦ do
          close ←
              if is_closed_state (member payload "state")
              then enqueue_github_lifecycle env mapping_key link "close"
                  (field "reason" (str "completed") end) []
              else pure none
          when (is_true (member payload "locked")) (do
            enqueue_github_lifecycle env mapping_key link "lock" end (one_of (truthy close))
            pure tt)
      ]

    abbrev create_operation : String → Json → String → List String → String → EnqueueOutbox
    create_operation thread_id starter title labels correlation = record {
      correlation_id = correlation;
      depends_on = [];
      expected_source_revision = none;
      idempotency_key = "github:issue:create:discord-thread:" <> thread_id;
      mapping_key = mapping_key;
      operation_kind = "github.issue.create";
      partition_key = "discord:thread:" <> thread_id;
      payload = obj (
          field "labels" (arr (json_strings labels)) (
            field "message" starter
              (field "threadId" (str thread_id) (field "title" (str title) end))));
      platform = JobPlatform.github;
      relay_item_id = none;
    }

    -- `thread.create`
    abbrev process_thread : M (Unit {0})
    process_thread = do
      thread_id ← lift (required_string payload "id")
      found ← find_thread_link mapping_key thread_id
      elim found [
        | some link ↦ pure tt
        | none ↦ do
          fetched ← ask (Call.fetch_message thread_id thread_id) env.remote.fetch_message
          starter ← lift (required_object (some fetched) "message")
          when (not (should_ignore_stored_discord_message starter env.config.client_id)) (do
            title ← lift (required_string payload "name")
            labels ← labels_for mapping_key (string_array (member payload "applied_tags"))
            correlation ← fresh env
            enqueue_operation env (create_operation thread_id starter title labels correlation)
            pure tt)
      ]

    abbrev full_payload : String → String → String → M Json
    full_payload event_kind thread_id message_id =
        if event_kind == "message.update"
        then (do
          fetched ← ask (Call.fetch_message thread_id message_id) env.remote.fetch_message
          lift (required_object (some fetched) "message"))
        else pure payload

    abbrev reopen_if_closed : IssueThreadLink → DiscordMessage → M (List String)
    reopen_if_closed link message =
        if is_closed link.state && not link.locked
        then (do
          lifecycle ←
              enqueue_reopen env mapping_key link (message.id <> ":" <> message.revision)
                (author_json message.author)
          pure (one_of (truthy lifecycle)))
        else pure []

    -- A message of a linked thread that is there.
    unfoldable pub relay_message : String → IssueThreadLink → String → String → M (Unit {0})
    unfolding required_object parse_discord_message truthy
    relay_message event_kind link thread_id message_id = do
      full ← full_payload event_kind thread_id message_id
      message ← lift (parse_discord_message env full)
      item ← upsert_item env (message_item mapping_key link.id message)
      persist_attachments env item message.attachments
      dependencies ← reopen_if_closed link message
      enqueue_github_sync env mapping_key link item message.revision dependencies
      pure tt

    abbrev delete_relayed : IssueThreadLink → Option RelayItem → M (Unit {0})
    delete_relayed link none = pure tt
    delete_relayed link (some item) =
        enqueue_delete env mapping_key "github.item.delete" JobPlatform.github
          ("github:delete:" <> item.id) (link_partition env link) item.id

    -- `message.…`; the message that starts a thread is relayed with the thread.
    unfoldable pub process_message : String → M (Unit {0})
    unfolding relay_message required_string
    process_message event_kind =
        if not (event_kind == "message.delete")
          && should_ignore_stored_discord_message payload env.config.client_id
        then pure tt
        else do
          thread_id ← lift (required_string payload "channel_id")
          message_id ← lift (required_string payload "id")
          when (not (message_id == thread_id)) (do
            found ← find_thread_link mapping_key thread_id
            elim found [
              | none ↦
                  raise "The Discord thread relationship is not ready yet."
                    FailureCategory.temporary "LINK_PENDING"
              | some link ↦ do
                existing ← find_item mapping_key Platform.discord "forum-message" message_id
                if event_kind == "message.delete"
                    then delete_relayed link existing
                    else relay_message event_kind link thread_id message_id
            ])

    -- `#processDiscord`; the deletion of a thread is only logged.
    unfoldable pub process_discord : String → M (Unit {0})
    unfolding process_message required_object required_string truthy
    process_discord event_kind =
        if event_kind == "bootstrap.discord.state"
        then process_thread_state
        else if event_kind == "thread.create"
        then process_thread
        else if event_kind == "thread.delete"
        then (do thread_id ← lift (required_string payload "id"); pure tt)
        else if event_kind == "thread.update"
        then (do
          thread_id ← lift (required_string payload "id")
          enqueue_audit env mapping_key thread_id payload)
        else if starts_with "message." event_kind
        then process_message event_kind
        else pure tt
