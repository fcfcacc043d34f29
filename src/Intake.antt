-- ===== src/Intake.antt =====
-- discord/intake.ts, discord/message-origin.ts, discord/event-idempotency.ts and
-- discord/webhook-selection.ts: which Gateway events enter the inbox, and which webhooks are reused.
-- `hash` is SHA-256 of a value's JSON; the UUIDs are arguments. A payload is JSON already, so that its
-- round trip through text is left out, and a failure to persist, which is only logged, too.
pub mod Origin
pub mod Laws
use Prim.Native.String.{◌++◌ as ◌<>◌}
use forum_relay.Common.{
  ℕ, String, Bool, true, false, not, ◌&&◌, ◌||◌, List, [], ◌∷◌, ◌++◌, Option, none, some, find,
  ◌==◌, string_eq, if◌then◌else◌,
}
use forum_relay.Common.Json.{Json}
use forum_relay.Schema.Jobs.{Database, JobPlatform}
use forum_relay.Jobs.{Codec}
use forum_relay.Jobs.Inbox.{EnqueueInbox, enqueue_inbox}
use forum_relay.Config.{ForumMappingConfig}
use forum_relay.Relay.{LinkRow}
use forum_relay.Relay.Links.{LinkTable, is_some}
use forum_relay.Intake.Origin.{DiscordMessageOrigin, should_ignore_discord_message}

pub data ThreadEventKind : Type 0 where
  created updated deleted : ThreadEventKind

-- What the Gateway dispatches: its ids, and the payload that is stored.
pub data GatewayEvent : Type 0 where
  thread_event : ThreadEventKind → String → Option String → Json → GatewayEvent
  message_created message_updated : DiscordMessageOrigin → String → String → Json → GatewayEvent
  message_deleted : String → String → Json → GatewayEvent

abbrev pub thread_kind : ThreadEventKind → String
thread_kind created = "thread.create"
thread_kind updated = "thread.update"
thread_kind deleted = "thread.delete"

unfoldable pub discord_event_idempotency_key :
    (Json → String) → String → String → Json → String → String
discord_event_idempotency_key hash kind source payload occurrence =
    if kind == "message.update" || kind == "thread.update"
    then "discord:" <> kind <> ":" <> source <> ":" <> occurrence
    else "discord:" <> kind <> ":" <> source <> ":" <> hash payload

-- The database, and the cache `#threadMappings` as its entries, the newest first.
pub record Intake : Type 0 where
  pub database : Database
  pub thread_mappings : List (String × String)

-- The values that one dispatch draws.
pub record Draw : Type 0 where
  pub id : String
  pub correlation : String
  pub occurrence : String
  pub now : ℕ

module _ (codec : Codec) (hash : Json → String) (client_id : String)
    (mappings : List (String × ForumMappingConfig)) (links : LinkTable) where
  -- The key that is found; an empty one counts as none.
  abbrev pub first_of : Option (String × ForumMappingConfig) → Option String
  first_of none = none
  first_of (some entry) = if entry.0 == "" then none else some entry.0

  -- `#mappingForForum`
  unfoldable pub mapping_for_forum : Option String → Option String
  mapping_for_forum none = none
  mapping_for_forum (some forum) =
      if forum == ""
      then none
      else first_of (find (λ entry. entry.1.forum_channel_id == forum) mappings)

  abbrev pub cached : Option (String × String) → Option String
  cached none = none
  cached (some entry) = if entry.1 == "" then none else some entry.1

  abbrev pub mapping_of : Option LinkRow → Option String
  mapping_of none = none
  mapping_of (some r) = some r.link.mapping_key

  abbrev pub remember : String → String → Intake → Intake
  remember thread key s = record s { thread_mappings = (thread, key) ∷ s.thread_mappings }

  -- `#mappingForThread`: the mapping, and the cache with what was found in the links.
  unfoldable pub mapping_for_thread : String → Intake → Option String × Intake
  mapping_for_thread thread s =
      elim (cached (find (λ entry. entry.0 == thread) s.thread_mappings)) [
        | some key ↦ (some key, s)
        | none ↦
            elim (mapping_of (find (λ r. is_some thread r.link.discord_thread_id) links.rows)) [
              | some key ↦ (some key, remember thread key s)
              | none ↦ (none, s)
            ]
      ]

  -- `#enqueue`
  unfoldable pub enqueue_event : Draw → String → String → String → String → Json → Intake → Intake
  unfolding discord_event_idempotency_key
  enqueue_event d mapping_key kind thread source payload s = record s {
    database =
        (enqueue_inbox codec s.database
          (record {
            correlation_id = none;
            event_kind = kind;
            idempotency_key = discord_event_idempotency_key hash kind source payload d.occurrence;
            mapping_key = some mapping_key;
            partition_key = some ("discord:thread:" <> thread);
            payload = payload;
            platform = JobPlatform.discord;
          })
          d.id d.correlation d.now).0;
  }

  abbrev pub enqueue_mapped :
      Draw → String → String → String → Json → Option String × Intake → Intake
  enqueue_mapped d kind thread source payload (none, s) = s
  enqueue_mapped d kind thread source payload (some key, s) =
      if key == "" then s else enqueue_event d key kind thread source payload s

  -- `#enqueueForThread`; an empty mapping key is none.
  unfoldable pub enqueue_for_thread : Draw → String → String → String → Json → Intake → Intake
  unfolding mapping_for_thread enqueue_event
  enqueue_for_thread d kind thread source payload s =
      enqueue_mapped d kind thread source payload (mapping_for_thread thread s)

  -- A deleted thread is not remembered.
  abbrev pub noted : ThreadEventKind → String → String → Intake → Intake
  noted deleted thread key s = s
  noted created thread key s = remember thread key s
  noted updated thread key s = remember thread key s

  -- The handlers that `register` sets.
  unfoldable pub handle : Draw → GatewayEvent → Intake → Intake
  unfolding mapping_for_forum enqueue_event enqueue_for_thread
  handle d (thread_event kind thread parent payload) s = elim (mapping_for_forum parent) [
    | none ↦ s
    | some key ↦
        enqueue_event d key (thread_kind kind) thread thread payload (noted kind thread key s)
  ]
  handle d (message_created message channel id payload) s =
      if should_ignore_discord_message message client_id
      then s
      else enqueue_for_thread d "message.create" channel id payload s
  handle d (message_updated message channel id payload) s =
      if should_ignore_discord_message message client_id
      then s
      else enqueue_for_thread d "message.update" channel id payload s
  handle d (message_deleted channel id payload) s =
      enqueue_for_thread d "message.delete" channel id payload s
