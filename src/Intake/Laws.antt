-- ===== src/Intake/Laws.antt =====
-- What a Gateway event adds to the inbox.
use Prim.Native.String.{◌++◌ as ◌<>◌}
use forum_relay.Common.{
  some_inj, ◌≡◌, ◌≢◌, ap, text_iff, ◌⊎◌, inl, inr, refl, subst, ◌==◌, string_eq, String, false,
  List, [], ◌∷◌, ◌++◌, Option, none, some, any, find, arith, Bool-cases, Option-cases,
}
use forum_relay.Common.Json.{Json}
use forum_relay.Schema.Jobs.{Row, InboxColumns}
use forum_relay.Jobs.{Codec, insert_or_ignore, clashes}
use forum_relay.Jobs.Inbox.{enqueue_inbox}
use forum_relay.Config.{ForumMappingConfig}
use forum_relay.Relay.Links.{LinkTable, is_some}
use forum_relay.Intake.Origin.{
  Author, DiscordMessageOrigin, is_set, is_text, is_bot_or, should_ignore_discord_message,
}
use forum_relay.Intake.{
  ThreadEventKind, GatewayEvent, thread_event, message_created, message_updated, message_deleted,
  Intake, Draw, cached, mapping_of, mapping_for_forum, mapping_for_thread, enqueue_event,
  enqueue_mapped, enqueue_for_thread, noted, thread_kind, handle, created, updated, deleted,
}

-- The thread of an event.
abbrev pub thread_of : GatewayEvent → String
thread_of (thread_event kind thread parent payload) = thread
thread_of (message_created message channel id payload) = channel
thread_of (message_updated message channel id payload) = channel
thread_of (message_deleted channel id payload) = channel

-- The message is a person's: no webhook posted it, it answers no interaction, its author, if known, is
-- neither a bot nor the relay's user, and the relay is not the application behind it.
pub record IsPersonal (client : String) (m : DiscordMessageOrigin) : Type 0 where
  pub no_webhook : (m.webhook_id ≡ none) ⊎ (m.webhook_id ≡ some "")
  pub no_interaction : m.has_interaction_metadata ≡ false
  pub is_human : (a : Author) → m.author ≡ some a → (a.bot ≡ false) × (a.id ≢ client)
  pub is_foreign : m.application_id ≢ some client

-- The message of an event that is about a new or edited one is a person's.
abbrev pub IsPersons : String → GatewayEvent → Type 0
IsPersons client (message_created message channel id payload) = IsPersonal client message
IsPersons client (message_updated message channel id payload) = IsPersonal client message
IsPersons client _ = Unit

unset : (o : Option String) → is_set o ≡ false → (o ≡ none) ⊎ (o ≡ some "")
unset none h = inl refl
unset (some s) h = inr (ap some (ground (arith, text_iff s "", h)))

other_text : (o : Option String) (s : String) → is_text o s ≡ false → o ≢ some s
other_text none s h e = cc
other_text (some t) s h e = ground (arith, text_iff t s, h, e)

human :
    (o : Option Author) (client : String)
    → is_bot_or o client ≡ false
    → (a : Author) → o ≡ some a
    → (a.bot ≡ false) × (a.id ≢ client)
human none client h a e = cc
human (some b) client h a e =
    subst (λ x. (x.bot ≡ false) × (x.id ≢ client)) (some_inj e)
      (ground (arith, h), λ k. ground (arith, text_iff b.id client, h, k))

-- What is not ignored is a person's.
should_ignore_discord_message-IsPersonal :
    (m : DiscordMessageOrigin) (client : String)
    → should_ignore_discord_message m client ≡ false
    → IsPersonal client m
unfolding should_ignore_discord_message
should_ignore_discord_message-IsPersonal m client h = record {
  no_webhook = unset m.webhook_id (ground (arith, h));
  no_interaction = ground (arith, h);
  is_human = human m.author client (ground (arith, h));
  is_foreign = other_text m.application_id client (ground (arith, h));
}

-- The rows are as before, or one was added for the thread.
abbrev pub AddsOne : String → List (Row InboxColumns) → List (Row InboxColumns) → Type 0
AddsOne thread rows rows' =
    (rows' ≡ rows)
    ⊎ ((r : Row InboxColumns) × (rows' ≡ rows ++ r ∷ [])
        × (r.columns.partition_key ≡ some ("discord:thread:" <> thread)))

insert-AddsOne :
    (thread : String) (new : Row InboxColumns) (rows : List (Row InboxColumns))
    → new.columns.partition_key ≡ some ("discord:thread:" <> thread)
    → AddsOne thread rows (insert_or_ignore new rows).0
unfolding insert_or_ignore
insert-AddsOne thread new rows named = elim (Bool-cases (any (clashes new) rows)) [
  | inl e ↦ rw (e, insert_or_ignore) (inl refl)
  | inr e ↦ rw (e, insert_or_ignore) (inr (new, refl, named))
]

module _ (codec : Codec) (hash : Json → String) (client : String)
    (mappings : List (String × ForumMappingConfig)) (links : LinkTable) (d : Draw) where
  enqueue_event-AddsOne :
      (key kind thread source : String) (payload : Json) (s : Intake)
      → AddsOne thread s.database.inbox_events
          (enqueue_event codec hash client mappings links d key kind thread source payload
            s).database.inbox_events
  unfolding enqueue_event enqueue_inbox
  enqueue_event-AddsOne key kind thread source payload s =
      insert-AddsOne thread _ s.database.inbox_events refl

  mapped-AddsOne :
      (kind thread source : String) (payload : Json) (found : Option String × Intake)
      (rows : List (Row InboxColumns))
      → found.1.database.inbox_events ≡ rows
      → AddsOne thread rows
          (enqueue_mapped codec hash client mappings links d kind thread source payload
            found).database.inbox_events
  mapped-AddsOne kind thread source payload (none, s) rows same = inl same
  mapped-AddsOne kind thread source payload (some key, s) rows same =
      elim (Bool-cases (key == "")) [
        | inl e ↦ rw e (inl same)
        | inr e ↦ rw e (
            subst
              (λ rs.
                AddsOne thread rs
                  (enqueue_event codec hash client mappings links d key kind thread source payload
                    s).database.inbox_events)
              same (enqueue_event-AddsOne key kind thread source payload s))
      ]

  lookup_keeps :
      (thread : String) (s : Intake)
      → (mapping_for_thread codec hash client mappings links thread s).1.database.inbox_events
        ≡ s.database.inbox_events
  unfolding mapping_for_thread
  lookup_keeps thread s =
      elim (Option-cases (
        cached codec hash client mappings links
          (find (λ entry. entry.0 == thread) s.thread_mappings))) [
            | inr (key, e) ↦ ground (arith, e)
            | inl e ↦
                elim (Option-cases (
                  mapping_of codec hash client mappings links
                    (find (λ r. is_some thread r.link.discord_thread_id) links.rows))) [
                      | inr (key, f) ↦ ground (arith, e, f)
                      | inl f ↦ ground (arith, e, f)
                    ]
          ]

  thread-AddsOne :
      (kind thread source : String) (payload : Json) (s : Intake)
      → AddsOne thread s.database.inbox_events
          (enqueue_for_thread codec hash client mappings links d kind thread source payload
            s).database.inbox_events
  unfolding enqueue_for_thread
  thread-AddsOne kind thread source payload s =
      mapped-AddsOne kind thread source payload
        (mapping_for_thread codec hash client mappings links thread s) s.database.inbox_events
        (lookup_keeps thread s)

  noted-AddsOne :
      (kind : ThreadEventKind) (thread key : String) (payload : Json) (s : Intake)
      → AddsOne thread s.database.inbox_events
          (enqueue_event codec hash client mappings links d key
            (thread_kind kind)
            thread
            thread
            payload
            (noted codec hash client mappings links kind thread key s)).database.inbox_events
  noted-AddsOne created thread key payload s =
      enqueue_event-AddsOne key "thread.create" thread thread payload
        (noted codec hash client mappings links created thread key s)
  noted-AddsOne updated thread key payload s =
      enqueue_event-AddsOne key "thread.update" thread thread payload
        (noted codec hash client mappings links updated thread key s)
  noted-AddsOne deleted thread key payload s =
      enqueue_event-AddsOne key "thread.delete" thread thread payload s

  -- A Gateway event leaves the rows of the inbox and adds at most one, in the partition of its thread; and
  -- a new or edited message changes nothing unless it is a person's: no webhook posted it, it answers no
  -- interaction, its author, if known, is neither a bot nor the relay's user, and the relay is not the
  -- application behind it.
  pub handle-AddsOne :
      (e : GatewayEvent) (s : Intake)
      → AddsOne
          (thread_of e)
          s.database.inbox_events
          (handle codec hash client mappings links d e s).database.inbox_events
        × (IsPersons client e ⊎ (handle codec hash client mappings links d e s ≡ s))
  unfolding handle
  handle-AddsOne (thread_event kind thread parent payload) s = (
    elim (Option-cases (mapping_for_forum codec hash client mappings links parent)) [
      | inl e ↦ rw (e, handle) (inl refl)
      | inr (key, e) ↦ rw (e, handle) (noted-AddsOne kind thread key payload s)
    ],
    inl tt,
  )
  handle-AddsOne (message_created message channel id payload) s =
      elim (Bool-cases (should_ignore_discord_message message client)) [
        | inl e ↦ rw (e, handle) (inl refl, inr refl)
        | inr e ↦
            rw (e, handle)
              (
                thread-AddsOne "message.create" channel id payload s,
                inl (should_ignore_discord_message-IsPersonal message client e),
              )
      ]
  handle-AddsOne (message_updated message channel id payload) s =
      elim (Bool-cases (should_ignore_discord_message message client)) [
        | inl e ↦ rw (e, handle) (inl refl, inr refl)
        | inr e ↦
            rw (e, handle)
              (
                thread-AddsOne "message.update" channel id payload s,
                inl (should_ignore_discord_message-IsPersonal message client e),
              )
      ]
  handle-AddsOne (message_deleted channel id payload) s =
      (thread-AddsOne "message.delete" channel id payload s, inl tt)
