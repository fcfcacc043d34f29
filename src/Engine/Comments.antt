-- ===== src/Engine/Comments.antt =====
-- relay/engine.ts: what GitHub shows of a Discord message: `#createGitHubIssue`, `#syncGitHubItem`,
-- `#deleteGitHubItem`, `#recordConflict` and `#uploadAttachment`.
pub mod Writes
pub mod Frames
pub mod Rerun
pub mod Posted
use Prim.Native.String.{◌++◌ as ◌<>◌}
use forum_relay.Common.{
  ℕ, String, Bool, true, false, List, [], ◌∷◌, map, Option, none, some, ◌==◌, string_eq,
  if◌then◌else◌,
}
use forum_relay.Common.Json.{Json, str, num, bool, arr, obj, field, end, nil, cons}
use forum_relay.Schema.Jobs.{JobPlatform}
use forum_relay.Retry.{Result, ok, err}
use forum_relay.Intake.Origin.{member}
use forum_relay.Transitions.{ConflictDecision, apply_discord, preserve_github, decide_discord_edit}
use forum_relay.Relay.{
  IssueThreadLink, RelayItem, Platform, StoredAttachment, UpsertRelayItem, GitHubIssueIdentity,
  open_issue,
}
use forum_relay.Relay.Attachments.{Attachment}
use forum_relay.Engine.{
  Env, M, World, after, ◌>>=◌, ◌>>◌, pure, lift, rescue, rescued, when, truthy, Call, Segment,
  IssueChanges, NewIssue, NewComment, CreatedIssue, CreatedComment, ProxiedMedia, DiscordAttachment,
  DiscordToGitHubInput,
}
use forum_relay.Engine.Payloads.{
  required_object, required_string, string_array, or_value, parse_discord_message, DiscordMessage,
}
use forum_relay.Engine.Decisions.{render_attachment}
use forum_relay.Engine.Store.{
  ask, tell, find_thread_link, required_relay_item, required_link, create_link, upsert_item,
  set_item_destination, set_item_hash, save_shadow, mark_item_deleted, attachments_of,
  finish_attachment, enqueue_operation,
}
use forum_relay.Engine.Queueing.{
  persist_attachments, enqueue_github_sync, item_operation, item_payload, link_partition,
}
use forum_relay.Engine.Messages.{is_not_found, deleted_result}

abbrev pub no_issue_changes : IssueChanges
no_issue_changes = record {
  body = none;
  duplicate_issue_id = none;
  labels = none;
  state = none;
  state_reason = none;
  title = none;
}

-- An attachment of a message that is not proxied yet.
abbrev pub pending_attachment : Attachment → DiscordAttachment
pending_attachment a = record {
  content_type = a.content_type;
  filename = a.filename;
  proxy_url = none;
  size = or_value a.size 0;
  state = "pending";
  url = a.url;
}

-- A message of the relay's own.
abbrev pub notice : String → Segment
notice content = record {
  avatar_url = none;
  components = arr (cons (obj (field "type" (num 10) (field "content" (str content) end))) nil);
  files = [];
  username = "Forum Relay";
}

abbrev conflict_notice : String
conflict_notice =
    "Forum Relay kept the newer GitHub revision and saved this Discord edit as a revision shadow. "
    <> "An administrator can inspect and restore it explicitly."

module _ (env : Env) where
  -- `renderDiscordToGitHub`
  abbrev pub rendered_body : List DiscordAttachment → RelayItem → String → String
  rendered_body attachments item thread_id = env.render.discord_to_github (record {
    attachments = attachments;
    author = item.author;
    content = item.source_body;
    guild_id = env.config.guild_id;
    thread_id = thread_id;
    message_id = item.source_id;
  })

  abbrev new_body : DiscordMessage → String → String
  new_body message thread_id = env.render.discord_to_github (record {
    attachments = map pending_attachment message.attachments;
    author = message.author;
    content = message.content;
    guild_id = env.config.guild_id;
    thread_id = thread_id;
    message_id = message.id;
  })

  -- `{ issueId, issueNumber }`
  abbrev pub issue_result : ℕ → ℕ → Json
  issue_result id number = obj (field "issueId" (num id) (field "issueNumber" (num number) end))

  -- `{ issueId, issueNumber, url }`
  abbrev pub created_result : CreatedIssue → Json
  created_result created = obj (
      field "issueId" (num created.id)
        (field "issueNumber" (num created.number) (field "url" (str created.url) end)))

  abbrev starter_input : String → ℕ → DiscordMessage → UpsertRelayItem
  starter_input mapping_key link_id message = record {
    author = message.author;
    destination_kind = "issue-body";
    destination_platform = Platform.github;
    issue_thread_link_id = link_id;
    mapping_key = mapping_key;
    parent_source_id = none;
    source_body = message.content;
    source_id = message.id;
    source_kind = "thread-starter";
    source_platform = Platform.discord;
    source_revision = message.revision;
  }

  -- The link takes the ids of the issue; it is open and not locked.
  abbrev created_identity : CreatedIssue → String → GitHubIssueIdentity
  created_identity created title = record {
    id = created.id;
    locked = false;
    node_id = created.node_id;
    number = created.number;
    state = open_issue;
    title = title;
  }

  -- What follows when the issue and its link are there.
  abbrev relay_starter : String → DiscordMessage → String → CreatedIssue → IssueThreadLink → M Json
  relay_starter mapping_key message thread_id created link = do
    item ← upsert_item env (starter_input mapping_key link.id message)
    set_item_destination env item.id (env.show created.id)
    set_item_hash env item.id (env.hash (new_body message thread_id))
    persist_attachments env item message.attachments
    enqueue_github_sync env mapping_key link item ("created:" <> message.revision) []
    pure (created_result created)

  abbrev new_issue : String → Json → DiscordMessage → String → String → NewIssue
  new_issue mapping_key payload message thread_id title = record {
    body = new_body message thread_id;
    labels = string_array (member payload "labels");
    mapping_key = mapping_key;
    title = title;
  }

  -- What follows when the thread has no link.
  unfoldable pub open_issue_for : String → Json → String → M Json
  unfolding required_object required_string parse_discord_message
  open_issue_for mapping_key payload thread_id = do
    raw ← lift (required_object (member payload "message") "message")
    message ← lift (parse_discord_message env raw)
    title ← lift (required_string payload "title")
    created ←
        ask (Call.create_issue (new_issue mapping_key payload message thread_id title))
          env.remote.create_issue
    link ← create_link env mapping_key thread_id title (created_identity created title)
    relay_starter mapping_key message thread_id created link

  abbrev issue_for : String → Json → String → Option IssueThreadLink → M Json
  issue_for mapping_key payload thread_id (some link) =
      pure (issue_result link.github_issue_id link.github_issue_number)
  issue_for mapping_key payload thread_id none = open_issue_for mapping_key payload thread_id

  -- `#createGitHubIssue`
  unfoldable pub create_github_issue : String → Json → M Json
  unfolding required_string
  create_github_issue mapping_key payload = do
    thread_id ← lift (required_string payload "threadId")
    existing ← find_thread_link mapping_key thread_id
    issue_for mapping_key payload thread_id existing

  abbrev notify : String → Option String → M (Unit {0})
  notify mapping_key none = pure tt
  notify mapping_key (some thread) =
      tell (Call.create_message mapping_key thread (notice conflict_notice))
        env.remote.create_message

  -- `#recordConflict`
  unfoldable pub record_conflict : String → IssueThreadLink → RelayItem → String → M (Unit {0})
  unfolding truthy
  record_conflict mapping_key link item canonical_hash = do
    save_shadow env item.id item.source_id canonical_hash
    notify mapping_key (truthy link.discord_thread_id)

  -- What is done about the text that GitHub has, of that hash.
  abbrev decided :
      String
      → IssueThreadLink
      → RelayItem
      → Call
      → String
      → Json
      → Json
      → String
      → ConflictDecision
      → M Json
  decided mapping_key link item writing body conflict done current preserve_github = do
    record_conflict mapping_key link item current
    pure conflict
  decided mapping_key link item writing body conflict done current apply_discord = do
    ask writing env.remote.done
    set_item_hash env item.id (env.hash body)
    pure done

  -- The body that GitHub has, the test, and the update or the conflict.
  abbrev pub guarded_write :
      String → IssueThreadLink → RelayItem → Call → Call → String → Json → Json → M Json
  guarded_write mapping_key link item reading writing body conflict done = do
    remote ← ask reading env.remote.body
    decided mapping_key link item writing body conflict done (env.hash remote)
        (decide_discord_edit item.render_hash (env.hash remote))

  abbrev new_comment : String → IssueThreadLink → RelayItem → String → M Json
  new_comment mapping_key link item body = do
    comment ←
        ask
          (Call.create_comment (record {
            body = body;
            issue_number = link.github_issue_number;
            mapping_key = mapping_key;
          }))
          env.remote.create_comment
    set_item_destination env item.id (env.show comment.id)
    set_item_hash env item.id (env.hash body)
    pure (obj (field "commentId" (num comment.id) (field "url" (str comment.url) end)))

  -- `#syncGitHubItem`, after the item, its link and its body are there.
  unfoldable pub write_item : String → IssueThreadLink → RelayItem → String → M Json
  unfolding record_conflict decide_discord_edit truthy
  write_item mapping_key link item body =
      if item.source_kind == "thread-starter"
      then guarded_write mapping_key link item
          (Call.issue_body mapping_key link.github_issue_number)
          (Call.update_issue mapping_key link.github_issue_number
            (record no_issue_changes { body = some body }))
          body
          (obj
            (field "conflict" (bool true) (field "issueNumber" (num link.github_issue_number) end)))
          (obj (field "issueNumber" (num link.github_issue_number) end))
      else elim (truthy item.destination_id) [
        | none ↦ new_comment mapping_key link item body
        | some destination ↦
            guarded_write mapping_key link item
              (Call.comment_body mapping_key (env.to_number destination))
              (Call.update_comment mapping_key (env.to_number destination) body) body
              (obj (
                field "commentId" (num (env.to_number destination))
                  (field "conflict" (bool true) end)))
              (obj (field "commentId" (num (env.to_number destination)) end))
      ]

  -- `#syncGitHubItem`, after the item is there.
  unfoldable pub write_relayed : String → RelayItem → M Json
  unfolding write_item
  write_relayed mapping_key item = do
    link ← required_link env item.issue_thread_link_id
    attachments ← attachments_of item.id
    write_item mapping_key link item (
        rendered_body (map render_attachment attachments) item
          (or_value link.discord_thread_id item.source_id))

  -- `#syncGitHubItem`
  unfoldable pub sync_github_item : String → Json → M Json
  unfolding write_relayed required_string
  sync_github_item mapping_key payload = do
    item_id ← lift (required_string payload "relayItemId")
    item ← required_relay_item item_id
    write_relayed mapping_key item

  -- `#deleteGitHubItem`; a comment that is gone already is no error.
  unfoldable pub delete_github_item : String → Json → M Json
  unfolding required_string truthy
  delete_github_item mapping_key payload = do
    item_id ← lift (required_string payload "relayItemId")
    item ← required_relay_item item_id
    elim (truthy item.destination_id) [
      | none ↦ do mark_item_deleted env item.id; pure (deleted_result env false)
      | some destination ↦ do
        rescue (ask (Call.delete_comment mapping_key (env.to_number destination)) env.remote.done)
            (λ e. if is_not_found e then pure tt else lift (err e))
        mark_item_deleted env item.id
        pure (deleted_result env true)
    ]

  -- `#uploadAttachment`
  unfoldable pub upload_attachment : String → Json → String → M Json
  unfolding required_string
  upload_attachment mapping_key payload correlation_id = do
    attachment_id ← lift (required_string payload "attachmentId")
    item_id ← lift (required_string payload "relayItemId")
    url ← lift (required_string payload "sourceUrl")
    result ← ask (Call.upload_attachment url) env.remote.upload_attachment
    finish_attachment env attachment_id result.hash result.url
    item ← required_relay_item item_id
    link ← required_link env item.issue_thread_link_id
    enqueue_operation env (
        item_operation mapping_key "github.item.sync" JobPlatform.github
          ("github:sync:" <> item_id <> ":attachment:" <> result.hash) (link_partition env link)
          item_id (item_payload item_id) correlation_id)
    pure (obj (field "hash" (str result.hash) (field "url" (str result.url) end)))
