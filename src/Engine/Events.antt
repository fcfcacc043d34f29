-- ===== src/Engine/Events.antt =====
-- relay/engine.ts: what an event of GitHub enqueues: `#processGitHub` and `#processGitHubProject`.
pub mod Echoes
use Prim.Native.String.{◌++◌ as ◌<>◌}
use forum_relay.Common.{
  ℕ, String, Bool, true, false, not, ◌&&◌, ◌||◌, List, [], ◌∷◌, Option, none, some, any, find,
  nat_eq, ◌==◌, string_eq, ℕ_eq, if◌then◌else◌,
}
use forum_relay.Common.Json.{Json, str, obj, field, end, Fields, json_number, arr}
use forum_relay.Common.Texts.{starts_with}
use forum_relay.Schema.Jobs.{JobPlatform}
use forum_relay.Retry.{FailureCategory}
use forum_relay.Jobs.Inbox.{EnqueueInbox}
use forum_relay.Jobs.Outbox.{EnqueueOutbox}
use forum_relay.Config.{BootstrapConfig}
use forum_relay.Intake.Origin.{member, is_true, should_ignore_stored_discord_message}
use forum_relay.Relay.{
  IssueThreadLink, GitHubIssueIdentity, IssueState, UpsertRelayItem, Platform, RelayItem,
  RelayAuthor,
}
use forum_relay.Engine.{
  Env, M, World, after, ◌>>=◌, ◌>>◌, pure, lift, raise, each, when, truthy, Call, BootstrapIssue,
  CurrentIssue,
}
use forum_relay.Engine.Payloads.{
  GitHubIssue, GitHubComment, required_object, required_string, required_number, optional_string,
  string_array, json_strings, parse_github_issue, parse_github_comment, parse_discord_message,
  DiscordMessage, repository_url, related_github_issue,
}
use forum_relay.Engine.Decisions.{
  is_closed, is_open_only, should_ignore_unlinked_github_issue, should_suppress_github_body_echo,
  reconciliation_lifecycle_repairs, reconciliation_discord_state, Repair, action_name,
  is_live_issue_activity, is_own_github_bot_event, issue_action, action_is,
}
use forum_relay.Engine.Store.{
  ask, fresh, find_link, find_thread_link, find_node_link, find_item, find_item_to, ensure_link,
  upsert_item, labels_for, enqueue_audit, enqueue_inbox_event, enqueue_operation, bootstrap_of,
}
use forum_relay.Engine.Queueing.{
  item_operation, link_partition, enqueue_discord_sync, enqueue_github_sync, enqueue_lifecycle,
  enqueue_github_lifecycle, enqueue_delete, enqueue_reopen, persist_attachments,
}
use forum_relay.Engine.Lifecycle.{starter_item}

abbrev identity_of : GitHubIssue → GitHubIssueIdentity
identity_of issue = record {
  id = issue.id;
  locked = issue.locked;
  node_id = issue.node_id;
  number = issue.number;
  state = issue.state;
  title = issue.title;
}

abbrev comment_item : String → ℕ → GitHubComment → (ℕ → String) → UpsertRelayItem
comment_item mapping_key link_id comment show = record {
  author = comment.author;
  destination_kind = "forum-message";
  destination_platform = Platform.discord;
  issue_thread_link_id = link_id;
  mapping_key = mapping_key;
  parent_source_id = none;
  source_body = comment.body;
  source_id = show comment.id;
  source_kind = "issue-comment";
  source_platform = Platform.github;
  source_revision = comment.updated_at;
}

abbrev has_thread : Option IssueThreadLink → Bool
has_thread none = false
has_thread (some link) = elim (truthy link.discord_thread_id) [ none ↦ false | some thread ↦ true ]

module _ (env : Env) where
  -- `#syncLabelDefinitions`
  unfoldable pub sync_label_definitions : String → M (Unit {0})
  sync_label_definitions mapping_key = do
    ask (Call.sync_labels mapping_key) env.remote.done
    ask (Call.sync_forum_tags mapping_key) env.remote.done

  -- `#shouldIgnoreUnthreadedGitHubIssue`
  unfoldable pub should_ignore_unthreaded_github_issue : String → GitHubIssue → Bool → Bool → M Bool
  unfolding should_ignore_unlinked_github_issue
  should_ignore_unthreaded_github_issue mapping_key issue has_discord_thread verify =
      let bootstrap = bootstrap_of env mapping_key in
      if should_ignore_unlinked_github_issue has_discord_thread issue.state bootstrap
      then pure true
      else if has_discord_thread || not verify || not (is_open_only bootstrap)
      then pure false
      else do
        current ← ask (Call.current_issue mapping_key issue.number) env.remote.current_issue
        pure (should_ignore_unlinked_github_issue false current.state bootstrap)

  module _ (mapping_key : String) (payload : Json) (event_id : String) where
    -- One historical comment of an issue that was reopened; GitHub's ids are numbers.
    abbrev replay_comment : ℕ → Json → M (Unit {0})
    replay_comment issue_id comment = do
      inner ← lift (required_object (member comment "comment") "comment")
      correlation ← fresh env
      enqueue_inbox_event env (record {
        correlation_id = some correlation;
        event_kind = "issue_comment.created";
        idempotency_key =
            "reopened-history:" <> mapping_key <> ":comment:" <> shown (json_number inner "id");
        mapping_key = some mapping_key;
        partition_key = some ("github:issue:" <> env.show issue_id);
        payload = comment;
        platform = JobPlatform.github;
      })
      pure tt
      where
        shown : Option ℕ → String
        shown none = "undefined"
        shown (some id) = env.show id

    abbrev comments_of : Option BootstrapIssue → List Json
    comments_of none = []
    comments_of (some issue) = issue.comments

    abbrev replay_history : ℕ → M (Unit {0})
    replay_history issue_id = do
      issues ← ask (Call.bootstrap_issues mapping_key) env.remote.bootstrap_issues
      each (comments_of (find (λ i. nat_eq i.id issue_id) issues)) (replay_comment issue_id)

    abbrev enqueue : IssueThreadLink → String → Option String → M (Unit {0})
    enqueue link action kind = enqueue_lifecycle env mapping_key link action payload event_id kind

    -- What the relay shows of an issue that it made itself goes.
    abbrev delete_echo : Bool → Option RelayItem → M (Unit {0})
    delete_echo suppress none = pure tt
    delete_echo suppress (some item) = when (suppress && item.state == "ACTIVE") (
        enqueue_delete env mapping_key "discord.item.delete" JobPlatform.discord
          ("discord:echo-delete:" <> item.id <> ":" <> event_id) ("relay-item:" <> item.id) item.id)

    abbrev show_body : String → IssueThreadLink → GitHubIssue → Bool → M (Unit {0})
    show_body event_kind link issue was_threaded = do
      item ← upsert_item env (starter_item mapping_key link.id issue env.show)
      repository ← lift (repository_url payload)
      enqueue_discord_sync env mapping_key link item issue.html_url repository issue.title
          issue.labels
      when (event_kind == "issues.reopened" && not was_threaded) (replay_history issue.id)

    abbrev repair_all : IssueThreadLink → GitHubIssue → Option IssueThreadLink → M (Unit {0})
    repair_all link issue none = pure tt
    repair_all link issue (some previous) =
        each
          (reconciliation_lifecycle_repairs issue.state issue.locked previous.state previous.locked
            (reconciliation_discord_state payload))
          (λ repair. enqueue link (action_name repair) (some event_kind_edited))
      where
        event_kind_edited : String
        event_kind_edited = "issues.edited"

    abbrev own_kind : Bool → String → Option String
    own_kind is_own event_kind = if is_own then none else some event_kind

    abbrev is_transition : String → Bool
    is_transition kind =
        kind == "issues.closed"
        || kind == "issues.reopened"
        || kind == "issues.locked"
        || kind == "issues.unlocked"

    abbrev shows_body : String → Bool → Bool
    shows_body kind was_threaded =
        kind == "issues.opened"
        || kind == "issues.edited"
        || kind == "issues.reopened" && not was_threaded

    abbrev origin_matches : Option RelayItem → GitHubIssue → Bool
    origin_matches none issue = false
    origin_matches (some origin) issue = elim origin.render_hash [
      | none ↦ false
      | some h ↦ h == env.hash issue.body
    ]

    abbrev is_there : Option RelayItem → Bool
    is_there none = false
    is_there (some item) = true

    -- An event of an issue that is not left out; `previous` is its link before the event.
    unfoldable pub relay_issue_event :
        String → GitHubIssue → Option IssueThreadLink → Bool → M (Unit {0})
    unfolding should_suppress_github_body_echo reconciliation_lifecycle_repairs
        is_own_github_bot_event sync_label_definitions truthy repository_url
    relay_issue_event event_kind issue previous is_live = do
      link ← ensure_link env mapping_key (identity_of issue)
      discord_origin ← find_item_to mapping_key Platform.github "issue-body" (env.show issue.id)
      github_origin ← find_item mapping_key Platform.github "issue-body" (env.show issue.id)
      let is_own = is_own_github_bot_event env payload
      let suppress =
          should_suppress_github_body_echo (is_there discord_origin)
            (origin_matches discord_origin issue) event_kind is_live is_own
      delete_echo suppress github_origin
      when (not suppress && shows_body event_kind (has_thread previous))
          (show_body event_kind link issue (has_thread previous))
      when (event_kind == "issues.edited") (repair_all link issue previous)
      when (is_transition event_kind)
          (enqueue link (issue_action event_kind) (own_kind is_own event_kind))
      if event_kind == "issues.labeled" || event_kind == "issues.unlabeled"
          then (do
            sync_label_definitions mapping_key
            enqueue link "labels" (own_kind is_own event_kind))
          else when (not is_own && is_live_issue_activity event_kind payload)
              (enqueue link "activity" (some event_kind))

    abbrev is_bootstrap : Bool
    is_bootstrap = is_true (member payload "forum_relay_bootstrap")

    abbrev enqueue_if_linked : Option IssueThreadLink → String → String → M (Unit {0})
    enqueue_if_linked none action kind = pure tt
    enqueue_if_linked (some link) action kind = enqueue link action (some kind)

    -- `issues.…`
    unfoldable pub process_issue : String → M (Unit {0})
    unfolding relay_issue_event parse_github_issue should_ignore_unthreaded_github_issue truthy
    process_issue event_kind = do
      issue ← lift (parse_github_issue env payload)
      previous ← find_link mapping_key issue.id
      if event_kind == "issues.deleted"
          then enqueue_if_linked previous "source-deleted" event_kind
          else do
            let is_live = not is_bootstrap && action_is payload (issue_action event_kind)
            ignored ←
                should_ignore_unthreaded_github_issue mapping_key issue (has_thread previous)
                  is_live
            when (not ignored) (relay_issue_event event_kind issue previous is_live)

    abbrev linked : Option IssueThreadLink → GitHubIssue → M IssueThreadLink
    linked (some link) issue = pure link
    linked none issue = ensure_link env mapping_key (identity_of issue)

    abbrev delete_shown : IssueThreadLink → Option RelayItem → M (Unit {0})
    delete_shown link none = pure tt
    delete_shown link (some item) =
        enqueue_delete env mapping_key "discord.item.delete" JobPlatform.discord
          ("discord:delete:" <> item.id) (link_partition env link) item.id

    -- A comment that is relayed from GitHub.
    abbrev relay_comment : String → GitHubIssue → IssueThreadLink → GitHubComment → M (Unit {0})
    relay_comment event_kind issue link comment = do
      existing ← find_item mapping_key Platform.github "issue-comment" (env.show comment.id)
      if event_kind == "issue_comment.deleted" then delete_shown link existing else do
        item ← upsert_item env (comment_item mapping_key link.id comment env.show)
        repository ← lift (repository_url payload)
        enqueue_discord_sync env mapping_key link item comment.html_url repository issue.title
            issue.labels
        pure tt

    -- `issue_comment.…`; a comment that the relay made from a Discord message is left alone.
    unfoldable pub process_comment : String → M (Unit {0})
    unfolding parse_github_issue parse_github_comment should_ignore_unthreaded_github_issue
        repository_url truthy
    process_comment event_kind = do
      issue ← lift (parse_github_issue env payload)
      previous ← find_link mapping_key issue.id
      ignored ← should_ignore_unthreaded_github_issue mapping_key issue (has_thread previous) (
          not is_bootstrap
          && elim (optional_string payload "action") [ none ↦ false | some a ↦ true ])
      when (not ignored) (do
        link ← linked previous issue
        comment ← lift (parse_github_comment env payload)
        origin ← find_item_to mapping_key Platform.github "issue-comment" (env.show comment.id)
        when (not (is_there origin)) (relay_comment event_kind issue link comment))

    -- `bootstrap.github.state`
    unfoldable pub process_bootstrap_state : String → M (Unit {0})
    unfolding parse_github_issue
    process_bootstrap_state event_kind = do
      issue ← lift (parse_github_issue env payload)
      found ← find_link mapping_key issue.id
      elim found [
        | none ↦
            raise "Bootstrap issue relationship is not ready." FailureCategory.temporary
              "LINK_PENDING"
        | some link ↦ do
          when (is_closed issue.state) (enqueue link "closed" (some event_kind))
          when issue.locked (enqueue link "locked" (some event_kind))
      ]

    -- `#processGitHub`; an event of another kind does nothing.
    unfoldable pub process_github : String → M (Unit {0})
    unfolding process_issue process_comment process_bootstrap_state sync_label_definitions
        related_github_issue required_number
    process_github event_kind =
        if starts_with "label." event_kind
        then sync_label_definitions mapping_key
        else if event_kind == "bootstrap.github.state"
        then process_bootstrap_state event_kind
        else if starts_with "issues." event_kind
        then process_issue event_kind
        else if starts_with "issue_comment." event_kind
        then process_comment event_kind
        else if starts_with "sub_issues." event_kind || starts_with "issue_dependencies." event_kind
        then (do
          issue ← lift (related_github_issue payload)
          id ← lift (required_number issue "id")
          link ← find_link mapping_key id
          enqueue_if_linked link "activity" event_kind)
        else pure tt

  -- `#processGitHubProject`
  unfoldable pub process_github_project : String → Json → String → M (Unit {0})
  unfolding required_object required_string
  process_github_project event_kind payload event_id = do
    item ← lift (required_object (member payload "projects_v2_item") "GitHub Project item")
    content_type ← lift (required_string item "content_type")
    when (content_type == "Issue") (do
      node_id ← lift (required_string item "content_node_id")
      found ← find_node_link node_id
      elim found [
        | none ↦ pure tt
        | some link ↦
            enqueue_lifecycle env link.mapping_key link "activity" payload event_id
              (some event_kind)
      ])
