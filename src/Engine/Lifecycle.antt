-- ===== src/Engine/Lifecycle.antt =====
-- relay/engine.ts: `#syncDiscordLifecycle`, which carries what was done to an issue over to its thread,
-- with `#materializeDiscordStarter`, `#postGitHubActivity` and `#mappedDiscordThreadUrl`.
pub mod Threads
pub mod Edits
use Prim.Native.String.{◌++◌ as ◌<>◌}
use forum_relay.Common.{
  ℕ, String, Bool, true, false, not, ◌&&◌, ◌||◌, List, [], ◌∷◌, Option, none, some, find, ◌==◌,
  string_eq, if◌then◌else◌,
}
use forum_relay.Common.Json.{Json, str, num, bool, arr, obj, field, end, nil, cons, json_string}
use forum_relay.Common.Texts.{starts_with}
use forum_relay.Retry.{Result, FailureCategory}
use forum_relay.Intake.Origin.{member}
use forum_relay.Config.{ForumMappingConfig}
use forum_relay.Relay.{
  IssueThreadLink, IssueState, open_issue, closed_issue, RelayAuthor, UpsertRelayItem, Platform,
}
use forum_relay.Engine.{
  Env, M, World, after, ◌>>=◌, ◌>>◌, pure, lift, raise, rescue, rescued, when, truthy, Call,
  Segment, ThreadChanges, CurrentIssue, ProjectSummary, ActivityRender,
}
use forum_relay.Engine.Payloads.{
  GitHubIssue, PendingClose, required_object, required_string, required_number, optional_string,
  or_value, or_option, object_of, json_strings, parse_github_issue, parse_github_actor,
  parse_pending_close, required_activity_kind, repository_url,
}
use forum_relay.Engine.Decisions.{
  is_closed, is_open_only, should_ignore_unlinked_github_issue, escape_discord_markdown,
  github_actor_profile_url, format_github_close_reason, mapped_issue_number,
}
use forum_relay.Engine.Store.{
  ask, tell, required_link, find_numbered_link, upsert_item, tags_for, set_link_status,
  bootstrap_of, of_key,
}
use forum_relay.Engine.Messages.{edit_thread, no_changes, sync_discord_item}

-- A message of one text, in the name of an author.
abbrev pub text_message : RelayAuthor → String → Segment
text_message author content = record {
  avatar_url = author.avatar_url;
  components = arr (cons (obj (field "type" (num 10) (field "content" (str content) end))) nil);
  files = [];
  username = author.username;
}

-- `{ action, ignored: true, reason }`
abbrev ignored : String → String → Json
ignored action reason =
    obj
      (field "action" (str action) (field "ignored" (bool true) (field "reason" (str reason) end)))

-- The item of the issue's body, which a thread starts with.
abbrev pub starter_item : String → ℕ → GitHubIssue → (ℕ → String) → UpsertRelayItem
starter_item mapping_key link_id issue show = record {
  author = issue.author;
  destination_kind = "forum-starter";
  destination_platform = Platform.discord;
  issue_thread_link_id = link_id;
  mapping_key = mapping_key;
  parent_source_id = none;
  source_body = issue.body;
  source_id = show issue.id;
  source_kind = "issue-body";
  source_platform = Platform.github;
  source_revision = issue.updated_at;
}

-- The link as it is when the issue is open again, or not locked any more.
abbrev is_still_closed : IssueThreadLink → Bool
is_still_closed link = is_closed link.state && not link.locked

module _ (env : Env) (mapping_key : String) where
  abbrev thread_url : Option IssueThreadLink → Option String
  thread_url none = none
  thread_url (some link) = elim (truthy link.discord_thread_id) [
    | none ↦ none
    | some thread ↦ some ("https://discord.com/channels/" <> env.config.guild_id <> "/" <> thread)
  ]

  abbrev numbered_thread_url : Option ℕ → M (Option String)
  numbered_thread_url none = pure none
  numbered_thread_url (some number) = do
    link ← find_numbered_link mapping_key number
    pure (thread_url link)

  abbrev url_in_mapping : Option (String × ForumMappingConfig) → String → M (Option String)
  url_in_mapping none url = pure none
  url_in_mapping (some entry) url = numbered_thread_url (mapped_issue_number env entry.1 url)

  -- `#mappedDiscordThreadUrl`
  unfoldable pub mapped_discord_thread_url : String → M (Option String)
  unfolding truthy mapped_issue_number
  mapped_discord_thread_url url = url_in_mapping (find (of_key mapping_key) env.config.mappings) url

  -- `#materializeDiscordStarter`
  unfoldable pub materialize_discord_starter : IssueThreadLink → Json → M IssueThreadLink
  unfolding sync_discord_item parse_github_issue repository_url
  materialize_discord_starter link webhook = do
    issue ← lift (parse_github_issue env webhook)
    item ← upsert_item env (starter_item mapping_key link.id issue env.show)
    repository ← lift (repository_url webhook)
    sync_discord_item env mapping_key (
        obj (
          field "jumpUrl" (str issue.html_url) (
            field "labels" (arr (json_strings issue.labels)) (
              field "relayItemId" (str item.id)
                (field "repository" (str repository) (field "title" (str issue.title) end))))))
    required_link env link.id

  abbrev asked_project : Option String → Option String → M (Option ProjectSummary)
  asked_project (some id) item_id = ask (Call.project_v2 mapping_key id) env.remote.project
  asked_project none (some id) = ask (Call.project_v2_for_item mapping_key id) env.remote.project
  asked_project none none = pure none

  abbrev project_in : Option Json → M (Option ProjectSummary)
  project_in none = pure none
  project_in (some item) =
      rescue
        (asked_project (truthy (optional_string item "project_node_id"))
          (truthy (optional_string item "node_id")))
        (λ e. pure none)

  -- The project of the item that the event is about; a failure counts as none.
  abbrev project_of : Json → String → M (Option ProjectSummary)
  project_of webhook event_kind = project_in (
      if starts_with "projects_v2_item." event_kind
      then object_of (member webhook "projects_v2_item")
      else none)

  abbrev say : String → RelayAuthor → String → M (Unit {0})
  say thread author content =
      tell (Call.create_message mapping_key thread (text_message author content))
        env.remote.create_message

  abbrev archive : Bool → ThreadChanges
  archive b = record no_changes { archived = some b }

  -- The thread is open while the message is posted.
  abbrev post_rendered : String → Bool → Option ActivityRender → M (Unit {0})
  post_rendered thread unarchived none = pure tt
  post_rendered thread unarchived (some rendered) = do
    when unarchived (edit_thread env thread (archive false))
    say thread rendered.author rendered.content
    when unarchived (edit_thread env thread (archive true))

  abbrev post_in : Option String → IssueThreadLink → Json → String → M (Unit {0})
  post_in none link webhook event_kind =
      raise "Discord thread is not created yet." FailureCategory.temporary "THREAD_PENDING"
  post_in (some thread) link webhook event_kind = do
    project ← project_of webhook event_kind
    post_rendered thread (is_still_closed link)
        (env.render.github_activity event_kind webhook project)

  -- `#postGitHubActivity`
  unfoldable pub post_github_activity : IssueThreadLink → Json → String → M (Unit {0})
  unfolding truthy
  post_github_activity link = post_in (truthy link.discord_thread_id) link

  -- `if (activityKind) await this.#postGitHubActivity(…)`
  abbrev post_if : Option String → IssueThreadLink → Json → M (Unit {0})
  post_if none link webhook = pure tt
  post_if (some kind) link webhook = post_github_activity link webhook kind

  abbrev pending_url : Option PendingClose → Option String
  pending_url none = none
  pending_url (some p) = p.duplicate_url

  abbrev look_up : Option String → Bool → IssueThreadLink → M (Option String)
  look_up (some url) is_duplicate link = pure none
  look_up none false link = pure none
  look_up none true link =
      rescue (ask (Call.duplicate_of mapping_key link.github_issue_number) env.remote.duplicate_of)
        (λ e. pure none)

  -- The URL of the issue that this one repeats; a failure to find it counts as none.
  abbrev github_duplicate : Option PendingClose → GitHubIssue → IssueThreadLink → M (Option String)
  github_duplicate pending issue link =
      look_up (truthy (pending_url pending))
        (elim issue.state_reason [ none ↦ false | some r ↦ r == "duplicate" ]) link

  abbrev pending_reason : Option PendingClose → Option String
  pending_reason none = none
  pending_reason (some p) = some p.reason

  abbrev close_reason : Option String → Option PendingClose → GitHubIssue → Option String
  close_reason (some url) pending issue = some "duplicate"
  close_reason none pending issue = or_option (pending_reason pending) issue.state_reason

  abbrev linked_url : Option String → M (Option String)
  linked_url none = pure none
  linked_url (some url) = mapped_discord_thread_url url

  abbrev clear_pending : Option PendingClose → IssueThreadLink → M (Unit {0})
  clear_pending none link = pure tt
  clear_pending (some p) link = set_link_status env link.id "ACTIVE"

  -- The action "closed".
  unfoldable pub close_thread :
      String
      → IssueThreadLink
      → GitHubIssue
      → Option PendingClose
      → RelayAuthor
      → String
      → M (Unit {0})
  unfolding mapped_discord_thread_url format_github_close_reason truthy
  close_thread thread link issue pending actor label = do
    found ← github_duplicate pending issue link
    let url = or_option (pending_url pending) found
    discord_url ← linked_url (truthy url)
    reason ←
        lift
          (format_github_close_reason env (close_reason (truthy url) pending issue) url discord_url)
    say thread actor ("> Closed by " <> label <> " " <> reason <> " on GitHub")
    edit_thread env thread (archive true)
    clear_pending pending link

  abbrev lock_changes : Bool → Bool → ThreadChanges
  lock_changes archived locked = record no_changes {
    archived = some archived;
    locked = some locked;
  }

  abbrev reopened_link : IssueThreadLink → GitHubIssue → IssueThreadLink
  reopened_link link issue = record link { locked = issue.locked; state = open_issue }

  -- What each action but "activity" does to the thread; an action of another name does nothing.
  unfoldable pub apply_action :
      String
      → String
      → IssueThreadLink
      → GitHubIssue
      → Json
      → Option String
      → Option PendingClose
      → RelayAuthor
      → String
      → M (Unit {0})
  unfolding close_thread post_github_activity
  apply_action action thread link issue webhook kind pending actor label =
      if action == "closed"
      then close_thread thread link issue pending actor label
      else if action == "reopened"
      then (do
        edit_thread env thread (lock_changes issue.locked issue.locked)
        when (not issue.locked) (post_if kind (reopened_link link issue) webhook))
      else if action == "locked"
      then (do
        say thread actor ("> Locked by " <> label <> " on GitHub")
        edit_thread env thread (lock_changes true true))
      else if action == "unlocked"
      then (do
        edit_thread env thread (lock_changes (is_closed issue.state) false)
        post_if kind (record link { locked = false }) webhook)
      else if action == "labels"
      then (do
        tags ← tags_for env mapping_key issue.labels
        edit_thread env thread (record no_changes { applied_tag_ids = some tags })
        post_if kind link webhook)
      else if action == "source-deleted"
      then edit_thread env thread (lock_changes true true)
      else pure tt

  -- `githubUserLink` of render/github-activity.ts
  abbrev github_user_link : String → String → String
  github_user_link username url = "[" <> username <> "](" <> url <> ")"

  abbrev label_of : Option PendingClose → RelayAuthor → Json → String
  label_of (some pending) actor webhook =
      "**" <> escape_discord_markdown pending.actor.username <> "**"
  label_of none actor webhook =
      github_user_link actor.username
        (github_actor_profile_url env (member webhook "sender") actor.username)

  abbrev actor_of : Option PendingClose → RelayAuthor → RelayAuthor
  actor_of none actor = actor
  actor_of (some pending) actor = pending.actor

  -- The lifecycle of a thread that is there.
  unfoldable pub apply_lifecycle : String → IssueThreadLink → Json → Json → String → M (Unit {0})
  unfolding apply_action post_github_activity required_activity_kind parse_github_issue
      parse_github_actor parse_pending_close truthy
  apply_lifecycle action link webhook payload thread =
      let kind = optional_string payload "activityKind" in
      if action == "activity"
      then (do
        required ← lift (required_activity_kind kind)
        post_github_activity link webhook required)
      else do
        issue ← lift (parse_github_issue env webhook)
        actor ← lift (parse_github_actor env (member webhook "sender"))
        let pending = parse_pending_close env link.status
        apply_action action thread link issue webhook (truthy kind) pending (actor_of pending actor)
            (label_of pending actor webhook)

  abbrev is_before_starter : String → Bool
  is_before_starter action =
      action == "activity" || action == "labels" || action == "source-deleted"

  -- The outcome: the link with its thread, or the answer of work that is given up.
  pub data Starter : Type 0 where
    given_up : String → Starter
    started : IssueThreadLink → Starter

  abbrev start_with : IssueThreadLink → Json → M Starter
  start_with link webhook = do link ← materialize_discord_starter link webhook; pure (started link)

  -- A link without a thread gets one, unless the work comes too early or the issue is left out.
  unfoldable pub ensure_starter : String → IssueThreadLink → Json → M Starter
  unfolding materialize_discord_starter should_ignore_unlinked_github_issue
  ensure_starter action link webhook =
      let bootstrap = bootstrap_of env mapping_key in
      if should_ignore_unlinked_github_issue false link.state bootstrap
      then pure (given_up "open-only-unlinked-closed-issue")
      else if is_before_starter action
      then pure (given_up "lifecycle-before-starter")
      else elim (object_of (member webhook "issue")) [
        | none ↦
            raise "Discord thread is not created yet." FailureCategory.temporary "THREAD_PENDING"
        | some issue ↦
            if is_open_only bootstrap
            then (do
              current ←
                  ask (Call.current_issue mapping_key link.github_issue_number)
                    env.remote.current_issue
              if is_closed current.state
                  then pure (given_up "open-only-currently-closed-issue")
                  else start_with link current.payload)
            else start_with link webhook
      ]

  abbrev finish_lifecycle : String → Json → Json → Starter → M Json
  finish_lifecycle action webhook payload (given_up reason) = pure (ignored action reason)
  finish_lifecycle action webhook payload (started link) = elim (truthy link.discord_thread_id) [
    | none ↦ raise "Discord thread is not created yet." FailureCategory.temporary "THREAD_PENDING"
    | some thread ↦ do
      apply_lifecycle action link webhook payload thread
      pure (obj (field "action" (str action) (field "threadId" (str thread) end)))
  ]

  -- `#syncDiscordLifecycle`
  unfoldable pub sync_discord_lifecycle : Json → M Json
  unfolding apply_lifecycle ensure_starter required_object required_string required_number truthy
  sync_discord_lifecycle payload = do
    link_id ← lift (required_number payload "linkId")
    link ← required_link env link_id
    action ← lift (required_string payload "action")
    webhook ← lift (required_object (member payload "webhook") "webhook")
    outcome ← elim (truthy link.discord_thread_id) [
      | some thread ↦ pure (started link)
      | none ↦ ensure_starter action link webhook
    ]
    finish_lifecycle action webhook payload outcome
