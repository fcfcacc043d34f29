-- ===== src/Tests/Relays.antt =====
-- Runs of the relay engine.
use forum_relay.Common.{◌≡◌, ◌≢◌, refl, subst, ℕ, String, true, false, none, some, List, [], ◌∷◌}
use forum_relay.Common.Json.{
  Json, null, num, str, arr, obj, nil, field, end, get, json_string, json_number,
}
use forum_relay.Retry.{ok, ok_inj}
use forum_relay.Relay.{IssueThreadLink, open_issue, closed_issue, Platform, RelayItem, RelayAuthor}
use forum_relay.Relay.Links.{get_link, find_link_by_github}
use forum_relay.Relay.Items.{set_destination, get_relay_item}
use forum_relay.Relay.Segments.{get_segments, by_position}
use forum_relay.Engine.{Env, World, Remote, Renderers, Call, Segment, truthy}
use forum_relay.Engine.Ends.{Ends}
use forum_relay.Engine.Payloads.{
  GitHubIssue, GitHubComment, parse_github_issue, parse_github_comment, parse_github_actor,
  required_object, required_string, required_number,
}
use forum_relay.Engine.Messages.{show_item, delete_discord_item, deleted_result}
use forum_relay.Engine.Messages.Resync.{SameMessages, show_item-SameMessages}
use forum_relay.Engine.Messages.Removal.{IsDeleted, asked_deletions, delete_discord_item-IsDeleted}
use forum_relay.Engine.Comments.{sync_github_item, create_github_issue}
use forum_relay.Engine.Comments.Writes.{Quiet, Shadowed, sync_github_item-Shadowed}
use forum_relay.Engine.Comments.Rerun.{SameIssue, create_github_issue-once}
use forum_relay.Engine.Closing.{sync_github_lifecycle}
use forum_relay.Engine.Closing.Stages.{Mirrors, replay}
use forum_relay.Engine.Closing.Mirror.{sync_github_lifecycle-Mirrors}
use forum_relay.Engine.Decisions.{DiscordState, action_name, reconciliation_lifecycle_repairs}
use forum_relay.Engine.Decisions.Repairs.{is_consistent}
use forum_relay.Engine.{each}
use forum_relay.Engine.Lifecycle.{apply_lifecycle}
use forum_relay.Engine.Lifecycle.Threads.{thread_after}
use forum_relay.Engine.Lifecycle.Edits.{apply_lifecycle-is_consistent}
use forum_relay.Engine.Events.{process_github}
use forum_relay.Engine.Events.Echoes.{sync_github_item-unechoed}
use forum_relay.Tests.Queues.{codec, empty}
use forum_relay.Tests.Tables.{normalized, same_text}
use forum_relay.Tests.Remote.{net}
use forum_relay.Tests.{apart}

-- Clients that answer each call.
abbrev remote : Remote
remote = record {
  done = λ calls. ok tt;
  fetch_message = λ calls. ok null;
  create_thread = λ calls. ok (record { message_id = "m1"; thread_id = "t1" });
  create_message = λ calls. ok "m2";
  bootstrap_issues = λ calls. ok [];
  current_issue = λ calls. ok (record { id = 9; payload = null; state = open_issue });
  duplicate_of = λ calls. ok none;
  project = λ calls. ok none;
  rendered_media_urls = λ calls. ok [];
  create_issue = λ calls. ok (record { id = 1001; node_id = "I_1"; number = 7; url = "u" });
  body = λ calls. ok "edited on GitHub";
  create_comment = λ calls. ok (record { id = 55; url = "u" });
  download_media = λ calls. ok (record { name = "a.png"; bytes = [] });
  upload_attachment = λ calls. ok (record { hash = "h"; url = "u" });
  is_own_bot_login = λ login. false;
}

abbrev segment : Segment
segment = record { avatar_url = none; components = str "text"; files = []; username = "octocat" }

abbrev renderers : Renderers
renderers = record {
  media_urls = λ body repository. [];
  github_to_discord = λ input. segment ∷ [];
  discord_to_github = λ input. input.content;
  github_activity = λ kind webhook project. none;
}

abbrev show : ℕ → String
show n = "55"

abbrev env : Env
env = record {
  config = normalized;
  codec = codec;
  remote = remote;
  render = renderers;
  network = net;
  hash = same_text;
  show = show;
  to_number = λ s. 55;
  graphemes = λ s. s ∷ [];
  encode_uri = same_text;
  decode_uri = λ s. some s;
  parse_location = λ s. none;
  parse_media_url = λ s. none;
  clock = λ n. 100;
  uuid = λ n. "uuid";
}

abbrev author : RelayAuthor
author = record { avatar_url = none; display_name = "Octo"; id = "55"; username = "octocat" }

abbrev link : IssueThreadLink
link = record {
  discord_thread_id = some "t1";
  full_title = "Crash";
  github_issue_id = 1001;
  github_issue_node_id = "I_1";
  github_issue_number = 7;
  id = 3;
  locked = false;
  mapping_key = "support";
  state = open_issue;
  status = "ACTIVE";
}

-- A message of the thread that was relayed as comment 55.
abbrev item : RelayItem
item = record {
  author = author;
  destination_id = some "55";
  destination_kind = "issue-comment";
  destination_platform = Platform.github;
  id = "i1";
  issue_thread_link_id = 3;
  mapping_key = "support";
  render_hash = some "as relayed";
  source_body = "hello";
  source_id = "m9";
  source_kind = "forum-message";
  source_platform = Platform.discord;
  state = "ACTIVE";
}

abbrev world : World
world = record {
  clock_reads = 0;
  uuids = 0;
  calls = [];
  db = empty;
  links = record {
    last_id = 3;
    rows =
        record {
          link = link;
          previous_discord_thread_ids_json = "[]";
          created_at = 1;
          updated_at = 1;
        }
        ∷ [];
  };
  items =
      record {
        item = item;
        parent_source_id = none;
        source_revision = "r";
        source_hash = "h";
        canonical_hash = "h";
        deleted_at = none;
        created_at = 1;
        updated_at = 1;
      }
      ∷ [];
  segments =
      record {
        relay_item_id = "i1";
        position = 0;
        discord_message_id = "m1";
        render_hash = codec.stringify (str "text");
        created_at = 1;
        updated_at = 1;
      }
      ∷ [];
  shadows = [];
  attachments = [];
  bindings = [];
  audits = [];
}

abbrev lock_payload : Json
lock_payload = obj (field "linkId" (num 3) (field "action" (str "lock") end))

sync_github_lifecycle-Mirrors_example :
    Ends
      (sync_github_lifecycle env "support" lock_payload world)
      (λ w' a. Mirrors "support" (record { state = open_issue; locked = false }) link w')
      (λ w'. Unit)
unfolding json_number get get_link replay
sync_github_lifecycle-Mirrors_example =
    sync_github_lifecycle-Mirrors env "support" lock_payload link
      (record { state = open_issue; locked = false }) world refl refl refl

abbrev item_payload : Json
item_payload = obj (field "relayItemId" (str "i1") end)

edited_elsewhere :
    (calls : List Call) (text : String)
    → env.remote.body calls ≡ ok text
    → env.hash text ≢ "as relayed"
edited_elsewhere calls text e =
    subst (λ t. t ≢ "as relayed") (ok_inj e) (apart "edited on GitHub" "as relayed" refl)

sync_github_item-Shadowed_example :
    Ends
      (sync_github_item env "support" item_payload world)
      (λ w' a. Shadowed "i1" world w')
      (Quiet world)
unfolding json_string get get_relay_item truthy
sync_github_item-Shadowed_example =
    sync_github_item-Shadowed env "support" item_payload item "as relayed" "55" world refl refl refl
      refl edited_elsewhere

delete_discord_item-IsDeleted_example :
    Ends
      (delete_discord_item env "support" item_payload world)
      (λ w' a.
        IsDeleted "i1" w'
        × (w'.calls ≡ asked_deletions "support" "t1" (get_segments world.segments "i1") world.calls)
        × (a ≡ deleted_result env true))
      (λ w'. ⊥)
unfolding json_string get get_relay_item get_link truthy
delete_discord_item-IsDeleted_example =
    delete_discord_item-IsDeleted env "support" "t1" item_payload item link world refl refl refl
      refl (λ calls. refl)

show_item-SameMessages_example :
    Ends
      (show_item env "support" item link "Crash" [] (segment ∷ []) world)
      (λ w' a. SameMessages world w')
      (SameMessages world)
unfolding get_segments by_position truthy
show_item-SameMessages_example =
    show_item-SameMessages env "support" "Crash" "t1" item link [] (segment ∷ []) world refl refl

-- A thread without a link.
abbrev thread_payload : Json
thread_payload = obj (
    field "threadId" (str "t2") (
      field "title" (str "Crash") (
        field "message"
          (obj (
            field "author" (obj (field "id" (str "u1") (field "username" (str "octo") end))) (
              field "channel_id" (str "t2")
                (field "timestamp" (str "r") (field "id" (str "t2") end)))))
          end)))

create_github_issue-once_example :
    Ends
      (create_github_issue env "support" thread_payload world)
      (λ w' a.
        (b : Json) × (create_github_issue env "support" thread_payload w' ≡ (w', ok b))
        × SameIssue a b)
      (λ w'. Unit)
unfolding json_string get
create_github_issue-once_example =
    create_github_issue-once env "support" "t2" thread_payload world refl

abbrev user : Json
user = obj (field "login" (str "octocat") (field "id" (num 55) end))

-- The webhook of a comment on a closed issue.
abbrev webhook : Json
webhook = obj (
    field "issue"
      (obj (
        field "state" (str "closed") (
          field "user" user (
            field "html_url" (str "u") (
              field "id" (num 1001) (
                field "labels" (arr nil) (
                  field "node_id" (str "I_1") (
                    field "number" (num 7)
                      (field "title" (str "Crash") (field "updated_at" (str "r") end))))))))))
      (field "comment"
        (obj (
          field "user" user (
            field "html_url" (str "u") (
              field "id" (num 55)
                (field "node_id" (str "C_1") (field "updated_at" (str "r") end))))))
        (field "sender" user end)))

abbrev issue : GitHubIssue
issue = record {
  author = record { avatar_url = none; display_name = "octocat"; id = "55"; username = "octocat" };
  body = "";
  html_url = "u";
  id = 1001;
  labels = [];
  locked = false;
  node_id = "I_1";
  number = 7;
  state = closed_issue;
  state_reason = none;
  title = "Crash";
  updated_at = "r";
}

abbrev comment : GitHubComment
comment = record {
  author = record { avatar_url = none; display_name = "octocat"; id = "55"; username = "octocat" };
  body = "";
  html_url = "u";
  id = 55;
  node_id = "C_1";
  updated_at = "r";
}

issue_read : parse_github_issue env webhook ≡ ok issue
unfolding parse_github_issue parse_github_actor required_object required_string required_number
    json_string json_number get
issue_read = refl

comment_read : parse_github_comment env webhook ≡ ok comment
unfolding parse_github_comment parse_github_actor required_object required_string required_number
    json_string json_number get
comment_read = refl

-- The same message before it is relayed.
abbrev new_message : RelayItem
new_message = record item { destination_id = none; render_hash = none }

abbrev unsent : World
unsent = record world {
  items =
      record {
        item = new_message;
        parent_source_id = none;
        source_revision = "r";
        source_hash = "h";
        canonical_hash = "h";
        deleted_at = none;
        created_at = 1;
        updated_at = 1;
      }
      ∷ [];
}

abbrev sent : World
sent = (sync_github_item env "support" item_payload unsent).0

abbrev answer : Json
answer = obj (field "commentId" (num 55) (field "url" (str "u") end))

message_sent : sync_github_item env "support" item_payload unsent ≡ (sent, ok answer)
unfolding sync_github_item json_string get get_relay_item get_link set_destination
message_sent = refl

sync_github_item-unechoed_example :
    process_github env "support" webhook "e1" "issue_comment.created" sent ≡ (sent, ok tt)
unfolding sync_github_item json_string json_number get get_relay_item get_link find_link_by_github
    set_destination truthy
sync_github_item-unechoed_example =
    sync_github_item-unechoed env "support" item_payload new_message unsent sent sent answer webhook
      "e1" "t1" issue comment link refl refl refl refl refl refl refl message_sent refl refl refl
      issue_read comment_read refl

abbrev opened : DiscordState
opened = record { archived = false; locked = true }

apply_lifecycle-is_consistent_example :
    Ends
      (each
        (reconciliation_lifecycle_repairs closed_issue false open_issue false (some opened))
        (λ r.
          apply_lifecycle env "support"
            (action_name r)
            (record link { state = closed_issue })
            webhook
            (obj end)
            "t1")
        world)
      (λ w' a. is_consistent closed_issue false (thread_after "t1" opened w'.calls) ≡ true)
      (λ w'. Unit)
unfolding truthy thread_after
apply_lifecycle-is_consistent_example =
    apply_lifecycle-is_consistent env "support" "t1" (record link { state = closed_issue }) issue
      webhook (obj end) open_issue false opened opened world refl refl issue_read refl
