-- ===== src/Engine/Events/Echoes.antt =====
-- relay/engine.ts: GitHub's event about a comment that the relay made itself.
use forum_relay.Common.{◌≡◌, refl, subst, sym, String, false, List, some, none, ◌==◌, string_eq}
use forum_relay.Common.Json.{Json, json_string, json_number}
use forum_relay.Common.Texts.{starts_with}
use forum_relay.Retry.{ok}
use forum_relay.Relay.{IssueThreadLink, RelayItem, ItemRow, Platform}
use forum_relay.Relay.Links.{find_link_by_github}
use forum_relay.Relay.Items.{get_relay_item, find_relay_item_by_destination}
use forum_relay.Engine.{Env, World, truthy}
use forum_relay.Engine.Payloads.{
  GitHubIssue, GitHubComment, parse_github_issue, parse_github_comment,
}
use forum_relay.Engine.Decisions.{should_ignore_unlinked_github_issue}
use forum_relay.Engine.Ends.{Any, Ends-returned}
use forum_relay.Engine.Comments.{sync_github_item}
use forum_relay.Engine.Comments.Posted.{Answers, find_shown, sync_github_item-Answers}
use forum_relay.Engine.Events.{
  process_github, process_comment, should_ignore_unthreaded_github_issue, has_thread,
}

-- A comment that is found among the items stops the event.
process_comment-found :
    (env : Env) (mapping_key : String) (payload : Json) (event_id event_kind thread : String)
    (issue : GitHubIssue) (comment : GitHubComment) (link : IssueThreadLink) (origin : RelayItem)
    (w : World)
    → parse_github_issue env payload ≡ ok issue
    → parse_github_comment env payload ≡ ok comment
    → find_link_by_github w.links mapping_key issue.id ≡ some link
    → truthy link.discord_thread_id ≡ some thread
    → find_relay_item_by_destination w.items mapping_key Platform.github "issue-comment"
        (env.show comment.id)
      ≡ some origin
    → process_comment env mapping_key payload event_id event_kind w ≡ (w, ok tt)
unfolding process_comment should_ignore_unthreaded_github_issue should_ignore_unlinked_github_issue
process_comment-found env mapping_key payload event_id event_kind thread issue comment link origin w
      p c f t o =
    rw (process_comment, p, f, has_thread, t, c, o) refl

-- Let `sync_github_item` return for an item of a thread's message that is to be shown as a comment of an
-- issue and is not shown yet. Then GitHub's event about the creation of that comment, whose id is the one
-- that was returned, is no message for Discord: in each world whose table of items is the one that
-- `sync_github_item` left, and in which the issue has a thread, `process_github` returns, makes no call and
-- leaves every table as it is.
pub sync_github_item-unechoed :
    (env : Env) (mapping_key : String) (payload : Json) (item : RelayItem) (w w' after : World)
    (a webhook : Json) (event_id thread : String) (issue : GitHubIssue) (comment : GitHubComment)
    (link : IssueThreadLink)
    → json_string payload "relayItemId" ≡ some item.id
    → get_relay_item w.items item.id ≡ some item
    → item.mapping_key ≡ mapping_key
    → item.destination_platform ≡ Platform.github
    → item.destination_kind ≡ "issue-comment"
    → (item.source_kind == "thread-starter") ≡ false
    → truthy item.destination_id ≡ none
    → sync_github_item env mapping_key payload w ≡ (w', ok a)
    → after.items ≡ w'.items
    → find_link_by_github after.links mapping_key issue.id ≡ some link
    → truthy link.discord_thread_id ≡ some thread
    → parse_github_issue env webhook ≡ ok issue
    → parse_github_comment env webhook ≡ ok comment
    → json_number a "commentId" ≡ some comment.id
    → process_github env mapping_key webhook event_id "issue_comment.created" after ≡ (after, ok tt)
unfolding process_github starts_with
sync_github_item-unechoed env mapping_key payload item w w' after a webhook event_id thread issue
      comment link j g m p k s d returned same found threaded parsed read answered =
    let answers =
      Ends-returned (sync_github_item env mapping_key payload w)
        (Answers env mapping_key item m p k) Any w' a
        (sync_github_item-Answers env mapping_key item m p k payload w j g s d) returned in
    let (origin, o) =
      find_shown mapping_key item.id (env.show comment.id) w' (answers comment.id answered) in
    process_comment-found env mapping_key webhook event_id "issue_comment.created" thread issue
      comment link origin after parsed read found threaded
      (subst
        (λ (items : List ItemRow).
          find_relay_item_by_destination items mapping_key Platform.github "issue-comment"
            (env.show comment.id)
          ≡ some origin)
        (sym same) o)
