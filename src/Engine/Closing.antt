-- ===== src/Engine/Closing.antt =====
-- relay/engine.ts: `#syncGitHubLifecycle`, which carries what was done to a thread over to the issue.
pub mod Stages
pub mod Mirror
use Prim.Native.String.{◌++◌ as ◌<>◌}
use forum_relay.Common.{
  ℕ, String, Bool, true, false, List, Option, none, some, ◌==◌, string_eq, if◌then◌else◌,
}
use forum_relay.Common.Json.{Json, str, num, obj, field, end}
use forum_relay.Intake.Origin.{member}
use forum_relay.Relay.{IssueThreadLink, IssueState, open_issue, closed_issue, RelayAuthor}
use forum_relay.Engine.{
  Env, M, World, after, ◌>>=◌, ◌>>◌, pure, lift, truthy, Call, IssueChanges, NewComment,
  CurrentIssue,
}
use forum_relay.Engine.Payloads.{
  required_string, required_number, optional_string, string_array, parse_relay_author,
  issue_number_from_url, issue_reference,
}
use forum_relay.Engine.Store.{ask, tell, required_link, set_link_state, set_link_title}
use forum_relay.Engine.Comments.{no_issue_changes}

abbrev attribution : Option RelayAuthor → String
attribution none = "A Discord moderator"
attribution (some actor) =
    "Discord user **" <> actor.display_name <> "** (@\u{200b}" <> actor.username <> ", `"
    <> actor.id <> "`)"

-- The reason that the comment names, and the one that GitHub is given.
abbrev close_reason : Option String → String
close_reason none = "completed"
close_reason (some s) =
    if s == "not_planned"
    then "not planned"
    else if s == "duplicate"
    then "duplicate"
    else "completed"

abbrev state_reason : String → String
state_reason reason = if reason == "not planned" then "not_planned" else reason

module _ (env : Env) (mapping_key : String) (link : IssueThreadLink) where
  abbrev comment : String → M (Unit {0})
  comment body =
      tell
        (Call.create_comment (record {
          body = body;
          issue_number = link.github_issue_number;
          mapping_key = mapping_key;
        }))
        env.remote.create_comment

  abbrev update : IssueChanges → M (Unit {0})
  update changes =
      ask (Call.update_issue mapping_key link.github_issue_number changes) env.remote.done

  abbrev set_lock : Bool → M (Unit {0})
  set_lock locked = ask (Call.set_lock mapping_key link.github_issue_number locked) env.remote.done

  abbrev state_changes : Option ℕ → IssueState → String → IssueChanges
  state_changes duplicate state reason = record no_issue_changes {
    duplicate_issue_id = duplicate;
    state = some state;
    state_reason = some reason;
  }

  abbrev close : String → String → M (Unit {0})
  close by reason = do
    comment ("> " <> by <> " closed this from Discord as **" <> reason <> "**.")
    update (state_changes none closed_issue (state_reason reason))
    set_link_state env link.id closed_issue link.locked

  abbrev close_duplicate : String → String → String → M (Unit {0})
  close_duplicate by reason url = do
    number ← lift (issue_number_from_url env url)
    duplicate ← ask (Call.current_issue mapping_key number) env.remote.current_issue
    reference ← lift (issue_reference env url)
    comment ("> " <> by <> " marked this as a duplicate of [" <> reference <> "](" <> url <> ").")
    update (state_changes (some duplicate.id) closed_issue (state_reason reason))
    set_link_state env link.id closed_issue link.locked

  -- What each action does; an action of another name does nothing.
  unfoldable pub carry_out : String → Json → M (Unit {0})
  unfolding truthy required_string issue_number_from_url issue_reference parse_relay_author
  carry_out action payload =
      let by = attribution (parse_relay_author (member payload "actor")) in
      let reason = close_reason (optional_string payload "reason") in
      if action == "close"
      then elim (truthy (optional_string payload "duplicateUrl")) [
        | none ↦ close by reason
        | some url ↦ close_duplicate by reason url
      ]
      else if action == "reopen"
      then (do
        comment ("> " <> by <> " reopened this by posting in the Discord thread.")
        update (state_changes none open_issue "reopened")
        set_link_state env link.id open_issue link.locked)
      else if action == "lock"
      then (do
        comment ("> " <> by <> " locked this from Discord.")
        set_lock true
        set_link_state env link.id link.state true)
      else if action == "unlock"
      then (do set_lock false; set_link_state env link.id link.state false)
      else if action == "rename"
      then (do
        title ← lift (required_string payload "title")
        update (record no_issue_changes { title = some title })
        set_link_title env link.id title)
      else if action == "labels"
      then update
          (record no_issue_changes { labels = some (string_array (member payload "labels")) })
      else pure tt

-- What follows when the link is there.
abbrev for_link : Env → String → Json → IssueThreadLink → M Json
for_link env mapping_key payload link = do
  action ← lift (required_string payload "action")
  carry_out env mapping_key link action payload
  pure (obj (field "action" (str action) (field "issueNumber" (num link.github_issue_number) end)))

-- `#syncGitHubLifecycle`
unfoldable pub sync_github_lifecycle : Env → String → Json → M Json
unfolding carry_out required_string required_number
sync_github_lifecycle env mapping_key payload = do
  link_id ← lift (required_number payload "linkId")
  link ← required_link env link_id
  for_link env mapping_key payload link
