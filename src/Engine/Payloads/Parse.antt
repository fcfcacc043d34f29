-- ===== src/Engine/Payloads/Parse.antt =====
-- relay/engine.ts: the issues, comments, messages and authors that payloads hold.
use Prim.Native.String.{◌++◌ as ◌<>◌}
use forum_relay.Common.{ℕ, String, Option, none, some, string_eq, if◌then◌else◌}
use forum_relay.Common.Json.{Json}
use forum_relay.Common.Texts.{starts_with, drop_chars, split_at}
use forum_relay.Retry.{Result, ok, err, Thrown, ◌>>=◌}
use forum_relay.Intake.Origin.{member, is_true}
use forum_relay.Relay.{RelayAuthor}
use forum_relay.Relay.Attachments.{Attachment}
use forum_relay.Engine.{Env, Location, truthy}
use forum_relay.Engine.Payloads.Values.{
  GitHubIssue, GitHubComment, DiscordMessage, PendingClose, or_value, or_option, invalid, object_of,
  required_object, required_string, required_number, optional_string, object_array, map_each,
  state_of, parse_relay_author, closed_by, issue_part,
}

abbrev cdn : String
cdn = "https://cdn.discordapp.com/avatars/"

module _ (env : Env) where
  unfoldable pub parse_github_actor : Option Json → Result RelayAuthor
  unfolding required_object required_string required_number
  parse_github_actor value = do
    user ← required_object value "GitHub actor"
    username ← required_string user "login"
    id ← required_number user "id"
    ok (record {
      avatar_url = optional_string user "avatar_url";
      display_name = username;
      id = env.show id;
      username = username;
    })

  unfoldable pub parse_github_issue : Json → Result GitHubIssue
  unfolding required_object required_string required_number parse_github_actor
  parse_github_issue payload = do
    issue ← required_object (member payload "issue") "issue"
    state ← required_string issue "state"
    state ← state_of state
    author ← parse_github_actor (member issue "user")
    html_url ← required_string issue "html_url"
    id ← required_number issue "id"
    labels ← map_each (λ label. required_string label "name") (object_array (member issue "labels"))
    node_id ← required_string issue "node_id"
    number ← required_number issue "number"
    title ← required_string issue "title"
    updated_at ← required_string issue "updated_at"
    ok (record {
      author = author;
      body = or_value (optional_string issue "body") "";
      html_url = html_url;
      id = id;
      labels = labels;
      locked = is_true (member issue "locked");
      node_id = node_id;
      number = number;
      state = state;
      state_reason = optional_string issue "state_reason";
      title = title;
      updated_at = updated_at;
    })

  unfoldable pub parse_github_comment : Json → Result GitHubComment
  unfolding required_object required_string required_number parse_github_actor
  parse_github_comment payload = do
    comment ← required_object (member payload "comment") "comment"
    author ← parse_github_actor (member comment "user")
    html_url ← required_string comment "html_url"
    id ← required_number comment "id"
    node_id ← required_string comment "node_id"
    updated_at ← required_string comment "updated_at"
    ok (record {
      author = author;
      body = or_value (optional_string comment "body") "";
      html_url = html_url;
      id = id;
      node_id = node_id;
      updated_at = updated_at;
    })

  -- The value of a pending close, of which the text is decoded and parsed.
  abbrev pending_value : Option Json → Option PendingClose
  pending_value value = elim (object_of value) [
    | none ↦ none
    | some v ↦
        closed_by (parse_relay_author (member v "actor")) (truthy (optional_string v "reason"))
          (optional_string v "duplicateUrl")
  ]

  -- `parsePendingClose`
  unfoldable pub parse_pending_close : String → Option PendingClose
  unfolding truthy parse_relay_author
  parse_pending_close status =
      if starts_with "PENDING_CLOSE:" status
      then elim (env.decode_uri (drop_chars 14 status)) [
        | none ↦ none
        | some text ↦ pending_value (env.codec.parse text)
      ]
      else none

  abbrev number_in : Option Location → Option String
  number_in none = none
  number_in (some url) = issue_part (split_at "/" url.pathname)

  -- `issueReference`
  unfoldable pub issue_reference : String → Result String
  issue_reference url = elim (env.parse_location url) [
    | none ↦ err (Thrown.plain "Invalid URL")
    | some location ↦ elim (number_in (some location)) [
      | some number ↦ ok ("#" <> number)
      | none ↦ ok "the linked issue"
    ]
  ]

  -- `issueNumberFromUrl`
  unfoldable pub issue_number_from_url : String → Result ℕ
  issue_number_from_url url = elim (env.parse_location url) [
    | none ↦ err (Thrown.plain "Invalid URL")
    | some location ↦ elim (number_in (some location)) [
      | some number ↦ ok (env.to_number number)
      | none ↦ invalid "Duplicate target is not a GitHub issue URL." "DUPLICATE_TARGET_INVALID"
    ]
  ]

  abbrev parse_attachment : Json → Result Attachment
  parse_attachment attachment = do
    filename ← required_string attachment "filename"
    id ← required_string attachment "id"
    size ← required_number attachment "size"
    url ← required_string attachment "url"
    ok (record {
      content_type =
          or_option (optional_string attachment "content_type")
            (optional_string attachment "contentType");
      filename = filename;
      id = id;
      size = some size;
      url = url;
    })

  abbrev avatar_of : String → Option String → Option String
  avatar_of id none = none
  avatar_of id (some avatar) =
      some (cdn <> id <> "/" <> avatar <> "." <> (if starts_with "a_" avatar then "gif" else "png"))

  abbrev nick_of : Option Json → Option String
  nick_of none = none
  nick_of (some member) = optional_string member "nick"

  -- `parseDiscordMessage`; an empty channel or revision counts as none.
  unfoldable pub parse_discord_message : Json → Result DiscordMessage
  unfolding required_object required_string required_number truthy
  parse_discord_message payload = do
    author ← required_object (member payload "author") "message author"
    id ← required_string author "id"
    username ← required_string author "username"
    channel_id ←
        elim (truthy (
          or_option (optional_string payload "channel_id") (optional_string payload "channelId"))) [
            | some channel ↦ ok channel
            | none ↦ invalid "Expected channel_id to be a string." "PAYLOAD_INVALID"
          ]
    revision ←
        elim (truthy (
          or_option (optional_string payload "edited_timestamp") (
            or_option (optional_string payload "timestamp")
              (optional_string payload "revision")))) [
                | some revision ↦ ok revision
                | none ↦ invalid "Expected message timestamp to be a string." "PAYLOAD_INVALID"
              ]
    attachments ← map_each parse_attachment (object_array (member payload "attachments"))
    message_id ← required_string payload "id"
    ok (record {
      attachments = attachments;
      author = record {
        avatar_url =
            or_option (optional_string author "avatarUrl")
              (avatar_of id (truthy (optional_string author "avatar")));
        display_name = or_value (optional_string author "displayName") (
            or_value (nick_of (object_of (member payload "member")))
              (or_value (optional_string author "global_name") username));
        id = id;
        username = username;
      };
      channel_id = channel_id;
      content = or_value (optional_string payload "content") "";
      id = message_id;
      revision = revision;
    })
