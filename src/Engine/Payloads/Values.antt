-- ===== src/Engine/Payloads/Values.antt =====
-- relay/engine.ts: the readers of the values of an object. One that lacks what is required throws.
use Prim.Native.String.{◌++◌ as ◌<>◌}
use forum_relay.Common.{
  ℕ, String, Bool, ◌&&◌, List, [], ◌∷◌, Option, none, some, ◌==◌, string_eq, if◌then◌else◌,
}
use forum_relay.Common.Json.{
  Json, arr, str, Items, nil, cons, items, json_string, json_number, is_json_object,
}
use forum_relay.Common.Texts.{starts_with, is_number}
use forum_relay.Retry.{Result, ok, err, Thrown, failure, FailureCategory, ◌>>=◌}
use forum_relay.Intake.Origin.{member}
use forum_relay.Relay.{IssueState, open_issue, closed_issue, RelayAuthor}
use forum_relay.Relay.Attachments.{Attachment}
use forum_relay.Engine.{truthy}

pub record GitHubIssue : Type 0 where
  pub author : RelayAuthor
  pub body : String
  pub html_url : String
  pub id : ℕ
  pub labels : List String
  pub locked : Bool
  pub node_id : String
  pub number : ℕ
  pub state : IssueState
  pub state_reason : Option String
  pub title : String
  pub updated_at : String

pub record GitHubComment : Type 0 where
  pub author : RelayAuthor
  pub body : String
  pub html_url : String
  pub id : ℕ
  pub node_id : String
  pub updated_at : String

pub record DiscordMessage : Type 0 where
  pub attachments : List Attachment
  pub author : RelayAuthor
  pub channel_id : String
  pub content : String
  pub id : String
  pub revision : String

pub record PendingClose : Type 0 where
  pub actor : RelayAuthor
  pub duplicate_url : Option String
  pub reason : String

-- `a ?? b`
abbrev pub or_value {ℓ} : {A : Type ℓ} → Option A → A → A
or_value none b = b
or_value (some a) b = a

abbrev pub or_option {ℓ} : {A : Type ℓ} → Option A → Option A → Option A
or_option none b = b
or_option (some a) b = some a

abbrev pub invalid {ℓ} : {A : Type ℓ} → String → String → Result A
invalid message code = err (Thrown.relay (failure message FailureCategory.invalid code))

abbrev pub object_of : Option Json → Option Json
object_of none = none
object_of (some v) = if is_json_object v then some v else none

unfoldable pub required_object : Option Json → String → Result Json
required_object value label = elim (object_of value) [
  | some v ↦ ok v
  | none ↦ invalid ("Expected " <> label <> " to be an object.") "PAYLOAD_INVALID"
]

unfoldable pub required_string : Json → String → Result String
required_string value key = elim (json_string value key) [
  | some s ↦ ok s
  | none ↦ invalid ("Expected " <> key <> " to be a string.") "PAYLOAD_INVALID"
]

unfoldable pub required_number : Json → String → Result ℕ
required_number value key = elim (json_number value key) [
  | some n ↦ ok n
  | none ↦ invalid ("Expected " <> key <> " to be a number.") "PAYLOAD_INVALID"
]

-- `optionalString`
abbrev pub optional_string : Json → String → Option String
optional_string = json_string

abbrev pub objects : List Json → List Json
objects [] = []
objects (v ∷ vs) = if is_json_object v then v ∷ objects vs else objects vs

abbrev pub object_array : Option Json → List Json
object_array (some (arr vs)) = objects (items vs)
object_array _ = []

abbrev pub strings : List Json → List String
strings [] = []
strings (str s ∷ vs) = s ∷ strings vs
strings (_ ∷ vs) = strings vs

abbrev pub string_array : Option Json → List String
string_array (some (arr vs)) = strings (items vs)
string_array _ = []

-- A list of texts as JSON.
abbrev pub json_strings : List String → Items
json_strings [] = nil
json_strings (s ∷ ss) = cons (str s) (json_strings ss)

-- `xs.map(f)`, where `f` may throw.
abbrev pub map_each {ℓ κ} : {A : Type ℓ} {B : Type κ} → (A → Result B) → List A → Result (List B)
map_each f [] = ok []
map_each f (x ∷ xs) = do y ← f x; ys ← map_each f xs; ok (y ∷ ys)

abbrev pub state_of : String → Result IssueState
state_of s =
    if s == "open"
    then ok open_issue
    else if s == "closed"
    then ok closed_issue
    else invalid ("Invalid GitHub issue state " <> s <> ".") "GITHUB_PAYLOAD"

abbrev pub author_from :
    Option String → Option String → Option String → Option String → Option RelayAuthor
author_from (some id) (some username) (some display_name) avatar_url =
    some (record {
      avatar_url = avatar_url;
      display_name = display_name;
      id = id;
      username = username;
    })
author_from _ _ _ avatar_url = none

unfoldable pub parse_relay_author : Option Json → Option RelayAuthor
unfolding truthy
parse_relay_author value = elim (object_of value) [
  | none ↦ none
  | some v ↦
      author_from (truthy (optional_string v "id")) (truthy (optional_string v "username"))
        (truthy (optional_string v "displayName")) (optional_string v "avatarUrl")
]

abbrev pub closed_by : Option RelayAuthor → Option String → Option String → Option PendingClose
closed_by (some actor) (some reason) duplicate_url =
    some (record { actor = actor; duplicate_url = duplicate_url; reason = reason })
closed_by _ _ duplicate_url = none

-- `repositoryUrl`
unfoldable pub repository_url : Json → Result String
unfolding required_object required_string
repository_url payload = do
  repository ← required_object (member payload "repository") "repository"
  elim (optional_string repository "html_url") [
    | some url ↦ ok url
    | none ↦ do name ← required_string repository "full_name"; ok ("https://github.com/" <> name)
  ]

-- `relatedGitHubIssue`
unfoldable pub related_github_issue : Json → Result Json
unfolding required_object
related_github_issue payload =
    let action = or_value (optional_string payload "action") "" in
    required_object
      (member payload (
        if starts_with "parent_issue_" action
        then "sub_issue"
        else if starts_with "sub_issue_" action
        then "parent_issue"
        else if starts_with "blocked_by_" action
        then "blocked_issue"
        else "blocking_issue"))
      "issue relationship subject"

-- `requiredActivityKind`
unfoldable pub required_activity_kind : Option String → Result String
unfolding truthy
required_activity_kind value = elim (truthy value) [
  | some kind ↦ ok kind
  | none ↦ invalid "Expected activityKind to be a string." "PAYLOAD_INVALID"
]

-- `/\/issues\/(\d+)\/?$/`, on the parts of a path between its slashes.
abbrev pub issue_part : List String → Option String
issue_part (before ∷ name ∷ number ∷ rest) = elim rest [
  | [] ↦ if name == "issues" && is_number number then some number else none
  | last ∷ [] ↦
      if last == "" && name == "issues" && is_number number
      then some number
      else issue_part (name ∷ number ∷ rest)
  | _ ↦ issue_part (name ∷ number ∷ rest)
]
issue_part _ = none
