-- ===== src/Engine/Decisions.antt =====
-- relay/engine.ts: the decisions that read no table and call nothing.
pub mod Repairs
use Prim.Native.String.{count, ◌++◌ as ◌<>◌, [] as no_text, ◌∷◌ as ◌onto◌}
use Prim.Native.Char.{Char}
use forum_relay.Common.{
  ℕ, zero, suc, ◌-◌, String, Bool, true, false, not, ◌&&◌, ◌||◌, List, [], ◌∷◌, ◌++◌, Option, none,
  some, any, length, take, leb, ◌==◌, string_eq, if◌then◌else◌,
}
use forum_relay.Common.Json.{Json, str, num, arr, obj, field, end}
use forum_relay.Common.Texts.{starts_with, drop_chars, split_at, is_number, includes}
use forum_relay.Retry.{Result, ok, err, ◌>>=◌}
use forum_relay.Config.{BootstrapConfig, BootstrapIssueFilter, ForumMappingConfig}
use forum_relay.Intake.Origin.{member, is_true}
use forum_relay.Relay.{IssueState, open_issue, closed_issue, StoredAttachment}
use forum_relay.Engine.{Env, Location, DiscordAttachment, truthy}
use forum_relay.Engine.Payloads.{
  object_of, optional_string, or_value, json_strings, issue_reference,
}

abbrev pub is_closed : IssueState → Bool
is_closed closed_issue = true
is_closed open_issue = false

abbrev pub is_open_only : Option BootstrapConfig → Bool
is_open_only (some (BootstrapConfig.from_github BootstrapIssueFilter.open_only since)) = true
is_open_only _ = false

-- The last argument is the current state of the issue, which the state at hand stands in for.
unfoldable pub should_ignore_unlinked_github_issue :
    Bool → IssueState → Option BootstrapConfig → Bool
should_ignore_unlinked_github_issue has_discord_thread current bootstrap =
    not has_discord_thread && is_closed current && is_open_only bootstrap

unfoldable pub should_suppress_github_body_echo : Bool → Bool → String → Bool → Bool → Bool
should_suppress_github_body_echo has_origin matches_render event_kind is_live is_own =
    has_origin && (matches_render || event_kind == "issues.opened" || is_live && is_own)

pub record DiscordState : Type 0 where
  pub archived : Bool
  pub locked : Bool

pub data Repair : Type 0 where
  closed locked reopened unlocked : Repair

abbrev pub action_name : Repair → String
action_name closed = "closed"
action_name locked = "locked"
action_name reopened = "reopened"
action_name unlocked = "unlocked"

abbrev pub bool_differs : Bool → Bool → Bool
bool_differs true b = not b
bool_differs false b = b

abbrev pub state_differs : IssueState → IssueState → Bool
state_differs s t = bool_differs (is_closed s) (is_closed t)

-- `discordStateMismatch`
abbrev pub mismatches : IssueState → Bool → Option DiscordState → Bool
mismatches state is_locked none = false
mismatches closed_issue is_locked (some d) = not d.archived
mismatches open_issue is_locked (some d) = not is_locked && (d.archived || d.locked)

abbrev pub lock_differs : Bool → Option DiscordState → Bool
lock_differs is_locked none = false
lock_differs is_locked (some d) = bool_differs d.locked is_locked

-- `reconciliationLifecycleRepairs`: the two `if`s, of which each may push an action.
abbrev pub state_repairs : IssueState → Bool → IssueState → Option DiscordState → List Repair
state_repairs state is_locked previous discord =
    if state_differs previous state || mismatches state is_locked discord
    then (if is_closed state then closed else reopened) ∷ []
    else []

abbrev pub lock_repairs : Bool → Bool → Option DiscordState → List Repair
lock_repairs is_locked was_locked discord =
    if bool_differs was_locked is_locked || lock_differs is_locked discord
    then (if is_locked then locked else unlocked) ∷ []
    else []

unfoldable pub reconciliation_lifecycle_repairs :
    IssueState → Bool → IssueState → Bool → Option DiscordState → List Repair
reconciliation_lifecycle_repairs state is_locked previous was_locked discord =
    state_repairs state is_locked previous discord ++ lock_repairs is_locked was_locked discord

-- `reconciliationDiscordState`
unfoldable pub reconciliation_discord_state : Json → Option DiscordState
reconciliation_discord_state payload =
    elim (object_of (member payload "forum_relay_reconciliation")) [
      | none ↦ none
      | some state ↦ some (record {
        archived = is_true (member state "discord_archived");
        locked = is_true (member state "discord_locked");
      })
    ]

-- `eventKind.slice("issues.".length)`
abbrev pub issue_action : String → String
issue_action event_kind = drop_chars 7 event_kind

abbrev pub action_is : Json → String → Bool
action_is payload action = elim (optional_string payload "action") [
  | none ↦ false
  | some a ↦ a == action
]

abbrev relayed_actions : List String
relayed_actions =
    "closed" ∷ "deleted" ∷ "labeled" ∷ "locked" ∷ "opened" ∷ "reopened" ∷ "unlabeled" ∷ "unlocked"
    ∷ []

-- `isLiveIssueActivity`
unfoldable pub is_live_issue_activity : String → Json → Bool
is_live_issue_activity event_kind payload =
    action_is payload (issue_action event_kind)
    && not (any (λ a. a == issue_action event_kind) relayed_actions)

abbrev attachment_state : String → String
attachment_state state =
    if state == "COMPLETE" then "complete" else if state == "FAILED" then "failed" else "pending"

-- `renderAttachment`
unfoldable pub render_attachment : StoredAttachment → DiscordAttachment
render_attachment a = record {
  content_type = a.content_type;
  filename = a.filename;
  proxy_url = a.proxy_url;
  size = or_value a.size 0;
  state = attachment_state a.state;
  url = a.source_url;
}

abbrev special : String
special = "\\`*_{}[]()<>#+.!|~"

-- `escapeDiscordMarkdown`
unfoldable pub escape_discord_markdown : String → String
escape_discord_markdown no_text = ""
escape_discord_markdown (c onto s) =
    let later = escape_discord_markdown s in
    if includes c special then "\\" <> (c onto later) else c onto later

module _ (env : Env) where
  -- `githubActorProfileUrl`
  unfoldable pub github_actor_profile_url : Option Json → String → String
  github_actor_profile_url value username =
      or_value (elim (object_of value) [ none ↦ none | some v ↦ optional_string v "html_url" ])
        ("https://github.com/" <> env.encode_uri username)

  -- `isOwnGitHubBotEvent`; an empty login counts as none.
  unfoldable pub is_own_github_bot_event : Json → Bool
  unfolding truthy
  is_own_github_bot_event payload = elim (object_of (member payload "sender")) [
    | none ↦ false
    | some sender ↦ elim (truthy (optional_string sender "login")) [
      | none ↦ false
      | some login ↦ env.remote.is_own_bot_login login
    ]
  ]

  abbrev thread_link : Option String → String
  thread_link none = ""
  thread_link (some url) = " ([Discord thread](" <> url <> "))"

  -- `formatGitHubCloseReason`; an empty URL counts as none.
  unfoldable pub format_github_close_reason :
      Option String → Option String → Option String → Result String
  unfolding truthy issue_reference
  format_github_close_reason reason duplicate_url discord_url = elim reason [
    | none ↦ ok "marked as completed"
    | some r ↦
        if r == "duplicate"
        then elim (truthy duplicate_url) [
          | none ↦ ok "marked as duplicate"
          | some url ↦ do
            reference ← issue_reference env url
            ok (
                "marked as duplicate of ["
                <> reference
                <> "]("
                <> url
                <> ")"
                <> thread_link (truthy discord_url))
        ]
        else ok (if r == "not_planned" then "marked as not planned" else "marked as completed")
  ]

  abbrev joined : List String → String
  joined [] = ""
  joined (s ∷ ss) = s <> joined ss

  -- `truncateGraphemes` of render/github-to-discord.ts
  unfoldable pub truncate_graphemes : String → ℕ → String
  truncate_graphemes value maximum =
      let graphemes = env.graphemes value in
      if leb (length graphemes) maximum then value else joined (take (maximum - 1) graphemes) <> "…"

  -- `discordSyncFingerprint`
  unfoldable pub discord_sync_fingerprint : String → String → List String → String → String → String
  discord_sync_fingerprint body jump_url labels repository title = env.hash (
      env.codec.stringify (
        obj (
          field "body" (str body) (
            field "jumpUrl" (str jump_url) (
              field "labels" (arr (json_strings labels)) (
                field "repository" (str repository)
                  (field "title" (str title) (field "renderVersion" (num 4) end))))))))

  abbrev location_parts : Option Location → List String
  location_parts none = []
  location_parts (some l) = if l.hostname == "github.com" then split_at "/" l.pathname else []

  -- `/^\/([^/]+)\/([^/]+)\/issues\/(\d+)\/?$/` on the parts: the owner, the repository, the number.
  abbrev pub issue_path : List String → Option (String × (String × String))
  issue_path (root ∷ owner ∷ name ∷ kind ∷ number ∷ rest) =
      if root == ""
        && not (owner == "")
        && not (name == "")
        && kind == "issues"
        && is_number number
        && elim rest [ [] ↦ true | last ∷ [] ↦ last == "" | _ ↦ false ]
      then some (owner, (name, number))
      else none
  issue_path _ = none

  -- The number of the issue that the URL names in the repository of the mapping.
  unfoldable pub mapped_issue_number : ForumMappingConfig → String → Option ℕ
  mapped_issue_number mapping url = elim (issue_path (location_parts (env.parse_location url))) [
    | none ↦ none
    | some (owner, (name, number)) ↦
        if env.network.lower owner == env.network.lower mapping.repository.owner
          && env.network.lower name == env.network.lower mapping.repository.name
        then some (env.to_number number)
        else none
  ]
