-- ===== src/Engine.antt =====
-- relay/engine.ts: the engine that turns an event into work and carries the work out. A method is a
-- function of the world: the tables, the number of times that the clock and the UUID generator were read,
-- and the calls made to Discord, GitHub and the media proxy, the newest first. It gives the world after it
-- and what it returns or throws. The clients are the record `Remote`: what a call answers depends on the
-- calls made so far, itself included. Logging is left out.
pub mod Ends
pub mod Store
pub mod Payloads
pub mod Decisions
pub mod Queueing
pub mod Messages
pub mod Comments
pub mod Closing
pub mod Lifecycle
pub mod Events
pub mod Gateway
pub mod Dispatch
use forum_relay.Common.{
  ℕ, suc, String, Bool, true, false, List, [], ◌∷◌, Option, none, some, ◌==◌, string_eq,
  if◌then◌else◌,
}
use forum_relay.Common.Json.{Json}
use forum_relay.Schema.Jobs.{Database}
use forum_relay.Retry.{Result, ok, err, Thrown, failure, FailureCategory}
use forum_relay.Jobs.{Codec}
use forum_relay.Config.{Config, NormalizedMaintenanceConfig}
use forum_relay.Media.{Network, Url}
use forum_relay.Audit.{AuditRow}
use forum_relay.Relay.{
  IssueState, ItemRow, SegmentRow, ShadowRow, AttachmentRow, RelayAuthor, StoredAttachment,
}
use forum_relay.Relay.Links.{LinkTable}
use forum_relay.Relay.Tags.{LabelBindingRow}

pub record RawFile : Type 0 where
  pub name : String
  pub bytes : List ℕ

-- A message as a webhook shows it.
pub record Segment : Type 0 where
  pub avatar_url : Option String
  pub components : Json
  pub files : List RawFile
  pub username : String

pub record ThreadChanges : Type 0 where
  pub applied_tag_ids : Option (List String)
  pub archived : Option Bool
  pub locked : Option Bool
  pub name : Option String

pub record IssueChanges : Type 0 where
  pub body : Option String
  pub duplicate_issue_id : Option ℕ
  pub labels : Option (List String)
  pub state : Option IssueState
  pub state_reason : Option String
  pub title : Option String

pub record NewIssue : Type 0 where
  pub body : String
  pub labels : List String
  pub mapping_key : String
  pub title : String

pub record NewComment : Type 0 where
  pub body : String
  pub issue_number : ℕ
  pub mapping_key : String

-- The calls of the clients, each with its arguments.
pub data Call : Type 0 where
  fetch_message : String → String → Call
  edit_thread : String → ThreadChanges → Call
  create_thread : String → String → Segment → List String → Call
  create_message : String → String → Segment → Call
  edit_message : String → String → String → Segment → Call
  delete_message : String → String → String → Call
  sync_forum_tags : String → Call
  sync_labels : String → Call
  bootstrap_issues : String → Call
  current_issue : String → ℕ → Call
  duplicate_of : String → ℕ → Call
  project_v2 : String → String → Call
  project_v2_for_item : String → String → Call
  rendered_media_urls : String → String → Call
  create_issue : NewIssue → Call
  issue_body : String → ℕ → Call
  update_issue : String → ℕ → IssueChanges → Call
  set_lock : String → ℕ → Bool → Call
  create_comment : NewComment → Call
  comment_body : String → ℕ → Call
  update_comment : String → ℕ → String → Call
  delete_comment : String → ℕ → Call
  download_media : String → String → Call
  upload_attachment : String → Call

pub record CreatedThread : Type 0 where
  pub message_id : String
  pub thread_id : String

pub record CreatedIssue : Type 0 where
  pub id : ℕ
  pub node_id : String
  pub number : ℕ
  pub url : String

pub record CreatedComment : Type 0 where
  pub id : ℕ
  pub url : String

pub record CurrentIssue : Type 0 where
  pub id : ℕ
  pub payload : Json
  pub state : IssueState

-- An issue with its comments, each as the payload of a webhook.
pub record BootstrapIssue : Type 0 where
  pub id : ℕ
  pub comments : List Json

pub record ProjectSummary : Type 0 where
  pub title : String
  pub url : String

pub record ProxiedMedia : Type 0 where
  pub hash : String
  pub url : String

-- What the clients answer after the calls made so far. A call that answers nothing of use gives a unit.
pub record Remote : Type 0 where
  pub done : List Call → Result (Unit {0})
  pub fetch_message : List Call → Result Json
  pub create_thread : List Call → Result CreatedThread
  pub create_message : List Call → Result String
  pub bootstrap_issues : List Call → Result (List BootstrapIssue)
  pub current_issue : List Call → Result CurrentIssue
  pub duplicate_of : List Call → Result (Option String)
  pub project : List Call → Result (Option ProjectSummary)
  pub rendered_media_urls : List Call → Result (List String)
  pub create_issue : List Call → Result CreatedIssue
  pub body : List Call → Result String
  pub create_comment : List Call → Result CreatedComment
  pub download_media : List Call → Result RawFile
  pub upload_attachment : List Call → Result ProxiedMedia
  pub is_own_bot_login : String → Bool

-- What the renderers of render/ are given, beside the body that they render.
pub record GitHubRenderInput : Type 0 where
  pub author_avatar_url : Option String
  pub author_username : String
  pub body : String
  pub jump_url : String
  pub media_attachments : List (String × RawFile)
  pub repository_url : String

pub record DiscordAttachment : Type 0 where
  pub content_type : Option String
  pub filename : String
  pub proxy_url : Option String
  pub size : ℕ
  pub state : String
  pub url : String

pub record DiscordToGitHubInput : Type 0 where
  pub attachments : List DiscordAttachment
  pub author : RelayAuthor
  pub content : String
  pub guild_id : String
  pub thread_id : String
  pub message_id : String

pub record ActivityRender : Type 0 where
  pub author : RelayAuthor
  pub content : String

-- The renderers: `media_urls` are the URLs of the media that the Markdown of a body shows.
pub record Renderers : Type 0 where
  pub media_urls : String → String → List String
  pub github_to_discord : GitHubRenderInput → List Segment
  pub discord_to_github : DiscordToGitHubInput → String
  pub github_activity : String → Json → Option ProjectSummary → Option ActivityRender

pub record Location : Type 0 where
  pub hostname : String
  pub pathname : String

-- What a method uses beside the tables: the configuration, the clients, the renderers and the platform.
-- `clock n` and `uuid n` are the n-th answers of `Date.now()` and `crypto.randomUUID()`, `show` is
-- `String` and `to_number` is `Number`, `graphemes` is `Intl.Segmenter`, and `decode_uri` throws on `none`.
pub record Env : Type 0 where
  pub config : Config NormalizedMaintenanceConfig
  pub codec : Codec
  pub remote : Remote
  pub render : Renderers
  pub network : Network
  pub hash : String → String
  pub show : ℕ → String
  pub to_number : String → ℕ
  pub graphemes : String → List String
  pub encode_uri : String → String
  pub decode_uri : String → Option String
  pub parse_location : String → Option Location
  pub parse_media_url : String → Option Url
  pub clock : ℕ → ℕ
  pub uuid : ℕ → String

pub record World : Type 0 where
  pub clock_reads : ℕ
  pub uuids : ℕ
  pub calls : List Call
  pub db : Database
  pub links : LinkTable
  pub items : List ItemRow
  pub segments : List SegmentRow
  pub shadows : List ShadowRow
  pub attachments : List AttachmentRow
  pub bindings : List LabelBindingRow
  pub audits : List AuditRow

abbrev pub M : Type 0 → Type 0
M A = World → World × Result A

abbrev pub after : {A B : Type 0} → World × Result A → (A → M B) → World × Result B
after (w, ok a) f = f a w
after (w, err e) f = (w, err e)

abbrev pub pure : {A : Type 0} → A → M A
pure a w = (w, ok a)

infixl 5 ◌>>=◌ ◌>>◌
abbrev pub ◌>>=◌ : {A B : Type 0} → M A → (A → M B) → M B
◌>>=◌ m f w = after (m w) f

abbrev pub ◌>>◌ : {A B : Type 0} → M A → M B → M B
m >> k = m >>= λ _. k

abbrev pub lift : {A : Type 0} → Result A → M A
lift r w = (w, r)

-- `throw new RelayFailure(message, category, code)`
abbrev pub raise : {A : Type 0} → String → FailureCategory → String → M A
raise message category code w = (w, err (Thrown.relay (failure message category code)))

abbrev pub rescued : {A : Type 0} → World × Result A → (Thrown → M A) → World × Result A
rescued (w, ok a) f = (w, ok a)
rescued (w, err e) f = f e w

-- `try { m } catch (e) { f(e) }`: what the tables and the clients saw of `m` stays.
abbrev pub rescue : {A : Type 0} → M A → (Thrown → M A) → M A
rescue m f w = rescued (m w) f

-- `for (const x of xs) await f(x)`
abbrev pub each : {A : Type 0} → List A → (A → M (Unit {0})) → M (Unit {0})
each [] f = pure tt
each (x ∷ xs) f = f x >> each xs f

-- `if (test) await m`
abbrev pub when : Bool → M (Unit {0}) → M (Unit {0})
when true m = m
when false m = pure tt

-- A text that is there and is not empty: what a test of it takes as true.
unfoldable pub truthy : Option String → Option String
truthy none = none
truthy (some s) = if s == "" then none else some s
