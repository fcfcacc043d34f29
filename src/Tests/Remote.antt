-- ===== src/Tests/Remote.antt =====
-- Runs of the parts that face Discord and GitHub.
use Prim.Native.String.{count}
use forum_relay.Common.{
  ℕ, ◌≤◌, ◌≡◌, ◌≢◌, ◌↔◌, refl, inr, String, true, false, Option, none, some, [], ◌∷◌, length, All,
  arith,
}
use forum_relay.Common.Json.{Json, str, bool, arr, obj, nil, cons, end, field, get, json_string}
use forum_relay.Retry.{ok}
use forum_relay.Media.{Network, Url, Response}
use forum_relay.Media.Address.{is_forbidden_address}
use forum_relay.Media.Content.{download_github_media, DownloadedFile}
use forum_relay.Media.Laws.{IsSafe, download_github_media-IsSafe, download_github_media-bound}
use forum_relay.Labels.{
  RepositoryLabel, discord_tag_name, plan_label_bindings, StoredLabelBinding, DiscordForumTag,
}
use forum_relay.Labels.Bindings.{discord_tag_name_bound, plan_label_bindings-Numbered, Numbered}
use forum_relay.Labels.Tags.{plan_discord_forum_tags}
use forum_relay.Labels.Slots.{IsSound, plan_discord_forum_tags-IsSound}
use forum_relay.Transitions.{ThreadState, classify_thread_transition, unchanged, human_audit}
use forum_relay.Transitions.Laws.{Same, follow, follow-Same, classify_thread_transition-unchanged}
use forum_relay.Relay.{IssueThreadLink, open_issue}
use forum_relay.Relay.Links.{LinkTable}
use forum_relay.Audit.{AuditRow, AuditState}
use forum_relay.Audit.Classify.{Lifecycle, Verdict, enqueue, classify, tick}
use forum_relay.Audit.Laws.{classify-actor}
use forum_relay.Audit.Attempts.{Inv, tick-Inv}

abbrev same_text : String → String
same_text s = s

-- One host at one address, and a picture of three bytes there.
abbrev picture : Response
picture = record {
  status = 200;
  location = none;
  content_length = 3;
  content_type = none;
  body = some ((255 ∷ 216 ∷ []) ∷ (255 ∷ []) ∷ []);
}

abbrev pub net : Network
net = record {
  lower = same_text;
  is_ip = λ s. 4;
  octets = λ s. 140 ∷ 82 ∷ 121 ∷ 3 ∷ [];
  lookup = λ s. "140.82.121.3" ∷ [];
  fetch = λ url authorized. picture;
  resolve = λ location base. none;
}

abbrev asset : Url
asset = record { protocol = "https:"; hostname = "github.com"; has_jwt = false }

abbrev downloaded : DownloadedFile
downloaded = record {
  content_type = "image/jpeg";
  content = 255 ∷ 216 ∷ 255 ∷ [];
  size = 3;
  url = asset;
}

download_github_media-IsSafe_example :
    All (IsSafe net) (download_github_media net same_text true 10 asset).0
    × (length (download_github_media net same_text true 10 asset).0 ≤ 6)
download_github_media-IsSafe_example = download_github_media-IsSafe net same_text true 10 asset

download_ends : (download_github_media net same_text true 10 asset).1 ≡ ok downloaded
unfolding download_github_media is_forbidden_address
download_ends = refl

download_github_media-bound_example :
    (downloaded.size ≡ length downloaded.content) × (downloaded.size ≤ 10)
download_github_media-bound_example =
    download_github_media-bound net same_text true 10 asset downloaded download_ends

abbrev base36 : ℕ → String
base36 n = "2s"

abbrev long_label : RepositoryLabel
long_label = record { id = 100; name = "a label of more than twenty characters" }

discord_tag_name_bound_example : count (discord_tag_name base36 long_label) ≤ 20
discord_tag_name_bound_example = discord_tag_name_bound base36 long_label (omega arith)

abbrev stale_binding : StoredLabelBinding
stale_binding = record {
  configured_discord_name = "old";
  configured_github_name = "old";
  discord_current_name = none;
  discord_tag_id = some "7";
  github_label_id = some 3;
}

plan_label_bindings-Numbered_example :
    Numbered 0
      (plan_label_bindings base36 Prim.Native.String.compare (long_label ∷ []) (stale_binding ∷ []))
plan_label_bindings-Numbered_example =
    plan_label_bindings-Numbered base36 Prim.Native.String.compare (long_label ∷ [])
      (stale_binding ∷ [])

abbrev bug_tag : DiscordForumTag
bug_tag = record { emoji_id = none; emoji_name = none; id = "7"; moderated = false; name = "bug" }

plan_discord_forum_tags-IsSound_example : IsSound 20 (
    plan_discord_forum_tags same_text base36
      (bug_tag ∷ [])
      (record { desired_name = "feature"; position = 0; stored_tag_id = none } ∷ [])
      (λ id. false)
      20)
plan_discord_forum_tags-IsSound_example =
    plan_discord_forum_tags-IsSound same_text base36 20 (bug_tag ∷ [])
      (record { desired_name = "feature"; position = 0; stored_tag_id = none } ∷ []) (λ id. false)
      (omega arith)

abbrev opened : ThreadState
opened = record { applied_tags = none; archived = false; locked = false; name = "Crash" }

abbrev closed_thread : ThreadState
closed_thread = record {
  applied_tags = some ("7" ∷ []);
  archived = true;
  locked = true;
  name = "Fixed";
}

follow-Same_example : Same (follow 4 opened closed_thread) closed_thread
follow-Same_example = follow-Same opened closed_thread

classify_thread_transition-unchanged_example :
    (classify_thread_transition opened closed_thread human_audit ≡ unchanged)
    ↔ Same opened closed_thread
classify_thread_transition-unchanged_example =
    classify_thread_transition-unchanged opened closed_thread

-- A thread that was locked by the user "u".
abbrev link : IssueThreadLink
link = record {
  discord_thread_id = some "t";
  full_title = "Crash";
  github_issue_id = 1;
  github_issue_node_id = "n";
  github_issue_number = 1;
  id = 1;
  locked = false;
  mapping_key = "m";
  state = open_issue;
  status = "ACTIVE";
}

abbrev links : LinkTable
links = record {
  last_id = 1;
  rows =
      record {
        link = link;
        previous_discord_thread_ids_json = "[]";
        created_at = 0;
        updated_at = 0;
      }
      ∷ [];
}

abbrev audit_log : Json
audit_log = obj (
    field "audit_log_entries"
      (arr (
        cons
          (obj (field "target_id" (str "t") (field "id" (str "0") (field "user_id" (str "u") end))))
          nil))
      end)

abbrev job : AuditRow
job = record {
  id = "j";
  mapping_key = "m";
  thread_id = "t";
  observed = obj (field "thread_metadata" (obj (field "locked" (bool true) end)) end);
  observed_at = 1420070400000;
  state = AuditState.processing;
  attempt_count = 1;
  next_attempt_at = 0;
  classification = none;
  updated_at = 0;
}

abbrev text_of : Option Json → String
text_of (some (str s)) = s
text_of _ = "undefined"

abbrev locking : Lifecycle
locking = record {
  action = "lock";
  actor = record { actor_id = "u"; actor_name = "user-u" };
  labels = [];
  link_id = 1;
  title = "Crash";
  idempotency_key = "github:lifecycle:audit:j:lock";
}

locking_enqueued :
    classify text_of (λ s. some 0) (λ ids. []) "relay" links (ok audit_log) job
    ≡ ok (enqueue locking)
unfolding classify get json_string
locking_enqueued = refl

classify-actor_example : locking.actor.actor_id ≢ "relay"
classify-actor_example =
    classify-actor text_of (λ s. some 0) (λ ids. []) "relay" links (ok audit_log) job locking
      locking_enqueued

abbrev waiting_job : AuditRow
waiting_job = record job { state = AuditState.pending; attempt_count = 4 }

tick-Inv_example :
    Inv (tick same_text (λ r. ok (Verdict.retry_as "X")) (λ op. true) 5 6 (waiting_job ∷ []))
tick-Inv_example =
    tick-Inv same_text (λ r. ok (Verdict.retry_as "X")) (λ op. true) 5 6 (waiting_job ∷ [])
      ((tt, tt), ((omega arith, inr (omega arith)), tt))
