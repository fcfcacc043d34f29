-- ===== src/Tests/Tables.antt =====
-- Runs of the configuration and of the repositories.
use forum_relay.Common.{
  ◌≡◌, refl, inl, inr, ◌⊎◌, String, Bool, true, false, Option, none, some, List, [], ◌∷◌, All,
}
use forum_relay.Retry.{ok}
use forum_relay.Schema.Jobs.{Mapping, MappingState}
use forum_relay.Config.{
  Config, ForumMappingConfig, MaintenanceConfig, NormalizedMaintenanceConfig, BootstrapConfig,
  BootstrapIssueFilter, Url, normalize_config, normalized_maintenance,
}
use forum_relay.Config.Laws.{
  IsUsable, Distinct, forums_of, repositories_of, IsKept, normalize_config-ok,
}
use forum_relay.Mappings.{apply_config}
use forum_relay.Mappings.Laws.{Continues, IsSettled, apply_config-ok}
use forum_relay.Relay.{
  SegmentRow, GitHubIssueIdentity, IssueThreadLink, open_issue, UpsertRelayItem, Platform,
}
use forum_relay.Relay.Links.{LinkTable, find_link_by_github, ensure_github_issue_link, issue_link}
use forum_relay.Relay.Refresh.{ensure_github_issue_link-find}
use forum_relay.Relay.Items.{upsert_relay_item, new_item, new_row}
use forum_relay.Relay.Sources.{find_source, upsert_relay_item-find}
use forum_relay.Relay.Segments.{replace_segments, get_segments, delete_segments}
use forum_relay.Relay.Segments.Laws.{shown, replace_segments-get}
use forum_relay.Common.Json.{Json, null}
use forum_relay.Intake.{GatewayEvent, Intake, Draw, handle}
use forum_relay.Intake.Laws.{AddsOne, IsPersons, handle-AddsOne}
use forum_relay.Tests.Queues.{codec, empty}
use forum_relay.Tests.{apart}

abbrev pub same_text : String → String
same_text s = s

abbrev mapping : ForumMappingConfig
mapping = record {
  forum_channel_id = "123456789012345678";
  repository = record { owner = "autoplus-gg"; name = "forum-relay" };
  moderator_role_ids = [];
  bootstrap = BootstrapConfig.from_github BootstrapIssueFilter.open_only none;
}

abbrev config : Config (Option MaintenanceConfig)
config = record {
  client_id = "123456789012345678";
  guild_id = "123456789012345678";
  owner_id = "123456789012345678";
  administrator_role_ids = [];
  log_channel_id = none;
  public_base_url = "https://relay.example";
  maintenance = none;
  mappings = ("support", mapping) ∷ [];
}

abbrev any_date : String → Bool
any_date s = true

abbrev pub normalized : Config NormalizedMaintenanceConfig
normalized = record {
  client_id = "123456789012345678";
  guild_id = "123456789012345678";
  owner_id = "123456789012345678";
  administrator_role_ids = [];
  log_channel_id = none;
  public_base_url = "https://relay.example";
  maintenance = normalized_maintenance same_text same_text any_date none;
  mappings = ("support", mapping) ∷ [];
}

abbrev parse_url : String → Option Url
parse_url s = some (record { protocol = "https:"; pathname = "/"; search = ""; hash = "" })

accepted_config : normalize_config same_text same_text any_date parse_url config ≡ ok normalized
unfolding normalize_config
accepted_config = refl

normalize_config-ok_example :
    All (IsUsable same_text same_text any_date) normalized.mappings
    × Distinct (forums_of same_text same_text any_date normalized.mappings)
    × Distinct (repositories_of same_text same_text any_date normalized.mappings)
    × IsKept same_text same_text any_date normalized.maintenance
normalize_config-ok_example =
    normalize_config-ok same_text same_text any_date parse_url config normalized accepted_config

abbrev fingerprint : ForumMappingConfig → String
fingerprint m = m.forum_channel_id

-- A mapping that is configured no longer.
abbrev old_mapping : Mapping
old_mapping = record {
  key = "old";
  guild_id = "g";
  forum_channel_id = "f";
  github_owner = "o";
  github_repository = "r";
  state = MappingState.active;
  config_fingerprint = "";
  bootstrap_completed_at = none;
  disabled_at = none;
  last_error_code = none;
  last_error_message = none;
  created_at = 0;
  updated_at = 0;
}

abbrev applied : List Mapping
applied =
    record old_mapping { state = MappingState.disabled; disabled_at = some 5; updated_at = 5 }
    ∷ record {
      key = "support";
      guild_id = "123456789012345678";
      forum_channel_id = "123456789012345678";
      github_owner = "autoplus-gg";
      github_repository = "forum-relay";
      state = MappingState.pending_bootstrap;
      config_fingerprint = "123456789012345678";
      bootstrap_completed_at = none;
      disabled_at = none;
      last_error_code = none;
      last_error_message = none;
      created_at = 5;
      updated_at = 5;
    }
    ∷ []

config_applied : apply_config same_text fingerprint normalized 5 (old_mapping ∷ []) ≡ ok applied
unfolding apply_config
config_applied = refl

apply_config-ok_example :
    Continues same_text fingerprint normalized.guild_id 5 normalized.mappings
      (old_mapping ∷ [])
      applied
    × All (IsSettled same_text fingerprint normalized.guild_id 5 normalized.mappings) applied
apply_config-ok_example =
    apply_config-ok same_text fingerprint normalized 5 (old_mapping ∷ []) applied (inl refl, tt)
      config_applied

abbrev segment_rows : List SegmentRow
segment_rows =
    record {
      relay_item_id = "i";
      position = 0;
      discord_message_id = "1";
      render_hash = "x";
      created_at = 0;
      updated_at = 0;
    }
    ∷ record {
      relay_item_id = "j";
      position = 0;
      discord_message_id = "2";
      render_hash = "y";
      created_at = 0;
      updated_at = 0;
    }
    ∷ []

replace_segments-get_example :
    (rows' : List SegmentRow) × (replace_segments "i" ("1" ∷ "3" ∷ []) ("h" ∷ []) 5 segment_rows
      ≡ ok rows')
    × (get_segments rows' "i" ≡ shown "i" ("h" ∷ []) 5 0 ("1" ∷ "3" ∷ []))
    × (delete_segments "i" rows' ≡ delete_segments "i" segment_rows)
replace_segments-get_example =
    replace_segments-get "i" ("h" ∷ []) 5 ("1" ∷ "3" ∷ []) segment_rows
      ((apart "1" "3" refl, tt), (tt, tt))
      (inl refl, (inr (apart "2" "1" refl, (apart "2" "3" refl, tt)), tt))

abbrev issue : GitHubIssueIdentity
issue = record {
  id = 9;
  locked = true;
  node_id = "n";
  number = 4;
  state = open_issue;
  title = "Crash";
}

abbrev no_links : LinkTable
no_links = record { last_id = 0; rows = [] }

abbrev new_link : IssueThreadLink
new_link = issue_link no_links "m" issue

abbrev one_link : LinkTable
one_link = record {
  last_id = 1;
  rows =
      record {
        link = new_link;
        previous_discord_thread_ids_json = "[]";
        created_at = 5;
        updated_at = 5;
      }
      ∷ [];
}

link_ensured : ensure_github_issue_link "m" issue 5 no_links ≡ ok (new_link, one_link)
unfolding ensure_github_issue_link
link_ensured = refl

ensure_github_issue_link-find_example :
    (find_link_by_github one_link "m" issue.id ≡ some new_link)
    × (new_link.full_title ≡ issue.title)
    × (new_link.state ≡ issue.state)
    × (new_link.locked ≡ issue.locked)
ensure_github_issue_link-find_example =
    ensure_github_issue_link-find "m" issue 5 no_links new_link one_link link_ensured

abbrev input : UpsertRelayItem
input = record {
  author = record { avatar_url = none; display_name = "Ann"; id = "1"; username = "ann" };
  destination_kind = "comment";
  destination_platform = Platform.github;
  issue_thread_link_id = 1;
  mapping_key = "m";
  parent_source_id = none;
  source_body = "hello";
  source_id = "s";
  source_kind = "message";
  source_platform = Platform.discord;
  source_revision = "1";
}

item_upserted :
    upsert_relay_item same_text input "i" 5 []
    ≡ ok (new_item same_text input "i", new_row same_text input "i" 5 ∷ [])
unfolding upsert_relay_item
item_upserted = refl

upsert_relay_item-find_example :
    (find_source same_text (new_row same_text input "i" 5 ∷ []) input
      ≡ some (record (new_item same_text input "i") { author = input.author }))
    × ((new_item same_text input "i").source_body ≡ input.source_body)
    × ((new_item same_text input "i").state ≡ "ACTIVE")
upsert_relay_item-find_example =
    upsert_relay_item-find same_text input "i" 5 [] (new_item same_text input "i")
      (new_row same_text input "i" 5 ∷ []) item_upserted

abbrev draw : Draw
draw = record { id = "e"; correlation = "c"; occurrence = "o"; now = 5 }

-- A message of a bot.
abbrev bot_message : GatewayEvent
bot_message =
    GatewayEvent.message_created
      (record {
        application_id = none;
        author = some (record { bot = true; id = "bot" });
        has_interaction_metadata = false;
        webhook_id = none;
      })
      "t" "m" null

abbrev intake : Intake
intake = record { database = empty; thread_mappings = [] }

abbrev hash_of : Json → String
hash_of v = "hash"

handle-AddsOne_example :
    AddsOne "t" []
      (handle codec hash_of "relay" normalized.mappings no_links draw bot_message
        intake).database.inbox_events
    × (IsPersons "relay" bot_message
        ⊎ (handle codec hash_of "relay" normalized.mappings no_links draw bot_message intake
            ≡ intake))
handle-AddsOne_example =
    handle-AddsOne codec hash_of "relay" normalized.mappings no_links draw bot_message intake
