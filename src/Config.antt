-- ===== src/Config.antt =====
-- config/index.ts and config/normalize.ts: the configuration and its validation. A record that maps
-- keys to values is the list of its entries. Parameters: `lower` is `toLocaleLowerCase("en-US")`, `trim`
-- is `trim`, `parse_url` is `new URL`, `is_date` says that `Date.parse` gives a number. A configured
-- number is a whole one.
pub mod Patterns
pub mod Laws
use Prim.Native.Char.{Char}
use Prim.Native.String.{count, ◌++◌ as ◌<>◌}
use forum_relay.Common.{
  ℕ, String, Bool, true, false, not, ◌&&◌, ◌||◌, List, [], ◌∷◌, Option, none, some, any, ◌==◌,
  string_eq, ltb, leb, if◌then◌else◌,
}
use forum_relay.Common.Texts.{includes, ends_with, all_chars, is_between}
use forum_relay.Config.Patterns.{is_snowflake, is_mapping_key}
use forum_relay.Retry.{Result, ok, err, Thrown, ◌>>=◌}

pub data BootstrapIssueFilter : Type 0 where
  all_issues open_only : BootstrapIssueFilter

pub data BootstrapThreadFilter : Type 0 where
  all_threads active_only : BootstrapThreadFilter

pub record BootstrapStateOverride : Type 0 where
  pub is_open : Bool
  pub locked : Bool

pub data BootstrapConfig : Type 0 where
  from_github : BootstrapIssueFilter → Option String → BootstrapConfig
  from_discord :
      BootstrapThreadFilter
      → Option String
      → Option (List (String × BootstrapStateOverride))
      → BootstrapConfig

pub record RepositoryConfig : Type 0 where
  pub owner : String
  pub name : String

pub record ForumMappingConfig : Type 0 where
  pub forum_channel_id : String
  pub repository : RepositoryConfig
  pub moderator_role_ids : List String
  pub bootstrap : BootstrapConfig

pub record MaintenanceConfig : Type 0 where
  pub failed_webhook_delivery_check_minutes : Option ℕ
  pub full_reconciliation_interval_hours : Option ℕ
  pub local_backup_count : Option ℕ
  pub processed_payload_retention_days : Option ℕ

pub record NormalizedMaintenanceConfig : Type 0 where
  pub failed_webhook_delivery_check_minutes : ℕ
  pub full_reconciliation_interval_hours : ℕ
  pub local_backup_count : ℕ
  pub processed_payload_retention_days : ℕ

-- The presence (`status`) is passed on as it is, and left out.
pub record Config (M : Type 0) : Type 0 where
  pub client_id : String
  pub guild_id : String
  pub owner_id : String
  pub administrator_role_ids : List String
  pub log_channel_id : Option String
  pub public_base_url : String
  pub maintenance : M
  pub mappings : List (String × ForumMappingConfig)

pub record Url : Type 0 where
  pub protocol : String
  pub pathname : String
  pub search : String
  pub hash : String

-- A validation: it throws, or returns nothing.
abbrev pub Checked : Type 0
Checked = Result {0} Unit

abbrev pub throw {ℓ} : {A : Type ℓ} → String → Result A
throw message = err (Thrown.plain message)

-- `if (broken) throw`
abbrev pub check : Bool → String → Checked
check broken message = if broken then throw message else ok tt

abbrev pub has : String → List String → Bool
has s seen = any (λ t. t == s) seen

unfoldable pub validate_snowflake : String → String → Checked
unfolding is_snowflake
validate_snowflake value path =
    check (not (is_snowflake value)) (path <> " must be a Discord snowflake.")

-- The loop, on what it has seen.
unfoldable pub validate_unseen : String → List String → List String → Checked
unfolding validate_snowflake
validate_unseen path seen [] = ok tt
validate_unseen path seen (value ∷ values) = validate_snowflake value path >>= λ _.
    check (has value seen) (path <> " contains duplicate Discord ID " <> value <> ".") >>= λ _.
    validate_unseen path (value ∷ seen) values

abbrev pub validate_snowflakes : List String → String → Checked
validate_snowflakes values path = validate_unseen path [] values

unfoldable pub validate_positive_integer : ℕ → String → ℕ → Checked
validate_positive_integer value path maximum =
    check (ltb value 1 || ltb maximum value) (path <> " must be an integer in its bounds.")

-- The keys of an object.
unfoldable pub validate_thread_ids : String → List (String × BootstrapStateOverride) → Checked
unfolding validate_snowflake
validate_thread_ids path [] = ok tt
validate_thread_ids path (entry ∷ entries) =
    validate_snowflake entry.0 path >>= λ _. validate_thread_ids path entries

unfoldable pub validate_public_base_url : (String → Option Url) → String → Checked
validate_public_base_url parse_url value = elim (parse_url value) [
  | none ↦ throw "Invalid URL"
  | some url ↦
      check (not (url.protocol == "http:") && not (url.protocol == "https:"))
        "publicBaseUrl must use HTTP or HTTPS."
      >>= λ _.
          check (not (url.pathname == "/") || not (url.search == "") || not (url.hash == ""))
            "publicBaseUrl must be an origin without a path, query, or fragment."
]

module _ (lower trim : String → String) (is_date : String → Bool) where
  unfoldable pub validate_repository : String → RepositoryConfig → Checked
  unfolding includes ends_with
  validate_repository key r =
      check (trim r.owner == "" || trim r.name == "")
        ("Mapping " <> key <> " must configure a GitHub owner and repository name.")
      >>= λ _.
          check (includes "/" r.owner || includes "/" r.name || ends_with ".git" r.name)
            ("Mapping " <> key <> " contains an invalid GitHub repository locator.")

  -- `createdAfter` counts when it is there and not empty.
  abbrev pub validate_created_after : String → Option String → Checked
  validate_created_after key none = ok tt
  validate_created_after key (some date) =
      check (not (date == "") && not (is_date date))
        ("Mapping " <> key <> " bootstrap.createdAfter must be ISO 8601.")

  unfoldable pub validate_bootstrap : String → BootstrapConfig → Checked
  unfolding validate_thread_ids
  validate_bootstrap key (from_github filter created) = validate_created_after key created
  validate_bootstrap key (from_discord filter created none) = validate_created_after key created
  validate_bootstrap key (from_discord filter created (some overrides)) =
      validate_created_after key created >>= λ _.
      validate_thread_ids ("mappings." <> key <> ".bootstrap.stateOverrides thread ID") overrides

  abbrev pub repository_key : ForumMappingConfig → String
  repository_key m = lower (m.repository.owner <> "/" <> m.repository.name)

  -- One round, before the sets are extended.
  unfoldable pub validate_mapping :
      List String → List String → String → ForumMappingConfig → Checked
  unfolding validate_repository validate_bootstrap validate_snowflake is_mapping_key validate_unseen
  validate_mapping forums repositories key m =
      check (not (is_mapping_key key)) ("Mapping key " <> key <> " must use lowercase letters.")
      >>= λ _.
          validate_snowflake m.forum_channel_id ("mappings." <> key <> ".forumChannelId") >>= λ _.
          validate_snowflakes m.moderator_role_ids ("mappings." <> key <> ".moderatorRoleIds")
          >>= λ _. validate_repository key m.repository >>= λ _.
              validate_bootstrap key m.bootstrap >>= λ _.
              check (has m.forum_channel_id forums) (
                "Discord forum " <> m.forum_channel_id
                <> " is configured in more than one mapping.")
              >>= λ _. check (has (repository_key m) repositories) (
                  "GitHub repository "
                  <> repository_key m
                  <> " is configured in more than one mapping.")

  unfoldable pub validate_mappings :
      List String → List String → List (String × ForumMappingConfig) → Checked
  unfolding validate_mapping
  validate_mappings forums repositories [] = ok tt
  validate_mappings forums repositories (entry ∷ entries) =
      validate_mapping forums repositories entry.0 entry.1 >>= λ _.
      validate_mappings (entry.1.forum_channel_id ∷ forums) (repository_key entry.1 ∷ repositories)
        entries

  abbrev or_default : Option ℕ → ℕ → ℕ
  or_default none n = n
  or_default (some m) n = m

  -- `config.maintenance?.… ?? …`
  abbrev pub normalized_maintenance : Option MaintenanceConfig → NormalizedMaintenanceConfig
  normalized_maintenance none = record {
    failed_webhook_delivery_check_minutes = 5;
    full_reconciliation_interval_hours = 24;
    local_backup_count = 7;
    processed_payload_retention_days = 30;
  }
  normalized_maintenance (some m) = record {
    failed_webhook_delivery_check_minutes = or_default m.failed_webhook_delivery_check_minutes 5;
    full_reconciliation_interval_hours = or_default m.full_reconciliation_interval_hours 24;
    local_backup_count = or_default m.local_backup_count 7;
    processed_payload_retention_days = or_default m.processed_payload_retention_days 30;
  }

  unfoldable pub validate_maintenance : NormalizedMaintenanceConfig → Checked
  unfolding validate_positive_integer
  validate_maintenance m =
      validate_positive_integer m.failed_webhook_delivery_check_minutes
        "maintenance.failedWebhookDeliveryCheckMinutes" 1440
      >>= λ _.
          validate_positive_integer m.full_reconciliation_interval_hours
            "maintenance.fullReconciliationIntervalHours" 720
          >>= λ _.
              validate_positive_integer m.local_backup_count "maintenance.localBackupCount" 365
              >>= λ _.
                  validate_positive_integer m.processed_payload_retention_days
                    "maintenance.processedPayloadRetentionDays" 3650

  abbrev pub validate_log_channel : Option String → Checked
  validate_log_channel none = ok tt
  validate_log_channel (some id) = if id == "" then ok tt else validate_snowflake id "logChannelId"

  -- `normalizeConfig` of the one version; the copies of the arrays and objects have the same values.
  unfoldable pub normalize_config :
      (String → Option Url)
      → Config (Option MaintenanceConfig)
      → Result (Config NormalizedMaintenanceConfig)
  unfolding validate_snowflake validate_unseen validate_public_base_url validate_mappings
      validate_maintenance
  normalize_config parse_url config = validate_snowflake config.client_id "clientId" >>= λ _.
      validate_snowflake config.guild_id "guildId" >>= λ _.
      validate_snowflake config.owner_id "ownerId" >>= λ _.
      validate_snowflakes config.administrator_role_ids "administratorRoleIds" >>= λ _.
      validate_log_channel config.log_channel_id >>= λ _.
      validate_public_base_url parse_url config.public_base_url >>= λ _.
      validate_mappings [] [] config.mappings >>= λ _.
      validate_maintenance (normalized_maintenance config.maintenance) >>= λ _. ok (record {
        client_id = config.client_id;
        guild_id = config.guild_id;
        owner_id = config.owner_id;
        administrator_role_ids = config.administrator_role_ids;
        log_channel_id = config.log_channel_id;
        public_base_url = config.public_base_url;
        maintenance = normalized_maintenance config.maintenance;
        mappings = config.mappings;
      })
