-- ===== src/Config/Laws.antt =====
-- What a configuration that `normalizeConfig` returns is.
use Prim.Native.String.{◌++◌ as ◌<>◌}
use forum_relay.Common.{
  ℕ, ◌≤◌, ◌≡◌, ◌≢◌, refl, subst, sym, String, Bool, true, false, not, ◌||◌, List, [], ◌∷◌, map,
  Option, string_eq, ltb, All, arith, text_iff,
}
use forum_relay.Retry.{ok_inj, Result, ok, err, ◌>>=◌}
use forum_relay.Config.Patterns.{is_snowflake, is_mapping_key}
use forum_relay.Config.{
  validate_log_channel, Config, ForumMappingConfig, MaintenanceConfig, NormalizedMaintenanceConfig,
  Url, Checked, check, has, validate_snowflake, validate_snowflakes, validate_positive_integer,
  validate_public_base_url, validate_repository, validate_bootstrap, repository_key,
  validate_mapping, validate_mappings, normalized_maintenance, validate_maintenance,
  normalize_config,
}

-- A sequence of validations ends well only if each does.
both : (a b : Checked) → (a >>= λ _. b) ≡ ok tt → (a ≡ ok tt) × (b ≡ ok tt)
both (ok tt) b h = (refl, h)
both (err e) b h = cc

first {ℓ} :
    {A : Type ℓ} (a : Checked) (b : Result A) (x : A)
    → (a >>= λ _. b) ≡ ok x
    → (a ≡ ok tt) × (b ≡ ok x)
first (ok tt) b x h = (refl, h)
first (err e) b x h = cc

check_passed : (broken : Bool) (message : String) → check broken message ≡ ok tt → broken ≡ false
check_passed true message h = cc
check_passed false message h = refl

unseen : (s : String) (seen : List String) → has s seen ≡ false → All (λ t. t ≢ s) seen
unseen s [] h = tt
unseen s (t ∷ seen) h = ground (arith, text_iff t s, unseen s seen)

-- Texts that differ from each other.
abbrev pub Distinct : List String → Type 0
Distinct [] = Unit
Distinct (s ∷ ss) = All (λ t. t ≢ s) ss × Distinct ss

not-false : (b : Bool) → not b ≡ false → b ≡ true
not-false b h = ground arith

validate_snowflake-ok :
    (value path : String) → validate_snowflake value path ≡ ok tt → is_snowflake value ≡ true
unfolding validate_snowflake
validate_snowflake-ok value path h =
    not-false (is_snowflake value) (check_passed (not (is_snowflake value)) _ h)

module _ (lower trim : String → String) (is_date : String → Bool) where
  abbrev Mappings : Type 0
  Mappings = List (String × ForumMappingConfig)

  -- What a round of the loop makes sure of.
  abbrev pub IsUsable : String × ForumMappingConfig → Type 0
  IsUsable entry = (is_mapping_key entry.0 ≡ true) × (is_snowflake entry.1.forum_channel_id ≡ true)

  abbrev pub forums_of : Mappings → List String
  forums_of = map (λ entry. entry.1.forum_channel_id)

  abbrev pub repositories_of : Mappings → List String
  repositories_of = map (λ entry. repository_key lower trim is_date entry.1)

  validate_mapping-ok :
      (forums repositories : List String) (key : String) (m : ForumMappingConfig)
      → validate_mapping lower trim is_date forums repositories key m ≡ ok tt
      → IsUsable (key, m)
        × (has m.forum_channel_id forums ≡ false)
        × (has (repository_key lower trim is_date m) repositories ≡ false)
  unfolding validate_mapping
  validate_mapping-ok forums repositories key m h =
      let (named, h₁) =
        both
          (check (not (is_mapping_key key))
            ("Mapping key " <> key <> " must use lowercase letters."))
          _ h in
      let (forum, h₂) =
        both (validate_snowflake m.forum_channel_id ("mappings." <> key <> ".forumChannelId")) _
          h₁ in
      let (_, h₃) =
        both (validate_snowflakes m.moderator_role_ids ("mappings." <> key <> ".moderatorRoleIds"))
          _ h₂ in
      let (_, h₄) = both (validate_repository lower trim is_date key m.repository) _ h₃ in
      let (_, h₅) = both (validate_bootstrap lower trim is_date key m.bootstrap) _ h₄ in
      let (new_forum, new_repository) =
        both
          (check (has m.forum_channel_id forums)
            ("Discord forum " <> m.forum_channel_id <> " is configured in more than one mapping."))
          _ h₅ in
      (
        (
          ground (arith, named),
          validate_snowflake-ok m.forum_channel_id ("mappings." <> key <> ".forumChannelId") forum,
        ),
        ground (arith, new_forum),
        ground (arith, new_repository),
      )

  -- None of the texts is among those seen.
  abbrev AreNew : List String → List String → Type 0
  AreNew seen ss = All (λ s. All (λ t. t ≢ s) seen) ss

  AreNew-tail :
      (s : String) (seen ss : List String)
      → AreNew (s ∷ seen) ss
      → All (λ t. t ≢ s) ss × AreNew seen ss
  AreNew-tail s seen [] h = (tt, tt)
  AreNew-tail s seen (t ∷ ss) h =
      let (a, b) = AreNew-tail s seen ss h.1 in ((λ e. h.0.0 (sym e), a), (h.0.1, b))

  validate_mappings-ok :
      (forums repositories : List String) (entries : Mappings)
      → validate_mappings lower trim is_date forums repositories entries ≡ ok tt
      → All IsUsable entries
        × (Distinct (forums_of entries) × AreNew forums (forums_of entries))
        × (Distinct (repositories_of entries) × AreNew repositories (repositories_of entries))
  unfolding validate_mappings
  validate_mappings-ok forums repositories [] h = (tt, (tt, tt), (tt, tt))
  validate_mappings-ok forums repositories (entry ∷ entries) h =
      let (now, rest) = both _ _ h in
      let (usable, new_forum, new_repository) =
        validate_mapping-ok forums repositories entry.0 entry.1 now in
      let forum = entry.1.forum_channel_id in
      let repository = repository_key lower trim is_date entry.1 in
      let (all, (df, nf), (dr, nr)) =
        validate_mappings-ok (forum ∷ forums) (repository ∷ repositories) entries rest in
      let (f, fs) = AreNew-tail forum forums (forums_of entries) nf in
      let (r, rs) = AreNew-tail repository repositories (repositories_of entries) nr in
      (
        (usable, all),
        ((f, df), (unseen forum forums new_forum, fs)),
        ((r, dr), (unseen repository repositories new_repository, rs)),
      )

  abbrev pub IsBetween : ℕ → ℕ → Type 0
  IsBetween n maximum = (1 ≤ n) × (n ≤ maximum)

  integer-ok :
      (value : ℕ) (path : String) (maximum : ℕ)
      → validate_positive_integer value path maximum ≡ ok tt
      → IsBetween value maximum
  unfolding validate_positive_integer
  integer-ok value path maximum h =
      let e = check_passed (ltb value 1 || ltb maximum value) _ h in ground arith

  abbrev pub IsKept : NormalizedMaintenanceConfig → Type 0
  IsKept m =
      IsBetween m.failed_webhook_delivery_check_minutes 1440
      × IsBetween m.full_reconciliation_interval_hours 720
      × IsBetween m.local_backup_count 365
      × IsBetween m.processed_payload_retention_days 3650

  validate_maintenance-ok :
      (m : NormalizedMaintenanceConfig)
      → validate_maintenance lower trim is_date m ≡ ok tt
      → IsKept m
  unfolding validate_maintenance
  validate_maintenance-ok m h =
      let (a, h₁) = both _ _ h in
      let (b, h₂) = both _ _ h₁ in
      let (c, d) = both _ _ h₂ in
      (
        integer-ok m.failed_webhook_delivery_check_minutes
            "maintenance.failedWebhookDeliveryCheckMinutes" 1440 a,
        integer-ok m.full_reconciliation_interval_hours
            "maintenance.fullReconciliationIntervalHours" 720 b,
        integer-ok m.local_backup_count "maintenance.localBackupCount" 365 c,
        integer-ok m.processed_payload_retention_days "maintenance.processedPayloadRetentionDays"
            3650 d,
      )

  -- In a configuration that is returned, each mapping has a key of the pattern and the snowflake of a
  -- forum; no two mappings have one forum, or one repository up to the case of its name; and the
  -- maintenance intervals and counts are within their bounds.
  pub normalize_config-ok :
      (parse_url : String → Option Url) (config : Config (Option MaintenanceConfig))
      (n : Config NormalizedMaintenanceConfig)
      → normalize_config lower trim is_date parse_url config ≡ ok n
      → All IsUsable n.mappings
        × Distinct (forums_of n.mappings)
        × Distinct (repositories_of n.mappings)
        × IsKept n.maintenance
  unfolding normalize_config
  normalize_config-ok parse_url config n h =
      let (_, h₁) = first (validate_snowflake config.client_id "clientId") _ n h in
      let (_, h₂) = first (validate_snowflake config.guild_id "guildId") _ n h₁ in
      let (_, h₃) = first (validate_snowflake config.owner_id "ownerId") _ n h₂ in
      let (_, h₄) =
        first (validate_snowflakes config.administrator_role_ids "administratorRoleIds") _ n h₃ in
      let (_, h₅) = first (validate_log_channel lower trim is_date config.log_channel_id) _ n h₄ in
      let (_, h₆) = first (validate_public_base_url parse_url config.public_base_url) _ n h₅ in
      let (mappings, h₇) =
        first (validate_mappings lower trim is_date [] [] config.mappings) _ n h₆ in
      let (maintenance, returned) =
        first
          (validate_maintenance lower trim is_date
            (normalized_maintenance lower trim is_date config.maintenance))
          _ n h₇ in
      let (usable, (forums, _), (repositories, _)) =
        validate_mappings-ok [] [] config.mappings mappings in
      subst
        (λ m.
          All IsUsable m.mappings
          × Distinct (forums_of m.mappings)
          × Distinct (repositories_of m.mappings)
          × IsKept m.maintenance)
        (ok_inj returned)
        (
          usable,
          forums,
          repositories,
          validate_maintenance-ok (normalized_maintenance lower trim is_date config.maintenance)
              maintenance,
        )
