-- ===== src/Mappings.antt =====
-- db/mapping-repository.ts: the configured mappings are written to the table `mappings`. Parameters:
-- `lower` is `toLocaleLowerCase("en-US")`, and `fingerprint` the hash of a mapping's JSON. All the calls
-- of `Date.now()` in one transaction give one time.
pub mod Laws
use Prim.Native.String.{◌++◌ as ◌<>◌}
use forum_relay.Common.{
  ℕ, String, Bool, true, false, not, ◌&&◌, ◌||◌, List, [], ◌∷◌, ◌++◌, map, Option, none, some, any,
  find, update_where, ◌==◌, string_eq, if◌then◌else◌,
}
use forum_relay.Schema.Jobs.{Mapping, MappingState}
use forum_relay.Config.{ForumMappingConfig, Config, NormalizedMaintenanceConfig}
use forum_relay.Retry.{Result, ok, err, Thrown, ◌>>=◌}

pub record MappingIdentity : Type 0 where
  pub forum_channel_id : String
  pub github_owner : String
  pub github_repository : String

abbrev pub identity_of : ForumMappingConfig → MappingIdentity
identity_of m = record {
  forum_channel_id = m.forum_channel_id;
  github_owner = m.repository.owner;
  github_repository = m.repository.name;
}

abbrev pub has_key : String → Mapping → Bool
has_key key r = r.key == key

-- `MappingIdentityChangedError`
abbrev pub identity_changed : String → Thrown
identity_changed key = Thrown.plain (
    "Mapping " <> key
    <> " changed its forum or repository identity. Use the cleanup/migration workflow before reusing a mapping key.")

module _ (lower : String → String) (fingerprint : ForumMappingConfig → String) where
  abbrev pub is_same_identity : Mapping → MappingIdentity → Bool
  is_same_identity stored configured =
      stored.forum_channel_id == configured.forum_channel_id
      && lower stored.github_owner == lower configured.github_owner
      && lower stored.github_repository == lower configured.github_repository

  unfoldable pub assert_stable_identity : List Mapping → String → MappingIdentity → Result {0} Unit
  assert_stable_identity rows key configured = elim (find (has_key key) rows) [
    | none ↦ ok tt
    | some stored ↦ if is_same_identity stored configured then ok tt else err (identity_changed key)
  ]

  abbrev pub new_mapping : String → String → ForumMappingConfig → ℕ → Mapping
  new_mapping guild key m now = record {
    key = key;
    guild_id = guild;
    forum_channel_id = m.forum_channel_id;
    github_owner = m.repository.owner;
    github_repository = m.repository.name;
    state = MappingState.pending_bootstrap;
    config_fingerprint = fingerprint m;
    bootstrap_completed_at = none;
    disabled_at = none;
    last_error_code = none;
    last_error_message = none;
    created_at = now;
    updated_at = now;
  }

  abbrev pub reconfigured : String → ForumMappingConfig → ℕ → Mapping → Mapping
  reconfigured guild m now r = record r {
    guild_id = guild;
    config_fingerprint = fingerprint m;
    disabled_at = none;
    updated_at = now;
  }

  -- `INSERT … ON CONFLICT(key) DO UPDATE`; a new row whose forum another row has is refused.
  unfoldable pub upsert_mapping :
      String → ℕ → String → ForumMappingConfig → List Mapping → Result (List Mapping)
  upsert_mapping guild now key m rows =
      if any (has_key key) rows
      then ok (update_where (has_key key) (reconfigured guild m now) rows)
      else if any (λ r. r.forum_channel_id == m.forum_channel_id) rows
      then err
          (Thrown.plain "SQLITE_CONSTRAINT: UNIQUE constraint failed: mappings.forum_channel_id")
      else ok (rows ++ new_mapping guild key m now ∷ [])

  -- The loop over the entries.
  unfoldable pub apply_mappings :
      String → ℕ → List (String × ForumMappingConfig) → List Mapping → Result (List Mapping)
  unfolding assert_stable_identity upsert_mapping
  apply_mappings guild now [] rows = ok rows
  apply_mappings guild now (entry ∷ entries) rows =
      assert_stable_identity rows entry.0 (identity_of entry.1) >>= λ _.
      upsert_mapping guild now entry.0 entry.1 rows >>= apply_mappings guild now entries

  abbrev pub is_enabled : Mapping → Bool
  is_enabled r = elim r.disabled_at [ none ↦ true | some _ ↦ false ]

  abbrev pub disabled : ℕ → Mapping → Mapping
  disabled now r = record r {
    state = MappingState.disabled;
    disabled_at = some now;
    updated_at = now;
  }

  -- `WHERE key NOT IN (…) AND disabled_at IS NULL`; without a configured key there is no list, and
  -- each enabled mapping is disabled.
  unfoldable pub disable_others : ℕ → List String → List Mapping → List Mapping
  disable_others now keys =
      update_where (λ r. not (any (λ key. r.key == key) keys) && is_enabled r) (disabled now)

  -- The transaction: an error rolls it back and is thrown on.
  unfoldable pub apply_config :
      Config NormalizedMaintenanceConfig → ℕ → List Mapping → Result (List Mapping)
  unfolding apply_mappings disable_others
  apply_config config now rows =
      apply_mappings config.guild_id now config.mappings rows >>= λ rows'.
      ok (disable_others now (map (λ entry. entry.0) config.mappings) rows')
