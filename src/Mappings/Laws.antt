-- ===== src/Mappings/Laws.antt =====
-- db/mapping-repository.ts: what `applyConfig` keeps of the stored mappings, and which it disables.
use forum_relay.Common.{
  ℕ, ◌≡◌, ◌⊎◌, inl, inr, refl, sym, ap, ◌∙◌, subst, String, Bool, true, false, not, ◌&&◌, ◌||◌,
  List, [], ◌∷◌, ◌++◌, map, none, any, update_where, ◌==◌, string_eq, if◌then◌else◌, All,
  All-append, arith, Bool-cases,
}
use forum_relay.Schema.Jobs.{Mapping, MappingState}
use forum_relay.Config.{ForumMappingConfig, Config, NormalizedMaintenanceConfig}
use forum_relay.Retry.{ok_inj, Result, ok, err, ◌>>=◌}
use forum_relay.Mappings.{
  identity_of, has_key, assert_stable_identity, new_mapping, reconfigured, upsert_mapping,
  apply_mappings, is_enabled, disabled, disable_others, apply_config,
}

-- A mapping's key, what identifies its forum and repository, and its state.
abbrev pub Identity : Type 0
Identity = String × String × String × String × MappingState

abbrev pub identity : Mapping → Identity
identity r = (r.key, r.forum_channel_id, r.github_owner, r.github_repository, r.state)

-- The mapping starts in the state of a new one.
abbrev pub IsNew : Identity → Type 0
IsNew (key, forum, owner, repository, state) = state ≡ MappingState.pending_bootstrap

-- The state is kept for a key that is configured, and "DISABLED" for another.
abbrev pub settled : List String → Identity → Identity
settled keys (key, forum, owner, repository, state) = (
  key,
  forum,
  owner,
  repository,
  if any (λ k. key == k) keys then state else MappingState.disabled,
)

-- A mapping with a time of disabling is in the state "DISABLED".
abbrev pub IsMarked : Mapping → Type 0
IsMarked r = (r.disabled_at ≡ none) ⊎ (r.state ≡ MappingState.disabled)

abbrev pub identities : List Mapping → List Identity
identities = map identity

identities-update_where :
    (p : Mapping → Bool) (f : Mapping → Mapping)
    → ((r : Mapping) → identity (f r) ≡ identity r)
    → (rows : List Mapping) → identities (update_where p f rows) ≡ identities rows
identities-update_where p f same [] = refl
identities-update_where p f same (r ∷ rows) =
    ground (arith, same r, identities-update_where p f same rows)

identities-append :
    (rows more : List Mapping) → identities (rows ++ more) ≡ identities rows ++ identities more
identities-append [] more = refl
identities-append (r ∷ rows) more = ap (λ is. identity r ∷ is) (identities-append rows more)

append_nil : (is : List Identity) → is ++ [] ≡ is
append_nil [] = refl
append_nil (i ∷ is) = ap (λ js. i ∷ js) (append_nil is)

append_assoc : (is js ks : List Identity) → (is ++ js) ++ ks ≡ is ++ (js ++ ks)
append_assoc [] js ks = refl
append_assoc (i ∷ is) js ks = ap (λ ls. i ∷ ls) (append_assoc is js ks)

-- The keys so far are of enabled mappings, and disabled ones are marked.
abbrev AreEnabled : List String → Mapping → Type 0
AreEnabled keys r = ((any (λ key. r.key == key) keys ≡ false) ⊎ (r.disabled_at ≡ none)) × IsMarked r

module _ (lower : String → String) (fingerprint : ForumMappingConfig → String) (guild : String)
    (now : ℕ) where
  -- The mappings of before are all there, in the same places, with the same identities and states, and the
  -- others are new.
  abbrev Extends : List Mapping → List Mapping → Type 0
  Extends rows rows' =
      (more : List Identity) × All IsNew more × (identities rows' ≡ identities rows ++ more)

  enabled-update :
      (key : String) (m : ForumMappingConfig) (done : List String) (rows : List Mapping)
      → All (AreEnabled done) rows
      → All
          (AreEnabled (key ∷ done))
          (update_where (has_key key) (reconfigured lower fingerprint guild m now) rows)
  enabled-update key m done [] v = tt
  enabled-update key m done (r ∷ rows) v =
      (row (r.key == key) refl, enabled-update key m done rows v.1)
    where
      row :
          (b : Bool)
          → (r.key == key) ≡ b
          → AreEnabled (key ∷ done) (if b then reconfigured lower fingerprint guild m now r else r)
      row true e = (inr refl, inl refl)
      row false e = (ground (arith, v.0.0), v.0.1)

  enabled-absent :
      (key : String) (done : List String) (rows : List Mapping)
      → any (has_key key) rows ≡ false
      → All (AreEnabled done) rows
      → All (AreEnabled (key ∷ done)) rows
  enabled-absent key done [] e v = tt
  enabled-absent key done (r ∷ rows) e v =
      ((ground (arith, v.0.0), v.0.1), enabled-absent key done rows (ground arith) v.1)

  upsert_mapping-ok :
      (key : String) (m : ForumMappingConfig) (done : List String) (rows rows' : List Mapping)
      → All (AreEnabled done) rows
      → upsert_mapping lower fingerprint guild now key m rows ≡ ok rows'
      → Extends rows rows' × All (AreEnabled (key ∷ done)) rows'
  unfolding upsert_mapping
  upsert_mapping-ok key m done rows rows' v h = elim (Bool-cases (any (has_key key) rows)) [
    | inl e ↦
        let same : update_where (has_key key) (reconfigured lower fingerprint guild m now) rows
            ≡ rows' =
          ground (arith, h) in
        subst (λ t. Extends rows t × All (AreEnabled (key ∷ done)) t) same
          (
            (
              [],
              tt,
              identities-update_where (has_key key) (reconfigured lower fingerprint guild m now)
                    (λ r. refl) rows
                  ∙ sym (append_nil (identities rows)),
            ),
            enabled-update key m done rows v,
          )
    | inr e ↦
        let new = new_mapping lower fingerprint guild key m now in
        let same : rows ++ new ∷ [] ≡ rows' = ground (arith, h) in
        subst (λ t. Extends rows t × All (AreEnabled (key ∷ done)) t) same
          (
            (identity new ∷ [], (refl, tt), identities-append rows (new ∷ [])),
            All-append (AreEnabled (key ∷ done)) rows (new ∷ []) (enabled-absent key done rows e v)
                ((inr refl, inl refl), tt),
          )
  ]

  abbrev keys_of : List (String × ForumMappingConfig) → List String
  keys_of = map (λ entry. entry.0)

  -- The keys that the loop has passed, the last one first.
  abbrev passed : List (String × ForumMappingConfig) → List String → List String
  passed [] done = done
  passed (entry ∷ entries) done = passed entries (entry.0 ∷ done)

  any-passed :
      (p : String → Bool) (entries : List (String × ForumMappingConfig)) (done : List String)
      → any p (passed entries done) ≡ (any p (keys_of entries) || any p done)
  any-passed p [] done = refl
  any-passed p (entry ∷ entries) done = ground (arith, any-passed p entries (entry.0 ∷ done))

  apply_mappings-ok :
      (entries : List (String × ForumMappingConfig)) (done : List String)
      (rows rows' : List Mapping)
      → All (AreEnabled done) rows
      → apply_mappings lower fingerprint guild now entries rows ≡ ok rows'
      → Extends rows rows' × All (AreEnabled (passed entries done)) rows'
  unfolding apply_mappings
  apply_mappings-ok [] done rows rows' v h =
      subst (λ t. Extends rows t × All (AreEnabled done) t) (ok_inj h)
        (([], tt, sym (append_nil (identities rows))), v)
  apply_mappings-ok (entry ∷ entries) done rows rows' v h =
      round (assert_stable_identity lower fingerprint rows entry.0 (identity_of entry.1))
        (upsert_mapping lower fingerprint guild now entry.0 entry.1 rows)
        (λ mid. apply_mappings-ok entries (entry.0 ∷ done) mid rows') refl h
    where
      round :
          (checked : Result {0} Unit) (written : Result (List Mapping))
          → ((mid : List Mapping)
              → All (AreEnabled (entry.0 ∷ done)) mid
              → apply_mappings lower fingerprint guild now entries mid ≡ ok rows'
              → Extends mid rows' × All (AreEnabled (passed entries (entry.0 ∷ done))) rows')
          → upsert_mapping lower fingerprint guild now entry.0 entry.1 rows ≡ written
          → (checked >>= λ _. written >>= apply_mappings lower fingerprint guild now entries)
            ≡ ok rows'
          → Extends rows rows' × All (AreEnabled (passed (entry ∷ entries) done)) rows'
      round (err e) written later w h = cc
      round (ok x) (err e) later w h = cc
      round (ok x) (ok mid) later w h =
          let ((more, new, e), u) = upsert_mapping-ok entry.0 entry.1 done rows mid v w in
          let ((rest, new', f), all) = later mid u h in
          (
            (
              more ++ rest,
              All-append IsNew more rest new new',
              f ∙ ap (λ is. is ++ rest) e ∙ append_assoc (identities rows) more rest,
            ),
            all,
          )

  -- A mapping is enabled exactly when its key is configured, and a disabled one is marked.
  abbrev pub IsSettled : List (String × ForumMappingConfig) → Mapping → Type 0
  IsSettled entries r =
      (is_enabled lower fingerprint r ≡ any (λ key. r.key == key) (keys_of entries)) × IsMarked r

  -- What `disable_others` makes of one mapping.
  abbrev settle : List String → Mapping → Mapping
  settle keys r =
      if not (any (λ key. r.key == key) keys) && is_enabled lower fingerprint r
      then disabled lower fingerprint now r
      else r

  settle-IsSettled :
      (entries : List (String × ForumMappingConfig)) (r : Mapping)
      → AreEnabled (passed entries []) r
      → IsSettled entries (settle (keys_of entries) r)
  settle-IsSettled entries r v =
      row (any (λ key. r.key == key) (keys_of entries)) (is_enabled lower fingerprint r) refl refl
    where
      row :
          (configured enabled : Bool)
          → any (λ key. r.key == key) (keys_of entries) ≡ configured
          → is_enabled lower fingerprint r ≡ enabled
          → IsSettled entries
              (if not configured && enabled then disabled lower fingerprint now r else r)
      row true enabled c e = (ground (arith, v.0, any-passed (λ key. r.key == key) entries []), v.1)
      row false true c e = (sym c, inr refl)
      row false false c e = (e ∙ sym c, v.1)

  settle-settled :
      (keys : List String) (r : Mapping)
      → IsMarked r
      → identity (settle keys r) ≡ settled keys (identity r)
  settle-settled keys r v = elim (Bool-cases (any (λ key. r.key == key) keys)) [
    | inl c ↦ rw c refl
    | inr c ↦ elim (Bool-cases (is_enabled lower fingerprint r)) [
      | inl e ↦ rw (c, e) refl
      | inr e ↦
          let marked : r.state ≡ MappingState.disabled = ground (arith, e, v) in
          rw (c, e, marked) refl
    ]
  ]

  disable_others-IsSettled :
      (entries : List (String × ForumMappingConfig)) (rows : List Mapping)
      → All (AreEnabled (passed entries [])) rows
      → All (IsSettled entries) (disable_others lower fingerprint now (keys_of entries) rows)
        × (identities (disable_others lower fingerprint now (keys_of entries) rows)
            ≡ map (settled (keys_of entries)) (identities rows))
  unfolding disable_others
  disable_others-IsSettled entries [] v = (tt, refl)
  disable_others-IsSettled entries (r ∷ rows) v =
      let (all, same) = disable_others-IsSettled entries rows v.1 in
      (
        (settle-IsSettled entries r v.0, all),
        ap (λ i. i ∷ identities (disable_others lower fingerprint now (keys_of entries) rows))
              (settle-settled (keys_of entries) r v.0.1)
            ∙ ap (λ is. settled (keys_of entries) (identity r) ∷ is) same,
      )

  -- The mappings of before are all there, in the same places and with the same identities, and the others
  -- are new; each has the state that it had, or that of a new one, unless its key is not configured.
  abbrev pub Continues : List (String × ForumMappingConfig) → List Mapping → List Mapping → Type 0
  Continues entries rows rows' =
      (more : List Identity) × All IsNew more
      × (identities rows' ≡ map (settled (keys_of entries)) (identities rows ++ more))

module _ (lower : String → String) (fingerprint : ForumMappingConfig → String) where
  -- Let each stored mapping with a time of disabling be in the state "DISABLED". When the configuration is
  -- applied, each mapping that was stored is there, in its place and with its key, forum, owner and repository,
  -- and the ones that are added start as "PENDING_BOOTSTRAP". A mapping whose key is configured keeps its
  -- state, a "DISABLED" one too; any other is "DISABLED". Exactly those with a configured key have no time of
  -- disabling, and each with one is again in the state "DISABLED".
  pub apply_config-ok :
      (config : Config NormalizedMaintenanceConfig) (now : ℕ) (rows rows' : List Mapping)
      → All IsMarked rows
      → apply_config lower fingerprint config now rows ≡ ok rows'
      → Continues lower fingerprint config.guild_id now config.mappings rows rows'
        × All (IsSettled lower fingerprint config.guild_id now config.mappings) rows'
  unfolding apply_config
  apply_config-ok config now rows rows' marked h =
      finish (apply_mappings lower fingerprint config.guild_id now config.mappings rows) refl h
    where
      none_passed : (rows : List Mapping) → All IsMarked rows → All (AreEnabled []) rows
      none_passed [] v = tt
      none_passed (r ∷ rows) v = ((inl refl, v.0), none_passed rows v.1)

      finish :
          (applied : Result (List Mapping))
          → apply_mappings lower fingerprint config.guild_id now config.mappings rows ≡ applied
          → (applied >>= λ t.
              ok (disable_others lower fingerprint now (map (λ entry. entry.0) config.mappings) t))
            ≡ ok rows'
          → Continues lower fingerprint config.guild_id now config.mappings rows rows'
            × All (IsSettled lower fingerprint config.guild_id now config.mappings) rows'
      finish (err e) a h = cc
      finish (ok mid) a h =
          let ((more, new, e), v) =
            apply_mappings-ok lower fingerprint config.guild_id now config.mappings [] rows mid
              (none_passed rows marked) a in
          let (all, same) =
            disable_others-IsSettled lower fingerprint config.guild_id now config.mappings mid v in
          subst
            (λ t.
              Continues lower fingerprint config.guild_id now config.mappings rows t
              × All (IsSettled lower fingerprint config.guild_id now config.mappings) t)
            (ok_inj h)
            ((more, new, same ∙ ap (map (settled (map (λ entry. entry.0) config.mappings))) e), all)
