-- ===== src/Engine/Messages.antt =====
-- relay/engine.ts: what Discord shows of a GitHub item: `#syncDiscordItem`, `#downloadGitHubMedia` and
-- `#deleteDiscordItem`. A Discord id that is an empty text counts as none.
pub mod Resync
pub mod Removal
use forum_relay.Common.{
  ℕ, zero, suc, String, Bool, true, false, not, ◌&&◌, ◌||◌, List, [], ◌∷◌, map, Option, none, some,
  any, length, ◌++◌, ◌==◌, string_eq, if◌then◌else◌,
}
use forum_relay.Common.Json.{Json, str, bool, arr, obj, field, end, Items, nil, cons}
use forum_relay.Retry.{Result, ok, err, Thrown, RelayFailure, FailureCategory}
use forum_relay.Intake.Origin.{member}
use forum_relay.Media.{is_recognized_github_media_url}
use forum_relay.Relay.{IssueThreadLink, RelayItem}
use forum_relay.Engine.{
  Env, M, World, after, ◌>>=◌, ◌>>◌, pure, lift, raise, rescue, rescued, each, when, truthy,
  RawFile, Segment, ThreadChanges, Call, CreatedThread, GitHubRenderInput,
}
use forum_relay.Engine.Payloads.{required_string, string_array, json_strings}
use forum_relay.Engine.Decisions.{is_closed, truncate_graphemes}
use forum_relay.Engine.Store.{
  ask, required_relay_item, required_link, segments_of, tags_for, attach_thread,
  set_item_destination, set_segments, mark_item_deleted, resume_lifecycles,
}
use forum_relay.Engine.Queueing.{link_partition}

-- `error instanceof RelayFailure && error.category === "not-found"`
abbrev pub is_not_found : Thrown → Bool
is_not_found (Thrown.relay f) = elim f.category [ FailureCategory.not_found ↦ true | _ ↦ false ]
is_not_found (Thrown.plain message) = false

abbrev pub is_invalid : Thrown → Bool
is_invalid (Thrown.relay f) = elim f.category [ FailureCategory.invalid ↦ true | _ ↦ false ]
is_invalid (Thrown.plain message) = false

-- Changes of a thread that set one thing.
abbrev pub no_changes : ThreadChanges
no_changes = record { applied_tag_ids = none; archived = none; locked = none; name = none }

abbrev pub rest_of {ℓ} : {A : Type ℓ} → List A → List A
rest_of [] = []
rest_of (x ∷ xs) = xs

abbrev pub first_of {ℓ} : {A : Type ℓ} → List A → Option A
first_of [] = none
first_of (x ∷ xs) = some x

-- `xs.slice(n)`
abbrev pub drop {ℓ} : {A : Type ℓ} → ℕ → List A → List A
drop zero xs = xs
drop (suc n) [] = []
drop (suc n) (x ∷ xs) = drop n xs

-- `{ messageIds, threadId }`
abbrev pub item_result : List String → String → Json
item_result messages thread =
    obj (field "messageIds" (arr (json_strings messages)) (field "threadId" (str thread) end))

-- What the loop over the segments has found out so far.
pub record Shown : Type 0 where
  pub thread : Option String
  pub created : Bool
  pub message_ids : List String
  pub render_hashes : List String

module _ (env : Env) where
  abbrev pub edit_thread : String → ThreadChanges → M (Unit {0})
  edit_thread thread changes = ask (Call.edit_thread thread changes) env.remote.done

  abbrev pub delete_message : String → String → String → M (Unit {0})
  delete_message mapping_key thread message =
      ask (Call.delete_message mapping_key thread message) env.remote.done

  -- `hash(JSON.stringify(segment.components))`
  abbrev pub segment_hash : Segment → String
  segment_hash s = env.hash (env.codec.stringify s.components)

  abbrev recognized : String → Bool
  recognized url = is_recognized_github_media_url env.network (env.parse_media_url url)

  abbrev rendered_or : Option String → String → String
  rendered_or none url = url
  rendered_or (some rendered) url = if recognized rendered then rendered else url

  -- The entries of `resolvedUrls`: the URLs of the media, each once, and where each is downloaded.
  unfoldable pub resolved_urls : List String → List String → List String → List (String × String)
  unfolding truthy
  resolved_urls [] rendered seen = []
  resolved_urls (url ∷ urls) rendered seen =
      let skipped = resolved_urls urls (rest_of rendered) seen in
      let later = resolved_urls urls (rest_of rendered) (url ∷ seen) in
      if not (recognized url) || any (λ s. s == url) seen
      then skipped
      else (
        url,
        rendered_or (truthy (elim (first_of rendered) [ none ↦ none | some r ↦ some r ])) url,
      )
        ∷ later

  -- The files that could be downloaded. Those that are refused or gone are left out.
  unfoldable pub download_all : String → List (String × String) → M (List (String × RawFile))
  download_all mapping_key [] = pure []
  download_all mapping_key ((source, url) ∷ urls) = do
    file ←
        rescue
          (do
            file ← ask (Call.download_media mapping_key url) env.remote.download_media
            pure (some file))
          (λ e. if is_invalid e || is_not_found e then pure none else lift (err e))
    later ← download_all mapping_key urls
    pure (elim file [ none ↦ later | some f ↦ (source, f) ∷ later ])

  -- `#downloadGitHubMedia`
  unfoldable pub download_github_media : String → String → String → M (List (String × RawFile))
  unfolding download_all resolved_urls
  download_github_media mapping_key body repository =
      let media = env.render.media_urls body repository in
      if any recognized media
      then (do
        rendered ← ask (Call.rendered_media_urls mapping_key body) env.remote.rendered_media_urls
        download_all mapping_key (resolved_urls media rendered []))
      else pure []

  module _ (mapping_key : String) (item : RelayItem) (link : IssueThreadLink) (title : String)
      (labels : List String) where
    -- The segment is the first of a thread.
    abbrev open_thread : Segment → M Shown
    open_thread segment = do
      tags ← tags_for env mapping_key labels
      created ←
          ask (Call.create_thread mapping_key (truncate_graphemes env title 100) segment tags)
            env.remote.create_thread
      if created.thread_id == ""
          then raise "Discord did not return the created forum thread ID." FailureCategory.temporary
              "THREAD_ID_MISSING"
          else do
            attach_thread env link.id created.thread_id
            set_item_destination env item.id created.message_id
            pure (record {
              thread = some created.thread_id;
              created = true;
              message_ids = created.message_id ∷ [];
              render_hashes = segment_hash segment ∷ [];
            })

    -- A message that is there and shows the segment, or is edited to show it.
    abbrev keep_message : String → Bool → String × String → Segment → M Shown
    keep_message thread created (message, render_hash) segment = do
      when (not (render_hash == segment_hash segment))
          (ask (Call.edit_message mapping_key thread message segment) env.remote.done)
      pure (record {
        thread = some thread;
        created = created;
        message_ids = message ∷ [];
        render_hashes = segment_hash segment ∷ [];
      })

    abbrev add_message : String → Bool → Segment → M Shown
    add_message thread created segment = do
      message ← ask (Call.create_message mapping_key thread segment) env.remote.create_message
      elim (truthy item.destination_id) [
        | none ↦ set_item_destination env item.id message
        | some destination ↦ pure tt
      ]
      pure (record {
        thread = some thread;
        created = created;
        message_ids = message ∷ [];
        render_hashes = segment_hash segment ∷ [];
      })

    abbrev pub show_one : Option String → Bool → Option (String × String) → Segment → M Shown
    show_one none created existing segment = open_thread segment
    show_one (some thread) created none segment = add_message thread created segment
    show_one (some thread) created (some existing) segment =
        keep_message thread created existing segment

    -- The loop, with the messages that the segments from here on have.
    unfoldable pub show_segments :
        Option String → Bool → List (String × String) → List Segment → M Shown
    unfolding truthy
    show_segments thread created existing [] =
        pure (record { thread = thread; created = created; message_ids = []; render_hashes = [] })
    show_segments thread created existing (segment ∷ segments) = do
      one ← show_one thread created (first_of existing) segment
      later ← show_segments one.thread one.created (rest_of existing) segments
      pure (record later {
        message_ids = one.message_ids ++ later.message_ids;
        render_hashes = one.render_hashes ++ later.render_hashes;
      })

    abbrev retitle : String → M (Unit {0})
    retitle thread = do
      tags ← tags_for env mapping_key labels
      edit_thread thread (record no_changes {
        applied_tag_ids = some tags;
        name = some (truncate_graphemes env title 100);
      })

    -- Before the loop: the thread takes the title and the tags of the issue, and is open meanwhile.
    unfoldable pub prepare_thread : Option String → Bool → M (Unit {0})
    prepare_thread none unarchived = pure tt
    prepare_thread (some thread) unarchived = do
      when (item.source_kind == "issue-body") (retitle thread)
      when unarchived (edit_thread thread (record no_changes { archived = some false }))

    -- After the loop: the messages that are too many go, and the others are stored.
    unfoldable pub finish_item : List (String × String) → Bool → Shown → M Json
    finish_item stale unarchived shown = elim shown.thread [
      | none ↦
          raise "Discord did not create or resolve a thread." FailureCategory.temporary
            "THREAD_MISSING"
      | some thread ↦ do
        each stale (λ s. delete_message mapping_key thread s.0)
        set_segments env item.id shown.message_ids shown.render_hashes
        when unarchived (edit_thread thread (record no_changes { archived = some true }))
        when shown.created (resume_lifecycles env (link_partition env link))
        pure (item_result shown.message_ids thread)
    ]

    abbrev pub is_unarchived : Bool
    is_unarchived =
        is_closed link.state
        && item.source_kind == "issue-comment"
        && elim (truthy link.discord_thread_id) [ none ↦ false | some thread ↦ true ]

    -- The rendered segments replace what the item has.
    unfoldable pub show_item : List Segment → M Json
    unfolding prepare_thread show_segments finish_item
    show_item rendered = do
      existing ← segments_of item.id
      prepare_thread (truthy link.discord_thread_id) is_unarchived
      shown ← show_segments (truthy link.discord_thread_id) false existing rendered
      finish_item (drop (length rendered) existing) is_unarchived shown

  -- `renderGitHubToDiscord` of the item
  abbrev pub rendered_item : RelayItem → String → String → List (String × RawFile) → List Segment
  rendered_item item jump_url repository media = env.render.github_to_discord (record {
    author_avatar_url = item.author.avatar_url;
    author_username = item.author.username;
    body = item.source_body;
    jump_url = jump_url;
    media_attachments = media;
    repository_url = repository;
  })

  -- `#syncDiscordItem`
  unfoldable pub sync_discord_item : String → Json → M Json
  unfolding show_item download_github_media required_string
  sync_discord_item mapping_key payload = do
    item_id ← lift (required_string payload "relayItemId")
    item ← required_relay_item item_id
    link ← required_link env item.issue_thread_link_id
    jump_url ← lift (required_string payload "jumpUrl")
    repository ← lift (required_string payload "repository")
    title ← lift (required_string payload "title")
    media ← download_github_media mapping_key item.source_body repository
    show_item mapping_key item link title (string_array (member payload "labels"))
        (rendered_item item jump_url repository media)

  -- A message that is gone already is no error.
  unfoldable pub delete_segment : String → String → String × String → M (Unit {0})
  delete_segment mapping_key thread segment =
      rescue (delete_message mapping_key thread segment.0)
        (λ e. if is_not_found e then pure tt else lift (err e))

  -- `{ deleted }`
  abbrev pub deleted_result : Bool → Json
  deleted_result b = obj (field "deleted" (bool b) end)

  -- The deletion of the messages in the thread, if there is one, and of the item.
  abbrev delete_from : String → RelayItem → Option String → M Json
  delete_from mapping_key item none = pure (deleted_result false)
  delete_from mapping_key item (some thread) = do
    segments ← segments_of item.id
    each segments (delete_segment mapping_key thread)
    mark_item_deleted env item.id
    pure (deleted_result true)

  abbrev delete_item : String → RelayItem → M Json
  delete_item mapping_key item = do
    link ← required_link env item.issue_thread_link_id
    delete_from mapping_key item (truthy link.discord_thread_id)

  -- `#deleteDiscordItem`
  unfoldable pub delete_discord_item : String → Json → M Json
  unfolding required_string truthy delete_segment
  delete_discord_item mapping_key payload = do
    item_id ← lift (required_string payload "relayItemId")
    item ← required_relay_item item_id
    delete_item mapping_key item
