-- ===== src/Engine/Store.antt =====
-- relay/engine.ts: the repositories and the clients as the engine's methods call them.
use forum_relay.Common.{
  ℕ, suc, String, Bool, List, ◌∷◌, ◌++◌, [], Option, none, some, find, ◌==◌, string_eq,
}
use Prim.Native.String.{◌++◌ as ◌<>◌}
use forum_relay.Common.Json.{Json}
use forum_relay.Schema.Jobs.{Database}
use forum_relay.Retry.{Result, ok, err, FailureCategory}
use forum_relay.Jobs.Inbox.{EnqueueInbox, enqueue_inbox}
use forum_relay.Jobs.Outbox.{EnqueueOutbox, enqueue_outbox}
use forum_relay.Jobs.Upkeep.{resume_thread_pending_lifecycles}
use forum_relay.Config.{BootstrapConfig, ForumMappingConfig}
use forum_relay.Audit.{enqueued}
use forum_relay.Relay.{
  IssueState, GitHubIssueIdentity, IssueThreadLink, UpsertRelayItem, RelayItem, Platform,
  StoredAttachment, ItemRow, SegmentRow, ShadowRow,
}
use forum_relay.Relay.Links.{
  LinkTable, find_link_by_github, find_link_by_discord, find_link_by_github_number,
  find_link_by_github_node, get_link, ensure_github_issue_link, create_discord_origin_link,
  attach_discord_thread, update_link_state, update_link_title, mark_link_status,
}
use forum_relay.Relay.Items.{
  find_relay_item, find_relay_item_by_destination, get_relay_item, upsert_relay_item,
  set_destination, set_render_hash,
}
use forum_relay.Relay.Segments.{get_segments, replace_segments, mark_deleted, save_revision_shadow}
use forum_relay.Relay.Attachments.{Attachment, upsert_attachment, attachments, complete_attachment}
use forum_relay.Relay.Tags.{github_labels_for_tags, discord_tags_for_labels}
use forum_relay.Engine.{Env, World, M, ◌>>=◌, raise, Call}

-- A call of a client, and its answer.
abbrev pub ask : {A : Type 0} → Call → (List Call → Result A) → M A
ask call reply w = (record w { calls = call ∷ w.calls }, reply (call ∷ w.calls))

abbrev pub without_answer : {A : Type 0} → Result A → Result (Unit {0})
without_answer (ok a) = ok tt
without_answer (err e) = err e

-- A call of which only the failure counts.
abbrev pub tell : {A : Type 0} → Call → (List Call → Result A) → M (Unit {0})
tell call reply w = (record w { calls = call ∷ w.calls }, without_answer (reply (call ∷ w.calls)))

abbrev pub find_link : String → ℕ → M (Option IssueThreadLink)
find_link mapping_key issue_id w = (w, ok (find_link_by_github w.links mapping_key issue_id))

abbrev pub find_thread_link : String → String → M (Option IssueThreadLink)
find_thread_link mapping_key thread_id w =
    (w, ok (find_link_by_discord w.links mapping_key thread_id))

abbrev pub find_numbered_link : String → ℕ → M (Option IssueThreadLink)
find_numbered_link mapping_key number w =
    (w, ok (find_link_by_github_number w.links mapping_key number))

abbrev pub find_node_link : String → M (Option IssueThreadLink)
find_node_link node_id w = (w, ok (find_link_by_github_node w.links node_id))

abbrev pub find_item : String → Platform → String → String → M (Option RelayItem)
find_item mapping_key platform kind source_id w =
    (w, ok (find_relay_item w.items mapping_key platform kind source_id))

abbrev pub find_item_to : String → Platform → String → String → M (Option RelayItem)
find_item_to mapping_key platform kind destination_id w =
    (w, ok (find_relay_item_by_destination w.items mapping_key platform kind destination_id))

abbrev pub segments_of : String → M (List (String × String))
segments_of item_id w = (w, ok (get_segments w.segments item_id))

abbrev pub attachments_of : String → M (List StoredAttachment)
attachments_of item_id w = (w, ok (attachments w.attachments item_id))

abbrev pub labels_for : String → List String → M (List String)
labels_for mapping_key tags w = (w, ok (github_labels_for_tags w.bindings mapping_key tags))

-- `#requiredRelayItem`
abbrev pub required_relay_item : String → M RelayItem
required_relay_item id w = elim (get_relay_item w.items id) [
  | some item ↦ (w, ok item)
  | none ↦
      raise ("Relay item " <> id <> " does not exist.") FailureCategory.not_found
        "RELAY_ITEM_NOT_FOUND" w
]

abbrev pub with_links : {A : Type 0} → World → Result (A × LinkTable) → World × Result A
with_links w (ok (a, t)) = (record w { links = t }, ok a)
with_links w (err e) = (w, err e)

abbrev pub with_items : {A : Type 0} → World → Result (A × List ItemRow) → World × Result A
with_items w (ok (a, rows)) = (record w { items = rows }, ok a)
with_items w (err e) = (w, err e)

abbrev pub with_thread : World → Result LinkTable → World × Result (Unit {0})
with_thread w (ok t) = (record w { links = t }, ok tt)
with_thread w (err e) = (w, err e)

abbrev pub with_rows : World → Result (List ItemRow) → World × Result (Unit {0})
with_rows w (ok rows) = (record w { items = rows }, ok tt)
with_rows w (err e) = (w, err e)

abbrev pub with_segments : World → Result (List SegmentRow) → World × Result (Unit {0})
with_segments w (ok rows) = (record w { segments = rows }, ok tt)
with_segments w (err e) = (w, err e)

abbrev pub with_shadows : World → Result (List ShadowRow) → World × Result (Unit {0})
with_shadows w (ok rows) = (record w { shadows = rows }, ok tt)
with_shadows w (err e) = (w, err e)

abbrev pub with_db : {A : Type 0} → World → Database × A → World × A
with_db w (db, a) = (record w { db = db }, a)

abbrev pub with_inbox : World → Database × Bool → World × Result Bool
with_inbox w (db, b) = (record w { db = db }, ok b)

abbrev pub with_deleted : World → List ItemRow × List SegmentRow → World × Result (Unit {0})
with_deleted w (items, segments) = (record w { items = items; segments = segments }, ok tt)

abbrev pub of_key : String → String × ForumMappingConfig → Bool
of_key key entry = entry.0 == key

abbrev bootstrap_in : Option (String × ForumMappingConfig) → Option BootstrapConfig
bootstrap_in none = none
bootstrap_in (some entry) = some entry.1.bootstrap

module _ (env : Env) where
  -- `Date.now()`
  abbrev pub now : M ℕ
  now w = (record w { clock_reads = suc w.clock_reads }, ok (env.clock w.clock_reads))

  -- `crypto.randomUUID()`
  abbrev pub fresh : M String
  fresh w = (record w { uuids = suc w.uuids }, ok (env.uuid w.uuids))

  abbrev pub found_link : ℕ → World → Option IssueThreadLink → World × Result IssueThreadLink
  found_link id w (some link) = (w, ok link)
  found_link id w none =
      raise ("Issue/thread link " <> env.show id <> " does not exist.") FailureCategory.not_found
        "LINK_NOT_FOUND" w

  -- `#requiredLink`
  abbrev pub required_link : ℕ → M IssueThreadLink
  required_link id w = found_link id w (get_link w.links id)

  abbrev pub ensure_link : String → GitHubIssueIdentity → M IssueThreadLink
  ensure_link mapping_key issue = do
    t ← now
    λ w. with_links w (ensure_github_issue_link mapping_key issue t w.links)

  abbrev pub create_link : String → String → String → GitHubIssueIdentity → M IssueThreadLink
  create_link mapping_key thread_id title issue = do
    t ← now
    λ w. with_links w (create_discord_origin_link mapping_key thread_id title issue t w.links)

  abbrev pub attach_thread : ℕ → String → M (Unit {0})
  attach_thread id thread_id = do
    t ← now
    λ w. with_thread w (attach_discord_thread id thread_id t w.links)

  abbrev pub set_link_state : ℕ → IssueState → Bool → M (Unit {0})
  set_link_state id state locked = do
    t ← now
    λ w. (record w { links = update_link_state id state locked t w.links }, ok tt)

  abbrev pub set_link_title : ℕ → String → M (Unit {0})
  set_link_title id title = do
    t ← now
    λ w. (record w { links = update_link_title id title t w.links }, ok tt)

  abbrev pub set_link_status : ℕ → String → M (Unit {0})
  set_link_status id status = do
    t ← now
    λ w. (record w { links = mark_link_status id status t w.links }, ok tt)

  abbrev pub upsert_item : UpsertRelayItem → M RelayItem
  upsert_item input = do
    t ← now
    id ← fresh
    λ w. with_items w (upsert_relay_item env.hash input id t w.items)

  abbrev pub set_item_destination : String → String → M (Unit {0})
  set_item_destination id destination_id = do
    t ← now
    λ w. with_rows w (set_destination id destination_id t w.items)

  abbrev pub set_item_hash : String → String → M (Unit {0})
  set_item_hash id render_hash = do
    t ← now
    λ w. (record w { items = set_render_hash id render_hash t w.items }, ok tt)

  abbrev pub mark_item_deleted : String → M (Unit {0})
  mark_item_deleted id = do t ← now; λ w. with_deleted w (mark_deleted id t (w.items, w.segments))

  abbrev pub set_segments : String → List String → List String → M (Unit {0})
  set_segments id messages hashes = do
    t ← now
    λ w. with_segments w (replace_segments id messages hashes t w.segments)

  abbrev pub save_shadow : String → String → String → M (Unit {0})
  save_shadow id message canonical_hash = do
    t ← now
    λ w. with_shadows w (save_revision_shadow id message canonical_hash t w.shadows)

  abbrev pub store_attachment : String → Attachment → M (Unit {0})
  store_attachment item_id attachment = do
    t ← now
    id ← fresh
    λ w. (record w { attachments = upsert_attachment item_id attachment id t w.attachments }, ok tt)

  abbrev pub finish_attachment : String → String → String → M (Unit {0})
  finish_attachment id hash url = do
    t ← now
    λ w. (record w { attachments = complete_attachment id hash url t w.attachments }, ok tt)

  abbrev pub tags_for : String → List String → M (List String)
  tags_for mapping_key labels w =
      (w, ok (discord_tags_for_labels env.network.lower w.bindings mapping_key labels))

  abbrev pub enqueue_audit : String → String → Json → M (Unit {0})
  enqueue_audit mapping_key thread_id observed = do
    t ← now
    id ← fresh
    λ w.
        (record w { audits = w.audits ++ enqueued id mapping_key thread_id observed t ∷ [] }, ok tt)

  -- The event has a correlation id, so that none is drawn.
  abbrev pub enqueue_inbox_event : EnqueueInbox → M Bool
  enqueue_inbox_event event = do
    t ← now
    id ← fresh
    λ w. with_inbox w (enqueue_inbox env.codec w.db event id id t)

  abbrev pub enqueue_operation : EnqueueOutbox → M (Option String)
  enqueue_operation operation = do
    t ← now
    id ← fresh
    λ w. with_db w (enqueue_outbox env.codec w.db operation id t)

  abbrev pub resume_lifecycles : String → M (Unit {0})
  resume_lifecycles partition = do
    t ← now
    λ w. (record w { db = (resume_thread_pending_lifecycles w.db partition t).0 }, ok tt)

  -- `this.#config.mappings[mappingKey]?.bootstrap`
  abbrev pub bootstrap_of : String → Option BootstrapConfig
  bootstrap_of mapping_key = bootstrap_in (find (of_key mapping_key) env.config.mappings)
