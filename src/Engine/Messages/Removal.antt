-- ===== src/Engine/Messages/Removal.antt =====
-- relay/engine.ts: `#deleteDiscordItem`.
use forum_relay.Common.{
  ◌≡◌, refl, ap, sym, subst, ◌∙◌, ℕ, String, Bool, true, List, [], ◌∷◌, keep, find, Option, none,
  some, string_eq, update_where, if◌then◌else◌, arith, Option-cases, inl, inr, find_sound,
}
use forum_relay.Common.Search.{find-update_where}
use forum_relay.Common.Json.{Json, json_string}
use forum_relay.Retry.{Result, ok, err}
use forum_relay.Relay.{RelayItem, IssueThreadLink, ItemRow, SegmentRow}
use forum_relay.Relay.Items.{get_relay_item, has_item_id, deleted}
use forum_relay.Relay.Links.{get_link}
use forum_relay.Relay.Segments.{
  get_segments, delete_segments, is_of_item, by_position, mark_deleted,
}
use forum_relay.Engine.{Env, World, ◌>>=◌, ◌>>◌, pure, lift, rescued, each, truthy, Call}
use forum_relay.Engine.Ends.{
  Ends, Ends-bind, Ends-known, required_string-json_string, required_relay_item-get_relay_item,
  required_link-get_link,
}
use forum_relay.Engine.Store.{required_relay_item, required_link, mark_item_deleted}
use forum_relay.Engine.Payloads.{required_string, or_value}
use forum_relay.Engine.Messages.{
  is_not_found, delete_segment, delete_from, delete_item, delete_discord_item, deleted_result,
}

-- A deletion that Discord carries out, or answers that there is nothing to delete.
abbrev pub is_tolerated : Result (Unit {0}) → Bool
is_tolerated (ok a) = true
is_tolerated (err e) = is_not_found e

-- Discord was asked for the deletion of each message, in this order; the newest call comes first.
abbrev pub asked_deletions : String → String → List (String × String) → List Call → List Call
asked_deletions mapping_key thread [] calls = calls
asked_deletions mapping_key thread (segment ∷ segments) calls =
    asked_deletions mapping_key thread segments
      (Call.delete_message mapping_key thread segment.0 ∷ calls)

-- The item is deleted, and no message is recorded for it.
abbrev pub IsDeleted : String → World → Type 0
IsDeleted id w =
    (i : RelayItem) × (get_relay_item w.items id ≡ some i)
    × (i.state ≡ "DELETED")
    × (i.destination_id ≡ none)
    × (get_segments w.segments id ≡ [])

abbrev Never : World → Type 0
Never w = ⊥

keep-keep_not :
    (id : String) (rows : List SegmentRow) → keep (is_of_item id) (delete_segments id rows) ≡ []
keep-keep_not id [] = refl
keep-keep_not id (s ∷ rows) = ground (arith, keep-keep_not id rows)

get_segments-delete_segments :
    (id : String) (rows : List SegmentRow) → get_segments (delete_segments id rows) id ≡ []
unfolding get_segments by_position
get_segments-delete_segments id rows = rw (get_segments, keep-keep_not id rows) refl

get_relay_item-deleted :
    (id : String) (now : ℕ) (rows : List ItemRow) (item : RelayItem)
    → get_relay_item rows id ≡ some item
    → get_relay_item (update_where (has_item_id id) (deleted now) rows) id
      ≡ some (record item { state = "DELETED"; destination_id = none; render_hash = none })
unfolding get_relay_item
get_relay_item-deleted id now rows item h = elim (Option-cases (find (has_item_id id) rows)) [
  | inl e ↦ ground (arith, e)
  | inr (r, e) ↦ ground (
    arith,
    e,
    find-update_where (has_item_id id) (has_item_id id) (deleted now) (λ x. refl) rows r e,
    find_sound (has_item_id id) rows r e,
  )
]

module _ (env : Env) (mapping_key thread : String) (w₀ : World)
    (tolerated : (calls : List Call) → is_tolerated (env.remote.done calls) ≡ true) where
  -- The tables of items and of messages are as they were, and these calls were made.
  abbrev Same : List Call → World → Type 0
  Same calls w = (w.items ≡ w₀.items) × (w.segments ≡ w₀.segments) × (w.calls ≡ calls)

  tolerate :
      (calls : List Call) (w : World) (r : Result (Unit {0}))
      → is_tolerated r ≡ true
      → Same calls w
      → Ends
          (rescued (w, r) (λ e. if is_not_found e then pure tt else lift (err e)))
          (λ w' a. Same calls w')
          Never
  tolerate calls w (ok a) t h = h
  tolerate calls w (err e) t h = rw t h

  delete_segment-Same :
      (segment : String × String) (calls : List Call) (w : World)
      → Same calls w
      → Ends
          (delete_segment env mapping_key thread segment w)
          (λ w' a. Same (Call.delete_message mapping_key thread segment.0 ∷ calls) w')
          Never
  unfolding delete_segment
  delete_segment-Same segment calls w h =
      tolerate _ _ _ (tolerated _)
        (h.0, h.1, ap (λ cs. Call.delete_message mapping_key thread segment.0 ∷ cs) h.2)

  each-Same :
      (segments : List (String × String)) (calls : List Call) (w : World)
      → Same calls w
      → Ends
          (each segments (delete_segment env mapping_key thread) w)
          (λ w' a. Same (asked_deletions mapping_key thread segments calls) w')
          Never
  each-Same [] calls w h = h
  each-Same (s ∷ ss) calls w h =
      let calls' = Call.delete_message mapping_key thread s.0 ∷ calls in
      Ends-bind (delete_segment env mapping_key thread s)
        (λ _. each ss (delete_segment env mapping_key thread)) w (λ w' a. Same calls' w')
        (λ w' a. Same (asked_deletions mapping_key thread ss calls') w') Never
        (delete_segment-Same s calls w h) (λ w' a k. each-Same ss calls' w' k)

  marked :
      (item : RelayItem) (calls : List Call) (w : World)
      → get_relay_item w₀.items item.id ≡ some item
      → Same calls w
      → let w' = (mark_item_deleted env item.id w).0 in IsDeleted item.id w' × (w'.calls ≡ calls)
  unfolding mark_deleted get_relay_item get_segments
  marked item calls w g h = (
    (
      record item { state = "DELETED"; destination_id = none; render_hash = none },
      get_relay_item-deleted item.id (env.clock w.clock_reads) w.items item
          (ap (λ rows. get_relay_item rows item.id) h.0 ∙ g),
      refl,
      refl,
      get_segments-delete_segments item.id w.segments,
    ),
    h.2,
  )

  -- The item is deleted, Discord was asked for the deletion of each of its messages and for nothing else,
  -- and the answer says so.
  abbrev pub Deletes : RelayItem → World → Json → Type 0
  Deletes item w a =
      IsDeleted item.id w
      × (w.calls ≡ asked_deletions mapping_key thread (get_segments w₀.segments item.id) w₀.calls)
      × (a ≡ deleted_result env true)

  delete_from-IsDeleted :
      (item : RelayItem) (o : Option String)
      → o ≡ some thread
      → get_relay_item w₀.items item.id ≡ some item
      → Ends (delete_from env mapping_key item o w₀) (Deletes item) Never
  unfolding mark_deleted delete_segment
  delete_from-IsDeleted item none e g = cc
  delete_from-IsDeleted item (some t) e g =
      let segments = get_segments w₀.segments item.id in
      let calls = asked_deletions mapping_key thread segments w₀.calls in
      subst (λ t. Ends (delete_from env mapping_key item (some t) w₀) (Deletes item) Never)
        (ap (λ o. or_value o thread) (sym e))
        (Ends-bind (each segments (delete_segment env mapping_key thread))
          (λ _. mark_item_deleted env item.id >> pure (deleted_result env true)) w₀
          (λ w' a. Same calls w') (Deletes item) Never
          (each-Same segments w₀.calls w₀ (refl, refl, refl))
          (λ w' a k. let (gone, made) = marked item calls w' g k in (gone, made, refl)))

-- When the item and its link are there, the link names a thread, and Discord answers each deletion by carrying
-- it out or by saying that there is nothing to delete, `delete_discord_item` does not throw. It asks Discord for
-- the deletion of each message that is recorded for the item, in their order, and makes no other call; it
-- returns `{ deleted: true }`, and the item is in the state "DELETED" without a destination, with no message
-- recorded any more.
pub delete_discord_item-IsDeleted :
    (env : Env) (mapping_key thread : String) (payload : Json) (item : RelayItem)
    (link : IssueThreadLink) (w : World)
    → json_string payload "relayItemId" ≡ some item.id
    → get_relay_item w.items item.id ≡ some item
    → get_link w.links item.issue_thread_link_id ≡ some link
    → truthy link.discord_thread_id ≡ some thread
    → ((calls : List Call) → is_tolerated (env.remote.done calls) ≡ true)
    → Ends
        (delete_discord_item env mapping_key payload w)
        (λ w' a.
          IsDeleted item.id w'
          × (w'.calls
              ≡ asked_deletions mapping_key thread (get_segments w.segments item.id) w.calls)
          × (a ≡ deleted_result env true))
        (λ w'. ⊥)
unfolding delete_discord_item
delete_discord_item-IsDeleted env mapping_key thread payload item link w j g l t tolerated =
    Ends-known (lift (required_string payload "relayItemId"))
      (λ id. required_relay_item id >>= delete_item env mapping_key) w item.id
      (Deletes env mapping_key thread w tolerated item) Never
      (ap (λ x. (w, x)) (required_string-json_string payload "relayItemId" item.id j))
      (Ends-known (required_relay_item item.id) (delete_item env mapping_key) w item
        (Deletes env mapping_key thread w tolerated item) Never
        (required_relay_item-get_relay_item item.id item w g)
        (Ends-known (required_link env item.issue_thread_link_id)
          (λ link. delete_from env mapping_key item (truthy link.discord_thread_id)) w link
          (Deletes env mapping_key thread w tolerated item) Never
          (required_link-get_link env item.issue_thread_link_id link w l)
          (delete_from-IsDeleted env mapping_key thread w tolerated item
            (truthy link.discord_thread_id) t g)))
