-- ===== src/Engine/Messages/Resync.antt =====
-- relay/engine.ts: `#syncDiscordItem` when Discord shows the item already.
use forum_relay.Common.{
  ◌≡◌, refl, ap, suc, String, Bool, true, false, List, [], ◌∷◌, map, length, keep, Option, none,
  some, ◌==◌, string_eq, arith, text_iff,
}
use forum_relay.Retry.{Result, ok, err}
use forum_relay.Relay.{IssueThreadLink, RelayItem, SegmentRow}
use forum_relay.Relay.Segments.{get_segments}
use forum_relay.Engine.{Env, World, ◌>>=◌, ◌>>◌, pure, when, truthy, Call, Segment, ThreadChanges}
use forum_relay.Engine.Ends.{
  Ends, Ends-bind, Ends-answer, Ends-known, Keeps, Keeps-bind, Keeps-when,
}
use forum_relay.Engine.Store.{set_segments, with_segments}
use forum_relay.Engine.Messages.{
  Shown, show_item, show_segments, prepare_thread, finish_item, segment_hash, drop, edit_thread,
  is_unarchived, no_changes, retitle, item_result,
}

-- The calls that change a message on Discord.
abbrev pub is_message_call : Call → Bool
is_message_call (Call.create_thread m name segment tags) = true
is_message_call (Call.create_message m thread segment) = true
is_message_call (Call.edit_message m thread message segment) = true
is_message_call (Call.delete_message m thread message) = true
is_message_call _ = false

-- The messages on Discord are as they were.
abbrev pub SameMessages : World → World → Type 0
SameMessages w w' = keep is_message_call w'.calls ≡ keep is_message_call w.calls

-- The message of each place.
abbrev pub message_of : String × String → String
message_of s = s.0

abbrev pub hash_of : String × String → String
hash_of s = s.1

drop-all :
    (existing : List (String × String)) (rendered : List Segment)
    → length existing ≡ length rendered
    → drop (length rendered) existing ≡ []
drop-all [] [] h = refl
drop-all [] (s ∷ ss) h = refl
drop-all (e ∷ es) [] h = ground (arith, h)
drop-all (e ∷ es) (s ∷ ss) h = drop-all es ss (omega (arith, h))

tail_eq : {A : Type 0} {x y : A} {xs ys : List A} → (x ∷ xs) ≡ (y ∷ ys) → xs ≡ ys
tail_eq h = cc

module _ (env : Env) (mapping_key : String) (item : RelayItem) (link : IssueThreadLink)
    (title : String) (labels : List String) where
  abbrev all_shown : String → Bool → List (String × String) → List Segment → Shown
  all_shown thread created existing rendered = record {
    thread = some thread;
    created = created;
    message_ids = map message_of existing;
    render_hashes = map (segment_hash env) rendered;
  }

  -- A message of each segment's hash is left alone.
  pub show_segments-same :
      (thread : String) (created : Bool) (existing : List (String × String))
      (rendered : List Segment) (w : World)
      → map hash_of existing ≡ map (segment_hash env) rendered
      → show_segments env mapping_key item link title labels
          (some thread)
          created
          existing
          rendered
          w
        ≡ (w, ok (all_shown thread created existing rendered))
  unfolding show_segments
  show_segments-same thread created [] [] w h = refl
  show_segments-same thread created [] (s ∷ ss) w h = cc
  show_segments-same thread created (e ∷ es) [] w h = cc
  show_segments-same thread created ((message, render_hash) ∷ es) (s ∷ ss) w h =
      rw (show_segments, kept, show_segments-same thread created es ss w (tail_eq h)) refl
    where
      head_eq : render_hash ≡ segment_hash env s
      head_eq = cc

      kept : (render_hash == segment_hash env s) ≡ true
      kept = ground (arith, text_iff render_hash (segment_hash env s), head_eq)

  length-hashes :
      (existing : List (String × String)) (rendered : List Segment)
      → map hash_of existing ≡ map (segment_hash env) rendered
      → length existing ≡ length rendered
  length-hashes [] [] h = refl
  length-hashes [] (s ∷ ss) h = cc
  length-hashes (e ∷ es) [] h = cc
  length-hashes (e ∷ es) (s ∷ ss) h = ap suc (length-hashes es ss (tail_eq h))

module _ (w₀ : World) where
  abbrev I : World → Type 0
  I = SameMessages w₀

  with_segments-Keeps :
      (w : World) (r : Result (List SegmentRow)) → I w → Ends (with_segments w r) (λ w' a. I w') I
  with_segments-Keeps w (ok rows) h = h
  with_segments-Keeps w (err e) h = h

  edit_thread-Keeps :
      (env : Env) (thread : String) (changes : ThreadChanges)
      → Keeps I (edit_thread env thread changes)
  edit_thread-Keeps env thread changes w h = Ends-answer _ _ (λ w' a. I w') I (λ a. h) h

  set_segments-Keeps :
      (env : Env) (id : String) (messages hashes : List String)
      → Keeps I (set_segments env id messages hashes)
  set_segments-Keeps env id messages hashes w h = with_segments-Keeps _ _ h

  module _ (env : Env) (mapping_key : String) (item : RelayItem) (link : IssueThreadLink)
      (title : String) (labels : List String) where
    prepare_thread-Keeps :
        (thread : Option String) (unarchived : Bool)
        → Keeps I (prepare_thread env mapping_key item link title labels thread unarchived)
    unfolding prepare_thread
    prepare_thread-Keeps none unarchived = λ w h. h
    prepare_thread-Keeps (some thread) unarchived =
        Keeps-bind I
          (when (item.source_kind == "issue-body")
            (retitle env mapping_key item link title labels thread))
          (λ _.
            when unarchived (edit_thread env thread (record no_changes { archived = some false })))
          (Keeps-when I (item.source_kind == "issue-body")
            (retitle env mapping_key item link title labels thread)
            (λ w h. edit_thread-Keeps env thread _ w h))
          (λ _.
            Keeps-when I unarchived
              (edit_thread env thread (record no_changes { archived = some false }))
              (edit_thread-Keeps env thread (record no_changes { archived = some false })))

    finish_item-Keeps :
        (thread : String) (messages hashes : List String) (unarchived : Bool)
        → Keeps I (
            finish_item env mapping_key item link title labels [] unarchived (record {
              thread = some thread;
              created = false;
              message_ids = messages;
              render_hashes = hashes;
            }))
    unfolding finish_item
    finish_item-Keeps thread messages hashes unarchived =
        Keeps-bind I (set_segments env item.id messages hashes)
          (λ _.
            when unarchived (edit_thread env thread (record no_changes { archived = some true }))
            >> pure (item_result messages thread))
          (set_segments-Keeps env item.id messages hashes)
          (λ _.
            Keeps-bind I
              (when unarchived
                (edit_thread env thread (record no_changes { archived = some true })))
              (λ _. pure (item_result messages thread))
              (Keeps-when I unarchived
                (edit_thread env thread (record no_changes { archived = some true }))
                (edit_thread-Keeps env thread (record no_changes { archived = some true })))
              (λ _ w h. h))

    shown_again :
        (o : Option String) (thread : String) (unarchived : Bool)
        (existing : List (String × String)) (rendered : List Segment)
        (stale : List (String × String)) (w : World)
        → o ≡ some thread
        → stale ≡ []
        → map hash_of existing ≡ map (segment_hash env) rendered
        → I w
        → Ends
            ((show_segments env mapping_key item link title labels o false existing rendered
                >>= finish_item env mapping_key item link title labels stale unarchived)
              w)
            (λ w' a. I w')
            I
    shown_again none thread unarchived existing rendered stale w e n h k = cc
    shown_again (some t) thread unarchived existing rendered (s ∷ ss) w e n h k = cc
    shown_again (some t) thread unarchived existing rendered [] w e n h k =
        Ends-known
          (show_segments env mapping_key item link title labels (some t) false existing rendered)
          (finish_item env mapping_key item link title labels [] unarchived) w
          (all_shown env mapping_key item link title labels t false existing rendered)
          (λ w' a. I w') I
          (show_segments-same env mapping_key item link title labels t false existing rendered w h)
          (finish_item-Keeps t (map message_of existing) (map (segment_hash env) rendered)
            unarchived w k)

-- When the link names a thread and the stored hashes of the item's messages are those of the rendered segments,
-- one for one, then `show_item` neither opens a thread nor creates, edits or deletes a message, whether it
-- returns or throws: what Discord shows already is not sent again.
pub show_item-SameMessages :
    (env : Env) (mapping_key title thread : String) (item : RelayItem) (link : IssueThreadLink)
    (labels : List String) (rendered : List Segment) (w : World)
    → truthy link.discord_thread_id ≡ some thread
    → map hash_of (get_segments w.segments item.id) ≡ map (segment_hash env) rendered
    → Ends
        (show_item env mapping_key item link title labels rendered w)
        (λ w' a. SameMessages w w')
        (SameMessages w)
unfolding show_item
show_item-SameMessages env mapping_key title thread item link labels rendered w t h =
    Ends-bind
      (prepare_thread env mapping_key item link title labels (truthy link.discord_thread_id)
        unarchived)
      (λ _.
        show_segments env mapping_key item link title labels (truthy link.discord_thread_id) false
          existing rendered
        >>= finish_item env mapping_key item link title labels (drop (length rendered) existing)
            unarchived)
      w (λ w' a. SameMessages w w') (λ w' a. SameMessages w w') (SameMessages w)
      (prepare_thread-Keeps w env mapping_key item link title labels (truthy link.discord_thread_id)
        unarchived w refl)
      (λ w' x k.
        shown_again w env mapping_key item link title labels (truthy link.discord_thread_id) thread
          unarchived existing rendered (drop (length rendered) existing) w' t
          (drop-all existing rendered
            (length-hashes env mapping_key item link title labels existing rendered h))
          h k)
  where
    existing : List (String × String)
    existing = get_segments w.segments item.id

    unarchived : Bool
    unarchived = is_unarchived env mapping_key item link title labels
