-- ===== src/Relay/Segments.antt =====
-- db/relay-repository.ts: the Discord messages that show an item, and the shadows of its revisions.
pub mod Laws
use forum_relay.Common.{
  ℕ, zero, suc, String, Bool, true, false, not, ◌&&◌, ◌||◌, List, [], ◌∷◌, ◌++◌, map, Option, none,
  some, any, keep, get_elem?, update_where, ◌==◌, string_eq, ℕ_eq, leb, if◌then◌else◌,
}
use forum_relay.Retry.{Result, ok, err, ◌>>=◌}
use forum_relay.Relay.{ItemRow, SegmentRow, ShadowRow, unique_failed}
use forum_relay.Relay.Items.{has_item_id, deleted}

abbrev pub is_of_item : String → SegmentRow → Bool
is_of_item id s = s.relay_item_id == id

-- The UNIQUE indexes on the place and on the message.
abbrev pub segment_clashes : SegmentRow → SegmentRow → Bool
segment_clashes new s =
    s.relay_item_id == new.relay_item_id && s.position == new.position
    || s.discord_message_id == new.discord_message_id

unfoldable pub insert_segment : SegmentRow → List SegmentRow → Result (List SegmentRow)
insert_segment new rows =
    if any (segment_clashes new) rows then err unique_failed else ok (rows ++ new ∷ [])

-- `DELETE FROM relay_segments WHERE relay_item_id = ?`
abbrev pub delete_segments : String → List SegmentRow → List SegmentRow
delete_segments id = keep (λ s. not (is_of_item id s))

-- `renderHashes[position] ?? ""`
abbrev pub hash_at : List String → ℕ → String
hash_at hashes position = elim (get_elem? hashes position) [ none ↦ "" | some h ↦ h ]

abbrev pub segment : String → ℕ → String → List String → ℕ → SegmentRow
segment id position message hashes now = record {
  relay_item_id = id;
  position = position;
  discord_message_id = message;
  render_hash = hash_at hashes position;
  created_at = now;
  updated_at = now;
}

-- The loop of `replaceSegments`, from a position on.
unfoldable pub insert_segments :
    String → List String → ℕ → ℕ → List String → List SegmentRow → Result (List SegmentRow)
unfolding insert_segment
insert_segments id hashes now position [] rows = ok rows
insert_segments id hashes now position (m ∷ ms) rows =
    insert_segment (segment id position m hashes now) rows
    >>= insert_segments id hashes now (suc position) ms

-- The transaction: an error rolls it back and is thrown on, so that the table is as before.
unfoldable pub replace_segments :
    String → List String → List String → ℕ → List SegmentRow → Result (List SegmentRow)
unfolding insert_segments
replace_segments id messages hashes now rows =
    insert_segments id hashes now 0 messages (delete_segments id rows)

-- `ORDER BY position`
abbrev pub insert_by_position : SegmentRow → List SegmentRow → List SegmentRow
insert_by_position s [] = s ∷ []
insert_by_position s (r ∷ rs) =
    if leb s.position r.position then s ∷ r ∷ rs else r ∷ insert_by_position s rs

unfoldable pub by_position : List SegmentRow → List SegmentRow
by_position [] = []
by_position (s ∷ ss) = insert_by_position s (by_position ss)

unfoldable pub get_segments : List SegmentRow → String → List (String × String)
unfolding by_position
get_segments rows id =
    map (λ s. (s.discord_message_id, s.render_hash)) (by_position (keep (is_of_item id) rows))

-- Both statements of the transaction.
unfoldable pub mark_deleted :
    String → ℕ → List ItemRow × List SegmentRow → List ItemRow × List SegmentRow
mark_deleted id now (rows, segments) =
    (update_where (has_item_id id) (deleted now) rows, delete_segments id segments)

abbrev pub is_shadow_of : String → ShadowRow → Bool
is_shadow_of id s = s.relay_item_id == id

-- What an existing shadow takes from a later revision.
abbrev pub shadow_again : String → String → ℕ → ShadowRow → ShadowRow
shadow_again message canonical_hash now s = record s {
  discord_message_id = message;
  canonical_hash = canonical_hash;
  updated_at = now;
}

abbrev pub new_shadow : String → String → String → ℕ → ShadowRow
new_shadow id message canonical_hash now = record {
  relay_item_id = id;
  discord_message_id = message;
  canonical_hash = canonical_hash;
  created_at = now;
  updated_at = now;
}

-- The message is that of another item's shadow.
abbrev pub shadow_clashes : String → String → ShadowRow → Bool
shadow_clashes id message s = not (is_shadow_of id s) && s.discord_message_id == message

-- `ON CONFLICT(relay_item_id) DO UPDATE`; a message of another item's shadow is refused.
unfoldable pub save_revision_shadow :
    String → String → String → ℕ → List ShadowRow → Result (List ShadowRow)
save_revision_shadow id message canonical_hash now rows =
    if any (shadow_clashes id message) rows
    then err unique_failed
    else if any (is_shadow_of id) rows
    then ok (update_where (is_shadow_of id) (shadow_again message canonical_hash now) rows)
    else ok (rows ++ new_shadow id message canonical_hash now ∷ [])
