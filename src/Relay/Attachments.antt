-- ===== src/Relay/Attachments.antt =====
-- db/relay-repository.ts: the attachments of a relayed item.
use forum_relay.Common.{
  ℕ, String, Bool, List, [], ◌∷◌, ◌++◌, Option, none, some, any, update_where, ◌==◌, string_eq,
  ℕ_eq, if◌then◌else◌, map, keep, ltb, nat_eq, ◌&&◌, ◌||◌,
}
use forum_relay.Common.Texts.{text_leb}
use forum_relay.Relay.{AttachmentRow, StoredAttachment}

-- The argument of `upsertAttachment`.
pub record Attachment : Type 0 where
  pub content_type : Option String
  pub filename : String
  pub id : String
  pub size : Option ℕ
  pub url : String

abbrev pub is_from : String → AttachmentRow → Bool
is_from source_id r = r.attachment.source_attachment_id == source_id

-- `uuid` is the fresh id of the call.
unfoldable pub upsert_attachment :
    String → Attachment → String → ℕ → List AttachmentRow → List AttachmentRow
upsert_attachment item_id a uuid now rows =
    if any (is_from a.id) rows
    then update_where (is_from a.id)
        (λ r. record r {
          attachment = record r.attachment {
            source_url = a.url;
            filename = a.filename;
            content_type = a.content_type;
            size = a.size;
          };
          updated_at = now;
        })
        rows
    else rows
      ++ record {
        attachment = record {
          content_type = a.content_type;
          filename = a.filename;
          id = uuid;
          proxy_hash = none;
          proxy_url = none;
          size = a.size;
          source_attachment_id = a.id;
          source_url = a.url;
          state = "PENDING";
        };
        relay_item_id = item_id;
        last_error_code = none;
        created_at = now;
        updated_at = now;
      }
        ∷ []

abbrev has_attachment_id : String → AttachmentRow → Bool
has_attachment_id id r = r.attachment.id == id

unfoldable pub complete_attachment :
    String → String → String → ℕ → List AttachmentRow → List AttachmentRow
complete_attachment id hash url now = update_where (has_attachment_id id) (λ r. record r {
  attachment = record r.attachment {
    state = "COMPLETE";
    proxy_hash = some hash;
    proxy_url = some url;
  };
  last_error_code = none;
  updated_at = now;
})

unfoldable pub fail_attachment : String → String → ℕ → List AttachmentRow → List AttachmentRow
fail_attachment id code now = update_where (has_attachment_id id) (λ r. record r {
  attachment = record r.attachment { state = "FAILED" };
  last_error_code = some code;
  updated_at = now;
})

-- `ORDER BY created_at, id`
unfoldable pub is_earlier : AttachmentRow → AttachmentRow → Bool
unfolding text_leb
is_earlier r s =
    ltb r.created_at s.created_at
    || nat_eq r.created_at s.created_at && text_leb r.attachment.id s.attachment.id

abbrev pub insert_by_age : AttachmentRow → List AttachmentRow → List AttachmentRow
insert_by_age r [] = r ∷ []
insert_by_age r (s ∷ ss) = if is_earlier r s then r ∷ s ∷ ss else s ∷ insert_by_age r ss

unfoldable pub by_age : List AttachmentRow → List AttachmentRow
by_age [] = []
by_age (r ∷ rs) = insert_by_age r (by_age rs)

unfoldable pub attachments : List AttachmentRow → String → List StoredAttachment
unfolding by_age
attachments rows item_id =
    map (λ r. r.attachment) (by_age (keep (λ r. r.relay_item_id == item_id) rows))
