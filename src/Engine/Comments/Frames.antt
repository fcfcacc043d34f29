-- ===== src/Engine/Comments/Frames.antt =====
-- relay/engine.ts: what the steps of `#createGitHubIssue` do to the links.
use forum_relay.Common.{
  ◌≡◌, refl, ℕ, String, false, List, none, some, any, find, ◌==◌, string_eq, arith, text_iff,
  Option-cases, Bool-cases, inl, inr,
}
use forum_relay.Common.Search.{find-append}
use forum_relay.Retry.{Result, ok, err}
use forum_relay.Relay.{
  IssueThreadLink, GitHubIssueIdentity, RelayItem, ItemRow, UpsertRelayItem, StoredAttachment,
  open_issue,
}
use forum_relay.Relay.Links.{
  LinkTable, find_link_by_discord, create_discord_origin_link, insert_link, is_of_thread,
  link_clashes, issue_link,
}
use forum_relay.Relay.Attachments.{Attachment}
use forum_relay.Engine.{Env, World, ◌>>=◌, pure, each}
use forum_relay.Engine.Ends.{Ends, Ends-answer, Keeps, Keeps-bind, Keeps-each, Keeps-when}
use forum_relay.Engine.Store.{
  with_links, with_items, with_rows, upsert_item, set_item_destination, store_attachment,
  enqueue_operation, attachments_of, fresh,
}
use forum_relay.Engine.Queueing.{
  persist_attachments, upload, upload_operation, enqueue_upload, enqueue_github_sync,
}

-- What holds of the links alone.
module _ (P : LinkTable → Type 0) (env : Env) where
  abbrev pub I : World → Type 0
  I w = P w.links

  pub with_items-Keeps :
      (w : World) (r : Result (RelayItem × List ItemRow))
      → I w
      → Ends (with_items w r) (λ w' a. I w') I
  with_items-Keeps w (ok (a, rows)) h = h
  with_items-Keeps w (err e) h = h

  pub with_rows-Keeps :
      (w : World) (r : Result (List ItemRow)) → I w → Ends (with_rows w r) (λ w' a. I w') I
  with_rows-Keeps w (ok rows) h = h
  with_rows-Keeps w (err e) h = h

  pub upsert_item-Keeps : (input : UpsertRelayItem) → Keeps I (upsert_item env input)
  upsert_item-Keeps input w h = with_items-Keeps _ _ h

  pub set_item_destination-Keeps : (id d : String) → Keeps I (set_item_destination env id d)
  set_item_destination-Keeps id d w h = with_rows-Keeps _ _ h

  pub enqueue_github_sync-Keeps :
      (mapping_key : String) (link : IssueThreadLink) (item : RelayItem) (revision : String)
      (dependencies : List String)
      → Keeps I (enqueue_github_sync env mapping_key link item revision dependencies)
  unfolding enqueue_github_sync
  enqueue_github_sync-Keeps mapping_key link item revision dependencies w h =
      Ends-answer _ _ (λ w' a. I w') I (λ a. h) h

  pub upload-Keeps :
      (item : RelayItem) (attachment : StoredAttachment) → Keeps I (upload env item attachment)
  upload-Keeps item attachment =
      Keeps-bind I (fresh env) _ (λ w h. h)
        (λ correlation.
          Keeps-bind I (enqueue_operation env (upload_operation env item attachment correlation))
            (λ _. pure tt) (λ w h. Ends-answer _ _ (λ w' a. I w') I (λ a. h) h) (λ _ w h. h))

  pub enqueue_upload-Keeps :
      (item : RelayItem) (attachment : StoredAttachment)
      → Keeps I (enqueue_upload env item attachment)
  unfolding enqueue_upload
  enqueue_upload-Keeps item attachment =
      Keeps-when I (attachment.state == "PENDING") (upload env item attachment)
        (upload-Keeps item attachment)

  pub persist_attachments-Keeps :
      (item : RelayItem) (given : List Attachment) → Keeps I (persist_attachments env item given)
  unfolding persist_attachments
  persist_attachments-Keeps item given =
      Keeps-bind I (each given (store_attachment env item.id))
        (λ _. attachments_of item.id >>= λ stored. each stored (enqueue_upload env item))
        (Keeps-each I (store_attachment env item.id) (λ a w h. h) given)
        (λ _.
          Keeps-bind I (attachments_of item.id) (λ stored. each stored (enqueue_upload env item))
            (λ w h. h)
            (λ stored. Keeps-each I (enqueue_upload env item) (enqueue_upload-Keeps item) stored))

pub with_links-Ends :
    (w : World) (r : Result (IssueThreadLink × LinkTable)) (Q : World → IssueThreadLink → Type 0)
    (E : World → Type 0)
    → ((l : IssueThreadLink) (t : LinkTable) → r ≡ ok (l, t) → Q (record w { links = t }) l)
    → E w
    → Ends (with_links w r) Q E
with_links-Ends w (ok (l, t)) Q E q e = q l t refl
with_links-Ends w (err f) Q E q e = e

pub created_link-find :
    (mapping_key thread title : String) (issue : GitHubIssueIdentity) (now : ℕ) (t t' : LinkTable)
    (l : IssueThreadLink)
    → find_link_by_discord t mapping_key thread ≡ none
    → create_discord_origin_link mapping_key thread title issue now t ≡ ok (l, t')
    → (l.github_issue_id ≡ issue.id)
      × (l.github_issue_number ≡ issue.number)
      × (find_link_by_discord t' mapping_key thread ≡ some l)
unfolding insert_link find_link_by_discord create_discord_origin_link
created_link-find mapping_key thread title issue now t t' l n h =
    elim (Option-cases (find (is_of_thread mapping_key thread) t.rows)) [
      | inr (r, e) ↦ ground (arith, e)
      | inl e ↦ elim (Bool-cases (any (link_clashes new) t.rows)) [
        | inl c ↦ ground (arith, c)
        | inr c ↦ ground (
          arith,
          c,
          text_iff mapping_key mapping_key,
          text_iff thread thread,
          find-append (is_of_thread mapping_key thread) t.rows
              (record {
                link = new;
                previous_discord_thread_ids_json = "[]";
                created_at = now;
                updated_at = now;
              })
              e,
        )
      ]
    ]
  where
    new : IssueThreadLink
    new = record (issue_link t mapping_key issue) {
      discord_thread_id = some thread;
      full_title = title;
      state = open_issue;
      locked = false;
    }
