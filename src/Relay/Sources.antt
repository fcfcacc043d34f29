-- ===== src/Relay/Sources.antt =====
-- `upsertRelayItem` with `findRelayItem` and `markDeleted`.
use forum_relay.Common.{
  ℕ, ◌≡◌, inl, inr, refl, String, Bool, true, List, Option, some, find, update_where, arith,
  text_iff, string_eq, Option-cases,
}
use forum_relay.Common.Search.{find-update_where, find-append}
use forum_relay.Retry.{ok}
use forum_relay.Relay.{UpsertRelayItem, RelayItem, ItemRow}
use forum_relay.Relay.Items.{
  is_source, has_item_id, find_relay_item, revised, new_row, upsert_relay_item,
}

module _ (hash : String → String) where
  -- The item that `input` names.
  abbrev pub find_source : List ItemRow → UpsertRelayItem → Option RelayItem
  find_source rows input =
      find_relay_item rows input.mapping_key input.source_platform input.source_kind input.source_id

  abbrev names : UpsertRelayItem → ItemRow → Bool
  names input r =
      is_source input.mapping_key input.source_platform input.source_kind input.source_id r.item

  new_row-named :
      (input : UpsertRelayItem) (id : String) (now : ℕ)
      → names input (new_row hash input id now) ≡ true
  new_row-named input id now = ground (
    arith,
    text_iff input.mapping_key input.mapping_key,
    text_iff input.source_kind input.source_kind,
    text_iff input.source_id input.source_id,
  )

  revise :
      (input : UpsertRelayItem) (now : ℕ) (rows : List ItemRow) (r : ItemRow)
      → find (names input) rows ≡ some r
      → find_source (update_where (has_item_id r.item.id) (revised hash input now) rows) input
        ≡ some (revised hash input now r).item
  unfolding find_relay_item
  revise input now rows r f =
      rw
        (
          find-update_where (names input) (has_item_id r.item.id) (revised hash input now)
              (λ x. refl) rows r f,
          (text_iff r.item.id r.item.id).1 refl,
        )
        refl

  -- An item that is upserted is found by its source, with the new body and the new author, and active.
  -- Apart from the author, it is the item that the call returns.
  pub upsert_relay_item-find :
      (input : UpsertRelayItem) (id : String) (now : ℕ) (rows : List ItemRow) (item : RelayItem)
      (rows' : List ItemRow)
      → upsert_relay_item hash input id now rows ≡ ok (item, rows')
      → (find_source rows' input ≡ some (record item { author = input.author }))
        × (item.source_body ≡ input.source_body)
        × (item.state ≡ "ACTIVE")
  unfolding upsert_relay_item find_relay_item
  upsert_relay_item-find input id now rows item rows' h =
      elim (Option-cases (find (names input) rows)) [
        | inl e ↦ ground (
          arith,
          find-append (names input) rows (new_row hash input id now) e (new_row-named input id now),
        )
        | inr (r, e) ↦ ground (arith, revise input now rows r e)
      ]
