-- ===== src/Relay/Items.antt =====
-- db/relay-repository.ts: the relayed items. `hash` is SHA-256 in hexadecimal, and `id` the fresh UUID.
use forum_relay.Common.{
  ℕ, String, Bool, true, false, not, ◌&&◌, List, [], ◌∷◌, ◌++◌, Option, none, some, any, find,
  update_where, ◌==◌, string_eq, if◌then◌else◌,
}
use forum_relay.Retry.{Result, ok, err}
use forum_relay.Relay.{
  Platform, discord, github, UpsertRelayItem, RelayItem, ItemRow, unique_failed,
}
use forum_relay.Relay.Links.{is_some}

abbrev pub is_platform : Platform → Platform → Bool
is_platform discord discord = true
is_platform github github = true
is_platform _ _ = false

-- `result.rows[0] ? toRelayItem(result.rows[0]) : undefined`
abbrev pub to_relay_item : Option ItemRow → Option RelayItem
to_relay_item none = none
to_relay_item (some r) = some r.item

abbrev pub is_source : String → Platform → String → String → RelayItem → Bool
is_source mapping_key platform kind source_id i =
    i.mapping_key == mapping_key
    && is_platform i.source_platform platform
    && i.source_kind == kind
    && i.source_id == source_id

abbrev pub is_destination : String → Platform → String → String → RelayItem → Bool
is_destination mapping_key platform kind destination_id i =
    i.mapping_key == mapping_key
    && is_platform i.destination_platform platform
    && i.destination_kind == kind
    && is_some destination_id i.destination_id

unfoldable pub find_relay_item :
    List ItemRow → String → Platform → String → String → Option RelayItem
find_relay_item rows mapping_key platform kind source_id =
    to_relay_item (find (λ r. is_source mapping_key platform kind source_id r.item) rows)

unfoldable pub find_relay_item_by_destination :
    List ItemRow → String → Platform → String → String → Option RelayItem
find_relay_item_by_destination rows mapping_key platform kind destination_id =
    to_relay_item (find (λ r. is_destination mapping_key platform kind destination_id r.item) rows)

abbrev pub has_item_id : String → ItemRow → Bool
has_item_id id r = r.item.id == id

unfoldable pub get_relay_item : List ItemRow → String → Option RelayItem
get_relay_item rows id = to_relay_item (find (has_item_id id) rows)

module _ (hash : String → String) where
  -- The UPDATE of an existing item.
  abbrev pub revised : UpsertRelayItem → ℕ → ItemRow → ItemRow
  revised input now r = record r {
    item = record r.item {
      source_body = input.source_body;
      author = input.author;
      state = "ACTIVE";
    };
    source_revision = input.source_revision;
    source_hash = hash input.source_body;
    canonical_hash = hash input.source_body;
    deleted_at = none;
    updated_at = now;
  }

  abbrev pub new_item : UpsertRelayItem → String → RelayItem
  new_item input id = record {
    author = input.author;
    destination_id = none;
    destination_kind = input.destination_kind;
    destination_platform = input.destination_platform;
    id = id;
    issue_thread_link_id = input.issue_thread_link_id;
    mapping_key = input.mapping_key;
    render_hash = none;
    source_body = input.source_body;
    source_id = input.source_id;
    source_kind = input.source_kind;
    source_platform = input.source_platform;
    state = "ACTIVE";
  }

  abbrev pub new_row : UpsertRelayItem → String → ℕ → ItemRow
  new_row input id now = record {
    item = new_item input id;
    parent_source_id = input.parent_source_id;
    source_revision = input.source_revision;
    source_hash = hash input.source_body;
    canonical_hash = hash input.source_body;
    deleted_at = none;
    created_at = now;
    updated_at = now;
  }

  -- The item that the call returns, and the table. An INSERT whose id is taken throws.
  unfoldable pub upsert_relay_item :
      UpsertRelayItem → String → ℕ → List ItemRow → Result (RelayItem × List ItemRow)
  unfolding find_relay_item
  upsert_relay_item input id now rows =
      elim (find_relay_item rows input.mapping_key input.source_platform input.source_kind
        input.source_id) [
          | some existing ↦ ok (
            record existing { source_body = input.source_body; state = "ACTIVE" },
            update_where (has_item_id existing.id) (revised input now) rows,
          )
          | none ↦
              if any (has_item_id id) rows
              then err unique_failed
              else ok (new_item input id, rows ++ new_row input id now ∷ [])
        ]

-- Another item of the mapping has the destination.
abbrev pub destination_taken : List ItemRow → String → String → Bool
destination_taken rows id destination_id = elim (find (has_item_id id) rows) [
  | none ↦ false
  | some r ↦
      any
        (λ other.
          not (has_item_id id other)
          && is_destination r.item.mapping_key r.item.destination_platform r.item.destination_kind
              destination_id other.item)
        rows
]

unfoldable pub set_destination : String → String → ℕ → List ItemRow → Result (List ItemRow)
set_destination id destination_id now rows =
    if destination_taken rows id destination_id
    then err unique_failed
    else ok (
        update_where (has_item_id id)
          (λ r. record r {
            item = record r.item { destination_id = some destination_id };
            updated_at = now;
          })
          rows)

unfoldable pub set_render_hash : String → String → ℕ → List ItemRow → List ItemRow
set_render_hash id render_hash now =
    update_where (has_item_id id)
      (λ r. record r { item = record r.item { render_hash = some render_hash }; updated_at = now })

-- The UPDATE of `markDeleted`.
abbrev pub deleted : ℕ → ItemRow → ItemRow
deleted now r = record r {
  item = record r.item { state = "DELETED"; destination_id = none; render_hash = none };
  deleted_at = some now;
  updated_at = now;
}
