-- ===== src/Engine/Comments/Posted.antt =====
-- relay/engine.ts: a comment that `#syncGitHubItem` creates is found again by its id.
use forum_relay.Common.{
  some_inj, ◌≡◌, refl, ap, sym, subst, ◌∙◌, ℕ, suc, String, Bool, true, false, List, [], ◌∷◌,
  Option, none, some, find, ◌==◌, string_eq, update_where, arith, Bool-cases, Option-cases, inl,
  inr, text_iff, find_sound,
}
use forum_relay.Common.Search.{find-update_where}
use forum_relay.Common.Json.{Json, get, json_string, json_number}
use forum_relay.Retry.{Result, ok, err}
use forum_relay.Relay.{IssueThreadLink, RelayItem, ItemRow, Platform}
use forum_relay.Relay.Items.{
  get_relay_item, has_item_id, is_destination, find_relay_item_by_destination, set_destination,
  set_render_hash, destination_taken, to_relay_item,
}
use forum_relay.Engine.{Env, World, lift, truthy, Call}
use forum_relay.Engine.Ends.{
  Any, Ends, Ends-bind, Ends-answer, Ends-known, Ends-Any, required_string-json_string,
  required_relay_item-get_relay_item, required_link-Ends,
}
use forum_relay.Engine.Store.{
  ask, required_relay_item, required_link, set_item_destination, set_item_hash, with_rows,
}
use forum_relay.Engine.Payloads.{required_string}
use forum_relay.Engine.Comments.{new_comment, write_item, write_relayed, sync_github_item}

not_both : {A : Type 0} (o : Option A) (x : A) → o ≡ none → o ≡ some x → ⊥
not_both o x h k = cc

find_other :
    {A : Type 0} (p q : A → Bool) (xs : List A) (x : A)
    → find p xs ≡ some x
    → q x ≡ true
    → (y : A) × (find q xs ≡ some y)
find_other p q [] x h k = cc
find_other p q (z ∷ zs) x h k = elim (Bool-cases (q z)) [
  | inl e ↦ (z, ground (arith, e))
  | inr e ↦
      let later : find p zs ≡ some x = ground (arith, e, h, k) in
      let (y, f) = find_other p q zs x later k in (y, ground (arith, e, f))
]

get_relay_item-set_destination :
    (id destination : String) (now : ℕ) (rows rows' : List ItemRow) (item : RelayItem)
    → get_relay_item rows id ≡ some item
    → set_destination id destination now rows ≡ ok rows'
    → get_relay_item rows' id ≡ some (record item { destination_id = some destination })
unfolding get_relay_item set_destination
get_relay_item-set_destination id destination now rows rows' item h s =
    elim (Option-cases (find (has_item_id id) rows)) [
      | inl e ↦ ground (arith, e)
      | inr (r, e) ↦ elim (Bool-cases (destination_taken rows id destination)) [
        | inl t ↦ ground (arith, t)
        | inr t ↦
            let same : update_where (has_item_id id) moved rows ≡ rows' = ground (arith, t) in
            subst
              (λ x. get_relay_item x id ≡ some (record item { destination_id = some destination }))
              same
              (ground (
                arith,
                e,
                find-update_where (has_item_id id) (has_item_id id) moved (λ x. refl) rows r e,
                find_sound (has_item_id id) rows r e,
              ))
      ]
    ]
  where
    moved : ItemRow → ItemRow
    moved r = record r {
      item = record r.item { destination_id = some destination };
      updated_at = now;
    }

get_relay_item-set_render_hash :
    (id render_hash : String) (now : ℕ) (rows : List ItemRow) (item : RelayItem)
    → get_relay_item rows id ≡ some item
    → get_relay_item (set_render_hash id render_hash now rows) id
      ≡ some (record item { render_hash = some render_hash })
unfolding get_relay_item set_render_hash
get_relay_item-set_render_hash id render_hash now rows item h =
    elim (Option-cases (find (has_item_id id) rows)) [
      | inl e ↦ ground (arith, e)
      | inr (r, e) ↦ ground (
        arith,
        e,
        find-update_where (has_item_id id) (has_item_id id)
            (λ r. record r {
              item = record r.item { render_hash = some render_hash };
              updated_at = now;
            })
            (λ x. refl) rows r e,
        find_sound (has_item_id id) rows r e,
      )
    ]

-- The item is there, as the one that is shown as this comment.
abbrev pub IsShownAs : String → String → String → World → Type 0
IsShownAs mapping_key id comment w =
    (i : RelayItem) × (get_relay_item w.items id ≡ some i)
    × (is_destination mapping_key Platform.github "issue-comment" comment i ≡ true)

pub find_shown :
    (mapping_key id comment : String) (w : World)
    → IsShownAs mapping_key id comment w
    → (o : RelayItem) × (find_relay_item_by_destination w.items mapping_key Platform.github
          "issue-comment" comment
        ≡ some o)
unfolding get_relay_item find_relay_item_by_destination
find_shown mapping_key id comment w (i, g, d) =
    elim (Option-cases (find (has_item_id id) w.items)) [
      | inl e ↦ absurd (not_both _ i (ap to_relay_item e) g)
      | inr (r, e) ↦
          let same : r.item ≡ i = some_inj (sym (ap to_relay_item e) ∙ g) in
          let (o, f) =
            find_other (has_item_id id)
              (λ r. is_destination mapping_key Platform.github "issue-comment" comment r.item)
              w.items r e
              (subst
                (λ x. is_destination mapping_key Platform.github "issue-comment" comment x ≡ true)
                (sym same) d) in
          (o.item, ap to_relay_item f)
    ]

module _ (env : Env) (mapping_key : String) (item : RelayItem)
    (here : item.mapping_key ≡ mapping_key)
    (on_github : item.destination_platform ≡ Platform.github)
    (as_comment : item.destination_kind ≡ "issue-comment") where
  -- The item is there, as it was read.
  abbrev IsThere : World → Type 0
  IsThere w = get_relay_item w.items item.id ≡ some item

  -- The comment of the answer is the one that the item is shown as.
  abbrev pub Answers : World → Json → Type 0
  Answers w a =
      (comment : ℕ)
      → json_number a "commentId" ≡ some comment
      → IsShownAs mapping_key item.id (env.show comment) w

  placed :
      (destination : String) (w : World)
      → IsThere w
      → Ends
          (set_item_destination env item.id destination w)
          (λ w' a.
            get_relay_item w'.items item.id
            ≡ some (record item { destination_id = some destination }))
          Any
  placed destination w h =
      moved (set_destination item.id destination (env.clock w.clock_reads) w.items) refl
    where
      moved :
          (r : Result (List ItemRow))
          → set_destination item.id destination (env.clock w.clock_reads) w.items ≡ r
          → Ends
              (with_rows (record w { clock_reads = suc w.clock_reads }) r)
              (λ w' a.
                get_relay_item w'.items item.id
                ≡ some (record item { destination_id = some destination }))
              Any
      moved (err e) s = tt
      moved (ok rows) s =
          get_relay_item-set_destination item.id destination (env.clock w.clock_reads) w.items rows
            item h s

  -- The item with its destination and any hash is shown as the comment.
  shown :
      (comment : ℕ) (hash : Option String)
      → is_destination mapping_key Platform.github "issue-comment"
          (env.show comment)
          (record item { destination_id = some (env.show comment); render_hash = hash })
        ≡ true
  shown comment hash =
      rw (here, on_github, as_comment)
        (ground
          (arith, text_iff mapping_key mapping_key, text_iff (env.show comment) (env.show comment)))

  new_comment-Answers :
      (link : IssueThreadLink) (body : String) (w : World)
      → IsThere w
      → Ends (new_comment env mapping_key link item body w) Answers Any
  unfolding json_number get
  new_comment-Answers link body w h =
      Ends-bind
        (ask
          (Call.create_comment (record {
            body = body;
            issue_number = link.github_issue_number;
            mapping_key = mapping_key;
          }))
          env.remote.create_comment)
        _ w (λ w' a. IsThere w') Answers Any (Ends-answer _ _ (λ w' a. IsThere w') Any (λ a. h) tt)
        (λ w' comment k.
          Ends-bind (set_item_destination env item.id (env.show comment.id)) _ w'
            (λ w' a.
              get_relay_item w'.items item.id
              ≡ some (record item { destination_id = some (env.show comment.id) }))
            Answers Any (placed (env.show comment.id) w' k)
            (λ w'' a m n same.
              subst
                (λ c.
                  IsShownAs mapping_key item.id (env.show c)
                    (set_item_hash env item.id (env.hash body) w'').0)
                (some_inj same)
                (
                  record item {
                    destination_id = some (env.show comment.id);
                    render_hash = some (env.hash body);
                  },
                  get_relay_item-set_render_hash item.id (env.hash body) (env.clock w''.clock_reads)
                      w''.items (record item { destination_id = some (env.show comment.id) }) m,
                  shown comment.id (some (env.hash body)),
                )))

  write_item-Answers :
      (link : IssueThreadLink) (body : String) (w : World)
      → (item.source_kind == "thread-starter") ≡ false
      → truthy item.destination_id ≡ none
      → IsThere w
      → Ends (write_item env mapping_key link item body w) Answers Any
  unfolding write_item
  write_item-Answers link body w e t h = rw (write_item, e, t) (new_comment-Answers link body w h)

  write_relayed-Answers :
      (w : World)
      → (item.source_kind == "thread-starter") ≡ false
      → truthy item.destination_id ≡ none
      → IsThere w
      → Ends (write_relayed env mapping_key item w) Answers Any
  unfolding write_relayed
  write_relayed-Answers w e t h =
      Ends-bind (required_link env item.issue_thread_link_id) _ w (λ w' a. IsThere w') Answers Any
        (Ends-Any _ (λ w' a. IsThere w') IsThere
          (required_link-Ends env item.issue_thread_link_id w IsThere h))
        (λ w' link k. write_item-Answers link _ w' e t k)

  pub sync_github_item-Answers :
      (payload : Json) (w : World)
      → json_string payload "relayItemId" ≡ some item.id
      → get_relay_item w.items item.id ≡ some item
      → (item.source_kind == "thread-starter") ≡ false
      → truthy item.destination_id ≡ none
      → Ends (sync_github_item env mapping_key payload w) Answers Any
  unfolding sync_github_item
  sync_github_item-Answers payload w j h e t =
      Ends-known (lift (required_string payload "relayItemId")) _ w item.id Answers Any
        (ap (λ x. (w, x)) (required_string-json_string payload "relayItemId" item.id j))
        (Ends-known (required_relay_item item.id) (write_relayed env mapping_key) w item Answers Any
          (required_relay_item-get_relay_item item.id item w h) (write_relayed-Answers w e t h))
