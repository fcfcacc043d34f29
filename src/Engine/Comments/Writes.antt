-- ===== src/Engine/Comments/Writes.antt =====
-- relay/engine.ts: `#syncGitHubItem` when GitHub's text is not the one that the relay wrote.
use forum_relay.Common.{
  ◌≡◌, ◌≢◌, refl, ap, ℕ, suc, String, Bool, true, false, List, [], ◌∷◌, Option, none, some, any,
  any-append, any-update_where, keep, ◌==◌, string_eq, arith, Bool-cases, inl, inr, text_iff,
}
use forum_relay.Common.Json.{Json, json_string}
use forum_relay.Retry.{Result, ok, err}
use forum_relay.Transitions.{ConflictDecision, apply_discord, decide_discord_edit, preserve_github}
use forum_relay.Relay.{IssueThreadLink, RelayItem, ShadowRow}
use forum_relay.Relay.Items.{get_relay_item}
use forum_relay.Relay.Segments.{is_shadow_of, shadow_again, new_shadow, save_revision_shadow}
use forum_relay.Engine.{Env, World, ◌>>=◌, pure, lift, truthy, Call}
use forum_relay.Engine.Ends.{
  Ends, Ends-bind, Ends-answer, Ends-given, Ends-known, required_string-json_string,
  required_relay_item-get_relay_item, required_link-Ends,
}
use forum_relay.Engine.Store.{ask, save_shadow, required_relay_item, required_link, with_shadows}
use forum_relay.Engine.Payloads.{required_string}
use forum_relay.Engine.Comments.{
  record_conflict, guarded_write, decided, write_item, write_relayed, sync_github_item, notify,
}

-- The calls that change a text on GitHub.
abbrev pub is_write : Call → Bool
is_write (Call.update_issue m n changes) = true
is_write (Call.update_comment m n body) = true
is_write (Call.create_comment comment) = true
is_write (Call.create_issue issue) = true
is_write (Call.delete_comment m n) = true
is_write _ = false

-- The items are as before, and so is what was written on GitHub.
abbrev pub Quiet : World → World → Type 0
Quiet w w' = (w'.items ≡ w.items) × (keep is_write w'.calls ≡ keep is_write w.calls)

abbrev pub has_shadow : String → World → Bool
has_shadow id w = any (is_shadow_of id) w.shadows

-- Quiet, with a shadow of the item.
abbrev pub Shadowed : String → World → World → Type 0
Shadowed id w w' = Quiet w w' × (has_shadow id w' ≡ true)

save_revision_shadow-any :
    (id message canonical_hash : String) (now : ℕ) (rows rows' : List ShadowRow)
    → save_revision_shadow id message canonical_hash now rows ≡ ok rows'
    → any (is_shadow_of id) rows' ≡ true
unfolding save_revision_shadow
save_revision_shadow-any id message canonical_hash now rows rows' h =
    elim (Bool-cases (any (is_shadow_of id) rows)) [
      | inl f ↦ ground (
        arith,
        f,
        any-update_where (is_shadow_of id) (is_shadow_of id)
            (shadow_again message canonical_hash now) (λ x p q. q) rows f,
      )
      | inr f ↦ ground (
        arith,
        f,
        text_iff id id,
        any-append (is_shadow_of id) rows (new_shadow id message canonical_hash now ∷ []),
      )
    ]

with_shadows-Ends :
    (w : World) (r : Result (List ShadowRow)) (Q : World → Unit → Type 0) (E : World → Type 0)
    → ((rows : List ShadowRow) → r ≡ ok rows → Q (record w { shadows = rows }) tt)
    → E w
    → Ends (with_shadows w r) Q E
with_shadows-Ends w (ok rows) Q E q e = q rows refl
with_shadows-Ends w (err f) Q E q e = e

preserve-differs :
    (o : Option String) (stored current : String)
    → o ≡ some stored
    → current ≢ stored
    → decide_discord_edit o current ≡ preserve_github
unfolding decide_discord_edit
preserve-differs none stored current e d = cc
preserve-differs (some s) stored current e d =
    ground (arith, text_iff s current, text_iff stored current)

module _ (env : Env) (mapping_key : String) (link : IssueThreadLink) (item : RelayItem)
    (w₀ : World) where
  save_shadow-Shadowed :
      (canonical_hash : String) (w : World)
      → Quiet w₀ w
      → Ends
          (save_shadow env item.id item.source_id canonical_hash w)
          (λ w' a. Shadowed item.id w₀ w')
          (Quiet w₀)
  save_shadow-Shadowed canonical_hash w q =
      with_shadows-Ends (record w { clock_reads = suc w.clock_reads })
        (save_revision_shadow item.id item.source_id canonical_hash (env.clock w.clock_reads)
          w.shadows)
        (λ w' a. Shadowed item.id w₀ w') (Quiet w₀)
        (λ rows e. (
          q,
          save_revision_shadow-any item.id item.source_id canonical_hash (env.clock w.clock_reads)
              w.shadows rows e,
        ))
        q

  notify-Shadowed :
      (thread : Option String) (w : World)
      → Shadowed item.id w₀ w
      → Ends (notify env mapping_key thread w) (λ w' a. Shadowed item.id w₀ w') (Quiet w₀)
  notify-Shadowed none w s = s
  notify-Shadowed (some thread) w s =
      Ends-answer _ _ (λ w' a. Shadowed item.id w₀ w') (Quiet w₀) (λ a. s) s.0

  record_conflict-Shadowed :
      (canonical_hash : String) (w : World)
      → Quiet w₀ w
      → Ends
          (record_conflict env mapping_key link item canonical_hash w)
          (λ w' a. Shadowed item.id w₀ w')
          (Quiet w₀)
  unfolding record_conflict
  record_conflict-Shadowed canonical_hash w q =
      Ends-bind (save_shadow env item.id item.source_id canonical_hash)
        (λ _. notify env mapping_key (truthy link.discord_thread_id)) w
        (λ w' a. Shadowed item.id w₀ w') (λ w' a. Shadowed item.id w₀ w') (Quiet w₀)
        (save_shadow-Shadowed canonical_hash w q)
        (λ w' a s. notify-Shadowed (truthy link.discord_thread_id) w' s)

  decided-Shadowed :
      (writing : Call) (body : String) (conflict done : Json) (current : String)
      (d : ConflictDecision) (w : World)
      → d ≡ preserve_github
      → Quiet w₀ w
      → Ends
          (decided env mapping_key link item writing body conflict done current d w)
          (λ w' a. Shadowed item.id w₀ w')
          (Quiet w₀)
  unfolding record_conflict
  decided-Shadowed writing body conflict done current preserve_github w h q =
      Ends-bind (record_conflict env mapping_key link item current) (λ _. pure conflict) w
        (λ w' a. Shadowed item.id w₀ w') (λ w' a. Shadowed item.id w₀ w') (Quiet w₀)
        (record_conflict-Shadowed current w q) (λ w' a s. s)
  decided-Shadowed writing body conflict done current apply_discord w h q = cc

  guarded_write-Shadowed :
      (reading writing : Call) (body : String) (conflict done : Json) (w : World)
      → is_write reading ≡ false
      → ((remote : String)
          → env.remote.body (reading ∷ w.calls) ≡ ok remote
          → decide_discord_edit item.render_hash (env.hash remote) ≡ preserve_github)
      → Quiet w₀ w
      → Ends
          (guarded_write env mapping_key link item reading writing body conflict done w)
          (λ w' a. Shadowed item.id w₀ w')
          (Quiet w₀)
  guarded_write-Shadowed reading writing body conflict done w r h q =
      Ends-bind (ask reading env.remote.body)
        (λ remote.
          decided env mapping_key link item writing body conflict done (env.hash remote)
            (decide_discord_edit item.render_hash (env.hash remote)))
        w
        (λ w' remote.
          Quiet w₀ w' × (decide_discord_edit item.render_hash (env.hash remote) ≡ preserve_github))
        (λ w' a. Shadowed item.id w₀ w') (Quiet w₀)
        (Ends-given (record w { calls = reading ∷ w.calls }) (env.remote.body (reading ∷ w.calls))
          (λ w' remote.
            Quiet w₀ w'
            × (decide_discord_edit item.render_hash (env.hash remote) ≡ preserve_github))
          (Quiet w₀) (λ remote e. (read, h remote e)) read)
        (λ w' remote k.
          decided-Shadowed writing body conflict done (env.hash remote)
            (decide_discord_edit item.render_hash (env.hash remote)) w' k.1 k.0)
    where
      read : Quiet w₀ (record w { calls = reading ∷ w.calls })
      read = (q.0, rw (r) q.1)

  write_item-Shadowed :
      (body stored destination : String) (w : World)
      → item.render_hash ≡ some stored
      → truthy item.destination_id ≡ some destination
      → ((calls : List Call) (remote : String)
          → env.remote.body calls ≡ ok remote
          → env.hash remote ≢ stored)
      → Quiet w₀ w
      → Ends
          (write_item env mapping_key link item body w)
          (λ w' a. Shadowed item.id w₀ w')
          (Quiet w₀)
  unfolding write_item
  write_item-Shadowed body stored destination w r t h q =
      elim (Bool-cases (item.source_kind == "thread-starter")) [
        | inl e ↦
            rw (write_item, e) (guarded_write-Shadowed _ _ _ _ _ w refl (λ remote. kept _ remote) q)
        | inr e ↦
            rw (write_item, e, t)
              (guarded_write-Shadowed _ _ _ _ _ w refl (λ remote. kept _ remote) q)
      ]
    where
      kept :
          (calls : List Call) (remote : String)
          → env.remote.body calls ≡ ok remote
          → decide_discord_edit item.render_hash (env.hash remote) ≡ preserve_github
      kept calls remote e =
          preserve-differs item.render_hash stored (env.hash remote) r (h calls remote e)

relayed-Shadowed :
    (env : Env) (mapping_key : String) (item : RelayItem) (w : World) (stored destination : String)
    → item.render_hash ≡ some stored
    → truthy item.destination_id ≡ some destination
    → ((calls : List Call) (remote : String)
        → env.remote.body calls ≡ ok remote
        → env.hash remote ≢ stored)
    → Ends (write_relayed env mapping_key item w) (λ w' a. Shadowed item.id w w') (Quiet w)
unfolding write_relayed
relayed-Shadowed env mapping_key item w stored destination r t h =
    Ends-bind (required_link env item.issue_thread_link_id) _ w (λ w' link. Quiet w w')
      (λ w' a. Shadowed item.id w w') (Quiet w)
      (required_link-Ends env item.issue_thread_link_id w (Quiet w) (refl, refl))
      (λ w' link q. write_item-Shadowed env mapping_key link item w _ stored destination w' r t h q)

-- When an item was relayed to GitHub (it has a destination and the hash of what was written there) and each
-- text that GitHub answers with has another hash, `sync_github_item` writes nothing on GitHub and changes no
-- item, whether it returns or throws; and if it returns, a shadow of the item is stored.
pub sync_github_item-Shadowed :
    (env : Env) (mapping_key : String) (payload : Json) (item : RelayItem)
    (stored destination : String) (w : World)
    → json_string payload "relayItemId" ≡ some item.id
    → get_relay_item w.items item.id ≡ some item
    → item.render_hash ≡ some stored
    → truthy item.destination_id ≡ some destination
    → ((calls : List Call) (remote : String)
        → env.remote.body calls ≡ ok remote
        → env.hash remote ≢ stored)
    → Ends (sync_github_item env mapping_key payload w) (λ w' a. Shadowed item.id w w') (Quiet w)
unfolding sync_github_item write_relayed
sync_github_item-Shadowed env mapping_key payload item stored destination w j g r t h =
    Ends-known (lift (required_string payload "relayItemId"))
      (λ id. required_relay_item id >>= write_relayed env mapping_key) w item.id
      (λ w' a. Shadowed item.id w w') (Quiet w)
      (ap (λ x. (w, x)) (required_string-json_string payload "relayItemId" item.id j))
      (Ends-known (required_relay_item item.id) (write_relayed env mapping_key) w item
        (λ w' a. Shadowed item.id w w') (Quiet w)
        (required_relay_item-get_relay_item item.id item w g)
        (relayed-Shadowed env mapping_key item w stored destination r t h))
