-- ===== src/Labels/Tags.antt =====
-- `planDiscordForumTags`: the loop over the bindings, as a step on what it has collected.
use Prim.Native.String.{◌++◌ as ◌<>◌}
use text.Mathlib.Text.{starts_with}
use forum_relay.Common.{
  ℕ, suc, String, Bool, true, false, not, ◌&&◌, List, [], ◌∷◌, ◌++◌, Option, none, some, length,
  any, keep, find, nat_eq, leb, ◌==◌, string_eq, if◌then◌else◌,
}
use forum_relay.Labels.{DiscordForumTag, DiscordTagBindingInput, DiscordTagResolution}

abbrev shift : Option ℕ → Option ℕ
shift none = none
shift (some i) = some (suc i)

-- `tags.findIndex(p)`
abbrev pub find_index {ℓ} : {A : Type ℓ} → (A → Bool) → List A → Option ℕ
find_index p [] = none
find_index p (x ∷ xs) = if p x then some 0 else shift (find_index p xs)

-- The variables of the loop; `claimed` is the set `claimedTagIds`.
pub record Plan : Type 0 where
  pub changed : Bool
  pub claimed : List String
  pub resolutions : List DiscordTagResolution
  pub tags : List DiscordForumTag

abbrev pub is_claimed : Plan → DiscordForumTag → Bool
is_claimed p tag = any (λ id. id == tag.id) p.claimed

-- The tag of the id that the binding stores.
abbrev pub stored_tag : Plan → DiscordTagBindingInput → Option DiscordForumTag
stored_tag p binding = elim binding.stored_tag_id [
  | none ↦ none
  | some id ↦
      if not (id == "") then find (λ tag. tag.id == id && not (is_claimed p tag)) p.tags else none
]

module _ (lower : String → String) (show : ℕ → String) where
  abbrev pub named_tag : Plan → DiscordTagBindingInput → Option DiscordForumTag
  named_tag p binding =
      find (λ tag. not (is_claimed p tag) && lower tag.name == lower binding.desired_name) p.tags

  abbrev pub new_tag : DiscordTagBindingInput → DiscordForumTag
  new_tag binding = record {
    emoji_id = none;
    emoji_name = none;
    id = "new:" <> show binding.position;
    moderated = false;
    name = binding.desired_name;
  }

  -- The end of the round: the tag is claimed and resolved.
  unfoldable pub claim_tag : DiscordTagBindingInput → DiscordForumTag → Plan → Plan
  claim_tag binding tag p = record p {
    claimed = p.claimed ++ tag.id ∷ [];
    resolutions =
        p.resolutions
        ++ record {
          position = binding.position;
          submitted_index = find_index (λ candidate. candidate.id == tag.id) p.tags;
          tag_id = if starts_with tag.id "new:" then none else some tag.id;
        }
          ∷ [];
  }

  abbrev pub push_tag : DiscordForumTag → Plan → Plan
  push_tag tag p = record p { changed = true; tags = p.tags ++ tag ∷ [] }

  -- One round.
  unfoldable pub bind : ℕ → Plan → DiscordTagBindingInput → Plan
  unfolding claim_tag
  bind maximum p binding = elim (stored_tag p binding) [
    | some tag ↦ claim_tag binding tag p
    | none ↦ elim (named_tag p binding) [
      | some tag ↦ claim_tag binding tag p
      | none ↦
          if leb maximum (length p.tags)
          then p
          else claim_tag binding (new_tag binding) (push_tag (new_tag binding) p)
    ]
  ]

  unfoldable pub bind_all : ℕ → Plan → List DiscordTagBindingInput → Plan
  unfolding bind
  bind_all maximum p [] = p
  bind_all maximum p (b ∷ bs) = bind_all maximum (bind maximum p b) bs

  -- `is_stale` is `staleTagIds.has`.
  abbrev pub unplanned : List DiscordForumTag → (String → Bool) → Plan
  unplanned current is_stale =
      let tags = keep (λ tag. not (is_stale tag.id)) current in
      record {
        changed = not (nat_eq (length tags) (length current));
        claimed = [];
        resolutions = [];
        tags = tags;
      }

  unfoldable pub plan_discord_forum_tags :
      List DiscordForumTag → List DiscordTagBindingInput → (String → Bool) → ℕ → Plan
  unfolding bind_all
  plan_discord_forum_tags current bindings is_stale maximum =
      bind_all maximum (unplanned current is_stale) bindings

abbrev pub default_maximum_tags : ℕ
default_maximum_tags = 20
