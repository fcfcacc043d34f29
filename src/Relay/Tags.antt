-- ===== src/Relay/Tags.antt =====
-- db/relay-repository.ts: the tags of a forum and the labels of a repository, bound in `label_bindings`
-- (db/schema.ts). `lower` is `toLocaleLowerCase("en-US")`.
use forum_relay.Common.{
  ℕ, String, Bool, true, false, ◌&&◌, List, [], ◌∷◌, map, Option, none, some, any, keep, take, ◌==◌,
  string_eq, leb, if◌then◌else◌,
}

pub record LabelBindingRow : Type 0 where
  pub id : ℕ
  pub mapping_key : String
  pub position : ℕ
  pub configured_github_name : String
  pub configured_discord_name : String
  pub github_label_id : Option ℕ
  pub github_current_name : Option String
  pub discord_tag_id : Option String
  pub discord_current_name : Option String
  pub state : String

abbrev pub insert_by_position : LabelBindingRow → List LabelBindingRow → List LabelBindingRow
insert_by_position r [] = r ∷ []
insert_by_position r (s ∷ ss) =
    if leb r.position s.position then r ∷ s ∷ ss else s ∷ insert_by_position r ss

-- `ORDER BY position`
unfoldable pub by_position : List LabelBindingRow → List LabelBindingRow
by_position [] = []
by_position (r ∷ rs) = insert_by_position r (by_position rs)

-- `discord_tag_id IN (…)`; NULL is in no list.
abbrev pub has_tag_in : List String → LabelBindingRow → Bool
has_tag_in tags r = elim r.discord_tag_id [ none ↦ false | some tag ↦ any (λ t. t == tag) tags ]

-- No statement is run for no tags; the answer is the one it would give.
unfoldable pub github_labels_for_tags : List LabelBindingRow → String → List String → List String
unfolding by_position
github_labels_for_tags rows mapping_key [] = []
github_labels_for_tags rows mapping_key (t ∷ ts) =
    map (λ r. r.configured_github_name)
      (by_position (keep (λ r. r.mapping_key == mapping_key && has_tag_in (t ∷ ts) r) rows))

abbrev pub is_tagged : LabelBindingRow → Bool
is_tagged r = elim r.discord_tag_id [ none ↦ false | some tag ↦ true ]

-- `String(row.discord_tag_id)`
abbrev pub tag_of : LabelBindingRow → String
tag_of r = elim r.discord_tag_id [ none ↦ "null" | some tag ↦ tag ]

-- The rows are ordered before they are filtered by name.
unfoldable pub discord_tags_for_labels :
    (String → String) → List LabelBindingRow → String → List String → List String
unfolding by_position
discord_tags_for_labels lower rows mapping_key names = take 5 (
    map tag_of (
      keep (λ r. any (λ n. lower n == lower r.configured_github_name) names)
        (by_position (keep (λ r. r.mapping_key == mapping_key && is_tagged r) rows))))
