-- ===== src/Labels.antt =====
-- labels/bindings.ts: the tags of a Discord forum planned from the labels of a repository.
-- `lower` is `toLocaleLowerCase("en-US")`, `locale_compare` is `localeCompare`, `show` prints a number
-- and `base36` prints it to the base 36.
pub mod Bindings
pub mod Tags
pub mod Slots
use Prim.Native.Nat.{compare, Ordering}
use Prim.Native.String.{count, ◌++◌ as ◌<>◌}
use forum_relay.Common.Texts.{first_chars}
use forum_relay.Common.{
  ℕ, zero, suc, ◌+◌, ◌-◌, String, Bool, true, false, not, ◌&&◌, ◌||◌, List, [], ◌∷◌, ◌++◌, map,
  Option, none, some, length, any, keep, find, nat_eq, ltb, leb, ◌==◌, string_eq, ℕ_eq,
  if◌then◌else◌,
}

pub record RepositoryLabel : Type 0 where
  pub id : ℕ
  pub name : String

pub record StoredLabelBinding : Type 0 where
  pub configured_discord_name : String
  pub configured_github_name : String
  pub discord_current_name : Option String
  pub discord_tag_id : Option String
  pub github_label_id : Option ℕ

pub data BindingState : Type 0 where
  partial resolved stale_github : BindingState

pub record PlannedLabelBinding : Type 0 where
  pub configured_discord_name : String
  pub configured_github_name : String
  pub discord_current_name : Option String
  pub discord_tag_id : Option String
  pub github_label_id : ℕ
  pub position : ℕ
  pub state : BindingState

pub record DiscordForumTag : Type 0 where
  pub emoji_id : Option String
  pub emoji_name : Option String
  pub id : String
  pub moderated : Bool
  pub name : String

pub record DiscordTagBindingInput : Type 0 where
  pub desired_name : String
  pub position : ℕ
  pub stored_tag_id : Option String

-- `submitted_index` is `none` for the -1 of `findIndex`.
pub record DiscordTagResolution : Type 0 where
  pub position : ℕ
  pub submitted_index : Option ℕ
  pub tag_id : Option String

abbrev pub is_truthy : Option String → Bool
is_truthy none = false
is_truthy (some s) = not (s == "")

module _ (base36 : ℕ → String) where
  abbrev pub suffix : RepositoryLabel → String
  suffix label = "~" <> base36 label.id

  -- `characters.slice(0, 20 - suffix.length)`: a negative end counts from the last character.
  abbrev pub kept_chars : String → String → ℕ
  kept_chars name end = if leb (count end) 20 then 20 - count end else count name - (count end - 20)

  unfoldable pub discord_tag_name : RepositoryLabel → String
  unfolding first_chars
  discord_tag_name label =
      if leb (count label.name) 20
      then label.name
      else first_chars (kept_chars label.name (suffix label)) label.name <> suffix label

-- `compareLabels`, and the stable `sort` by it.
module _ (locale_compare : String → String → Ordering) where
  abbrev pub compare_labels : RepositoryLabel → RepositoryLabel → Ordering
  compare_labels left right = elim (locale_compare left.name right.name) [
    | Ordering.eq ↦ compare left.id right.id
    | o ↦ o
  ]

  abbrev pub insert : RepositoryLabel → List RepositoryLabel → List RepositoryLabel
  insert l [] = l ∷ []
  insert l (m ∷ ms) = elim (compare_labels l m) [ Ordering.gt ↦ m ∷ insert l ms | _ ↦ l ∷ m ∷ ms ]

  unfoldable pub sort : List RepositoryLabel → List RepositoryLabel
  sort [] = []
  sort (l ∷ ls) = insert l (sort ls)

abbrev pub has_label : ℕ → StoredLabelBinding → Bool
has_label id b = elim b.github_label_id [ none ↦ false | some found ↦ found == id ]

-- `new Map(…).get(id)`: the last entry of a key counts.
unfoldable pub stored_by_github_id : ℕ → List StoredLabelBinding → Option StoredLabelBinding
stored_by_github_id id [] = none
stored_by_github_id id (b ∷ bs) =
    let later = stored_by_github_id id bs in
    elim later [ some found ↦ some found | none ↦ if has_label id b then some b else none ]

abbrev pub tag_id_of : Option StoredLabelBinding → Option String
tag_id_of none = none
tag_id_of (some b) = b.discord_tag_id

abbrev pub current_name_of : Option StoredLabelBinding → Option String
current_name_of none = none
current_name_of (some b) = b.discord_current_name

module _ (base36 : ℕ → String) (locale_compare : String → String → Ordering) where
  unfoldable pub planned : RepositoryLabel → ℕ → Option StoredLabelBinding → PlannedLabelBinding
  unfolding discord_tag_name
  planned label position previous =
      let tag_id = tag_id_of previous in
      record {
        configured_discord_name = discord_tag_name base36 label;
        configured_github_name = label.name;
        discord_current_name = current_name_of previous;
        discord_tag_id = tag_id;
        github_label_id = label.id;
        position = position;
        state = if is_truthy tag_id then resolved else partial;
      }

  -- The labels of the repository, from the position `i` on.
  unfoldable pub plan_labels :
      List StoredLabelBinding → ℕ → List RepositoryLabel → List PlannedLabelBinding
  unfolding planned stored_by_github_id
  plan_labels stored i [] = []
  plan_labels stored i (l ∷ ls) =
      planned l i (stored_by_github_id l.id stored) ∷ plan_labels stored (suc i) ls

  abbrev pub stale : StoredLabelBinding → ℕ → ℕ → PlannedLabelBinding
  stale previous id position = record {
    configured_discord_name = previous.configured_discord_name;
    configured_github_name = previous.configured_github_name;
    discord_current_name = previous.discord_current_name;
    discord_tag_id = previous.discord_tag_id;
    github_label_id = id;
    position = position;
    state = stale_github;
  }

  -- One round of the second loop.
  unfoldable pub push_stale :
      List RepositoryLabel
      → StoredLabelBinding
      → List PlannedLabelBinding
      → List PlannedLabelBinding
  push_stale labels previous plan = elim previous.github_label_id [
    | none ↦ plan
    | some id ↦
        if any (λ l. l.id == id) labels then plan else plan ++ stale previous id (length plan) ∷ []
  ]

  unfoldable pub push_all_stale :
      List RepositoryLabel
      → List StoredLabelBinding
      → List PlannedLabelBinding
      → List PlannedLabelBinding
  unfolding push_stale
  push_all_stale labels [] plan = plan
  push_all_stale labels (b ∷ bs) plan = push_all_stale labels bs (push_stale labels b plan)

  unfoldable pub plan_label_bindings :
      List RepositoryLabel → List StoredLabelBinding → List PlannedLabelBinding
  unfolding sort plan_labels push_all_stale
  plan_label_bindings labels stored =
      let ordered = sort locale_compare labels in
      push_all_stale ordered stored (plan_labels stored 0 ordered)
