-- ===== src/Labels/Bindings.antt =====
-- `planLabelBindings` and `discordTagName`: the places of the plan, and the bound of the names.
use Prim.Native.Nat.{Ordering}
use Prim.Native.String.{count}
use text.Mathlib.TextLemmas.{length-append as count-append}
use forum_relay.Common.{
  ℕ, suc, ◌+◌, ◌≤◌, ◌≡◌, Option-cases, Bool-cases, inl, inr, refl, String, List, [], ◌∷◌, ◌++◌,
  length, any, arith, ◌==◌, ℕ_eq,
}
use forum_relay.Common.Texts.{first_chars, count-first_chars}
use forum_relay.Labels.{
  RepositoryLabel, StoredLabelBinding, PlannedLabelBinding, suffix, kept_chars, discord_tag_name,
  planned, plan_labels, push_stale, push_all_stale, plan_label_bindings, stale, sort,
}

-- A name that Discord accepts: the planned name of a label has at most twenty characters, when the
-- id of the label has at most nineteen digits.
pub discord_tag_name_bound :
    (base36 : ℕ → String) (label : RepositoryLabel)
    → count (base36 label.id) ≤ 19
    → count (discord_tag_name base36 label) ≤ 20
unfolding discord_tag_name
discord_tag_name_bound base36 label digits = ground (
  arith,
  count-append (first_chars (kept_chars base36 label.name (suffix base36 label)) label.name)
      (suffix base36 label),
  count-append "~" (base36 label.id),
  count-first_chars (kept_chars base36 label.name (suffix base36 label)) label.name,
)

-- The bindings stand at the positions from `i` on, in order.
abbrev pub Numbered : ℕ → List PlannedLabelBinding → Type 0
Numbered i [] = Unit
Numbered i (b ∷ bs) = (b.position ≡ i) × Numbered (suc i) bs

Numbered-append :
    (i : ℕ) (bs : List PlannedLabelBinding) (b : PlannedLabelBinding)
    → Numbered i bs
    → b.position ≡ i + length bs
    → Numbered i (bs ++ b ∷ [])
Numbered-append i [] b h k = (omega (arith, k), tt)
Numbered-append i (c ∷ bs) b h k = (h.0, Numbered-append (suc i) bs b h.1 (omega (arith, k)))

module _ (base36 : ℕ → String) (locale_compare : String → String → Ordering) where
  plan_labels-Numbered :
      (stored : List StoredLabelBinding) (i : ℕ) (labels : List RepositoryLabel)
      → Numbered i (plan_labels base36 locale_compare stored i labels)
  unfolding plan_labels planned
  plan_labels-Numbered stored i [] = tt
  plan_labels-Numbered stored i (l ∷ ls) = (refl, plan_labels-Numbered stored (suc i) ls)

  push_stale-Numbered :
      (labels : List RepositoryLabel) (b : StoredLabelBinding) (plan : List PlannedLabelBinding)
      → Numbered 0 plan
      → Numbered 0 (push_stale base36 locale_compare labels b plan)
  unfolding push_stale
  push_stale-Numbered labels b plan h = elim (Option-cases b.github_label_id) [
    | inl e ↦ rw e h
    | inr (id, e) ↦ rw e (elim (Bool-cases (any (λ l. l.id == id) labels)) [
      | inl known ↦ rw known h
      | inr unknown ↦
          rw unknown (
            Numbered-append 0 plan (stale base36 locale_compare b id (length plan)) h (omega arith))
    ])
  ]

  push_all_stale-Numbered :
      (labels : List RepositoryLabel) (bs : List StoredLabelBinding)
      (plan : List PlannedLabelBinding)
      → Numbered 0 plan
      → Numbered 0 (push_all_stale base36 locale_compare labels bs plan)
  unfolding push_all_stale
  push_all_stale-Numbered labels [] plan h = h
  push_all_stale-Numbered labels (b ∷ bs) plan h =
      push_all_stale-Numbered labels bs (push_stale base36 locale_compare labels b plan)
        (push_stale-Numbered labels b plan h)

  -- The planned bindings, those of the repository's labels and the stale ones after them, stand at
  -- the positions 0, 1, 2 and so on: no two of a mapping's bindings have one position.
  pub plan_label_bindings-Numbered :
      (labels : List RepositoryLabel) (stored : List StoredLabelBinding)
      → Numbered 0 (plan_label_bindings base36 locale_compare labels stored)
  unfolding plan_label_bindings
  plan_label_bindings-Numbered labels stored =
      let ordered = sort locale_compare labels in
      push_all_stale-Numbered ordered stored (plan_labels base36 locale_compare stored 0 ordered)
        (plan_labels-Numbered stored 0 ordered)
