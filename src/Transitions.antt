-- ===== src/Transitions.antt =====
-- domain/state-transitions.ts and domain/conflicts.ts: what a change of a Discord thread means, and
-- who wins when both sides edit.
pub mod Laws
use forum_relay.Common.{
  ℕ, zero, suc, String, Bool, true, false, not, ◌&&◌, List, [], ◌∷◌, Option, none, some, length,
  get_elem?, nat_eq, ◌==◌, string_eq, if◌then◌else◌,
}

pub record ThreadState : Type 0 where
  pub applied_tags : Option (List String)
  pub archived : Bool
  pub locked : Bool
  pub name : String

pub data TransitionEvidence : Type 0 where
  human_audit no_evidence by_self : TransitionEvidence

pub data ThreadTransition : Type 0 where
  ambiguous close inactivity_archive : ThreadTransition
  labels : List String → ThreadTransition
  lock unchanged : ThreadTransition
  rename : String → ThreadTransition
  reopen self_made unlock : ThreadTransition

-- `appliedTags ?? []`
abbrev pub tags : ThreadState → List String
tags s = elim s.applied_tags [ none ↦ [] | some ts ↦ ts ]

-- `value === right[index]`
abbrev pub is_at : String → Option String → Bool
is_at value none = false
is_at value (some s) = value == s

-- `left.every((value, index) => value === right[index])`, from the index `i` on.
abbrev pub every_from : List String → ℕ → List String → Bool
every_from right i [] = true
every_from right i (x ∷ xs) = is_at x (get_elem? right i) && every_from right (suc i) xs

unfoldable pub arrays_equal : List String → List String → Bool
arrays_equal left right = nat_eq (length left) (length right) && every_from right 0 left

abbrev pub bool_eq : Bool → Bool → Bool
bool_eq true b = b
bool_eq false b = not b

unfoldable pub states_equal : ThreadState → ThreadState → Bool
unfolding arrays_equal
states_equal left right =
    bool_eq left.archived right.archived
    && bool_eq left.locked right.locked
    && left.name == right.name
    && arrays_equal (tags left) (tags right)

unfoldable pub classify_thread_transition :
    ThreadState → ThreadState → TransitionEvidence → ThreadTransition
unfolding states_equal arrays_equal
classify_thread_transition previous observed by_self = self_made
classify_thread_transition previous observed no_evidence =
    if not previous.archived && observed.archived && not observed.locked
    then inactivity_archive
    else if states_equal previous observed
    then unchanged
    else ambiguous
classify_thread_transition previous observed human_audit =
    if not (bool_eq previous.locked observed.locked)
    then (if observed.locked then lock else unlock)
    else if not (bool_eq previous.archived observed.archived)
    then (if observed.archived then close else reopen)
    else if not (previous.name == observed.name)
    then rename observed.name
    else if not (arrays_equal (tags previous) (tags observed))
    then labels (tags observed)
    else unchanged

pub data ConflictDecision : Type 0 where
  apply_discord preserve_github : ConflictDecision

unfoldable pub decide_discord_edit : Option String → String → ConflictDecision
decide_discord_edit none current = apply_discord
decide_discord_edit (some stored) current =
    if stored == current then apply_discord else preserve_github
