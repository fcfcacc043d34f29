-- ===== src/Transitions/Laws.antt =====
-- `classifyThreadTransition` against the changes that it names.
use forum_relay.Common.{
  ℕ, zero, suc, ◌+◌, ◌-◌, ◌≤◌, ◌≡◌, ◌↔◌, refl, String, true, false, List, [], ◌∷◌, some, arith,
  text_iff, ◌==◌, string_eq, if◌then◌else◌,
}
use forum_relay.Transitions.{
  ThreadState, human_audit, ThreadTransition, ambiguous, close, inactivity_archive, labels, lock,
  unchanged, rename, reopen, self_made, unlock, tags, every_from, arrays_equal, bool_eq,
  classify_thread_transition,
}

every_from-shift :
    (y : String) (ys : List String) (i : ℕ) (xs : List String)
    → every_from (y ∷ ys) (suc i) xs ≡ every_from ys i xs
every_from-shift y ys i [] = refl
every_from-shift y ys i (x ∷ xs) = ground (arith, every_from-shift y ys (suc i) xs)

pub arrays_equal_iff : (xs ys : List String) → (arrays_equal xs ys ≡ true) ↔ (xs ≡ ys)
unfolding arrays_equal
arrays_equal_iff [] [] = ground arith
arrays_equal_iff [] (y ∷ ys) = ground arith
arrays_equal_iff (x ∷ xs) [] = ground arith
arrays_equal_iff (x ∷ xs) (y ∷ ys) =
    ground (arith, text_iff x y, every_from-shift y ys 0 xs, arrays_equal_iff xs ys)

-- Two states that differ at most in whether no tags are listed or an empty list is.
abbrev pub Same : ThreadState → ThreadState → Type 0
Same s t = (s.archived ≡ t.archived) × (s.locked ≡ t.locked) × (s.name ≡ t.name) × (tags s ≡ tags t)

-- A change made by a person is classified as none exactly when the states are the same.
pub classify_thread_transition-unchanged :
    (previous observed : ThreadState)
    → (classify_thread_transition previous observed human_audit ≡ unchanged)
      ↔ Same previous observed
unfolding classify_thread_transition
classify_thread_transition-unchanged previous observed =
    ground (
      arith,
      text_iff previous.name observed.name,
      arrays_equal_iff (tags previous) (tags observed),
    )

-- What a transition does to a thread.
unfoldable pub apply : ThreadTransition → ThreadState → ThreadState
apply ambiguous s = s
apply close s = record s { archived = true }
apply inactivity_archive s = record s { archived = true }
apply (labels ts) s = record s { applied_tags = some ts }
apply lock s = record s { locked = true }
apply unchanged s = s
apply (rename title) s = record s { name = title }
apply reopen s = record s { archived = false }
apply self_made s = s
apply unlock s = record s { locked = false }

-- The transition of a person is applied, and the result compared again, `n` times.
unfoldable pub follow : ℕ → ThreadState → ThreadState → ThreadState
unfolding classify_thread_transition apply
follow zero previous observed = previous
follow (suc n) previous observed =
    follow n (apply (classify_thread_transition previous observed human_audit) previous) observed

-- In how many respects the states differ.
unfoldable differences : ThreadState → ThreadState → ℕ
differences s t =
    (if bool_eq s.locked t.locked then 0 else 1)
    + (if bool_eq s.archived t.archived then 0 else 1)
    + (if s.name == t.name then 0 else 1)
    + (if arrays_equal (tags s) (tags t) then 0 else 1)

differences-zero : (s t : ThreadState) → differences s t ≡ 0 → Same s t
unfolding differences
differences-zero s t h = ground (arith, text_iff s.name t.name, arrays_equal_iff (tags s) (tags t))

differences_bound : (s t : ThreadState) → differences s t ≤ 4
unfolding differences
differences_bound s t = ground arith

-- A transition removes a difference, if there is one.
differences-apply :
    (s t : ThreadState)
    → differences (apply (classify_thread_transition s t human_audit) s) t ≡ differences s t - 1
unfolding differences classify_thread_transition apply
differences-apply s t = ground (
  arith,
  text_iff s.name t.name,
  text_iff t.name t.name,
  arrays_equal_iff (tags s) (tags t),
  arrays_equal_iff (tags t) (tags t),
)

differences-follow :
    (n : ℕ) (s t : ThreadState) → differences (follow n s t) t ≡ differences s t - n
unfolding follow
differences-follow zero s t = omega arith
differences-follow (suc n) s t = omega (
  arith,
  differences-apply s t,
  differences-follow n (apply (classify_thread_transition s t human_audit) s) t,
)

-- Whatever a person changed of a thread, four transitions, each applied before the next change is
-- classified, lead from the previous state to the one that was observed.
pub follow-Same : (previous observed : ThreadState) → Same (follow 4 previous observed) observed
follow-Same previous observed =
    differences-zero (follow 4 previous observed) observed
      (omega (arith, differences-follow 4 previous observed, differences_bound previous observed))
