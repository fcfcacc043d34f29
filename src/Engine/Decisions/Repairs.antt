-- ===== src/Engine/Decisions/Repairs.antt =====
-- relay/engine.ts: what the repairs of a reconciliation make of a thread.
use forum_relay.Common.{
  ◌≡◌, Bool, true, false, not, ◌&&◌, ◌||◌, List, [], ◌∷◌, some, if◌then◌else◌, arith,
}
use forum_relay.Relay.{IssueState, open_issue, closed_issue}
use forum_relay.Engine.Decisions.{
  DiscordState, Repair, closed, locked, reopened, unlocked, is_closed, bool_differs,
  reconciliation_lifecycle_repairs,
}

-- What a repair makes of the thread, for an issue of that state and lock.
abbrev pub repaired : IssueState → Bool → Repair → DiscordState → DiscordState
repaired state is_locked closed d = record d { archived = true }
repaired state is_locked reopened d = record { archived = is_locked; locked = is_locked }
repaired state is_locked locked d = record { archived = true; locked = true }
repaired state is_locked unlocked d = record { archived = is_closed state; locked = false }

abbrev pub repaired_all : IssueState → Bool → List Repair → DiscordState → DiscordState
repaired_all state is_locked [] d = d
repaired_all state is_locked (r ∷ rs) d =
    repaired_all state is_locked rs (repaired state is_locked r d)

-- The thread is locked as the issue is. That of a closed issue is archived, and that of an open issue is not,
-- unless it is locked.
abbrev pub is_consistent : IssueState → Bool → DiscordState → Bool
is_consistent state is_locked d =
    not (bool_differs d.locked is_locked)
    && (if is_closed state then d.archived else is_locked || not d.archived)

pub repaired_all-consistent :
    (state previous : IssueState) (is_locked was_locked : Bool) (d : DiscordState)
    → is_consistent state is_locked (
        repaired_all state is_locked
          (reconciliation_lifecycle_repairs state is_locked previous was_locked (some d))
          d)
      ≡ true
unfolding reconciliation_lifecycle_repairs
repaired_all-consistent open_issue open_issue is_locked was_locked d = ground arith
repaired_all-consistent open_issue closed_issue is_locked was_locked d = ground arith
repaired_all-consistent closed_issue open_issue is_locked was_locked d = ground arith
repaired_all-consistent closed_issue closed_issue is_locked was_locked d = ground arith
