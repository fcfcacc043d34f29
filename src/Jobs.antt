-- ===== src/Jobs.antt =====
-- db/job-repository.ts: the two durable queues. What both share is here: the claim of the first
-- row that may run, and the updates that end a claim. `Date.now()` and `crypto.randomUUID()` are
-- arguments; each method is one transaction on the database.
pub mod Inbox
pub mod Outbox
pub mod Upkeep
pub mod First
pub mod Claims
pub mod Serial
pub mod Order
pub mod Turns
pub mod Ownership
pub mod Once
pub mod Ready
pub mod Final
use forum_relay.Common.{
  ℕ, suc, ◌+◌, ◌≤◌, ◌≡◌, String, Bool, true, false, not, ◌&&◌, ◌||◌, Option, none, some, List, [],
  ◌∷◌, ◌++◌, ◌==◌, ℕ_eq, string_eq, leb, if◌then◌else◌, any, find, update_where, count_where,
}
use forum_relay.Common.Json.{Json}
use forum_relay.Schema.Jobs.{Row, JobState, Mapping, MappingState, active, bootstrapping}
use forum_relay.Retry.{RelayFailure, RetryDecision, RetryState, dead, pending}

-- `JSON.stringify` and `JSON.parse`, which throws on what is no JSON text.
pub record Codec : Type 0 where
  pub stringify : Json → String
  pub parse : String → Option Json

-- A column that holds a time at or before `now`; NULL compares false.
abbrev pub is_due : Option ℕ → ℕ → Bool
is_due none now = false
is_due (some t) now = leb t now

-- `column = ?`; NULL compares false.
abbrev pub column_is : Option String → String → Bool
column_is none s = false
column_is (some t) s = t == s

-- `state IN ('pending', 'processing')`
abbrev pub is_open : JobState → Bool
is_open JobState.pending = true
is_open JobState.processing = true
is_open _ = false

abbrev pub is_processing : JobState → Bool
is_processing JobState.processing = true
is_processing _ = false

abbrev pub is_completed : JobState → Bool
is_completed JobState.completed = true
is_completed _ = false

abbrev pub is_running : MappingState → Bool
is_running active = true
is_running bootstrapping = true
is_running _ = false

-- `EXISTS (SELECT 1 FROM mappings …)`: the mapping is there and takes part.
abbrev pub mapping_runs : String → List Mapping → Bool
mapping_runs key = any (λ m. m.key == key && is_running m.state)

-- `ORDER BY candidate.rowid LIMIT 1`: the first row that passes the test, given the rows before it.
unfoldable pub first_claimable {ℓ} : {A : Type ℓ} → (List A → A → Bool) → List A → List A → Option A
first_claimable test earlier [] = none
first_claimable test earlier (r ∷ rs) =
    if test earlier r then some r else first_claimable test (earlier ++ r ∷ []) rs

-- The row may be tried: it waits and its time has come, or its claim ran out.
abbrev pub may_start : JobState → Option ℕ → Option ℕ → ℕ → Bool
may_start JobState.pending next_attempt_at claim_expires_at now = is_due next_attempt_at now
may_start JobState.processing next_attempt_at claim_expires_at now = is_due claim_expires_at now
may_start _ next_attempt_at claim_expires_at now = false

abbrev pub job_state : RetryState → JobState
job_state dead = JobState.dead
job_state pending = JobState.pending

abbrev pub next_attempt : RetryState → Option ℕ → ℕ → Option ℕ
next_attempt dead delay now = none
next_attempt pending none now = some now
next_attempt pending (some d) now = some (now + d)

module _ {A : Type 0} where
  abbrev pub has_id : String → Row A → Bool
  has_id id r = r.id == id

  -- The SET clause of a claim.
  abbrev pub claimed : String → ℕ → ℕ → Row A → Row A
  claimed owner duration now r = record r {
    state = JobState.processing;
    claim_owner = some owner;
    claim_expires_at = some (now + duration);
    attempt_count = r.attempt_count + 1;
    updated_at = now;
  }

  -- `UPDATE … WHERE id = (SELECT …) RETURNING *`: the rows after it, and the first that it returns.
  unfoldable pub claim_first :
      (List (Row A) → Row A → Bool) → String → ℕ → ℕ → List (Row A) → List (Row A) × Option (Row A)
  unfolding first_claimable
  claim_first test owner duration now rows = elim (first_claimable test [] rows) [
    | none ↦ (rows, none)
    | some r ↦
        let rows' = update_where (has_id r.id) (claimed owner duration now) rows in
        (rows', find (has_id r.id) rows')
  ]

  -- `WHERE id = ? AND state = 'processing' AND claim_owner = ?`
  abbrev pub held_by : String → String → Row A → Bool
  held_by id owner r = r.id == id && is_processing r.state && column_is r.claim_owner owner

  abbrev pub failed : RelayFailure → RetryDecision → ℕ → Row A → Row A
  failed f decision now r = record r {
    state = job_state decision.state;
    next_attempt_at = next_attempt decision.state decision.delay_ms now;
    claim_owner = none;
    claim_expires_at = none;
    last_error_code = some f.code;
    last_error_message = some f.message;
    updated_at = now;
  }

  -- `failClaim`: the rows after it, and whether it was this owner's claim.
  unfoldable pub fail_claim :
      List (Row A) → String → String → RelayFailure → RetryDecision → ℕ → List (Row A) × Bool
  fail_claim rows id owner f decision now = (
    update_where (held_by id owner) (failed f decision now) rows,
    count_where (held_by id owner) rows == 1,
  )

  -- `INSERT OR IGNORE`: a row with a taken id or idempotency key is dropped.
  abbrev pub clashes : Row A → Row A → Bool
  clashes new r = r.id == new.id || r.idempotency_key == new.idempotency_key

  unfoldable pub insert_or_ignore : Row A → List (Row A) → List (Row A) × Bool
  insert_or_ignore new rows =
      if any (clashes new) rows then (rows, false) else (rows ++ new ∷ [], true)
