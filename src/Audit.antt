-- ===== src/Audit.antt =====
-- jobs/audit-classifier.ts: who changed a thread, found in Discord's audit log. Parameters: `text_of` is
-- `String(…)` of a value or `undefined`, `big_int` is `BigInt(…)`, which throws on `none`.
pub mod Evidence
pub mod Classify
pub mod Laws
pub mod Attempts
use forum_relay.Common.{
  ℕ, zero, suc, ◌+◌, String, Bool, true, false, not, ◌&&◌, List, [], ◌∷◌, Option, none, some,
  update_where, ◌==◌, string_eq, leb, ltb, if◌then◌else◌,
}
use forum_relay.Common.Json.{Json}

pub data AuditState : Type 0 where
  pending processing completed : AuditState

-- A row of `audit_classification_jobs`.
pub record AuditRow : Type 0 where
  pub id : String
  pub mapping_key : String
  pub thread_id : String
  pub observed : Json
  pub observed_at : ℕ
  pub state : AuditState
  pub attempt_count : ℕ
  pub next_attempt_at : ℕ
  pub classification : Option String
  pub updated_at : ℕ

abbrev pub is_pending : AuditRow → Bool
is_pending r = elim r.state [ AuditState.pending ↦ true | _ ↦ false ]

abbrev pub has_id : String → AuditRow → Bool
has_id id r = r.id == id

-- The row that is due, is pending and was observed first.
unfoldable pub earliest : ℕ → List AuditRow → Option AuditRow
earliest now [] = none
earliest now (r ∷ rows) =
    let later = earliest now rows in
    if is_pending r && leb r.next_attempt_at now
    then elim later [
      | none ↦ some r
      | some s ↦ if leb r.observed_at s.observed_at then some r else some s
    ]
    else later

abbrev pub claimed : ℕ → AuditRow → AuditRow
claimed now r = record r {
  state = AuditState.processing;
  attempt_count = suc r.attempt_count;
  updated_at = now;
}

-- `#claim`: the row as it is returned, and the table.
unfoldable pub claim : ℕ → List AuditRow → Option AuditRow × List AuditRow
unfolding earliest
claim now rows = elim (earliest now rows) [
  | none ↦ (none, rows)
  | some r ↦ (some (claimed now r), update_where (has_id r.id) (claimed now) rows)
]

-- `#complete`
unfoldable pub complete : AuditRow → String → ℕ → List AuditRow → List AuditRow
complete job classification now = update_where (has_id job.id) (λ r. record r {
  state = AuditState.completed;
  classification = some classification;
  updated_at = now;
})

-- `#retry`
unfoldable pub retry : AuditRow → String → ℕ → List AuditRow → List AuditRow
unfolding complete
retry job code now rows =
    if leb 5 job.attempt_count
    then complete job "AMBIGUOUS" now rows
    else update_where (has_id job.id)
        (λ r. record r {
          state = AuditState.pending;
          classification = some code;
          next_attempt_at = now + 2000;
          updated_at = now;
        })
        rows

-- `enqueueAuditClassification` of db/relay-repository.ts; `id` is the fresh UUID.
abbrev pub enqueued : String → String → String → Json → ℕ → AuditRow
enqueued id mapping_key thread_id observed observed_at = record {
  id = id;
  mapping_key = mapping_key;
  thread_id = thread_id;
  observed = observed;
  observed_at = observed_at;
  state = AuditState.pending;
  attempt_count = 0;
  next_attempt_at = observed_at + 2000;
  classification = none;
  updated_at = observed_at;
}
