-- ===== src/Audit/Classify.antt =====
-- jobs/audit-classifier.ts: `#classify` and `#tick`.
use Prim.Native.String.{◌++◌ as ◌<>◌}
use forum_relay.Common.{
  ℕ, String, Bool, true, false, not, List, [], ◌∷◌, Option, none, some, ltb, ◌==◌, string_eq,
  if◌then◌else◌,
}
use forum_relay.Common.Json.{Json, bool, arr, str, is_json_object, json_string}
use forum_relay.Retry.{Result, ok, err}
use forum_relay.Relay.{IssueThreadLink, closed_issue, open_issue}
use forum_relay.Relay.Links.{LinkTable, find_link_by_discord}
use forum_relay.Transitions.{
  ThreadState, TransitionEvidence, ThreadTransition, classify_thread_transition, close, reopen,
  lock, unlock, rename, labels, unchanged, self_made, ambiguous, inactivity_archive,
}
use forum_relay.Audit.{AuditRow, claim, complete, retry}
use forum_relay.Audit.Evidence.{Evidence, member, json_array, find_evidence}

-- The payload of the operation that is enqueued for GitHub.
pub record Lifecycle : Type 0 where
  pub action : String
  pub actor : Evidence
  pub labels : List String
  pub link_id : ℕ
  pub title : String
  pub idempotency_key : String

-- What becomes of the job.
pub data Verdict : Type 0 where
  complete_as retry_as : String → Verdict
  enqueue : Lifecycle → Verdict

abbrev pub is_true : Option Json → Bool
is_true (some (bool b)) = b
is_true _ = false

-- `filter((value) => typeof value === "string")`
abbrev pub strings : List Json → List String
strings [] = []
strings (str s ∷ vs) = s ∷ strings vs
strings (_ ∷ vs) = strings vs

abbrev pub applied_tags : Option Json → Option (List String)
applied_tags (some (arr xs)) = some (strings (json_array (some (arr xs))))
applied_tags _ = none

abbrev pub previous_state : IssueThreadLink → ThreadState
previous_state link = record {
  applied_tags = none;
  archived = elim link.state [ closed_issue ↦ true | open_issue ↦ false ];
  locked = link.locked;
  name = link.full_title;
}

abbrev pub observed_state : IssueThreadLink → Json → Json → ThreadState
observed_state link observed metadata = record {
  applied_tags = applied_tags (member observed "applied_tags");
  archived = is_true (member metadata "archived");
  locked = is_true (member metadata "locked");
  name = elim (json_string observed "name") [ none ↦ link.full_title | some name ↦ name ];
}

abbrev pub evidence_kind : String → Option Evidence → TransitionEvidence
evidence_kind application none = TransitionEvidence.no_evidence
evidence_kind application (some e) =
    if e.actor_id == application then TransitionEvidence.by_self else TransitionEvidence.human_audit

-- What is left of the handler for a kind that is an action.
abbrev pub act :
    AuditRow
    → IssueThreadLink
    → ThreadState
    → Option Evidence
    → String
    → String
    → List String
    → Verdict
act job link observed none action title names = complete_as "AMBIGUOUS"
act job link observed (some e) action title names = enqueue (record {
  action = action;
  actor = e;
  labels = names;
  link_id = link.id;
  title = title;
  idempotency_key = "github:lifecycle:audit:" <> job.id <> ":" <> action;
})

-- `tag_names` is `githubLabelsForTags` of the mapping.
unfoldable pub decide :
    (List String → List String)
    → AuditRow
    → IssueThreadLink
    → ThreadState
    → Option Evidence
    → ThreadTransition
    → Verdict
decide tag_names job link observed e unchanged = complete_as "NONE"
decide tag_names job link observed e self_made = complete_as "SELF"
decide tag_names job link observed e ambiguous = complete_as "AMBIGUOUS"
decide tag_names job link observed e inactivity_archive = complete_as "INACTIVITY_ARCHIVE"
decide tag_names job link observed e close = act job link observed e "close" observed.name []
decide tag_names job link observed e reopen = act job link observed e "reopen" observed.name []
decide tag_names job link observed e lock = act job link observed e "lock" observed.name []
decide tag_names job link observed e unlock = act job link observed e "unlock" observed.name []
decide tag_names job link observed e (rename title) = act job link observed e "rename" title []
decide tag_names job link observed e (labels ids) =
    act job link observed e "labels" observed.name (tag_names ids)

-- `audit` is what `recentThreadAuditLog` returns, or throws.
unfoldable pub classify :
    (Option Json → String)
    → (String → Option ℕ)
    → (List String → List String)
    → String
    → LinkTable
    → Result Json
    → AuditRow
    → Result Verdict
unfolding find_link_by_discord find_evidence classify_thread_transition decide
classify text_of big_int tag_names application links audit job =
    elim (find_link_by_discord links job.mapping_key job.thread_id) [
      | none ↦ ok (complete_as "UNLINKED")
      | some link ↦ elim (member job.observed "thread_metadata") [
        | none ↦ ok (complete_as "NO_THREAD_METADATA")
        | some metadata ↦
            if not (is_json_object metadata)
            then ok (complete_as "NO_THREAD_METADATA")
            else elim audit [
              | err e ↦ err e
              | ok log ↦
                  elim (find_evidence text_of big_int log job.thread_id job.observed_at
                    (json_array (member log "audit_log_entries"))) [
                      | err e ↦ err e
                      | ok none ↦
                          if ltb job.attempt_count 3
                          then ok (retry_as "AUDIT_EVIDENCE_PENDING")
                          else ok (
                              decide tag_names job link (observed_state link job.observed metadata)
                                none
                                (classify_thread_transition (previous_state link)
                                  (observed_state link job.observed metadata)
                                  TransitionEvidence.no_evidence))
                      | ok (some e) ↦ ok (
                          decide tag_names job link (observed_state link job.observed metadata)
                            (some e)
                            (classify_thread_transition (previous_state link)
                              (observed_state link job.observed metadata)
                              (evidence_kind application (some e))))
                    ]
            ]
      ]
    ]

abbrev pub inserted_by : (Lifecycle → Bool) → Result Verdict → Bool
inserted_by insert (ok (enqueue op)) = insert op
inserted_by insert _ = false

-- What the verdict writes; `inserted` says that `enqueueOutbox` returned an id, and `upper` is
-- `toLocaleUpperCase("en-US")`.
unfoldable pub settle :
    (String → String) → Result Verdict → Bool → AuditRow → ℕ → List AuditRow → List AuditRow
unfolding complete retry
settle upper (err e) inserted job now = retry job "AUDIT_QUERY_FAILED" now
settle upper (ok (complete_as c)) inserted job now = complete job c now
settle upper (ok (retry_as c)) inserted job now = retry job c now
settle upper (ok (enqueue op)) inserted job now =
    complete job (if inserted then "MANUAL_" <> upper op.action else "DUPLICATE_OPERATION") now

-- What follows the claim: without a job, nothing.
unfoldable pub after_claim :
    (String → String)
    → (AuditRow → Result Verdict)
    → (Lifecycle → Bool)
    → ℕ
    → Option AuditRow × List AuditRow
    → List AuditRow
unfolding settle
after_claim upper verdict insert later (none, rows) = rows
after_claim upper verdict insert later (some job, rows) =
    settle upper (verdict job) (inserted_by insert (verdict job)) job later rows

-- One tick: a claim at `now`, the verdict on the claimed job, and its writes at `later`.
unfoldable pub tick :
    (String → String)
    → (AuditRow → Result Verdict)
    → (Lifecycle → Bool)
    → ℕ
    → ℕ
    → List AuditRow
    → List AuditRow
unfolding claim after_claim
tick upper verdict insert now later rows = after_claim upper verdict insert later (claim now rows)
