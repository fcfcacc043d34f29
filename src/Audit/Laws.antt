-- ===== src/Audit/Laws.antt =====
-- Whose changes are passed on to GitHub, and how often a job is tried.
use forum_relay.Common.{
  ℕ, ◌≡◌, ◌≢◌, inl, inr, refl, sym, ap, ◌∙◌, String, List, Option, none, some, string_eq, arith,
  text_iff, Option-cases,
}
use forum_relay.Common.Json.{Json}
use forum_relay.Retry.{Result, Result-cases, ok}
use forum_relay.Relay.{IssueThreadLink}
use forum_relay.Relay.Links.{LinkTable, find_link_by_discord}
use forum_relay.Transitions.{
  ThreadState, ThreadTransition, TransitionEvidence, classify_thread_transition, close, reopen,
  lock, unlock, rename, labels, unchanged, self_made, ambiguous, inactivity_archive,
}
use forum_relay.Audit.{AuditRow}
use forum_relay.Audit.Evidence.{Evidence, member, json_array, find_evidence}
use forum_relay.Audit.Classify.{
  Lifecycle, enqueue, previous_state, observed_state, evidence_kind, decide, classify,
}

module _ (tag_names : List String → List String) (job : AuditRow) (link : IssueThreadLink)
    (observed : ThreadState) (op : Lifecycle) where
  -- Without evidence no operation is enqueued, and with evidence it has the actor of the evidence.
  decide-none : (t : ThreadTransition) → decide tag_names job link observed none t ≢ enqueue op
  unfolding decide
  decide-none ambiguous h = cc
  decide-none close h = cc
  decide-none inactivity_archive h = cc
  decide-none (labels x) h = cc
  decide-none lock h = cc
  decide-none unchanged h = cc
  decide-none (rename x) h = cc
  decide-none reopen h = cc
  decide-none self_made h = cc
  decide-none unlock h = cc

  decide-some :
      (e : Evidence) (t : ThreadTransition)
      → decide tag_names job link observed (some e) t ≡ enqueue op
      → (op.actor ≡ e) × (t ≢ self_made)
  unfolding decide
  decide-some e ambiguous h = cc
  decide-some e close h = ground arith
  decide-some e inactivity_archive h = cc
  decide-some e (labels x) h = ground arith
  decide-some e lock h = ground arith
  decide-some e unchanged h = cc
  decide-some e (rename x) h = ground arith
  decide-some e reopen h = ground arith
  decide-some e self_made h = cc
  decide-some e unlock h = ground arith

  not_own :
      (application : String) (previous : ThreadState) (e : Evidence)
      → decide tag_names job link observed
          (some e)
          (classify_thread_transition previous observed (evidence_kind application (some e)))
        ≡ enqueue op
      → op.actor.actor_id ≢ application
  unfolding classify_thread_transition
  not_own application previous e h own =
      let d =
        decide-some e
          (classify_thread_transition previous observed (evidence_kind application (some e))) h in
      let same : e.actor_id ≡ application = ap (λ a. a.actor_id) (sym d.0) ∙ own in
      d.1 (rw ((text_iff e.actor_id application).1 same) refl)

-- An operation is enqueued for GitHub only for a change that the audit log attributes to someone other
-- than the application itself.
pub classify-actor :
    (text_of : Option Json → String) (big_int : String → Option ℕ)
    (tag_names : List String → List String) (application : String) (links : LinkTable)
    (audit : Result Json) (job : AuditRow) (op : Lifecycle)
    → classify text_of big_int tag_names application links audit job ≡ ok (enqueue op)
    → op.actor.actor_id ≢ application
unfolding classify
classify-actor text_of big_int tag_names application links audit job op h own =
    elim (Option-cases (find_link_by_discord links job.mapping_key job.thread_id)) [
      | inl l ↦ ground (arith, l, h)
      | inr (link, l) ↦ elim (Option-cases (member job.observed "thread_metadata")) [
        | inl m ↦ ground (arith, l, m, h)
        | inr (metadata, m) ↦ elim (Result-cases audit) [
          | inr (e, a) ↦ ground (arith, l, m, a, h)
          | inl (log, a) ↦
              let seen = observed_state link job.observed metadata in
              let evidence =
                find_evidence text_of big_int log job.thread_id job.observed_at
                  (json_array (member log "audit_log_entries")) in
              elim (Result-cases evidence) [
                | inr (e, v) ↦ ground (arith, l, m, a, v, h)
                | inl (none, v) ↦ ground (
                  arith,
                  l,
                  m,
                  a,
                  v,
                  h,
                  decide-none tag_names job link seen op (
                      classify_thread_transition (previous_state link) seen
                        TransitionEvidence.no_evidence),
                )
                | inl (some e, v) ↦ ground (
                  arith,
                  l,
                  m,
                  a,
                  v,
                  h,
                  not_own tag_names job link seen op application (previous_state link) e,
                )
              ]
        ]
      ]
    ]
