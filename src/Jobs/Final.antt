-- ===== src/Jobs/Final.antt =====
-- The outbox over any sequence of calls: ids stay distinct, and a completed operation stays so.
use forum_relay.Common.{
  ℕ, ◌≡◌, ◌≢◌, inl, inr, refl, sym, subst, String, Bool, true, false, List, [], ◌∷◌, ◌++◌, arith,
  text_iff, Bool-cases, Option-cases, All-map, any, any-append, any-update_where, update_where,
  not-any→All, ◌==◌, string_eq, ◌&&◌, Ordered-append_one, Ordered-replace, Ordered-update_where,
  Ordered-before, Ordered-after,
}
use forum_relay.Common.Json.{Json}
use forum_relay.Schema.Jobs.{Row, OutboxColumns, Database}
use forum_relay.Retry.{RelayFailure, RetryDecision}
use forum_relay.Jobs.{
  Codec, first_claimable, claim_first, claimed, held_by, failed, fail_claim, insert_or_ignore,
  clashes, is_completed,
}
use forum_relay.Jobs.Claims.{Distinct, claim_first-some, claim_first-none}
use forum_relay.Jobs.Outbox.{
  EnqueueOutbox, outbox_row, enqueue_outbox, outbox_claimable, claim_outbox, completed_with,
  complete_outbox, fail_outbox,
}
use forum_relay.Jobs.Upkeep.{
  waits_in_partition, died_in_mapping, resumed, resume_thread_pending_lifecycles,
  resume_dead_thread_pending_lifecycles, redactable_operation, redacted_operation,
  redact_completed_payloads,
}
use forum_relay.Jobs.Inbox.{redact_inbox}

pub data OutboxCall : Type 0 where
  enqueues : EnqueueOutbox → String → ℕ → OutboxCall
  claims : String → ℕ → ℕ → OutboxCall
  completes : String → String → Json → ℕ → OutboxCall
  fails : String → String → RelayFailure → RetryDecision → ℕ → OutboxCall
  resumes resumes_dead : String → ℕ → OutboxCall
  redacts : ℕ → ℕ → OutboxCall

unfoldable pub outbox_step : Codec → Database → OutboxCall → Database
outbox_step codec db (enqueues operation id now) = (enqueue_outbox codec db operation id now).0
outbox_step codec db (claims owner duration now) = (claim_outbox codec db owner duration now).0
outbox_step codec db (completes id owner result now) =
    (complete_outbox codec db id owner result now).0
outbox_step codec db (fails id owner f d now) = (fail_outbox db id owner f d now).0
outbox_step codec db (resumes partition now) = (resume_thread_pending_lifecycles db partition now).0
outbox_step codec db (resumes_dead mapping_key now) =
    (resume_dead_thread_pending_lifecycles db mapping_key now).0
outbox_step codec db (redacts before now) = (redact_completed_payloads codec db before now).0

unfoldable pub outbox_run : Codec → Database → List OutboxCall → Database
outbox_run codec db [] = db
outbox_run codec db (c ∷ cs) = outbox_run codec (outbox_step codec db c) cs

-- The operation with this id is completed.
abbrev pub is_done : String → Row OutboxColumns → Bool
is_done id r = r.id == id && is_completed r.state

-- What each call keeps: distinct ids, and the completed operation `id`.
pub record Keeps (id : String) (rows : List (Row OutboxColumns)) : Type 0 where
  pub distinct : Distinct rows
  pub done : any (is_done id) rows ≡ true

module _ (id : String) where
  update-Keeps :
      (p : Row OutboxColumns → Bool) (f : Row OutboxColumns → Row OutboxColumns)
      → ((r : Row OutboxColumns) → (f r).id ≡ r.id)
      → ((r : Row OutboxColumns) → p r ≡ true → is_done id r ≡ true → is_done id (f r) ≡ true)
      → (rows : List (Row OutboxColumns)) → Keeps id rows
      → Keeps id (update_where p f rows)
  update-Keeps p f same stays rows k = record {
    distinct =
        Ordered-update_where (λ x y. x.id ≢ y.id) p f (λ x y h. ground (arith, same x, same y)) rows
          k.distinct;
    done = any-update_where (is_done id) p f stays rows k.done;
  }

  insert-Keeps :
      (new : Row OutboxColumns) (rows : List (Row OutboxColumns))
      → Keeps id rows
      → Keeps id (insert_or_ignore new rows).0
  unfolding insert_or_ignore
  insert-Keeps new rows k = elim (Bool-cases (any (clashes new) rows)) [
    | inl e ↦ rw e k
    | inr e ↦ rw e (record {
      distinct =
          Ordered-append_one (λ x y. x.id ≢ y.id) rows new k.distinct
            (All-map (λ x. clashes new x ≡ false) (λ x. x.id ≢ new.id)
              (λ x h. ground (arith, text_iff x.id new.id)) rows
              (not-any→All (clashes new) rows e));
      done = ground (arith, any-append (is_done id) rows (new ∷ []), k.done);
    })
  ]

  claim-Keeps :
      (db : Database) (owner : String) (duration now : ℕ)
      → Keeps id db.outbox_operations
      → Keeps id (claim_first (outbox_claimable db now) owner duration now db.outbox_operations).0
  claim-Keeps db owner duration now k =
      elim (Option-cases (first_claimable test [] db.outbox_operations)) [
        | inl e ↦ rw (claim_first-none test owner duration now db.outbox_operations e) k
        | inr (r, e) ↦
            let t =
              (claim_first-some test owner duration now db.outbox_operations r k.distinct e).0 in
            subst (Keeps id) (sym t.result)
              (taken t.before r t.after t.passes (subst (Keeps id) t.split k))
      ]
    where
      test : List (Row OutboxColumns) → Row OutboxColumns → Bool
      test = outbox_claimable db now

      taken :
          (before : List (Row OutboxColumns)) (r : Row OutboxColumns)
          (after : List (Row OutboxColumns))
          → outbox_claimable db now before r ≡ true
          → Keeps id (before ++ r ∷ after)
          → Keeps id (before ++ claimed owner duration now r ∷ after)
      taken before r after h v = record {
        distinct =
            Ordered-replace (λ x y. x.id ≢ y.id) before r (claimed owner duration now r) after
              v.distinct (Ordered-before (λ x y. x.id ≢ y.id) before r after v.distinct)
              (Ordered-after (λ x y. x.id ≢ y.id) before r after v.distinct);
        done = ground (
          arith,
          not-completed r h,
          any-append (is_done id) before (r ∷ after),
          any-append (is_done id) before (claimed owner duration now r ∷ after),
          v.done,
        );
      }
        where
          not-completed :
              (r : Row OutboxColumns)
              → outbox_claimable db now before r ≡ true
              → is_completed r.state ≡ false
          not-completed r h = ground arith

  enqueue-Keeps :
      (codec : Codec) (db : Database) (operation : EnqueueOutbox) (new : String) (now : ℕ)
      → Keeps id db.outbox_operations
      → Keeps id (enqueue_outbox codec db operation new now).0.outbox_operations
  unfolding enqueue_outbox
  enqueue-Keeps codec db operation new now k =
      ground (arith, insert-Keeps (outbox_row codec operation new now) db.outbox_operations k)

  outbox_step-Keeps :
      (codec : Codec) (db : Database) (c : OutboxCall)
      → Keeps id db.outbox_operations
      → Keeps id (outbox_step codec db c).outbox_operations
  unfolding outbox_step claim_outbox complete_outbox fail_outbox fail_claim
      resume_thread_pending_lifecycles resume_dead_thread_pending_lifecycles
      redact_completed_payloads redact_inbox
  outbox_step-Keeps codec db (enqueues operation new now) k =
      enqueue-Keeps codec db operation new now k
  outbox_step-Keeps codec db (claims owner duration now) k = claim-Keeps db owner duration now k
  outbox_step-Keeps codec db (completes new owner result now) k =
      update-Keeps (held_by new owner) (completed_with codec result now) (λ r. refl)
        (λ r h d. ground arith) db.outbox_operations k
  outbox_step-Keeps codec db (fails new owner f d now) k =
      update-Keeps (held_by new owner) (failed f d now) (λ r. refl) (λ r h e. ground arith)
        db.outbox_operations k
  outbox_step-Keeps codec db (resumes partition now) k =
      update-Keeps (waits_in_partition partition) (resumed now) (λ r. refl) (λ r h e. ground arith)
        db.outbox_operations k
  outbox_step-Keeps codec db (resumes_dead mapping_key now) k =
      update-Keeps (died_in_mapping mapping_key) (resumed now) (λ r. refl) (λ r h e. ground arith)
        db.outbox_operations k
  outbox_step-Keeps codec db (redacts before now) k =
      update-Keeps (redactable_operation before) (redacted_operation codec now) (λ r. refl)
        (λ r h e. e) db.outbox_operations k

  -- A completed operation is never started, failed or resumed again: it stays completed, and ids
  -- stay distinct, whatever calls are made of the outbox.
  pub outbox_run-Keeps :
      (codec : Codec) (db : Database) (calls : List OutboxCall)
      → Keeps id db.outbox_operations
      → Keeps id (outbox_run codec db calls).outbox_operations
  unfolding outbox_run
  outbox_run-Keeps codec db [] k = k
  outbox_run-Keeps codec db (c ∷ cs) k =
      outbox_run-Keeps codec (outbox_step codec db c) cs (outbox_step-Keeps codec db c k)
