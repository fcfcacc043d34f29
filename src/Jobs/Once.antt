-- ===== src/Jobs/Once.antt =====
-- The inbox takes an event once: a taken idempotency key stays taken.
use forum_relay.Common.{
  ℕ, ◌≡◌, inl, inr, String, Bool, true, false, List, [], ◌∷◌, arith, text_iff, Option-cases, any,
  any-append, any-update_where, ◌==◌, string_eq, ℕ_eq,
}
use forum_relay.Schema.Jobs.{Row, InboxColumns, Database}
use forum_relay.Jobs.{
  Codec, first_claimable, claim_first, claimed, held_by, failed, fail_claim, insert_or_ignore,
  clashes,
}
use forum_relay.Jobs.Inbox.{
  EnqueueInbox, inbox_row, enqueue_inbox, inbox_claimable, claim_inbox, complete_inbox, finished,
  fail_inbox, redact_inbox, redactable_event, redacted_event,
}
use forum_relay.Jobs.Order.{
  InboxCall, enqueues, claims, completes, fails, redacts, inbox_step, inbox_run,
}

-- Some row has the idempotency key.
abbrev has_key : String → Row InboxColumns → Bool
has_key key r = r.idempotency_key == key

claim_first-has_key :
    (test : List (Row InboxColumns) → Row InboxColumns → Bool) (owner : String) (duration now : ℕ)
    (rows : List (Row InboxColumns)) (key : String)
    → any (has_key key) rows ≡ true
    → any (has_key key) (claim_first test owner duration now rows).0 ≡ true
unfolding claim_first
claim_first-has_key test owner duration now rows key h =
    elim (Option-cases (first_claimable test [] rows)) [
      | inl e ↦ rw (e, claim_first) h
      | inr (r, e) ↦
          rw (e, claim_first)
            (any-update_where (has_key key) (λ x. x.id == r.id) (claimed owner duration now)
              (λ x _ k. k) rows h)
    ]

insert-has_key :
    (key : String) (new : Row InboxColumns) (rows : List (Row InboxColumns))
    → any (has_key key) rows ≡ true
    → any (has_key key) (insert_or_ignore new rows).0 ≡ true
unfolding insert_or_ignore
insert-has_key key new rows h = ground (arith, any-append (has_key key) rows (new ∷ []))

inbox_step-has_key :
    (codec : Codec) (key : String) (db : Database) (c : InboxCall)
    → any (has_key key) db.inbox_events ≡ true
    → any (has_key key) (inbox_step codec db c).inbox_events ≡ true
unfolding inbox_step enqueue_inbox claim_inbox complete_inbox fail_inbox fail_claim redact_inbox
inbox_step-has_key codec key db (enqueues event id correlation now) h =
    insert-has_key key (inbox_row codec event id correlation now) db.inbox_events h
inbox_step-has_key codec key db (claims owner duration now) h =
    claim_first-has_key (inbox_claimable db.mappings now) owner duration now db.inbox_events key h
inbox_step-has_key codec key db (completes id owner now) h =
    any-update_where (has_key key) (held_by id owner) (finished now) (λ x _ k. k) db.inbox_events h
inbox_step-has_key codec key db (fails id owner f d now) h =
    any-update_where (has_key key) (held_by id owner) (failed f d now) (λ x _ k. k) db.inbox_events
      h
inbox_step-has_key codec key db (redacts before now) h =
    any-update_where (has_key key) (redactable_event before) (redacted_event codec now) (λ x _ k. k)
      db.inbox_events h

inbox_run-has_key :
    (codec : Codec) (key : String) (db : Database) (calls : List InboxCall)
    → any (has_key key) db.inbox_events ≡ true
    → any (has_key key) (inbox_run codec db calls).inbox_events ≡ true
unfolding inbox_run
inbox_run-has_key codec key db [] h = h
inbox_run-has_key codec key db (c ∷ cs) h =
    inbox_run-has_key codec key (inbox_step codec db c) cs (inbox_step-has_key codec key db c h)

has_key→clashes :
    (new : Row InboxColumns) (rows : List (Row InboxColumns))
    → any (has_key new.idempotency_key) rows ≡ true
    → any (clashes new) rows ≡ true
has_key→clashes new [] h = h
has_key→clashes new (x ∷ rows) h = ground (arith, has_key→clashes new rows)

accepted-has_key :
    (new : Row InboxColumns) (rows : List (Row InboxColumns))
    → (insert_or_ignore new rows).1 ≡ true
    → any (has_key new.idempotency_key) (insert_or_ignore new rows).0 ≡ true
unfolding insert_or_ignore
accepted-has_key new rows h = ground (
  arith,
  any-append (has_key new.idempotency_key) rows (new ∷ []),
  text_iff new.idempotency_key new.idempotency_key,
)

refused :
    (codec : Codec) (db : Database) (f : EnqueueInbox) (id correlation : String) (now : ℕ)
    → any (has_key f.idempotency_key) db.inbox_events ≡ true
    → enqueue_inbox codec db f id correlation now ≡ (db, false)
unfolding enqueue_inbox
refused codec db f id correlation now h =
    ground (arith, has_key→clashes (inbox_row codec f id correlation now) db.inbox_events)

-- Once an event is accepted, another with its idempotency key is refused and leaves the database
-- as it is, whatever calls are made in between.
pub enqueue_inbox_once :
    (codec : Codec) (db : Database) (e f : EnqueueInbox) (id id' correlation correlation' : String)
    (now now' : ℕ) (calls : List InboxCall)
    → (enqueue_inbox codec db e id correlation now).1 ≡ true
    → f.idempotency_key ≡ e.idempotency_key
    → let db' = inbox_run codec (enqueue_inbox codec db e id correlation now).0 calls in
      enqueue_inbox codec db' f id' correlation' now' ≡ (db', false)
unfolding enqueue_inbox
enqueue_inbox_once codec db e f id id' correlation correlation' now now' calls accepted same =
    let rows = (insert_or_ignore (inbox_row codec e id correlation now) db.inbox_events).0 in
    let kept = accepted-has_key (inbox_row codec e id correlation now) db.inbox_events accepted in
    refused codec _ f id' correlation' now' (
      inbox_run-has_key codec f.idempotency_key (record db { inbox_events = rows }) calls
        (rw same kept))
