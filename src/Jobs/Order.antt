-- ===== src/Jobs/Order.antt =====
-- Claims of the inbox: which event is taken, and the invariant over any sequence of calls.
use forum_relay.Common.{
  ℕ, ◌≡◌, ◌≢◌, inl, inr, refl, sym, subst, String, Bool, true, false, some, List, [], ◌∷◌, ◌++◌,
  arith, text_iff, Option-cases, All, All-map, Ordered-replace, Ordered-before, Ordered-after, any,
  not-any→All, string_eq,
}
use forum_relay.Schema.Jobs.{Row, InboxColumns, Mapping, Database}
use forum_relay.Retry.{RelayFailure, RetryDecision}
use forum_relay.Jobs.{
  Codec, first_claimable, claim_first, claimed, is_open, may_start, held_by, failed,
}
use forum_relay.Jobs.Claims.{claim_first-some, claim_first-none}
use forum_relay.Jobs.Inbox.{
  EnqueueInbox, inbox_row, enqueue_inbox, mapping_allows, inbox_claimable, inbox_blocks,
  claim_inbox, complete_inbox, finished, fail_inbox, redact_inbox, redactable_event, redacted_event,
}
use forum_relay.Jobs.Serial.{
  Serial, Unlike, Inv, update_where-Inv, insert-Inv, finished-Settles, failed-Settles,
  redacted-Settles,
}

-- An earlier event of the row's partition is done with.
abbrev pub IsBehind : Row InboxColumns → Row InboxColumns → Type 0
IsBehind r e =
    (p : String)
    → r.columns.partition_key ≡ some p
    → e.columns.partition_key ≡ some p
    → is_open e.state ≡ false

pub not-blocks→IsBehind :
    (r : Row InboxColumns) (rows : List (Row InboxColumns))
    → any (inbox_blocks r.columns.partition_key) rows ≡ false
    → All (IsBehind r) rows
not-blocks→IsBehind r rows h =
    All-map (λ e. inbox_blocks r.columns.partition_key e ≡ false) (IsBehind r)
      (λ e b p i j. ground (arith, text_iff p p)) rows
      (not-any→All (inbox_blocks r.columns.partition_key) rows h)

module _ (mappings : List Mapping) (owner : String) (duration now : ℕ) where
  pub claimable_parts :
      (before : List (Row InboxColumns)) (r : Row InboxColumns)
      → inbox_claimable mappings now before r ≡ true
      → (may_start r.state r.next_attempt_at r.claim_expires_at now ≡ true)
        × (mapping_allows r.columns.mapping_key mappings ≡ true)
        × (any (inbox_blocks r.columns.partition_key) before ≡ false)
  claimable_parts before r h = ground arith

  starts_Serial :
      (r : Row InboxColumns) (rows : List (Row InboxColumns))
      → may_start r.state r.next_attempt_at r.claim_expires_at now ≡ true
      → All (Serial r) rows
      → All (Serial (claimed owner duration now r)) rows
  starts_Serial r rows m =
      All-map (Serial r) (Serial (claimed owner duration now r))
        (λ y h p e l w. absurd (contradiction (h p e l w))) rows
    where
      contradiction : is_open r.state ≡ false → ⊥
      contradiction h = ground arith

  taken-Inv :
      (before : List (Row InboxColumns)) (r : Row InboxColumns) (after : List (Row InboxColumns))
      → inbox_claimable mappings now before r ≡ true
      → Inv (before ++ r ∷ after)
      → Inv (before ++ claimed owner duration now r ∷ after)
  taken-Inv before r after h v =
      let r' = claimed owner duration now r in
      let (due, _, free) = claimable_parts before r h in
      record {
        distinct =
            Ordered-replace (λ x y. x.id ≢ y.id) before r r' after v.distinct
              (Ordered-before (λ x y. x.id ≢ y.id) before r after v.distinct)
              (Ordered-after (λ x y. x.id ≢ y.id) before r after v.distinct);
        keyed =
            Ordered-replace Unlike before r r' after v.keyed
              (Ordered-before Unlike before r after v.keyed)
              (Ordered-after Unlike before r after v.keyed);
        serial =
            Ordered-replace Serial before r r' after v.serial
              (All-map (IsBehind r) (λ x. Serial x r') (λ x b p e l w. b p l e) before
                (not-blocks→IsBehind r before free))
              (starts_Serial r after due (Ordered-after Serial before r after v.serial));
      }

  claim_first-Inv :
      (rows : List (Row InboxColumns))
      → Inv rows
      → Inv (claim_first (inbox_claimable mappings now) owner duration now rows).0
  claim_first-Inv rows v = elim (Option-cases (first_claimable test [] rows)) [
    | inl e ↦ rw (claim_first-none test owner duration now rows e) v
    | inr (r, e) ↦
        let t = (claim_first-some test owner duration now rows r v.distinct e).0 in
        subst Inv (sym t.result) (taken-Inv t.before r t.after t.passes (subst Inv t.split v))
  ]
    where
      test : List (Row InboxColumns) → Row InboxColumns → Bool
      test = inbox_claimable mappings now

-- The calls of the inbox, with the time at which each is made.
pub data InboxCall : Type 0 where
  enqueues : EnqueueInbox → String → String → ℕ → InboxCall
  claims : String → ℕ → ℕ → InboxCall
  completes : String → String → ℕ → InboxCall
  fails : String → String → RelayFailure → RetryDecision → ℕ → InboxCall
  redacts : ℕ → ℕ → InboxCall

unfoldable pub inbox_step : Codec → Database → InboxCall → Database
inbox_step codec db (enqueues event id correlation now) =
    (enqueue_inbox codec db event id correlation now).0
inbox_step codec db (claims owner duration now) = (claim_inbox codec db owner duration now).0
inbox_step codec db (completes id owner now) = (complete_inbox db id owner now).0
inbox_step codec db (fails id owner f d now) = (fail_inbox db id owner f d now).0
inbox_step codec db (redacts before now) = (redact_inbox codec db before now).0

unfoldable pub inbox_run : Codec → Database → List InboxCall → Database
inbox_run codec db [] = db
inbox_run codec db (c ∷ cs) = inbox_run codec (inbox_step codec db c) cs

inbox_step-Inv :
    (codec : Codec) (db : Database) (c : InboxCall)
    → Inv db.inbox_events
    → Inv (inbox_step codec db c).inbox_events
unfolding inbox_step enqueue_inbox claim_inbox complete_inbox fail_inbox redact_inbox
inbox_step-Inv codec db (enqueues event id correlation now) v =
    insert-Inv (inbox_row codec event id correlation now) db.inbox_events refl v
inbox_step-Inv codec db (claims owner duration now) v =
    claim_first-Inv db.mappings owner duration now db.inbox_events v
inbox_step-Inv codec db (completes id owner now) v =
    update_where-Inv (held_by id owner) (finished now) (finished-Settles id owner now)
      db.inbox_events v
inbox_step-Inv codec db (fails id owner f d now) v =
    update_where-Inv (held_by id owner) (failed f d now) (failed-Settles id owner f d now)
      db.inbox_events v
inbox_step-Inv codec db (redacts before now) v =
    update_where-Inv (redactable_event before) (redacted_event codec now)
      (λ r _. redacted-Settles codec now r) db.inbox_events v

run-Inv :
    (codec : Codec) (db : Database) (calls : List InboxCall)
    → Inv db.inbox_events
    → Inv (inbox_run codec db calls).inbox_events
unfolding inbox_run
run-Inv codec db [] v = v
run-Inv codec db (c ∷ cs) v = run-Inv codec (inbox_step codec db c) cs (inbox_step-Inv codec db c v)

-- From an empty inbox, after any sequence of enqueues, claims, completions, failures and
-- redactions, by any owners and at any times, the rows have distinct ids and distinct idempotency
-- keys, and an event is at work only when every earlier event of its partition is completed or dead.
pub inbox_run-Inv :
    (codec : Codec) (db : Database) (calls : List InboxCall)
    → db.inbox_events ≡ []
    → Inv (inbox_run codec db calls).inbox_events
inbox_run-Inv codec db calls h =
    run-Inv codec db calls (rw h (record { distinct = tt; keyed = tt; serial = tt }))
