-- ===== src/Worker/Outcomes.antt =====
-- What one round does to the event that it works on.
use forum_relay.Common.{
  ℕ, ◌+◌, ◌≡◌, ◌≢◌, ◌≤◌, ◌⊎◌, inl, inr, refl, sym, ◌∙◌, subst, String, Option, none, some, List, [],
  ◌∷◌, ◌++◌, arith, text_iff, All, All-map, update_where, if◌then◌else◌, string_eq, leb, ◌||◌,
  Ordered-before,
}
use forum_relay.Schema.Jobs.{Row, InboxColumns, JobState, Database}
use forum_relay.Retry.Bounds.{retry_decision-delay_le}
use forum_relay.Retry.{
  RetryState, dead, pending, Fraction, RelayFailure, RetryDecision, Result, ok, err, Thrown,
  normalize_failure, retry_decision, default_retry_policy, is_final,
}
use forum_relay.Jobs.{Codec, claimed, held_by, failed, fail_claim, job_state, next_attempt}
use forum_relay.Jobs.Claims.{Distinct}
use forum_relay.Jobs.Inbox.{ClaimedJob, claim_inbox, complete_inbox, finished, fail_inbox}
use forum_relay.Jobs.Turns.{claim_inbox-InTurn}
use forum_relay.Worker.{InboxHandler, WorkerOptions, Moment, settle_inbox, process_inbox}

update_held_absent :
    (id who : String) (f : Row InboxColumns → Row InboxColumns) (rows : List (Row InboxColumns))
    → All (λ x. x.id ≢ id) rows
    → update_where (held_by id who) f rows ≡ rows
update_held_absent id who f [] h = refl
update_held_absent id who f (x ∷ rows) h =
    ground (arith, text_iff x.id id, update_held_absent id who f rows)

update_held :
    (owner : String) (duration now : ℕ) (f : Row InboxColumns → Row InboxColumns)
    (before : List (Row InboxColumns)) (r : Row InboxColumns) (after : List (Row InboxColumns))
    → Distinct (before ++ r ∷ after)
    → update_where (held_by r.id owner) f (before ++ claimed owner duration now r ∷ after)
      ≡ before ++ f (claimed owner duration now r) ∷ after
update_held owner duration now f [] r after d = ground (
  arith,
  text_iff r.id r.id,
  text_iff owner owner,
  update_held_absent r.id owner f after
      (All-map (λ x. r.id ≢ x.id) (λ x. x.id ≢ r.id) (λ x h e. h (sym e)) after d.0),
)
update_held owner duration now f (x ∷ before) r after d = ground (
  arith,
  text_iff x.id r.id,
  (Ordered-before (λ a b. a.id ≢ b.id) (x ∷ before) r after d).0,
  update_held owner duration now f before r after d.1,
)

decided_state :
    (f : RelayFailure) (n : ℕ) (random : Fraction)
    → job_state (retry_decision f n random default_retry_policy).state
      ≡ (if leb 10 n || is_final f.category then JobState.dead else JobState.pending)
unfolding retry_decision
decided_state f n random = ground arith

next_of :
    (s : RetryState) (delay : Option ℕ) (now bound : ℕ)
    → ((d : ℕ) → delay ≡ some d → d ≤ bound)
    → (job_state s ≡ JobState.dead)
      ⊎ ((d : ℕ) × (next_attempt s delay now ≡ some d) × (d ≤ now + bound))
next_of dead delay now bound within = inl refl
next_of pending none now bound within = inr (now, refl, omega arith)
next_of pending (some d) now bound within = inr (now + d, refl, omega (arith, within d refl))

-- The row `r` of the inbox became `r'`, and the others stayed.
pub record Became (rows rows' : List (Row InboxColumns))
    (P : Row InboxColumns → Row InboxColumns → Type 0) : Type 0 where
  pub before : List (Row InboxColumns)
  pub r : Row InboxColumns
  pub r' : Row InboxColumns
  pub after : List (Row InboxColumns)
  pub split : rows ≡ before ++ r ∷ after
  pub result : rows' ≡ before ++ r' ∷ after
  pub change : P r r'

module _ (codec : Codec) (o : WorkerOptions) (t : Moment) (handler : InboxHandler)
    (db db' : Database) (job : ClaimedJob) (distinct : Distinct db.inbox_events)
    (taken : (claim_inbox codec db o.instance_id o.claim_duration_ms t.claimed_at).1
      ≡ ok (some job))
    (same_inbox : db'.inbox_events
      ≡ (claim_inbox codec db o.instance_id o.claim_duration_ms t.claimed_at).0.inbox_events) where
  claimed_db : Database
  claimed_db = (claim_inbox codec db o.instance_id o.claim_duration_ms t.claimed_at).0

  round :
      (outcome : Result (Unit {0}))
      → handler claimed_db job ≡ (db', outcome)
      → (process_inbox codec o t handler db).0 ≡ settle_inbox codec o t job (db', outcome)
  unfolding process_inbox claimed_db
  round outcome e = rw (taken, process_inbox) (rw e)

  became :
      (f : Row InboxColumns → Row InboxColumns) (P : Row InboxColumns → Row InboxColumns → Type 0)
      → ((r : Row InboxColumns)
          → job.id ≡ r.id
          → job.attempt_count ≡ r.attempt_count + 1
          → P r (f (claimed o.instance_id o.claim_duration_ms t.claimed_at r)))
      → Became db.inbox_events (update_where (held_by job.id o.instance_id) f db'.inbox_events) P
  became f P change =
      let turn =
        claim_inbox-InTurn codec db o.instance_id o.claim_duration_ms t.claimed_at distinct job
          taken in
      record {
        before = turn.before;
        r = turn.r;
        r' = f (claimed o.instance_id o.claim_duration_ms t.claimed_at turn.r);
        after = turn.after;
        split = turn.split;
        result =
            rw (same_inbox ∙ turn.result, turn.named)
              (update_held o.instance_id o.claim_duration_ms t.claimed_at f turn.before turn.r
                turn.after (subst Distinct turn.split distinct));
        change = change turn.r turn.named turn.counted;
      }

  -- When the handler returns, having left the inbox alone, the claimed event is completed, with its
  -- claim gone, and no other event changes.
  pub process_inbox-completes :
      handler (claim_inbox codec db o.instance_id o.claim_duration_ms t.claimed_at).0 job
        ≡ (db', ok tt)
      → Became db.inbox_events (process_inbox codec o t handler db).0.inbox_events (λ r r'.
        (r.id ≡ job.id)
        × (r'.id ≡ job.id)
        × (r'.state ≡ JobState.completed)
        × (r'.claim_owner ≡ none)
        × (r'.columns.processed_at ≡ some t.reported_at))
  unfolding settle_inbox complete_inbox claimed_db
  process_inbox-completes returned =
      rw (round (ok tt) returned)
        (became (finished t.reported_at) _ (λ r named _. (sym named, sym named, refl, refl, refl)))

  -- When the handler throws, having left the inbox alone, the claimed event gives up its claim and
  -- keeps the error's code. It is dead if this was the tenth attempt or later or the failure is of a
  -- final category; otherwise it waits, fifteen minutes at most. No other event changes.
  pub process_inbox-fails :
      (thrown : Thrown)
      → handler (claim_inbox codec db o.instance_id o.claim_duration_ms t.claimed_at).0 job
        ≡ (db', err thrown)
      → let f = normalize_failure thrown in
        Became db.inbox_events (process_inbox codec o t handler db).0.inbox_events (λ r r'.
          (r.id ≡ job.id)
          × (r'.id ≡ job.id)
          × (r'.claim_owner ≡ none)
          × (r'.last_error_code ≡ some f.code)
          × (r'.attempt_count ≡ r.attempt_count + 1)
          × (r'.state ≡ (
              if leb 10 (r.attempt_count + 1) || is_final f.category
              then JobState.dead
              else JobState.pending))
          × ((r'.state ≡ JobState.dead)
              ⊎ ((d : ℕ) × (r'.next_attempt_at ≡ some d) × (d ≤ t.reported_at + 900000))))
  unfolding settle_inbox fail_inbox fail_claim claimed_db
  process_inbox-fails thrown returned = rw (round (err thrown) returned) (
      became (failed f decision t.reported_at) _ (λ r named counted. (
        sym named,
        sym named,
        refl,
        refl,
        refl,
        rw (← counted) (decided_state f job.attempt_count t.random),
        next_within,
      )))
    where
      f : RelayFailure
      f = normalize_failure thrown

      decision : RetryDecision
      decision = retry_decision f job.attempt_count t.random default_retry_policy

      next_within :
          (job_state decision.state ≡ JobState.dead)
          ⊎ ((d : ℕ) × (next_attempt decision.state decision.delay_ms t.reported_at ≡ some d)
              × (d ≤ t.reported_at + 900000))
      next_within =
          next_of decision.state decision.delay_ms t.reported_at 900000 (λ d e.
            (retry_decision-delay_le f job.attempt_count t.random default_retry_policy d e).0)
