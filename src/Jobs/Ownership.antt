-- ===== src/Jobs/Ownership.antt =====
-- Who may end a claim of the inbox, and what an accepted event leaves for ever.
use forum_relay.Common.{
  ℕ, ◌≡◌, ◌≢◌, refl, sym, subst, ap, String, some, List, [], ◌∷◌, ◌++◌, arith, text_iff, All,
  All-map, update_where_none, count_where, if◌then◌else◌, ◌==◌, string_eq, ℕ_eq, Ordered-before,
}
use forum_relay.Schema.Jobs.{Row, InboxColumns, Database}
use forum_relay.Retry.{RelayFailure, RetryDecision, ok}
use forum_relay.Jobs.{Codec, claimed, held_by, failed, fail_claim}
use forum_relay.Jobs.Claims.{Distinct}
use forum_relay.Jobs.Inbox.{ClaimedJob, claim_inbox, complete_inbox, finished, fail_inbox}
use forum_relay.Jobs.Turns.{claim_inbox-InTurn}

-- No other row has the id.
count_where_absent :
    (id who : String) (rows : List (Row InboxColumns))
    → All (λ x. x.id ≢ id) rows
    → count_where (held_by id who) rows ≡ 0
count_where_absent id who [] h = refl
count_where_absent id who (x ∷ rows) h =
    ground (arith, text_iff x.id id, count_where_absent id who rows)

one_held :
    (owner who : String) (duration now : ℕ) (before : List (Row InboxColumns))
    (r : Row InboxColumns) (after : List (Row InboxColumns))
    → Distinct (before ++ r ∷ after)
    → count_where (held_by r.id who) (before ++ claimed owner duration now r ∷ after)
      ≡ (if owner == who then 1 else 0)
one_held owner who duration now [] r after d = ground (
  arith,
  text_iff r.id r.id,
  count_where_absent r.id who after
      (All-map (λ x. r.id ≢ x.id) (λ x. x.id ≢ r.id) (λ x h e. h (sym e)) after d.0),
)
one_held owner who duration now (x ∷ before) r after d = ground (
  arith,
  text_iff x.id r.id,
  (Ordered-before (λ a b. a.id ≢ b.id) (x ∷ before) r after d).0,
  one_held owner who duration now before r after d.1,
)

module _ (codec : Codec) (db : Database) (owner : String) (duration now : ℕ)
    (distinct : Distinct db.inbox_events) (job : ClaimedJob)
    (taken : (claim_inbox codec db owner duration now).1 ≡ ok (some job)) where
  held :
      (who : String)
      → count_where (held_by job.id who) (claim_inbox codec db owner duration now).0.inbox_events
        ≡ (if owner == who then 1 else 0)
  held who =
      let t = claim_inbox-InTurn codec db owner duration now distinct job taken in
      rw (t.result, t.named)
        (one_held owner who duration now t.before t.r t.after (subst Distinct t.split distinct))

  none_held :
      (who : String)
      → owner ≢ who
      → count_where (held_by job.id who) (claim_inbox codec db owner duration now).0.inbox_events
        ≡ 0
  none_held who other = ground (arith, held who, text_iff owner who)

  -- After a claim, a completion and a failure report of the claimed event are accepted from the
  -- claim's owner, and refused from anyone else.
  pub claim_inbox-owner :
      (who : String) (f : RelayFailure) (decision : RetryDecision) (later : ℕ)
      → let db' = (claim_inbox codec db owner duration now).0 in
        ((complete_inbox db' job.id who later).1 ≡ (owner == who))
        × ((fail_inbox db' job.id who f decision later).1 ≡ (owner == who))
  unfolding complete_inbox fail_inbox fail_claim
  claim_inbox-owner who f decision later = (ground (arith, held who), ground (arith, held who))

  -- A worker that has lost its claim to another, because it ran out and was taken again, changes
  -- nothing when it reports late.
  pub claim_inbox-stale :
      (who : String) (f : RelayFailure) (decision : RetryDecision) (later : ℕ)
      → owner ≢ who
      → let db' = (claim_inbox codec db owner duration now).0 in
        ((complete_inbox db' job.id who later).0 ≡ db')
        × ((fail_inbox db' job.id who f decision later).0 ≡ db')
  unfolding complete_inbox fail_inbox fail_claim
  claim_inbox-stale who f decision later other =
      let db' = (claim_inbox codec db owner duration now).0 in
      let put = λ (rows : List (Row InboxColumns)). record db' { inbox_events = rows } in
      let nothing = none_held who other in
      (
        ap put (update_where_none (held_by job.id who) (finished later) db'.inbox_events nothing),
        ap put (
            update_where_none (held_by job.id who) (failed f decision later) db'.inbox_events
              nothing),
      )
