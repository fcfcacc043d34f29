-- ===== src/Jobs/Turns.antt =====
-- Which event a claim of the inbox takes, and that it takes one when it can.
use forum_relay.Common.{
  ℕ, ◌+◌, ◌≡◌, ◌≢◌, inl, inr, refl, sym, ◌∙◌, subst, ap, String, Bool, true, false, Option, none,
  some, List, [], ◌∷◌, ◌++◌, arith, text_iff, Bool-cases, Option-cases, All, any, ◌==◌, string_eq,
  ◌&&◌,
}
use forum_relay.Schema.Jobs.{Row, InboxColumns, Mapping, Database}
use forum_relay.Retry.{ok}
use forum_relay.Jobs.{Codec, first_claimable, claimed, is_open, may_start, column_is}
use forum_relay.Jobs.First.{AllFail, AllFail-split, first_claimable-none}
use forum_relay.Jobs.Claims.{Distinct, claim_first-some, claim_first-none}
use forum_relay.Jobs.Inbox.{
  ClaimedJob, mapping_allows, inbox_claimable, inbox_blocks, to_claimed_job, claimed_job,
  claim_inbox,
}
use forum_relay.Jobs.Order.{IsBehind, claimable_parts, not-blocks→IsBehind}

-- A claim that changed `rows` to `rows'` and returned `job` took the row `r` in its turn.
pub record InTurn (mappings : List Mapping) (owner : String) (duration now : ℕ)
    (rows rows' : List (Row InboxColumns)) (job : ClaimedJob) : Type 0 where
  pub before : List (Row InboxColumns)
  pub r : Row InboxColumns
  pub after : List (Row InboxColumns)
  pub split : rows ≡ before ++ r ∷ after
  pub result : rows' ≡ before ++ claimed owner duration now r ∷ after
  pub named : job.id ≡ r.id
  pub counted : job.attempt_count ≡ r.attempt_count + 1
  pub due : may_start r.state r.next_attempt_at r.claim_expires_at now ≡ true
  pub allowed : mapping_allows r.columns.mapping_key mappings ≡ true
  pub in_order : All (IsBehind r) before
  pub none_before : AllFail (inbox_claimable mappings now) [] before

claimed_job-some :
    (codec : Codec) (r : Row InboxColumns) (job : ClaimedJob)
    → claimed_job codec (some r) ≡ ok (some job)
    → (job.id ≡ r.id)
      × (job.attempt_count ≡ r.attempt_count)
      × (codec.parse r.payload_json ≡ some job.payload)
unfolding to_claimed_job
claimed_job-some codec r job h = ground arith

claimed_job-ne-none : (codec : Codec) (r : Row InboxColumns) → claimed_job codec (some r) ≢ ok none
unfolding to_claimed_job
claimed_job-ne-none codec r h = ground arith

not-blocks_one :
    (q : Option String) (p : String) (open_row : Bool)
    → (q ≡ some p → open_row ≡ false)
    → (column_is q p && open_row) ≡ false
not-blocks_one none p open_row h = refl
not-blocks_one (some q) p open_row h = elim (Bool-cases (q == p)) [
  | inl e ↦ rw e (h (ap some ((text_iff q p).0 e)))
  | inr e ↦ rw e refl
]

IsBehind→not-blocks :
    (r : Row InboxColumns) (rows : List (Row InboxColumns))
    → All (IsBehind r) rows
    → any (inbox_blocks r.columns.partition_key) rows ≡ false
IsBehind→not-blocks r rows h = go r.columns.partition_key refl rows h
  where
    go :
        (q : Option String)
        → r.columns.partition_key ≡ q
        → (rows : List (Row InboxColumns)) → All (IsBehind r) rows
        → any (inbox_blocks q) rows ≡ false
    go q i [] h = refl
    go none i (e ∷ rows) h = go none i rows h.1
    go (some p) i (e ∷ rows) h =
        rw (not-blocks_one e.columns.partition_key p (is_open e.state) (h.0 p i))
          (go (some p) i rows h.1)

module _ (codec : Codec) (db : Database) (owner : String) (duration now : ℕ) where
  test : List (Row InboxColumns) → Row InboxColumns → Bool
  test = inbox_claimable db.mappings now

  took :
      (o : Option (Row InboxColumns))
      → first_claimable test [] db.inbox_events ≡ o
      → Distinct db.inbox_events
      → (job : ClaimedJob) → (claim_inbox codec db owner duration now).1 ≡ ok (some job)
      → InTurn db.mappings owner duration now db.inbox_events
          (claim_inbox codec db owner duration now).0.inbox_events
          job
  unfolding claim_inbox test
  took none e d job h =
      let idle =
        ap (λ x. claimed_job codec x.1)
          (claim_first-none test owner duration now db.inbox_events e) in
      cc (sym idle ∙ h)
  took (some r) e d job h =
      let (t, returned) = claim_first-some test owner duration now db.inbox_events r d e in
      let (named, counted, _) =
        claimed_job-some codec (claimed owner duration now r) job
          (sym (ap (claimed_job codec) returned) ∙ h) in
      let (due, allowed, free) =
        claimable_parts db.mappings owner duration now t.before r t.passes in
      record {
        before = t.before;
        r = r;
        after = t.after;
        split = t.split;
        result = t.result;
        named = named;
        counted = counted;
        due = due;
        allowed = allowed;
        in_order = not-blocks→IsBehind r t.before free;
        none_before = t.none_before;
      }

  -- A claim that returns an event has taken one that is due, of a mapping that takes part, with
  -- every earlier event of its partition completed or dead, and the first such; that row alone
  -- changes, and counts one more attempt. (Ids are distinct, as they are in every inbox.)
  pub claim_inbox-InTurn :
      Distinct db.inbox_events
      → (job : ClaimedJob) → (claim_inbox codec db owner duration now).1 ≡ ok (some job)
      → InTurn db.mappings owner duration now db.inbox_events
          (claim_inbox codec db owner duration now).0.inbox_events
          job
  claim_inbox-InTurn d job h = took (first_claimable test [] db.inbox_events) refl d job h

  -- While an event is due, of a mapping that takes part, with every earlier event of its partition
  -- completed or dead, a claim does not come back empty.
  pub claim_inbox_progress :
      (before : List (Row InboxColumns)) (r : Row InboxColumns) (after : List (Row InboxColumns))
      → Distinct db.inbox_events
      → db.inbox_events ≡ before ++ r ∷ after
      → may_start r.state r.next_attempt_at r.claim_expires_at now ≡ true
      → mapping_allows r.columns.mapping_key db.mappings ≡ true
      → All (IsBehind r) before
      → (claim_inbox codec db owner duration now).1 ≢ ok none
  unfolding claim_inbox test
  claim_inbox_progress before r after d split due allowed behind h =
      elim (Option-cases (first_claimable test [] db.inbox_events)) [
        | inl e ↦
            let fails =
              AllFail-split test [] before r after
                (subst (AllFail test []) split (first_claimable-none test [] db.inbox_events e)) in
            ground (arith, IsBehind→not-blocks r before behind)
        | inr (x, e) ↦ claimed_job-ne-none codec (claimed owner duration now x) (
            sym (
              ap (claimed_job codec)
                (claim_first-some test owner duration now db.inbox_events x d e).1)
            ∙ h)
      ]
