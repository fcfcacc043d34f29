-- ===== src/Jobs/Ready.antt =====
-- Which operation a claim of the outbox takes.
use forum_relay.Common.{
  ℕ, ◌+◌, ◌≡◌, refl, sym, ◌∙◌, ap, String, Bool, true, false, not, Option, none, some, List, [],
  ◌∷◌, ◌++◌, arith, text_iff, All, All-map, any, not-any→All, ◌==◌, string_eq, ◌&&◌,
}
use forum_relay.Schema.Jobs.{Row, OutboxColumns, Dependency, Database}
use forum_relay.Retry.{ok}
use forum_relay.Jobs.{
  Codec, first_claimable, claimed, is_open, is_completed, may_start, mapping_runs,
}
use forum_relay.Jobs.Claims.{Distinct, claim_first-some, claim_first-none}
use forum_relay.Jobs.Outbox.{
  ClaimedOperation, is_unmet, is_thread_waiter, outbox_blocks, outbox_claimable,
  to_claimed_operation, claimed_operation, claim_outbox,
}

-- Everything that the operation with this id waits for is completed.
abbrev pub AllMet : String → List (Row OutboxColumns) → List Dependency → Type 0
AllMet id operations = All (λ d.
    d.operation_id ≡ id
    → All (λ p. p.id ≡ d.depends_on_operation_id → is_completed p.state ≡ true) operations)

-- An earlier open operation of the partition is one that the creation of the thread may pass.
abbrev pub GivesWay : List (Row OutboxColumns) → Row OutboxColumns → Row OutboxColumns → Type 0
GivesWay before r e =
    e.columns.partition_key ≡ r.columns.partition_key
    → is_open e.state ≡ true
    → (r.columns.operation_kind ≡ "discord.item.sync")
      × (e.columns.operation_kind ≡ "discord.issue.lifecycle")
      × (any (is_thread_waiter r.columns.partition_key) before ≡ true)

-- A claim that changed the operations of `db` to `rows'` and returned `operation` took a ready one.
pub record IsReady (db : Database) (owner : String) (duration now : ℕ)
    (rows' : List (Row OutboxColumns)) (operation : ClaimedOperation) : Type 0 where
  pub before : List (Row OutboxColumns)
  pub r : Row OutboxColumns
  pub after : List (Row OutboxColumns)
  pub split : db.outbox_operations ≡ before ++ r ∷ after
  pub result : rows' ≡ before ++ claimed owner duration now r ∷ after
  pub named : operation.id ≡ r.id
  pub counted : operation.attempt_count ≡ r.attempt_count + 1
  pub due : may_start r.state r.next_attempt_at r.claim_expires_at now ≡ true
  pub runs : mapping_runs r.columns.mapping_key db.mappings ≡ true
  pub met : AllMet operation.id db.outbox_operations db.operation_dependencies
  pub in_order : All (GivesWay before r) before

not-unmet→AllMet :
    (id : String) (operations : List (Row OutboxColumns)) (ds : List Dependency)
    → any (is_unmet id operations) ds ≡ false
    → AllMet id operations ds
not-unmet→AllMet id operations ds h =
    All-map (λ d. is_unmet id operations d ≡ false) _
      (λ d u same.
        All-map (λ p. (p.id == d.depends_on_operation_id && not (is_completed p.state)) ≡ false) _
          (λ p v named. ground (arith, text_iff p.id d.depends_on_operation_id)) operations
          (not-any→All _ operations (ground (arith, text_iff d.operation_id id))))
      ds (not-any→All (is_unmet id operations) ds h)

not-blocks→GivesWay :
    (r : Row OutboxColumns) (before rows : List (Row OutboxColumns))
    → any (outbox_blocks r before) rows ≡ false
    → All (GivesWay before r) rows
not-blocks→GivesWay r before rows h =
    All-map (λ e. outbox_blocks r before e ≡ false) (GivesWay before r)
      (λ e b same opened. ground (
        arith,
        text_iff e.columns.partition_key r.columns.partition_key,
        text_iff r.columns.operation_kind "discord.item.sync",
        text_iff e.columns.operation_kind "discord.issue.lifecycle",
      ))
      rows (not-any→All (outbox_blocks r before) rows h)

claimable_parts :
    (db : Database) (now : ℕ) (before : List (Row OutboxColumns)) (r : Row OutboxColumns)
    → outbox_claimable db now before r ≡ true
    → (may_start r.state r.next_attempt_at r.claim_expires_at now ≡ true)
      × (mapping_runs r.columns.mapping_key db.mappings ≡ true)
      × (any (is_unmet r.id db.outbox_operations) db.operation_dependencies ≡ false)
      × (any (outbox_blocks r before) before ≡ false)
claimable_parts db now before r h = ground arith

claimed_operation-some :
    (codec : Codec) (r : Row OutboxColumns) (operation : ClaimedOperation)
    → claimed_operation codec (some r) ≡ ok (some operation)
    → (operation.id ≡ r.id) × (operation.attempt_count ≡ r.attempt_count)
unfolding to_claimed_operation
claimed_operation-some codec r operation h = ground arith

module _ (codec : Codec) (db : Database) (owner : String) (duration now : ℕ) where
  test : List (Row OutboxColumns) → Row OutboxColumns → Bool
  test = outbox_claimable db now

  took :
      (o : Option (Row OutboxColumns))
      → first_claimable test [] db.outbox_operations ≡ o
      → Distinct db.outbox_operations
      → (operation : ClaimedOperation)
      → (claim_outbox codec db owner duration now).1 ≡ ok (some operation)
      → IsReady db owner duration now
          (claim_outbox codec db owner duration now).0.outbox_operations
          operation
  unfolding claim_outbox test
  took none e d operation h =
      let idle =
        ap (λ x. claimed_operation codec x.1)
          (claim_first-none test owner duration now db.outbox_operations e) in
      cc (sym idle ∙ h)
  took (some r) e d operation h =
      let (t, returned) = claim_first-some test owner duration now db.outbox_operations r d e in
      let (named, counted) =
        claimed_operation-some codec (claimed owner duration now r) operation
          (sym (ap (claimed_operation codec) returned) ∙ h) in
      let (due, runs, met, free) = claimable_parts db now t.before r t.passes in
      record {
        before = t.before;
        r = r;
        after = t.after;
        split = t.split;
        result = t.result;
        named = named;
        counted = counted;
        due = due;
        runs = runs;
        met = rw named (not-unmet→AllMet r.id db.outbox_operations db.operation_dependencies met);
        in_order = not-blocks→GivesWay r t.before t.before free;
      }

  -- A claim that returns an operation has taken one that is due, of a mapping that takes part, with
  -- every operation that it depends on completed; an earlier operation of its partition is open
  -- only if this one creates the thread that a lifecycle operation before it waits for, and the
  -- earlier one is a lifecycle operation too. That row alone changes, and counts one more attempt.
  -- (Ids are distinct, as they are in every outbox.)
  pub claim_outbox-IsReady :
      Distinct db.outbox_operations
      → (operation : ClaimedOperation)
      → (claim_outbox codec db owner duration now).1 ≡ ok (some operation)
      → IsReady db owner duration now
          (claim_outbox codec db owner duration now).0.outbox_operations
          operation
  claim_outbox-IsReady d operation h =
      took (first_claimable test [] db.outbox_operations) refl d operation h
