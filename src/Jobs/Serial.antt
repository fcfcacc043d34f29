-- ===== src/Jobs/Serial.antt =====
-- The inbox over any sequence of calls: its rows stay distinct, and each partition is served in
-- order, one event at a time.
use forum_relay.Common.{
  ℕ, ◌≡◌, ◌≢◌, inl, inr, refl, sym, ◌∙◌, String, Bool, true, false, some, List, [], ◌∷◌, arith,
  text_iff, Bool-cases, All, All-map, Ordered, Ordered-append_one, Ordered-update_where,
  update_where, any, if◌then◌else◌, string_eq,
}
use forum_relay.Schema.Jobs.{Row, InboxColumns}
use forum_relay.Retry.{RelayFailure, RetryDecision}
use forum_relay.Jobs.{Codec, is_open, is_processing, held_by, failed, insert_or_ignore, clashes}
use forum_relay.Jobs.Claims.{Distinct}
use forum_relay.Jobs.Inbox.{finished, redacted_event}

-- `l`, which stands after `e`, is worked on only when `e` is done with.
abbrev pub Serial : Row InboxColumns → Row InboxColumns → Type 0
Serial e l =
    (p : String)
    → e.columns.partition_key ≡ some p
    → l.columns.partition_key ≡ some p
    → is_processing l.state ≡ true
    → is_open e.state ≡ false

abbrev pub Unlike : Row InboxColumns → Row InboxColumns → Type 0
Unlike x y = x.idempotency_key ≢ y.idempotency_key

pub record Inv (rows : List (Row InboxColumns)) : Type 0 where
  pub distinct : Distinct rows
  pub keyed : Ordered Unlike rows
  pub serial : Ordered Serial rows

-- A row as an update leaves it: in its place, no more open and no more at work than before.
pub record Settles (r r' : Row InboxColumns) : Type 0 where
  pub same_id : r'.id ≡ r.id
  pub same_key : r'.idempotency_key ≡ r.idempotency_key
  pub same_partition : r'.columns.partition_key ≡ r.columns.partition_key
  pub stays_closed : is_open r.state ≡ false → is_open r'.state ≡ false
  pub starts_nothing : is_processing r'.state ≡ true → is_processing r.state ≡ true

module _ (p : Row InboxColumns → Bool) (f : Row InboxColumns → Row InboxColumns)
    (settles : (r : Row InboxColumns) → p r ≡ true → Settles r (f r)) where
  Settles-all : (r : Row InboxColumns) → Settles r (if p r then f r else r)
  Settles-all r = elim (Bool-cases (p r)) [
    | inl e ↦ rw e (settles r e)
    | inr e ↦ rw e (record {
      same_id = refl;
      same_key = refl;
      same_partition = refl;
      stays_closed = λ h. h;
      starts_nothing = λ h. h;
    })
  ]

  Settles-Serial :
      {x x' y y' : Row InboxColumns} → Settles x x' → Settles y y' → Serial x y → Serial x' y'
  Settles-Serial a b h q e l w =
      a.stays_closed
        (h q (sym a.same_partition ∙ e) (sym b.same_partition ∙ l) (b.starts_nothing w))

  pub update_where-Inv : (rows : List (Row InboxColumns)) → Inv rows → Inv (update_where p f rows)
  update_where-Inv rows v = record {
    distinct =
        Ordered-update_where (λ x y. x.id ≢ y.id) p f
          (λ x y h e. h (sym (Settles-all x).same_id ∙ e ∙ (Settles-all y).same_id)) rows
          v.distinct;
    keyed =
        Ordered-update_where Unlike p f
          (λ x y h e. h (sym (Settles-all x).same_key ∙ e ∙ (Settles-all y).same_key)) rows v.keyed;
    serial =
        Ordered-update_where Serial p f (λ x y. Settles-Serial (Settles-all x) (Settles-all y)) rows
          v.serial;
  }

pub finished-Settles :
    (id owner : String) (now : ℕ) (r : Row InboxColumns)
    → held_by id owner r ≡ true
    → Settles r (finished now r)
finished-Settles id owner now r h = ground arith

pub failed-Settles :
    (id owner : String) (f : RelayFailure) (d : RetryDecision) (now : ℕ) (r : Row InboxColumns)
    → held_by id owner r ≡ true
    → Settles r (failed f d now r)
failed-Settles id owner f d now r h = ground arith

pub redacted-Settles :
    (codec : Codec) (now : ℕ) (r : Row InboxColumns) → Settles r (redacted_event codec now r)
redacted-Settles codec now r = ground arith

not-clashes :
    (new : Row InboxColumns) (rows : List (Row InboxColumns))
    → any (clashes new) rows ≡ false
    → All (λ x. (x.id ≢ new.id) × (x.idempotency_key ≢ new.idempotency_key)) rows
not-clashes new [] h = tt
not-clashes new (x ∷ rows) h = ground (
  arith,
  text_iff x.id new.id,
  text_iff x.idempotency_key new.idempotency_key,
  not-clashes new rows,
)

idle-Serial :
    (new : Row InboxColumns) (rows : List (Row InboxColumns))
    → is_processing new.state ≡ false
    → All (λ x. Serial x new) rows
idle-Serial new [] h = tt
idle-Serial new (x ∷ rows) h = ((λ p e l w. absurd (ground arith)), idle-Serial new rows h)

pub insert-Inv :
    (new : Row InboxColumns) (rows : List (Row InboxColumns))
    → is_processing new.state ≡ false
    → Inv rows
    → Inv (insert_or_ignore new rows).0
unfolding insert_or_ignore
insert-Inv new rows idle v = elim (Bool-cases (any (clashes new) rows)) [
  | inl e ↦ rw e v
  | inr e ↦
      let apart = not-clashes new rows e in
      rw e (record {
        distinct =
            Ordered-append_one (λ x y. x.id ≢ y.id) rows new v.distinct
              (All-map _ (λ x. x.id ≢ new.id) (λ x h. h.0) rows apart);
        keyed =
            Ordered-append_one Unlike rows new v.keyed
              (All-map _ (λ x. Unlike x new) (λ x h. h.1) rows apart);
        serial = Ordered-append_one Serial rows new v.serial (idle-Serial new rows idle);
      })
]
