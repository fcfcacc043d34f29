-- ===== src/Audit/Attempts.antt =====
-- How often a job of the audit classifier is tried.
use forum_relay.Common.{
  ℕ, ◌+◌, ◌≤◌, ◌≡◌, ◌≢◌, ◌⊎◌, inl, inr, refl, subst, sym, String, Bool, true, false, List, [], ◌∷◌,
  none, some, string_eq, leb, if◌then◌else◌, update_where, All, All-map, Ordered,
  Ordered-update_where, arith, text_iff, Bool-cases, Option-cases,
}
use forum_relay.Retry.{Result, ok, err}
use forum_relay.Audit.{
  AuditRow, AuditState, is_pending, has_id, earliest, claimed, claim, complete, retry,
}
use forum_relay.Audit.Classify.{
  Lifecycle, Verdict, enqueue, complete_as, settle, after_claim, tick, inserted_by,
}

-- No two rows have one id.
abbrev pub Unlike : AuditRow → AuditRow → Type 0
Unlike a b = a.id ≢ b.id

-- A job is tried at most five times, and one that waits has been tried at most four times.
abbrev pub IsBounded : AuditRow → Type 0
IsBounded r = (r.attempt_count ≤ 5) × ((r.state ≢ AuditState.pending) ⊎ (r.attempt_count ≤ 4))

earliest_source :
    (now : ℕ) (x : AuditRow) (xs : List AuditRow) (r : AuditRow)
    → earliest now (x ∷ xs) ≡ some r
    → ((r ≡ x) × (is_pending x ≡ true)) ⊎ (earliest now xs ≡ some r)
unfolding earliest
earliest_source now x xs r e = elim (Option-cases (earliest now xs)) [
  | inl n ↦ ground (arith, n, e)
  | inr (s, n) ↦ ground (arith, n, e)
]

earliest-All :
    (P : AuditRow → Type 0) (now : ℕ) (rows : List AuditRow) (r : AuditRow)
    → All P rows
    → earliest now rows ≡ some r
    → P r × (is_pending r ≡ true)
unfolding earliest
earliest-All P now [] r h e = absurd (ground (arith, e))
earliest-All P now (x ∷ xs) r h e = elim (earliest_source now x xs r e) [
  | inl (same, p) ↦ subst (λ y. P y × (is_pending y ≡ true)) (sym same) (h.0, p)
  | inr later ↦ earliest-All P now xs r h.1 later
]

-- The row that is claimed is the only one of its id.
abbrev IsOnly : AuditRow → AuditRow → Type 0
IsOnly r y = (y.id ≢ r.id) ⊎ (y ≡ r)

others_differ : (x : AuditRow) (ys : List AuditRow) → All (Unlike x) ys → All (IsOnly x) ys
others_differ x ys = All-map (Unlike x) (IsOnly x) (λ y u. inl (λ e. u (sym e))) ys

earliest-IsOnly :
    (now : ℕ) (rows : List AuditRow) (r : AuditRow)
    → Ordered Unlike rows
    → earliest now rows ≡ some r
    → All (IsOnly r) rows
earliest-IsOnly now [] r o e = tt
earliest-IsOnly now (x ∷ xs) r o e = elim (earliest_source now x xs r e) [
  | inl (same, _) ↦
      subst (λ y. All (IsOnly y) (x ∷ xs)) (sym same) (inr refl, others_differ x xs o.0)
  | inr later ↦
      (inl (earliest-All (Unlike x) now xs r o.0 later).0, earliest-IsOnly now xs r o.1 later)
]

update_where-keeps :
    (id : String) (f : AuditRow → AuditRow)
    → ((r : AuditRow) → (f r).id ≡ r.id)
    → (rows : List AuditRow) → Ordered Unlike rows
    → Ordered Unlike (update_where (has_id id) f rows)
update_where-keeps id f same =
    Ordered-update_where Unlike (has_id id) f (λ x y u. ground (arith, same x, same y))

-- While `job` is worked on: the rows are bounded, and those of its id were tried as often.
abbrev IsClaimed : AuditRow → AuditRow → Type 0
IsClaimed job r = IsBounded r × ((r.id ≢ job.id) ⊎ (r.attempt_count ≡ job.attempt_count))

is_pending-state :
    (s : AuditState)
    → elim s [ AuditState.pending ↦ true | _ ↦ false ] ≡ true
    → s ≡ AuditState.pending
is_pending-state AuditState.pending h = refl
is_pending-state AuditState.processing h = cc
is_pending-state AuditState.completed h = cc

claimed-IsClaimed :
    (now : ℕ) (r : AuditRow)
    → is_pending r ≡ true
    → IsBounded r
    → IsClaimed (claimed now r) (if has_id r.id r then claimed now r else r)
claimed-IsClaimed now r p b =
    rw ((text_iff r.id r.id).1 refl) (ground (arith, is_pending-state r.state p, b))

claim-IsClaimed :
    (now : ℕ) (r : AuditRow) (rows : List AuditRow)
    → is_pending r ≡ true
    → All IsBounded rows
    → All (IsOnly r) rows
    → All (IsClaimed (claimed now r)) (update_where (has_id r.id) (claimed now) rows)
claim-IsClaimed now r [] p b o = tt
claim-IsClaimed now r (x ∷ xs) p b o = (
  elim o.0 [
    | inl other ↦ ground (arith, text_iff x.id r.id, b.0)
    | inr same ↦
        subst (λ y. IsClaimed (claimed now r) (if has_id r.id y then claimed now y else y))
          (sym same) (claimed-IsClaimed now r p (subst IsBounded same b.0))
  ],
  claim-IsClaimed now r xs p b.1 o.1,
)

complete-IsBounded :
    (job : AuditRow) (c : String) (now : ℕ) (rows : List AuditRow)
    → All (IsClaimed job) rows
    → All IsBounded (complete job c now rows)
unfolding complete
complete-IsBounded job c now [] h = tt
complete-IsBounded job c now (x ∷ xs) h =
    (ground (arith, text_iff x.id job.id, h.0), complete-IsBounded job c now xs h.1)

retry-IsBounded :
    (job : AuditRow) (c : String) (now : ℕ) (rows : List AuditRow)
    → All (IsClaimed job) rows
    → All IsBounded (retry job c now rows)
unfolding retry
retry-IsBounded job c now rows h = elim (Bool-cases (leb 5 job.attempt_count)) [
  | inl e ↦ rw (e, retry) (complete-IsBounded job "AMBIGUOUS" now rows h)
  | inr e ↦ rw (e, retry) (All-update (ground (arith, e)) rows h)
]
  where
    All-update :
        job.attempt_count ≤ 4
        → (rows : List AuditRow) → All (IsClaimed job) rows
        → All IsBounded (
            update_where
              (has_id job.id)
              (λ r. record r {
                state = AuditState.pending;
                classification = some c;
                next_attempt_at = now + 2000;
                updated_at = now;
              })
              rows)
    All-update few [] h = tt
    All-update few (x ∷ xs) h = (ground (arith, text_iff x.id job.id, h.0), All-update few xs h.1)

-- The rows have different ids, and each is bounded.
abbrev pub Inv : List AuditRow → Type 0
Inv rows = Ordered Unlike rows × All IsBounded rows

complete-Inv :
    (job : AuditRow) (c : String) (now : ℕ) (rows : List AuditRow)
    → Ordered Unlike rows
    → All (IsClaimed job) rows
    → Inv (complete job c now rows)
unfolding complete
complete-Inv job c now rows o h = (ordered, complete-IsBounded job c now rows h)
  where
    ordered : Ordered Unlike (complete job c now rows)
    ordered =
        (update_where-keeps job.id
          (λ r. record r {
            state = AuditState.completed;
            classification = some c;
            updated_at = now;
          })
          (λ r. refl) rows o)

retry-Inv :
    (job : AuditRow) (c : String) (now : ℕ) (rows : List AuditRow)
    → Ordered Unlike rows
    → All (IsClaimed job) rows
    → Inv (retry job c now rows)
unfolding retry complete
retry-Inv job c now rows o h =
    (ordered (leb 5 job.attempt_count) refl, retry-IsBounded job c now rows h)
  where
    ordered : (b : Bool) → leb 5 job.attempt_count ≡ b → Ordered Unlike (retry job c now rows)
    ordered true e = rw (e, retry) (complete-Inv job "AMBIGUOUS" now rows o h).0
    ordered false e =
        rw (e, retry)
          (update_where-keeps job.id
            (λ r. record r {
              state = AuditState.pending;
              classification = some c;
              next_attempt_at = now + 2000;
              updated_at = now;
            })
            (λ r. refl) rows o)

settle-Inv :
    (upper : String → String) (verdict : Result Verdict) (inserted : Bool) (job : AuditRow)
    (now : ℕ) (rows : List AuditRow)
    → Ordered Unlike rows
    → All (IsClaimed job) rows
    → Inv (settle upper verdict inserted job now rows)
unfolding settle
settle-Inv upper (err e) inserted job now rows o h = retry-Inv job "AUDIT_QUERY_FAILED" now rows o h
settle-Inv upper (ok (complete_as c)) inserted job now rows o h = complete-Inv job c now rows o h
settle-Inv upper (ok (Verdict.retry_as c)) inserted job now rows o h = retry-Inv job c now rows o h
settle-Inv upper (ok (enqueue op)) inserted job now rows o h = complete-Inv job _ now rows o h

claim-none :
    (now : ℕ) (rows : List AuditRow) → earliest now rows ≡ none → claim now rows ≡ (none, rows)
unfolding claim
claim-none now rows e = rw (e, claim) refl

claim-some :
    (now : ℕ) (rows : List AuditRow) (r : AuditRow)
    → earliest now rows ≡ some r
    → claim now rows ≡ (some (claimed now r), update_where (has_id r.id) (claimed now) rows)
unfolding claim
claim-some now rows r e = rw (e, claim) refl

-- Whatever the audit log says and whatever fails, a tick keeps it so that no job is tried more than five
-- times, and that a job that waits for another try has been tried at most four times.
pub tick-Inv :
    (upper : String → String) (verdict : AuditRow → Result Verdict) (insert : Lifecycle → Bool)
    (now later : ℕ) (rows : List AuditRow)
    → Inv rows
    → Inv (tick upper verdict insert now later rows)
unfolding tick after_claim
tick-Inv upper verdict insert now later rows v = elim (Option-cases (earliest now rows)) [
  | inl e ↦
      subst (λ c. Inv (after_claim upper verdict insert later c)) (sym (claim-none now rows e)) v
  | inr (r, e) ↦
      subst (λ c. Inv (after_claim upper verdict insert later c)) (sym (claim-some now rows r e))
        (settle-Inv upper (verdict (claimed now r)) (inserted_by insert (verdict (claimed now r)))
          (claimed now r) later (update_where (has_id r.id) (claimed now) rows)
          (update_where-keeps r.id (claimed now) (λ x. refl) rows v.0)
          (claim-IsClaimed now r rows (earliest-All IsBounded now rows r v.1 e).1 v.1
            (earliest-IsOnly now rows r v.0 e)))
]
