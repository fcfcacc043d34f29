-- ===== src/Retry/Attempts.antt =====
-- jobs/retry-policy.ts: how often a job is tried.
use forum_relay.Common.{
  ℕ, zero, suc, ◌+◌, ◌-◌, ◌≤◌, ◌<◌, ◌≡◌, ◌⊎◌, inl, inr, refl, subst, true, false, leb, arith,
  Bool-cases,
}
use forum_relay.Retry.{
  FailureCategory, authentication, conflict, invalid, not_found, rate_limit, temporary,
  RelayFailure, RetryPolicy, Fraction, dead, pending, is_final, retry_decision,
}

-- What another attempt cannot mend.
abbrev pub IsHopeless : FailureCategory → Type 0
IsHopeless c = (c ≡ authentication) ⊎ (c ≡ invalid) ⊎ (c ≡ not_found)

-- What may pass by itself.
abbrev pub MayPass : FailureCategory → Type 0
MayPass c = (c ≡ conflict) ⊎ (c ≡ rate_limit) ⊎ (c ≡ temporary)

is_final-cases :
    (c : FailureCategory)
    → ((is_final c ≡ true) × IsHopeless c) ⊎ ((is_final c ≡ false) × MayPass c)
is_final-cases authentication = inl (refl, inl refl)
is_final-cases conflict = inr (refl, inl refl)
is_final-cases invalid = inl (refl, inr (inl refl))
is_final-cases not_found = inl (refl, inr (inr refl))
is_final-cases rate_limit = inr (refl, inr (inl refl))
is_final-cases temporary = inr (refl, inr (inr refl))

module _ (failed : ℕ → RelayFailure) (random : ℕ → Fraction) (policy : RetryPolicy) where
  -- The attempts of these numbers are followed by another one.
  abbrev pub GoesOn : ℕ → Type 0
  GoesOn n =
      (m : ℕ)
      → 1 ≤ m
      → m < n
      → ((retry_decision (failed m) m (random m) policy).state ≡ pending)
        × MayPass (failed m).category

  -- The attempt of this number is the last.
  abbrev pub IsLast : ℕ → Type 0
  IsLast n =
      ((retry_decision (failed n) n (random n) policy).state ≡ dead)
      × ((n ≡ policy.max_attempts) ⊎ IsHopeless (failed n).category)

  decided :
      (n : ℕ)
      → n ≤ policy.max_attempts
      → IsLast n
        ⊎ ((n < policy.max_attempts)
            × ((retry_decision (failed n) n (random n) policy).state ≡ pending)
            × MayPass (failed n).category)
  unfolding retry_decision
  decided n h = elim (is_final-cases (failed n).category) [
    | inl (final, hopeless) ↦ inl (ground (arith, final), inr hopeless)
    | inr (passing, may) ↦ elim (Bool-cases (leb policy.max_attempts n)) [
      | inl e ↦ inl (ground (arith, e), inl (ground (arith, e, h)))
      | inr e ↦ inr (ground (arith, e), ground (arith, e, passing), may)
    ]
  ]

  one_more :
      (n : ℕ)
      → (retry_decision (failed n) n (random n) policy).state ≡ pending
      → MayPass (failed n).category
      → GoesOn n
      → GoesOn (suc n)
  one_more n p q before m a b = elim (Bool-cases (leb n m)) [
    | inr e ↦ before m a (ground (arith, e))
    | inl e ↦
        let same : n ≡ m = ground (arith, e, b) in
        subst
          (λ k.
            ((retry_decision (failed k) k (random k) policy).state ≡ pending)
            × MayPass (failed k).category)
          same (p, q)
  ]

  -- The search for the last attempt, with the number of attempts that are left.
  search_last :
      (left n : ℕ)
      → 1 ≤ n
      → n + left ≡ policy.max_attempts
      → GoesOn n
      → (l : ℕ) × (1 ≤ l) × (l ≤ policy.max_attempts) × IsLast l × GoesOn l
  search_last zero n a e before = elim (decided n (omega arith)) [
    | inl last ↦ (n, a, omega arith, last, before)
    | inr (more, p, q) ↦ absurd (omega arith)
  ]
  search_last (suc left) n a e before = elim (decided n (omega arith)) [
    | inl last ↦ (n, a, omega arith, last, before)
    | inr (more, p, q) ↦
        search_last left (suc n) (omega arith) (omega arith) (one_more n p q before)
  ]

-- Whatever the failure and the random number of each attempt, when the policy allows an attempt, some
-- attempt is the last, and its number is at most the maximum: it is given up, since the maximum is
-- reached or its failure is one of authentication, of an invalid request or of something that is not found;
-- and each attempt before it is followed by another, since its failure is a conflict, a rate limit or
-- temporary.
pub retry_decision-ends :
    (failed : ℕ → RelayFailure) (random : ℕ → Fraction) (policy : RetryPolicy)
    → 1 ≤ policy.max_attempts
    → (l : ℕ) × (1 ≤ l)
      × (l ≤ policy.max_attempts)
      × IsLast failed random policy l
      × GoesOn failed random policy l
retry_decision-ends failed random policy h =
    search_last failed random policy (policy.max_attempts - 1) 1 (omega arith) (omega arith)
      (λ m a b. absurd (omega arith))
