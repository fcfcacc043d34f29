-- ===== src/Lease/Waiting.antt =====
-- `acquireEventually`: the loop ends, and how.
use forum_relay.Common.{
  ℕ, zero, suc, ◌+◌, ◌≤◌, ◌<◌, ◌≡◌, ◌⊎◌, inl, inr, Bool, true, false, some, arith, leb, leb→le,
  le→leb, refl, sym, subst, Bool-cases,
}
use forum_relay.Lease.{acquire_eventually}

eq_or_later : (i k : ℕ) → i ≤ k → (i ≡ k) ⊎ (suc i ≤ k)
eq_or_later i k h = ground arith

-- The clock moves on from one poll to the next, since the loop sleeps between them.
module _ (won : ℕ → Bool) (clock : ℕ → ℕ) (deadline : ℕ)
    (moves : (i : ℕ) → clock i < clock (suc i)) where
  -- From the attempt `i`: the first attempt that wins, each one before it made before the deadline;
  -- or an attempt that ends at the deadline or later, when it and each one before it failed.
  abbrev pub IsOutcome : ℕ → Bool → Type 0
  IsOutcome i true =
      (n : ℕ) × (i ≤ n)
      × (won n ≡ true)
      × ((k : ℕ) → i ≤ k → k < n → (won k ≡ false) × (clock k < deadline))
  IsOutcome i false =
      (n : ℕ) × (i ≤ n) × (deadline ≤ clock n) × ((k : ℕ) → i ≤ k → k ≤ n → won k ≡ false)

  won_now : (i : ℕ) → won i ≡ true → IsOutcome i true
  won_now i w = (i, omega arith, w, λ k a b. ground arith)

  at_deadline : (i : ℕ) → won i ≡ false → deadline ≤ clock i → IsOutcome i false
  at_deadline i w d = (i, omega arith, d, λ k a b. subst (λ k. won k ≡ false) (omega arith) w)

  one_earlier :
      (i : ℕ)
      → won i ≡ false
      → clock i < deadline
      → (b : Bool) → IsOutcome (suc i) b
      → IsOutcome i b
  one_earlier i w d true (n, le, wn, before) = (
    n,
    omega arith,
    wn,
    λ k a b. elim (eq_or_later i k a) [ inl e ↦ rw (sym e) (w, d) | inr l ↦ before k l b ],
  )
  one_earlier i w d false (n, le, dn, before) = (
    n,
    omega arith,
    dn,
    λ k a b. elim (eq_or_later i k a) [ inl e ↦ rw (sym e) w | inr l ↦ before k l b ],
  )

  -- The loop ends with an outcome, given fuel for as many polls as milliseconds remain: if it returns
  -- true, at the first attempt that wins, which no attempt at or after the deadline precedes; if it
  -- returns false, the deadline has passed and each attempt failed.
  pub acquire_eventually-ends :
      (fuel i : ℕ)
      → deadline ≤ clock i + fuel
      → (b : Bool) × (acquire_eventually won clock deadline (suc fuel) i ≡ some b) × IsOutcome i b
  unfolding acquire_eventually
  acquire_eventually-ends zero i enough = elim (Bool-cases (won i)) [
    | inl w ↦ (true, rw w refl, won_now i w)
    | inr w ↦
        let d : deadline ≤ clock i = omega (arith, enough) in
        (false, rw (w, le→leb deadline (clock i) d) refl, at_deadline i w d)
  ]
  acquire_eventually-ends (suc fuel) i enough = elim (Bool-cases (won i)) [
    | inl w ↦ (true, rw w refl, won_now i w)
    | inr w ↦ elim (Bool-cases (leb deadline (clock i))) [
      | inl d ↦ (false, rw (w, d) refl, at_deadline i w (leb→le deadline (clock i) d))
      | inr d ↦
          let (b, e, o) = acquire_eventually-ends fuel (suc i) (omega (arith, moves i)) in
          (b, rw (w, d) e, one_earlier i w (ground arith) b o)
    ]
  ]
