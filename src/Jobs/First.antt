-- ===== src/Jobs/First.antt =====
-- The row that a claim takes: the first that passes the test, each against the rows before it.
use forum_relay.Common.{
  ◌≡◌, ap, subst, inl, inr, Bool, true, false, none, some, List, [], ◌∷◌, ◌++◌, arith, Bool-cases,
}
use mathlib.Core.List.{append_assoc, append-nil}
use forum_relay.Jobs.{first_claimable}

module _ {ℓ} {A : Type ℓ} (test : List A → A → Bool) where
  -- Every row of a stretch fails the test, each against all that stands before it.
  abbrev pub AllFail : List A → List A → Type 0
  AllFail earlier [] = Unit
  AllFail earlier (r ∷ rs) = (test earlier r ≡ false) × AllFail (earlier ++ r ∷ []) rs

  -- `r` stands in the table after `before`, passes, and is the first that does.
  pub record IsFirst (earlier rows : List A) (r : A) : Type ℓ where
    pub before : List A
    pub after : List A
    pub split : rows ≡ before ++ r ∷ after
    pub passes : test (earlier ++ before) r ≡ true
    pub none_before : AllFail earlier before

  pub first_claimable-none :
      (earlier rows : List A) → first_claimable test earlier rows ≡ none → AllFail earlier rows
  unfolding first_claimable
  first_claimable-none earlier [] h = tt
  first_claimable-none earlier (r ∷ rs) h = elim (Bool-cases (test earlier r)) [
    | inl e ↦ ground arith
    | inr e ↦ (e, first_claimable-none (earlier ++ r ∷ []) rs (ground arith))
  ]

  IsFirst-cons :
      (earlier rows : List A) (x r : A)
      → test earlier x ≡ false
      → IsFirst (earlier ++ x ∷ []) rows r
      → IsFirst earlier (x ∷ rows) r
  IsFirst-cons earlier rows x r e f = record {
    before = x ∷ f.before;
    after = f.after;
    split = ap (◌∷◌ x) f.split;
    passes = subst (λ l. test l r ≡ true) (append_assoc earlier (x ∷ []) f.before) f.passes;
    none_before = (e, f.none_before);
  }

  pub first_claimable-some :
      (earlier rows : List A) (r : A)
      → first_claimable test earlier rows ≡ some r
      → IsFirst earlier rows r
  unfolding first_claimable
  first_claimable-some earlier [] r h = cc
  first_claimable-some earlier (x ∷ rs) r h = elim (Bool-cases (test earlier x)) [
    | inl e ↦
        let same : x ≡ r = ground arith in
        record {
          before = [];
          after = rs;
          split = ap (λ y. y ∷ rs) same;
          passes = rw (append-nil earlier, ← same) e;
          none_before = tt;
        }
    | inr e ↦
        IsFirst-cons earlier rs x r e (first_claimable-some (earlier ++ x ∷ []) rs r (ground arith))
  ]

  pub AllFail-split :
      (earlier before : List A) (r : A) (after : List A)
      → AllFail earlier (before ++ r ∷ after)
      → test (earlier ++ before) r ≡ false
  AllFail-split earlier [] r after h = rw (append-nil earlier) h.0
  AllFail-split earlier (x ∷ before) r after h =
      subst (λ l. test l r ≡ false) (append_assoc earlier (x ∷ []) before)
        (AllFail-split (earlier ++ x ∷ []) before r after h.1)
