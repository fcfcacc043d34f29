-- ===== src/Retry.antt =====
-- jobs/retry-policy.ts: what becomes of a job after a failed attempt. `Math.random()` is an argument,
-- a fraction, and products with it are exact; a wait may be negative, as a parsed header may.
pub mod Bounds
pub mod Attempts
use forum_relay.Common.{
  ◌≡◌, refl, ◌⊎◌, inl, inr, ℕ, ◌+◌, ◌-◌, ◌*◌, ◌/◌, ◌^◌, min, String, Bool, true, false, ◌||◌,
  Option, none, some, leb, if◌then◌else◌,
}
use forum_relay.Common.Int.{ℤ, max_zero}

pub data FailureCategory : Type 0 where
  authentication conflict invalid not_found rate_limit temporary : FailureCategory

pub data RetryState : Type 0 where
  dead pending : RetryState

pub record RetryDecision : Type 0 where
  pub delay_ms : Option ℕ
  pub state : RetryState

pub record RetryPolicy : Type 0 where
  pub base_delay_ms : ℕ
  pub max_attempts : ℕ
  pub max_delay_ms : ℕ

abbrev pub default_retry_policy : RetryPolicy
default_retry_policy = record { base_delay_ms = 1000; max_attempts = 10; max_delay_ms = 15 * 60000 }

pub record RelayFailure : Type 0 where
  pub message : String
  pub category : FailureCategory
  pub code : String
  pub retry_after_ms : Option ℤ

-- A failure with no wait asked for.
abbrev pub failure : String → FailureCategory → String → RelayFailure
failure message category code = record {
  message = message;
  category = category;
  code = code;
  retry_after_ms = none;
}

-- What a `throw` may carry: a relay failure, or another error with its message.
pub data Thrown : Type 0 where
  relay : RelayFailure → Thrown
  plain : String → Thrown

-- The value of `random()`.
pub record Fraction : Type 0 where
  pub num : ℕ
  pub den : ℕ

-- The categories that are never tried again.
abbrev pub is_final : FailureCategory → Bool
is_final authentication = true
is_final invalid = true
is_final not_found = true
is_final _ = false

-- `Math.floor(ceiling * Math.min(1, Math.max(0, random())))`
abbrev pub jittered : ℕ → Fraction → ℕ
jittered ceiling r = ceiling * min r.num r.den / r.den

abbrev pub exponential_ceiling : RetryPolicy → ℕ → ℕ
exponential_ceiling policy attempts =
    min (policy.base_delay_ms * 2 ^ (attempts - 1)) policy.max_delay_ms

abbrev delay : RelayFailure → Option ℤ → ℕ → Fraction → RetryPolicy → ℕ
delay failed (some wait) attempts random policy = min (max_zero wait) policy.max_delay_ms
delay failed none attempts random policy = jittered (exponential_ceiling policy attempts) random

unfoldable pub retry_decision : RelayFailure → ℕ → Fraction → RetryPolicy → RetryDecision
retry_decision failed attempts random policy =
    if leb policy.max_attempts attempts || is_final failed.category
    then record { delay_ms = none; state = dead }
    else record {
      delay_ms = some (delay failed failed.retry_after_ms attempts random policy);
      state = pending;
    }

unfoldable pub normalize_failure : Thrown → RelayFailure
normalize_failure (relay f) = f
normalize_failure (plain message) = failure message temporary "UNEXPECTED"

-- A call that may throw.
pub data Result {ℓ} (A : Type ℓ) : Type ℓ where
  ok : A → Result A
  err : Thrown → Result A

infixl 5 ◌>>=◌
abbrev pub ◌>>=◌ {ℓ κ} : {A : Type ℓ} {B : Type κ} → Result A → (A → Result B) → Result B
ok a >>= f = f a
err e >>= f = err e

pub Result-cases {ℓ} :
    {A : Type ℓ} (r : Result A) → ((a : A) × (r ≡ ok a)) ⊎ ((f : Thrown) × (r ≡ err f))
Result-cases (ok a) = inl (a, refl)
Result-cases (err f) = inr (f, refl)

pub ok_inj {ℓ} : {A : Type ℓ} {x y : A} → ok x ≡ ok y → x ≡ y
ok_inj h = cc
