-- ===== src/Retry/Bounds.antt =====
-- jobs/retry-policy.ts: how long a failed job waits.
use native.Mathlib.Nat.{mul_comm, div-le_of_le-mul, mul-le-mul_right}
use forum_relay.Common.{ℕ, ◌-◌, ◌*◌, ◌/◌, ◌^◌, ◌≤◌, min, ◌≡◌, ◌≢◌, ◌⊎◌, none, some, arith}
use forum_relay.Retry.{
  RelayFailure, RetryPolicy, Fraction, jittered, exponential_ceiling, retry_decision,
}

div-le : (c m d : ℕ) → m ≤ d → c * m / d ≤ c
div-le c m d h = div-le_of_le-mul d (rw (mul_comm c m) (mul-le-mul_right c h))

jittered-le : (c : ℕ) (r : Fraction) → jittered c r ≤ c
jittered-le c r = div-le c (min r.num r.den) r.den (omega arith)

-- Whatever the random number and the wait that the remote side asks for, the delay before the next
-- attempt keeps within the policy's maximum; and within the doubled base too, unless the remote side
-- asked for a wait.
pub retry_decision-delay_le :
    (f : RelayFailure) (n : ℕ) (random : Fraction) (p : RetryPolicy) (d : ℕ)
    → (retry_decision f n random p).delay_ms ≡ some d
    → (d ≤ p.max_delay_ms) × ((d ≤ p.base_delay_ms * 2 ^ (n - 1)) ⊎ (f.retry_after_ms ≢ none))
unfolding retry_decision
retry_decision-delay_le f n random p d h =
    ground (arith, jittered-le (exponential_ceiling p n) random)
