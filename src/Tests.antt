-- ===== src/Tests.antt =====
-- Concrete runs of the components: each theorem applied to an example in which its hypotheses hold.
mod Queues
mod Work
mod Leases
mod Remote
mod Tables
mod Relays
mod Webhooks
use forum_relay.Common.{◌≡◌, ◌≢◌, String, Bool, true, false, ◌==◌, string_eq, text_iff, arith}

-- Two texts that compare unequal differ.
pub apart : (s t : String) → (s == t) ≡ false → s ≢ t
apart s t h e = ground (arith, text_iff s t)
