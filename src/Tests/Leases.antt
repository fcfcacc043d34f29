-- ===== src/Tests/Leases.antt =====
-- Runs of jobs/worker-lease.ts.
use forum_relay.Common.{
  ℕ, zero, suc, ◌+◌, ◌<◌, ◌≡◌, refl, String, Bool, none, some, arith, ◌==◌, ℕ_eq,
}
use forum_relay.Lease.{acquire_eventually, upsert, confirm, new}
use forum_relay.Lease.Exclusive.{
  System, Reach, start, IsWorking, Reach-exclusive, tries, reads, here, next, update,
}
use forum_relay.Lease.Nodes.{upserts, confirms}
use forum_relay.Lease.Waiting.{acquire_eventually-ends, IsOutcome}

-- The process "a" has won the lease.
abbrev duration : String → ℕ
duration i = 30000

abbrev tried : System
tried = record (start duration 7) {
  row = upsert (new "a" "host" 30000) 7 none;
  node = update (start duration 7).node "a" (upserts 7 ((start duration 7).node "a"));
}

abbrev won : System
won = record tried { node = update tried.node "a" (confirms tried.row (tried.node "a")) }

won-Reach : Reach (start duration 7) won
won-Reach = next (next here (tries "a")) (reads "a")

a_works : IsWorking won "a"
unfolding new upsert confirm
a_works = (refl, ground arith)

abbrev winner : String
winner = "a"

Reach-exclusive_example : winner ≡ winner
Reach-exclusive_example = Reach-exclusive duration 7 won won-Reach winner winner a_works a_works

-- The fourth attempt wins; the clock moves ten milliseconds a poll.
abbrev fourth : ℕ → Bool
fourth i = i == 3

abbrev clock : ℕ → ℕ
clock zero = 100
clock (suc i) = clock i + 10

moves : (i : ℕ) → clock i < clock (suc i)
moves i = omega arith

acquire_eventually-ends_example :
    (b : Bool) × (acquire_eventually fourth clock 150 (suc 60) 0 ≡ some b)
    × IsOutcome fourth clock 150 moves 0 b
acquire_eventually-ends_example = acquire_eventually-ends fourth clock 150 moves 60 0 (omega arith)
