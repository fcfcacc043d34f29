-- ===== src/Lease/Nodes.antt =====
-- Processes that share the lease, each with what it knows of it.
use forum_relay.Common.{
  ℕ, ◌+◌, ◌≤◌, ◌<◌, ◌≡◌, ◌≢◌, String, ◌&&◌, true, Option, none, some, arith, text_iff, string_eq,
  if◌then◌else◌,
}
use forum_relay.Lease.{WorkerLease, LeaseRow, upsert, confirm, is_own, release, is_renewable, renew}

-- `until` is the end of the lease that the process last won or renewed, `expiresAt` of its last
-- successful write; `attempt` is the `expiresAt` of the `acquire` that it is in.
pub record Node : Type 0 where
  pub lease : WorkerLease
  pub until : ℕ
  pub attempt : ℕ

abbrev pub Holds : String → ℕ → Option LeaseRow → Type 0
Holds i t none = ⊥
Holds i t (some r) = (r.instance_id ≡ i) × (t ≤ r.expires_at)

-- The row, if it is of this process, lasts until `t`.
abbrev pub Covers : String → ℕ → Option LeaseRow → Type 0
Covers i t none = Unit
Covers i t (some r) = r.instance_id ≡ i → t ≤ r.expires_at

pub record NodeInv (clock : ℕ) (row : Option LeaseRow) (i : String) (n : Node) : Type 0 where
  pub own : n.lease.instance_id ≡ i
  pub holds : n.lease.active ≡ true → clock < n.until → Holds i n.until row
  pub covers : Covers i n.attempt row
  pub until_within : n.until ≤ clock + n.lease.lease_duration_ms
  pub attempt_within : n.attempt ≤ clock + n.lease.lease_duration_ms

-- The steps of one process.
abbrev pub upserts : ℕ → Node → Node
upserts clock n = record n { attempt = clock + n.lease.lease_duration_ms }

abbrev pub confirms : Option LeaseRow → Node → Node
confirms row n = record n {
  lease = confirm n.lease row;
  until = if is_own n.lease row then n.attempt else n.until;
}

abbrev pub renews : ℕ → Option LeaseRow → Node → Node
renews clock row n = record n {
  lease = (renew n.lease clock row).0;
  until =
      if n.lease.active && is_renewable n.lease clock row
      then clock + n.lease.lease_duration_ms
      else n.until;
}

abbrev pub releases : Option LeaseRow → Node → Node
releases row n = record n { lease = (release n.lease row).0 }

module _ (clock : ℕ) (i : String) (n : Node) where
  pub upserts-NodeInv :
      (row : Option LeaseRow)
      → NodeInv clock row i n
      → NodeInv clock (upsert n.lease clock row) i (upserts clock n)
  unfolding upsert
  upserts-NodeInv none v = ground arith
  upserts-NodeInv (some r) v = ground (arith, text_iff r.instance_id n.lease.instance_id)

  pub confirms-NodeInv :
      (row : Option LeaseRow) → NodeInv clock row i n → NodeInv clock row i (confirms row n)
  unfolding confirm
  confirms-NodeInv none v = ground arith
  confirms-NodeInv (some r) v = ground (arith, text_iff r.instance_id n.lease.instance_id)

  pub renews-NodeInv :
      (row : Option LeaseRow)
      → NodeInv clock row i n
      → NodeInv clock (renew n.lease clock row).1 i (renews clock row n)
  unfolding renew
  renews-NodeInv none v = ground arith
  renews-NodeInv (some r) v = ground (arith, text_iff r.instance_id n.lease.instance_id)

  pub releases-NodeInv :
      (row : Option LeaseRow)
      → NodeInv clock row i n
      → NodeInv clock (release n.lease row).1 i (releases row n)
  unfolding release
  releases-NodeInv none v = ground arith
  releases-NodeInv (some r) v = ground (arith, text_iff r.instance_id n.lease.instance_id)

-- What another process does to the row.
module _ (clock : ℕ) (j : String) (m : Node) (w : WorkerLease) (other : w.instance_id ≢ j) where
  pub upsert-NodeInv :
      (row : Option LeaseRow) → NodeInv clock row j m → NodeInv clock (upsert w clock row) j m
  unfolding upsert
  upsert-NodeInv none v = ground arith
  upsert-NodeInv (some r) v = ground (arith, text_iff r.instance_id w.instance_id)

  pub renew-NodeInv :
      (row : Option LeaseRow) → NodeInv clock row j m → NodeInv clock (renew w clock row).1 j m
  unfolding renew
  renew-NodeInv none v = ground arith
  renew-NodeInv (some r) v = ground (arith, text_iff r.instance_id w.instance_id)

  pub release-NodeInv :
      (row : Option LeaseRow) → NodeInv clock row j m → NodeInv clock (release w row).1 j m
  unfolding release
  release-NodeInv none v = ground arith
  release-NodeInv (some r) v = ground (arith, text_iff r.instance_id w.instance_id)

pub later-NodeInv :
    (clock ms : ℕ) (j : String) (m : Node) (row : Option LeaseRow)
    → NodeInv clock row j m
    → NodeInv (clock + ms) row j m
later-NodeInv clock ms j m none v = ground arith
later-NodeInv clock ms j m (some r) v = ground arith
