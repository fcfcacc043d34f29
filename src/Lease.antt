-- ===== src/Lease.antt =====
-- jobs/worker-lease.ts: one row of `worker_leases` decides which process works. `Date.now()` is an
-- argument. The table is its row of the lease's name, the only one that the code touches.
pub mod Nodes
pub mod Exclusive
pub mod Waiting
use forum_relay.Common.{
  ℕ, zero, suc, ◌+◌, ◌-◌, String, Bool, true, false, not, ◌&&◌, ◌||◌, Option, none, some, ◌==◌,
  string_eq, ltb, leb, if◌then◌else◌,
}

pub record LeaseRow : Type 0 where
  pub instance_id : String
  pub host_label : String
  pub acquired_at : ℕ
  pub renewed_at : ℕ
  pub expires_at : ℕ

-- The fields of a `WorkerLease`; `renewing` says that the renewal timer is set.
pub record WorkerLease : Type 0 where
  pub instance_id : String
  pub host_label : String
  pub lease_duration_ms : ℕ
  pub active : Bool
  pub renewing : Bool

-- The constructor, with its defaults left to the caller.
unfoldable pub new : String → String → ℕ → WorkerLease
new instance_id host_label duration = record {
  instance_id = instance_id;
  host_label = host_label;
  lease_duration_ms = duration;
  active = false;
  renewing = false;
}

abbrev pub default_lease_duration_ms : ℕ
default_lease_duration_ms = 30000

-- `INSERT … ON CONFLICT(name) DO UPDATE … WHERE`: a row that has run out, or is one's own, is taken.
unfoldable pub upsert : WorkerLease → ℕ → Option LeaseRow → Option LeaseRow
upsert w now none = some (record {
  instance_id = w.instance_id;
  host_label = w.host_label;
  acquired_at = now;
  renewed_at = now;
  expires_at = now + w.lease_duration_ms;
})
upsert w now (some r) =
    if leb r.expires_at now || r.instance_id == w.instance_id
    then some (record {
      instance_id = w.instance_id;
      host_label = w.host_label;
      acquired_at = now;
      renewed_at = now;
      expires_at = now + w.lease_duration_ms;
    })
    else some r

-- `result.rows[0]?.instance_id === this.#instanceId`
abbrev pub is_own : WorkerLease → Option LeaseRow → Bool
is_own w none = false
is_own w (some r) = r.instance_id == w.instance_id

-- The SELECT after the INSERT, and what follows from it.
unfoldable pub confirm : WorkerLease → Option LeaseRow → WorkerLease
confirm w row =
    if is_own w row
    then record w { active = true; renewing = true }
    else record w { active = false }

unfoldable pub acquire : WorkerLease → ℕ → Option LeaseRow → WorkerLease × Option LeaseRow × Bool
unfolding upsert confirm
acquire w now row = let row' = upsert w now row in let w' = confirm w row' in (w', row', w'.active)

-- `DELETE … WHERE name = ? AND instance_id = ?`
abbrev pub delete_own : WorkerLease → Option LeaseRow → Option LeaseRow
delete_own w none = none
delete_own w (some r) = if r.instance_id == w.instance_id then none else some r

unfoldable pub release : WorkerLease → Option LeaseRow → WorkerLease × Option LeaseRow
release w row =
    if w.active
    then (record w { active = false; renewing = false }, delete_own w row)
    else (record w { renewing = false }, row)

-- The row passes the WHERE clause of a renewal.
abbrev pub is_renewable : WorkerLease → ℕ → Option LeaseRow → Bool
is_renewable w now none = false
is_renewable w now (some r) = r.instance_id == w.instance_id && ltb now r.expires_at

abbrev pub extend : ℕ → ℕ → Option LeaseRow → Option LeaseRow
extend now expires none = none
extend now expires (some r) = some (record r { renewed_at = now; expires_at = expires })

-- `#renew`: the lease, the row, and whether `onLeaseLost` is called.
unfoldable pub renew : WorkerLease → ℕ → Option LeaseRow → WorkerLease × Option LeaseRow × Bool
renew w now row =
    if not w.active
    then (w, row, false)
    else if is_renewable w now row
    then (w, extend now (now + w.lease_duration_ms) row, false)
    else (record w { active = false; renewing = false }, row, true)

-- `acquireEventually`: `won i` is what the attempt `i` returns, and `clock i` the time after it.
-- The result is whether the lease was won, and `none` that the fuel ran out. The interval between the
-- attempts is left to `clock`, and an attempt that throws is left out.
unfoldable pub acquire_eventually : (ℕ → Bool) → (ℕ → ℕ) → ℕ → ℕ → ℕ → Option Bool
acquire_eventually won clock deadline zero i = none
acquire_eventually won clock deadline (suc fuel) i =
    let again = acquire_eventually won clock deadline fuel (suc i) in
    if won i then some true else if leb deadline (clock i) then some false else again
