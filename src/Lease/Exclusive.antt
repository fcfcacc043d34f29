-- ===== src/Lease/Exclusive.antt =====
-- Any number of processes, their statements interleaved in any order, on one clock.
use forum_relay.Common.{
  ℕ, ◌+◌, ◌<◌, ◌≡◌, ◌≢◌, inl, inr, sym, subst, ◌∙◌, String, true, Option, none, some, arith,
  text_iff, ◌==◌, string_eq, if◌then◌else◌, Bool-cases,
}
use forum_relay.Lease.{LeaseRow, upsert, release, renew, new}
use forum_relay.Lease.Nodes.{
  Node, NodeInv, upserts, confirms, renews, releases, upserts-NodeInv, confirms-NodeInv,
  renews-NodeInv, releases-NodeInv, upsert-NodeInv, renew-NodeInv, release-NodeInv, later-NodeInv,
}

-- The database's row and clock, and the process of each instance id.
pub record System : Type 0 where
  pub clock : ℕ
  pub row : Option LeaseRow
  pub node : String → Node

abbrev pub update : (String → Node) → String → Node → String → Node
update node i n j = if j == i then n else node j

-- One statement of one process, or the passing of time.
pub data Step (s : System) : System → Type 0 where
  waits : (ms : ℕ) → Step s (record s { clock = s.clock + ms })
  tries :
      (i : String)
      → Step s (record s {
        row = upsert (s.node i).lease s.clock s.row;
        node = update s.node i (upserts s.clock (s.node i));
      })
  reads : (i : String) → Step s (record s { node = update s.node i (confirms s.row (s.node i)) })
  renewing :
      (i : String)
      → Step s (record s {
        row = (renew (s.node i).lease s.clock s.row).1;
        node = update s.node i (renews s.clock s.row (s.node i));
      })
  releasing :
      (i : String)
      → Step s (record s {
        row = (release (s.node i).lease s.row).1;
        node = update s.node i (releases s.row (s.node i));
      })

pub data Reach (s : System) : System → Type 0 where
  here : Reach s s
  next : {t u : System} → Reach s t → Step t u → Reach s u

-- No lease is held, and no process has tried.
abbrev pub start : (String → ℕ) → ℕ → System
start duration clock = record {
  clock = clock;
  row = none;
  node = λ i. record { lease = new i "host" (duration i); until = 0; attempt = 0 };
}

abbrev pub Inv : System → Type 0
Inv s = (i : String) → NodeInv s.clock s.row i (s.node i)

start-Inv : (duration : String → ℕ) (clock : ℕ) → Inv (start duration clock)
unfolding new
start-Inv duration clock i = ground arith

module _ (node : String → Node) (i : String) (n : Node) (clock : ℕ) (row : Option LeaseRow) where
  -- The acting process keeps its invariant, and the others keep theirs.
  update-Inv :
      NodeInv clock row i n
      → ((j : String) → j ≢ i → NodeInv clock row j (node j))
      → (j : String) → NodeInv clock row j (update node i n j)
  update-Inv acting others j = elim (Bool-cases (j == i)) [
    | inl e ↦ rw e (subst (λ k. NodeInv clock row k n) (sym ((text_iff j i).0 e)) acting)
    | inr e ↦ rw e (others j (λ same. ground (arith, text_iff j i)))
  ]

-- A process that is not `j` writes another instance id than `j`.
writes_other : (s : System) → Inv s → (i j : String) → j ≢ i → (s.node i).lease.instance_id ≢ j
writes_other s v i j other same = other (sym same ∙ (v i).own)

pub Step-Inv : (s t : System) → Inv s → Step s t → Inv t
Step-Inv s t v (waits ms) = λ j. later-NodeInv s.clock ms j (s.node j) s.row (v j)
Step-Inv s t v (tries i) =
    update-Inv s.node i (upserts s.clock (s.node i)) s.clock (upsert (s.node i).lease s.clock s.row)
      (upserts-NodeInv s.clock i (s.node i) s.row (v i))
      (λ j other.
        upsert-NodeInv s.clock j (s.node j) (s.node i).lease (writes_other s v i j other) s.row
          (v j))
Step-Inv s t v (reads i) =
    update-Inv s.node i (confirms s.row (s.node i)) s.clock s.row
      (confirms-NodeInv s.clock i (s.node i) s.row (v i)) (λ j other. v j)
Step-Inv s t v (renewing i) =
    update-Inv s.node i (renews s.clock s.row (s.node i)) s.clock
      (renew (s.node i).lease s.clock s.row).1 (renews-NodeInv s.clock i (s.node i) s.row (v i))
      (λ j other.
        renew-NodeInv s.clock j (s.node j) (s.node i).lease (writes_other s v i j other) s.row
          (v j))
Step-Inv s t v (releasing i) =
    update-Inv s.node i (releases s.row (s.node i)) s.clock (release (s.node i).lease s.row).1
      (releases-NodeInv s.clock i (s.node i) s.row (v i))
      (λ j other.
        release-NodeInv s.clock j (s.node j) (s.node i).lease (writes_other s v i j other) s.row
          (v j))

pub Reach-Inv : (s t : System) → Inv s → Reach s t → Inv t
Reach-Inv s t v here = v
Reach-Inv s t v (next {t = u} r step) = Step-Inv u t (Reach-Inv s u v r) step

-- What the process `i` takes for granted when it works: it is active, and the `expiresAt` of its
-- last successful acquire or renewal has not passed.
abbrev pub IsWorking : System → String → Type 0
IsWorking s i = ((s.node i).lease.active ≡ true) × (s.clock < (s.node i).until)

-- The row of the table names the one that is working.
holder :
    (clock : ℕ) (row : Option LeaseRow) (i j : String) (n m : Node)
    → NodeInv clock row i n
    → NodeInv clock row j m
    → n.lease.active ≡ true
    → clock < n.until
    → m.lease.active ≡ true
    → clock < m.until
    → i ≡ j
holder clock none i j n m v w a b c d = elim (v.holds a b) [ ]
holder clock (some r) i j n m v w a b c d = sym (v.holds a b).0 ∙ (w.holds c d).0

-- From a state in which no lease is held, whatever processes try, confirm, renew and release in
-- whatever order, and however the time passes between the statements: two processes that are
-- working, active and before the end of their last lease, are one process.
pub Reach-exclusive :
    (duration : String → ℕ) (clock : ℕ) (s : System)
    → Reach (start duration clock) s
    → (i j : String) → IsWorking s i
    → IsWorking s j
    → i ≡ j
Reach-exclusive duration clock s r i j a b =
    holder s.clock s.row i j (s.node i) (s.node j) (inv i) (inv j) a.0 a.1 b.0 b.1
  where
    inv : Inv s
    inv = Reach-Inv (start duration clock) s (start-Inv duration clock) r
