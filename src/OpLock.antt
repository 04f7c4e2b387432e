-- ===== src/OpLock.antt =====
-- internal/server/oplock/oplock.go: one disruptive operation on a cluster at a time.
--
-- The function that `TryLock` returns is a handle: its cluster, and whether its `sync.Once` is spent.
pub mod Exclusion
pub mod Held
pub mod Kept
use netbox_conductor.Base.{
  ℕ, ◌+◌, String, Bool, true, false, Option, none, some, Map, put, delete, ◌⊎◌, inl, inr,
  if◌then◌else◌,
}

pub data BusyError : Type 0 where
  busy : (running : String) → BusyError

pub record Unlock : Type 0 where
  pub cluster : ℕ
  pub spent : Bool

pub record Locks : Type 0 where
  pub running : Map String
  pub unlocks : Map Unlock
  pub next : ℕ

abbrev pub new : Locks
new = record { running = λ c. none; unlocks = λ t. none; next = 0 }

claim : ℕ → String → Option String → Locks → (BusyError ⊎ ℕ) × Locks
claim cluster op (some running) l = (inl (busy running), l)
claim cluster op none l = (
  inr l.next,
  record {
    running = put cluster op l.running;
    unlocks = put l.next (record { cluster = cluster; spent = false }) l.unlocks;
    next = l.next + 1;
  },
)

-- The handle of the unlock, or the operation that holds the cluster.
unfoldable pub try_lock : ℕ → String → Locks → (BusyError ⊎ ℕ) × Locks
unfolding claim
try_lock cluster op l = claim cluster op (l.running cluster) l

release : ℕ → Option Unlock → Locks → Locks
release t none l = l
release t (some u) l = if u.spent then l else record l {
  running = delete u.cluster l.running;
  unlocks = put t (record u { spent = true }) l.unlocks;
}

-- A call of the handle's function.
unfoldable pub unlock : ℕ → Locks → Locks
unfolding release
unlock t l = release t (l.unlocks t) l
