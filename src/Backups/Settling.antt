-- ===== src/Backups/Settling.antt =====
-- The settle timers of internal/server/scheduler/backupscheduler.go: OnNodeConnect, OnNodeDisconnect,
-- settled, and the function that a timer runs.
--
-- A `*settleTimer` is a reference into a heap. Stopping a timer does not undo a call of its function
-- that has begun, so that the function may run for any timer, also after it was stopped.
pub mod Latest
use netbox_conductor.Base.{
  ℕ, ◌+◌, Bool, true, false, Option, none, some, Map, put, delete, ◌==◌, if◌then◌else◌,
}

pub record SettleTimer : Type 0 where
  pub due : ℕ
  pub stopped : Bool
  pub settled : Bool

pub record Settling : Type 0 where
  pub settling : Map ℕ
  pub timers : ℕ → SettleTimer

abbrev pub new : Settling
new = record {
  settling = λ n. none;
  timers = λ t. record { due = 0; stopped = false; settled = false };
}

abbrev pub store : ℕ → SettleTimer → Settling → Settling
store t st s = record s { timers = λ u. if t == u then st else s.timers u }

stop_timer : Option ℕ → Settling → Settling
stop_timer none s = s
stop_timer (some t) s = store t (record (s.timers t) { stopped = true }) s

-- With the new timer at the reference `t`, and the settle delay of the node's cluster.
unfoldable pub on_node_connect : (now delay t node : ℕ) → Settling → Settling
unfolding stop_timer
on_node_connect now delay t node s =
    let s' = stop_timer (s.settling node) s in
    store t (record { due = now + delay; stopped = false; settled = false })
      (record s' { settling = put node t s'.settling })

unfoldable pub on_node_disconnect : ℕ → Settling → Settling
unfolding stop_timer
on_node_disconnect node s =
    let s' = stop_timer (s.settling node) s in
    elim (s.settling node) [ none ↦ s | some t ↦ record s' { settling = delete node s'.settling } ]

abbrev is_ref : ℕ → Option ℕ → Bool
is_ref t none = false
is_ref t (some u) = u == t

-- The timer's function: whether the node is settled now, so that backups are synced.
unfoldable pub fire : (t node : ℕ) → Settling → Bool × Settling
fire t node s =
    let current = is_ref t (s.settling node) in
    (current, store t (record (s.timers t) { settled = current }) s)

settled_timer : Option ℕ → (ℕ → SettleTimer) → Bool
settled_timer none timers = false
settled_timer (some t) timers = (timers t).settled

unfoldable pub settled : ℕ → Settling → Bool
unfolding settled_timer
settled node s = settled_timer (s.settling node) s.timers
