-- ===== src/Failover/Timers.antt =====
-- The manager's timers: what arms and cancels them.
pub mod Signals
use netbox_conductor.Base.{
  ℕ, ◌+◌, ◌-◌, ◌*◌, Bool, true, false, Option, none, some, ltb, if◌then◌else◌, put, delete,
}
use netbox_conductor.Failover.State.{
  Cluster, Env, Trigger, disconnect, heartbeat, Job, attempt_failover_job, attempt_failback_job,
  Timer, World,
}

abbrev pub default_grace_period : ℕ
default_grace_period = 30

abbrev pub default_failback_multiplier : ℕ
default_failback_multiplier = 3

abbrev pub startup_suppress_window : ℕ
startup_suppress_window = 30

-- The cluster's delay if it has one, else the manager's.
grace_of : Option Cluster → ℕ
grace_of none = default_grace_period
grace_of (some c) =
    if ltb 0 c.failover_delay_secs then c.failover_delay_secs else default_grace_period

multiplier_of : Option Cluster → ℕ
multiplier_of none = default_failback_multiplier
multiplier_of (some c) =
    if ltb 0 c.failback_multiplier then c.failback_multiplier else default_failback_multiplier

unfoldable pub grace : Env → ℕ → ℕ
unfolding grace_of
grace e cluster = grace_of (e.cluster cluster)

unfoldable pub failback_delay : Env → ℕ → ℕ
unfolding grace_of multiplier_of
failback_delay e cluster = grace_of (e.cluster cluster) * multiplier_of (e.cluster cluster)

arm_failover : ℕ → ℕ → ℕ → Bool → Trigger → World → World
arm_failover due node cluster check trigger w = record w {
  failback_timers = delete node w.failback_timers;
  fail_timers =
      put node (record { due = due; job = attempt_failover_job node cluster check trigger })
        w.fail_timers;
}

unfoldable pub on_node_disconnect : Env → ℕ → ℕ → World → World
unfolding grace arm_failover
on_node_disconnect e node cluster w =
    if ltb (e.now - w.started_at) startup_suppress_window
    then w
    else arm_failover (e.now + grace e cluster) node cluster true disconnect w

-- The first critical section of OnNodeConnect.
unfoldable pub cancel_timers : ℕ → World → World
cancel_timers node w = record w {
  fail_timers = delete node w.fail_timers;
  failback_timers = delete node w.failback_timers;
}

-- The second: between the two the lock is free.
unfoldable pub arm_failback : ℕ → ℕ → ℕ → World → World
arm_failback due node cluster w = record w {
  failback_timers =
      put node (record { due = due; job = attempt_failback_job node cluster }) w.failback_timers;
}

unfoldable pub on_node_connect : Env → ℕ → ℕ → World → World
unfolding cancel_timers arm_failback failback_delay
on_node_connect e node cluster w =
    arm_failback (e.now + failback_delay e cluster) node cluster (cancel_timers node w)

unfoldable pub on_netbox_stopped : Env → ℕ → ℕ → World → World
unfolding grace arm_failover
on_netbox_stopped e node cluster w =
    arm_failover (e.now + grace e cluster) node cluster false heartbeat w

unfoldable pub on_netbox_started : ℕ → World → World
on_netbox_started node w = record w { fail_timers = delete node w.fail_timers }
