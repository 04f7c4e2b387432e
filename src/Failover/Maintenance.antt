-- ===== src/Failover/Maintenance.antt =====
-- OnMaintenanceEnabled and OnMaintenanceDisabled.
pub mod Order
use netbox_conductor.Base.{
  ℕ, Bool, true, false, ◌||◌, not, Option, none, some, str_eq, if◌then◌else◌, is_true, delete,
}
use netbox_conductor.Nodestate.{Node}
use netbox_conductor.Protocol.{start_netbox, stop_netbox}
use netbox_conductor.Failover.State.{
  Cluster, DispatchError, Env, maintenance_failover, maintenance, Reason, no_candidate, stop_failed,
  start_failed, failover_triggered, World,
}
use netbox_conductor.Failover.Events.{HaEventParams, emit_ha_event, publish}
use netbox_conductor.Failover.Tasks.{dispatch_service_task}
use netbox_conductor.Failover.Candidate.{best_candidate}
use netbox_conductor.Failover.Switchover.{trigger_patroni_switchover}
use netbox_conductor.Failover.Attempt.{follow_switchover, known_as, known_if, or_nil}
use netbox_conductor.Failover.Failback.{attempt_failback}

module _ (e : Env) (node cluster_id : ℕ) where
  abbrev event : Node → Option Node → Bool → Option Reason → HaEventParams
  event n target success reason = record {
    cluster_id = cluster_id;
    event_type = maintenance_failover;
    trigger = maintenance;
    failed_node = known_as n;
    target_node = known_if target;
    success = success;
    reason = reason;
  }

  maintenance_started : Node → Node → Option DispatchError × World → World
  maintenance_started n candidate (some err, w) =
      emit_ha_event (event n (some candidate) false (some (start_failed err))) w
  maintenance_started n candidate (none, w) =
      publish (failover_triggered node true) (emit_ha_event (event n (some candidate) true none) w)

  maintenance_stopped : Node → Node → Option DispatchError × World → World
  unfolding maintenance_started
  maintenance_stopped n candidate (some err, w) =
      emit_ha_event (event n (some candidate) false (some (stop_failed err))) w
  maintenance_stopped n candidate (none, w) =
      maintenance_started n candidate (dispatch_service_task e candidate start_netbox w)

  move_off : Cluster → Node → Option (Option Node) → World → World
  unfolding maintenance_stopped
  move_off c n none w = emit_ha_event (event n none false (some no_candidate)) w
  move_off c n (some none) w = emit_ha_event (event n none false (some no_candidate)) w
  move_off c n (some (some candidate)) w =
      let ns = or_nil (e.nodes cluster_id) in
      let w1 =
        follow_switchover e c candidate ns (trigger_patroni_switchover e c candidate ns node w) in
      maintenance_stopped n candidate (dispatch_service_task e n stop_netbox w1)

  maintenance_with_node : Cluster → Option Node → World → World
  unfolding move_off
  maintenance_with_node c none w = w
  maintenance_with_node c (some n) w =
      if not (is_true n.netbox_running)
      then w
      else move_off c n (best_candidate e cluster_id node w.hub) w

  maintenance_with_cluster : Option Cluster → World → World
  unfolding maintenance_with_node
  maintenance_with_cluster none w = w
  maintenance_with_cluster (some c) w =
      if not c.failover_on_maintenance || not (str_eq c.mode "active_standby")
      then w
      else maintenance_with_node c (e.node node) w

  unfoldable pub on_maintenance_enabled : World → World
  unfolding maintenance_with_cluster
  on_maintenance_enabled w = maintenance_with_cluster (e.cluster cluster_id) w

  -- The failback check runs at once, in a goroutine of its own.
  unfoldable pub on_maintenance_disabled : World → World
  on_maintenance_disabled w =
      attempt_failback e node cluster_id
        (record w { failback_timers = delete node w.failback_timers })
