-- ===== src/Failover/Attempt/SplitBrain.antt =====
-- A failover and its tasks to stop and to start NetBox.
use netbox_conductor.Base.{
  ℕ, Bool, true, ◌≡◌, refl, Option, none, some, [], arith, Bool-cases, inl, inr,
}
use netbox_conductor.Nodestate.{Node}
use netbox_conductor.Protocol.{start_netbox, stop_netbox}
use netbox_conductor.Hub.{is_connected}
use netbox_conductor.Failover.State.{Cluster, DispatchError, Env, Trigger, World}
use netbox_conductor.Failover.Events.{emit_ha_event, publish}
use netbox_conductor.Failover.Tasks.{enqueue_for_reconnect}
use netbox_conductor.Failover.Tasks.Adds.{enqueue_for_reconnect-Adds, dispatch_service_task-Adds}
use netbox_conductor.Failover.Timers.{on_node_connect}
use netbox_conductor.Failover.Attempt.{
  failover_started, failover_prepared, failover_to, no_candidate_found, with_candidate, with_node,
  with_cluster, node_blocks, cluster_allows, recovered, attempt_failover, or_nil,
}
use netbox_conductor.Failover.Attempt.Adds.{switchover-Adds}
use netbox_conductor.Failover.Log.{
  NotTask, Adds, same, more, Adds-trans, Before, Before-Adds, Before-later, has, is_start,
  is_start_task, records_stop, any_task, not_start,
}

module _ (e : Env) (node cluster_id : ℕ) (trigger : Trigger) where
  failover_started-Adds :
      (failed candidate : Node) (r : Option DispatchError × World)
      → Adds
          (NotTask any_task)
          r.1.log
          (failover_started e node cluster_id trigger failed candidate r).log
  unfolding failover_started publish emit_ha_event on_node_connect
  failover_started-Adds failed candidate (some err, w) = more tt (more tt same)
  failover_started-Adds failed candidate (none, w) = elim (Bool-cases (is_connected node w.hub)) [
    | inl on ↦ rw on (more tt (more tt same))
    | inr off ↦ rw off (more tt (more tt same))
  ]

  pub failover_prepared-Adds :
      (c : Cluster) (failed candidate : Node) (w : World)
      → Adds
          (NotTask is_start_task)
          w.log
          (failover_prepared e node cluster_id trigger c failed candidate w).log
  unfolding failover_prepared emit_ha_event
  failover_prepared-Adds c failed candidate w =
      Adds-trans
        (Adds-trans (more tt same) (
          switchover-Adds is_start_task e c candidate (or_nil (e.nodes cluster_id)) node _ refl
            refl))
        (enqueue_for_reconnect-Adds is_start_task e failed stop_netbox _ refl)

  failover_prepared-stops :
      (c : Cluster) (failed candidate : Node) (w : World)
      → e.create_ok failed.id stop_netbox ≡ true
      → has
          (records_stop failed.id)
          (failover_prepared e node cluster_id trigger c failed candidate w).log
        ≡ true
  unfolding failover_prepared enqueue_for_reconnect
  failover_prepared-stops c failed candidate w ok = rw ok (ground arith)

  failover_to-Before :
      (c : Cluster) (failed candidate : Node) (w : World)
      → e.create_ok failed.id stop_netbox ≡ true
      → Before (records_stop failed.id) is_start w.log
      → Before
          (records_stop failed.id)
          is_start
          (failover_to e node cluster_id trigger c failed candidate w).log
  unfolding failover_to
  failover_to-Before c failed candidate w ok b =
      Before-later (records_stop failed.id) is_start
        (failover_prepared-stops c failed candidate w ok)
        (Adds-trans (dispatch_service_task-Adds any_task e candidate start_netbox _ refl)
          (failover_started-Adds failed candidate _))
        (Before-Adds (records_stop failed.id) is_start not_start
          (failover_prepared-Adds c failed candidate w) b)

  with_candidate-Before :
      (c : Cluster) (failed : Node) (o : Option (Option Node)) (w : World)
      → e.create_ok failed.id stop_netbox ≡ true
      → Before (records_stop failed.id) is_start w.log
      → Before
          (records_stop failed.id)
          is_start
          (with_candidate e node cluster_id trigger c failed o w).log
  unfolding with_candidate no_candidate_found publish emit_ha_event
  with_candidate-Before c failed none w ok b = b
  with_candidate-Before c failed (some none) w ok b =
      let a : Adds (NotTask is_start_task) w.log
          (no_candidate_found e node cluster_id trigger failed w).log =
        more tt (more tt same) in
      Before-Adds (records_stop failed.id) is_start not_start a b
  with_candidate-Before c failed (some (some candidate)) w ok b =
      failover_to-Before c failed candidate w ok b

  with_cluster-Before :
      (check : Bool) (o : Option Cluster) (failed : Node) (w : World)
      → e.node node ≡ some failed
      → e.create_ok failed.id stop_netbox ≡ true
      → Before (records_stop failed.id) is_start w.log
      → Before
          (records_stop failed.id)
          is_start
          (with_cluster e node cluster_id trigger check o w).log
  unfolding with_cluster with_node
  with_cluster-Before check none failed w row ok b = b
  with_cluster-Before check (some c) failed w row ok b = elim (Bool-cases (cluster_allows c)) [
    | inr off ↦ rw off b
    | inl on ↦
        rw (on, row)
          (elim (Bool-cases (node_blocks e node cluster_id check w.hub failed)) [
            | inl blocked ↦ rw blocked b
            | inr clear ↦ rw clear (with_candidate-Before c failed _ w ok b)
          ])
  ]

  -- If the row of a stop for the failed node can be written, a failover neither records nor sends a task
  -- start_netbox, to any node, before that row is on record; this holds also if the database does not
  -- follow, or the start fails. Where the row cannot be written, the code goes on to the start. A
  -- restart that update_redis_host asks for, in a cluster whose app tier is always available, is no such
  -- task and comes before the stop. The log is empty at first.
  pub attempt_failover-stop_first :
      (check : Bool) (failed : Node) (w : World)
      → e.node node ≡ some failed
      → e.create_ok failed.id stop_netbox ≡ true
      → w.log ≡ []
      → Before
          (records_stop failed.id)
          is_start
          (attempt_failover e node cluster_id trigger check w).log
  unfolding attempt_failover
  attempt_failover-stop_first check failed w row ok empty =
      let nothing : Before (records_stop failed.id) is_start w.log = rw empty tt in
      elim (Bool-cases (recovered e node w.hub)) [
        | inl back ↦ rw back nothing
        | inr gone ↦
            rw gone (with_cluster-Before check (e.cluster cluster_id) failed _ row ok nothing)
      ]
