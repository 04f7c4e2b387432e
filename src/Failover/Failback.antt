-- ===== src/Failover/Failback.antt =====
-- attemptFailback: NetBox, or the database primary, moves back to a node of a higher priority.
pub mod Order
pub mod Orphan
use netbox_conductor.Base.{
  ℕ, String, Bool, true, false, ◌&&◌, ◌||◌, not, Option, none, some, List, [], ◌∷◌, ◌==◌, ltb, leb,
  str_eq, if◌then◌else◌, is_true, delete,
}
use netbox_conductor.Nodestate.{Node, extract_patroni_role, is_primary_role, is_app_role}
use netbox_conductor.Protocol.{start_netbox, stop_netbox}
use netbox_conductor.Hub.{Hub, is_connected}
use netbox_conductor.Failover.State.{
  Cluster, DispatchError, Env, RestError, EventType, failback_initiated, failback, reconnect,
  Reason, stop_failed, start_failed, failback_triggered, World,
}
use netbox_conductor.Failover.Events.{HaEventParams, emit_ha_event, publish}
use netbox_conductor.Failover.Tasks.{
  dispatch_service_task, dispatch_db_host_update, dispatch_redis_host_update,
}
use netbox_conductor.Failover.Switchover.{bare_ip, trigger_patroni_switchover}
use netbox_conductor.Failover.Attempt.{follow_switchover, known_as, known_if}

-- The first other node that reports to be the primary.
unfoldable pub other_primary : ℕ → List Node → Option Node
other_primary id [] = none
other_primary id (n ∷ ns) =
    let rest = other_primary id ns in
    if n.id == id
    then rest
    else if is_primary_role (extract_patroni_role n.patroni_state)
    then some n
    else rest

-- The first other node that runs NetBox and is connected.
unfoldable pub current_active : Hub → ℕ → List Node → Option Node
current_active hub id [] = none
current_active hub id (n ∷ ns) =
    let rest = current_active hub id ns in
    if n.id == id
    then rest
    else if is_true n.netbox_running && is_connected n.id hub
    then some n
    else rest

-- The connected node of the highest priority, the first of equals; `best` is the best so far.
best_connected_from : Hub → Option Node → List Node → Option Node
best_connected_from hub best [] = best
best_connected_from hub none (n ∷ ns) =
    best_connected_from hub (if is_connected n.id hub then some n else none) ns
best_connected_from hub (some b) (n ∷ ns) =
    best_connected_from hub
      (if is_connected n.id hub && ltb b.failover_priority n.failover_priority
        then some n
        else some b)
      ns

unfoldable pub best_connected : Hub → List Node → Option Node
unfolding best_connected_from
best_connected hub ns = best_connected_from hub none ns

update_hosts : Env → List Node → String → World → World
update_hosts e ns host w =
    dispatch_redis_host_update e ns host (dispatch_db_host_update e ns host w)

module _ (e : Env) (c : Cluster) (reconnected : Node) (ns : List Node) where
  abbrev event : EventType → Option Node → Bool → Option Reason → HaEventParams
  event type failed success reason = record {
    cluster_id = c.id;
    event_type = type;
    trigger = reconnect;
    failed_node = known_if failed;
    target_node = known_as reconnected;
    success = success;
    reason = reason;
  }

  -- What follows the switchover to the reconnected node in an always-available cluster.
  moved_primary : Node → (Bool × Option RestError) × World → World
  unfolding update_hosts
  moved_primary primary ((triggered, err), w) =
      let w1 = if triggered then update_hosts e ns (bare_ip reconnected.ip_address) w else w in
      publish (failback_triggered reconnected.id)
        (emit_ha_event (event failback (some primary) triggered none) w1)

  hosts_of_primary : Option Node → World → World
  unfolding update_hosts
  hosts_of_primary none w = w
  hosts_of_primary (some p) w = update_hosts e (reconnected ∷ []) (bare_ip p.ip_address) w

  -- No switchover: a stopped node is started, with the hosts of the current primary.
  start_reconnected : Option Node → World → World
  unfolding hosts_of_primary
  start_reconnected primary w =
      if is_true reconnected.netbox_running
      then w
      else (dispatch_service_task e reconnected start_netbox (hosts_of_primary primary w)).1

  failback_always_available_from : Option Node → World → World
  unfolding moved_primary start_reconnected
  failback_always_available_from none w = start_reconnected none w
  failback_always_available_from (some p) w =
      if ltb p.failover_priority reconnected.failover_priority
      then moved_primary p (trigger_patroni_switchover e c reconnected ns p.id w)
      else start_reconnected (some p) w

  unfoldable pub attempt_failback_always_available : World → World
  unfolding failback_always_available_from
  attempt_failback_always_available w =
      failback_always_available_from (other_primary reconnected.id ns) w

  -- No node runs NetBox: it is started on the best connected node.
  recover_orphan : Option Node → World → World
  recover_orphan none w = w
  recover_orphan (some best) w = (dispatch_service_task e best start_netbox w).1

  failback_started : Node → Option DispatchError × World → World
  failback_started active (some err, w) =
      emit_ha_event (event failback (some active) false (some (start_failed err))) w
  failback_started active (none, w) =
      publish (failback_triggered reconnected.id)
        (emit_ha_event (event failback (some active) true none) w)

  failback_stopped : Node → Option DispatchError × World → World
  unfolding failback_started
  failback_stopped active (some err, w) =
      emit_ha_event (event failback (some active) false (some (stop_failed err))) w
  failback_stopped active (none, w) =
      failback_started active (dispatch_service_task e reconnected start_netbox w)

  move_back : Node → World → World
  unfolding failback_stopped
  move_back active w =
      let w1 = emit_ha_event (event failback_initiated none false none) w in
      let w2 =
        follow_switchover e c reconnected ns
          (trigger_patroni_switchover e c reconnected ns active.id w1) in
      failback_stopped active (dispatch_service_task e active stop_netbox w2)

  failback_active_standby_from : Option Node → World → World
  unfolding recover_orphan move_back
  failback_active_standby_from none w =
      if not c.auto_failover then w else recover_orphan (best_connected w.hub ns) w
  failback_active_standby_from (some active) w =
      if leb reconnected.failover_priority active.failover_priority then w else move_back active w

  unfoldable pub attempt_failback_active_standby : World → World
  unfolding failback_active_standby_from
  attempt_failback_active_standby w =
      failback_active_standby_from (current_active w.hub reconnected.id ns) w

failback_with_nodes : Env → Cluster → Node → Option (List Node) → World → World
failback_with_nodes e c n none w = w
failback_with_nodes e c n (some ns) w =
    if c.app_tier_always_available
    then attempt_failback_always_available e c n ns w
    else attempt_failback_active_standby e c n ns w

failback_with_node : Env → Cluster → ℕ → Option Node → World → World
unfolding failback_with_nodes
failback_with_node e c cluster_id none w = w
failback_with_node e c cluster_id (some n) w =
    if n.maintenance_mode || n.suppress_auto_start
    then w
    else if not (is_app_role n.role)
    then w
    else failback_with_nodes e c n (e.nodes cluster_id) w

failback_with_cluster : Env → ℕ → ℕ → Option Cluster → World → World
unfolding failback_with_node
failback_with_cluster e node cluster_id none w = w
failback_with_cluster e node cluster_id (some c) w =
    if not c.auto_failback || not (str_eq c.mode "active_standby")
    then w
    else failback_with_node e c cluster_id (e.node node) w

unfoldable pub attempt_failback : Env → ℕ → ℕ → World → World
unfolding failback_with_cluster
attempt_failback e node cluster_id w =
    let w1 = record w { failback_timers = delete node w.failback_timers } in
    if not (is_connected node w1.hub)
    then w1
    else failback_with_cluster e node cluster_id (e.cluster cluster_id) w1
