-- ===== src/Failover/Attempt.antt =====
-- attemptFailover: what the failover timer does when it fires.
pub mod Adds
pub mod SplitBrain
pub mod Target
use netbox_conductor.Base.{
  ℕ, ◌-◌, String, Bool, true, false, ◌&&◌, ◌||◌, not, Option, none, some, List, [], ◌∷◌, ◌==◌, ltb,
  leb, str_eq, if◌then◌else◌, is_true, delete,
}
use netbox_conductor.Nodestate.{Node}
use netbox_conductor.Protocol.{start_netbox, stop_netbox}
use netbox_conductor.Hub.{Hub, get, is_connected}
use netbox_conductor.Failover.State.{
  Cluster, DispatchError, Env, RestError, EventType, failover_initiated, failover, Trigger, Reason,
  no_candidate, dispatch_failed, failover_triggered, World,
}
use netbox_conductor.Failover.Events.{HaEventParams, emit_ha_event, publish}
use netbox_conductor.Failover.Tasks.{
  dispatch_service_task, dispatch_db_host_update, dispatch_redis_host_update, enqueue_for_reconnect,
}
use netbox_conductor.Failover.Timers.{on_node_connect}
use netbox_conductor.Failover.Candidate.{best_candidate}
use netbox_conductor.Failover.Switchover.{bare_ip, trigger_patroni_switchover}

abbrev pub heartbeat_freshness : ℕ
heartbeat_freshness = 15

recovered_session : Env → Hub → Option ℕ → Bool
recovered_session e hub none = false
recovered_session e hub (some r) =
    leb (e.now - (hub.heap r).last_seen) heartbeat_freshness && is_true (hub.heap r).netbox_running

-- The node has a session with a recent heartbeat that reports NetBox running.
unfoldable pub recovered : Env → ℕ → Hub → Bool
unfolding recovered_session
recovered e node hub = recovered_session e hub (get node hub)

-- Another connected node of a higher priority runs NetBox already.
higher_running : Hub → ℕ → Node → List Node → Bool
higher_running hub node failed [] = false
higher_running hub node failed (n ∷ ns) =
    not (n.id == node)
      && (ltb failed.failover_priority n.failover_priority
          && (is_connected n.id hub && is_true n.netbox_running))
    || higher_running hub node failed ns

unfoldable pub was_standby : Hub → ℕ → Node → Option (List Node) → Bool
unfolding higher_running
was_standby hub node failed none = false
was_standby hub node failed (some ns) = higher_running hub node failed ns

-- The nodes that a failed listing leaves: none.
abbrev pub or_nil : Option (List Node) → List Node
or_nil none = []
or_nil (some ns) = ns

abbrev pub known_as : Node → Option (ℕ × String)
known_as n = some (n.id, n.hostname)

-- The DATABASE.HOST and Redis updates after a switchover in an always-available cluster.
unfoldable pub follow_switchover :
    Env → Cluster → Node → List Node → (Bool × Option RestError) × World → World
follow_switchover e c candidate ns ((triggered, err), w) =
    if triggered && c.app_tier_always_available
    then dispatch_redis_host_update e ns (bare_ip candidate.ip_address)
        (dispatch_db_host_update e ns (bare_ip candidate.ip_address) w)
    else w

abbrev pub known_if : Option Node → Option (ℕ × String)
known_if none = none
known_if (some n) = known_as n

-- Whether the cluster's settings ask for automatic failover.
unfoldable pub cluster_allows : Cluster → Bool
cluster_allows c = c.auto_failover && str_eq c.mode "active_standby"

-- Whether the state of the failed node, or of a node of a higher priority, forbids the failover.
unfoldable pub node_blocks : Env → ℕ → ℕ → Bool → Hub → Node → Bool
unfolding was_standby
node_blocks e node cluster_id check_netbox_running hub failed =
    check_netbox_running && not (is_true failed.netbox_running)
    || (failed.maintenance_mode || was_standby hub node failed (e.nodes cluster_id))

module _ (e : Env) (node cluster_id : ℕ) (trigger : Trigger) where
  -- The events of this failover: `failed` is the row of the node.
  abbrev event : EventType → Node → Option Node → Bool → Option Reason → HaEventParams
  event type failed target success reason = record {
    cluster_id = cluster_id;
    event_type = type;
    trigger = trigger;
    failed_node = known_as failed;
    target_node = known_if target;
    success = success;
    reason = reason;
  }

  -- What follows the dispatch of the start.
  failover_started : Node → Node → Option DispatchError × World → World
  failover_started failed candidate (some err, w) =
      publish (failover_triggered node false) (
        emit_ha_event (event failover failed (some candidate) false (some (dispatch_failed err))) w)
  failover_started failed candidate (none, w) =
      let w1 =
        publish (failover_triggered node true)
          (emit_ha_event (event failover failed (some candidate) true none) w) in
      if is_connected node w1.hub then on_node_connect e node cluster_id w1 else w1

  -- The failover to a candidate up to the start: the database primary follows, and the failed node
  -- has a stop waiting for it.
  unfoldable pub failover_prepared : Cluster → Node → Node → World → World
  failover_prepared c failed candidate w =
      let ns = or_nil (e.nodes cluster_id) in
      let w1 = emit_ha_event (event failover_initiated failed (some candidate) false none) w in
      let w2 =
        follow_switchover e c candidate ns (trigger_patroni_switchover e c candidate ns node w1) in
      enqueue_for_reconnect e failed stop_netbox w2

  unfoldable pub failover_to : Cluster → Node → Node → World → World
  unfolding failover_started failover_prepared
  failover_to c failed candidate w =
      failover_started failed candidate
        (dispatch_service_task e candidate start_netbox (failover_prepared c failed candidate w))

  no_candidate_found : Node → World → World
  no_candidate_found failed w =
      publish (failover_triggered node false)
        (emit_ha_event (event failover failed none false (some no_candidate)) w)

  with_candidate : Cluster → Node → Option (Option Node) → World → World
  unfolding no_candidate_found failover_to
  with_candidate c failed none w = w
  with_candidate c failed (some none) w = no_candidate_found failed w
  with_candidate c failed (some (some candidate)) w = failover_to c failed candidate w

  with_node : Bool → Cluster → Option Node → World → World
  unfolding with_candidate node_blocks
  with_node check c none w = w
  with_node check c (some failed) w =
      if node_blocks e node cluster_id check w.hub failed
      then w
      else with_candidate c failed (best_candidate e cluster_id node w.hub) w

  with_cluster : Bool → Option Cluster → World → World
  unfolding with_node cluster_allows
  with_cluster check none w = w
  with_cluster check (some c) w =
      if not (cluster_allows c) then w else with_node check c (e.node node) w

  unfoldable pub attempt_failover : Bool → World → World
  unfolding with_cluster recovered
  attempt_failover check w =
      let w1 = record w { fail_timers = delete node w.fail_timers } in
      if recovered e node w1.hub then w1 else with_cluster check (e.cluster cluster_id) w1
