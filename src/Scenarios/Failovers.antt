-- ===== src/Scenarios/Failovers.antt =====
-- A cluster of two hyperconverged nodes: node 1, which ran NetBox, is gone, and node 2 is connected.
use netbox_conductor.Base.{
  ℕ, ◌==◌, if◌then◌else◌, lookup, insert, ◌<◌, arith, Bool, true, false, ◌≡◌, ◌⊎◌, ◌↔◌, refl,
  Option, none, some, List, [], ◌∷◌, inl,
}
use netbox_conductor.Nodestate.{
  Node, object, is_app_role, extract_patroni_role, extract_patroni_role_strict, compute_node_health,
  is_primary_role,
}
use netbox_conductor.Hub.{Hub, new, new_session, register, get, is_connected, send}
use netbox_conductor.Failover.State.{
  Cluster, Env, World, disconnect, Timer, rest_called, switchover,
}
use netbox_conductor.Failover.Candidate.{best_candidate, eligible, healthy_candidate}
use netbox_conductor.Failover.Candidate.Best.{IsSorted, IsBest, best_candidate-IsBest}
use netbox_conductor.Failover.Timers.Signals.{
  node_disconnect, node_connect, receive_all, IsTimed, receive_all-IsTimed,
}
use netbox_conductor.Failover.Attempt.{attempt_failover, follow_switchover}
use netbox_conductor.Failover.Tasks.{dispatch_service_task, dispatch_task, enqueue_for_reconnect}
use netbox_conductor.Failover.Switchover.{
  trigger_patroni_switchover, connected_primary, rest_request, bare_ip, movable,
}
use netbox_conductor.Failover.Events.{emit_ha_event, publish}
use netbox_conductor.Failover.Attempt.SplitBrain.{attempt_failover-stop_first}
use netbox_conductor.Failover.Attempt.Target.{IsDue, attempt_failover-start_iff}
use netbox_conductor.Failover.Failback.{
  attempt_failback_active_standby, current_active, best_connected,
}
use netbox_conductor.Failover.Failback.Order.{failback_active_standby-order}
use netbox_conductor.Failover.Failback.Orphan.{IsTopConnected, failback_active_standby-orphan}
use netbox_conductor.Failover.Topology.{check_topology, current_leader}
use netbox_conductor.Failover.Topology.Target.{Moves, check_topology-Moves}
use netbox_conductor.Failover.Log.{
  has, Before, is_start, records_start, records_stop, delivers_stop,
}

abbrev node : ℕ → ℕ → Option Bool → Node
node id priority running = record {
  id = id;
  cluster_id = 7;
  hostname = "nb";
  ip_address = "10.0.0.1/24";
  role = "hyperconverged";
  failover_priority = priority;
  agent_status = "connected";
  patroni_state = object (some "replica");
  netbox_running = running;
  rq_running = running;
  suppress_auto_start = false;
  maintenance_mode = false;
}

abbrev pub first : Node
first = node 1 100 (some true)

abbrev pub second : Node
second = node 2 50 (some false)

abbrev both : List Node
both = first ∷ second ∷ []

abbrev settings : Bool → Cluster
settings always = record {
  id = 7;
  mode = "active_standby";
  auto_failover = true;
  auto_failback = true;
  app_tier_always_available = always;
  failover_on_maintenance = true;
  failover_delay_secs = 0;
  failback_multiplier = 0;
  patroni_configured = true;
}

abbrev lookup_node : ℕ → Option Node
lookup_node n = if n == 1 then some first else if n == 2 then some second else none

abbrev pub env : Bool → Env
env always = record {
  now = 100;
  cluster = λ c. some (settings always);
  node = lookup_node;
  nodes = λ c. some both;
  create_ok = λ n t. true;
  set_sent_ok = true;
  rest = λ r. some 200;
  uuid_string = λ n. "id";
}

abbrev pub world : Hub → World
world hub = record {
  hub = hub;
  started_at = 0;
  fail_timers = λ n. none;
  failback_timers = λ n. none;
  next_uuid = 0;
  log = [];
}

-- Sessions of the node 2, or of both.
abbrev pub one : Hub
one = register 12 (new_session 12 2 7 100 new)

abbrev pub two : Hub
two = register 11 (new_session 11 1 7 100 one)

attempt_failover-stop_first_example :
    Before
      (records_stop 1)
      is_start
      (attempt_failover (env false) 1 7 disconnect true (world one)).log
attempt_failover-stop_first_example =
    attempt_failover-stop_first (env false) 1 7 disconnect true first (world one) refl refl refl

attempt_failover-start_iff_example :
    (has (records_start 2) (attempt_failover (env false) 1 7 disconnect true (world one)).log
      ≡ true)
    ↔ ((n : Node) × IsDue (env false) 1 7 true one n × (true ≡ true) × (n.id ≡ 2))
attempt_failover-start_iff_example =
    attempt_failover-start_iff (env false) 1 7 disconnect 2 true (world one) refl

-- The failover of the example does start node 2.
starts :
    has (records_start 2) (attempt_failover (env false) 1 7 disconnect true (world one)).log ≡ true
unfolding attempt_failover register new_session get lookup insert best_candidate eligible
    is_app_role is_connected healthy_candidate extract_patroni_role_strict compute_node_health
    dispatch_service_task dispatch_task enqueue_for_reconnect follow_switchover
    trigger_patroni_switchover emit_ha_event send publish
starts = refl

-- The node 1 runs NetBox at the lower priority, and node 2 has connected.
abbrev lower : Node
lower = node 1 30 (some true)

failback_active_standby-order_example :
    let log =
      (attempt_failback_active_standby
        (env false)
        (settings false)
        second
        (lower ∷ second ∷ [])
        (world two)).log in
    Before (delivers_stop 1) is_start log × (has is_start log ≡ true → 30 < 50)
failback_active_standby-order_example =
    failback_active_standby-order (env false) (settings false) second (lower ∷ second ∷ []) lower
      (world two) active refl
  where
    active : current_active two 2 (lower ∷ second ∷ []) ≡ some lower
    active = unfold current_active is_connected register new_session lookup insert in refl

-- The connected node of the highest priority may not run NetBox at all, and the node that reconnects runs
-- it already.
abbrev db_only : Node
db_only = record first { role = "db_only"; netbox_running = none; maintenance_mode = true }

abbrev back : Node
back = record second { netbox_running = some true }

failback_active_standby-orphan_example :
    IsTopConnected two (db_only ∷ back ∷ []) db_only
    × ((has
            (records_start 1)
            (attempt_failback_active_standby
              (env false)
              (settings false)
              back
              (db_only ∷ back ∷ [])
              (world two)).log
          ≡ true)
        ↔ ((db_only.id ≡ 1) × (true ≡ true)))
failback_active_standby-orphan_example =
    failback_active_standby-orphan (env false) (settings false) back (db_only ∷ back ∷ [])
      (world two) db_only 1 idle refl top refl
  where
    idle : current_active two 2 (db_only ∷ back ∷ []) ≡ none
    idle = unfold current_active is_connected register new_session lookup insert in refl

    top : best_connected two (db_only ∷ back ∷ []) ≡ some db_only
    top = unfold best_connected is_connected register new_session lookup insert in refl

best_candidate-IsBest_example : IsBest (eligible one 1) healthy_candidate both (some second)
best_candidate-IsBest_example =
    best_candidate-IsBest (env false) 7 1 one both (some second) refl sorted chosen
  where
    sorted : IsSorted both
    sorted = ((omega arith, tt), (tt, tt))

    chosen : best_candidate (env false) 7 1 one ≡ some (some second)
    chosen =
        unfold best_candidate eligible healthy_candidate is_connected register new_session lookup
          insert is_app_role extract_patroni_role_strict compute_node_health in
        refl

idle-IsTimed : IsTimed (world one)
idle-IsTimed = record {
  apart = λ n. inl refl;
  over = λ n t e. absurd (no_timer e);
  back = λ n t e. absurd (no_timer e);
}
  where
    no_timer : {t : Timer} → none ≡ some t → ⊥
    no_timer e = ground arith

receive_all-IsTimed_example :
    IsTimed (
      receive_all (node_disconnect (env false) 1 7 ∷ node_connect (env false) 1 7 ∷ []) (world one))
receive_all-IsTimed_example =
    receive_all-IsTimed (node_disconnect (env false) 1 7 ∷ node_connect (env false) 1 7 ∷ [])
      (world one) idle-IsTimed

-- The primary is on the node of the lower priority.
abbrev leader : Node
leader = record second { patroni_state = object (some "primary") }

abbrev elected : Env
elected = record (env false) { nodes = λ c. some (first ∷ leader ∷ []) }

check_topology-Moves_example :
    let log = (check_topology elected 7 (world two)).log in
    (log ≡ []) ⊎ Moves elected 7 (world two) log
check_topology-Moves_example = check_topology-Moves elected 7 (world two) refl

-- The check of the example does make its call.
calls :
    (check_topology elected 7 (world two)).log ≡ rest_called (switchover "10.0.0.1" "nb" "nb") ∷ []
unfolding check_topology current_leader best_connected is_connected register new_session lookup
    insert extract_patroni_role extract_patroni_role_strict trigger_patroni_switchover
    connected_primary rest_request bare_ip movable is_primary_role
calls = refl
