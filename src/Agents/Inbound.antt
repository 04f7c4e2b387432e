-- ===== src/Agents/Inbound.antt =====
-- handleInbound of internal/server/api/handlers/agent.go, with its handlers of a heartbeat and of a
-- service's change, but for the messages of a file sync and the lines of NetBox's log.
--
-- A payload that does not decode is ignored, and is no message here. A task id is `none` where the text
-- is no UUID. The loads and the shares of memory and disk are only stored and published, and left out.
pub mod Transitions
pub mod Services
use netbox_conductor.Base.{
  ℕ, String, Bool, true, false, ◌&&◌, not, Option, none, some, List, [], ◌∷◌, str_eq, if◌then◌else◌,
  put, Map,
}
use netbox_conductor.Protocol.{TaskResultPayload}
use netbox_conductor.Hub.{set_netbox_running, set_patroni_role, touch_last_seen, store}
use netbox_conductor.Failover.State.{Env}
use netbox_conductor.Failover.State as Manager
use netbox_conductor.Failover.Timers.{on_netbox_stopped, on_netbox_started}
use netbox_conductor.TaskWatch.{notify_heartbeat}
use netbox_conductor.Heartbeats.{
  HeartbeatState, HeartbeatInput, Event, process, update, no_state, Service, netbox, rq, patroni,
  postgres, redis, sentinel,
}
use netbox_conductor.Agents.Hosts.{handle_patroni_state}
use netbox_conductor.Agents.Answers.{handle_task_ack, handle_task_result, handle_backup_event}
use netbox_conductor.Agents.State.{
  World, note, with_hub, heartbeat_stored, heartbeat_published, version_stored, emitted,
  backups_synced,
}

pub record HeartbeatPayload : Type 0 where
  pub tasks : List ℕ
  pub netbox_running : Bool
  pub rq_running : Bool
  pub patroni_running : Bool
  pub postgres_running : Bool
  pub redis_running : Bool
  pub sentinel_running : Bool
  pub patroni_role : String
  pub netbox_version : String

-- A message, with the parts of its payload that are read.
pub data Inbound : Type 0 where
  heartbeat : HeartbeatPayload → Inbound
  patroni_state : (role prev_role : String) → Inbound
  -- `none` is a service with another name.
  service_state_change : Option Service → (running : Bool) → Inbound
  task_ack : Option ℕ → Inbound
  task_result : Option ℕ → TaskResultPayload → (repaired : List String) → Inbound
  backup_event : (is_error : Bool) → (repo message : String) → Inbound
  unknown : Inbound

abbrev pub state_or_new : Option HeartbeatState → HeartbeatState
state_or_new none = no_state
state_or_new (some s) = s

-- The first event of the list is emitted first.
unfoldable pub emit_all : List Event → World → World
emit_all [] w = w
emit_all (ev ∷ evs) w = emit_all evs (note (emitted ev) w)

abbrev pub heartbeat_input : ℕ → ℕ → String → HeartbeatPayload → HeartbeatInput
heartbeat_input node cluster hostname hb = record {
  node_id = node;
  cluster_id = cluster;
  hostname = hostname;
  netbox_running = hb.netbox_running;
  rq_running = hb.rq_running;
  patroni_running = hb.patroni_running;
  postgres_running = hb.postgres_running;
  redis_running = hb.redis_running;
  sentinel_running = hb.sentinel_running;
  patroni_role = hb.patroni_role;
}

unfoldable pub emit_transitions : HeartbeatInput → World → World
unfolding emit_all
emit_transitions input w =
    let state = state_or_new (w.hb_states input.node_id) in
    let w' = emit_all (process state input) w in
    record w' { hb_states = put input.node_id (update state input) w'.hb_states }

-- What a change of `netbox_running` from a value to a value tells the failover manager.
notify_manager : Env → (node cluster : ℕ) → Option Bool → Bool → Manager.World → Manager.World
notify_manager e node cluster none running m = m
notify_manager e node cluster (some true) true m = m
notify_manager e node cluster (some true) false m = on_netbox_stopped e node cluster m
notify_manager e node cluster (some false) true m = on_netbox_started node m
notify_manager e node cluster (some false) false m = m

unfoldable pub track_netbox : Env → (r : ℕ) → Bool → World → World
unfolding notify_manager
track_netbox e r running w =
    let s = w.manager.hub.heap r in
    let ((prev, changed), h) = set_netbox_running (some running) r w.manager.hub in
    let w' = with_hub (λ g. h) w in
    if changed
    then record w' { manager = notify_manager e s.node_id s.cluster_id prev running w'.manager }
    else w'

unfoldable pub track_role : (r : ℕ) → String → World → World
track_role r role w =
    let s = w.manager.hub.heap r in
    let ((prev, first), h) = set_patroni_role role r w.manager.hub in
    let w' = with_hub (λ g. h) w in
    if not first && (not (str_eq prev role) && str_eq role "primary")
    then note (backups_synced s.cluster_id) w'
    else w'

track_version : (r : ℕ) → String → World → World
track_version r version w =
    let s = w.manager.hub.heap r in
    if not (str_eq version "")
    then note (version_stored s.cluster_id version)
        (with_hub (store r (record s { netbox_version = version })) w)
    else w

-- `hostname` is the session's.
unfoldable pub handle_heartbeat :
    Env → (r : ℕ) → (hostname : String) → HeartbeatPayload → World → World
unfolding emit_transitions track_netbox track_role track_version
handle_heartbeat e r hostname hb w =
    let s = w.manager.hub.heap r in
    let input = heartbeat_input s.node_id s.cluster_id hostname hb in
    let w1 = record w { waiters = notify_heartbeat s.node_id hb.tasks w.waiters } in
    let w2 = emit_transitions input (note (heartbeat_stored input) w1) in
    note (heartbeat_published input) (
      track_version r hb.netbox_version
        (track_role r hb.patroni_role (track_netbox e r hb.netbox_running w2)))

-- The code and the message of a service's event.
service_change : Service → Bool → String × String
service_change netbox true = ("NBC-SVC-001", "NetBox started")
service_change netbox false = ("NBC-SVC-002", "NetBox stopped")
service_change rq true = ("NBC-SVC-003", "RQ worker started")
service_change rq false = ("NBC-SVC-004", "RQ worker stopped")
service_change patroni true = ("NBC-SVC-005", "Patroni started")
service_change patroni false = ("NBC-SVC-006", "Patroni stopped")
service_change postgres true = ("NBC-SVC-007", "PostgreSQL became ready")
service_change postgres false = ("NBC-SVC-008", "PostgreSQL became unavailable")
service_change redis true = ("NBC-SVC-009", "Redis started")
service_change redis false = ("NBC-SVC-010", "Redis stopped")
service_change sentinel true = ("NBC-SVC-011", "Sentinel started")
service_change sentinel false = ("NBC-SVC-012", "Sentinel stopped")

unfoldable pub set_running : Service → Bool → HeartbeatState → HeartbeatState
set_running netbox b s = record s { netbox_running = some b }
set_running rq b s = record s { rq_running = some b }
set_running patroni b s = record s { patroni_running = some b }
set_running postgres b s = record s { postgres_running = some b }
set_running redis b s = record s { redis_running = some b }
set_running sentinel b s = record s { sentinel_running = some b }

unfoldable pub change_event : Service → Bool → (node cluster : ℕ) → Event
unfolding service_change
change_event service running node cluster = record {
  category = "service";
  severity = if running then "info" else "error";
  code = (service_change service running).0;
  message = (service_change service running).1;
  cluster_id = some cluster;
  node_id = some node;
  metadata = [];
}

-- The event, and the state that keeps the next heartbeat from giving it again.
unfoldable pub handle_service_state_change : (r : ℕ) → Option Service → Bool → World → World
unfolding change_event set_running
handle_service_state_change r none running w = w
handle_service_state_change r (some service) running w =
    let s = w.manager.hub.heap r in
    let w' = note (emitted (change_event service running s.node_id s.cluster_id)) w in
    let state = state_or_new (w'.hb_states s.node_id) in
    record w' { hb_states = put s.node_id (set_running service running state) w'.hb_states }

-- A message of the session at the reference `r`. `ok` says whether the statement of an ack or of a
-- result succeeds.
unfoldable pub handle_inbound : Env → Bool → (r : ℕ) → (hostname : String) → Inbound → World → World
unfolding handle_heartbeat handle_patroni_state handle_service_state_change handle_task_ack
    handle_task_result handle_backup_event
handle_inbound e ok r hostname (heartbeat hb) w = handle_heartbeat e r hostname hb w
handle_inbound e ok r hostname (patroni_state role prev_role) w =
    handle_patroni_state e r role prev_role w
handle_inbound e ok r hostname (service_state_change service running) w =
    handle_service_state_change r service running w
handle_inbound e ok r hostname (task_ack task) w = handle_task_ack ok task w
handle_inbound e ok r hostname (task_result task res repaired) w =
    handle_task_result e ok r task res repaired w
handle_inbound e ok r hostname (backup_event is_error repo message) w =
    handle_backup_event r is_error repo message w
handle_inbound e ok r hostname unknown w = w

-- The body of the loop of readPump.
unfoldable pub read_message : Env → Bool → (r : ℕ) → (hostname : String) → Inbound → World → World
unfolding handle_inbound
read_message e ok r hostname m w =
    handle_inbound e ok r hostname m (with_hub (touch_last_seen e.now r) w)
