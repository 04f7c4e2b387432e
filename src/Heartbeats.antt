-- ===== src/Heartbeats.antt =====
-- internal/server/events/heartbeat_processor.go, over events/event.go and events/codes.go: the
-- events that a heartbeat gives.
pub mod Balance
use Prim.Native.String.{◌++◌}
use netbox_conductor.Base.{
  ℕ, String, Bool, true, false, ◌&&◌, ◌||◌, not, Option, none, some, List, [], ◌∷◌, ◌++◌ as append,
  str_eq, if◌then◌else◌,
}

-- Two Booleans are equal.
abbrev pub same : Bool → Bool → Bool
same true b = b
same false b = not b

pub record HeartbeatState : Type 0 where
  pub netbox_running : Option Bool
  pub rq_running : Option Bool
  pub patroni_running : Option Bool
  pub postgres_running : Option Bool
  pub redis_running : Option Bool
  pub sentinel_running : Option Bool
  pub patroni_role : String

-- `&HeartbeatState{}`.
abbrev pub no_state : HeartbeatState
no_state = record {
  netbox_running = none;
  rq_running = none;
  patroni_running = none;
  postgres_running = none;
  redis_running = none;
  sentinel_running = none;
  patroni_role = "";
}

-- The services of a node.
pub data Service : Type 0 where
  netbox rq patroni postgres redis sentinel : Service

pub record HeartbeatInput : Type 0 where
  pub node_id : ℕ
  pub cluster_id : ℕ
  pub hostname : String
  pub netbox_running : Bool
  pub rq_running : Bool
  pub patroni_running : Bool
  pub postgres_running : Bool
  pub redis_running : Bool
  pub sentinel_running : Bool
  pub patroni_role : String

-- An event but for its id, its time and the actor, which is "system".
pub record Event : Type 0 where
  pub category : String
  pub severity : String
  pub code : String
  pub message : String
  pub cluster_id : Option ℕ
  pub node_id : Option ℕ
  pub metadata : List (String × String)

service_event : HeartbeatInput → String → String → String → Event
service_event hb severity code message = record {
  category = "service";
  severity = severity;
  code = code;
  message = message ++ hb.hostname;
  cluster_id = some hb.cluster_id;
  node_id = some hb.node_id;
  metadata = [];
}

-- The closure `boolTransition`, with the messages up to the host's name.
unfoldable pub bool_transition :
    HeartbeatInput → Option Bool → Bool → (start stop start_msg stop_msg : String) → List Event
unfolding service_event
bool_transition hb none cur start stop start_msg stop_msg = []
bool_transition hb (some prev) cur start stop start_msg stop_msg =
    if same prev cur
    then []
    else if cur
    then service_event hb "info" start start_msg ∷ []
    else service_event hb "error" stop stop_msg ∷ []

pub role_change : String → HeartbeatInput → List Event
role_change prev hb =
    if not (str_eq prev "")
      && (not (str_eq hb.patroni_role "") && not (str_eq prev hb.patroni_role))
    then record {
      category = "ha";
      severity = "info";
      code = "NBC-HA-006";
      message =
          "Patroni role changed on "
          ++ (hb.hostname ++ (": " ++ (prev ++ (" → " ++ hb.patroni_role))));
      cluster_id = some hb.cluster_id;
      node_id = some hb.node_id;
      metadata = ("prev_role", prev) ∷ ("new_role", hb.patroni_role) ∷ [];
    }
      ∷ []
    else []

unfoldable pub process : HeartbeatState → HeartbeatInput → List Event
unfolding bool_transition role_change
process prev hb =
    append
      (bool_transition hb prev.netbox_running hb.netbox_running "NBC-SVC-001" "NBC-SVC-002"
        "NetBox started on " "NetBox stopped on ")
      (append
        (bool_transition hb prev.rq_running hb.rq_running "NBC-SVC-003" "NBC-SVC-004"
          "RQ worker started on " "RQ worker stopped on ")
        (append
          (bool_transition hb prev.patroni_running hb.patroni_running "NBC-SVC-005" "NBC-SVC-006"
            "Patroni started on " "Patroni stopped on ")
          (append
            (bool_transition hb prev.postgres_running hb.postgres_running "NBC-SVC-007"
              "NBC-SVC-008" "PostgreSQL became ready on " "PostgreSQL became unavailable on ")
            (append
              (bool_transition hb prev.redis_running hb.redis_running "NBC-SVC-009" "NBC-SVC-010"
                "Redis started on " "Redis stopped on ")
              (append
                (bool_transition hb prev.sentinel_running hb.sentinel_running "NBC-SVC-011"
                  "NBC-SVC-012" "Sentinel started on " "Sentinel stopped on ")
                (role_change prev.patroni_role hb))))))

unfoldable pub update : HeartbeatState → HeartbeatInput → HeartbeatState
update s hb = record {
  netbox_running = some hb.netbox_running;
  rq_running = some hb.rq_running;
  patroni_running = some hb.patroni_running;
  postgres_running = some hb.postgres_running;
  redis_running = some hb.redis_running;
  sentinel_running = some hb.sentinel_running;
  patroni_role = hb.patroni_role;
}

-- A node's heartbeats in turn, as the caller processes them, from the state that it has kept of the node.
-- That outlives sessions; a message about a service in between changes it too
-- (Agents.Inbound.handle_service_state_change).
unfoldable pub process_all : HeartbeatState → List HeartbeatInput → List Event
unfolding process update
process_all s [] = []
process_all s (hb ∷ hbs) = append (process s hb) (process_all (update s hb) hbs)
