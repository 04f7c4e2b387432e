-- ===== src/Failover/Tasks.antt =====
-- internal/server/hub/dispatcher.go (SendRaw, Dispatch, DispatchTask), over the statements of
-- internal/server/db/queries/task_results.go, and the manager's own dispatch helpers.
pub mod Adds
use netbox_conductor.Base.{
  ℕ, ◌+◌, String, Bool, true, false, ◌||◌, not, Option, none, some, List, [], ◌∷◌, ltb,
  if◌then◌else◌,
}
use netbox_conductor.Nodestate.{Node, is_app_role}
use netbox_conductor.Protocol.{
  TaskType, start_netbox, stop_netbox, update_db_host, update_redis_host, Params, no_params,
  host_params, TaskDispatchPayload, Envelope,
}
use netbox_conductor.Hub.{Hub, get, is_connected, send}
use netbox_conductor.Failover.State.{
  DispatchError, not_recorded, not_connected, buffer_full, Env, RequestPayload, inner, whole,
  Effect, recorded, marked_sent, delivered, World, do_effect,
}

-- `SendRaw`: the hub's answer, with the buffer after it.
send_raw : ℕ → Envelope → Option ℕ → World → Option DispatchError × World
send_raw node env none w = (some not_connected, w)
send_raw node env (some r) w =
    let (sent, hub) = send r env w.hub in
    let w' = record w { hub = hub } in
    if sent then (none, do_effect (delivered node env) w') else (some buffer_full, w')

mark_sent : Bool → ℕ → Option DispatchError × World → Option DispatchError × World
mark_sent ok id (some e, w) = (some e, w)
mark_sent ok id (none, w) = (none, if ok then do_effect (marked_sent id) w else w)

ack_timeout : ℕ → Option ℕ
ack_timeout secs = if ltb 0 secs then some secs else none

-- A task that cannot be recorded is not sent. Its id and the envelope's are the next two UUIDs.
unfoldable pub dispatch_task :
    Env → ℕ → TaskType → Params → ℕ → ℕ → World → Option DispatchError × World
unfolding send_raw mark_sent ack_timeout
dispatch_task e node type params timeout ack w =
    let id = w.next_uuid in
    let w1 = record w { next_uuid = id + 2 } in
    let w2 = do_effect (recorded node id type (inner params) (ack_timeout ack)) w1 in
    let env : Envelope = record {
      id = id + 1;
      payload = record { task_id = id; task_type = type; params = params; timeout_secs = timeout };
    } in
    if not (e.create_ok node type)
    then (some not_recorded, w1)
    else mark_sent e.set_sent_ok id (send_raw node env (get node w2.hub) w2)

unfoldable pub dispatch_service_task : Env → Node → TaskType → World → Option DispatchError × World
dispatch_service_task e n type w = dispatch_task e n.id type no_params 30 0 w

-- The bodies of the two loops over the nodes. A failed dispatch is logged, and the loop goes on.
db_host_update_on : Env → String → Node → World → World
db_host_update_on e host n w =
    if not (is_connected n.id w.hub)
    then w
    else (dispatch_task e n.id update_db_host (host_params host false) 30 0 w).1

redis_host_update_on : Env → String → Node → World → World
redis_host_update_on e host n w =
    if not (is_connected n.id w.hub)
    then w
    else if n.maintenance_mode || not (is_app_role n.role)
    then w
    else (dispatch_task e n.id update_redis_host (host_params host true) 30 0 w).1

unfoldable pub dispatch_db_host_update : Env → List Node → String → World → World
unfolding db_host_update_on
dispatch_db_host_update e [] host w = w
dispatch_db_host_update e (n ∷ ns) host w =
    dispatch_db_host_update e ns host (db_host_update_on e host n w)

unfoldable pub dispatch_redis_host_update : Env → List Node → String → World → World
unfolding redis_host_update_on
dispatch_redis_host_update e [] host w = w
dispatch_redis_host_update e (n ∷ ns) host w =
    dispatch_redis_host_update e ns host (redis_host_update_on e host n w)

-- The row stays "queued", until the agent connects and asks for it.
unfoldable pub enqueue_for_reconnect : Env → Node → TaskType → World → World
enqueue_for_reconnect e n type w =
    let id = w.next_uuid in
    let w1 = record w { next_uuid = id + 1 } in
    let payload : TaskDispatchPayload = record {
      task_id = id;
      task_type = type;
      params = no_params;
      timeout_secs = 30;
    } in
    if e.create_ok n.id type then do_effect (recorded n.id id type (whole payload) none) w1 else w1
