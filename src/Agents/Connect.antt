-- ===== src/Agents/Connect.antt =====
-- connectNode of internal/server/api/handlers/agent.go: what an agent's connection does when it begins,
-- and the deferred function that runs when it ends.
pub mod Replaced
pub mod Ended
use Prim.Native.String.{◌++◌}
use netbox_conductor.Base.{ℕ, String, Bool, true, false, some, [], ◌∷◌, if◌then◌else◌}
use netbox_conductor.Nodestate.{Node}
use netbox_conductor.Hub.{Hub, new_session, register, unregister_if_same}
use netbox_conductor.Failover.State.{Env}
use netbox_conductor.Failover.Timers as Timers
use netbox_conductor.Heartbeats.{Event}
use netbox_conductor.Backups.Settling as Settling
use netbox_conductor.Agents.State.{
  World, note, with_hub, agent_status_written, token_touched, status_published, hello_written,
  emitted,
}
use netbox_conductor.Agents.Pending.{Answers, dispatch_pending}

abbrev pub agent_event : Node → (severity code message : String) → Event
agent_event node severity code message = record {
  category = "agent";
  severity = severity;
  code = code;
  message = message;
  cluster_id = some node.cluster_id;
  node_id = some node.id;
  metadata = [];
}

abbrev connected_event : Node → String → Event
connected_event node version =
    agent_event node "info" "NBC-AGT-001"
      ("Agent connected: " ++ (node.hostname ++ (" (v" ++ (version ++ ")"))))

abbrev disconnected_event : Node → Event
disconnected_event node =
    agent_event node "warn" "NBC-AGT-002" ("Agent disconnected: " ++ node.hostname)

-- The session's object is at the reference `r`, and the settle timer's at `t`.
register_session : (now r : ℕ) → Node → World → World
register_session now r node =
    with_hub (λ h. register r (new_session r node.id node.cluster_id now h))

settle : (now delay t : ℕ) → Node → World → World
settle now delay t node w = record w {
  settling = Settling.on_node_connect now delay t node.id w.settling;
}

deliver_pending : Answers → (now r : ℕ) → Node → World → World
deliver_pending a now r node w =
    let d = dispatch_pending a now r node.id (record { hub = w.manager.hub; tasks = w.tasks }) in
    record w { manager = record w.manager { hub = d.hub }; tasks = d.tasks }

-- Up to the start of the pumps. `delay` is the settle delay of the node's cluster.
unfoldable pub connect_node :
    Env → Answers → (delay r t : ℕ) → Node → (version : String) → World → World
unfolding register_session settle deliver_pending
connect_node e a delay r t node version w =
    let w1 = register_session e.now r node w in
    let w2 = note (token_touched node.id) (note (agent_status_written node.id true) w1) in
    let w3 = record w2 { manager = Timers.on_node_connect e node.id node.cluster_id w2.manager } in
    let w4 = settle e.now delay t node w3 in
    let w5 =
      note (hello_written (e.cluster node.cluster_id))
        (note (emitted (connected_event node version)) w4) in
    deliver_pending a e.now r node (note (status_published node.id true) w5)

-- After UnregisterIfSame has removed the session.
announce_end : Env → Node → World → World
announce_end e node w =
    let w1 = note (status_published node.id false) (note (agent_status_written node.id false) w) in
    let w2 = record w1 {
      manager = Timers.on_node_disconnect e node.id node.cluster_id w1.manager;
    } in
    let w3 = record w2 { settling = Settling.on_node_disconnect node.id w2.settling } in
    note (emitted (disconnected_event node)) w3

-- The deferred function of the connection whose session is at the reference `r`.
unfoldable pub end_connection : Env → (r : ℕ) → Node → World → World
unfolding announce_end
end_connection e r node w =
    let (same, h) = unregister_if_same node.id r w.manager.hub in
    let w' = record w { manager = record w.manager { hub = h } } in
    if same then announce_end e node w' else w'
