-- ===== src/Agents/Connect/Ended.antt =====
-- The end of a node's current connection.
use netbox_conductor.Base.{
  ℕ, ◌-◌, Bool, true, false, ◌&&◌, not, ◌≡◌, some, none, lookup, lookup-remove, ltb, ◌+◌, ◌==◌,
  if◌then◌else◌, arith,
}
use netbox_conductor.Nodestate.{Node}
use netbox_conductor.Hub.{Hub, is_connected, unregister_if_same}
use netbox_conductor.Failover.State.{Env, Timer, disconnect, attempt_failover_job}
use netbox_conductor.Failover.State as Manager
use netbox_conductor.Failover.Timers as Timers
use netbox_conductor.Failover.Timers.{startup_suppress_window, grace}
use netbox_conductor.Backups.Settling as Settling
use netbox_conductor.Backups.Settling.{Settling, settled}
use netbox_conductor.Agents.State.{World}
use netbox_conductor.Agents.Connect.{end_connection}

settled-on_node_disconnect :
    (node m : ℕ) (s : Settling)
    → settled m (Settling.on_node_disconnect node s) ≡ (if node == m then false else settled m s)
unfolding settled Settling.on_node_disconnect
settled-on_node_disconnect node m s = ground arith

-- The server has just started, so that no failover is armed.
abbrev pub starting : Env → Manager.World → Bool
starting e w = ltb (e.now - w.started_at) startup_suppress_window

on_node_disconnect-timers :
    (e : Env) (node cluster m : ℕ) (w : Manager.World)
    → let w' = Timers.on_node_disconnect e node cluster w in
      (w'.failback_timers m
        ≡ (if node == m && not (starting e w) then none else w.failback_timers m))
      × (w'.fail_timers m ≡ (
          if node == m && not (starting e w)
          then some (record {
            due = e.now + grace e cluster;
            job = attempt_failover_job node cluster true disconnect;
          })
          else w.fail_timers m))
unfolding Timers.on_node_disconnect
on_node_disconnect-timers e node cluster m w = ground arith

gone-unregister_if_same :
    (node r : ℕ) (h : Hub)
    → lookup node h.sessions ≡ some r
    → (unregister_if_same node r h).0 ≡ true
unfolding unregister_if_same
gone-unregister_if_same node r h c = rw c (ground arith)

is_connected-unregister_if_same :
    (node r m : ℕ) (h : Hub)
    → lookup node h.sessions ≡ some r
    → is_connected m (unregister_if_same node r h).1
      ≡ (if node == m then false else is_connected m h)
unfolding unregister_if_same is_connected
is_connected-unregister_if_same node r m h c =
    let l = lookup-remove node m h.sessions in rw c (ground arith)

hub-on_node_disconnect :
    (e : Env) (node cluster : ℕ) (w : Manager.World)
    → (Timers.on_node_disconnect e node cluster w).hub ≡ w.hub
unfolding Timers.on_node_disconnect
hub-on_node_disconnect e node cluster w = ground arith

-- When a node's current connection ends, the node and no other becomes disconnected and unsettled. After
-- the startup window the node's failback is off, and a failover of it is due after the cluster's
-- grace period, which will look whether the node is back; in the startup window the timers of the node
-- stay as they are, and those of other nodes always do.
pub end_connection-current :
    (e : Env) (r : ℕ) (node : Node) (m : ℕ) (w : World)
    → lookup node.id w.manager.hub.sessions ≡ some r
    → let w' = end_connection e r node w in
      (is_connected m w'.manager.hub
        ≡ (if node.id == m then false else is_connected m w.manager.hub))
      × (settled m w'.settling ≡ (if node.id == m then false else settled m w.settling))
      × (w'.manager.failback_timers m ≡ (
          if node.id == m && not (starting e w.manager) then none else w.manager.failback_timers m))
      × (w'.manager.fail_timers m ≡ (
          if node.id == m && not (starting e w.manager)
          then some (record {
            due = e.now + grace e node.cluster_id;
            job = attempt_failover_job node.id node.cluster_id true disconnect;
          })
          else w.manager.fail_timers m))
unfolding end_connection
end_connection-current e r node m w c =
    let g = record w.manager { hub = (unregister_if_same node.id r w.manager.hub).1 } in
    let timers = on_node_disconnect-timers e node.id node.cluster_id m g in
    rw (gone-unregister_if_same node.id r w.manager.hub c) (
      rw (hub-on_node_disconnect e node.id node.cluster_id g)
          (is_connected-unregister_if_same node.id r m w.manager.hub c),
      settled-on_node_disconnect node.id m w.settling,
      timers.0,
      timers.1,
    )
