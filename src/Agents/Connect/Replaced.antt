-- ===== src/Agents/Connect/Replaced.antt =====
-- The end of a connection that another one has replaced.
use netbox_conductor.Base.{
  ℕ, String, ◌≡◌, ◌≢◌, some, lookup, insert, lookup-insert, Table, true, ◌==◌, arith,
}
use netbox_conductor.Nodestate.{Node}
use netbox_conductor.Hub.{Hub, new_session, register, unregister_if_same}
use netbox_conductor.Failover.State.{Env}
use netbox_conductor.Failover.Timers as Timers
use netbox_conductor.Agents.State.{World}
use netbox_conductor.Agents.Pending.{Answers}
use netbox_conductor.Agents.Pending.Hubs.{sessions-dispatch_pending}
use netbox_conductor.Agents.Connect.{connect_node, end_connection}

lookup-insert_self : (k r : ℕ) (t : Table ℕ) → lookup k (insert k r t) ≡ some r
lookup-insert_self k r t = let e = lookup-insert k k r t in ground arith

lookup-register :
    (now r : ℕ) (node : Node) (h : Hub)
    → lookup node.id (register r (new_session r node.id node.cluster_id now h)).sessions ≡ some r
unfolding register new_session
lookup-register now r node h =
    let same : (r == r) ≡ true = ground arith in rw same (lookup-insert_self node.id r _)

-- A connection is the node's current one from its start.
pub current-connect_node :
    (e : Env) (a : Answers) (delay r t : ℕ) (node : Node) (version : String) (w : World)
    → lookup node.id (connect_node e a delay r t node version w).manager.hub.sessions ≡ some r
unfolding connect_node Timers.on_node_connect
current-connect_node e a delay r t node version w =
    rw (sessions-dispatch_pending a e.now r node.id _) (lookup-register e.now r node w.manager.hub)

pub end_connection-other :
    (e : Env) (r r' : ℕ) (node : Node) (w : World)
    → r' ≢ r
    → lookup node.id w.manager.hub.sessions ≡ some r'
    → end_connection e r node w ≡ w
unfolding end_connection unregister_if_same
end_connection-other e r r' node w other c = rw c (ground arith)

-- When an agent has connected again, the end of its earlier connection changes nothing: the node stays
-- registered and its status "connected", its timers of failover, failback and settling run on, and
-- nobody is told of a disconnect.
pub end_connection-connect_node :
    (e e' : Env) (a : Answers) (delay r r' t : ℕ) (node : Node) (version : String) (w : World)
    → r' ≢ r
    → end_connection e' r node (connect_node e a delay r' t node version w)
      ≡ connect_node e a delay r' t node version w
end_connection-connect_node e e' a delay r r' t node version w other =
    end_connection-other e' r r' node (connect_node e a delay r' t node version w) other
      (current-connect_node e a delay r' t node version w)
