-- ===== src/Failover/Topology.antt =====
-- CheckTopology: whether the primary is on the connected node of the highest priority.
pub mod Target
use netbox_conductor.Base.{
  ℕ, ◌||◌, not, Option, none, some, List, [], ◌∷◌, ◌==◌, str_eq, if◌then◌else◌,
}
use netbox_conductor.Nodestate.{Node, extract_patroni_role, is_primary_role}
use netbox_conductor.Failover.State.{Cluster, Env, World}
use netbox_conductor.Failover.Switchover.{trigger_patroni_switchover}
use netbox_conductor.Failover.Failback.{best_connected}

-- The last node that reports to be the primary, connected or not; `leader` is the last so far.
current_leader_from : Option Node → List Node → Option Node
current_leader_from leader [] = leader
current_leader_from leader (n ∷ ns) =
    current_leader_from
      (if is_primary_role (extract_patroni_role n.patroni_state) then some n else leader) ns

unfoldable pub current_leader : List Node → Option Node
unfolding current_leader_from
current_leader ns = current_leader_from none ns

module _ (e : Env) (c : Cluster) where
  prefer : List Node → Option Node → Option Node → World → World
  prefer ns none highest w = w
  prefer ns (some leader) none w = w
  prefer ns (some leader) (some highest) w =
      if leader.id == highest.id
      then w
      else (trigger_patroni_switchover e c highest ns leader.id w).1

  topology_with_nodes : Option (List Node) → World → World
  unfolding prefer
  topology_with_nodes none w = w
  topology_with_nodes (some ns) w = prefer ns (current_leader ns) (best_connected w.hub ns) w

topology_with_cluster : Env → ℕ → Option Cluster → World → World
unfolding topology_with_nodes
topology_with_cluster e cluster_id none w = w
topology_with_cluster e cluster_id (some c) w =
    if not c.patroni_configured || not (str_eq c.mode "active_standby")
    then w
    else topology_with_nodes e c (e.nodes cluster_id) w

unfoldable pub check_topology : Env → ℕ → World → World
unfolding topology_with_cluster
check_topology e cluster_id w = topology_with_cluster e cluster_id (e.cluster cluster_id) w
