-- ===== src/Agents/Hosts.antt =====
-- handlePatroniState of internal/server/api/handlers/agent.go, and dispatchDBHostUpdate, which gives the
-- nodes of a cluster the address of a new primary.
use Prim.Native.Char.{code}
use netbox_conductor.Base.{
  ℕ, String, true, ◌||◌, not, Option, none, some, List, [], ◌∷◌, ◌==◌, str_eq, if◌then◌else◌,
}
use netbox_conductor.Nodestate.{Node}
use netbox_conductor.Protocol.{update_db_host, host_params}
use netbox_conductor.Hub.{is_connected}
use netbox_conductor.Failover.State.{Cluster, Env}
use netbox_conductor.Failover.State as Manager
use netbox_conductor.Failover.Tasks.{dispatch_task}
use netbox_conductor.Agents.State.{World, note, role_published, run_manager}

-- `stripCIDR`.
unfoldable pub strip_cidr : String → String
strip_cidr String.[] = String.[]
strip_cidr (String.◌∷◌ c s) =
    let rest = strip_cidr s in if code c == b'/' then String.[] else String.◌∷◌ c rest

-- The loop of dispatchDBHostUpdate. A failed dispatch is logged, and the loop goes on.
push_host : Env → String → List Node → Manager.World → Manager.World
push_host e host [] m = m
push_host e host (n ∷ ns) m = push_host e host ns (
    if not (is_connected n.id m.hub)
    then m
    else (dispatch_task e n.id update_db_host (host_params host true) 60 0 m).1)

with_primary : Env → ℕ → Option Node → Manager.World → Manager.World
unfolding push_host
with_primary e cluster none m = m
with_primary e cluster (some primary) m = elim (e.nodes cluster) [
  | none ↦ m
  | some ns ↦ push_host e (strip_cidr primary.ip_address) ns m
]

unfoldable pub dispatch_db_host_update : Env → (primary cluster : ℕ) → Manager.World → Manager.World
unfolding with_primary
dispatch_db_host_update e primary cluster m = elim (e.cluster cluster) [
  | none ↦ m
  | some c ↦
      if not c.app_tier_always_available || not c.patroni_configured
      then m
      else with_primary e cluster (e.node primary) m
]

unfoldable pub handle_patroni_state : Env → (r : ℕ) → (role prev_role : String) → World → World
unfolding dispatch_db_host_update
handle_patroni_state e r role prev_role w =
    let s = w.manager.hub.heap r in
    let w' = note (role_published s.node_id role prev_role) w in
    if str_eq role "primary"
    then run_manager e (dispatch_db_host_update e s.node_id s.cluster_id) w'
    else w'
