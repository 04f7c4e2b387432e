-- ===== src/Failover/Candidate.antt =====
-- bestCandidate: the node that NetBox moves to.
pub mod Best
use netbox_conductor.Base.{
  ℕ, String, Bool, true, false, ◌&&◌, ◌||◌, not, Option, none, some, List, [], ◌∷◌, ◌==◌, keep,
  if◌then◌else◌,
}
use netbox_conductor.Nodestate.{
  Node, extract_patroni_role_strict, StateError, is_app_role, compute_node_health, is_healthy,
}
use netbox_conductor.Hub.{Hub, is_connected}
use netbox_conductor.Failover.State.{Env}

-- The node may run NetBox, is not excluded, and its agent is connected.
unfoldable pub eligible : Hub → ℕ → Node → Bool
eligible hub excluded n =
    if n.id == excluded
    then false
    else if n.maintenance_mode || (n.suppress_auto_start || not (is_app_role n.role))
    then false
    else is_connected n.id hub

healthy_with : Node → String × Option StateError → Bool
healthy_with n (role, some err) = false
healthy_with n (role, none) =
    is_healthy (compute_node_health n.role "connected" n.netbox_running n.rq_running role false)

-- A node whose Patroni state is malformed is passed over.
unfoldable pub healthy_candidate : Node → Bool
unfolding healthy_with
healthy_candidate n = healthy_with n (extract_patroni_role_strict n.patroni_state)

abbrev first_healthy : Option Node → List Node → Option Node
first_healthy fallback [] = fallback
first_healthy fallback (n ∷ ns) =
    let rest = first_healthy fallback ns in if healthy_candidate n then some n else rest

abbrev head? : List Node → Option Node
head? [] = none
head? (n ∷ ns) = some n

abbrev pub choose : List Node → Option Node
choose ns = first_healthy (head? ns) ns

best_of : Hub → ℕ → Option (List Node) → Option (Option Node)
best_of hub excluded none = none
best_of hub excluded (some ns) = some (choose (keep (eligible hub excluded) ns))

-- `none` is the error of ListByCluster, `some none` that there is no candidate.
unfoldable pub best_candidate : Env → ℕ → ℕ → Hub → Option (Option Node)
unfolding best_of
best_candidate e cluster excluded hub = best_of hub excluded (e.nodes cluster)
