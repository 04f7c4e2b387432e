-- ===== src/Failover/Topology/Target.antt =====
-- What a topology check asks of Patroni.
use netbox_conductor.Base.{
  ℕ, Bool, true, false, ◌||◌, not, ◌≡◌, ◌≢◌, ◌⊎◌, some, List, [], ◌∷◌, str_eq, Bool-cases,
  Option-cases, inl, inr, refl, ◌==◌, arith,
}
use netbox_conductor.Nodestate.{Node, extract_patroni_role_strict}
use netbox_conductor.Hub.{Hub}
use netbox_conductor.Failover.State.{Cluster, Env, Effect, rest_called, World}
use netbox_conductor.Failover.Switchover.{
  connected_primary, rest_request, movable, trigger_patroni_switchover,
}
use netbox_conductor.Failover.Failback.{best_connected}
use netbox_conductor.Failover.Failback.Orphan.{IsTopConnected, best_connected-IsTop}
use netbox_conductor.Failover.Topology.{
  current_leader, prefer, topology_with_nodes, topology_with_cluster, check_topology,
}

-- What must hold for a call: `best` is a replica that Patroni's configured cluster may move to, and not
-- `leader`, the last node that reports to be the primary.
pub record IsMove (e : Env) (cluster_id : ℕ) (hub : Hub) : Type 0 where
  pub c : Cluster
  pub ns : List Node
  pub leader : Node
  pub best : Node
  pub cluster : e.cluster cluster_id ≡ some c
  pub listed : e.nodes cluster_id ≡ some ns
  pub configured : c.patroni_configured ≡ true
  pub mode : str_eq c.mode "active_standby" ≡ true
  pub primary : current_leader ns ≡ some leader
  pub top : IsTopConnected hub ns best
  pub apart : leader.id ≢ best.id
  pub replica : movable (extract_patroni_role_strict best.patroni_state) ≡ true

abbrev pub Moves : Env → ℕ → World → List Effect → Type 0
Moves e cluster_id w log =
    (m : IsMove e cluster_id w.hub) × (log
      ≡ rest_called (rest_request e m.best m.ns m.leader.id (connected_primary w.hub m.ns)) ∷ [])

switchover-cases :
    (e : Env) (c : Cluster) (n : Node) (ns : List Node) (failing : ℕ) (w : World)
    → w.log ≡ []
    → let log = (trigger_patroni_switchover e c n ns failing w).1.log in
      (log ≡ [])
      ⊎ ((c.patroni_configured ≡ true)
          × (str_eq c.mode "active_standby" ≡ true)
          × (movable (extract_patroni_role_strict n.patroni_state) ≡ true)
          × (log ≡ rest_called (rest_request e n ns failing (connected_primary w.hub ns)) ∷ []))
unfolding trigger_patroni_switchover
switchover-cases e c n ns failing w empty =
    elim (Bool-cases (not c.patroni_configured || not (str_eq c.mode "active_standby"))) [
      | inl off ↦ rw off (inl empty)
      | inr on ↦ rw on (elim (Bool-cases (movable (extract_patroni_role_strict n.patroni_state))) [
        | inr b ↦ rw b (inl empty)
        | inl b ↦ rw (b, empty) (inr (configured _ _ on, mode _ _ on, refl, refl))
      ])
    ]
  where
    configured : (a b : Bool) → (not a || not b) ≡ false → a ≡ true
    configured a b h = ground arith

    mode : (a b : Bool) → (not a || not b) ≡ false → b ≡ true
    mode a b h = ground arith

-- A topology check of a log that is empty at first either does nothing, or makes one REST call, and then
-- the connected node of the highest priority is a replica, and the last node of the list that reports to
-- be the primary is another node, connected or not. The call asks the first connected node that
-- reports to be the primary for a switchover from itself to that replica; if there is none, it asks the
-- replica for a forced failover from the last node that reports to be the primary.
pub check_topology-Moves :
    (e : Env) (cluster_id : ℕ) (w : World)
    → w.log ≡ []
    → let log = (check_topology e cluster_id w).log in (log ≡ []) ⊎ Moves e cluster_id w log
unfolding check_topology topology_with_cluster topology_with_nodes prefer
check_topology-Moves e cluster_id w empty = elim (Option-cases (e.cluster cluster_id)) [
  | inl hc ↦ rw hc (inl empty)
  | inr (c, hc) ↦
      rw hc (elim (Bool-cases (not c.patroni_configured || not (str_eq c.mode "active_standby"))) [
        | inl off ↦ rw off (inl empty)
        | inr on ↦ rw on (elim (Option-cases (e.nodes cluster_id)) [
          | inl hn ↦ rw hn (inl empty)
          | inr (ns, hn) ↦ rw hn (elim (Option-cases (current_leader ns)) [
            | inl no_leader ↦ rw no_leader (inl empty)
            | inr (leader, primary) ↦ rw primary (elim (Option-cases (best_connected w.hub ns)) [
              | inl alone ↦ rw alone (inl empty)
              | inr (best, found) ↦ rw found (elim (Bool-cases (leader.id == best.id)) [
                | inl same ↦ rw same (inl empty)
                | inr apart ↦ rw apart (elim (switchover-cases e c best ns leader.id w empty) [
                  | inl quiet ↦ inl quiet
                  | inr (set, mode, replica, log) ↦ inr (
                    record {
                      c = c;
                      ns = ns;
                      leader = leader;
                      best = best;
                      cluster = hc;
                      listed = hn;
                      configured = set;
                      mode = mode;
                      primary = primary;
                      top = best_connected-IsTop w.hub ns best found;
                      apart = differs leader.id best.id apart;
                      replica = replica;
                    },
                    log,
                  )
                ])
              ])
            ])
          ])
        ])
      ])
]
  where
    differs : (a b : ℕ) → (a == b) ≡ false → a ≢ b
    differs a b h = ground arith
