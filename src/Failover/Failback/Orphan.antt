-- ===== src/Failover/Failback/Orphan.antt =====
-- Where NetBox is started when no node but the one that reconnected runs it.
use netbox_conductor.Base.{
  ℕ, ◌≤◌, ◌⊎◌, true, ◌&&◌, ◌≡◌, ◌↔◌, sym, none, some, List, [], ◌∷◌, arith, Bool-cases, inl, inr,
  ltb, All, In,
}
use netbox_conductor.Nodestate.{Node}
use netbox_conductor.Protocol.{start_netbox}
use netbox_conductor.Hub.{Hub, is_connected}
use netbox_conductor.Failover.State.{Cluster, Env, World}
use netbox_conductor.Failover.Tasks.Adds.{dispatch_start-has}
use netbox_conductor.Failover.Failback.{
  current_active, best_connected_from, best_connected, recover_orphan, failback_active_standby_from,
  attempt_failback_active_standby,
}
use netbox_conductor.Failover.Log.{has, records_start}

-- A connected node of the list, of the highest priority among the connected ones.
abbrev pub IsTopConnected : Hub → List Node → Node → Type 0
IsTopConnected hub ns b =
    In b ns
    × (is_connected b.id hub ≡ true)
    × All (λ n. is_connected n.id hub ≡ true → n.failover_priority ≤ b.failover_priority) ns

-- The same for what the loop has found: the best so far, or a node that follows.
abbrev IsTopFrom : Hub → Node → List Node → Node → Type 0
IsTopFrom hub b ns r =
    ((r ≡ b) ⊎ (In r ns × (is_connected r.id hub ≡ true)))
    × (b.failover_priority ≤ r.failover_priority)
    × All (λ n. is_connected n.id hub ≡ true → n.failover_priority ≤ r.failover_priority) ns

best_connected_from-some :
    (hub : Hub) (b r : Node) (ns : List Node)
    → best_connected_from hub (some b) ns ≡ some r
    → IsTopFrom hub b ns r
unfolding best_connected_from
best_connected_from-some hub b r [] e = (inl (ground arith), ground arith, tt)
best_connected_from-some hub b r (n ∷ ns) e =
    elim (Bool-cases (is_connected n.id hub && ltb b.failover_priority n.failover_priority)) [
      | inl better ↦
          let (found, above, top) = best_connected_from-some hub n r ns (rw better at e) in
          (inr (found_here found (ground arith)), ground arith, (λ h. above, top))
      | inr worse ↦
          let (found, above, top) = best_connected_from-some hub b r ns (rw worse at e) in
          (found_later found, above, (λ h. ground arith, top))
    ]
  where
    found_here :
        (r ≡ n) ⊎ (In r ns × (is_connected r.id hub ≡ true))
        → is_connected n.id hub ≡ true
        → ((n ≡ r) ⊎ In r ns) × (is_connected r.id hub ≡ true)
    found_here (inl same) on = (inl (sym same), rw same on)
    found_here (inr (there, up)) on = (inr there, up)

    found_later :
        (r ≡ b) ⊎ (In r ns × (is_connected r.id hub ≡ true))
        → (r ≡ b) ⊎ (((n ≡ r) ⊎ In r ns) × (is_connected r.id hub ≡ true))
    found_later (inl same) = inl same
    found_later (inr (there, up)) = inr (inr there, up)

best_connected_from-none :
    (hub : Hub) (r : Node) (ns : List Node)
    → best_connected_from hub none ns ≡ some r
    → IsTopConnected hub ns r
unfolding best_connected_from
best_connected_from-none hub r [] e = absurd (ground arith)
best_connected_from-none hub r (n ∷ ns) e = elim (Bool-cases (is_connected n.id hub)) [
  | inr off ↦
      let (there, up, top) = best_connected_from-none hub r ns (rw off at e) in
      (inr there, up, (λ h. absurd (ground arith), top))
  | inl on ↦
      let (found, above, top) = best_connected_from-some hub n r ns (rw on at e) in
      let (there, up) = first_or_later found on in (there, up, (λ h. above, top))
]
  where
    first_or_later :
        (r ≡ n) ⊎ (In r ns × (is_connected r.id hub ≡ true))
        → is_connected n.id hub ≡ true
        → ((n ≡ r) ⊎ In r ns) × (is_connected r.id hub ≡ true)
    first_or_later (inl same) on = (inl (sym same), rw same on)
    first_or_later (inr (there, up)) on = (inr there, up)

pub best_connected-IsTop :
    (hub : Hub) (ns : List Node) (b : Node)
    → best_connected hub ns ≡ some b
    → IsTopConnected hub ns b
unfolding best_connected
best_connected-IsTop hub ns b e = best_connected_from-none hub b ns e

-- When no connected node other than the one that reconnected runs NetBox and automatic failover is on, a
-- failback starts NetBox on the connected node of the highest priority, if the task can be written,
-- and on no other node. It does so whatever the role of that node, whether or not it is in maintenance or
-- the cluster in a restore, and also if the node that reconnected runs NetBox itself, so that then two
-- nodes may run it. The log is empty at first.
pub failback_active_standby-orphan :
    (e : Env) (c : Cluster) (reconnected : Node) (ns : List Node) (w : World) (b : Node) (m : ℕ)
    → current_active w.hub reconnected.id ns ≡ none
    → c.auto_failover ≡ true
    → best_connected w.hub ns ≡ some b
    → w.log ≡ []
    → IsTopConnected w.hub ns b
      × ((has (records_start m) (attempt_failback_active_standby e c reconnected ns w).log ≡ true)
          ↔ ((b.id ≡ m) × (e.create_ok b.id start_netbox ≡ true)))
unfolding attempt_failback_active_standby failback_active_standby_from recover_orphan
failback_active_standby-orphan e c reconnected ns w b m idle automatic best empty = (
  best_connected-IsTop w.hub ns b best,
  simp (idle, automatic, best, dispatch_start-has, empty) (ground arith),
)
