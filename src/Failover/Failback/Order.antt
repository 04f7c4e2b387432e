-- ===== src/Failover/Failback/Order.antt =====
-- Failback moves NetBox up in priority only, and stops it before it starts it.
use netbox_conductor.Base.{
  ℕ, ◌<◌, String, Bool, true, false, ◌||◌, not, ◌≡◌, refl, Option, none, some, List, [], ◌∷◌, arith,
  Bool-cases, inl, inr, is_true, str_eq, leb, ltb, count,
}
use netbox_conductor.Nodestate.{Node, is_app_role}
use netbox_conductor.Protocol.{start_netbox, stop_netbox}
use netbox_conductor.Hub.{is_connected}
use netbox_conductor.Failover.State.{Cluster, DispatchError, Env, RestError, World}
use netbox_conductor.Failover.Events.{emit_ha_event, publish}
use netbox_conductor.Failover.Tasks.Adds.{
  dispatch_service_task-Adds, dispatch_db_host_update-Adds, dispatch_redis_host_update-Adds,
  dispatch_stop-has,
}
use netbox_conductor.Failover.Switchover.{bare_ip, trigger_patroni_switchover}
use netbox_conductor.Failover.Attempt.Adds.{switchover-Adds, trigger_patroni_switchover-Adds}
use netbox_conductor.Failover.Failback.{
  current_active, other_primary, update_hosts, moved_primary, hosts_of_primary, start_reconnected,
  failback_always_available_from, attempt_failback_always_available, failback_started,
  failback_stopped, move_back, failback_active_standby_from, attempt_failback_active_standby,
  attempt_failback, failback_with_cluster, failback_with_node, failback_with_nodes,
}
use netbox_conductor.Failover.Log.{
  NotTask, Adds, same, more, Adds-trans, Before, Before-Adds, Before-later, has, is_start,
  is_start_task, delivers_stop, is_stop, is_stop_task, any_task, not_start, not_stop, count-Adds,
}

module _ (e : Env) (c : Cluster) (reconnected : Node) (ns : List Node) where
  failback_started-Adds :
      (active : Node) (r : Option DispatchError × World)
      → Adds (NotTask any_task) r.1.log (failback_started e c reconnected ns active r).log
  unfolding failback_started publish emit_ha_event
  failback_started-Adds active (some err, w) = more tt same
  failback_started-Adds active (none, w) = more tt (more tt same)

  -- After the stop of the active node was dispatched: either it failed, and nothing is started, or it
  -- was handed to the agent.
  failback_stopped-Before :
      (active : Node) (r : Option DispatchError × World)
      → (r.0 ≡ none → has (delivers_stop active.id) r.1.log ≡ true)
      → Before (delivers_stop active.id) is_start r.1.log
      → Before (delivers_stop active.id) is_start (failback_stopped e c reconnected ns active r).log
  unfolding failback_stopped emit_ha_event
  failback_stopped-Before active (some err, w) h b = (λ p. cc, b)
  failback_stopped-Before active (none, w) h b =
      Before-later (delivers_stop active.id) is_start (h refl)
        (Adds-trans (dispatch_service_task-Adds any_task e reconnected start_netbox w refl)
          (failback_started-Adds active _))
        b

  move_back-Before :
      (active : Node) (w : World)
      → Before (delivers_stop active.id) is_start w.log
      → Before (delivers_stop active.id) is_start (move_back e c reconnected ns active w).log
  unfolding move_back emit_ha_event
  move_back-Before active w b = failback_stopped-Before active _ (dispatch_stop-has e active _) (
      Before-Adds (delivers_stop active.id) is_start not_start
        (Adds-trans
          (Adds-trans (more tt same)
            (switchover-Adds is_start_task e c reconnected ns active.id _ refl refl))
          (dispatch_service_task-Adds is_start_task e active stop_netbox _ refl))
        b)

  -- When another node runs NetBox, a failback in an active/standby cluster starts NetBox only after
  -- a stop was handed to the agent of that node, and only if the reconnected node has a higher
  -- priority.
  pub failback_active_standby-order :
      (active : Node) (w : World)
      → current_active w.hub reconnected.id ns ≡ some active
      → w.log ≡ []
      → let log = (attempt_failback_active_standby e c reconnected ns w).log in
        Before (delivers_stop active.id) is_start log
        × (has is_start log ≡ true → active.failover_priority < reconnected.failover_priority)
  unfolding attempt_failback_active_standby failback_active_standby_from
  failback_active_standby-order active w current empty =
      let nothing : Before (delivers_stop active.id) is_start w.log = rw empty tt in
      rw current (elim (Bool-cases (leb reconnected.failover_priority active.failover_priority)) [
        | inl lower ↦ rw (lower, empty) (tt, λ h. absurd (cc))
        | inr higher ↦ rw higher (move_back-Before active w nothing, λ h. ground arith)
      ])

  update_hosts-Adds :
      (ms : List Node) (host : String) (w : World)
      → Adds (NotTask is_stop_task) w.log (update_hosts e ms host w).log
  unfolding update_hosts
  update_hosts-Adds ms host w =
      Adds-trans (dispatch_db_host_update-Adds is_stop_task e ms host w refl)
        (dispatch_redis_host_update-Adds is_stop_task e ms host _ refl)

  moved_primary-Adds :
      (primary : Node) (r : (Bool × Option RestError) × World)
      → Adds (NotTask is_stop_task) r.1.log (moved_primary e c reconnected ns primary r).log
  unfolding moved_primary publish emit_ha_event
  moved_primary-Adds primary ((true, err), w) =
      Adds-trans (update_hosts-Adds ns (bare_ip reconnected.ip_address) w) (more tt (more tt same))
  moved_primary-Adds primary ((false, err), w) = more tt (more tt same)

  hosts_of_primary-Adds :
      (primary : Option Node) (w : World)
      → Adds (NotTask is_stop_task) w.log (hosts_of_primary e c reconnected ns primary w).log
  unfolding hosts_of_primary
  hosts_of_primary-Adds none w = same
  hosts_of_primary-Adds (some p) w = update_hosts-Adds (reconnected ∷ []) (bare_ip p.ip_address) w

  start_reconnected-Adds :
      (primary : Option Node) (w : World)
      → Adds (NotTask is_stop_task) w.log (start_reconnected e c reconnected ns primary w).log
  unfolding start_reconnected
  start_reconnected-Adds primary w = elim (Bool-cases (is_true reconnected.netbox_running)) [
    | inl running ↦ rw running same
    | inr stopped ↦ rw stopped (
        Adds-trans (hosts_of_primary-Adds primary w)
          (dispatch_service_task-Adds is_stop_task e reconnected start_netbox _ refl))
  ]

  always_available-Adds :
      (primary : Option Node) (w : World)
      → Adds
          (NotTask is_stop_task)
          w.log
          (failback_always_available_from e c reconnected ns primary w).log
  unfolding failback_always_available_from
  always_available-Adds none w = start_reconnected-Adds none w
  always_available-Adds (some p) w =
      elim (Bool-cases (ltb p.failover_priority reconnected.failover_priority)) [
        | inl higher ↦ rw higher (
            Adds-trans (trigger_patroni_switchover-Adds is_stop_task e c reconnected ns p.id w)
              (moved_primary-Adds p (trigger_patroni_switchover e c reconnected ns p.id w)))
        | inr lower ↦ rw lower (start_reconnected-Adds (some p) w)
      ]

module _ (e : Env) (node cluster_id : ℕ) (c : Cluster)
    (always : c.app_tier_always_available ≡ true) where
  with_nodes-Adds :
      (n : Node) (o : Option (List Node)) (w : World)
      → Adds (NotTask is_stop_task) w.log (failback_with_nodes e c n o w).log
  unfolding failback_with_nodes attempt_failback_always_available
  with_nodes-Adds n none w = same
  with_nodes-Adds n (some ns) w =
      simp always (always_available-Adds e c n ns (other_primary n.id ns) w)

  with_node-Adds :
      (o : Option Node) (w : World)
      → Adds (NotTask is_stop_task) w.log (failback_with_node e c cluster_id o w).log
  unfolding failback_with_node
  with_node-Adds none w = same
  with_node-Adds (some n) w = elim (Bool-cases (n.maintenance_mode || n.suppress_auto_start)) [
    | inl out ↦ rw out same
    | inr in_service ↦ rw in_service (elim (Bool-cases (is_app_role n.role)) [
      | inl app ↦ rw app (with_nodes-Adds n (e.nodes cluster_id) w)
      | inr db ↦ rw db same
    ])
  ]

  -- In a cluster whose app tier is always available, a failback records and sends no stop of NetBox.
  pub attempt_failback-no_stop :
      (w : World)
      → e.cluster cluster_id ≡ some c
      → count is_stop (attempt_failback e node cluster_id w).log ≡ count is_stop w.log
  unfolding attempt_failback failback_with_cluster
  attempt_failback-no_stop w hc = elim (Bool-cases (is_connected node w.hub)) [
    | inr away ↦ rw away refl
    | inl there ↦
        rw (there, hc)
          (elim (Bool-cases (not c.auto_failback || not (str_eq c.mode "active_standby"))) [
            | inl off ↦ rw off refl
            | inr on ↦ rw on (count-Adds is_stop not_stop (with_node-Adds (e.node node) _))
          ])
  ]
