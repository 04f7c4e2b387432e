-- ===== src/Failover/Attempt/Adds.antt =====
-- What a switchover and what follows it add to the log: no start and no stop of NetBox.
use netbox_conductor.Base.{
  ℕ, Bool, false, ◌&&◌, ◌||◌, not, ◌≡◌, Option, List, str_eq, Bool-cases, inl, inr,
}
use netbox_conductor.Nodestate.{Node, extract_patroni_role_strict}
use netbox_conductor.Protocol.{TaskType, update_db_host, update_redis_host}
use netbox_conductor.Failover.State.{Cluster, Env, RestError, World}
use netbox_conductor.Failover.Tasks.Adds.{
  dispatch_db_host_update-Adds, dispatch_redis_host_update-Adds,
}
use netbox_conductor.Failover.Switchover.{bare_ip, movable, trigger_patroni_switchover}
use netbox_conductor.Failover.Attempt.{follow_switchover}
use netbox_conductor.Failover.Log.{NotTask, Adds, same, more, Adds-trans}

module _ (p : TaskType → Bool) where
  pub trigger_patroni_switchover-Adds :
      (e : Env) (c : Cluster) (n : Node) (ns : List Node) (failing : ℕ) (w : World)
      → Adds (NotTask p) w.log (trigger_patroni_switchover e c n ns failing w).1.log
  unfolding trigger_patroni_switchover
  trigger_patroni_switchover-Adds e c n ns failing w =
      elim (Bool-cases (not c.patroni_configured || not (str_eq c.mode "active_standby"))) [
        | inl off ↦ rw off same
        | inr on ↦
            rw on (elim (Bool-cases (movable (extract_patroni_role_strict n.patroni_state))) [
              | inl b ↦ rw b (more tt same)
              | inr b ↦ rw b same
            ])
      ]

  follow_switchover-Adds :
      (e : Env) (c : Cluster) (n : Node) (ns : List Node) (r : (Bool × Option RestError) × World)
      → p update_db_host ≡ false
      → p update_redis_host ≡ false
      → Adds (NotTask p) r.1.log (follow_switchover e c n ns r).log
  unfolding follow_switchover
  follow_switchover-Adds e c n ns ((triggered, err), w) hd hr =
      elim (Bool-cases (triggered && c.app_tier_always_available)) [
        | inr off ↦ rw off same
        | inl on ↦ rw on (
            Adds-trans (dispatch_db_host_update-Adds p e ns (bare_ip n.ip_address) w hd)
              (dispatch_redis_host_update-Adds p e ns (bare_ip n.ip_address) _ hr))
      ]

  -- The switchover with the host updates that follow it.
  pub switchover-Adds :
      (e : Env) (c : Cluster) (n : Node) (ns : List Node) (failing : ℕ) (w : World)
      → p update_db_host ≡ false
      → p update_redis_host ≡ false
      → Adds
          (NotTask p)
          w.log
          (follow_switchover e c n ns (trigger_patroni_switchover e c n ns failing w)).log
  switchover-Adds e c n ns failing w hd hr =
      Adds-trans (trigger_patroni_switchover-Adds e c n ns failing w)
        (follow_switchover-Adds e c n ns (trigger_patroni_switchover e c n ns failing w) hd hr)
